-- ===== src/TakeExam/Submit.antt =====
-- Submitting the exam, and what an earlier visit to the page left in localStorage.
use wazire.Base.{ℕ, ◌≡◌, false, Option, some, List, [], ◌∷◌, arith, get_elem?}
use wazire.Base.Text.{Text}
use wazire.Base.Number.{Number}
use wazire.Base.Dict.{Dict, lookup, insert}
use wazire.TakeExam.Answer.{Answer, AnswerValue, QuestionType, format_queued}
use wazire.TakeExam.Queue.{Page, submit, restored, handle_submit, immediate_fails, fresh}
use wazire.TakeExam.Steps.{System, Inv, step, submitted}

-- A click on submit, when no submission is under way, makes the one call that submits the exam: no
-- queued answer is sent before it. The answers that localStorage holds stay in the queue, the
-- server's answers do not change, and until the reply further clicks do nothing.
pub submit_skips_queue :
    (t : Number → Text) (s : System)
    → s.page.submitting ≡ false
    → let s' = step t submitted s in
      (s'.page.sent ≡ submit ∷ s.page.sent)
      × (s'.page.in_flight ≡ s.page.in_flight)
      × (s'.page.pending ≡ restored s.page.stored s.page.pending)
      × (s'.server ≡ s.server)
      × (step t submitted s' ≡ s')
unfolding step handle_submit
submit_skips_queue t s h = ground arith

-- A page that has just been loaded satisfies the invariant, whatever localStorage holds.
pub fresh-Inv :
    (questions : Dict QuestionType) (saved : List (Text × Answer)) (stored : Option (Dict Answer))
    → Inv (fresh questions saved stored)
unfolding fresh
fresh-Inv questions saved stored = ground arith

-- On a page whose queue is empty, as after loading it, the first save that fails replaces all that
-- localStorage held by the one answer whose save failed.
pub stored_answers_overwritten :
    (i : ℕ) (q : Text) (v : AnswerValue) (p : Page)
    → p.pending ≡ []
    → get_elem? p.immediate i ≡ some (q, v)
    → (immediate_fails i p).stored ≡ some ((q, format_queued (lookup q p.questions) v) ∷ [])
unfolding immediate_fails insert
stored_answers_overwritten i q v p h f = rw (f, immediate_fails) (ground arith)
