-- ===== src/TakeExam/Invariant.antt =====
-- What holds of the exam page between any two events.
use wazire.Base.{ℕ, ◌≡◌, some, List, [], ◌∷◌, arith, inl, inr, Option-cases}
use wazire.Base.Text.{Text}
use wazire.Base.Number.{Number}
use wazire.Base.Dict.{lookup}
use wazire.TakeExam.Answer.{Answer, AnswerValue}
use wazire.TakeExam.Queue.{
  Page, process_queue, save_succeeds, save_fails, enqueue_save, handle_submit, immediate_fails,
}
use wazire.TakeExam.Steps.{
  Event, answered, immediate_ok, immediate_failed, wake, save_ok, save_failed, submitted, submit_ok,
  submit_failed, System, step, run, Inv,
}

process_queue-Inv : (p : Page) → Inv p → Inv (process_queue p)
unfolding process_queue
process_queue-Inv p h = ground arith

enqueue_save-Inv : (q : Text) (v : AnswerValue) (p : Page) → Inv p → Inv (enqueue_save q v p)
unfolding enqueue_save
enqueue_save-Inv q v p h = ground arith

immediate_fails-Inv : (i : ℕ) (p : Page) → Inv p → Inv (immediate_fails i p)
unfolding immediate_fails
immediate_fails-Inv i p h = ground arith

save_succeeds-Inv :
    (q : Text) (a : Answer) (p : Page)
    → Inv p
    → lookup q p.in_flight ≡ some a
    → Inv (save_succeeds q p)
unfolding save_succeeds lookup
save_succeeds-Inv q a p h o = ground arith

save_fails-Inv :
    (q : Text) (a : Answer) (p : Page)
    → Inv p
    → lookup q p.in_flight ≡ some a
    → Inv (save_fails q p)
unfolding save_fails lookup
save_fails-Inv q a p h o = ground arith

handle_submit-Inv : (p : Page) → Inv p → Inv (handle_submit p)
unfolding handle_submit
handle_submit-Inv p h = ground arith

step-Inv : (t : Number → Text) (e : Event) (s : System) → Inv s.page → Inv (step t e s).page
unfolding step
step-Inv t (answered q v) s h = ground arith
step-Inv t (immediate_ok i) s h = ground arith
step-Inv t (immediate_failed i reached) s h = immediate_fails-Inv i s.page h
step-Inv t wake s h = process_queue-Inv s.page h
step-Inv t (save_ok q) s h = elim (Option-cases (lookup q s.page.in_flight)) [
  | inl missing ↦ rw missing h
  | inr (a, found) ↦ rw found (save_succeeds-Inv q a s.page h found)
]
step-Inv t (save_failed q reached) s h = elim (Option-cases (lookup q s.page.in_flight)) [
  | inl missing ↦ rw missing h
  | inr (a, found) ↦ rw found (save_fails-Inv q a s.page h found)
]
step-Inv t submitted s h = handle_submit-Inv s.page h
step-Inv t submit_ok s h = ground arith
step-Inv t submit_failed s h = ground arith

-- Along every sequence of events from a page where they hold: the count that is shown is the number
-- of queued answers, a queue that is not empty is the one in localStorage, and a batch is running
-- exactly while a save of it is outstanding.
pub run-Inv :
    (t : Number → Text) (es : List Event) (s : System) → Inv s.page → Inv (run t es s).page
unfolding run
run-Inv t [] s h = h
run-Inv t (e ∷ es) s h = run-Inv t es (step t e s) (step-Inv t e s h)
