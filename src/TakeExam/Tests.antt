-- ===== src/TakeExam/Tests.antt =====
-- Runs of the exam page on small inputs, and the theorems at them.
use wazire.Base.{
  ltb, ◌&&◌, if◌then◌else◌, ◌≡◌, ◌≢◌, refl, false, none, some, List, [], ◌∷◌, arith, map,
}
use wazire.Base.Text.{Text, text_eq}
use wazire.Base.Number.{Number}
use wazire.Base.Dict.{lookup, insert, delete, keys}
use wazire.TakeExam.Answer.{Answer, AnswerValue, str, text_of, theory, format_queued}
use wazire.TakeExam.Queue.{Page, fresh}
use wazire.TakeExam.Steps.{
  System, Inv, Event, answered, immediate_failed, wake, save_ok, submitted, step, run,
}
use wazire.TakeExam.Invariant.{run-Inv}
use wazire.TakeExam.Delivery.{queued_until_saved, newer_answer_lost}
use wazire.TakeExam.Timer.{Timer, run_ticks}
use wazire.TakeExam.Countdown.{uses_up, countdown_submits}
use wazire.TakeExam.Drain.{or_else, wake_drains}
use wazire.TakeExam.Submit.{fresh-Inv}

-- No number is printed in these runs.
abbrev number_text : Number → Text
number_text n = []

abbrev q1 : Text
q1 = 1 ∷ []

abbrev q2 : Text
q2 = 2 ∷ []

abbrev a1 : AnswerValue
a1 = str (65 ∷ [])

abbrev a2 : AnswerValue
a2 = str (66 ∷ [])

-- Two theory questions; an earlier visit left an answer to the second in localStorage.
abbrev loaded : System
loaded = record {
  page = fresh ((q1, theory) ∷ (q2, theory) ∷ []) [] (some ((q2, text_of a2) ∷ []));
  server = [];
}

-- The student answers the first question twice while the network is down.
abbrev offline : List Event
offline = answered q1 a1 ∷ immediate_failed 0 false ∷ answered q1 a2 ∷ []

run-Inv_example : Inv (run number_text offline loaded).page
run-Inv_example = run-Inv number_text offline loaded (fresh-Inv _ [] _)

racing : System
unfolding run step fresh lookup insert delete format_queued text_eq
racing = run number_text offline loaded

-- The first answer is on its way from the queue, and the second by itself.
racing_state :
    (racing.page.in_flight ≡ (q1, text_of a1) ∷ []) × (racing.page.immediate ≡ (q1, a2) ∷ [])
unfolding racing
racing_state = (refl, refl)

racing-Inv : Inv racing.page
unfolding racing
racing-Inv = run-Inv number_text offline loaded (fresh-Inv _ [] _)

queued_until_saved_example : lookup q1 (step number_text submitted racing).page.pending ≢ none
queued_until_saved_example =
    queued_until_saved number_text submitted racing q1 racing-Inv (unfold racing in λ e. cc)
      (λ e. cc)

newer_answer_lost_example :
    let s' = step number_text (immediate_failed 0 false) racing in
    let s'' = step number_text (save_ok q1) s' in
    (lookup q1 s'.page.pending ≡ some (format_queued (lookup q1 racing.page.questions) a2))
    × (lookup q1 s''.server ≡ some (text_of a1))
    × (lookup q1 s''.page.pending ≡ none)
    × (lookup q1 s''.page.in_flight ≡ none)
newer_answer_lost_example =
    newer_answer_lost number_text racing 0 q1 a2 (text_of a1) racing-Inv (unfold racing in refl)
      (unfold racing in refl)

-- The page with one answer in its queue and no batch under way.
abbrev waiting : System
waiting = record {
  page = record loaded.page {
    pending = (q1, text_of a1) ∷ [];
    stored = some ((q1, text_of a1) ∷ []);
    pending_count = 1;
  };
  server = [];
}

waiting-Inv : Inv waiting.page
unfolding fresh
waiting-Inv = ground arith

wake_drains_example :
    let s' = run number_text (wake ∷ map save_ok (keys waiting.page.pending)) waiting in
    (s'.page.pending ≡ [])
    × (s'.page.processing ≡ false)
    × (lookup q1 s'.server ≡ or_else (lookup q1 waiting.page.pending) (lookup q1 waiting.server))
wake_drains_example = wake_drains number_text waiting q1 waiting-Inv (unfold fresh in refl)

abbrev revisited : Page
revisited = record loaded.page { immediate = (q1, a1) ∷ [] }

abbrev saved_before : List (Text × Answer)
saved_before = (q1, format_queued (some theory) a1) ∷ []

abbrev saved_after : List (Text × Answer)
saved_after = (b'z' ∷ [], format_queued (some theory) a1) ∷ []

-- A countdown with three seconds left to its deadline.
abbrev dated : Timer
dated = record { deadline = some 9000; time_remaining = 3; total_duration = 60 }

countdown_submits_example :
    run_ticks (7000 ∷ 8600 ∷ 9600 ∷ []) dated
    ≡ (if ltb 0 3 && uses_up (some 9000) 3 (7000 ∷ 8600 ∷ 9600 ∷ []) then 1 else 0)
countdown_submits_example = countdown_submits (7000 ∷ 8600 ∷ 9600 ∷ []) dated
