-- ===== src/TakeExam/ScreenTests.antt =====
-- An exam of two questions, of which the first is answered, and the theorems there.
use wazire.Base.{
  ℕ, suc, ◌+◌, ◌≡◌, ◌⊎◌, ◌↔◌, refl, true, false, not, Option, none, some, [], ◌∷◌, length, ◌==◌,
  if◌then◌else◌, arith, inl, inr,
}
use wazire.Base.Text.{Text, text, text_eq}
use wazire.Base.Number.{Number}
use wazire.Base.Dict.{lookup}
use wazire.Ui.Element.{Offers, button, stack}
use wazire.TakeExam.Answer.{AnswerValue, str, theory}
use wazire.TakeExam.Sheet
use wazire.TakeExam.Sheet.{
  Question, Sheet, current_question, is_last, is_answered, answered_count, jump,
}
use wazire.TakeExam.Screen
use wazire.TakeExam.Screen.{navigation, next, previous, open_submit}
use wazire.TakeExam.Moves.{
  here, acted, step, IsInRange, shown_question_exists, next_times, next_leads_to_submit,
}
use wazire.TakeExam.Emptied.{emptied_answer_counts}
use wazire.TakeExam.Entrance
use wazire.TakeExam.Entrance.{
  Exam, Submission, Door, start_exam, handle_start_exam, started, start_failed,
}
use wazire.TakeExam.Starting.{starts_once}
use wazire.TakeExam.Loading.{ok, failed, Visit, found, load}
use wazire.TakeExam.Timer.{run_ticks}
use wazire.TakeExam.Deadline.{duration, deadline_of, expires, exam_ends_at_deadline}
use wazire.TakeExam.Ready.{known, IsReady, start_offered_iff}

abbrev number_text : Number → Text
number_text n = []

abbrev percent : ℕ → ℕ → Text
percent k n = []

abbrev value_text : Option AnswerValue → Text
value_text v = []

abbrev first_id : Text
first_id = b'a' ∷ []

abbrev first : Question
first = record { id = first_id; text = b'?' ∷ []; qtype = theory; options = none; mark = 2 }

abbrev second : Question
second = record { id = b'b' ∷ []; text = b'?' ∷ []; qtype = theory; options = none; mark = 3 }

abbrev reply : AnswerValue
reply = str (b'y' ∷ [])

abbrev sheet : Sheet
sheet = record {
  title = b'E' ∷ [];
  course_id = [];
  questions = first ∷ second ∷ [];
  current = some 0;
  time_remaining = 60;
  modal_open = false;
  page = record {
    questions = [];
    answers = (first_id, reply) ∷ [];
    immediate = [];
    pending = [];
    processing = false;
    in_flight = [];
    stored = none;
    pending_count = 0;
    submitting = false;
    left = false;
    error = false;
    sent = [];
  };
}

abbrev skip : {A B C D E F G : Type 0} → G → A ⊎ (B ⊎ (C ⊎ (D ⊎ (E ⊎ (F ⊎ G)))))
skip d = inr (inr (inr (inr (inr (inr d)))))

next_offered : Offers next (Screen.view percent value_text sheet)
unfolding Screen.view Screen.exam_header Screen.question_header Screen.question_body navigation
    current_question is_last stack
next_offered = skip (skip (inr (inl (refl, refl))))

abbrev moved : Sheet
moved = step number_text next sheet

shown_question_exists_example :
    (moved.questions ≡ sheet.questions) × IsInRange (length sheet.questions) moved.current
shown_question_exists_example =
    shown_question_exists number_text percent value_text sheet (step number_text next sheet)
      (omega arith) (acted here next next_offered)

next_leads_to_submit_example :
    let t = next_times 1 sheet in
    (t.current ≡ some (0 + 1))
    × (navigation t
        ≡ button (text "Previous") (not (0 + 1 == 0)) previous
          ∷ (if suc (0 + 1) == length sheet.questions
              then button (text "Submit Exam") true open_submit
              else button (text "Next") true next)
          ∷ [])
next_leads_to_submit_example = next_leads_to_submit 1 0 sheet refl (omega arith)

answer_there : lookup first_id sheet.page.answers ≡ some reply
unfolding lookup text_eq
answer_there = refl

emptied_answer_counts_example :
    let t = Sheet.answer number_text first_id (str []) sheet in
    (is_answered t.page.answers first_id ≡ false)
    × (answered_count t ≡ answered_count sheet)
    × (Screen.summary percent value_text t ≡ Screen.summary percent value_text sheet)
    × (Screen.warning percent value_text t ≡ Screen.warning percent value_text sheet)
emptied_answer_counts_example =
    emptied_answer_counts number_text percent value_text sheet first_id reply answer_there

abbrev exam : Exam
exam = record {
  title = b'E' ∷ [];
  course_id = [];
  description = [];
  duration_hours = 1;
  duration_minutes = 0;
  start_time = none;
  end_time = none;
  max_attempts = 1;
}

abbrev door : Door
door = record {
  id = b'e' ∷ [];
  loading = false;
  error = none;
  exam = some exam;
  course_name = [];
  questions = first ∷ [];
  existing = none;
  checking = false;
  starting = false;
  went_to = none;
}

abbrev under_way : Submission
under_way = record { attempts = 0; status = text "in_progress"; created_at = none }

starts_once_example :
    let asked = handle_start_exam door in
    (¬ Offers start_exam (Entrance.view (λ t. []) 0 asked))
    × (¬ Offers start_exam (Entrance.view (λ t. []) 0 (started under_way asked)))
    × (¬ Offers start_exam (Entrance.view (λ t. []) 0 (start_failed asked)))
starts_once_example = starts_once (λ t. []) 0 door under_way refl refl

abbrev visit : Visit
visit = record {
  door = record door { loading = true; exam = none; questions = [] };
  answers = [];
  timer = record { deadline = none; time_remaining = 0; total_duration = 0 };
}

-- The exam of an hour, begun at ten seconds, which is loaded at fifteen.
abbrev begun : Submission
begun = record under_way { created_at = some 10000 }

exam_ends_at_deadline_example :
    run_ticks
      (16000 ∷ 3609600 ∷ 3610600 ∷ [])
      (load (ok (some exam, first ∷ [])) (ok (some begun)) (failed none) 15000 visit).timer
    ≡ (if expires
          (deadline_of exam (found (ok (some begun))))
          (duration exam)
          15000
          (16000 ∷ 3609600 ∷ 3610600 ∷ [])
        then 1
        else 0)
exam_ends_at_deadline_example =
    exam_ends_at_deadline exam (first ∷ []) (ok (some begun)) (failed none) 15000 visit
      (16000 ∷ 3609600 ∷ 3610600 ∷ []) refl (omega arith) (λ e. ground arith)

start_offered_iff_example :
    Offers start_exam (
      Entrance.view
        (λ t. [])
        0
        (load (ok (some exam, first ∷ [])) (failed none) (ok []) 0 visit).door)
    ↔ IsReady (ok (some exam, first ∷ [])) (known (failed none) visit.door.existing) visit.door
start_offered_iff_example =
    start_offered_iff (failed none) (ok []) 0 visit refl (λ t. []) 0 (ok (some exam, first ∷ []))
