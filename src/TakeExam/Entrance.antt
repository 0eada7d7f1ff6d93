-- ===== src/TakeExam/Entrance.antt =====
-- What frontend/src/pages/TakeExam.tsx shows before the exam is taken, and `handleStartExam`.
use wazire.Base.{
  ℕ, Bool, true, false, not, ◌&&◌, ◌||◌, Option, none, some, List, [], ◌∷◌, ◌++◌, is_empty, length,
  ltb, leb, ◌==◌, ◌-◌, ◌*◌, if◌then◌else◌,
}
use wazire.Base.Text.{Text, text, text_eq}
use wazire.Base.Decimal.{print}
use wazire.Display.Duration.{exam_duration, format_duration}
use wazire.Ui.Element.{Element, said, button, View, shown_if}
use wazire.Ui.Parts.{loading_button}
use wazire.TakeExam.Sheet.{Question}

-- Times are milliseconds since the epoch.
pub record Exam : Type 0 where
  pub title : Text
  pub course_id : Text
  pub description : Text
  pub duration_hours : ℕ
  pub duration_minutes : ℕ
  pub start_time : Option ℕ
  pub end_time : Option ℕ
  pub max_attempts : ℕ  -- 0 where it is missing

pub record Submission : Type 0 where
  pub attempts : ℕ
  pub status : Text
  pub created_at : Option ℕ

pub record Door : Type 0 where
  pub id : Text
  pub loading : Bool
  pub error : Option Text
  pub exam : Option Exam
  pub course_name : Text
  pub questions : List Question
  pub existing : Option Submission
  pub checking : Bool
  pub starting : Bool
  pub went_to : Option Text  -- where `navigate` has led

pub data Event : Type 0 where
  visit : Text → Event
  start_exam : Event

abbrev or_else : Text → Text → Text
or_else [] default = default
or_else (c ∷ s) default = c ∷ s

-- `handleStartExam` up to its request, and the rest of it.
unfoldable pub handle_start_exam : Door → Door
handle_start_exam d = if is_empty d.id then d else record d { starting = true }

abbrev active : Text → Text
active id = text "/exams/" ++ (id ++ text "/active")

unfoldable pub started : Submission → Door → Door
started s d = record d { existing = some s; went_to = some (active d.id); starting = false }

unfoldable pub start_failed : Door → Door
start_failed d = record d {
  error = some (text "Failed to start exam. You may have already started this exam.");
  starting = false;
}

abbrev back : Element Event
back = button (text "Back to Exams") true (visit (text "/exams"))

unfoldable pub failure : Text → View Event
failure e = said (text "Error") ∷ said e ∷ back ∷ []

unfoldable pub not_found : View Event
not_found = said (text "Exam Not Found") ∷ said (text "The exam could not be found.") ∷ back ∷ []

unfoldable pub submitted : View Event
submitted =
    said (text "Exam Already Submitted")
    ∷ said (text "You have already submitted this exam.")
    ∷ back
    ∷ button (text "View Submissions") true (visit (text "/submissions"))
    ∷ []

unfoldable pub in_progress : Text → View Event
in_progress id =
    said (text "Exam in Progress")
    ∷ said (text "You have an ongoing exam. Click below to continue.")
    ∷ back
    ∷ button (text "Continue Exam") true (visit (active id))
    ∷ []

unfoldable pub no_questions : View Event
no_questions =
    said (text "No Questions Available")
    ∷ said (
        text
          "This exam doesn't have any questions yet. Please check back later or contact your lecturer.")
    ∷ back
    ∷ []

-- Whether the exam starts in the half hour after `now`; times are milliseconds.
abbrev pub starts_soon : ℕ → Option ℕ → Bool
starts_soon now none = false
starts_soon now (some start) = ltb now start && leb (start - now) (30 * 60 * 1000)

abbrev start_text : (ℕ → Text) → Option ℕ → Text
start_text time_text none = text "Not set"
start_text time_text (some start) = time_text start

-- The screen from which the exam is started, and its part below the name of the exam. `time_text` is
-- the text of a date of the platform.
unfoldable pub facts : (ℕ → Text) → ℕ → Exam → Door → View Event
unfolding exam_duration format_duration
facts time_text now e d =
    said (text "Duration")
    ∷ said (format_duration (exam_duration e.duration_hours e.duration_minutes))
    ∷ said (if starts_soon now e.start_time then text "Starting Soon!" else text "Starts At")
    ∷ said (start_text time_text e.start_time)
    ∷ said (text "Questions")
    ∷ said (print (length d.questions))
    ∷ said (text "Attempts")
    ∷ said (if e.max_attempts == 0 then text "∞" else print e.max_attempts)
    ∷ said (text "Instructions")
    ∷ said (text "Timer cannot be paused once started")
    ∷ said (text "Navigate between questions using Previous/Next")
    ∷ said (text "Review your answers before submission")
    ∷ said (text "Auto-submitted when time expires")
    ∷ button (text "Cancel") true (visit (text "/exams"))
    ∷ loading_button (if is_empty d.questions then text "No Questions" else text "Start Exam")
        (d.starting || d.checking) (is_empty d.questions) start_exam
    ∷ []

unfoldable pub welcome : (ℕ → Text) → ℕ → Exam → Door → View Event
unfolding facts
welcome time_text now e d =
    button (text "Back") true (visit (text "/exams"))
    ∷ said e.title
    ∷ said (
        or_else d.course_name
          (if is_empty e.course_id then text "General Course" else text "Course " ++ e.course_id))
    ∷ (shown_if (not (is_empty e.description)) (said e.description ∷ []) ++ facts time_text now e d)

abbrev pub has_attempts : Option Submission → Bool
has_attempts none = false
has_attempts (some s) = ltb 0 s.attempts

abbrev pub is_in_progress : Option Submission → Bool
is_in_progress none = false
is_in_progress (some s) = text_eq s.status (text "in_progress")

abbrev pub view_exam : (ℕ → Text) → ℕ → Exam → Door → View Event
view_exam time_text now e d =
    if has_attempts d.existing
    then submitted
    else if is_in_progress d.existing
    then in_progress d.id
    else if not d.checking && is_empty d.questions
    then no_questions
    else welcome time_text now e d

abbrev pub view_unless : (ℕ → Text) → ℕ → Option Text → Option Exam → Door → View Event
view_unless time_text now (some message) exam d = failure message
view_unless time_text now none none d = not_found
view_unless time_text now none (some e) d = view_exam time_text now e d

-- The screens before the exam; the skeleton that stands for a page that loads shows nothing.
unfoldable pub view : (ℕ → Text) → ℕ → Door → View Event
unfolding failure not_found submitted in_progress no_questions welcome
view time_text now d = if d.loading then [] else view_unless time_text now d.error d.exam d
