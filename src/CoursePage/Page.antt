-- ===== src/CoursePage/Page.antt =====
-- The handlers of the page, each cut where it waits for the server. The timer that clears the
-- message of success is left out.
use wazire.Base.{
  ℕ, Bool, true, false, not, ◌&&◌, ◌||◌, Option, none, some, List, [], ◌∷◌, ◌++◌, is_empty, any,
  if◌then◌else◌, leb, ◌==◌,
}
use wazire.Base.Text.{Text, text, text_eq}
use wazire.ListPages.Enrollments.{Answer, show_answer}
use wazire.CourseList.Page.{no_lecturer, by_id, known}
use wazire.CoursePage.Types
use wazire.CoursePage.Types.{
  Course, Exam, Enrollment, Candidate, ExamsPane, Page, Request, delete_course, enroll_student,
  remove_enrollment, list_enrollments,
}

abbrev message_or : Text → Option Text → Text
message_or default none = default
message_or default (some e) = e

-- What the first four requests give, if none of the first three fails.
pub record Loaded : Type 0 where
  pub course : Course
  pub exams : List Exam
  pub exams_has_next : Bool
  pub years : List ℕ
  pub enrollments : Answer Enrollment

-- `years.sort((a, b) => b - a)`.
abbrev insert_year : ℕ → List ℕ → List ℕ
insert_year y [] = y ∷ []
insert_year y (z ∷ zs) = if leb z y then y ∷ z ∷ zs else z ∷ insert_year y zs

pub sort_years : List ℕ → List ℕ
sort_years [] = []
sort_years (y ∷ ys) = insert_year y (sort_years ys)

-- The end of `loadData`; the message is none where what was thrown is no `Error`.
unfoldable pub loaded : Loaded → Page → Page
unfolding sort_years
loaded l p = record p {
  course = some l.course;
  exams_pane = record p.exams_pane {
    exams = l.exams;
    has_next = l.exams_has_next;
    loading = false;
  };
  available_years = sort_years l.years;
  pane = show_answer (some l.enrollments) p.pane;
  loading = false;
  enrollments_loading = false;
}

unfoldable pub load_failed : Option Text → Page → Page
load_failed message p = record p {
  error = some (message_or (text "Failed to load course details") message);
  loading = false;
  exams_pane = record p.exams_pane { loading = false };
  enrollments_loading = false;
}

-- A page of exams as the server gives it, or the message of its failure.
pub data ExamsAnswer : Type 0 where
  listed : List Exam → Bool → ExamsAnswer
  failed_with : Option Text → ExamsAnswer

unfoldable pub show_exams : ExamsAnswer → ExamsPane → ExamsPane
show_exams (listed es more) e = record e {
  exams = es;
  has_next = more;
  error = none;
  loading = false;
}
show_exams (failed_with message) e = record e {
  error = some (message_or (text "Failed to load exams") message);
  loading = false;
}

-- The effect that fetches exams, with the answer of the server to a page and a year.
unfoldable pub fetch_exams : (ℕ → ℕ → ExamsAnswer) → ExamsPane → ExamsPane
unfolding show_exams
fetch_exams server e =
    if leb 2 e.page || not (e.year == 0) then show_exams (server e.page e.year) e else e

-- It runs where the page or the year has changed.
unfoldable pub settle_exams : (ℕ → ℕ → ExamsAnswer) → ExamsPane → ExamsPane → ExamsPane
unfolding fetch_exams
settle_exams server before e =
    if (before.page == e.page) && (before.year == e.year) then e else fetch_exams server e

-- `handleDelete` up to the request, and the rest of it.
abbrev pub send_delete : Option Course → Text → Page → Page
send_delete none id p = p
send_delete (some c) id p = record p {
  is_deleting = true;
  requests = delete_course id ∷ p.requests;
}

unfoldable pub handle_delete : Text → Page → Page
handle_delete id p = send_delete p.course id p

unfoldable pub course_deleted : Page → Page
course_deleted p = record p { went_to = some (text "/courses") }

unfoldable pub delete_failed : Option Text → Page → Page
delete_failed message p = record p {
  error = some (message_or (text "Failed to delete course") message);
  is_deleting = false;
  show_delete_confirm = false;
}

-- The students that the dialog can offer: users with that role who are not among the students of
-- the page of the list that is shown.
pub record User : Type 0 where
  pub id : Text
  pub first_name : Text
  pub last_name : Text
  pub email : Text
  pub role : Text

abbrev pub student_id : Types.Student → Text
student_id (Types.Student.by_id id) = []
student_id (Types.Student.known id first last institution) = id

abbrev pub is_enrolled : List Enrollment → Text → Bool
is_enrolled enrollments id = any (λ (e : Enrollment). text_eq (student_id e.student) id) enrollments

unfoldable pub candidates : List Enrollment → List User → List Candidate
candidates enrollments [] = []
candidates enrollments (u ∷ us) =
    if text_eq u.role (text "student") && not (is_enrolled enrollments u.id)
    then record { id = u.id; name = u.first_name ++ (text " " ++ u.last_name); email = u.email }
      ∷ candidates enrollments us
    else candidates enrollments us

unfoldable pub students_fetched : List User → Page → Page
unfolding candidates
students_fetched us p = record p { students = candidates p.pane.enrollments us }

-- `handleEnrollStudent` up to its first request.
unfoldable pub handle_enroll_student : Text → Page → Page
handle_enroll_student id p = if is_empty id || is_empty p.selected_student_id then p else record p {
  enroll_loading = true;
  enroll_error = none;
  enroll_success = none;
  requests = enroll_student p.selected_student_id id p.selected_semester ∷ p.requests;
}

-- Between its two requests.
unfoldable pub enrolled : Text → Page → Page
enrolled id p = record p {
  enroll_success = some (text "Student enrolled successfully!");
  selected_student_id = [];
  requests = list_enrollments id p.pane.query ∷ p.requests;
}

unfoldable pub enrolled_listed : Answer Enrollment → Page → Page
enrolled_listed a p = record p { pane = show_answer (some a) p.pane; enroll_loading = false }

-- What is thrown: an object with a response, whose data may have a detail, an error and a message;
-- another object with a message; or something else.
pub data Thrown : Type 0 where
  with_response : Text → Text → Text → Thrown
  error_with : Text → Thrown
  other : Thrown

abbrev or_else : Text → Text → Text
or_else [] default = default
or_else (c ∷ s) default = c ∷ s

unfoldable pub enroll_message : Thrown → Text
enroll_message (with_response detail error message) =
    or_else detail (or_else error (or_else message (text "Failed to enroll student")))
enroll_message (error_with message) = message
enroll_message other = text "Failed to enroll student"

-- Where either request fails.
unfoldable pub enroll_failed : Thrown → Page → Page
unfolding enroll_message
enroll_failed e p = record p { enroll_error = some (enroll_message e); enroll_loading = false }

unfoldable pub close_enroll_modal : Page → Page
close_enroll_modal p = record p {
  enroll_open = false;
  selected_student_id = [];
  enroll_error = none;
  enroll_success = none;
}

-- `handleUnenrollStudent` up to its first request.
abbrev pub send_unenroll : Option Text → Page → Page
send_unenroll none p = p
send_unenroll (some id) p = record p {
  unenroll_loading = some id;
  requests = remove_enrollment id ∷ p.requests;
}

unfoldable pub handle_unenroll_student : Page → Page
handle_unenroll_student p = send_unenroll p.selected_enrollment_id p

unfoldable pub unenrolled : Text → Page → Page
unenrolled id p = record p { requests = list_enrollments id p.pane.query ∷ p.requests }

unfoldable pub unenrolled_listed : Answer Enrollment → Page → Page
unenrolled_listed a p = record p {
  pane = show_answer (some a) p.pane;
  show_unenroll_confirm = false;
  selected_enrollment_id = none;
  unenroll_loading = none;
}

unfoldable pub unenroll_failed : Option Text → Page → Page
unenroll_failed message p = record p {
  alerted = some (message_or (text "Failed to unenroll student") message);
  unenroll_loading = none;
}

unfoldable pub open_unenroll_confirm : Text → Page → Page
open_unenroll_confirm id p = record p {
  selected_enrollment_id = some id;
  show_unenroll_confirm = true;
}

-- `canEdit` and `canDelete`, for a user with a role and an identifier.
abbrev teaches : Text → Option Course → Bool
teaches own none = false
teaches own (some c) = elim c.lecturer [
  | no_lecturer ↦ false
  | by_id id ↦ false
  | known id first last ↦ text_eq id own
]

unfoldable pub can_edit : Text → Text → Option Course → Bool
can_edit role own course =
    text_eq role (text "admin") || (text_eq role (text "lecturer") && teaches own course)
