-- ===== src/ListPages/Tests.antt =====
-- An exam of no hours and thirty minutes, two exams of which one is the student's, and the theorems
-- at them.
use wazire.Base.{
  All, ◌⊎◌, inl, inr, ℕ, Option, ◌==◌, ◌≡◌, ◌≤◌, refl, true, false, none, some, List, [], ◌∷◌,
  arith,
}
use wazire.Base.Text.{Text, text, text_eq, trim_start, is_space}
use wazire.Base.Parse.{parse_int, parse_digits, prefix}
use wazire.Base.Decimal.{read_digits}
use wazire.ListPages.Students.{
  Listing, exams_shown, courses_for_student, students_see_one_page, exam_page_size,
  course_page_size,
}
use wazire.Ui.Element.{Offers, stack}
use wazire.Ui.Parts.{search_input, modal}
use wazire.ListPages.ExamsLook
use wazire.ListPages.ExamsLook.{Fetched, ask_delete, confirm_delete}
use wazire.ListPages.Managed.{here, acted, RequestAllowed, only_unfinished_exams_deleted}
use wazire.ListPages.Exams
use wazire.ListPages.Exams.{Exam, Page, ExamForm, done, can_submit, is_too_short}
use wazire.ListPages.Enrollments.{
  Query, first_query, Answer, Pane, is_fetched, same_query, items_of, next_page, settle,
  fetch_enrollments,
}
use wazire.ListPages.Stale
use wazire.ListPages.Stuck.{Event, run, step, short_exam_sticks}
use wazire.ListPages.Stuck.Event.{submitted, opened, closed, replied}

abbrev half_hour : ExamForm
half_hour = record {
  title = b't' ∷ [];
  course_id = b'c' ∷ [];
  duration_hours = b'0' ∷ [];
  duration_minutes = b'3' ∷ b'0' ∷ [];
  description = [];
  total_marks = [];
  passing_marks = [];
  start_time = [];
}

abbrev page : Page
page = record {
  current_page = 1;
  search_input = [];
  search_query = [];
  selected_course = [];
  selected_status = text "all";
  applied_course = [];
  applied_status = text "all";
  create_open = true;
  form = half_hour;
  create_loading = false;
  create_error = none;
  delete_open = false;
  exam_to_delete = none;
  delete_loading = false;
  delete_error = none;
  creating = false;
  requests = [];
}

abbrev events : List Event
events = closed ∷ opened ∷ submitted ∷ replied done ∷ []

button_on : can_submit page ≡ true
unfolding can_submit
button_on = refl

too_short : is_too_short (parse_int (b'0' ∷ [])) ≡ true
unfolding parse_int parse_digits prefix trim_start is_space read_digits
too_short = refl

short_exam_sticks_example :
    ((run events (step submitted page)).create_loading ≡ true)
    × (can_submit (run events (step submitted page)) ≡ false)
    × ((run events (step submitted page)).requests ≡ [])
short_exam_sticks_example = short_exam_sticks events page refl button_on too_short

-- The first of three pages of the server.
abbrev listing : Listing Text
listing = record {
  items = (b'a' ∷ []) ∷ (b'b' ∷ []) ∷ [];
  page = 1;
  total = 25;
  pages = 3;
  has_next = true;
  has_prev = false;
}

abbrev mine : List Text
mine = (b'b' ∷ []) ∷ []

students_see_one_page_example :
    let exams = exams_shown (λ x. some x) true mine 1 listing in
    let courses = courses_for_student (λ x. some x) (some mine) 1 listing in
    ((exams.pages ≤ 1) × (exams.has_next ≡ false) × (exams.total ≤ exam_page_size))
    × ((courses.pages ≤ 1) × (courses.has_next ≡ false) × (courses.total ≤ course_page_size))
students_see_one_page_example =
    students_see_one_page (λ x. some x) (λ x. some x) mine (some mine) 1 listing listing refl
      (omega arith) (omega arith) (omega arith)

-- A server with two pages of the students of a course.
abbrev server : Query → Option (Answer ℕ)
server q = some (record { items = q.page ∷ []; has_next = q.page == 1 })

abbrev loaded : Pane ℕ
loaded = record {
  query = first_query;
  enrollments = 1 ∷ [];
  has_next = true;
  temp_semester = [];
  temp_year = 0;
  filter_open = false;
}

second_page : is_fetched (Stale.run server (Stale.next ∷ []) loaded).query ≡ true
unfolding Stale.run Stale.step Stale.handle next_page settle same_query fetch_enrollments is_fetched
second_page = refl

cleared_list_is_stale_example :
    let p = Stale.run server (Stale.next ∷ []) loaded in
    (p.enrollments ≡ items_of (server p.query))
    × ((Stale.step server Stale.cleared p).query ≡ first_query)
    × ((Stale.step server Stale.cleared p).enrollments ≡ p.enrollments)
cleared_list_is_stale_example =
    Stale.cleared_list_is_stale server (Stale.next ∷ []) loaded refl second_page

abbrev closed_page : Page
closed_page = record page { create_open = false }

abbrev listed_exam : Exam
listed_exam = record {
  id = b'e' ∷ [];
  title = b't' ∷ [];
  course_name = [];
  status = text "in_progress";
  duration_hours = 1;
  duration_minutes = 0;
  start_time = [];
  total_marks = 10;
}

abbrev one_exam : Fetched
one_exam = record {
  is_loading = false;
  error = none;
  exams = listed_exam ∷ [];
  pages = 1;
  has_next = false;
  has_prev = false;
  courses = [];
}

abbrev plain_time : Text → Text
plain_time t = t

abbrev skip : {A B C D : Type 0} → D → A ⊎ (B ⊎ (C ⊎ D))
skip d = inr (inr (inr d))

deletion_offered :
    Offers (ask_delete listed_exam) (ExamsLook.view plain_time (text "admin") one_exam closed_page)
unfolding ExamsLook.view ExamsLook.header ExamsLook.searching ExamsLook.dropdowns
    ExamsLook.load_error ExamsLook.nothing_found ExamsLook.listing ExamsLook.card ExamsLook.actions
    search_input stack text text_eq
deletion_offered = skip (skip (skip (inr (inr (inl (refl, refl))))))

abbrev asked : Page
asked = ExamsLook.step false false (ask_delete listed_exam) closed_page

confirm_offered : Offers confirm_delete (ExamsLook.view plain_time (text "admin") one_exam asked)
unfolding ExamsLook.view ExamsLook.header ExamsLook.searching ExamsLook.dropdowns
    ExamsLook.load_error ExamsLook.nothing_found ExamsLook.listing ExamsLook.card ExamsLook.actions
    ExamsLook.pages ExamsLook.create_modal ExamsLook.delete_modal ExamsLook.step
    Exams.open_delete_modal search_input modal stack text text_eq
confirm_offered = skip (skip (skip (skip (skip (skip (inr (inr (inl (refl, refl)))))))))

abbrev confirmed : Page
confirmed = ExamsLook.step false false confirm_delete asked

abbrev listed : List Exam
listed = listed_exam ∷ listed_exam ∷ []

only_unfinished_exams_deleted_example :
    All (RequestAllowed plain_time (text "admin") listed) confirmed.requests
only_unfinished_exams_deleted_example =
    only_unfinished_exams_deleted plain_time (text "admin") closed_page confirmed listed refl refl
      refl
      (acted (acted here one_exam (ask_delete listed_exam) deletion_offered) one_exam confirm_delete
        confirm_offered)
