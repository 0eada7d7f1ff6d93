-- ===== src/CoursePage/Steps.antt =====
-- What the user and the server make happen on the page. The answer to a list of exams or of students
-- comes before the next event.
use wazire.Base.{ℕ, zero, suc, ◌-◌, max, true, false, Option, some, List, [], ◌∷◌}
use wazire.Base.Text.{Text}
use wazire.Base.Number.{Number, ratio}
use wazire.Base.Parse.{parse_int}
use wazire.ListPages.Enrollments.{
  Answer, Query, settle, open_filter_modal, close_filter_modal, apply_filters, clear_filters,
  next_page, prev_page, drop_semester, drop_year,
}
use wazire.CoursePage.Types.{Enrollment, ExamsPane, Page, start}
use wazire.CoursePage.Page.{
  Loaded, loaded, load_failed, ExamsAnswer, settle_exams, handle_delete, course_deleted,
  delete_failed, User, students_fetched, handle_enroll_student, enrolled, enrolled_listed, Thrown,
  enroll_failed, close_enroll_modal, handle_unenroll_student, unenrolled, unenrolled_listed,
  unenroll_failed, open_unenroll_confirm,
}

pub data Event : Type 0 where
  choose_tab visit : Text → Event
  ask_delete cancel_delete confirm_delete reload : Event
  next_exams prev_exams : Event
  choose_exams_year : Text → Event
  open_enroll close_enroll submit_enroll : Event
  choose_student choose_semester : Text → Event
  ask_unenroll : Text → Event
  cancel_unenroll confirm_unenroll : Event
  open_filters close_filters apply clear next_students prev_students : Event
  unset_semester unset_year : Event
  filter_semester filter_year : Text → Event

-- `value ? parseInt(value) : ''`: a text that is no number is no year, as NaN is falsy.
abbrev number_of : Option Number → ℕ
number_of (some (ratio n zero)) = n
number_of _ = 0

unfoldable pub year_of : Text → ℕ
unfolding parse_int
year_of [] = 0
year_of (c ∷ s) = number_of (parse_int (c ∷ s))

abbrev change_exams : (ExamsPane → ExamsPane) → Page → Page
change_exams f p = record p { exams_pane = f p.exams_pane }

-- The server: a page of exams of a year, and a page of students of a query, none where it fails.
pub record Server : Type 0 where
  pub exams : ℕ → ℕ → ExamsAnswer
  pub students : Query → Option (Answer Enrollment)

unfoldable pub handle : Text → Event → Page → Page
unfolding handle_delete handle_enroll_student close_enroll_modal handle_unenroll_student
    open_unenroll_confirm open_filter_modal close_filter_modal apply_filters clear_filters next_page
    prev_page drop_semester drop_year year_of start
handle id (choose_tab t) p = record p { active_tab = t }
handle id (visit path) p = record p { went_to = some path }
handle id ask_delete p = record p { show_delete_confirm = true }
handle id cancel_delete p = record p { show_delete_confirm = false }
handle id confirm_delete p = handle_delete id p
handle id reload p = record start { requests = p.requests }
handle id next_exams p = change_exams (λ e. record e { page = suc e.page }) p
handle id prev_exams p = change_exams (λ e. record e { page = max 1 (e.page - 1) }) p
handle id (choose_exams_year t) p = change_exams (λ e. record e { year = year_of t }) p
handle id open_enroll p = record p { enroll_open = true }
handle id close_enroll p = close_enroll_modal p
handle id submit_enroll p = handle_enroll_student id p
handle id (choose_student t) p = record p { selected_student_id = t }
handle id (choose_semester t) p = record p { selected_semester = t }
handle id (ask_unenroll t) p = open_unenroll_confirm t p
handle id cancel_unenroll p = record p { show_unenroll_confirm = false }
handle id confirm_unenroll p = handle_unenroll_student p
handle id open_filters p = record p { pane = open_filter_modal p.pane }
handle id close_filters p = record p { pane = close_filter_modal p.pane }
handle id apply p = record p { pane = apply_filters p.pane }
handle id clear p = record p { pane = clear_filters p.pane }
handle id next_students p = record p { pane = next_page p.pane }
handle id prev_students p = record p { pane = prev_page p.pane }
handle id unset_semester p = record p { pane = drop_semester p.pane }
handle id unset_year p = record p { pane = drop_year p.pane }
handle id (filter_semester t) p = record p { pane = record p.pane { temp_semester = t } }
handle id (filter_year t) p = record p { pane = record p.pane { temp_year = year_of t } }

-- The effects that fetch a list, after a change of the page.
unfoldable pub settle_page : Server → Page → Page → Page
unfolding settle_exams settle
settle_page server before p = record p {
  exams_pane = settle_exams server.exams before.exams_pane p.exams_pane;
  pane = settle server.students before.pane.query p.pane;
}

unfoldable pub step : Text → Server → Event → Page → Page
unfolding handle settle_page
step id server e p = settle_page server p (handle id e p)

-- The replies that the page waits for.
pub data Reply : Type 0 where
  all_loaded : Loaded → Reply
  loading_failed : Option Text → Reply
  deleted : Reply
  deletion_failed : Option Text → Reply
  users : List User → Reply
  student_enrolled : Reply
  enrollment_listed : Answer Enrollment → Reply
  enrollment_failed : Thrown → Reply
  student_unenrolled : Reply
  unenrollment_listed : Answer Enrollment → Reply
  unenrollment_failed : Option Text → Reply

unfoldable pub replied : Text → Reply → Page → Page
unfolding loaded load_failed course_deleted delete_failed students_fetched enrolled enrolled_listed
    enroll_failed unenrolled unenrolled_listed unenroll_failed
replied id (all_loaded l) p = loaded l p
replied id (loading_failed m) p = load_failed m p
replied id deleted p = course_deleted p
replied id (deletion_failed m) p = delete_failed m p
replied id (users us) p = students_fetched us p
replied id student_enrolled p = enrolled id p
replied id (enrollment_listed a) p = enrolled_listed a p
replied id (enrollment_failed e) p = enroll_failed e p
replied id student_unenrolled p = unenrolled id p
replied id (unenrollment_listed a) p = unenrolled_listed a p
replied id (unenrollment_failed m) p = unenroll_failed m p
