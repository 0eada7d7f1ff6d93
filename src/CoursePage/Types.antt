-- ===== src/CoursePage/Types.antt =====
-- What the page holds. The student of an enrollment is always there; no year is 0, and a text that is
-- missing is empty.
use wazire.Base.{ℕ, Bool, true, false, Option, none, List, []}
use wazire.Base.Text.{Text, text}
use wazire.CourseList.Page.{Lecturer}
use wazire.ListPages.Enrollments.{Pane, Query, first_query}

pub record Course : Type 0 where
  pub id : Text
  pub name : Text
  pub course_code : Text
  pub description : Text
  pub lecturer : Lecturer
  pub created_at : Text
  pub updated_at : Text

pub record Exam : Type 0 where
  pub id : Text
  pub title : Text
  pub duration_hours : ℕ
  pub duration_minutes : ℕ
  pub total_marks : ℕ
  pub start_time : Text

-- A student, who may be given by the identifier alone.
pub data Student : Type 0 where
  by_id : Text → Student
  known : Text → Text → Text → Text → Student  -- identifier, names, and institution's identifier

pub record Enrollment : Type 0 where
  pub id : Text
  pub student : Student
  pub status : Text
  pub created_at : Text

-- What can be chosen in the dialog that enrolls.
pub record Candidate : Type 0 where
  pub id : Text
  pub name : Text
  pub email : Text

-- The list of exams.
pub record ExamsPane : Type 0 where
  pub exams : List Exam
  pub loading : Bool
  pub error : Option Text
  pub page : ℕ
  pub has_next : Bool
  pub year : ℕ

pub data Request : Type 0 where
  delete_course : Text → Request
  enroll_student : Text → Text → Text → Request  -- student, course and semester
  remove_enrollment : Text → Request
  list_enrollments : Text → Query → Request

pub record Page : Type 0 where
  pub course : Option Course
  pub loading : Bool
  pub error : Option Text
  pub active_tab : Text
  pub show_delete_confirm : Bool
  pub is_deleting : Bool
  pub exams_pane : ExamsPane
  pub available_years : List ℕ
  pub pane : Pane Enrollment
  pub enrollments_loading : Bool
  pub lecturer_name : Text
  pub enroll_open : Bool
  pub students : List Candidate
  pub selected_student_id : Text
  pub selected_semester : Text
  pub enroll_loading : Bool
  pub enroll_error : Option Text
  pub enroll_success : Option Text
  pub unenroll_loading : Option Text
  pub show_unenroll_confirm : Bool
  pub selected_enrollment_id : Option Text
  pub alerted : Option Text  -- the last message of `alert`
  pub went_to : Option Text  -- where `navigate` has led
  pub requests : List Request  -- those sent, the last first

abbrev pub empty_pane : Pane Enrollment
empty_pane = record {
  query = first_query;
  enrollments = [];
  has_next = false;
  temp_semester = [];
  temp_year = 0;
  filter_open = false;
}

-- The page at first, which loads its course.
unfoldable pub start : Page
start = record {
  course = none;
  loading = true;
  error = none;
  active_tab = text "overview";
  show_delete_confirm = false;
  is_deleting = false;
  exams_pane = record {
    exams = [];
    loading = true;
    error = none;
    page = 1;
    has_next = false;
    year = 0;
  };
  available_years = [];
  pane = empty_pane;
  enrollments_loading = true;
  lecturer_name = [];
  enroll_open = false;
  students = [];
  selected_student_id = [];
  selected_semester = text "fall";
  enroll_loading = false;
  enroll_error = none;
  enroll_success = none;
  unenroll_loading = none;
  show_unenroll_confirm = false;
  selected_enrollment_id = none;
  alerted = none;
  went_to = none;
  requests = [];
}
