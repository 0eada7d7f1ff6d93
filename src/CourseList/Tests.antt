-- ===== src/CourseList/Tests.antt =====
-- A lecturer who deletes a course without exams, an admin who chooses a lecturer, and the theorems
-- there.
use wazire.Base.{◌≡◌, ◌⊎◌, false, none, List, [], ◌∷◌, inr}
use wazire.CourseList.Page.{
  Course, no_lecturer, Page, Change, start, step, handle_create_course, create_course, course_data,
}
use wazire.CourseList.Page.Event.{ask_delete, confirm_delete}
use wazire.CourseList.Look
use wazire.CourseList.Look.{Fetched}
use wazire.CourseList.Lecturer.{change_all, without_lecturer, chosen_lecturer_dropped}

abbrev course : Course
course = record {
  id = b'c' ∷ [];
  name = b'n' ∷ [];
  course_code = b'k' ∷ [];
  description = [];
  lecturer = no_lecturer;
  exam_count = 0;
}

abbrev fetched : Fetched
fetched = record {
  is_loading = false;
  error = none;
  courses = course ∷ [];
  page = 1;
  pages = 1;
  has_next = false;
  has_prev = false;
  lecturers = [];
  lecturer_names = [];
}

abbrev asked : Page
asked = step none false (ask_delete course) start

abbrev skip : {A B C D E F : Type 0} → F → A ⊎ (B ⊎ (C ⊎ (D ⊎ (E ⊎ F))))
skip d = inr (inr (inr (inr (inr d))))

abbrev confirmed : Page
confirmed = step none false confirm_delete asked

abbrev choices : List Change
choices = Change.name (b'n' ∷ []) ∷ Change.lecturer_id (b'l' ∷ []) ∷ []

chosen_lecturer_dropped_example :
    ((handle_create_course none (change_all choices start)).requests
      ≡ create_course (course_data none (change_all (without_lecturer choices) start).form) ∷ [])
    × ((change_all choices start).form.lecturer ≡ start.form.lecturer)
unfolding start
chosen_lecturer_dropped_example = chosen_lecturer_dropped none choices start
