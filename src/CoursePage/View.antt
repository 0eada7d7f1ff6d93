-- ===== src/CoursePage/View.antt =====
-- What the whole page shows.
use wazire.Base.{
  Bool, true, not, ◌&&◌, Option, none, some, List, [], ◌∷◌, ◌++◌, length, if◌then◌else◌,
}
use wazire.Base.Text.{Text, text, text_eq}
use wazire.Base.Decimal.{print}
use wazire.Ui.Element.{said, button, View, shown_if, stack}
use wazire.CoursePage.Types.{Course, Page}
use wazire.CoursePage.Page.{can_edit}
use wazire.CoursePage.Steps.{Event}
use wazire.CoursePage.Steps.Event.{choose_tab, visit, ask_delete, reload}
use wazire.CoursePage.Look.{
  Platform, one, or_else, instructor, overview, exams_content, students_content,
}
use wazire.CoursePage.Dialogs.{delete_dialog, enroll_dialog, unenroll_dialog, filter_dialog}

abbrev pub is_student : Text → Bool
is_student role = text_eq role (text "student")

unfoldable pub failure : Text → View Event
failure e =
    said (text "Failed to Load Course") ∷ said e ∷ button (text "Try Again") true reload ∷ []

unfoldable pub not_found : View Event
not_found =
    said (text "Course Not Found")
    ∷ said (text "The course you're looking for doesn't exist or has been removed.")
    ∷ button (text "Back to Courses") true (visit (text "/courses"))
    ∷ []

module _ (d : Platform) (role own : Text) (c : Course) where
  unfoldable pub header : Page → View Event
  header p = shown_if (can_edit role own p.course) (
      button (text "Edit Course") true (visit (text "/courses/" ++ (c.id ++ text "/edit")))
      ∷ button (text "Delete") true ask_delete
      ∷ [])

  unfoldable pub hero : Page → View Event
  hero p =
      said c.course_code
      ∷ said c.name
      ∷ said (text "Instructor")
      ∷ said (instructor p.lecturer_name c.lecturer)
      ∷ (shown_if (not (is_student role))
            (said (text "Created") ∷ said (d.date_text c.created_at) ∷ [])
          ++ said (text "About This Course")
            ∷ said (or_else c.description (text "No description available for this course."))
            ∷ [])

  unfoldable pub counts : Page → View Event
  counts p = shown_if (not (is_student role)) (
      said (print (length p.exams_pane.exams))
      ∷ said (text "Exams")
      ∷ said (print (length p.pane.enrollments))
      ∷ said (text "Students")
      ∷ [])

  unfoldable pub tab_list : View Event
  tab_list =
      button (text "Overview") true (choose_tab (text "overview"))
      ∷ button (text "Exams") true (choose_tab (text "exams"))
      ∷ shown_if (not (is_student role))
          (one (button (text "Students") true (choose_tab (text "students"))))

  -- The content of the tab that is chosen; a student has two tabs only.
  abbrev pub tab_content : Page → View Event
  tab_content p =
      if text_eq p.active_tab (text "overview")
      then overview d c p
      else if text_eq p.active_tab (text "exams")
      then exams_content d (can_edit role own p.course) c p.available_years p.exams_pane
      else shown_if (not (is_student role) && text_eq p.active_tab (text "students"))
          (students_content d role p)

  abbrev pub parts : Page → List (View Event)
  parts p =
      header p
      ∷ hero p
      ∷ counts p
      ∷ tab_list
      ∷ tab_content p
      ∷ delete_dialog c p
      ∷ enroll_dialog c p
      ∷ unenroll_dialog p
      ∷ filter_dialog p
      ∷ []

-- While the course loads, a skeleton that shows nothing stands for the page.
abbrev pub view_course : Platform → Text → Text → Option Course → Page → View Event
view_course d role own none p = not_found
view_course d role own (some c) p = stack (parts d role own c p)

abbrev pub view_unless : Platform → Text → Text → Option Text → Page → View Event
view_unless d role own none p = view_course d role own p.course p
view_unless d role own (some e) p = failure e

unfoldable pub view : Platform → Text → Text → Page → View Event
unfolding stack failure not_found header hero counts tab_list delete_dialog enroll_dialog
    unenroll_dialog filter_dialog overview exams_content students_content can_edit
view d role own p = if p.loading then [] else view_unless d role own p.error p
