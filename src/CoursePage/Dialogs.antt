-- ===== src/CoursePage/Dialogs.antt =====
-- The dialogs of the page. The first button of those that are no `Modal` is the ground behind them.
use wazire.Base.{
  Bool, true, false, not, ◌&&◌, ◌||◌, Option, none, some, List, [], ◌∷◌, ◌++◌, is_empty, map, ◌==◌,
  if◌then◌else◌,
}
use wazire.Base.Text.{Text, text}
use wazire.Ui.Element.{said_some, said, button, choice, View, shown_if, stack}
use wazire.Ui.Parts.{loading_button, modal, capitalized}
use wazire.CoursePage.Types.{Course, Enrollment, Candidate, Page}
use wazire.CoursePage.Page.{is_enrolled}
use wazire.CoursePage.Steps.{Event}
use wazire.CoursePage.Steps.Event.{
  cancel_delete, confirm_delete, close_enroll, submit_enroll, choose_student, choose_semester,
  cancel_unenroll, confirm_unenroll, close_filters, apply, clear, filter_semester, filter_year,
}
use wazire.CoursePage.Look.{year_options, year_value}

unfoldable pub delete_dialog : Course → Page → View Event
delete_dialog c p = shown_if p.show_delete_confirm (
    button [] true cancel_delete
    ∷ said (text "Delete Course?")
    ∷ said (
        text "Are you sure you want to delete "
        ++ (c.name
            ++ text
                "? This action cannot be undone and all associated data will be permanently removed."))
    ∷ button (text "Cancel") (not p.is_deleting) cancel_delete
    ∷ loading_button (text "Delete Course") p.is_deleting false confirm_delete
    ∷ [])

-- The students that were fetched and are not among those that are listed now.
unfoldable pub choosable : List Enrollment → List Candidate → List Candidate
choosable enrollments [] = []
choosable enrollments (s ∷ ss) =
    if is_enrolled enrollments s.id then choosable enrollments ss else s ∷ choosable enrollments ss

abbrev semesters : List (Text × Text)
semesters =
    map (λ s. (s, capitalized s))
      (text "fall"
        ∷ text "spring"
        ∷ text "summer"
        ∷ text "winter"
        ∷ text "interim"
        ∷ text "first"
        ∷ text "second"
        ∷ text "third"
        ∷ text "fourth"
        ∷ text "fifth"
        ∷ text "sixth"
        ∷ text "seventh"
        ∷ text "eighth"
        ∷ [])

abbrev pub student_choice : List Candidate → Text → View Event
student_choice [] chosen =
    said (text "All students in this institution are already enrolled in this course.") ∷ []
student_choice (s ∷ ss) chosen =
    choice (map (λ (c : Candidate). (c.id, c.name)) (s ∷ ss)) chosen choose_student ∷ []

abbrev pub enroll_parts : Page → List (View Event)
enroll_parts p =
    said_some p.enroll_error
    ∷ said_some p.enroll_success
    ∷ student_choice (choosable p.pane.enrollments p.students) p.selected_student_id
    ∷ (choice semesters p.selected_semester choose_semester
        ∷ button (text "Close") (not p.enroll_loading) close_enroll
        ∷ loading_button (text "Enroll Student") p.enroll_loading
            (is_empty p.selected_student_id || is_empty (choosable p.pane.enrollments p.students))
            submit_enroll
        ∷ [])
    ∷ []

unfoldable pub enroll_dialog : Course → Page → View Event
unfolding modal choosable stack
enroll_dialog c p =
    modal p.enroll_open close_enroll
      (text "Add Students to " ++ (if is_empty c.name then text "Course" else c.name))
      (stack (enroll_parts p))

abbrev is_some : Option Text → Bool
is_some none = false
is_some (some t) = not (is_empty t)

unfoldable pub unenroll_dialog : Page → View Event
unenroll_dialog p = shown_if p.show_unenroll_confirm (
    button [] true cancel_unenroll
    ∷ said (text "Unenroll Student?")
    ∷ said (
        text
          "Are you sure you want to unenroll this student from the course? This action cannot be undone.")
    ∷ button (text "Cancel") (not (is_some p.unenroll_loading)) cancel_unenroll
    ∷ loading_button (text "Unenroll") (is_some p.unenroll_loading) false confirm_unenroll
    ∷ [])

unfoldable pub filter_dialog : Page → View Event
unfolding year_options year_value
filter_dialog p = shown_if p.pane.filter_open (
    button [] true close_filters
    ∷ said (text "Filter Students")
    ∷ choice (([], text "All Semesters") ∷ semesters) p.pane.temp_semester filter_semester
    ∷ choice (year_options (text "All Years") p.available_years) (year_value p.pane.temp_year)
        filter_year
    ∷ button (text "Clear All") (not (is_empty p.pane.temp_semester && (p.pane.temp_year == 0)))
        clear
    ∷ button (text "Cancel") true close_filters
    ∷ button (text "Apply") true apply
    ∷ [])
