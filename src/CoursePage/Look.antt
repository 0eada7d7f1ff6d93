-- ===== src/CoursePage/Look.antt =====
-- The tabs of the page. Dates are written by the platform.
use wazire.Base.{
  ℕ, Bool, true, false, not, ◌||◌, Option, none, some, List, [], ◌∷◌, ◌++◌, is_empty, map, ltb,
  ◌==◌, if◌then◌else◌, ◌+◌,
}
use wazire.Base.Text.{Text, text, text_eq}
use wazire.Base.Decimal.{print}
use wazire.Base.Dict.{Dict, lookup}
use wazire.Ui.Element.{Element, said, button, idle_button, choice, View, shown_if}
use wazire.Ui.Parts.{loading_button}
use wazire.CourseList.Page.{Lecturer, no_lecturer, by_id, known}
use wazire.ListPages.Enrollments.{Pane}
use wazire.CoursePage.Types
use wazire.CoursePage.Types.{Course, Exam, Enrollment, ExamsPane, Page}
use wazire.CoursePage.Steps.{Event}
use wazire.CoursePage.Steps.Event.{
  choose_tab, visit, next_exams, prev_exams, choose_exams_year, open_enroll, ask_unenroll,
  open_filters, next_students, prev_students, unset_semester, unset_year,
}

-- The texts of dates, and the names of students that were asked for.
pub record Platform : Type 0 where
  pub date_text : Text → Text
  pub time_text : Text → Text
  pub student_names : Dict Text

abbrev pub one : Element Event → View Event
one x = x ∷ []

abbrev pub or_else : Text → Text → Text
or_else [] default = default
or_else (c ∷ s) default = c ∷ s

unfoldable pub instructor : Text → Lecturer → Text
instructor name no_lecturer = text "No lecturer assigned"
instructor name (by_id id) = or_else name (text "User " ++ id)
instructor name (known id first last) = first ++ (text " " ++ last)

unfoldable pub overview : Platform → Course → Page → View Event
unfolding instructor
overview d c p =
    said (text "Course Details")
    ∷ said (text "Course Code")
    ∷ said c.course_code
    ∷ said (text "Created")
    ∷ said (d.date_text c.created_at)
    ∷ said (text "Last Updated")
    ∷ said (d.date_text c.updated_at)
    ∷ said (text "Instructor")
    ∷ said (instructor p.lecturer_name c.lecturer)
    ∷ said (text "Quick Actions")
    ∷ button (text "Manage Exams: Create and manage course exams") true (choose_tab (text "exams"))
    ∷ []

unfoldable pub year_options : Text → List ℕ → List (Text × Text)
year_options all_years years = ([], all_years) ∷ map (λ y. (print y, print y)) years

unfoldable pub year_value : ℕ → Text
year_value y = if y == 0 then [] else print y

unfoldable pub exam_card : Platform → Bool → Exam → View Event
exam_card d edits e =
    said e.title
    ∷ said (
        text "Duration: "
        ++ (print e.duration_hours
            ++ (text "h "
                ++ (print e.duration_minutes
                    ++ (text "m • " ++ (print e.total_marks ++ text " marks"))))))
    ∷ (shown_if (not (is_empty e.start_time))
          (one (said (text "Starts: " ++ d.time_text e.start_time)))
        ++ button (text "View") true (visit (text "/exams/" ++ e.id))
          ∷ shown_if edits
              (one (button [] true (visit (text "/exams/" ++ (e.id ++ text "/edit"))))))

abbrev pub each : {A : Type 0} → (A → View Event) → List A → View Event
each show [] = []
each show (x ∷ xs) = show x ++ each show xs

-- The pagination of the two lists gets no number of pages and no handler for a page, so the one
-- number that it shows, 1, throws when it is clicked.
abbrev pub short_pagination : ℕ → Bool → Event → Event → View Event
short_pagination page has_next on_next on_prev =
    shown_if (has_next || ltb 1 page)
      (button [] (ltb 1 page) on_prev ∷ idle_button (print 1) ∷ button [] has_next on_next ∷ [])

unfoldable pub listed_exams : Platform → Bool → List ℕ → ExamsPane → View Event
unfolding year_options year_value exam_card
listed_exams d edits years e =
    choice (year_options (text "All Years") years) (year_value e.year) choose_exams_year
    ∷ (each (exam_card d edits) e.exams ++ short_pagination e.page e.has_next next_exams prev_exams)

unfoldable pub no_exams : Bool → Course → View Event
no_exams edits c =
    said (text "No Exams Yet")
    ∷ said (text "Exams will appear here once they are created for this course.")
    ∷ shown_if edits (
        one (
          button (text "Create Exam") true
            (visit (text "/courses/" ++ (c.id ++ text "/exams/create")))))

abbrev pub exams_or_none : Platform → Bool → Course → List ℕ → ExamsPane → List Exam → View Event
exams_or_none d edits c years e [] = no_exams edits c
exams_or_none d edits c years e (x ∷ xs) = listed_exams d edits years e

abbrev pub exams_unless : Platform → Bool → Course → List ℕ → ExamsPane → Option Text → View Event
exams_unless d edits c years e none = exams_or_none d edits c years e e.exams
exams_unless d edits c years e (some message) = one (said message)

-- `ExamsContent`.
unfoldable pub exams_content : Platform → Bool → Course → List ℕ → ExamsPane → View Event
unfolding no_exams listed_exams
exams_content d edits c years e =
    if e.loading
    then one (said (text "Loading exams..."))
    else exams_unless d edits c years e e.error

-- Whether the user may change who is enrolled.
abbrev pub enrolls : Text → Bool
enrolls role = text_eq role (text "lecturer") || text_eq role (text "admin")

unfoldable pub count_filters : Pane Enrollment → ℕ
count_filters pane =
    (if is_empty pane.query.semester then 0 else 1) + (if pane.query.year == 0 then 0 else 1)

unfoldable pub filter_bar : Text → Pane Enrollment → View Event
unfolding count_filters
filter_bar role pane =
    button (text "Filters" ++ (if count_filters pane == 0 then [] else print (count_filters pane)))
      true open_filters
    ∷ (shown_if (not (is_empty pane.query.semester))
          (said (text "Semester: " ++ pane.query.semester) ∷ button [] true unset_semester ∷ [])
        ++ (shown_if (not (pane.query.year == 0))
              (said (text "Year: " ++ print pane.query.year) ∷ button [] true unset_year ∷ [])
            ++ shown_if (enrolls role) (one (button (text "Add Students") true open_enroll))))

abbrev name_or_id : Text → Option Text → Text
name_or_id id none = text "User " ++ id
name_or_id id (some name) = or_else name (text "User " ++ id)

unfoldable pub student_name : Dict Text → Types.Student → Text
student_name names (Types.Student.by_id id) = name_or_id id (lookup id names)
student_name names (Types.Student.known id first last institution) = first ++ (text " " ++ last)

abbrev institution_id : Types.Student → Text
institution_id (Types.Student.by_id id) = []
institution_id (Types.Student.known id first last institution) = institution

abbrev is_loading_one : Option Text → Text → Bool
is_loading_one none id = false
is_loading_one (some other) id = text_eq other id

unfoldable pub enrollment_card : Platform → Text → Option Text → Enrollment → View Event
unfolding student_name
enrollment_card d role unenrolling e =
    said (student_name d.student_names e.student)
    ∷ said (text "Matric/Reg No: " ++ or_else (institution_id e.student) (text "-"))
    ∷ said (text "Status: " ++ e.status)
    ∷ said (text "Enrolled: " ++ d.date_text e.created_at)
    ∷ shown_if (enrolls role) (
        one (
          loading_button [] (is_loading_one unenrolling e.id) (is_loading_one unenrolling e.id)
            (ask_unenroll e.id)))

unfoldable pub no_students : Text → View Event
no_students role =
    said (text "No Students Enrolled")
    ∷ said (text "No students are currently enrolled in this course.")
    ∷ shown_if (enrolls role) (one (button (text "Add Students") true open_enroll))

unfoldable pub listed_students : Platform → Text → Option Text → Pane Enrollment → View Event
unfolding enrollment_card
listed_students d role unenrolling pane =
    each (enrollment_card d role unenrolling) pane.enrollments
    ++ short_pagination pane.query.page pane.has_next next_students prev_students

-- `StudentsContent`.
unfoldable pub students_content : Platform → Text → Page → View Event
unfolding filter_bar no_students listed_students
students_content d role p =
    if p.enrollments_loading
    then one (said (text "Loading students..."))
    else filter_bar role p.pane
      ++ (if is_empty p.pane.enrollments
          then no_students role
          else listed_students d role p.unenroll_loading p.pane)
