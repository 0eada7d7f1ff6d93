-- ===== src/CourseList/Look.antt =====
-- What the page shows. What the query gives stands outside: whether it loads, the message of its
-- error, the courses with their pagination, and the lecturers. The skeleton that stands for a list
-- that loads shows nothing.
use wazire.Base.{
  ℕ, Bool, true, false, not, ◌&&◌, ◌||◌, Option, none, some, List, [], ◌∷◌, ◌++◌, is_empty, ltb,
  ◌==◌, if◌then◌else◌,
}
use wazire.Base.Text.{Text, text, text_eq}
use wazire.Base.Dict.{Dict, lookup}
use wazire.Ui.Element.{said, button, entry, choice, View, shown_if, said_some, stack}
use wazire.Ui.Parts.{loading_button, search_input, modal, pagination}
use wazire.CourseList.Page.{
  Lecturer, no_lecturer, by_id, known, Course, LecturerField, empty_object, missing, Page, Event,
  Change,
}
use wazire.CourseList.Page.Event.{
  open_create, close_create, cancel_create, submit_create, change, type_search, search,
  choose_lecturer, go_next, go_prev, retry, go_to, visit, ask_delete, close_delete, confirm_delete,
}

pub record Fetched : Type 0 where
  pub is_loading : Bool
  pub error : Option Text
  pub courses : List Course
  pub page : ℕ
  pub pages : ℕ
  pub has_next : Bool
  pub has_prev : Bool
  pub lecturers : List (Text × Text)  -- identifiers with names
  pub lecturer_names : Dict Text

abbrev pub is_admin : Text → Bool
is_admin role = text_eq role (text "admin")

abbrev pub is_student : Text → Bool
is_student role = text_eq role (text "student")

abbrev pub is_lecturer : Text → Bool
is_lecturer role = text_eq role (text "lecturer")

abbrev or_else : Text → Text → Text
or_else [] default = default
or_else (c ∷ s) default = c ∷ s

abbrev name_or_id : Text → Option Text → Text
name_or_id id none = text "User " ++ id
name_or_id id (some name) = or_else name (text "User " ++ id)

unfoldable pub lecturer_name : Dict Text → Lecturer → Text
lecturer_name names no_lecturer = text "No lecturer assigned"
lecturer_name names (by_id id) = name_or_id id (lookup id names)
lecturer_name names (known id first last) = first ++ (text " " ++ last)

unfoldable pub header : Text → View Event
header role =
    shown_if (is_admin role || is_lecturer role)
      (button (text "Create Course") true open_create ∷ [])

unfoldable pub searching : Fetched → Page → View Event
unfolding search_input
searching f p =
    search_input (text "Search courses...") p.search_input f.is_loading type_search (some search)

unfoldable pub lecturer_filter : Text → Fetched → Page → View Event
lecturer_filter role f p = shown_if (is_admin role) (
    choice ((text "all", text "All Lecturers") ∷ f.lecturers) p.selected_lecturer choose_lecturer
    ∷ [])

unfoldable pub load_error : Option Text → View Event
load_error none = []
load_error (some e) =
    said (or_else e (text "Failed to load courses")) ∷ button (text "Try Again") true retry ∷ []

abbrev pub is_fine : Fetched → Bool
is_fine f = elim f.error [ none ↦ not f.is_loading | some e ↦ false ]

unfoldable pub nothing_found : Text → Fetched → Page → View Event
nothing_found role f p = shown_if (is_fine f && is_empty f.courses) (
    said (if is_student role then text "No Enrolled Courses" else text "No Courses Available")
    ∷ said (
        if not (is_empty p.search_query)
        then text "No courses found matching your search. Try different keywords."
        else if is_student role
        then text
            "You haven't enrolled in any courses yet. Browse available courses and enroll to start learning."
        else text "No courses have been created yet. Start by creating your first course.")
    ∷ shown_if (is_admin role) (button (text "Create Course") true open_create ∷ []))

-- The buttons of those who may change courses.
unfoldable pub changing : Course → View Event
changing c =
    button (text "Edit") true (visit (text "/courses/" ++ (c.id ++ text "/edit")))
    ∷ shown_if (c.exam_count == 0) (button (text "Delete") true (ask_delete c) ∷ [])

abbrev pub action_parts : Text → Course → List (View Event)
action_parts role c =
    shown_if (is_lecturer role) (changing c)
    ∷ shown_if (is_admin role) (changing c)
    ∷ shown_if (is_student role)
        (button (text "View Course") true (visit (text "/courses/" ++ c.id)) ∷ [])
    ∷ []

unfoldable pub actions : Text → Course → View Event
unfolding changing stack
actions role c = stack (action_parts role c)

-- The card of a course, all of which leads to it but for the buttons below.
unfoldable pub card : Text → Dict Text → Course → View Event
unfolding actions lecturer_name
card role names c =
    button c.course_code true (visit (text "/courses/" ++ c.id))
    ∷ said c.name
    ∷ said (or_else c.description (text "No description available"))
    ∷ said (text "Lecturer")
    ∷ said (lecturer_name names c.lecturer)
    ∷ said (text "Click to view course details")
    ∷ actions role c

abbrev pub cards : Text → Dict Text → List Course → View Event
cards role names [] = []
cards role names (c ∷ cs) = card role names c ++ cards role names cs

unfoldable pub listing : Text → Fetched → View Event
unfolding card
listing role f =
    shown_if (is_fine f && not (is_empty f.courses)) (cards role f.lecturer_names f.courses)

unfoldable pub pages : Fetched → View Event
unfolding pagination
pages f =
    shown_if (is_fine f && (not (is_empty f.courses) && ltb 1 f.pages))
      (pagination f.page f.pages f.has_next f.has_prev go_next go_prev go_to)

-- `createFormData.lecturer?.id`, which no value of that property has.
abbrev chosen_lecturer : LecturerField → Text
chosen_lecturer empty_object = []
chosen_lecturer missing = []

unfoldable pub assignment : Text → Fetched → Page → View Event
assignment role f p = shown_if (is_admin role) (
    choice (([], text "No lecturer assigned") ∷ f.lecturers) (chosen_lecturer p.form.lecturer)
      (λ v. change (Change.lecturer_id v))
    ∷ [])

abbrev pub form_parts : Text → Fetched → Page → List (View Event)
form_parts role f p =
    said_some p.create_error
    ∷ (entry (text "Course Name *") p.form.name (not p.create_loading) (λ v. change (Change.name v))
        ∷ entry (text "Course Code *") p.form.course_code (not p.create_loading)
            (λ v. change (Change.course_code v))
        ∷ [])
    ∷ assignment role f p
    ∷ (entry (text "Description") p.form.description (not p.create_loading)
          (λ v. change (Change.description v))
        ∷ button (text "Cancel") (not p.create_loading) cancel_create
        ∷ loading_button (text "Create Course") p.create_loading
            (is_empty p.form.name || is_empty p.form.course_code) submit_create
        ∷ [])
    ∷ []

unfoldable pub create_modal : Text → Fetched → Page → View Event
unfolding modal assignment stack
create_modal role f p =
    modal p.create_open close_create (text "Create New Course") (stack (form_parts role f p))

abbrev course_name : Option Course → Text
course_name none = []
course_name (some c) = c.name

unfoldable pub delete_modal : Page → View Event
unfolding modal
delete_modal p = modal p.delete_open close_delete (text "Delete Course") (
    said (text "Delete Course")
    ∷ said (
        text "Are you sure you want to delete "
        ++ (course_name p.course_to_delete
            ++ text
                "? This action cannot be undone and all associated data will be permanently removed."))
    ∷ button (text "Cancel") (not p.delete_loading) close_delete
    ∷ loading_button (text "Delete Course") p.delete_loading false confirm_delete
    ∷ [])

abbrev pub parts : Text → Fetched → Page → List (View Event)
parts role f p =
    header role
    ∷ searching f p
    ∷ lecturer_filter role f p
    ∷ load_error f.error
    ∷ nothing_found role f p
    ∷ listing role f
    ∷ pages f
    ∷ create_modal role f p
    ∷ delete_modal p
    ∷ []

unfoldable pub view : Text → Fetched → Page → View Event
unfolding stack header searching lecturer_filter load_error nothing_found listing pages create_modal
    delete_modal
view role f p = stack (parts role f p)
