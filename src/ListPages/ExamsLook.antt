-- ===== src/ListPages/ExamsLook.antt =====
-- What frontend/src/pages/Exams.tsx shows, and what can happen there. What the query gives stands
-- outside: whether it loads, the message of its error, the exams with their pagination, and the
-- courses. The skeleton of a list that loads shows nothing, and the dialog for an upload, which
-- nothing opens, is left out.
use wazire.Base.{
  ℕ, Bool, true, false, not, ◌&&◌, ◌||◌, Option, none, some, List, [], ◌∷◌, ◌++◌, is_empty,
  if◌then◌else◌, max,
}
use wazire.Base.Text.{Text, text, text_eq}
use wazire.Base.Decimal.{print}
use wazire.Ui.Element.{Element, said, button, entry, choice, View, shown_if, said_some, stack}
use wazire.Ui.Parts.{loading_button, search_input, modal, pagination, status_label}
use wazire.ListPages.Exams
use wazire.ListPages.Exams.{Exam, ExamForm, Page}

pub data Event : Type 0 where
  open_create close_create submit_create : Event
  change : (ExamForm → ExamForm) → Event
  choose_exam_course : Text → Event
  type_search choose_course choose_status : Text → Event
  search go_next go_prev retry : Event
  go_to : ℕ → Event
  visit : Text → Event
  ask_delete : Exam → Event
  close_delete confirm_delete : Event

unfoldable pub step : Bool → Bool → Event → Page → Page
unfolding Exams.handle_create_exam Exams.handle_create_form_change Exams.open_create
    Exams.close_create Exams.handle_next_page Exams.handle_prev_page Exams.handle_page_change
    Exams.handle_search Exams.handle_delete_exam Exams.open_delete_modal Exams.close_delete_modal
step has_next has_prev open_create p = Exams.open_create p
step has_next has_prev close_create p = Exams.close_create p
step has_next has_prev submit_create p = Exams.handle_create_exam p
step has_next has_prev (change f) p = Exams.handle_create_form_change f p
step has_next has_prev (choose_exam_course t) p =
    record (Exams.handle_create_form_change (λ f. record f { course_id = t }) p) {
      selected_course = t;
    }
step has_next has_prev (type_search t) p = record p { search_input = t }
step has_next has_prev (choose_course t) p = record p { selected_course = t }
step has_next has_prev (choose_status t) p = record p { selected_status = t }
step has_next has_prev search p = Exams.handle_search p
step has_next has_prev go_next p = Exams.handle_next_page has_next p
step has_next has_prev go_prev p = Exams.handle_prev_page has_prev p
step has_next has_prev retry p = record p { requests = Exams.refetch ∷ p.requests }
step has_next has_prev (go_to n) p = Exams.handle_page_change n p
step has_next has_prev (visit path) p = p
step has_next has_prev (ask_delete e) p = Exams.open_delete_modal e p
step has_next has_prev close_delete p = Exams.close_delete_modal p
step has_next has_prev confirm_delete p = Exams.handle_delete_exam p

pub record Fetched : Type 0 where
  pub is_loading : Bool
  pub error : Option Text
  pub exams : List Exam
  pub pages : ℕ
  pub has_next : Bool
  pub has_prev : Bool
  pub courses : List (Text × Text × Text)  -- identifiers with names and codes

abbrev pub manages : Text → Bool
manages role = text_eq role (text "lecturer") || text_eq role (text "admin")

abbrev pub is_student : Text → Bool
is_student role = text_eq role (text "student")

unfoldable pub header : Text → View Event
header role = shown_if (manages role) (button (text "Create Exam") true open_create ∷ [])

unfoldable pub searching : Fetched → Page → View Event
unfolding search_input
searching f p =
    search_input (text "Search exams...") p.search_input f.is_loading type_search
      (some (λ v. search))

abbrev course_names : List (Text × Text × Text) → List (Text × Text)
course_names [] = []
course_names ((id, name, code) ∷ cs) = (id, name) ∷ course_names cs

abbrev course_labels : List (Text × Text × Text) → List (Text × Text)
course_labels [] = []
course_labels ((id, name, code) ∷ cs) =
    (id, name ++ (text " (" ++ (code ++ text ")"))) ∷ course_labels cs

unfoldable pub dropdowns : Fetched → Page → View Event
dropdowns f p =
    choice (([], text "All Courses") ∷ course_names f.courses) p.selected_course choose_course
    ∷ choice
        ((text "all", text "All Status")
          ∷ (text "not_started", text "Not Started")
          ∷ (text "in_progress", text "In Progress")
          ∷ (text "finished", text "Finished")
          ∷ [])
        p.selected_status choose_status
    ∷ []

unfoldable pub load_error : Option Text → View Event
load_error none = []
load_error (some e) =
    said (if is_empty e then text "Failed to load exams" else e)
    ∷ button (text "Try Again") true retry
    ∷ []

abbrev pub is_fine : Fetched → Bool
is_fine f = elim f.error [ none ↦ not f.is_loading | some e ↦ false ]

abbrev pub first_action : Bool → Element Event
first_action true = button (text "Create Exam") true open_create
first_action false = button (text "Browse Available Courses") true (visit (text "/courses"))

unfoldable pub nothing_found : Text → Fetched → Page → View Event
nothing_found role f p = shown_if (is_fine f && is_empty f.exams) (
    said (text "No Exams Available")
    ∷ said (
        if not (is_empty p.search_query)
        then text "No exams found matching your search. Try different keywords."
        else text "No exams have been created yet. Start by creating your first exam.")
    ∷ first_action (manages role)
    ∷ [])

abbrev path_of : Exam → Text → Text
path_of e rest = text "/exams/" ++ (e.id ++ rest)

abbrev pub action_parts : Text → Exam → List (View Event)
action_parts role e =
    shown_if (is_student role && text_eq e.status (text "in_progress"))
      (button (text "Take Exam") true (visit (path_of e (text "/take"))) ∷ [])
    ∷ shown_if (manages role && not (text_eq e.status (text "finished"))) (
        button (text "Edit") true (visit (path_of e (text "/edit")))
        ∷ button (text "Delete") true (ask_delete e)
        ∷ [])
    ∷ []

unfoldable pub actions : Text → Exam → View Event
unfolding stack
actions role e = stack (action_parts role e)

-- The card of an exam, which leads to it but for the buttons below. `time_text` is the text of a date
-- of the platform.
unfoldable pub card : (Text → Text) → Text → Exam → View Event
unfolding actions status_label
card time_text role e =
    button (status_label e.status) true (visit (path_of e []))
    ∷ said e.title
    ∷ said (if is_empty e.course_name then text "No course assigned" else e.course_name)
    ∷ said (print e.duration_hours ++ (text "h " ++ (print e.duration_minutes ++ text "m")))
    ∷ (shown_if (not (is_empty e.start_time)) (said (time_text e.start_time) ∷ [])
        ++ said (print e.total_marks ++ text " marks") ∷ actions role e)

abbrev pub cards : (Text → Text) → Text → List Exam → View Event
cards time_text role [] = []
cards time_text role (e ∷ es) = card time_text role e ++ cards time_text role es

unfoldable pub listing : (Text → Text) → Text → Fetched → View Event
unfolding card
listing time_text role f =
    shown_if (is_fine f && not (is_empty f.exams)) (cards time_text role f.exams)

unfoldable pub pages : Fetched → Page → View Event
unfolding pagination
pages f p =
    shown_if (is_fine f && not (is_empty f.exams))
      (pagination p.current_page (max 1 f.pages) f.has_next f.has_prev go_next go_prev go_to)

abbrev field_of : Page → Text → Text → (Text → ExamForm → ExamForm) → Element Event
field_of p label value set = entry label value (not p.create_loading) (λ v. change (set v))

abbrev pub form_parts : Fetched → Page → List (View Event)
form_parts f p =
    said_some p.create_error
    ∷ (field_of p (text "Exam Title *") p.form.title (λ v g. record g { title = v })
        ∷ choice (course_labels f.courses) p.form.course_id choose_exam_course
        ∷ field_of p (text "Start Time") p.form.start_time (λ v g. record g { start_time = v })
        ∷ field_of p (text "Duration (hours) *") p.form.duration_hours
            (λ v g. record g { duration_hours = v })
        ∷ field_of p (text "Duration (minutes)") p.form.duration_minutes
            (λ v g. record g { duration_minutes = v })
        ∷ field_of p (text "Total Marks") p.form.total_marks (λ v g. record g { total_marks = v })
        ∷ field_of p (text "Passing Marks") p.form.passing_marks
            (λ v g. record g { passing_marks = v })
        ∷ field_of p (text "Description") p.form.description (λ v g. record g { description = v })
        ∷ button (text "Cancel") (not p.create_loading) close_create
        ∷ loading_button (text "Create Exam") p.create_loading (not (Exams.can_submit p))
            submit_create
        ∷ [])
    ∷ []

unfoldable pub create_modal : Fetched → Page → View Event
unfolding modal stack Exams.can_submit
create_modal f p =
    modal p.create_open close_create (text "Create New Exam") (stack (form_parts f p))

abbrev exam_title : Option Exam → Text
exam_title none = []
exam_title (some e) = e.title

abbrev pub delete_parts : Page → List (View Event)
delete_parts p =
    (said (text "Are you sure you want to delete " ++ (exam_title p.exam_to_delete ++ text "?"))
      ∷ said (
          text
            "This action cannot be undone. All associated questions and submissions will also be deleted.")
      ∷ [])
    ∷ said_some p.delete_error
    ∷ (button (text "Cancel") (not p.delete_loading) close_delete
        ∷ loading_button (text "Delete") p.delete_loading false confirm_delete
        ∷ [])
    ∷ []

unfoldable pub delete_modal : Page → View Event
unfolding modal stack
delete_modal p = modal p.delete_open close_delete (text "Delete Exam") (stack (delete_parts p))

module _ (time_text : Text → Text) (role : Text) where
  abbrev pub parts : Fetched → Page → List (View Event)
  parts f p =
      header role
      ∷ searching f p
      ∷ dropdowns f p
      ∷ load_error f.error
      ∷ nothing_found role f p
      ∷ listing time_text role f
      ∷ pages f p
      ∷ create_modal f p
      ∷ delete_modal p
      ∷ []

  unfoldable pub view : Fetched → Page → View Event
  unfolding stack header searching dropdowns load_error nothing_found listing pages create_modal
      delete_modal
  view f p = stack (parts f p)
