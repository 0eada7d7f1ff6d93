-- ===== src/CourseList/Page.antt =====
-- The state of the page and its handlers, each cut where it waits for the server. What a student sees
-- of the courses that the server gives is in ListPages/Students.
use wazire.Base.{
  ℕ, suc, ◌-◌, Bool, true, false, ◌&&◌, not, Option, none, some, List, [], ◌∷◌, is_empty, ltb,
  if◌then◌else◌,
}
use wazire.Base.Text.{Text, text, text_eq}

-- The lecturer of a course, who may be given by the identifier alone.
pub data Lecturer : Type 0 where
  no_lecturer : Lecturer
  by_id : Text → Lecturer
  known : Text → Text → Text → Lecturer  -- identifier, first and last name

pub record Course : Type 0 where
  pub id : Text
  pub name : Text
  pub course_code : Text
  pub description : Text
  pub lecturer : Lecturer
  pub exam_count : ℕ  -- 0 where it is missing

-- The property `lecturer` of the form: `{}` at first, and not there after a reset.
pub data LecturerField : Type 0 where
  empty_object missing : LecturerField

pub record Form : Type 0 where
  pub name : Text
  pub course_code : Text
  pub description : Text
  pub lecturer : LecturerField
  pub lecturer_id : Option Text

abbrev first_form : Form
first_form = record {
  name = [];
  course_code = [];
  description = [];
  lecturer = empty_object;
  lecturer_id = none;
}

unfoldable pub empty_form : Form
empty_form = record {
  name = [];
  course_code = [];
  description = [];
  lecturer = missing;
  lecturer_id = some [];
}

-- What `createCourse` gets, with the properties that it has.
pub record CourseData : Type 0 where
  pub name : Text
  pub course_code : Text
  pub tenant_id : Option Text
  pub description : Text
  pub lecturer : LecturerField

unfoldable pub course_data : Option Text → Form → CourseData
course_data tenant f = record {
  name = f.name;
  course_code = f.course_code;
  tenant_id = tenant;
  description = f.description;
  lecturer = f.lecturer;
}

pub data Request : Type 0 where
  create_course : CourseData → Request
  delete_course : Text → Request
  refetch : Request

-- What is thrown: an object with a response, whose data may have an error and a message; another
-- `Error`; or something else. A text that is missing is empty.
pub data Thrown : Type 0 where
  with_response : Text → Text → Thrown
  error_with : Text → Thrown
  other : Thrown

pub data Reply : Type 0 where
  done : Reply
  failed : Thrown → Reply

abbrev or_else : Text → Text → Text
or_else [] default = default
or_else (c ∷ s) default = c ∷ s

unfoldable pub create_message : Thrown → Text
create_message (with_response error message) =
    or_else error (or_else message (text "Failed to create course"))
create_message (error_with message) = message
create_message other = text "Failed to create course"

pub record Page : Type 0 where
  pub search_query : Text
  pub search_input : Text
  pub create_open : Bool
  pub current_page : ℕ
  pub delete_open : Bool
  pub course_to_delete : Option Course
  pub delete_loading : Bool
  pub form : Form
  pub create_loading : Bool
  pub create_error : Option Text
  pub selected_lecturer : Text
  pub went_to : Option Text  -- where `navigate` has led
  pub requests : List Request  -- those sent, the last first

unfoldable pub start : Page
start = record {
  search_query = [];
  search_input = [];
  create_open = false;
  current_page = 1;
  delete_open = false;
  course_to_delete = none;
  delete_loading = false;
  form = first_form;
  create_loading = false;
  create_error = none;
  selected_lecturer = text "all";
  went_to = none;
  requests = [];
}

-- The parameters of the list of courses; `undefined` is none.
pub record ListParams : Type 0 where
  pub page : ℕ
  pub per_page : ℕ
  pub search : Option Text
  pub tenant_id : Option Text
  pub lecturer_id : Option Text

abbrev or_undefined : Text → Option Text
or_undefined [] = none
or_undefined (c ∷ s) = some (c ∷ s)

unfoldable pub list_params : Text → Text → Page → ListParams
list_params role tenant p = record {
  page = p.current_page;
  per_page = 6;
  search = or_undefined p.search_query;
  tenant_id = or_undefined tenant;
  lecturer_id =
      if text_eq role (text "admin")
        && (not (is_empty p.selected_lecturer) && not (text_eq p.selected_lecturer (text "all")))
      then some p.selected_lecturer
      else none;
}

-- `handleCreateCourse` up to the request, and the rest of it.
unfoldable pub handle_create_course : Option Text → Page → Page
unfolding course_data
handle_create_course tenant p = record p {
  create_loading = true;
  create_error = none;
  requests = create_course (course_data tenant p.form) ∷ p.requests;
}

unfoldable pub course_created : Reply → Page → Page
unfolding empty_form create_message
course_created done p = record p {
  form = empty_form;
  create_open = false;
  requests = refetch ∷ p.requests;
  create_loading = false;
}
course_created (failed e) p = record p {
  create_error = some (create_message e);
  create_loading = false;
}

unfoldable pub handle_next_page : Bool → Page → Page
handle_next_page has_next p = if has_next then record p { current_page = suc p.current_page } else p

unfoldable pub handle_prev_page : Page → Page
handle_prev_page p =
    if ltb 1 p.current_page then record p { current_page = p.current_page - 1 } else p

-- `handleDeleteCourse`, for the course that is to be deleted.
abbrev pub send_delete : Option Course → Page → Page
send_delete none p = p
send_delete (some c) p = record p {
  delete_loading = true;
  requests = delete_course c.id ∷ p.requests;
}

unfoldable pub handle_delete_course : Page → Page
handle_delete_course p = send_delete p.course_to_delete p

-- A deletion that failed is only written to the console.
unfoldable pub course_deleted : Reply → Page → Page
course_deleted done p = record p {
  delete_open = false;
  course_to_delete = none;
  requests = refetch ∷ p.requests;
  delete_loading = false;
}
course_deleted (failed e) p = record p {
  delete_open = false;
  course_to_delete = none;
  delete_loading = false;
}

unfoldable pub open_delete_modal : Course → Page → Page
open_delete_modal c p = record p { course_to_delete = some c; delete_open = true }

unfoldable pub close_delete_modal : Page → Page
close_delete_modal p = record p { delete_open = false; course_to_delete = none }

unfoldable pub handle_close_create_modal : Page → Page
unfolding empty_form
handle_close_create_modal p = record p {
  create_open = false;
  form = empty_form;
  create_error = none;
}

-- `handleCreateFormChange` for each field that the dialog changes.
pub data Change : Type 0 where
  name course_code description lecturer_id : Text → Change

unfoldable pub change_form : Change → Form → Form
change_form (Change.name v) f = record f { name = v }
change_form (Change.course_code v) f = record f { course_code = v }
change_form (Change.description v) f = record f { description = v }
change_form (Change.lecturer_id v) f = record f { lecturer_id = some v }

unfoldable pub handle_create_form_change : Change → Page → Page
unfolding change_form
handle_create_form_change c p = record p { form = change_form c p.form; create_error = none }

-- What the user makes happen.
pub data Event : Type 0 where
  open_create close_create cancel_create submit_create : Event
  change : Change → Event
  type_search search choose_lecturer : Text → Event
  go_next go_prev retry : Event
  go_to : ℕ → Event
  visit : Text → Event
  ask_delete : Course → Event
  close_delete confirm_delete : Event

-- `has_next` is that of the pagination that the page shows.
unfoldable pub step : Option Text → Bool → Event → Page → Page
unfolding handle_close_create_modal handle_create_course handle_create_form_change handle_next_page
    handle_prev_page open_delete_modal close_delete_modal handle_delete_course
step tenant has_next open_create p = record p { create_open = true }
step tenant has_next close_create p = handle_close_create_modal p
step tenant has_next cancel_create p = record p { create_open = false }
step tenant has_next submit_create p = handle_create_course tenant p
step tenant has_next (change c) p = handle_create_form_change c p
step tenant has_next (type_search s) p = record p { search_input = s }
step tenant has_next (search s) p = record p { search_query = s; current_page = 1 }
step tenant has_next (choose_lecturer s) p = record p { selected_lecturer = s; current_page = 1 }
step tenant has_next go_next p = handle_next_page has_next p
step tenant has_next go_prev p = handle_prev_page p
step tenant has_next retry p = record p { requests = refetch ∷ p.requests }
step tenant has_next (go_to n) p = record p { current_page = n }
step tenant has_next (visit path) p = record p { went_to = some path }
step tenant has_next (ask_delete c) p = open_delete_modal c p
step tenant has_next close_delete p = close_delete_modal p
step tenant has_next confirm_delete p = handle_delete_course p
