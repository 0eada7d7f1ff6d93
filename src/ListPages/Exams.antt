-- ===== src/ListPages/Exams.antt =====
-- frontend/src/pages/Exams.tsx: its state and handlers. A handler that waits for the server is cut
-- there. The number 0 that the hours start with is the empty text here: neither lets the form be
-- sent. Minutes that are not typed are 0.
use wazire.Base.{
  ℕ, suc, ◌-◌, Bool, true, false, not, ◌&&◌, ◌||◌, Option, none, some, List, [], ◌∷◌, is_empty, ltb,
  if◌then◌else◌,
}
use wazire.Base.Text.{Text, text, text_eq}
use wazire.Base.Number.{Number, whole, is_falsy, lt_const}
use wazire.Base.Parse.{parse_int}

-- An exam of the list; a time that is missing is the empty text, as is the course.
pub record Exam : Type 0 where
  pub id : Text
  pub title : Text
  pub course_name : Text
  pub status : Text
  pub duration_hours : ℕ
  pub duration_minutes : ℕ
  pub start_time : Text
  pub total_marks : ℕ

pub record ExamForm : Type 0 where
  pub title : Text
  pub course_id : Text
  pub duration_hours : Text
  pub duration_minutes : Text
  pub description : Text
  pub total_marks : Text
  pub passing_marks : Text
  pub start_time : Text

unfoldable pub empty_form : ExamForm
empty_form = record {
  title = [];
  course_id = [];
  duration_hours = [];
  duration_minutes = [];
  description = [];
  total_marks = [];
  passing_marks = [];
  start_time = [];
}

-- What `createExam` gets. A field that is `undefined` is none; so is one that is NaN.
pub record ExamData : Type 0 where
  pub title : Text
  pub course_id : Text
  pub duration_hours : Number
  pub duration_minutes : Number
  pub description : Text
  pub total_marks : Option Number
  pub passing_marks : Option Number
  pub start_time : Option Text

pub data Request : Type 0 where
  create_exam : ExamData → Request
  delete_exam : Text → Request
  refetch : Request

pub data Reply : Type 0 where
  done : Reply
  failed : Option Text → Reply

pub record Page : Type 0 where
  pub current_page : ℕ
  pub search_input : Text
  pub search_query : Text
  pub selected_course : Text
  pub selected_status : Text
  pub applied_course : Text
  pub applied_status : Text
  pub create_open : Bool
  pub form : ExamForm
  pub create_loading : Bool
  pub create_error : Option Text
  pub delete_open : Bool
  pub exam_to_delete : Option Exam
  pub delete_loading : Bool
  pub delete_error : Option Text
  pub creating : Bool  -- whether the reply to a creation is waited for
  pub requests : List Request  -- those sent, the last first

-- The parameters of the list of exams; `undefined` is none.
pub record ListParams : Type 0 where
  pub page : ℕ
  pub per_page : ℕ
  pub search : Option Text
  pub course_id : Option Text
  pub status : Option Text
  pub tenant_id : Option Text

-- `t || undefined`.
abbrev or_undefined : Text → Option Text
or_undefined [] = none
or_undefined (c ∷ s) = some (c ∷ s)

unfoldable pub list_params : Bool → Text → Page → ListParams
list_params is_admin tenant_id p = record {
  page = p.current_page;
  per_page = 10;
  search = or_undefined p.search_query;
  course_id = or_undefined p.applied_course;
  status =
      if is_empty p.applied_status || text_eq p.applied_status (text "all")
      then none
      else some p.applied_status;
  tenant_id = if is_admin then none else or_undefined tenant_id;
}

-- `!durationHours || durationHours < 1`.
abbrev pub is_too_short : Option Number → Bool
is_too_short none = true
is_too_short (some n) = is_falsy n || lt_const n 1

abbrev number_or_zero : Option Number → Number
number_or_zero none = whole 0
number_or_zero (some n) = n

abbrev parse_optional : Text → Option Number
parse_optional [] = none
parse_optional (c ∷ s) = parse_int (c ∷ s)

unfoldable pub exam_data : ExamForm → ExamData
unfolding parse_int
exam_data f = record {
  title = f.title;
  course_id = f.course_id;
  duration_hours = number_or_zero (parse_int f.duration_hours);
  duration_minutes = number_or_zero (parse_int f.duration_minutes);
  description = f.description;
  total_marks = parse_optional f.total_marks;
  passing_marks = parse_optional f.passing_marks;
  start_time = or_undefined f.start_time;
}

-- `handleCreateExam` up to the request. The early return leaves `createLoading` as it was set.
unfoldable pub handle_create_exam : Page → Page
unfolding exam_data
handle_create_exam p =
    if is_too_short (parse_int p.form.duration_hours)
    then record p {
      create_loading = true;
      create_error = some (text "Duration must be at least 1 hour");
    }
    else record p {
      create_loading = true;
      create_error = none;
      creating = true;
      requests = create_exam (exam_data p.form) ∷ p.requests;
    }

abbrev message_or : Text → Option Text → Text
message_or default none = default
message_or default (some e) = e

-- What happens with the reply.
unfoldable pub exam_created : Reply → Page → Page
unfolding empty_form
exam_created done p = record p {
  form = empty_form;
  create_open = false;
  create_loading = false;
  creating = false;
  requests = refetch ∷ p.requests;
}
exam_created (failed e) p = record p {
  create_error = some (message_or (text "Failed to create exam") e);
  create_loading = false;
  creating = false;
}

-- `handleCreateFormChange`, with the form after the change.
unfoldable pub handle_create_form_change : (ExamForm → ExamForm) → Page → Page
handle_create_form_change change p = record p { form = change p.form; create_error = none }

unfoldable pub open_create : Page → Page
open_create p = record p { create_open = true }

-- The close button of the dialog, and its cancel button, which does the same.
unfoldable pub close_create : Page → Page
unfolding empty_form
close_create p = record p {
  create_open = false;
  form = empty_form;
  selected_course = [];
  create_error = none;
}

-- Whether the button that sends the form is on.
unfoldable pub can_submit : Page → Bool
can_submit p =
    not p.create_loading
    && (not (is_empty p.form.title)
        && (not (is_empty p.form.course_id) && not (is_empty p.form.duration_hours)))

unfoldable pub handle_next_page : Bool → Page → Page
handle_next_page has_next p = if has_next then record p { current_page = suc p.current_page } else p

unfoldable pub handle_prev_page : Bool → Page → Page
handle_prev_page has_prev p =
    if has_prev && ltb 1 p.current_page then record p { current_page = p.current_page - 1 } else p

unfoldable pub handle_page_change : ℕ → Page → Page
handle_page_change n p = record p { current_page = n }

unfoldable pub handle_search : Page → Page
handle_search p = record p {
  applied_course = p.selected_course;
  applied_status = p.selected_status;
  search_query = p.search_input;
  current_page = 1;
}

-- `handleDeleteExam` up to the request, and the rest of it.
abbrev pub send_delete : Option Exam → Page → Page
send_delete none p = p
send_delete (some e) p = record p {
  delete_loading = true;
  delete_error = none;
  requests = delete_exam e.id ∷ p.requests;
}

unfoldable pub handle_delete_exam : Page → Page
handle_delete_exam p = send_delete p.exam_to_delete p

unfoldable pub exam_deleted : Reply → Page → Page
exam_deleted done p = record p {
  delete_open = false;
  exam_to_delete = none;
  delete_loading = false;
  requests = refetch ∷ p.requests;
}
exam_deleted (failed e) p = record p {
  delete_error = some (message_or (text "Failed to delete exam") e);
  delete_loading = false;
}

unfoldable pub open_delete_modal : Exam → Page → Page
open_delete_modal e p = record p {
  exam_to_delete = some e;
  delete_error = none;
  delete_open = true;
}

unfoldable pub close_delete_modal : Page → Page
close_delete_modal p = record p { delete_open = false; exam_to_delete = none; delete_error = none }
