-- ===== src/Questions/Page.antt =====
-- The state of the page and its handlers. A handler that waits for the server is cut there: what it
-- does up to the request, and what it does with the reply. The message of a reply that failed is
-- none where what was thrown is no `Error`. The timers that clear the message of success and that
-- fetch again after an upload are left out.
use wazire.Base.{
  ℕ, suc, Bool, true, false, Option, none, some, List, [], ◌∷◌, ◌++◌, if◌then◌else◌, erase_at,
}
use wazire.Base.Text.{Text, text, text_eq}
use wazire.Base.Number.{Number}
use wazire.Questions.Form.{
  Question, Form, QuestionData, Built, built, refused, Change, handle_form_change, reset_form,
  initial_form, create_data, update_data, next_number, highest,
}
use wazire.Questions.RoundTrip.{edit_form}

pub data Request : Type 0 where
  create_question : QuestionData → Request
  update_question : Text → QuestionData → Request
  delete_question : Text → Request
  refetch_questions : Request

-- What the reply that the page waits for is to.
pub data Waiting : Type 0 where
  for_create : ℕ → Waiting
  for_update : Waiting

pub record Page : Type 0 where
  pub questions : List Question
  pub form : Form
  pub form_error : Option Text
  pub form_loading : Bool
  pub success_message : Option Text
  pub create_open : Bool
  pub edit_open : Bool
  pub editing : Option Question
  pub delete_open : Bool
  pub to_delete : Option Question
  pub current_page : ℕ
  pub question_number : ℕ
  pub previews : List Text
  pub objective_type : Text
  pub waiting : Option Waiting
  pub requests : List Request  -- those sent, the last first

unfoldable pub start : List Question → Page
unfolding initial_form
start questions = record {
  questions = questions;
  form = initial_form;
  form_error = none;
  form_loading = false;
  success_message = none;
  create_open = false;
  edit_open = false;
  editing = none;
  delete_open = false;
  to_delete = none;
  current_page = 1;
  question_number = 1;
  previews = [];
  objective_type = text "multiple_choice";
  waiting = none;
  requests = [];
}

-- The query has given the questions of the exam: at the start, and after each `refetch`.
unfoldable pub questions_fetched : List Question → Page → Page
questions_fetched questions p = record p { questions = questions }

unfoldable pub change_form : Change → Page → Page
unfolding handle_form_change
change_form c p = record p { form = handle_form_change c p.form; form_error = none }

-- The choice between objective and theory, and that of an objective type.
unfoldable pub choose_type : Text → Page → Page
unfolding change_form
choose_type v p =
    change_form
      (Change.question_type
        (if text_eq v (text "objective") then p.objective_type else text "theory"))
      p

unfoldable pub choose_objective_type : Text → Page → Page
unfolding change_form
choose_objective_type v p = change_form (Change.question_type v) (record p { objective_type = v })

-- `setFormError(e)`, and `setFormLoading(false)`.
abbrev stop : Text → Page → Page
stop e p = record p { form_error = some e; form_loading = false }

abbrev pub send_created : Built → ℕ → Page → Page
send_created (refused e) n p = stop e p
send_created (built d) n p = record p {
  form_error = none;
  form_loading = true;
  waiting = some (for_create n);
  requests = create_question d ∷ p.requests;
}

-- Without an exam nothing is sent.
unfoldable pub handle_create_question : Option Text → Page → Page
unfolding create_data
handle_create_question none p = record p { form_error = none; form_loading = false }
handle_create_question (some exam_id) p =
    send_created (create_data p.questions exam_id p.form) (next_number p.questions) p

abbrev pub send_updated : Built → Text → Page → Page
send_updated (refused e) id p = stop e p
send_updated (built d) id p = record p {
  form_error = none;
  form_loading = true;
  waiting = some for_update;
  requests = update_question id d ∷ p.requests;
}

abbrev pub update_edited : (Number → Text) → Option Question → Page → Page
update_edited number_text none p = record p { form_error = none; form_loading = false }
update_edited number_text (some q) p = send_updated (update_data number_text p.form) q.id p

unfoldable pub handle_update_question : (Number → Text) → Option Text → Page → Page
unfolding update_data
handle_update_question number_text none p = record p { form_error = none; form_loading = false }
handle_update_question number_text (some exam_id) p = update_edited number_text p.editing p

-- The submit handler of the form; its button is off while it loads.
unfoldable pub submit : (Number → Text) → Option Text → Page → Page
unfolding handle_create_question handle_update_question
submit number_text exam_id p =
    if p.form_loading
    then p
    else if p.edit_open
    then handle_update_question number_text exam_id p
    else handle_create_question exam_id p

pub data Reply : Type 0 where
  done : Reply
  failed : Option Text → Reply

abbrev message_or : Text → Option Text → Text
message_or default none = default
message_or default (some e) = e

-- The rest of `handleCreateQuestion`.
unfoldable pub question_created : ℕ → Reply → Page → Page
unfolding reset_form
question_created n done p = record p {
  success_message = some (text "Question created successfully!");
  form = reset_form;
  question_number = suc n;
  previews = [];
  create_open = false;
  current_page = 1;
  form_loading = false;
  waiting = none;
  requests = refetch_questions ∷ p.requests;
}
question_created n (failed e) p = record p {
  form_error = some (message_or (text "Failed to create question") e);
  form_loading = false;
  waiting = none;
}

-- The rest of `handleUpdateQuestion`.
unfoldable pub question_updated : Reply → Page → Page
unfolding reset_form
question_updated done p = record p {
  success_message = some (text "Question updated successfully!");
  form = reset_form;
  previews = [];
  edit_open = false;
  editing = none;
  current_page = 1;
  form_loading = false;
  waiting = none;
  requests = refetch_questions ∷ p.requests;
}
question_updated (failed e) p = record p {
  form_error = some (message_or (text "Failed to update question") e);
  form_loading = false;
  waiting = none;
}

abbrev pub answered : Option Waiting → Reply → Page → Page
answered none r p = p
answered (some (for_create n)) r p = question_created n r p
answered (some for_update) r p = question_updated r p

unfoldable pub reply : Reply → Page → Page
unfolding question_created question_updated
reply r p = answered p.waiting r p

unfoldable pub handle_delete_question : Option Text → Question → Page → Page
handle_delete_question none q p = p
handle_delete_question (some exam_id) q p = record p { to_delete = some q; delete_open = true }

-- `confirmDeleteQuestion` up to its request.
abbrev pub send_delete : Option Text → Option Question → Page → Page
send_delete (some exam_id) (some q) p = record p { requests = delete_question q.id ∷ p.requests }
send_delete _ _ p = p

unfoldable pub confirm_delete_question : Option Text → Page → Page
confirm_delete_question exam_id p = send_delete exam_id p.to_delete p

unfoldable pub cancel_delete : Page → Page
cancel_delete p = record p { delete_open = false; to_delete = none }

-- The rest of `confirmDeleteQuestion`; it runs the statements of `cancelDelete` in any case.
unfoldable pub question_deleted : Reply → Page → Page
unfolding cancel_delete
question_deleted done p = cancel_delete (record p {
  success_message = some (text "Question deleted successfully!");
  current_page = 1;
  requests = refetch_questions ∷ p.requests;
})
question_deleted (failed e) p = cancel_delete p

abbrev number_after : List Question → ℕ
number_after [] = 1
number_after (q ∷ qs) = suc (highest (q ∷ qs))

-- `handleEditQuestion`, where no number is below zero.
unfoldable pub handle_edit_question : Question → Page → Page
unfolding edit_form
handle_edit_question q p = record p {
  editing = some q;
  question_number = number_after p.questions;
  form = edit_form q;
  previews = q.images;
  edit_open = true;
}

-- The button of the page, the close button of the form and its cancel button.
unfoldable pub open_create : Page → Page
open_create p = record p { create_open = true }

unfoldable pub close_form : Page → Page
unfolding reset_form
close_form p = record p {
  create_open = false;
  edit_open = false;
  editing = none;
  form = reset_form;
  question_number = 1;
}

unfoldable pub cancel_form : Page → Page
cancel_form p = record p { create_open = false; edit_open = false; editing = none }

-- The end of `handleImageUpload`, for an image that was compressed; `clearImages`; and the button
-- that takes one image out.
unfoldable pub add_image : Text → Page → Page
add_image image p = record p {
  form = record p.form { images = p.form.images ++ image ∷ [] };
  previews = p.previews ++ image ∷ [];
}

unfoldable pub clear_images : Page → Page
clear_images p = record p { form = record p.form { images = [] }; previews = [] }

unfoldable pub remove_image : ℕ → Page → Page
remove_image i p = record p {
  form = record p.form { images = erase_at i p.form.images };
  previews = erase_at i p.previews;
}
