-- ===== src/Questions/Screen.antt =====
-- The page with its search, its filter, its pages and the upload of a document. The platform reads
-- files: `compress` is what it makes of an image and `convert` of a document.
use wazire.Base.{ℕ, Bool, false, Option, none, some, List, [], length}
use wazire.Base.Text.{Text, text}
use wazire.Base.Number.{Number}
use wazire.Ui.Element.{File}
use wazire.Questions.Form.{Question}
use wazire.Questions.Page.{Page, start, Reply}
use wazire.Questions.Life
use wazire.Questions.Life.Event.{image_chosen}
use wazire.Questions.Uploads.{Read, Upload, Progress, handle_document_upload, document_uploaded}
use wazire.Questions.View.{filter_questions}
use wazire.Paging.Slices.{handle_page_change, handle_next_page, handle_prev_page}

pub record Screen : Type 0 where
  pub page : Page
  pub search_query : Text
  pub qtype_filter : Text
  pub is_processing : Bool
  pub upload : Option Upload  -- a request that was sent

-- As the page starts, before there are questions.
unfoldable pub start_screen : Screen
unfolding start
start_screen = record {
  page = start [];
  search_query = [];
  qtype_filter = text "all";
  is_processing = false;
  upload = none;
}

pub data Event : Type 0 where
  on_page : Life.Event → Event
  search_for choose_filter : Text → Event
  go_next go_prev : Event
  go_to : ℕ → Event
  image_picked document_picked : File → Event
  leave : Event  -- to the list of exams

unfoldable pub filtered : Screen → List Question
unfolding filter_questions
filtered s = filter_questions s.qtype_filter s.search_query s.page.questions

abbrev at_page : ℕ → Screen → Screen
at_page n s = record s { page = record s.page { current_page = n } }

-- What an upload reads and writes of the page.
abbrev progress_of : Screen → Progress
progress_of s = record {
  form_error = s.page.form_error;
  form_loading = s.page.form_loading;
  is_processing = s.is_processing;
  success_message = s.page.success_message;
  upload = s.upload;
}

abbrev with_progress : Progress → Screen → Screen
with_progress t s = record s {
  page = record s.page {
    form_error = t.form_error;
    form_loading = t.form_loading;
    success_message = t.success_message;
  };
  is_processing = t.is_processing;
  upload = t.upload;
}

unfoldable pub document_replied : Reply → Screen → Screen
unfolding document_uploaded
document_replied r s = with_progress (document_uploaded r (progress_of s)) s

module _ (number_text : Number → Text) (exam_id : Option Text) (compress : File → Read Text)
    (convert : File → Read (List Text)) where
  abbrev page_step : Life.Event → Screen → Screen
  page_step e s = record s { page = Life.step number_text exam_id e s.page }

  unfoldable pub step : Event → Screen → Screen
  unfolding Life.step filtered handle_page_change handle_next_page handle_prev_page
      handle_document_upload
  step (on_page e) s = page_step e s
  step (search_for t) s = record s { search_query = t }
  step (choose_filter t) s = record s { qtype_filter = t }
  step go_next s = at_page (handle_next_page (length (filtered s)) s.page.current_page) s
  step go_prev s = at_page (handle_prev_page s.page.current_page) s
  step (go_to n) s = at_page (handle_page_change (length (filtered s)) n s.page.current_page) s
  step (image_picked f) s = page_step (image_chosen (some f) (compress f)) s
  step (document_picked f) s =
      with_progress (handle_document_upload (some f) exam_id (convert f) (progress_of s)) s
  step leave s = s
