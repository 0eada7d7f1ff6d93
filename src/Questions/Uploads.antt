-- ===== src/Questions/Uploads.antt =====
-- The files of the page: `handleImageUpload` and `handleDocumentUpload`, with `validateImageFile` of
-- frontend/src/lib/imageUtils.ts. Reading and compressing a file is the platform's: its result
-- is an argument.
use wazire.Base.{
  ℕ, ◌*◌, Bool, true, false, not, ◌&&◌, ◌||◌, Option, none, some, List, [], ◌∷◌, ◌++◌, any, ltb,
  length, if◌then◌else◌,
}
use wazire.Base.Text.{Text, text, text_eq, to_lower, starts_with}
use wazire.Base.Decimal.{print}
use mathlib.Core.List.{reverse}
use wazire.Ui.Element.{File}
use wazire.Questions.Page.{Page, Reply, done, failed, add_image}

-- The result of reading a file, or the message of the error.
pub data Read (A : Type 0) : Type 0 where
  read : A → Read A
  unreadable : Option Text → Read A

unfoldable pub validate_image_file : File → ℕ → Bool
unfolding starts_with
validate_image_file f max_size_mb =
    starts_with f.type_text (text "image/") && not (ltb (max_size_mb * 1024 * 1024) f.size)

abbrev message_or : Text → Option Text → Text
message_or default none = default
message_or default (some e) = e

abbrev with_image : Read Text → Page → Page
with_image (read image) p = add_image image p
with_image (unreadable e) p = record p {
  form_error = some (message_or (text "Failed to process image") e);
}

-- Without a file nothing happens.
unfoldable pub handle_image_upload : Option File → Read Text → Page → Page
unfolding validate_image_file add_image
handle_image_upload none compressed p = p
handle_image_upload (some f) compressed p =
    if validate_image_file f 5 then with_image compressed p else record p {
      form_error = some (text "Please upload a valid image file (JPEG, PNG, etc.) under 5MB");
    }

-- `s.endsWith(t)`.
abbrev ends_with : Text → Text → Bool
ends_with s t = starts_with (reverse s) (reverse t)

unfoldable pub is_allowed_document : File → Bool
unfolding starts_with to_lower
is_allowed_document f =
    any (text_eq f.type_text)
      (text "application/pdf" ∷ text "image/jpeg" ∷ text "image/png" ∷ text "image/webp" ∷ [])
    || ends_with (to_lower f.name) (text ".pdf")

-- What is sent for a document: its pages for the exam.
pub record Upload : Type 0 where
  pub pages : List Text
  pub exam_id : Text

-- What the page shows of an upload, beside the state of the form.
pub record Progress : Type 0 where
  pub form_error : Option Text
  pub form_loading : Bool
  pub is_processing : Bool
  pub success_message : Option Text
  pub upload : Option Upload  -- the request that was sent

abbrev refuse : Text → Progress → Progress
refuse e s = record s { form_error = some e }

-- From the pages on, up to the request. The loading ends where nothing is sent; the processing that
-- the page shows goes on.
abbrev send_pages : Option Text → Read (List Text) → Progress → Progress
send_pages exam_id (unreadable e) s = record s {
  form_error = some (message_or (text "Failed to upload document") e);
  is_processing = false;
  form_loading = false;
}
send_pages none (read pages) s = record s { form_loading = false }
send_pages (some exam_id) (read []) s = record s {
  form_error = some (text "No pages could be extracted from document");
  form_loading = false;
}
send_pages (some exam_id) (read (page ∷ pages)) s = record s {
  success_message = some (
      text "Extracted "
      ++ print (length (page ∷ pages))
      ++ text " page(s). Uploading to server...");
  upload = some (record { pages = page ∷ pages; exam_id = exam_id });
}

unfoldable pub handle_document_upload :
    Option File → Option Text → Read (List Text) → Progress → Progress
unfolding is_allowed_document
handle_document_upload none exam_id document s = s
handle_document_upload (some f) exam_id document s =
    if not (is_allowed_document f)
    then refuse (text "Please upload a PDF or image (.pdf, .jpg, .png, .webp)") s
    else if ltb (10 * 1024 * 1024) f.size
    then refuse (text "Document size must be less than 10MB") s
    else send_pages exam_id document (record s {
      form_loading = true;
      is_processing = true;
      success_message = some (text "Converting document to images...");
    })

-- With the reply to the request.
unfoldable pub document_uploaded : Reply → Progress → Progress
document_uploaded done s = record s {
  success_message =
      some (text "Document uploaded successfully! Questions will be extracted in background.");
  is_processing = false;
  form_loading = false;
  upload = none;
}
document_uploaded (failed e) s = record s {
  form_error = some (message_or (text "Failed to upload document") e);
  is_processing = false;
  form_loading = false;
  upload = none;
}
