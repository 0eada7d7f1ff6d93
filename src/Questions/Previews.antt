-- ===== src/Questions/Previews.antt =====
-- The images of the form and their previews.
use wazire.Base.{ℕ, ◌≡◌, ◌∙◌, sym, refl, Bool, true, false, Option, none, some, List, [], ◌∷◌, All}
use wazire.Base.Text.{Text}
use wazire.Base.Number.{Number}
use wazire.Questions.Form.{
  Question, Change, Built, refused, built, handle_form_change, reset_form, initial_form,
  create_data, update_data, next_number,
}
use wazire.Ui.Element.{File}
use wazire.Questions.Uploads.{Read, read, unreadable, handle_image_upload, validate_image_file}
use wazire.Questions.RoundTrip.{edit_form}
use wazire.Questions.Page.{
  Page, Reply, done, failed, Waiting, for_create, for_update, start, change_form, submit,
  handle_create_question, handle_update_question, reply, handle_delete_question,
  confirm_delete_question, cancel_delete, question_deleted, question_created, question_updated,
  handle_edit_question, open_create, close_form, cancel_form, add_image, clear_images, remove_image,
  questions_fetched, choose_type, choose_objective_type, send_created, send_updated, update_edited,
  answered, send_delete,
}
use wazire.Questions.Life.{Event, step, run, submit_cases, keeps_if}
use wazire.Questions.Life.Event.{
  changed, submitted, replied, delete_clicked, edit_clicked, delete_confirmed, delete_cancelled,
  delete_replied, create_clicked, closed, cancelled, image_chosen, images_cleared, image_removed,
  type_chosen, objective_chosen, fetched,
}

abbrev pub Shown : Page → Type 0
Shown p = p.previews ≡ p.form.images

abbrev pub is_close : Event → Bool
is_close closed = true
is_close _ = false

images-change : (c : Change) (p : Page) → (handle_form_change c p.form).images ≡ p.form.images
unfolding handle_form_change
images-change (Change.question_type t) p = refl
images-change (Change.question_text t) p = refl
images-change (Change.correct_answer t) p = refl
images-change (Change.options ts) p = refl
images-change (Change.marks n) p = refl
images-change (Change.order n) p = refl

sent_created-Shown : (b : Built) (n : ℕ) (p : Page) → Shown p → Shown (send_created b n p)
sent_created-Shown (refused e) n p h = h
sent_created-Shown (built d) n p h = h

sent_updated-Shown : (b : Built) (id : Text) (p : Page) → Shown p → Shown (send_updated b id p)
sent_updated-Shown (refused e) id p h = h
sent_updated-Shown (built d) id p h = h

edited-Shown :
    (number_text : Number → Text) (q : Option Question) (p : Page)
    → Shown p
    → Shown (update_edited number_text q p)
edited-Shown number_text none p h = h
edited-Shown number_text (some q) p h = sent_updated-Shown (update_data number_text p.form) q.id p h

created-Shown : (x : Option Text) (p : Page) → Shown p → Shown (handle_create_question x p)
unfolding handle_create_question
created-Shown none p h = h
created-Shown (some x) p h =
    sent_created-Shown (create_data p.questions x p.form) (next_number p.questions) p h

updated-Shown :
    (number_text : Number → Text) (x : Option Text) (p : Page)
    → Shown p
    → Shown (handle_update_question number_text x p)
unfolding handle_update_question
updated-Shown number_text none p h = h
updated-Shown number_text (some x) p h = edited-Shown number_text p.editing p h

submit-Shown :
    (number_text : Number → Text) (x : Option Text) (p : Page)
    → Shown p
    → Shown (submit number_text x p)
submit-Shown t x p h =
    submit_cases Shown t x p h (λ idle. updated-Shown t x p h) (λ idle. created-Shown x p h)

answered-Shown : (w : Option Waiting) (r : Reply) (p : Page) → Shown p → Shown (answered w r p)
unfolding question_created question_updated reset_form
answered-Shown none r p h = h
answered-Shown (some (for_create n)) done p h = refl
answered-Shown (some (for_create n)) (failed e) p h = h
answered-Shown (some for_update) done p h = refl
answered-Shown (some for_update) (failed e) p h = h

clicked-Shown :
    (x : Option Text) (q : Question) (p : Page) → Shown p → Shown (handle_delete_question x q p)
unfolding handle_delete_question
clicked-Shown none q p h = h
clicked-Shown (some x) q p h = h

confirmed-Shown :
    (x : Option Text) (q : Option Question) (p : Page) → Shown p → Shown (send_delete x q p)
confirmed-Shown none q p h = h
confirmed-Shown (some x) none p h = h
confirmed-Shown (some x) (some q) p h = h

deleted-Shown : (r : Reply) (p : Page) → Shown p → Shown (question_deleted r p)
unfolding question_deleted cancel_delete
deleted-Shown done p h = h
deleted-Shown (failed e) p h = h

chosen-Shown :
    (f : Option File) (r : Read Text) (p : Page) → Shown p → Shown (handle_image_upload f r p)
unfolding handle_image_upload add_image
chosen-Shown none r p h = h
chosen-Shown (some f) (read i) p h =
    keeps_if Shown (validate_image_file f 5) (add_image i p) _ (λ e. rw h refl) (λ e. h)
chosen-Shown (some f) (unreadable e) p h =
    keeps_if Shown (validate_image_file f 5) _ _ (λ e. h) (λ e. h)

step-Shown :
    (t : Number → Text) (x : Option Text) (e : Event) (p : Page)
    → is_close e ≡ false
    → Shown p
    → Shown (step t x e p)
unfolding choose_type choose_objective_type handle_form_change step change_form reply
    confirm_delete_question cancel_delete handle_edit_question open_create cancel_form add_image
    clear_images remove_image edit_form questions_fetched
step-Shown t x (changed ch) p o h = h ∙ sym (images-change ch p)
step-Shown t x submitted p o h = submit-Shown t x p h
step-Shown t x (replied r) p o h = answered-Shown p.waiting r p h
step-Shown t x (delete_clicked q) p o h = clicked-Shown x q p h
step-Shown t x (edit_clicked q) p o h = refl
step-Shown t x delete_confirmed p o h = confirmed-Shown x p.to_delete p h
step-Shown t x delete_cancelled p o h = h
step-Shown t x (delete_replied r) p o h = deleted-Shown r p h
step-Shown t x create_clicked p o h = h
step-Shown t x closed p o h = cc
step-Shown t x cancelled p o h = h
step-Shown t x (image_chosen f r) p o h = chosen-Shown f r p h
step-Shown t x images_cleared p o h = refl
step-Shown t x (image_removed i) p o h = rw h refl
step-Shown t x (type_chosen v) p o h = h
step-Shown t x (objective_chosen v) p o h = h
step-Shown t x (fetched qs) p o h = h

run-Shown :
    (t : Number → Text) (x : Option Text) (es : List Event) (p : Page)
    → All (λ e. is_close e ≡ false) es
    → Shown p
    → Shown (run t x es p)
unfolding run
run-Shown t x [] p o h = h
run-Shown t x (e ∷ es) p (o, os) h = run-Shown t x es (step t x e p) os (step-Shown t x e p o h)

-- As long as the form is left by its cancel button or by a reply, and not by the close button of
-- its dialog, the previews are the images of the form, over any sequence of events from the page as
-- it starts. The close button breaks this: it empties the form and keeps the previews, so that after
-- a question with images was opened and closed, the form of a new question shows its images and has
-- none.
pub previews_are_images :
    (number_text : Number → Text) (exam_id : Option Text) (questions : List Question)
    (es : List Event) (q : Question) (p : Page)
    → All (λ e. is_close e ≡ false) es
    → let after = run number_text exam_id (edit_clicked q ∷ closed ∷ create_clicked ∷ []) p in
      Shown (run number_text exam_id es (start questions))
      × (after.previews ≡ q.images)
      × (after.form.images ≡ [])
unfolding start initial_form run step handle_edit_question close_form open_create reset_form
    edit_form
previews_are_images t x questions es q p o = (run-Shown t x es (start questions) o refl, refl, refl)
