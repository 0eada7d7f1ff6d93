-- ===== src/Questions/Life.antt =====
-- What stays true of the page while it is used.
use wazire.Base.{
  ℕ, ◌≡◌, if◌then◌else◌, refl, Bool, true, false, Option, none, some, List, [], ◌∷◌, arith,
}
use wazire.Base.Text.{Text}
use wazire.Base.Number.{Number}
use wazire.Questions.Form.{
  Question, Change, Built, refused, built, create_data, update_data, next_number,
}
use wazire.Ui.Element.{File}
use wazire.Questions.Uploads.{Read, read, unreadable, handle_image_upload, validate_image_file}
use wazire.Questions.RoundTrip.{edit_form}
use wazire.Questions.Page.{
  Page, Reply, done, failed, Waiting, for_create, for_update, start, change_form, submit,
  handle_create_question, handle_update_question, reply, handle_delete_question,
  confirm_delete_question, cancel_delete, question_deleted, question_created, question_updated,
  handle_edit_question, open_create, close_form, cancel_form, add_image, clear_images, remove_image,
  questions_fetched, choose_type, choose_objective_type, send_created, send_updated, update_edited,
  answered, send_delete,
}

-- What the user does on the page, the replies of the server and the lists that the query gives. No
-- document is uploaded.
pub data Event : Type 0 where
  changed : Change → Event
  submitted : Event
  replied : Reply → Event
  delete_clicked edit_clicked : Question → Event
  delete_confirmed delete_cancelled : Event
  delete_replied : Reply → Event
  create_clicked closed cancelled : Event
  image_chosen : Option File → Read Text → Event
  images_cleared : Event
  image_removed : ℕ → Event
  type_chosen objective_chosen : Text → Event
  fetched : List Question → Event

module _ (number_text : Number → Text) (exam_id : Option Text) where
  unfoldable pub step : Event → Page → Page
  step (changed c) p = change_form c p
  step submitted p = submit number_text exam_id p
  step (replied r) p = reply r p
  step (delete_clicked q) p = handle_delete_question exam_id q p
  step (edit_clicked q) p = handle_edit_question q p
  step delete_confirmed p = confirm_delete_question exam_id p
  step delete_cancelled p = cancel_delete p
  step (delete_replied r) p = question_deleted r p
  step create_clicked p = open_create p
  step closed p = close_form p
  step cancelled p = cancel_form p
  step (image_chosen f r) p = handle_image_upload f r p
  step images_cleared p = clear_images p
  step (image_removed i) p = remove_image i p
  step (type_chosen v) p = choose_type v p
  step (objective_chosen v) p = choose_objective_type v p
  step (fetched qs) p = questions_fetched qs p

  unfoldable pub run : List Event → Page → Page
  run [] p = p
  run (e ∷ es) p = run es (step e p)

abbrev pub is_some {ℓ} : {A : Type ℓ} → Option A → Bool
is_some none = false
is_some (some _) = true

abbrev pub IsConsistent : Page → Type 0
IsConsistent p =
    (p.edit_open ≡ is_some p.editing)
    × (p.delete_open ≡ is_some p.to_delete)
    × (p.form_loading ≡ is_some p.waiting)

sent_created :
    (b : Built) (n : ℕ) (p : Page)
    → p.form_loading ≡ false
    → IsConsistent p
    → IsConsistent (send_created b n p)
sent_created (refused e) n p idle (a, b, c) = (a, b, ground arith)
sent_created (built x) n p idle (a, b, c) = (a, b, refl)

sent_updated :
    (b : Built) (id : Text) (p : Page)
    → p.form_loading ≡ false
    → IsConsistent p
    → IsConsistent (send_updated b id p)
sent_updated (refused e) id p idle (a, b, c) = (a, b, ground arith)
sent_updated (built x) id p idle (a, b, c) = (a, b, refl)

created-IsConsistent :
    (exam_id : Option Text) (p : Page)
    → p.form_loading ≡ false
    → IsConsistent p
    → IsConsistent (handle_create_question exam_id p)
unfolding handle_create_question
created-IsConsistent none p idle (a, b, c) = (a, b, ground arith)
created-IsConsistent (some x) p idle h =
    sent_created (create_data p.questions x p.form) (next_number p.questions) p idle h

edited-IsConsistent :
    (number_text : Number → Text) (q : Option Question) (p : Page)
    → p.form_loading ≡ false
    → IsConsistent p
    → IsConsistent (update_edited number_text q p)
edited-IsConsistent number_text none p idle (a, b, c) = (a, b, ground arith)
edited-IsConsistent number_text (some q) p idle h =
    sent_updated (update_data number_text p.form) q.id p idle h

updated-IsConsistent :
    (number_text : Number → Text) (exam_id : Option Text) (p : Page)
    → p.form_loading ≡ false
    → IsConsistent p
    → IsConsistent (handle_update_question number_text exam_id p)
unfolding handle_update_question
updated-IsConsistent number_text none p idle (a, b, c) = (a, b, ground arith)
updated-IsConsistent number_text (some x) p idle h =
    edited-IsConsistent number_text p.editing p idle h

-- A predicate on either branch.
pub keeps_if {ℓ κ} :
    {A : Type ℓ} (P : A → Type κ) (b : Bool) (x y : A)
    → (b ≡ true → P x)
    → (b ≡ false → P y)
    → P (if b then x else y)
keeps_if P true x y h k = h refl
keeps_if P false x y h k = k refl

-- The cases of a submission.
pub submit_cases {κ} :
    (P : Page → Type κ) (number_text : Number → Text) (exam_id : Option Text) (p : Page)
    → P p
    → (p.form_loading ≡ false → P (handle_update_question number_text exam_id p))
    → (p.form_loading ≡ false → P (handle_create_question exam_id p))
    → P (submit number_text exam_id p)
unfolding submit
submit_cases P t x p h updated created =
    let update = handle_update_question t x p in
    let create = handle_create_question x p in
    keeps_if P p.form_loading p (if p.edit_open then update else create) (λ on. h)
      (λ off. keeps_if P p.edit_open update create (λ e. updated off) (λ c. created off))

submit-IsConsistent :
    (number_text : Number → Text) (exam_id : Option Text) (p : Page)
    → IsConsistent p
    → IsConsistent (submit number_text exam_id p)
submit-IsConsistent number_text exam_id p h =
    submit_cases IsConsistent number_text exam_id p h
      (λ idle. updated-IsConsistent number_text exam_id p idle h)
      (λ idle. created-IsConsistent exam_id p idle h)

answered-IsConsistent :
    (w : Option Waiting) (r : Reply) (p : Page) → IsConsistent p → IsConsistent (answered w r p)
unfolding question_created question_updated
answered-IsConsistent none r p h = h
answered-IsConsistent (some (for_create n)) done p (a, b, c) = (a, b, refl)
answered-IsConsistent (some (for_create n)) (failed e) p (a, b, c) = (a, b, refl)
answered-IsConsistent (some for_update) done p (a, b, c) = (refl, b, refl)
answered-IsConsistent (some for_update) (failed e) p (a, b, c) = (a, b, refl)

clicked-IsConsistent :
    (exam_id : Option Text) (q : Question) (p : Page)
    → IsConsistent p
    → IsConsistent (handle_delete_question exam_id q p)
unfolding handle_delete_question
clicked-IsConsistent none q p h = h
clicked-IsConsistent (some x) q p (a, b, c) = (a, refl, c)

confirmed-IsConsistent :
    (exam_id : Option Text) (q : Option Question) (p : Page)
    → IsConsistent p
    → IsConsistent (send_delete exam_id q p)
confirmed-IsConsistent none q p h = h
confirmed-IsConsistent (some x) none p h = h
confirmed-IsConsistent (some x) (some q) p h = h

deleted-IsConsistent : (r : Reply) (p : Page) → IsConsistent p → IsConsistent (question_deleted r p)
unfolding question_deleted
deleted-IsConsistent done p (a, b, c) = (a, refl, c)
deleted-IsConsistent (failed e) p (a, b, c) = (a, refl, c)

chosen-IsConsistent :
    (f : Option File) (r : Read Text) (p : Page)
    → IsConsistent p
    → IsConsistent (handle_image_upload f r p)
unfolding handle_image_upload add_image
chosen-IsConsistent none r p h = h
chosen-IsConsistent (some f) (read i) p h =
    keeps_if IsConsistent (validate_image_file f 5) _ _ (λ e. h) (λ e. h)
chosen-IsConsistent (some f) (unreadable e) p h =
    keeps_if IsConsistent (validate_image_file f 5) _ _ (λ e. h) (λ e. h)

step-IsConsistent :
    (number_text : Number → Text) (exam_id : Option Text) (e : Event) (p : Page)
    → IsConsistent p
    → IsConsistent (step number_text exam_id e p)
unfolding choose_type choose_objective_type step change_form reply confirm_delete_question
    cancel_delete handle_edit_question open_create close_form cancel_form add_image clear_images
    remove_image edit_form questions_fetched
step-IsConsistent t x (changed ch) p (a, b, c) = (a, b, c)
step-IsConsistent t x submitted p h = submit-IsConsistent t x p h
step-IsConsistent t x (replied r) p h = answered-IsConsistent p.waiting r p h
step-IsConsistent t x (delete_clicked q) p h = clicked-IsConsistent x q p h
step-IsConsistent t x (edit_clicked q) p (a, b, c) = (refl, b, c)
step-IsConsistent t x delete_confirmed p h = confirmed-IsConsistent x p.to_delete p h
step-IsConsistent t x delete_cancelled p (a, b, c) = (a, refl, c)
step-IsConsistent t x (delete_replied r) p h = deleted-IsConsistent r p h
step-IsConsistent t x create_clicked p h = h
step-IsConsistent t x closed p (a, b, c) = (refl, b, c)
step-IsConsistent t x cancelled p (a, b, c) = (refl, b, c)
step-IsConsistent t x (image_chosen f r) p h = chosen-IsConsistent f r p h
step-IsConsistent t x images_cleared p (a, b, c) = (a, b, c)
step-IsConsistent t x (image_removed i) p (a, b, c) = (a, b, c)
step-IsConsistent t x (type_chosen v) p h = h
step-IsConsistent t x (objective_chosen v) p h = h
step-IsConsistent t x (fetched qs) p h = h

run-IsConsistent :
    (number_text : Number → Text) (exam_id : Option Text) (es : List Event) (p : Page)
    → IsConsistent p
    → IsConsistent (run number_text exam_id es p)
unfolding run
run-IsConsistent t x [] p h = h
run-IsConsistent t x (e ∷ es) p h =
    run-IsConsistent t x es (step t x e p) (step-IsConsistent t x e p h)

-- Over any sequence of clicks, changes, replies and fetched lists of questions from the page as it
-- starts, no document being uploaded: the form is open for editing exactly when it has a question to edit, the question to
-- delete is there exactly when its dialog is, and the form loads exactly while it waits for a reply.
pub run-start-IsConsistent :
    (number_text : Number → Text) (exam_id : Option Text) (questions : List Question)
    (es : List Event)
    → IsConsistent (run number_text exam_id es (start questions))
unfolding start
run-start-IsConsistent t x questions es =
    run-IsConsistent t x es (start questions) (refl, refl, refl)
