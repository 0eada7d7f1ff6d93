-- ===== src/Questions/Dialogs.antt =====
-- The form of a question and the dialog before a deletion, as the page shows them.
use wazire.Base.{
  ℕ, suc, ◌+◌, Bool, true, false, not, ◌||◌, ◌&&◌, Option, none, some, List, [], ◌∷◌, ◌++◌, length,
  is_empty, set, take, ltb, ◌==◌, if◌then◌else◌,
}
use wazire.Base.Text.{Text, text, text_eq}
use wazire.Base.Number.{Number, whole, lt_const}
use wazire.Base.Decimal.{print}
use wazire.Base.Parse.{parse_int}
use wazire.Ui.Element.{
  said_some, said, picture, button, entry, choice, picker, View, shown_if, stack,
}
use wazire.Ui.Parts.{loading_button, modal}
use wazire.Questions.Form.{Question, Form, Change, valid_options, or_one, positive_or_zero}
use wazire.Questions.Page.{Page}
use wazire.Questions.Life.Event.{
  changed, submitted, delete_confirmed, delete_cancelled, closed, cancelled, images_cleared,
  image_removed, type_chosen, objective_chosen,
}
use wazire.Questions.Screen.{Event, on_page, image_picked}

abbrev pub type_name : Text → Text
type_name qtype =
    if text_eq qtype (text "multiple_choice")
    then text "Multiple Choice"
    else if text_eq qtype (text "fill_in_blanks")
    then text "Fill in Blanks"
    else text "Theory"

abbrev is_type : Text → Option Text → Bool
is_type t none = false
is_type t (some qtype) = text_eq qtype t

abbrev is_objective : Form → Bool
is_objective f =
    is_type (text "multiple_choice") f.question_type
    || is_type (text "fill_in_blanks") f.question_type

abbrev type_or_blank : Option Text → Text
type_or_blank none = []
type_or_blank (some t) = t

abbrev change : Change → Event
change c = on_page (changed c)

unfoldable pub categories : Form → View Event
categories f =
    said (text "Question Category *")
    ∷ choice ((text "objective", text "Objective") ∷ (text "theory", text "Theory") ∷ [])
        (if is_objective f then text "objective" else text "theory") (λ v. on_page (type_chosen v))
    ∷ shown_if (is_objective f) (
        said (text "Objective Type *")
        ∷ choice
            ((text "multiple_choice", text "Multiple Choice (MCQ)")
              ∷ (text "fill_in_blanks", text "Fill in Blanks (FITB)")
              ∷ [])
            (type_or_blank f.question_type) (λ v. on_page (objective_chosen v))
        ∷ [])

-- The previews from the one at a place on, each with the button that takes it out.
abbrev pub preview_list : ℕ → List Text → View Event
preview_list i [] = []
preview_list i (image ∷ images) =
    picture (text "Question preview " ++ print (suc i))
    ∷ button [] true (on_page (image_removed i))
    ∷ preview_list (suc i) images

unfoldable pub images : List Text → View Event
images [] =
    said (text "Question Images (Optional)")
    ∷ picker (text "Click to upload image (max 5MB)") image_picked
    ∷ []
images (image ∷ more) =
    said (text "Question Images (Optional)")
    ∷ (preview_list 0 (image ∷ more)
        ++ picker (text "Add another image") image_picked
          ∷ button (text "Clear all images") true (on_page images_cleared)
          ∷ [])

-- An input for each option from a place on; `all` are all options.
abbrev pub option_entries : List Text → ℕ → List Text → View Event
option_entries all i [] = []
option_entries all i (o ∷ os) =
    said ((65 + i) ∷ text ".")
    ∷ entry (text "Option " ++ print (suc i)) o true (λ v. change (Change.options (set all i v)))
    ∷ option_entries all (suc i) os

abbrev answers : ℕ → List Text → List (Text × Text)
answers i [] = []
answers i (o ∷ os) = (o, (65 + i) ∷ (text ". " ++ o)) ∷ answers (suc i) os

abbrev answer_entry : Text → Text → Form → View Event
answer_entry label placeholder f =
    said label
    ∷ entry placeholder f.correct_answer true (λ v. change (Change.correct_answer v))
    ∷ []

unfoldable pub answer_parts : Form → View Event
unfolding valid_options
answer_parts f =
    shown_if (is_type (text "multiple_choice") f.question_type) (
      said (text "Options *")
      ∷ (option_entries f.options 0 f.options
          ++ said (text "Correct Answer *")
            ∷ choice (answers 0 (valid_options f.options)) f.correct_answer
                (λ v. change (Change.correct_answer v))
            ∷ []))
    ++ (shown_if (is_type (text "theory") f.question_type) (
          answer_entry (text "Model Answer (Optional)") (text "Enter model answer or key points...")
            f)
        ++ shown_if (is_type (text "fill_in_blanks") f.question_type) (
            answer_entry (text "Correct Answer *")
              (text "Enter the correct answer for the blank...") f))

-- `parseInt(v) || 1`; no mark below zero is typed.
abbrev marks_of : Text → ℕ
marks_of v = let n = positive_or_zero (parse_int v) in if n == 0 then 1 else n

abbrev order_of : Option Number → Number
order_of none = whole 1
order_of (some n) = or_one n

-- Whether the button of the form is on and the browser finds what the form requires, also the least
-- order.
unfoldable pub is_complete : Form → Bool
is_complete f =
    not (is_empty f.question_text)
    && (not (is_empty (type_or_blank f.question_type))
        && (not (f.marks == 0)
            && (not (is_type (text "fill_in_blanks") f.question_type && is_empty f.correct_answer)
                && not (lt_const f.order 1))))

module _ (number_text : Number → Text) where
  unfoldable pub numbers : Form → View Event
  numbers f =
      entry (text "Marks *") (print f.marks) true (λ v. change (Change.marks (marks_of v)))
      ∷ entry (text "Order") (number_text f.order) true
          (λ v. change (Change.order (order_of (parse_int v))))
      ∷ []

  unfoldable pub form_buttons : Page → View Event
  unfolding is_complete
  form_buttons p =
      button (text "Cancel") true (on_page cancelled)
      ∷ loading_button (if p.edit_open then text "Update Question" else text "Create Question")
          p.form_loading (not (is_complete p.form)) (on_page submitted)
      ∷ []

  unfoldable pub form_modal : Page → View Event
  unfolding modal stack categories images answer_parts numbers form_buttons
  form_modal p =
      modal (p.create_open || p.edit_open) (on_page closed)
        (if p.edit_open then text "Edit Question" else text "Create Question")
        (stack (
          said_some p.form_error
          ∷ said_some p.success_message
          ∷ categories p.form
          ∷ (said (text "Question Text *")
              ∷ entry (text "Enter your question here...") p.form.question_text true
                  (λ v. change (Change.question_text v))
              ∷ [])
          ∷ images p.previews
          ∷ answer_parts p.form
          ∷ numbers p.form
          ∷ form_buttons p
          ∷ []))

abbrev shortened : Text → Text
shortened t = take 100 t ++ (if ltb 100 (length t) then text "..." else [])

abbrev pub target : Option Question → View Event
target none = []
target (some q) =
    said (text "Question: " ++ shortened q.question_text)
    ∷ said (text "Type: " ++ type_name q.qtype)
    ∷ []

unfoldable pub delete_modal : Page → View Event
unfolding modal
delete_modal p = modal p.delete_open (on_page delete_cancelled) (text "Delete Question") (
    said (text "Are you sure you want to delete this question?")
    ∷ (target p.to_delete
        ++ button (text "Cancel") true (on_page delete_cancelled)
          ∷ button (text "Delete Question") true (on_page delete_confirmed)
          ∷ []))
