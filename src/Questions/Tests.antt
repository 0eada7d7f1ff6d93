-- ===== src/Questions/Tests.antt =====
-- A multiple choice question that is saved and edited again, and the theorems on questions at it.
use wazire.Base.{◌≡◌, refl, none, some, List, [], ◌∷◌, length, arith}
use wazire.Base.Text.{Text, text, text_eq, trim, trim_start, is_space}
use wazire.Base.Number.{Number, whole, ratio}
use wazire.Base.Decimal.{print, print_before, read_digits}
use wazire.Base.Parse.{parse_int}
use wazire.Questions.Form.{
  Question, Choice, Form, QuestionData, refused, built, Change, initial_form, reset_form,
  create_data, update_data, valid_options, handle_form_change,
}
use wazire.Questions.RoundTrip.{edit_form, edit_form-update_data}
use wazire.Questions.Types.{changes, create_data_ignores_type}
use wazire.Questions.Page.{start, done}
use wazire.Questions.Life.{Event, run, IsConsistent, run-start-IsConsistent}
use wazire.Questions.Life.Event.{
  submitted, replied, delete_clicked, edit_clicked, closed, create_clicked, image_chosen,
}
use wazire.Ui.Element.{File}
use wazire.Questions.Uploads.{read}
use wazire.Questions.Previews.{Shown, previews_are_images}

abbrev choice : Text
choice = text "multiple_choice"

-- The text of a number, where the number is whole.
abbrev number_text : Number → Text
number_text (ratio n d) = print n
number_text n = []

-- Two options, the second of them right.
abbrev form : Form
form = record {
  question_text = b'q' ∷ [];
  qtype = none;
  question_type = some choice;
  options = (b'a' ∷ []) ∷ [] ∷ (b'b' ∷ []) ∷ [];
  correct_answer = b'b' ∷ [];
  marks = 2;
  order = whole 3;
  images = (b'i' ∷ []) ∷ [];
  industry = text "general";
}

abbrev choices : List Choice
choices =
    record { label = b'a' ∷ []; choice_text = b'a' ∷ [] }
    ∷ record { label = b'b' ∷ []; choice_text = b'b' ∷ [] }
    ∷ []

abbrev sent : QuestionData
sent = record {
  number = b'3' ∷ [];
  question_text = b'q' ∷ [];
  qtype = some choice;
  industry = text "general";
  mark = 2;
  images = (b'i' ∷ []) ∷ [];
  options = some choices;
  answer = some (b'b' ∷ []);
  model_answer = none;
  exam_ids = none;
}

abbrev question : Question
question = record {
  id = b'1' ∷ [];
  number = b'3' ∷ [];
  question_text = b'q' ∷ [];
  qtype = choice;
  mark = 2;
  options = choices;
  answer_value = some (b'b' ∷ []);
  answer_text = [];
  model_answer = none;
  images = (b'i' ∷ []) ∷ [];
  industry = text "general";
}

-- A theory question whose number is no number.
abbrev theory : Question
theory = record question { id = b'2' ∷ []; number = b'x' ∷ []; qtype = text "theory" }

abbrev questions : List Question
questions = question ∷ theory ∷ []

form_sent : update_data number_text form ≡ built sent
unfolding update_data text text_eq trim trim_start is_space print print_before
form_sent = refl

edit_form-update_data_example : (edit_form question).correct_answer ≡ trim (b'b' ∷ [])
edit_form-update_data_example =
    edit_form-update_data number_text form sent question refl (omega arith) form_sent refl refl refl

-- A multiple choice question that is made of the form as it is after another was saved.
abbrev choice_changes : List Change
choice_changes =
    Change.question_text (b'q' ∷ [])
    ∷ Change.options ((b'a' ∷ []) ∷ (b'b' ∷ []) ∷ [])
    ∷ Change.correct_answer (b'b' ∷ [])
    ∷ []

abbrev without_choices : QuestionData
without_choices = record sent {
  number = b'4' ∷ [];
  mark = 1;
  images = [];
  options = none;
  answer = none;
  model_answer = some (b'b' ∷ []);
  exam_ids = some ((b'e' ∷ []) ∷ []);
}

created_without_choices :
    create_data questions (b'e' ∷ []) (changes choice_changes reset_form) ≡ built without_choices
unfolding create_data changes handle_form_change reset_form text text_eq trim trim_start is_space
    print print_before parse_int read_digits
created_without_choices = refl

-- And a theory question made of the form that the page starts with.
abbrev theory_changes : List Change
theory_changes = Change.question_type (text "theory") ∷ Change.question_text (b'q' ∷ []) ∷ []

no_options : length (valid_options (changes theory_changes initial_form).options) ≡ 0
unfolding valid_options changes handle_form_change initial_form trim
no_options = refl

create_data_ignores_type_example :
    (create_data questions (b'e' ∷ []) (changes theory_changes initial_form)
      ≡ refused (text "Multiple choice questions require at least 2 options"))
    × (without_choices.options ≡ none)
    × (without_choices.answer ≡ none)
create_data_ignores_type_example =
    create_data_ignores_type questions (b'e' ∷ []) theory_changes choice_changes without_choices
      (omega (arith, no_options)) created_without_choices

abbrev events : List Event
events = edit_clicked question ∷ submitted ∷ replied done ∷ delete_clicked theory ∷ []

run-start-IsConsistent_example :
    IsConsistent (run number_text (some (b'e' ∷ [])) events (start questions))
run-start-IsConsistent_example =
    run-start-IsConsistent number_text (some (b'e' ∷ [])) questions events

abbrev picture : File
picture = record { name = b'p' ∷ []; type_text = text "image/png"; size = 1000 }

abbrev shown_events : List Event
shown_events = edit_clicked question ∷ image_chosen (some picture) (read (b'j' ∷ [])) ∷ []

previews_are_images_example :
    Shown (run number_text none shown_events (start questions))
    × ((run number_text none
          (edit_clicked question ∷ closed ∷ create_clicked ∷ [])
          (start questions)).previews
        ≡ (b'i' ∷ []) ∷ [])
    × ((run number_text none
          (edit_clicked question ∷ closed ∷ create_clicked ∷ [])
          (start questions)).form.images
        ≡ [])
previews_are_images_example =
    previews_are_images number_text none questions shown_events question (start questions)
      (refl, (refl, tt))
