-- ===== src/Questions/Form.antt =====
-- The form of a question, and the data that `handleCreateQuestion` and `handleUpdateQuestion` of
-- frontend/src/pages/ExamQuestions.tsx make of it. The JSON text of `rules` is given by the model
-- answer in it.
use wazire.Base.{
  ℕ, suc, ◌+◌, Bool, false, Option, none, some, List, [], ◌∷◌, ltb, max, length, is_empty,
  if◌then◌else◌,
}
use wazire.Base.Text.{Text, text, text_eq, trim}
use wazire.Base.Number.{Number, whole, ratio, is_falsy}
use wazire.Base.Decimal.{print}
use wazire.Base.Parse.{parse_int}

-- An option as the backend keeps it.
pub record Choice : Type 0 where
  pub label : Text
  pub choice_text : Text

pub record Question : Type 0 where
  pub id : Text
  pub number : Text
  pub question_text : Text
  pub qtype : Text
  pub mark : ℕ
  pub options : List Choice
  pub answer_value : Option Text  -- `answer?.value`, none without an answer
  pub answer_text : Text  -- `answer?.text_value || ''`
  pub model_answer : Option Text  -- of the rules, none where there are none
  pub images : List Text
  pub industry : Text

-- `formData`. The state starts with a `qtype`; all other writers set `question_type`.
pub record Form : Type 0 where
  pub question_text : Text
  pub qtype : Option Text
  pub question_type : Option Text
  pub options : List Text
  pub correct_answer : Text
  pub marks : ℕ
  pub order : Number
  pub images : List Text
  pub industry : Text

pub record QuestionData : Type 0 where
  pub number : Text
  pub question_text : Text
  pub qtype : Option Text
  pub industry : Text
  pub mark : ℕ
  pub images : List Text
  pub options : Option (List Choice)
  pub answer : Option Text
  pub model_answer : Option Text
  pub exam_ids : Option (List Text)

abbrev pub blank_options : List Text
blank_options = [] ∷ [] ∷ [] ∷ [] ∷ []

-- The initial state of the form.
unfoldable pub initial_form : Form
initial_form = record {
  question_text = [];
  qtype = some (text "multiple_choice");
  question_type = none;
  options = blank_options;
  correct_answer = [];
  marks = 1;
  order = whole 1;
  images = [];
  industry = text "general";
}

-- The form after a question was created or updated.
unfoldable pub reset_form : Form
reset_form = record {
  question_text = [];
  qtype = none;
  question_type = some (text "multiple_choice");
  options = blank_options;
  correct_answer = [];
  marks = 1;
  order = whole 1;
  images = [];
  industry = text "general";
}

-- `handleFormChange`, by the fields that the page calls it with.
pub data Change : Type 0 where
  question_type question_text correct_answer : Text → Change
  options : List Text → Change
  marks : ℕ → Change
  order : Number → Change

unfoldable pub handle_form_change : Change → Form → Form
handle_form_change (Change.question_type t) f = record f { question_type = some t }
handle_form_change (Change.question_text t) f = record f { question_text = t }
handle_form_change (Change.correct_answer t) f = record f { correct_answer = t }
handle_form_change (Change.options ts) f = record f { options = ts }
handle_form_change (Change.marks n) f = record f { marks = n }
handle_form_change (Change.order n) f = record f { order = n }

-- `formData.options?.filter(o => o.trim())`.
unfoldable pub valid_options : List Text → List Text
valid_options [] = []
valid_options (o ∷ os) = let rest = valid_options os in if is_empty (trim o) then rest else o ∷ rest

-- `String.fromCharCode(97 + index)`.
abbrev pub letter : ℕ → Text
letter index = (97 + index) ∷ []

-- The options with their labels, from the label at an index on.
unfoldable pub format_options : ℕ → List Text → List Choice
format_options i [] = []
format_options i (o ∷ os) =
    record { label = letter i; choice_text = trim o } ∷ format_options (suc i) os

abbrev next_index : Option ℕ → Option ℕ
next_index none = none
next_index (some i) = some (suc i)

-- `findIndex(opt => opt === answer)`, none for -1.
unfoldable pub find_index : Text → List Text → Option ℕ
find_index t [] = none
find_index t (o ∷ os) =
    let rest = find_index t os in if text_eq o t then some 0 else next_index rest

-- `/^[a-z]$/.test(letter)`.
abbrev is_letter_index : ℕ → Bool
is_letter_index i = ltb i 26

pub data Built : Type 0 where
  refused : Text → Built
  built : QuestionData → Built

abbrev answer_at : List Text → QuestionData → Option ℕ → Built
answer_at os d none = refused (text "Please select a correct answer from the options")
answer_at os d (some i) = built (record d {
  options = some (format_options 0 os);
  answer = if is_letter_index i then some (letter i) else none;
})

-- The part for a multiple choice question.
unfoldable pub add_choices : Form → QuestionData → Built
unfolding valid_options format_options find_index
add_choices f d =
    let os = valid_options f.options in
    if ltb (length os) 2
    then refused (text "Multiple choice questions require at least 2 options")
    else answer_at os d (find_index f.correct_answer os)

-- The part for any other question.
unfoldable pub add_rules : Form → QuestionData → Built
add_rules f d =
    if is_empty (trim f.correct_answer)
    then built d
    else built (record d { model_answer = some f.correct_answer })

-- `formData.industry || 'general'`.
abbrev or_general : Text → Text
or_general [] = text "general"
or_general (c ∷ s) = c ∷ s

abbrev pub base_data : Text → Form → QuestionData
base_data number f = record {
  number = number;
  question_text = f.question_text;
  qtype = f.question_type;
  industry = or_general f.industry;
  mark = f.marks;
  images = f.images;
  options = none;
  answer = none;
  model_answer = none;
  exam_ids = none;
}

-- `t === 'multiple_choice'`.
unfoldable pub is_choice : Option Text → Bool
is_choice none = false
is_choice (some t) = text_eq t (text "multiple_choice")

-- `parseInt(q.number) || 0`, and 0 also for the negative numbers, which the filter drops.
abbrev pub positive_or_zero : Option Number → ℕ
positive_or_zero (some (ratio n _)) = n
positive_or_zero _ = 0

unfoldable pub highest : List Question → ℕ
highest [] = 0
highest (q ∷ qs) = max (positive_or_zero (parse_int q.number)) (highest qs)

-- `Math.max(...existingNumbers) + 1`, or 1 where there is none.
unfoldable pub next_number : List Question → ℕ
unfolding highest
next_number questions = suc (highest questions)

abbrev pub link : Text → Built → Built
link exam_id (refused e) = refused e
link exam_id (built d) = built (record d { exam_ids = some (exam_id ∷ []) })

-- What `handleCreateQuestion` sends. It tests the `qtype` of the form.
unfoldable pub create_data : List Question → Text → Form → Built
unfolding next_number add_choices add_rules is_choice
create_data questions exam_id f =
    let d = base_data (print (next_number questions)) f in
    link exam_id (if is_choice f.qtype then add_choices f d else add_rules f d)

-- `(formData.order || 1).toString()`; `number_text` prints a number.
abbrev pub or_one : Number → Number
or_one n = if is_falsy n then whole 1 else n

-- What `handleUpdateQuestion` sends. It tests the `question_type` of the form.
unfoldable pub update_data : (Number → Text) → Form → Built
unfolding add_choices add_rules is_choice
update_data number_text f =
    let d = base_data (number_text (or_one f.order)) f in
    if is_choice f.question_type then add_choices f d else add_rules f d
