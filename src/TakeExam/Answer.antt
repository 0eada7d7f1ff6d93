-- ===== src/TakeExam/Answer.antt =====
-- The shapes in which frontend/src/pages/TakeExam.tsx saves an answer and reads it back, and what
-- backend/services/academic/submission.py takes from a saved answer when it grades it.
use wazire.Base.{Bool, true, false, Option, none, some, List, [], ◌∷◌, if◌then◌else◌}
use wazire.Base.Text.{Text, text, join}
use wazire.Base.Number.{Number, is_falsy}
use wazire.Base.Dict.{Dict, insert}

-- `string | number | boolean | string[]`.
pub data AnswerValue : Type 0 where
  str : Text → AnswerValue
  num : Number → AnswerValue
  bool : Bool → AnswerValue
  texts : List Text → AnswerValue

pub data QuestionType : Type 0 where
  multiple_choice true_false theory fill_in_blanks : QuestionType

-- What goes to the server: `{ option: v }`, `{ text: v }`, or the value itself.
pub data Answer : Type 0 where
  option : AnswerValue → Answer
  text_of : AnswerValue → Answer
  raw : AnswerValue → Answer

abbrev bool_text : Bool → Text
bool_text true = text "true"
bool_text false = text "false"

-- The formatting in `saveAnswerImmediate`, by the type of the value. `number_text` is the
-- language's `Number.prototype.toString`.
unfoldable pub format_immediate : (Number → Text) → AnswerValue → Answer
format_immediate number_text (str s) = option (str s)
format_immediate number_text (num n) = option (str (number_text n))
format_immediate number_text (bool b) = option (str (bool_text b))
format_immediate number_text (texts ts) = text_of (str (join (text ", ") ts))

-- The formatting in `enqueueSave`, by the type of the question, if it is found.
unfoldable pub format_queued : Option QuestionType → AnswerValue → Answer
format_queued none v = raw v
format_queued (some multiple_choice) v = option v
format_queued (some true_false) v = option v
format_queued (some theory) v = text_of v
format_queued (some fill_in_blanks) v = text_of v

abbrev pub is_truthy : AnswerValue → Bool
is_truthy (str []) = false
is_truthy (str (_ ∷ _)) = true
is_truthy (num n) = if is_falsy n then false else true
is_truthy (bool b) = b
is_truthy (texts _) = true

-- One round of the loop of `loadExam` over the saved answers: the value of the answer object, if
-- it is one and its value is truthy.
unfoldable pub saved_value : Answer → Option AnswerValue
saved_value (option v) = if is_truthy v then some v else none
saved_value (text_of v) = if is_truthy v then some v else none
saved_value (raw v) = none

abbrev pub with_saved : Text → Option AnswerValue → Dict AnswerValue → Dict AnswerValue
with_saved q none m = m
with_saved q (some v) m = insert q v m

-- The answers map that `loadExam` builds from the saved answers, in their order.
unfoldable pub load_from : Dict AnswerValue → List (Text × Answer) → Dict AnswerValue
load_from m [] = m
load_from m ((q, a) ∷ saved) = load_from (with_saved q (saved_value a) m) saved

unfoldable pub load_answers : List (Text × Answer) → Dict AnswerValue
unfolding load_from
load_answers saved = load_from [] saved

abbrev is_choice : QuestionType → Bool
is_choice multiple_choice = true
is_choice _ = false

-- What the grader reads of a saved answer: the option of a multiple choice question, and the text
-- of any other. A value of another form is graded by its text.
unfoldable pub graded_answer : QuestionType → Answer → Option AnswerValue
graded_answer qtype (option v) = if is_choice qtype then some v else none
graded_answer qtype (text_of v) = if is_choice qtype then none else some v
graded_answer multiple_choice (raw v) = some v
graded_answer true_false (raw v) = none
graded_answer theory (raw v) = some v
graded_answer fill_in_blanks (raw v) = some v
