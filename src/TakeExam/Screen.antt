-- ===== src/TakeExam/Screen.antt =====
-- What frontend/src/pages/TakeExam.tsx shows while an exam is taken. Where there is no question, its
-- identifier is the text undefined, as in a key of an object.
use wazire.Base.{
  ℕ, suc, Bool, true, false, not, Option, none, some, List, [], ◌∷◌, ◌++◌, is_empty, length, ltb,
  ◌==◌, ◌+◌, if◌then◌else◌,
}
use wazire.Base.Text.{Text, text}
use wazire.Base.Decimal.{print, print_difference}
use wazire.Base.Dict.{Dict, lookup}
use wazire.Display.FormatTime.{format_time}
use wazire.Ui.Element.{said, button, entry, View, shown_if, stack}
use wazire.Ui.Parts.{loading_button, modal}
use wazire.TakeExam.Answer.{
  Answer, AnswerValue, str, multiple_choice, true_false, theory, fill_in_blanks,
}
use wazire.TakeExam.Sheet.{Choice, Question, Sheet, current_question, is_last, answered_count}

pub data Event : Type 0 where
  previous next jump clear open_submit close_submit submit : Event
  go_to : ℕ → Event
  answer : Text → AnswerValue → Event

abbrev or_else : Text → Text → Text
or_else [] default = default
or_else (c ∷ s) default = c ∷ s

-- `currentQuestionIndex + 1`.
abbrev pub current_number : Option ℕ → ℕ
current_number none = 0
current_number (some i) = suc i

abbrev saving_text : ℕ → Text
saving_text n =
    if n == 0
    then text "All saved"
    else text "Saving" ++ (if ltb 1 n then text " (" ++ (print n ++ text ")") else [])

unfoldable pub exam_header : Sheet → View Event
unfolding format_time
exam_header s =
    said s.title
    ∷ said (if is_empty s.course_id then [] else text "Course " ++ s.course_id)
    ∷ said (format_time s.time_remaining)
    ∷ said (saving_text s.page.pending_count)
    ∷ said (text "Progress")
    ∷ said (
        text "Question "
        ++ (print (current_number s.current) ++ (text " of " ++ print (length s.questions))))
    ∷ []

abbrev id_of : Option Question → Text
id_of none = text "undefined"
id_of (some q) = q.id

abbrev is_pending : Option Question → Dict Answer → Bool
is_pending none pending = false
is_pending (some q) pending = elim (lookup q.id pending) [ none ↦ false | some a ↦ true ]

abbrev mark_of : Option Question → ℕ
mark_of none = 0
mark_of (some q) = q.mark

abbrev text_of : Option Question → Text
text_of none = []
text_of (some q) = q.text

unfoldable pub question_header : Sheet → View Event
unfolding current_question
question_header s =
    let q = current_question s in
    said (text "Question " ++ print (current_number s.current))
    ∷ said (if is_pending q s.page.pending then text "Saving..." else text "Saved")
    ∷ said (print (mark_of q) ++ text " marks")
    ∷ said (or_else (text_of q) (text "Question text not available"))
    ∷ []

-- The options of a multiple choice question, with letters from A.
abbrev pub option_buttons : Text → ℕ → List Choice → View Event
option_buttons id i [] = []
option_buttons id i (c ∷ cs) =
    button ((65 + i) ∷ c.text) true (answer id (str c.label)) ∷ option_buttons id (suc i) cs

-- Those that the page shows: none where it shows a text to fill in.
abbrev options_of : Option Question → Option (List Choice)
options_of none = none
options_of (some q) = elim q.qtype [
  | multiple_choice ↦ q.options
  | true_false ↦ none
  | theory ↦ none
  | fill_in_blanks ↦ none
]

abbrev pub answer_field : Text → Text → Option (List Choice) → View Event
answer_field id value none =
    said (text "Your Answer")
    ∷ entry (text "Type your detailed answer here...") value true (λ t. answer id (str t))
    ∷ []
answer_field id value (some options) = option_buttons id 0 options

-- `currentQuestionIndex === 0`.
abbrev pub is_first : Option ℕ → Bool
is_first none = false
is_first (some i) = i == 0

unfoldable pub navigation : Sheet → View Event
unfolding is_last
navigation s =
    button (text "Previous") (not (is_first s.current)) previous
    ∷ (if is_last s
        then button (text "Submit Exam") true open_submit
        else button (text "Next") true next)
    ∷ []

abbrev pub number_buttons : ℕ → List Question → View Event
number_buttons i [] = []
number_buttons i (q ∷ qs) = button (print (suc i)) true (go_to i) ∷ number_buttons (suc i) qs

-- `percent k n` is the text of `Math.round((k / n) * 100)`, and `value_text` that of the value of
-- an answer in a text field, `''` where there is none.
module _ (percent : ℕ → ℕ → Text) (value_text : Option AnswerValue → Text) where
  unfoldable pub question_body : Sheet → View Event
  unfolding current_question
  question_body s =
      let q = current_question s in
      answer_field (id_of q) (value_text (lookup (id_of q) s.page.answers)) (options_of q)

  unfoldable pub navigator : Sheet → View Event
  navigator s = said (text "Question Navigator") ∷ number_buttons 0 s.questions

  unfoldable pub summary : Sheet → View Event
  unfolding answered_count
  summary s =
      let k = answered_count s in
      let n = length s.questions in
      said (text "Progress Summary")
      ∷ said (text "Answered")
      ∷ said (print k ++ (text "/" ++ print n))
      ∷ said (text "Remaining")
      ∷ said (print_difference n k)
      ∷ said (text "Completion")
      ∷ said (percent k n ++ text "%")
      ∷ button (text "Jump to First Unanswered") true jump
      ∷ button (text "Clear All Answers") true clear
      ∷ []

  unfoldable pub warning : Sheet → View Event
  unfolding answered_count
  warning s =
      let k = answered_count s in
      let n = length s.questions in
      shown_if (ltb k n) (
        said (
          (0x26a0 ∷ 0xfe0f ∷ text " You have ")
          ++ (print_difference n k
              ++ text " unanswered question(s). Consider reviewing before submitting."))
        ∷ [])

  unfoldable pub dialog_buttons : Sheet → View Event
  dialog_buttons s =
      button (text "Review Answers") true close_submit
      ∷ loading_button (if s.page.submitting then text "Submitting..." else text "Submit Exam")
          s.page.submitting false submit
      ∷ []

  -- The dialog before the submission, for so many answers.
  unfoldable pub submit_dialog : Sheet → View Event
  unfolding modal answered_count warning dialog_buttons
  submit_dialog s =
      let k = answered_count s in
      let n = length s.questions in
      modal s.modal_open close_submit (text "Submit Exam") (
        said (text "Ready to Submit?")
        ∷ said (
            text "You have answered "
            ++ (print k
                ++ (text " out of "
                    ++ (print n
                        ++ text
                            " questions. Once submitted, you cannot change your answers. Please review your responses before final submission."))))
        ∷ (warning s ++ dialog_buttons s))

  abbrev pub parts : Sheet → List (View Event)
  parts s =
      exam_header s
      ∷ question_header s
      ∷ question_body s
      ∷ navigation s
      ∷ navigator s
      ∷ summary s
      ∷ submit_dialog s
      ∷ []

  unfoldable pub view : Sheet → View Event
  unfolding stack exam_header question_header question_body navigation navigator summary
      submit_dialog
  view s = stack (parts s)
