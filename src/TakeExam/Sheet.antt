-- ===== src/TakeExam/Sheet.antt =====
-- Moving between the questions of frontend/src/pages/TakeExam.tsx, and clearing all answers. A sheet
-- is the page of `Queue` with what the student sees of it.
use wazire.Base.{
  ℕ, zero, suc, ◌-◌, Bool, true, false, Option, none, some, List, [], ◌∷◌, length, ◌==◌,
  if◌then◌else◌, get_elem?, min,
}
use wazire.Base.Text.{Text}
use wazire.Base.Number.{Number}
use wazire.Base.Dict.{Dict, lookup, keys}
use wazire.TakeExam.Answer.{AnswerValue, str, is_truthy, format_immediate, QuestionType}
use wazire.TakeExam.Queue.{Page, upsert, handle_answer, handle_submit}

pub record Choice : Type 0 where
  pub label : Text
  pub text : Text

pub record Question : Type 0 where
  pub id : Text
  pub text : Text
  pub qtype : QuestionType
  pub options : Option (List Choice)
  pub mark : ℕ  -- 0 where it is missing

pub record Sheet : Type 0 where
  pub title : Text
  pub course_id : Text
  pub questions : List Question
  pub current : Option ℕ  -- currentQuestionIndex; none is -1
  pub time_remaining : ℕ
  pub modal_open : Bool
  pub page : Page

unfoldable pub current_question : Sheet → Option Question
current_question s = elim s.current [ none ↦ none | some i ↦ get_elem? s.questions i ]

-- `Math.max(0, prev - 1)`.
abbrev pub before : Option ℕ → Option ℕ
before none = some 0
before (some i) = some (i - 1)

-- `Math.min(n - 1, prev + 1)`, for n questions.
abbrev pub after : ℕ → Option ℕ → Option ℕ
after zero i = none
after (suc n) none = some 0
after (suc n) (some i) = some (min n (suc i))

unfoldable pub previous : Sheet → Sheet
previous s = record s { current = before s.current }

unfoldable pub next : Sheet → Sheet
next s = record s { current = after (length s.questions) s.current }

unfoldable pub go_to : ℕ → Sheet → Sheet
go_to i s = record s { current = some i }

-- `answers[id]`, as a test.
abbrev pub truthy_answer : Option AnswerValue → Bool
truthy_answer none = false
truthy_answer (some v) = is_truthy v

unfoldable pub is_answered : Dict AnswerValue → Text → Bool
is_answered answers id = truthy_answer (lookup id answers)

-- `questions.findIndex(q => !answers[q.id])`, counted from `i`.
unfoldable pub first_unanswered : Dict AnswerValue → ℕ → List Question → Option ℕ
unfolding is_answered
first_unanswered answers i [] = none
first_unanswered answers i (q ∷ qs) =
    if is_answered answers q.id then first_unanswered answers (suc i) qs else some i

abbrev pub jump_to : Option ℕ → Sheet → Sheet
jump_to none s = s
jump_to (some i) s = record s { current = some i }

unfoldable pub jump : Sheet → Sheet
unfolding first_unanswered
jump s = jump_to (first_unanswered s.page.answers 0 s.questions) s

-- The last position of the list, which may be -1.
abbrev pub is_last_of : ℕ → Option ℕ → Bool
is_last_of zero none = true
is_last_of zero (some i) = false
is_last_of (suc n) none = false
is_last_of (suc n) (some i) = i == n

unfoldable pub is_last : Sheet → Bool
is_last s = is_last_of (length s.questions) s.current

-- `Object.keys(answers).length`.
unfoldable pub answered_count : Sheet → ℕ
answered_count s = length (keys s.page.answers)

module _ (number_text : Number → Text) where
  unfoldable pub answer : Text → AnswerValue → Sheet → Sheet
  unfolding handle_answer
  answer q v s = record s { page = handle_answer number_text q v s.page }

  -- `saveAnswerImmediate(qid, '')` for each question that has an answer, up to the replies.
  abbrev pub save_empty : List Text → Page → Page
  save_empty [] p = p
  save_empty (q ∷ qs) p = save_empty qs (record p {
    immediate = (q, str []) ∷ p.immediate;
    sent = upsert q (format_immediate number_text (str [])) ∷ p.sent;
  })

  -- The clearing of all answers, once it is confirmed.
  unfoldable pub clear : Sheet → Sheet
  clear s =
      let emptied = record s.page { answers = [] } in
      record s { page = save_empty (keys s.page.answers) emptied }

unfoldable pub open_submit : Sheet → Sheet
open_submit s = record s { modal_open = true }

unfoldable pub close_submit : Sheet → Sheet
close_submit s = record s { modal_open = false }

unfoldable pub submit : Sheet → Sheet
unfolding handle_submit
submit s = record s { page = handle_submit s.page }
