-- ===== src/TakeExam/Grading.antt =====
-- What a saved answer is worth to the grader and to a reload of the page.
use wazire.Base.{◌≡◌, refl, none, some, ◌≢◌, if◌then◌else◌}
use wazire.Base.Text.{Text, text, join}
use wazire.Base.Number.{Number}
use wazire.Base.Dict.{Dict}
use wazire.TakeExam.Answer.{
  Answer, AnswerValue, str, num, bool, texts, QuestionType, multiple_choice, true_false, theory,
  fill_in_blanks, format_immediate, format_queued, graded_answer,
}

-- A written answer to a question that is not multiple choice (the backend has theory and
-- fill-in-blanks): saved at once, the grader finds no answer in it; saved through the queue, the
-- grader reads the answer. To a multiple choice question both ways are graded alike.
pub grading_of_text :
    (t : Number → Text) (qtype : QuestionType) (s : Text)
    → qtype ≢ true_false
    → (graded_answer qtype (format_queued (some qtype) (str s)) ≡ some (str s))
      × (graded_answer qtype (format_immediate t (str s))
          ≡ (elim qtype [ multiple_choice ↦ some (str s) | _ ↦ none ]))
unfolding graded_answer format_queued format_immediate
grading_of_text t multiple_choice s n = (refl, refl)
grading_of_text t true_false s n = absurd (n refl)
grading_of_text t theory s n = (refl, refl)
grading_of_text t fill_in_blanks s n = (refl, refl)

-- The text of an answer, of several texts with commas between them.
abbrev pub text_shown : (Number → Text) → AnswerValue → Text
text_shown number_text (str s) = s
text_shown number_text (num n) = number_text n
text_shown number_text (bool b) = if b then text "true" else text "false"
text_shown number_text (texts ts) = join (text ", ") ts
