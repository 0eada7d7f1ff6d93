-- ===== src/Questions/Numbers.antt =====
-- The number of a new question.
use wazire.Base.{ℕ, suc, ◌≤◌, ◌<◌, ◌≡◌, ◌≢◌, ◌∙◌, ap, some, List, [], ◌∷◌, arith, All}
use wazire.Base.Number.{whole}
use wazire.Base.Decimal.{print}
use wazire.Base.Parse.{parse_int, parse_int-print}
use wazire.Questions.Form.{Question, highest, next_number, positive_or_zero}

number_differs :
    (n : ℕ) (q : Question) → positive_or_zero (parse_int q.number) < n → q.number ≢ print n
number_differs n q h e =
    let same : parse_int q.number ≡ some (whole n) = ap parse_int e ∙ parse_int-print n in
    let value : positive_or_zero (parse_int q.number) ≡ n = ap positive_or_zero same in omega arith

numbers_differ :
    (n : ℕ) (questions : List Question)
    → highest questions < n
    → All (λ q. q.number ≢ print n) questions
unfolding highest
numbers_differ n [] h = tt
numbers_differ n (q ∷ qs) h = (number_differs n q (omega arith), numbers_differ n qs (omega arith))

-- The number that a new question is given is positive, and none of the questions has it, whatever
-- texts their numbers are.
pub next_number_is_new :
    (questions : List Question)
    → (1 ≤ next_number questions) × All (λ q. q.number ≢ print (next_number questions)) questions
unfolding next_number
next_number_is_new questions =
    (omega arith, numbers_differ (suc (highest questions)) questions (omega arith))
