-- ===== src/TakeExam/Emptied.antt =====
-- Which questions the exam page takes for answered, and where it jumps.
use wazire.Base.{
  ℕ, zero, suc, ◌+◌, ◌≡◌, refl, ap, true, false, Option, none, some, List, [], ◌∷◌, length, take,
  All, arith, get_elem?, Bool-cases, inl, inr,
}
use wazire.Base.Text.{Text, text_eq}
use wazire.Base.Number.{Number}
use wazire.Base.Dict.{Dict, lookup, insert, keys, lookup-insert, text_eq_refl}
use wazire.TakeExam.Answer.{AnswerValue, str}
use wazire.TakeExam.Queue.{handle_answer}
use wazire.TakeExam.Sheet
use wazire.TakeExam.Sheet.{
  Question, Sheet, is_answered, truthy_answer, first_unanswered, jump, jump_to, answered_count,
}
use wazire.TakeExam.Screen

length-keys-insert :
    {V : Type 0} (k : Text) (v w : V) (m : Dict V)
    → lookup k m ≡ some v
    → length (keys (insert k w m)) ≡ length (keys m)
unfolding lookup insert
length-keys-insert k v w [] h = absurd (cc)
length-keys-insert k v w ((j, x) ∷ m) h = elim (Bool-cases (text_eq j k)) [
  | inl e ↦ rw e refl
  | inr e ↦ rw e (ap suc (length-keys-insert k v w m (rw e at h)))
]

module _ (number_text : Number → Text) (percent : ℕ → ℕ → Text)
    (value_text : Option AnswerValue → Text) where
  count_kept :
      (s : Sheet) (q : Text) (v : AnswerValue)
      → lookup q s.page.answers ≡ some v
      → answered_count (Sheet.answer number_text q (str []) s) ≡ answered_count s
  unfolding answered_count Sheet.answer handle_answer
  count_kept s q v h = length-keys-insert q v (str []) s.page.answers h

  -- When the text of an answered question is deleted, then the question is no longer answered, as the
  -- navigation takes it; but the count of answered questions, the summary and the warning before the
  -- submission stay what they were.
  pub emptied_answer_counts :
      (s : Sheet) (q : Text) (v : AnswerValue)
      → lookup q s.page.answers ≡ some v
      → let t = Sheet.answer number_text q (str []) s in
        (is_answered t.page.answers q ≡ false)
        × (answered_count t ≡ answered_count s)
        × (Screen.summary percent value_text t ≡ Screen.summary percent value_text s)
        × (Screen.warning percent value_text t ≡ Screen.warning percent value_text s)
  unfolding is_answered Sheet.answer handle_answer Screen.summary Screen.warning
  emptied_answer_counts s q v h =
      let same = count_kept s q v h in
      (
        rw (lookup-insert q q (str []) s.page.answers, text_eq_refl q) refl,
        same,
        rw same refl,
        rw same refl,
      )

first_unanswered_at :
    (answers : Dict AnswerValue) (k i : ℕ) (qs : List Question) (q : Question)
    → get_elem? qs i ≡ some q
    → is_answered answers q.id ≡ false
    → All (λ (x : Question). is_answered answers x.id ≡ true) (take i qs)
    → first_unanswered answers k qs ≡ some (k + i)
unfolding first_unanswered
first_unanswered_at answers k i [] q e f h = absurd (cc)
first_unanswered_at answers k zero (x ∷ xs) q e f h =
    let same : is_answered answers x.id ≡ false = cc in rw same (ap some (omega arith))
first_unanswered_at answers k (suc i) (x ∷ xs) q e f (a, h) =
    rw (a, first_unanswered_at answers (suc k) i xs q e f h) (ap some (omega arith))

none_unanswered :
    (answers : Dict AnswerValue) (k : ℕ) (qs : List Question)
    → All (λ (x : Question). is_answered answers x.id ≡ true) qs
    → first_unanswered answers k qs ≡ none
unfolding first_unanswered
none_unanswered answers k [] h = refl
none_unanswered answers k (x ∷ xs) (a, h) = rw a (none_unanswered answers (suc k) xs h)

-- The jump leads to the first question without an answer: to the one in place i, if it has none and
-- all before it have one.
pub jump_lem :
    (s : Sheet) (i : ℕ) (q : Question)
    → get_elem? s.questions i ≡ some q
    → is_answered s.page.answers q.id ≡ false
    → All (λ (x : Question). is_answered s.page.answers x.id ≡ true) (take i s.questions)
    → (jump s).current ≡ some i
unfolding jump
jump_lem s i q e f h =
    rw (first_unanswered_at s.page.answers 0 i s.questions q e f h) (ap some (omega arith))

-- Where all questions are answered, the jump changes nothing.
pub jump-stays :
    (s : Sheet)
    → All (λ (x : Question). is_answered s.page.answers x.id ≡ true) s.questions
    → jump s ≡ s
unfolding jump
jump-stays s h = rw (none_unanswered s.page.answers 0 s.questions h) refl
