-- ===== src/Questions/RoundTrip.antt =====
-- Editing a question that was saved: `handleEditQuestion` of frontend/src/pages/ExamQuestions.tsx.
use wazire.Base.{
  ℕ, suc, ◌+◌, ◌-◌, ◌≤◌, ◌<◌, ◌≡◌, ◌∙◌, refl, ap, sym, true, false, Option, none, some, List, [],
  ◌∷◌, ◌++◌, map, ltb, leb, length, if◌then◌else◌, take, arith, ◌==◌, Bool-cases, inl, inr,
  Option-cases,
}
use wazire.Base.Text.{Text, text, text_eq, text_eq_iff, trim}
use wazire.Base.Number.{Number, whole, is_falsy}
use wazire.Base.Parse.{parse_int}
use wazire.Questions.Form.{
  Question, Choice, Form, QuestionData, built, letter, valid_options, format_options, find_index,
  add_choices, update_data, is_choice, base_data, or_one,
}

-- `optionTexts[answerIndex]` for the first option with the label, and '' where there is none.
unfoldable pub labelled_text : Text → List Choice → Text
labelled_text l [] = []
labelled_text l (c ∷ cs) =
    let rest = labelled_text l cs in if text_eq c.label l then c.choice_text else rest

abbrev or_empty : Option Text → Text
or_empty none = []
or_empty (some t) = t

abbrev labelled : Option Text → List Choice → Text
labelled none cs = []
labelled (some l) cs = labelled_text l cs

-- `correctAnswer`, by the type of the question. An option of the backend has a text.
unfoldable pub correct_answer_of : Question → Text
unfolding labelled_text
correct_answer_of q =
    if text_eq q.qtype (text "multiple_choice")
    then labelled q.answer_value q.options
    else if text_eq q.qtype (text "fill_in_blanks")
    then q.answer_text
    else if text_eq q.qtype (text "theory")
    then or_empty q.model_answer
    else []

-- Four options: the first four, or blank ones behind those that are there.
unfoldable pub four_options : List Text → List Text
four_options ts =
    if leb 4 (length ts) then take 4 ts else ts ++ take (4 - length ts) ([] ∷ [] ∷ [] ∷ [] ∷ [])

abbrev or_whole_one : Option Number → Number
or_whole_one none = whole 1
or_whole_one (some n) = if is_falsy n then whole 1 else n

abbrev or_general : Text → Text
or_general [] = text "general"
or_general (c ∷ s) = c ∷ s

unfoldable pub edit_form : Question → Form
unfolding correct_answer_of four_options
edit_form q = record {
  question_text = q.question_text;
  qtype = none;
  question_type = some q.qtype;
  options = four_options (map (λ c. c.choice_text) q.options);
  correct_answer = correct_answer_of q;
  marks = if q.mark == 0 then 1 else q.mark;
  order = or_whole_one (parse_int q.number);
  images = q.images;
  industry = or_general q.industry;
}

zero-add : (n : ℕ) → 0 + n ≡ n
zero-add n = omega arith

letter_eq : (a b : ℕ) → text_eq (letter a) (letter b) ≡ (a == b)
unfolding text_eq
letter_eq a b = ground arith

-- The label of the option that is found leads back to the option.
labelled_text-format_options :
    (k i : ℕ) (t : Text) (os : List Text)
    → find_index t os ≡ some i
    → labelled_text (letter (k + i)) (format_options k os) ≡ trim t
unfolding find_index labelled_text format_options
labelled_text-format_options k i t [] h = cc
labelled_text-format_options k i t (o ∷ os) h = elim (Bool-cases (text_eq o t)) [
  | inl e ↦ rw (letter_eq k (k + i)) (
      let first : i ≡ 0 = ground arith in
      let same : o ≡ t = (text_eq_iff o t).0 e in ground (arith, ap trim same))
  | inr e ↦ elim (Option-cases (find_index t os)) [
    | inl n ↦ ground arith
    | inr (j, m) ↦
        let next : i ≡ suc j = ground arith in
        let shift : k + i ≡ suc k + j = omega arith in
        let differs : (k == k + i) ≡ false = ground arith in
        let ih : labelled_text (letter (k + i)) (format_options (suc k) os) ≡ trim t =
          rw shift (labelled_text-format_options (suc k) j t os m) in
        rw (letter_eq k (k + i), differs) ih
  ]
]

index-length : (i : ℕ) (t : Text) (os : List Text) → find_index t os ≡ some i → i < length os
unfolding find_index
index-length i t [] h = cc
index-length i t (o ∷ os) h = elim (Bool-cases (text_eq o t)) [
  | inl e ↦ ground arith
  | inr e ↦ elim (Option-cases (find_index t os)) [
    | inl n ↦ ground arith
    | inr (j, m) ↦ ground (arith, index-length j t os m)
  ]
]

length-valid_options : (os : List Text) → length (valid_options os) ≤ length os
unfolding valid_options
length-valid_options [] = omega arith
length-valid_options (o ∷ os) = ground (arith, length-valid_options os)

built_choices :
    (f : Form) (d e : QuestionData)
    → add_choices f d ≡ built e
    → (i : ℕ) × (find_index f.correct_answer (valid_options f.options) ≡ some i)
      × (e.options ≡ some (format_options 0 (valid_options f.options)))
      × (e.answer ≡ (if ltb i 26 then some (letter i) else none))
unfolding add_choices
built_choices f d e h = elim (Bool-cases (ltb (length (valid_options f.options)) 2)) [
  | inl few ↦ ground arith
  | inr enough ↦ elim (Option-cases (find_index f.correct_answer (valid_options f.options))) [
    | inl n ↦ ground arith
    | inr (i, m) ↦ let data_of = rw (enough, m) at h in (i, m, ground arith, ground arith)
  ]
]

correct_answer_of_choice :
    (q : Question)
    → q.qtype ≡ text "multiple_choice"
    → correct_answer_of q ≡ labelled q.answer_value q.options
unfolding correct_answer_of
correct_answer_of_choice q kind = ground (arith, text_eq_iff q.qtype (text "multiple_choice"))

choices_labelled :
    (os : List Text) (t : Text) (i : ℕ) (q : Question)
    → find_index t os ≡ some i
    → i < 26
    → q.qtype ≡ text "multiple_choice"
    → some q.options ≡ some (format_options 0 os)
    → q.answer_value ≡ (if ltb i 26 then some (letter i) else none)
    → correct_answer_of q ≡ trim t
choices_labelled os t i q found small kind options answer =
    let os_eq : q.options ≡ format_options 0 os = cc in
    let letter_is : q.answer_value ≡ some (letter i) = ground arith in
    let label_is : labelled q.answer_value q.options
        ≡ labelled_text (letter i) (format_options 0 os) =
      λ k. labelled (letter_is k) (os_eq k) in
    correct_answer_of_choice q kind
    ∙ label_is
    ∙ ap (λ n. labelled_text (letter n) (format_options 0 os)) (sym (zero-add i))
    ∙ labelled_text-format_options 0 i t os found

update_data_of_choice :
    (number_text : Number → Text) (f : Form)
    → is_choice f.question_type ≡ true
    → update_data number_text f ≡ add_choices f (base_data (number_text (or_one f.order)) f)
unfolding update_data
update_data_of_choice number_text f choice = rw choice refl

-- Editing a multiple choice question that was saved by an update: when the question that the
-- backend gives has the options and the answer that were sent, and the form had at most 26 options,
-- then the form of the edit has the same correct answer, but for white space at its ends.
pub edit_form-update_data :
    (number_text : Number → Text) (f : Form) (d : QuestionData) (q : Question)
    → f.question_type ≡ some (text "multiple_choice")
    → length f.options ≤ 26
    → update_data number_text f ≡ built d
    → q.qtype ≡ text "multiple_choice"
    → some q.options ≡ d.options
    → q.answer_value ≡ d.answer
    → (edit_form q).correct_answer ≡ trim f.correct_answer
unfolding is_choice edit_form
edit_form-update_data number_text f d q kind few sent kind' options answer =
    let choice : is_choice f.question_type ≡ true = rw kind ((text_eq_iff _ _).1 refl) in
    let sent' = update_data_of_choice number_text f choice in
    let (i, found, os, letter_is) = built_choices f _ d (sym sent' ∙ sent) in
    let small : i < 26 = omega (
      arith,
      index-length i f.correct_answer (valid_options f.options) found,
      length-valid_options f.options,
    ) in
    choices_labelled _ _ i q found small kind' (options ∙ os) (answer ∙ letter_is)
