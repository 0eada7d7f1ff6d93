-- ===== src/Questions/Types.antt =====
-- The type of a question while it is created.
use wazire.Base.{
  ◌<◌, ◌≡◌, ◌∙◌, refl, true, false, none, List, [], ◌∷◌, ltb, length, arith, Bool-cases, inl, inr,
  is_empty, if◌then◌else◌,
}
use wazire.Base.Text.{Text, text, text_eq_iff, trim}
use wazire.Questions.Form.{
  Question, Form, QuestionData, built, refused, Change, handle_form_change, initial_form,
  reset_form, valid_options, create_data, add_choices, add_rules, is_choice, next_number, base_data,
  link,
}
use wazire.Base.Decimal.{print}

-- The form after the user changed it.
unfoldable pub changes : List Change → Form → Form
changes [] f = f
changes (c ∷ cs) f = changes cs (handle_form_change c f)

qtype-change : (c : Change) (f : Form) → (handle_form_change c f).qtype ≡ f.qtype
unfolding handle_form_change
qtype-change (Change.question_type t) f = refl
qtype-change (Change.question_text t) f = refl
qtype-change (Change.correct_answer t) f = refl
qtype-change (Change.options ts) f = refl
qtype-change (Change.marks n) f = refl
qtype-change (Change.order n) f = refl

qtype-changes : (cs : List Change) (f : Form) → (changes cs f).qtype ≡ f.qtype
unfolding changes
qtype-changes [] f = refl
qtype-changes (c ∷ cs) f = qtype-changes cs (handle_form_change c f) ∙ qtype-change c f

create_data-qtype :
    (questions : List Question) (exam_id : Text) (f : Form)
    → create_data questions exam_id f ≡ (
        let d = base_data (print (next_number questions)) f in
        link exam_id (if is_choice f.qtype then add_choices f d else add_rules f d))
unfolding create_data
create_data-qtype questions exam_id f = refl

refused_with_few_options :
    (questions : List Question) (exam_id : Text) (f : Form)
    → is_choice f.qtype ≡ true
    → length (valid_options f.options) < 2
    → create_data questions exam_id f
      ≡ refused (text "Multiple choice questions require at least 2 options")
unfolding add_choices
refused_with_few_options questions exam_id f choice few =
    let test : ltb (length (valid_options f.options)) 2 ≡ true = ground arith in
    create_data-qtype questions exam_id f ∙ rw (choice, test) refl

rules_have_no_choices :
    (exam_id : Text) (f : Form) (d e : QuestionData)
    → d.options ≡ none
    → d.answer ≡ none
    → link exam_id (add_rules f d) ≡ built e
    → (e.options ≡ none) × (e.answer ≡ none)
unfolding add_rules
rules_have_no_choices exam_id f d e o a h = elim (Bool-cases (is_empty (trim f.correct_answer))) [
  | inl blank ↦ let h' = rw blank at h in (ground arith, ground arith)
  | inr given ↦ let h' = rw given at h in (ground arith, ground arith)
]

-- The type that the user chooses does not decide how a new question is checked. After any changes
-- of the form that the page starts with, a question of any type is refused if there are fewer than
-- two options. After any changes of the form that the page has once a question was saved, a question
-- that is sent has no options and no letter of its answer, also a multiple choice question.
pub create_data_ignores_type :
    (questions : List Question) (exam_id : Text) (first later : List Change) (d : QuestionData)
    → length (valid_options (changes first initial_form).options) < 2
    → create_data questions exam_id (changes later reset_form) ≡ built d
    → (create_data questions exam_id (changes first initial_form)
        ≡ refused (text "Multiple choice questions require at least 2 options"))
      × (d.options ≡ none)
      × (d.answer ≡ none)
unfolding initial_form reset_form is_choice
create_data_ignores_type questions exam_id first later d few sent =
    let choice : is_choice (changes first initial_form).qtype ≡ true =
      rw (qtype-changes first initial_form) ((text_eq_iff _ _).1 refl) in
    let other : is_choice (changes later reset_form).qtype ≡ false =
      rw (qtype-changes later reset_form) refl in
    let f = changes later reset_form in
    let sent' = rw (create_data-qtype questions exam_id f, other) at sent in
    let e = base_data (print (next_number questions)) f in
    let (o, a) = rules_have_no_choices exam_id f e d refl refl sent' in
    (refused_with_few_options questions exam_id (changes first initial_form) choice few, o, a)
