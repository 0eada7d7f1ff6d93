-- ===== src/Forms/Submission.antt =====
-- When a form is submitted.
use wazire.Base.{All, not, ◌||◌, ◌≡◌, ◌↔◌, refl, true, false, some, List, [], ◌∷◌, arith}
use wazire.Base.Text.{Text}
use wazire.Base.Value.{Value}
use wazire.Base.Dict.{Dict, keys}
use wazire.Forms.Hook.{
  validate_field, Form, Rules, value_at, validate_form, has_form_errors, validate_all,
  handle_submit, is_valid, present_results,
}

-- Every rule accepts the value of its field.
abbrev pub Accepts : Rules → Dict Value → Type 0
Accepts [] values = Unit
Accepts ((f, rule) ∷ rules) values =
    ((rule (value_at f values)).is_valid ≡ true) × Accepts rules values

validate_form-Accepts :
    (rules : Rules) (values : Dict Value)
    → (has_form_errors (validate_form values rules) ≡ false) ↔ Accepts rules values
unfolding validate_form has_form_errors
validate_form-Accepts [] values = (λ _. tt, λ _. refl)
validate_form-Accepts ((f, rule) ∷ rules) values =
    ground (arith, validate_form-Accepts rules values)

-- A form calls `onSubmit` exactly if every rule accepts the value of its field, and then with the
-- values of the form.
pub handle_submit-Accepts :
    (rules : Rules) (s : Form)
    → ((handle_submit rules s).1 ≡ some s.values) ↔ Accepts rules s.values
unfolding handle_submit validate_all
handle_submit-Accepts rules s = ground (arith, validate_form-Accepts rules s.values)

-- Each of the fields passes `validateField` with the value it has.
abbrev pub AcceptsAt : Rules → Dict Value → List Text → Type 0
AcceptsAt rules values fs =
    All (λ f. (validate_field rules f (value_at f values)).is_valid ≡ true) fs

present_results_step :
    (rules : Rules) (values : Dict Value) (f : Text) (fs : List Text)
    → has_form_errors (present_results rules values (f ∷ fs)) ≡ (
        not (validate_field rules f (value_at f values)).is_valid
        || has_form_errors (present_results rules values fs))
unfolding present_results has_form_errors validate_field
present_results_step rules values f fs = ground arith

present_results-AcceptsAt :
    (rules : Rules) (values : Dict Value) (fs : List Text)
    → (has_form_errors (present_results rules values fs) ≡ false) ↔ AcceptsAt rules values fs
present_results-AcceptsAt rules values [] =
    (λ _. tt, λ _. unfold present_results has_form_errors in refl)
present_results-AcceptsAt rules values (f ∷ fs) =
    ground
      (arith, present_results_step rules values f fs, present_results-AcceptsAt rules values fs)

-- The form is valid by `isValid` exactly if each of the fields that have a value passes
-- `validateField` with it: the rules of fields without a value are not asked.
pub is_valid_iff :
    (rules : Rules) (s : Form)
    → (is_valid rules s ≡ true) ↔ AcceptsAt rules s.values (keys s.values)
unfolding is_valid
is_valid_iff rules s = ground (arith, present_results-AcceptsAt rules s.values (keys s.values))
