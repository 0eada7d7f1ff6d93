-- ===== src/Forms/Hook.antt =====
-- The form state of frontend/src/hooks/useFormValidation.ts, with `validateForm`, `hasFormErrors`
-- and `getFirstError` of frontend/src/utils/validation.ts.
use wazire.Base.{
  Bool, true, false, not, ◌&&◌, ◌||◌, Option, none, some, List, [], ◌∷◌, is_empty, if◌then◌else◌,
}
use wazire.Base.Text.{Text}
use wazire.Base.Value.{Value, undefined}
use wazire.Base.Dict.{Dict, lookup, insert, keys}
use wazire.Forms.Validators.{ValidationResult, valid}

pub record Form : Type 0 where
  pub values : Dict Value
  pub errors : Dict (Option Text)
  pub touched : Dict Bool

abbrev pub Rules : Type 0
Rules = Dict (Value → ValidationResult)

-- `values[field]`.
abbrev pub or_undefined : Option Value → Value
or_undefined none = undefined
or_undefined (some v) = v

abbrev pub value_at : Text → Dict Value → Value
value_at f values = or_undefined (lookup f values)

-- `result.error || null`.
abbrev pub error_or_null : ValidationResult → Option Text
error_or_null r = elim r.error [ none ↦ none | some e ↦ if is_empty e then none else some e ]

-- `validateForm`: the rules of an object have distinct fields.
unfoldable pub validate_form : Dict Value → Rules → Dict ValidationResult
validate_form values [] = []
validate_form values ((f, rule) ∷ rules) =
    (f, rule (value_at f values)) ∷ validate_form values rules

unfoldable pub has_form_errors : Dict ValidationResult → Bool
has_form_errors [] = false
has_form_errors ((f, r) ∷ results) = not r.is_valid || has_form_errors results

unfoldable pub get_first_error : Dict ValidationResult → Option Text
get_first_error [] = none
get_first_error ((f, r) ∷ results) =
    let rest = get_first_error results in
    if r.is_valid then rest else elim (error_or_null r) [ none ↦ rest | some e ↦ some e ]

abbrev apply_rule : Option (Value → ValidationResult) → Value → ValidationResult
apply_rule none v = valid
apply_rule (some rule) v = rule v

unfoldable pub validate_field : Rules → Text → Value → ValidationResult
validate_field rules f v = apply_rule (lookup f rules) v

abbrev is_touched : Option Bool → Bool
is_touched none = false
is_touched (some b) = b

abbrev has_rule : Option (Value → ValidationResult) → Bool
has_rule none = false
has_rule (some _) = true

-- `setErrors(prev => ({ ...prev, [field]: result.error || null }))`.
abbrev report : Rules → Text → Value → Dict (Option Text) → Dict (Option Text)
report rules f v errors = insert f (error_or_null (validate_field rules f v)) errors

unfoldable pub handle_change : Rules → Text → Value → Form → Form
unfolding validate_field
handle_change rules f v s = record s {
  values = insert f v s.values;
  errors =
      if is_touched (lookup f s.touched) && has_rule (lookup f rules)
      then report rules f v s.errors
      else s.errors;
}

unfoldable pub handle_blur : Rules → Text → Form → Form
unfolding validate_field
handle_blur rules f s = record s {
  touched = insert f true s.touched;
  errors =
      if has_rule (lookup f rules) then report rules f (value_at f s.values) s.errors else s.errors;
}

unfoldable pub result_errors : Dict ValidationResult → Dict (Option Text)
result_errors [] = []
result_errors ((f, r) ∷ results) = (f, error_or_null r) ∷ result_errors results

unfoldable pub touch_all : List Text → Dict Bool
touch_all [] = []
touch_all (f ∷ fs) = (f, true) ∷ touch_all fs

-- `validateAll`: the new state, and whether the form has no error.
unfoldable pub validate_all : Rules → Form → Form × Bool
unfolding validate_form has_form_errors result_errors touch_all
validate_all rules s =
    let results = validate_form s.values rules in
    (
      record s { errors = result_errors results; touched = touch_all (keys s.values) },
      not (has_form_errors results),
    )

-- `handleSubmit`, with the values that `onSubmit` is called with, if it is.
unfoldable pub handle_submit : Rules → Form → Form × Option (Dict Value)
unfolding validate_all
handle_submit rules s =
    let (s', ok) = validate_all rules s in (s', if ok then some s.values else none)

unfoldable pub reset_form : Dict Value → Form → Form
reset_form initial s = record { values = initial; errors = []; touched = [] }

unfoldable pub set_field_value : Text → Value → Form → Form
set_field_value f v s = record s { values = insert f v s.values }

unfoldable pub set_error : Text → Option Text → Form → Form
set_error f e s = record s { errors = insert f e s.errors }

unfoldable pub clear_error : Text → Form → Form
clear_error f s = record s { errors = insert f none s.errors }

-- The results over the fields that have a value and a rule, and `isValid` of the hook.
unfoldable pub present_results : Rules → Dict Value → List Text → Dict ValidationResult
present_results rules values [] = []
present_results rules values (f ∷ fs) =
    let rest = present_results rules values fs in
    elim (lookup f rules) [ none ↦ rest | some rule ↦ (f, rule (value_at f values)) ∷ rest ]

unfoldable pub is_valid : Rules → Form → Bool
unfolding present_results has_form_errors
is_valid rules s = not (has_form_errors (present_results rules s.values (keys s.values)))
