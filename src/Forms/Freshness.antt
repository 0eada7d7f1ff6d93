-- ===== src/Forms/Freshness.antt =====
-- The messages of a form against its values, over whatever the user does.
use wazire.Base.{
  ◌≡◌, refl, true, false, Option, none, some, List, [], ◌∷◌, arith, Bool-cases, inl, inr, subst, ap,
  sym, ◌∙◌,
}
use wazire.Base.Text.{Text, text_eq, text_eq_iff}
use wazire.Base.Value.{Value}
use wazire.Base.Dict.{Dict, lookup, lookup-insert, text_eq_refl}
use wazire.Forms.Validators.{ValidationResult}
use wazire.Forms.Hook.{
  Form, Rules, value_at, validate_form, validate_all, result_errors, handle_change, handle_blur,
  handle_submit, reset_form, error_or_null, validate_field,
}

-- Each touched field with a rule shows the error of that rule for the value it has.
abbrev pub IsCurrent : Rules → Form → Type 0
IsCurrent rules s =
    (f : Text) (rule : Value → ValidationResult)
    → lookup f rules ≡ some rule
    → lookup f s.touched ≡ some true
    → lookup f s.errors ≡ some (error_or_null (rule (value_at f s.values)))

-- What the user does to a form.
pub data Event : Type 0 where
  changed : Text → Value → Event
  left : Text → Event
  sent : Event
  restarted : Dict Value → Event

unfoldable pub step : Rules → Event → Form → Form
unfolding handle_change handle_blur handle_submit reset_form
step rules (changed f v) s = handle_change rules f v s
step rules (left f) s = handle_blur rules f s
step rules sent s = (handle_submit rules s).0
step rules (restarted initial) s = reset_form initial s

unfoldable pub run : Rules → List Event → Form → Form
run rules [] s = s
run rules (e ∷ es) s = run rules es (step rules e s)

-- A field other than the one that is touched is as before.
handle_change_elsewhere :
    (rules : Rules) (f g : Text) (v : Value) (s : Form)
    → text_eq f g ≡ false
    → (lookup g (handle_change rules f v s).errors ≡ lookup g s.errors)
      × (lookup g (handle_change rules f v s).values ≡ lookup g s.values)
unfolding handle_change
handle_change_elsewhere rules f g v s e = ground (
  arith,
  lookup-insert f g v s.values,
  lookup-insert f g (error_or_null (validate_field rules f v)) s.errors,
)

handle_blur_elsewhere :
    (rules : Rules) (f g : Text) (s : Form)
    → text_eq f g ≡ false
    → (lookup g (handle_blur rules f s).errors ≡ lookup g s.errors)
      × (lookup g (handle_blur rules f s).touched ≡ lookup g s.touched)
unfolding handle_blur
handle_blur_elsewhere rules f g s e = ground (
  arith,
  lookup-insert f g true s.touched,
  lookup-insert f g (error_or_null (validate_field rules f (value_at f s.values))) s.errors,
)

handle_change_here :
    (rules : Rules) (f : Text) (v : Value) (s : Form) (rule : Value → ValidationResult)
    → lookup f rules ≡ some rule
    → lookup f s.touched ≡ some true
    → lookup f (handle_change rules f v s).errors
      ≡ some (error_or_null (rule (value_at f (handle_change rules f v s).values)))
unfolding handle_change validate_field
handle_change_here rules f v s rule found touched =
    rw (touched, found, lookup-insert f f v s.values)
      (rw (lookup-insert f f (error_or_null (rule v)) s.errors) (rw (text_eq_refl f) refl))

handle_blur_here :
    (rules : Rules) (f : Text) (s : Form) (rule : Value → ValidationResult)
    → lookup f rules ≡ some rule
    → lookup f (handle_blur rules f s).errors
      ≡ some (error_or_null (rule (value_at f (handle_blur rules f s).values)))
unfolding handle_blur validate_field
handle_blur_here rules f s rule found = rw found (
    rw (lookup-insert f f (error_or_null (rule (value_at f s.values))) s.errors)
      (rw (text_eq_refl f) refl))

handle_change-IsCurrent :
    (rules : Rules) (f : Text) (v : Value) (s : Form)
    → IsCurrent rules s
    → IsCurrent rules (handle_change rules f v s)
handle_change-IsCurrent rules f v s h g rule found touched = elim (Bool-cases (text_eq f g)) [
  | inl e ↦
      let same : f ≡ g = (text_eq_iff f g).0 e in
      subst
        (λ k.
          lookup k (handle_change rules f v s).errors
          ≡ some (error_or_null (rule (value_at k (handle_change rules f v s).values))))
        same
        (handle_change_here rules f v s rule (rw same found)
          (rw same (unfold handle_change in touched)))
  | inr e ↦
      let (errors, values) = handle_change_elsewhere rules f g v s e in
      rw (errors, values) (h g rule found (unfold handle_change in touched))
]

handle_blur-IsCurrent :
    (rules : Rules) (f : Text) (s : Form)
    → IsCurrent rules s
    → IsCurrent rules (handle_blur rules f s)
unfolding handle_blur
handle_blur-IsCurrent rules f s h g rule found touched = elim (Bool-cases (text_eq f g)) [
  | inl e ↦
      let same : f ≡ g = (text_eq_iff f g).0 e in
      subst
        (λ k.
          lookup k (handle_blur rules f s).errors
          ≡ some (error_or_null (rule (value_at k (handle_blur rules f s).values))))
        same (handle_blur_here rules f s rule (rw same found))
  | inr e ↦
      let (errors, before) = handle_blur_elsewhere rules f g s e in
      rw errors (h g rule found (sym before ∙ touched))
]

abbrev or_rule :
    (Value → ValidationResult) → Option (Value → ValidationResult) → Value → ValidationResult
or_rule other none = other
or_rule other (some rule) = rule

lookup-result_errors :
    (rules : Rules) (values : Dict Value) (f : Text) (rule : Value → ValidationResult)
    → lookup f rules ≡ some rule
    → lookup f (result_errors (validate_form values rules))
      ≡ some (error_or_null (rule (value_at f values)))
unfolding result_errors validate_form lookup
lookup-result_errors [] values f rule found = cc
lookup-result_errors ((g, other) ∷ rules) values f rule found = elim (Bool-cases (text_eq g f)) [
  | inl e ↦
      let same : g ≡ f = (text_eq_iff g f).0 e in
      let own : other ≡ rule = ap (or_rule other) (rw e at found) in rw (e, same, own) refl
  | inr e ↦ rw e (lookup-result_errors rules values f rule (rw e at found))
]

step-IsCurrent :
    (rules : Rules) (e : Event) (s : Form) → IsCurrent rules s → IsCurrent rules (step rules e s)
unfolding step
step-IsCurrent rules (changed f v) s h = handle_change-IsCurrent rules f v s h
step-IsCurrent rules (left f) s h = handle_blur-IsCurrent rules f s h
step-IsCurrent rules sent s h =
    unfold handle_submit validate_all in
    λ f rule found _. lookup-result_errors rules s.values f rule found
step-IsCurrent rules (restarted initial) s h =
    unfold reset_form lookup in λ f rule found touched. cc

run-IsCurrent :
    (rules : Rules) (es : List Event) (s : Form)
    → IsCurrent rules s
    → IsCurrent rules (run rules es s)
unfolding run
run-IsCurrent rules [] s h = h
run-IsCurrent rules (e ∷ es) s h =
    run-IsCurrent rules es (step rules e s) (step-IsCurrent rules e s h)

-- The form as the hook starts it.
abbrev pub start : Dict Value → Form
start initial = record { values = initial; errors = []; touched = [] }

-- Whatever the user changed, left, submitted or reset since the form was started, in any order: a
-- touched field with a rule has the error of that rule for the value that it now has.
pub errors_are_current :
    (rules : Rules) (es : List Event) (initial : Dict Value) (f : Text)
    (rule : Value → ValidationResult)
    → lookup f rules ≡ some rule
    → lookup f (run rules es (start initial)).touched ≡ some true
    → lookup f (run rules es (start initial)).errors
      ≡ some (error_or_null (rule (value_at f (run rules es (start initial)).values)))
errors_are_current rules es initial f rule found touched =
    run-IsCurrent rules es (start initial) (unfold lookup in λ g rule found touched. cc) f rule
      found touched
