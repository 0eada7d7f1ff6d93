-- ===== src/Forms/Tests.antt =====
-- A login form with a rule for its password, and the theorems on forms at small inputs.
use wazire.Base.{
  ℕ, zero, suc, List, ◌≡◌, ◌↔◌, refl, true, false, none, some, [], ◌∷◌, is_empty, if◌then◌else◌,
}
use wazire.Base.Text.{Text, text_eq, trim}
use wazire.Base.Value.{Value, str}
use wazire.Base.Dict.{Dict, lookup, insert}
use wazire.Forms.Validators.{
  ValidationResult, valid, invalid, validate_email, validate_uuid, is_blank,
}
use wazire.Forms.Hook.{Form, Rules, handle_submit, is_valid, error_or_null, value_at}
use wazire.Forms.Email.{IsAddress, validate_email_iff}
use wazire.Forms.Submission.{Accepts, handle_submit-Accepts}
use wazire.Forms.Freshness.{Event, changed, left, sent, run, step, start, errors_are_current}

validate_email_iff_example :
    ((validate_email (b'a' ∷ b'@' ∷ [])).is_valid ≡ true)
    ↔ ((is_blank (b'a' ∷ b'@' ∷ []) ≡ false) × IsAddress (b'a' ∷ b'@' ∷ []))
validate_email_iff_example = validate_email_iff (b'a' ∷ b'@' ∷ [])

abbrev hex_text : ℕ → Text
hex_text zero = []
hex_text (suc n) = b'a' ∷ hex_text n

-- A value that is there.
abbrev given : Value → ValidationResult
given (str s) = if is_empty s then invalid (b'!' ∷ []) else valid
given v = invalid (b'!' ∷ [])

abbrev password : Text
password = b'p' ∷ []

abbrev rules : Rules
rules = (password, given) ∷ []

abbrev filled : Form
filled = record { values = (password, str (b'x' ∷ [])) ∷ []; errors = []; touched = [] }

abbrev bare : Form
bare = record { values = []; errors = []; touched = [] }

handle_submit-Accepts_example :
    ((handle_submit rules filled).1 ≡ some filled.values) ↔ Accepts rules filled.values
handle_submit-Accepts_example = handle_submit-Accepts rules filled

-- A form without the field that its rule is for is valid, and is not submitted.
bare_is_valid : (is_valid rules bare ≡ true) × ((handle_submit rules bare).1 ≡ none)
unfolding is_valid handle_submit lookup
bare_is_valid = (refl, refl)

abbrev events : List Event
events = left password ∷ changed password (str []) ∷ sent ∷ []

abbrev initial : Dict Value
initial = (password, str (b'x' ∷ [])) ∷ []

errors_are_current_example :
    lookup password (run rules events (start initial)).errors
    ≡ some (error_or_null (given (value_at password (run rules events (start initial)).values)))
errors_are_current_example =
    errors_are_current rules events initial password given (unfold lookup text_eq in refl)
      (unfold run step lookup text_eq insert in refl)

-- A text of the right length without its dashes is no UUID.
no_dashes : (validate_uuid (hex_text 36)).is_valid ≡ false
unfolding validate_uuid trim
no_dashes = refl
