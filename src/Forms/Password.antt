-- ===== src/Forms/Password.antt =====
-- What the password validator accepts.
use wazire.Base.{◌≤◌, ◌≡◌, ◌↔◌, true, [], ◌∷◌, any, length, arith}
use wazire.Base.Text.{Text}
use wazire.Base.Decimal.{is_digit}
use wazire.Forms.Validators.{validate_password, is_upper, is_lower}

-- A password is accepted exactly if it has at least eight characters, and an uppercase letter, a
-- lowercase letter and a digit among them.
pub validate_password_iff :
    (password : Text)
    → ((validate_password password).is_valid ≡ true) ↔ (
        (8 ≤ length password)
        × (any is_upper password ≡ true)
        × (any is_lower password ≡ true)
        × (any is_digit password ≡ true))
unfolding validate_password
validate_password_iff [] = (λ h. cc, λ h. absurd (omega arith))
validate_password_iff (c ∷ s) = ground arith
