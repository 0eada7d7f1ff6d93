-- ===== src/Forms/Validators.antt =====
-- The validators of frontend/src/utils/validation.ts. A regular expression is a function that reads the
-- text as the expression does.
use wazire.Base.{
  zero, suc, List, ℕ, Bool, true, false, not, ◌&&◌, ◌||◌, Option, none, some, [], ◌∷◌, ◌++◌, ◌==◌,
  leb, ltb, any, all, length, is_empty, if◌then◌else◌,
}
use wazire.Base.Text.{Text, text, text_eq, trim, to_lower, includes, is_space}
use wazire.Base.Number.{Number, lt_const, le_const, gt_const, is_falsy}
use wazire.Base.Value.{Value, undefined, null, str}
use wazire.Base.Decimal.{is_digit}

pub record ValidationResult : Type 0 where
  pub is_valid : Bool
  pub error : Option Text

abbrev pub valid : ValidationResult
valid = record { is_valid = true; error = none }

abbrev pub invalid : Text → ValidationResult
invalid message = record { is_valid = false; error = some message }

-- `!s || s.trim() === ''`.
abbrev pub is_blank : Text → Bool
is_blank s = is_empty s || is_empty (trim s)

abbrev pub is_upper : ℕ → Bool
is_upper c = leb b'A' c && leb c b'Z'

abbrev pub is_lower : ℕ → Bool
is_lower c = leb b'a' c && leb c b'z'

abbrev pub is_letter : ℕ → Bool
is_letter c = is_upper c || is_lower c

-- The classes of the expression in `validateEmail`: before the `@`, and in the domain.
abbrev pub is_local : ℕ → Bool
is_local c =
    is_letter c
    || (is_digit c
        || ((c == b'.') || ((c == b'_') || ((c == b'%') || ((c == b'+') || (c == b'-'))))))

abbrev pub is_domain : ℕ → Bool
is_domain c = is_letter c || (is_digit c || ((c == b'.') || (c == b'-')))

abbrev pub is_tld : Text → Bool
is_tld s = leb 2 (length s) && all is_letter s

-- The rest of a domain: more of it, or the last point with the letters behind it, once something
-- was read.
unfoldable pub match_domain : Bool → Text → Bool
match_domain started [] = false
match_domain started (c ∷ s) =
    (started && ((c == b'.') && is_tld s)) || (is_domain c && match_domain true s)

unfoldable pub match_local : Bool → Text → Bool
unfolding match_domain
match_local started [] = false
match_local started (c ∷ s) =
    (started && ((c == b'@') && match_domain false s)) || (is_local c && match_local true s)

unfoldable pub validate_email : Text → ValidationResult
unfolding match_local
validate_email email =
    if is_blank email
    then invalid (text "Email is required")
    else if match_local false email
    then valid
    else invalid (text "Invalid email format")

unfoldable pub validate_password : Text → ValidationResult
validate_password password =
    if is_empty password
    then invalid (text "Password is required")
    else if ltb (length password) 8
    then invalid (text "Password must be at least 8 characters long")
    else if not (any is_upper password)
    then invalid (text "Password must contain at least one uppercase letter")
    else if not (any is_lower password)
    then invalid (text "Password must contain at least one lowercase letter")
    else if not (any is_digit password)
    then invalid (text "Password must contain at least one digit")
    else valid

unfoldable pub validate_name : Text → Text → ValidationResult
validate_name name field_name =
    if is_blank name
    then invalid (field_name ++ text " is required")
    else if ltb (length (trim name)) 2
    then invalid (field_name ++ text " must be at least 2 characters long")
    else if ltb 50 (length name)
    then invalid (field_name ++ text " must not exceed 50 characters")
    else valid

unfoldable pub validate_title : Text → ValidationResult
validate_title title =
    if is_blank title
    then invalid (text "Title is required")
    else if ltb (length (trim title)) 3
    then invalid (text "Title must be at least 3 characters long")
    else if ltb 200 (length title)
    then invalid (text "Title must not exceed 200 characters")
    else valid

unfoldable pub validate_duration : Number → ValidationResult
validate_duration duration =
    if is_falsy duration || le_const duration 0
    then invalid (text "Duration must be greater than 0")
    else if gt_const duration 24
    then invalid (text "Duration must not exceed 24 hours")
    else if lt_const duration 1
    then invalid (text "Duration must be at least 1 hour")
    else valid

unfoldable pub validate_marks : Number → Text → ValidationResult
validate_marks marks field_name =
    if lt_const marks 0
    then invalid (field_name ++ text " cannot be negative")
    else if gt_const marks 1000
    then invalid (field_name ++ text " cannot exceed 1000")
    else valid

unfoldable pub validate_max_attempts : Number → ValidationResult
validate_max_attempts max_attempts =
    if lt_const max_attempts 1
    then invalid (text "Max attempts must be at least 1")
    else if gt_const max_attempts 10
    then invalid (text "Max attempts cannot exceed 10")
    else valid

unfoldable pub validate_exam_status : Text → ValidationResult
validate_exam_status status =
    if any (text_eq (to_lower status))
      (text "not_started" ∷ text "in_progress" ∷ text "finished" ∷ text "draft" ∷ [])
    then valid
    else invalid (text "Invalid status. Must be one of: not_started, in_progress, finished, draft")

unfoldable pub validate_role : Text → ValidationResult
validate_role role =
    if any (text_eq (to_lower role))
      (text "student" ∷ text "lecturer" ∷ text "admin" ∷ text "superadmin" ∷ [])
    then valid
    else invalid (text "Invalid role. Must be one of: student, lecturer, admin, superadmin")

unfoldable pub validate_institution_id : Text → ValidationResult
validate_institution_id institution_id =
    if is_blank institution_id
    then valid
    else if ltb (length (trim institution_id)) 3
    then invalid (text "Institution ID must be at least 3 characters long")
    else if ltb 50 (length institution_id)
    then invalid (text "Institution ID must not exceed 50 characters")
    else valid

-- `phone.replace(/[\s\-\(\)]/g, '')`.
unfoldable pub clean_phone : Text → Text
clean_phone [] = []
clean_phone (c ∷ s) =
    let rest = clean_phone s in
    if is_space c || ((c == b'-') || ((c == b'(') || (c == b')'))) then rest else c ∷ rest

unfoldable pub validate_phone_number : Text → ValidationResult
unfolding clean_phone
validate_phone_number phone =
    let cleaned = clean_phone phone in
    if is_blank phone
    then valid
    else if leb 10 (length cleaned) && (leb (length cleaned) 15 && all is_digit cleaned)
    then valid
    else invalid (text "Invalid phone number format")

abbrev is_hex : ℕ → Bool
is_hex c = is_digit c || ((leb b'a' c && leb c b'f') || (leb b'A' c && leb c b'F'))

-- A text of one character for each of the classes.
unfoldable pub matches : List (ℕ → Bool) → Text → Bool
matches [] s = is_empty s
matches (p ∷ ps) [] = false
matches (p ∷ ps) (c ∷ s) = p c && matches ps s

-- So many hexadecimal digits, and a dash with what follows it.
abbrev hex_digits : ℕ → List (ℕ → Bool) → List (ℕ → Bool)
hex_digits zero ps = ps
hex_digits (suc n) ps = is_hex ∷ hex_digits n ps

abbrev dash : List (ℕ → Bool) → List (ℕ → Bool)
dash ps = (λ c. c == b'-') ∷ ps

unfoldable pub validate_uuid : Text → ValidationResult
unfolding matches
validate_uuid uuid =
    if is_blank uuid
    then invalid (text "UUID is required")
    else if matches
        (hex_digits 8 (
          dash
            (hex_digits 4 (dash (hex_digits 4 (dash (hex_digits 4 (dash (hex_digits 12 [])))))))))
        uuid
    then valid
    else invalid (text "Invalid UUID format")

unfoldable pub validate_score : Number → ValidationResult
validate_score score =
    if lt_const score 0
    then invalid (text "Score cannot be negative")
    else if gt_const score 100
    then invalid (text "Score cannot exceed 100")
    else valid

unfoldable pub validate_required : Value → Text → ValidationResult
validate_required undefined field_name = invalid (field_name ++ text " is required")
validate_required null field_name = invalid (field_name ++ text " is required")
validate_required (str s) field_name =
    if is_blank s then invalid (field_name ++ text " is required") else valid
validate_required value field_name = valid

-- `parses` is whether `new URL` of the platform takes a text.
unfoldable pub validate_url : (Text → Bool) → Text → ValidationResult
validate_url parses url =
    if is_blank url
    then valid
    else if parses url
    then valid
    else invalid (text "Invalid URL format")

unfoldable pub sanitize_html : Text → ValidationResult
sanitize_html html =
    if is_blank html
    then valid
    else if any (includes (to_lower html)) (
        text "<script"
        ∷ text "</script"
        ∷ text "<iframe"
        ∷ text "</iframe"
        ∷ text "<object"
        ∷ text "</object"
        ∷ [])
    then invalid (text "Invalid input: contains dangerous content")
    else valid
