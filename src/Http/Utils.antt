-- ===== src/Http/Utils.antt =====
-- frontend/src/apis/api-utils.ts: the guards before a request, and the common error handler.
use wazire.Base.{ℕ, List, [], ◌∷◌, ◌++◌, is_empty, length, ltb, if◌then◌else◌}
use wazire.Base.Text.{Text, text, to_lower, join}
use wazire.Base.Decimal.{print}
use wazire.Base.Value.{Fields, get_field, is_truthy, keys}
use wazire.Http.Types.{
  ApiError, api_error, Failure, api, axios, plain, other, Result, ok, throw, M, fail, Rule, rule,
  first_rule, catch_with,
}

-- `requiredFields.filter(field => !payload[field])`.
unfoldable pub missing_fields : Fields → List Text → List Text
missing_fields payload [] = []
missing_fields payload (f ∷ fs) =
    if is_truthy (get_field f payload)
    then missing_fields payload fs
    else f ∷ missing_fields payload fs

unfoldable pub validate_required_fields : Fields → List Text → Result (Unit {0})
unfolding missing_fields
validate_required_fields payload required =
    let missing = missing_fields payload required in
    if is_empty missing
    then ok tt
    else throw (api (api_error (text "Missing required fields: " ++ join (text ", ") missing) 400))

-- `min_length` is `config.MIN_PASSWORD_LENGTH`.
unfoldable pub validate_password : ℕ → Text → Result (Unit {0})
validate_password min_length password =
    if is_empty password
    then throw (api (api_error (text "Password is required") 400))
    else if ltb (length password) min_length
    then throw (
        api (
          api_error
            (text "Password must be at least " ++ print min_length ++ text " characters long") 400))
    else ok tt

unfoldable pub validate_required_id : Text → Text → Result (Unit {0})
validate_required_id id resource_name =
    if is_empty id
    then throw (api (api_error (resource_name ++ text " is required") 400))
    else ok tt

unfoldable pub validate_update_payload : Fields → Result (Unit {0})
validate_update_payload payload =
    if is_empty (keys payload)
    then throw (api (api_error (text "At least one field must be provided for update") 400))
    else ok tt

-- The tests of `handleApiError` on the message in lower case, in their order.
abbrev pub api_rules : List Rule
api_rules =
    rule (text "401" ∷ text "unauthorized" ∷ text "not authenticated" ∷ [])
      (api_error (text "Authentication required") 401)
    ∷ rule (text "403" ∷ text "forbidden" ∷ []) (api_error (text "Access denied") 403)
    ∷ rule (text "404" ∷ text "not found" ∷ []) (api_error (text "Resource not found") 404)
    ∷ rule (text "409" ∷ text "conflict" ∷ []) (api_error (text "Resource already exists") 409)
    ∷ rule (text "429" ∷ text "too many requests" ∷ [])
        (api_error (text "Too many requests. Please try again later.") 429)
    ∷ rule (text "400" ∷ text "bad request" ∷ []) (api_error (text "Invalid request data") 400)
    ∷ rule (text "invalid email or password" ∷ text "invalid credentials" ∷ [])
        (api_error (text "Invalid email or password") 401)
    ∷ rule (text "email already registered" ∷ []) (api_error (text "Email already registered") 409)
    ∷ rule (text "invalid or expired refresh token" ∷ text "session expired" ∷ [])
        (api_error (text "Session expired. Please login again.") 401)
    ∷ []

abbrev failed : Text → ApiError
failed context = api_error (context ++ text " failed. Please try again.") 500

-- `handleApiError`: the ApiError that it throws.
unfoldable pub handle_api_error : Text → Failure → ApiError
handle_api_error context (api e) = e
handle_api_error context (axios e) = first_rule api_rules (failed context) (to_lower e.message)
handle_api_error context (plain message) = first_rule api_rules (failed context) (to_lower message)
handle_api_error context (other v) = failed context

-- `try { m } catch (error) { handleApiError(error, context) }`.
abbrev pub handled : {A : Type 0} → Text → M A → M A
handled context m = catch_with m (λ f. fail (api (handle_api_error context f)))
