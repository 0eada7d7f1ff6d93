-- ===== src/Http/Types.antt =====
-- What passes between the API functions, axios and the browser: requests, replies, thrown values,
-- and the state of the browser that a call reads and writes. An API function is a function of that
-- state, with its result or what it throws.
use wazire.Base.{ℕ, Bool, Option, some, List, [], ◌∷◌, any, if◌then◌else◌}
use wazire.Base.Text.{Text, includes}
use wazire.Base.Value.{Value, undefined}
use wazire.Base.Dict.{Dict}

pub data Method : Type 0 where
  get post put patch delete : Method

pub record Request : Type 0 where
  pub method : Method
  pub url : Text
  pub params : Value
  pub body : Value
  pub authorization : Option Text  -- the token behind `Bearer`
  pub request_id : Text

pub record Response : Type 0 where
  pub status : ℕ
  pub body : Value  -- `response.data`

-- What axios rejects with.
pub record AxiosError : Type 0 where
  pub message : Text
  pub response : Option Response
  pub has_request : Bool

pub record ApiError : Type 0 where
  pub message : Text
  pub status : Option ℕ
  pub code : Value
  pub details : Value

-- `new ApiError(message, status)`.
abbrev pub api_error : Text → ℕ → ApiError
api_error message status = record {
  message = message;
  status = some status;
  code = undefined;
  details = undefined;
}

-- A thrown value: an ApiError, an AxiosError, another Error, or a value that is none.
pub data Failure : Type 0 where
  api : ApiError → Failure
  axios : AxiosError → Failure
  plain : Text → Failure
  other : Value → Failure

pub data Reply : Type 0 where
  arrived : Response → Reply
  rejected : AxiosError → Reply

-- An error that the tracker keeps: what failed, with the status and the address of the request.
pub record Tracked : Type 0 where
  pub error : Failure
  pub status : ℕ
  pub url : Text

-- The browser: localStorage (with whether it may be used), the address, the error tracker's
-- errors and the requests sent, the latest first.
pub record World : Type 0 where
  pub storage : Dict Text
  pub blocked : Bool
  pub location : Text
  pub tracked : List Tracked
  pub sent : List Request

-- The configuration and what stands outside of the source: axios with the server, which answer a
-- request after those sent before it, and functions of the language: the identifier of the n-th
-- request, the text of a value that is not a string, and `JSON.stringify`.
pub record Platform : Type 0 where
  pub token_key : Text
  pub default_page_size : ℕ
  pub reply : List Request → Request → Reply
  pub request_id : ℕ → Text
  pub string_of : Value → Text
  pub stringify : Value → Text

pub data Result {ℓ} (A : Type ℓ) : Type ℓ where
  ok : A → Result A
  throw : Failure → Result A

abbrev pub M : Type 0 → Type 0
M A = World → Result A × World

abbrev pub return : {A : Type 0} → A → M A
return a w = (ok a, w)

abbrev pub fail : {A : Type 0} → Failure → M A
fail f w = (throw f, w)

abbrev pub lift : {A : Type 0} → Result A → M A
lift r w = (r, w)

abbrev pub bind_result : {A B : Type 0} → Result A × World → (A → M B) → Result B × World
bind_result (ok a, w) k = k a w
bind_result (throw f, w) k = (throw f, w)

infixl 5 ◌>>=◌
infixr 4 ◌>>◌
unfoldable pub ◌>>=◌ : {A B : Type 0} → M A → (A → M B) → M B
◌>>=◌ m k w = bind_result (m w) k

unfoldable pub ◌>>◌ : {B : Type 0} → M (Unit {0}) → M B → M B
unfolding ◌>>=◌
m >> k = m >>= λ _. k

abbrev pub catch_result : {A : Type 0} → Result A × World → (Failure → M A) → Result A × World
catch_result (ok a, w) h = (ok a, w)
catch_result (throw f, w) h = h f w

-- `try { m } catch (error) { h(error) }`.
unfoldable pub catch_with : {A : Type 0} → M A → (Failure → M A) → M A
catch_with m h w = catch_result (m w) h

-- `error.message.includes(word)` for one of the words of a test, and the error that is then thrown.
pub data Rule : Type 0 where
  rule : List Text → ApiError → Rule

abbrev pub first_rule : List Rule → ApiError → Text → ApiError
first_rule [] fallback message = fallback
first_rule (rule words e ∷ rules) fallback message =
    if any (includes message) words then e else first_rule rules fallback message

-- The `catch` clause that most API functions have: an ApiError passes, another Error is replaced by
-- the error of the first test that its message meets, and the rest by the last error.
abbrev pub replace_error : List Rule → ApiError → Failure → ApiError
replace_error rules fallback (api e) = e
replace_error rules fallback (axios e) = first_rule rules fallback e.message
replace_error rules fallback (plain message) = first_rule rules fallback message
replace_error rules fallback (other v) = fallback

-- `try { m } catch (error) { throw an ApiError }`.
unfoldable pub catch_as : {A : Type 0} → M A → (Failure → ApiError) → M A
unfolding catch_with
catch_as m h = catch_with m (λ f. fail (api (h f)))

abbrev pub attempt : {A : Type 0} → M A → List Rule → ApiError → M A
attempt m rules fallback = catch_as m (replace_error rules fallback)

-- `if (b) throw new ApiError(message, 400)`.
unfoldable pub reject_if : Bool → Text → M (Unit {0})
reject_if b message w = if b then (throw (api (api_error message 400)), w) else (ok tt, w)
