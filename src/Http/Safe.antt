-- ===== src/Http/Safe.antt =====
-- `safeRequest` of frontend/src/apis/client.ts.
use wazire.Base.{ℕ, List, ◌≡◌, refl, none, some, Option, ◌++◌, is_empty, if◌then◌else◌, arith}
use wazire.Base.Text.{Text, text}
use wazire.Base.Decimal.{print}
use wazire.Base.Value.{Value, undefined, str, prop}
use wazire.Http.Types.{
  Request, Response, AxiosError, ApiError, Failure, api, axios, plain, other, Platform, World, M,
  rejected, throw, return, fail, ◌>>=◌, catch_with,
}
use wazire.Http.Client.{send}
use wazire.Http.Envelope.{or_value, message_text}

-- `new ApiError(message, 0, code)`.
abbrev without_status : Text → Text → ApiError
without_status message code = record {
  message = message;
  status = some 0;
  code = str code;
  details = undefined;
}

abbrev unknown_error : Text → ApiError
unknown_error message =
    without_status (if is_empty message then text "Unknown error occurred" else message)
      (text "UNKNOWN_ERROR")

abbrev response_error : Platform → Response → ApiError
response_error p resp = record {
  message = message_text p (
      or_value (prop (text "message") resp.body) (
        or_value (prop (text "error") resp.body)
          (str (text "HTTP " ++ print resp.status ++ text " Error"))));
  status = some resp.status;
  code = prop (text "code") resp.body;
  details = resp.body;
}

abbrev axios_error : Platform → AxiosError → Option Response → ApiError
axios_error p e (some resp) = response_error p resp
axios_error p e none =
    if e.has_request
    then without_status (text "Network error: Unable to reach server") (text "NETWORK_ERROR")
    else unknown_error e.message

-- The ApiError that replaces what the request threw; an ApiError is an Error like others.
unfoldable pub safe_error : Platform → Failure → ApiError
safe_error p (axios e) = axios_error p e e.response
safe_error p (api e) = unknown_error e.message
safe_error p (plain message) = unknown_error message
safe_error p (other v) = unknown_error (text "Unknown error occurred")

unfoldable pub safe_request : Platform → M Response → M Value
unfolding safe_error
safe_request p request =
    catch_with (request >>= λ response. return response.body) (λ f. fail (api (safe_error p f)))

abbrev pub status_or_zero : Option Response → ℕ
status_or_zero none = 0
status_or_zero (some resp) = resp.status

axios_error-status :
    (p : Platform) (e : AxiosError) (o : Option Response)
    → (axios_error p e o).status ≡ some (status_or_zero o)
axios_error-status p e none = ground arith
axios_error-status p e (some resp) = refl

-- A safe request that is rejected throws an ApiError with the status of the response, or 0 where
-- there was none.
pub safe_request_status :
    (p : Platform) (r : Request) (w : World) (e : AxiosError)
    → ((sent : List Request) (r' : Request) → p.reply sent r' ≡ rejected e)
    → (err : ApiError) × ((safe_request p (send p r) w).0 ≡ throw (api err))
      × (err.status ≡ some (status_or_zero e.response))
unfolding safe_request send catch_with ◌>>=◌
safe_request_status p r w e h = rw (h _ _, send) (_, refl, axios_error-status p e e.response)
