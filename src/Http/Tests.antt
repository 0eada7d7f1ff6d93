-- ===== src/Http/Tests.antt =====
-- Two rejected requests, and the theorems at them.
use wazire.Base.{◌≡◌, refl, true, false, ◌||◌, none, some, [], ◌∷◌, ◌==◌, leb, if◌then◌else◌, arith}
use wazire.Base.Text.{text}
use wazire.Base.Value.{undefined, null}
use wazire.Base.Dict.{lookup}
use wazire.ErrorTracking.{track}
use wazire.Http.Types.{get, Request, Response, AxiosError, axios, rejected, World, Platform, throw}
use wazire.Http.Client.{send}
use wazire.Http.Interceptors.{
  is_session_key, unauthorized_ends_session, other_rejections_are_tracked,
}

abbrev expired : Response
expired = record { status = 401; body = null }

abbrev broken : Response
broken = record { status = 503; body = null }

abbrev failure : Response → AxiosError
failure resp = record { message = []; response = some resp; has_request = true }

-- A server that rejects every request with one response.
abbrev always : Response → Platform
always resp = record {
  token_key = b't' ∷ [];
  default_page_size = 20;
  reply = λ sent r. rejected (failure resp);
  request_id = λ n. n ∷ [];
  string_of = λ v. [];
  stringify = λ v. [];
}

abbrev exams : Request
exams = record {
  method = get;
  url = b'/' ∷ [];
  params = undefined;
  body = undefined;
  authorization = none;
  request_id = [];
}

-- A browser that is logged in, with a setting of its own.
abbrev logged_in : World
logged_in = record {
  storage = (b't' ∷ [], b'x' ∷ []) ∷ (b's' ∷ [], b'1' ∷ []) ∷ [];
  blocked = false;
  location = b'/' ∷ [];
  tracked = [];
  sent = [];
}

unauthorized_ends_session_example :
    let (x, w') = send (always expired) exams logged_in in
    (x ≡ throw (axios (failure expired)))
    × (w'.location ≡ text "/login")
    × (lookup (b's' ∷ []) w'.storage ≡ (
        if is_session_key (always expired) (b's' ∷ [])
        then none
        else lookup (b's' ∷ []) logged_in.storage))
unauthorized_ends_session_example =
    unauthorized_ends_session (always expired) exams logged_in (failure expired) expired (b's' ∷ [])
      refl refl refl refl

other_rejections_are_tracked_example :
    let (x, w') = send (always broken) exams logged_in in
    (x ≡ throw (axios (failure broken)))
    × (w'.location ≡ logged_in.location)
    × (w'.storage ≡ logged_in.storage)
    × (w'.tracked ≡ (
        if (503 == 403) || ((503 == 404) || leb 500 503)
        then track (record { error = axios (failure broken); status = 503; url = exams.url }) []
        else []))
other_rejections_are_tracked_example =
    other_rejections_are_tracked (always broken) exams logged_in (failure broken) broken refl
      (λ e. absurd (omega arith)) refl
