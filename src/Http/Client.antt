-- ===== src/Http/Client.antt =====
-- The axios instance of frontend/src/apis/client.ts with its two interceptors, the token helpers of
-- frontend/src/config.ts and the store of frontend/src/utils/errorTracking.ts.
use wazire.Base.{ℕ, Option, none, some, [], ◌∷◌, length, leb, ◌==◌, is_empty, if◌then◌else◌}
use wazire.Base.Text.{Text, text}
use wazire.Base.Value.{Value, undefined}
use wazire.Base.Dict.{lookup, insert, delete}
use wazire.ErrorTracking.{track}
use wazire.Http.Types.{
  Method, get, post, put, patch, Request, Response, AxiosError, axios, arrived, rejected, World,
  Platform, ok, throw, M,
}

-- `getAuthToken`: null where localStorage cannot be used.
unfoldable pub get_auth_token : Platform → World → Option Text
get_auth_token p w = if w.blocked then none else lookup p.token_key w.storage

-- `setAuthToken`.
unfoldable pub set_auth_token : Platform → Text → World → World
set_auth_token p token w =
    if w.blocked then w else record w { storage = insert p.token_key token w.storage }

-- `removeAuthToken`.
unfoldable pub remove_auth_token : Platform → World → World
remove_auth_token p w = if w.blocked then w else record w {
  storage =
      delete (text "refresh_token") (delete (text "wazire_user") (delete p.token_key w.storage));
}

-- The request interceptor: the token, if there is one that is not empty, and a fresh identifier.
unfoldable pub attach : Platform → World → Request → Request
unfolding get_auth_token
attach p w r = record r {
  authorization = elim (get_auth_token p w) [
    | none ↦ none
    | some token ↦ if is_empty token then none else some token
  ];
  request_id = p.request_id (length w.sent);
}

abbrev track_status : AxiosError → ℕ → Request → World → World
track_status e status r w = record w {
  tracked = track (record { error = axios e; status = status; url = r.url }) w.tracked;
}

abbrev on_status : Platform → AxiosError → ℕ → Request → World → World
on_status p e status r w =
    if status == 401
    then record (remove_auth_token p w) { location = text "/login" }
    else if status == 403
    then track_status e 403 r w
    else if status == 404
    then track_status e 404 r w
    else if leb 500 status
    then track_status e status r w
    else w

-- The response interceptor for an error: what it does before it rejects with the same error.
unfoldable pub on_error : Platform → AxiosError → Request → World → World
unfolding remove_auth_token
on_error p e r w = elim e.response [ none ↦ w | some resp ↦ on_status p e resp.status r w ]

-- A call of the axios instance.
unfoldable pub send : Platform → Request → M Response
unfolding attach on_error
send p r w =
    let r' = attach p w r in
    let w' = record w { sent = r' ∷ w.sent } in
    elim (p.reply w.sent r') [
      | arrived resp ↦ (ok resp, w')
      | rejected e ↦ (throw (axios e), on_error p e r' w')
    ]

abbrev pub request : Method → Text → Value → Value → Request
request method url params body = record {
  method = method;
  url = url;
  params = params;
  body = body;
  authorization = none;
  request_id = [];
}

-- `client.get`, `client.post`, `client.put`, `client.patch` and `client.delete`.
abbrev pub client_get : Platform → Text → Value → M Response
client_get p url params = send p (request get url params undefined)

abbrev pub client_post : Platform → Text → Value → M Response
client_post p url body = send p (request post url undefined body)

abbrev pub client_put : Platform → Text → Value → M Response
client_put p url body = send p (request put url undefined body)

abbrev pub client_patch : Platform → Text → Value → M Response
client_patch p url body = send p (request patch url undefined body)

abbrev pub client_delete : Platform → Text → M Response
client_delete p url = send p (request Method.delete url undefined undefined)
