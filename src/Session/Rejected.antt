-- ===== src/Session/Rejected.antt =====
-- A login with the wrong password.
use wazire.Base.{◌≡◌, refl, false, Option, none, some, ◌∷◌, is_empty, if◌then◌else◌}
use wazire.Base.Text.{Text, text, includes, to_lower, starts_with}
use wazire.Base.Dict.{lookup}
use wazire.Base.Value.{Value, undefined, obj}
use wazire.Http.Types.{
  Platform, World, Request, Response, AxiosError, axios, api, api_error, post, throw, rejected,
  catch_as, catch_with, ◌>>=◌, ◌>>◌,
}
use wazire.Http.Client.{request, send, attach, on_error}
use wazire.Http.Utils.{handle_api_error}
use wazire.Http.Interceptors.{on_error_unauthorized, lookup-ended, is_session_key}
use wazire.Session.Auth
use wazire.Session.Auth.{login_fields}
use wazire.Session.Stored.{fields_given}
use wazire.Session.Context.{Context, login}
use wazire.Session.LoginPage.{handle_submit, shown_error}

-- The message that axios gives a reply of status 401.
abbrev pub axios_401 : Text
axios_401 = text "Request failed with status code 401"

unauthorized_message :
    (context : Text) (e : AxiosError)
    → e.message ≡ axios_401
    → handle_api_error context (axios e) ≡ api_error (text "Authentication required") 401
unfolding handle_api_error includes starts_with to_lower text
unauthorized_message context e m = rw (m, handle_api_error) refl

abbrev pub login_request : Text → Text → Request
login_request email password =
    request post (text "/auth/login") undefined (obj (login_fields email password))

login_rejected :
    (p : Platform) (email password : Text) (w : World) (e : AxiosError)
    → is_empty email ≡ false
    → is_empty password ≡ false
    → p.reply w.sent (attach p w (login_request email password)) ≡ rejected e
    → e.message ≡ axios_401
    → let r = attach p w (login_request email password) in
      Auth.login p email password w ≡ (
        throw (api (api_error (text "Authentication required") 401)),
        on_error p e r (record w { sent = r ∷ w.sent }),
      )
unfolding Auth.login catch_as catch_with ◌>>=◌ ◌>>◌ send
login_rejected p email password w e em pw reply m =
    rw (fields_given email password em pw)
      (rw (reply, send, ◌>>=◌) (rw (unauthorized_message (text "Login") e m) refl))

-- A login that the server rejects with status 401, so one with the wrong password, where
-- localStorage can be used and the message of axios is the usual one: the page does not show its
-- text for wrong credentials but "Authentication required"; the browser is sent to the login page
-- again, and what localStorage held of a session is gone.
pub wrong_password :
    (p : Platform) (denied email password k : Text) (parse : Text → Option Value) (c : Context)
    (e : AxiosError) (resp : Response)
    → is_empty email ≡ false
    → is_empty password ≡ false
    → c.world.blocked ≡ false
    → p.reply c.world.sent (attach p c.world (login_request email password)) ≡ rejected e
    → e.message ≡ axios_401
    → e.response ≡ some resp
    → resp.status ≡ 401
    → let page = handle_submit p denied parse email password c in
      (page.error ≡ some (text "Authentication required"))
      × (page.navigated ≡ none)
      × (page.context.world.location ≡ text "/login")
      × (lookup k page.context.world.storage
          ≡ (if is_session_key p k then none else lookup k c.world.storage))
unfolding handle_submit login shown_error includes starts_with text
wrong_password p denied email password k parse c e resp em pw open_storage reply m has is_401 =
    let r = attach p c.world (login_request email password) in
    let w = record c.world { sent = r ∷ c.world.sent } in
    rw (em, pw, login_rejected p email password c.world e em pw reply m)
      (rw (on_error_unauthorized p r w e resp open_storage has is_401)
        (refl, refl, refl, lookup-ended p w k))
