-- ===== src/Session/Tests.antt =====
-- A server that answers logins, one that rejects every request, and the theorems at them.
use wazire.Base.{◌+◌, ◌≡◌, refl, true, false, Option, none, some, [], ◌∷◌, is_empty, if◌then◌else◌}
use wazire.Base.Text.{Text, text, text_eq}
use wazire.Base.Dict.{lookup, Dict}
use wazire.Base.Value.{Value, undefined, null, str, obj, field, end, prop, get_field, is_truthy}
use wazire.Base.Value
use wazire.Http.Types.{Response, AxiosError, Reply, arrived, rejected, World, Platform, ok}
use wazire.Http.Client.{client_post, send}
use wazire.Http.Envelope.{handle_envelope}
use wazire.Session.Auth
use wazire.Session.Auth.{RegisterPayload, login_fields, user_key, refresh_key}
use wazire.Apis.PlainCalls.{PlainCall, PlainIsProper}
use wazire.Session.Call.{Call, CallIsProper}
use wazire.Session.Calls.{calls_are_proper}
use wazire.Session.Stored.{login_stores_session, stored_session}
use wazire.Session.Context.{Context, token_key, init}
use wazire.Session.Restore.{init_after_rejection, is_unauthorized}
use wazire.Session.Rejected.{axios_401}
use wazire.Session.Routes.{Route, element}
use wazire.Session.Navigation.{
  routes_are_guarded, shown_page, may_see, is_in, audience, guest_view, navigation_settles,
  is_settled, follow,
}

abbrev email : Text
email = b'e' ∷ []

abbrev password : Text
password = b'p' ∷ []

abbrev user : Value
user = obj (field (text "role") (str (text "student")) end)

abbrev tokens : Value
tokens = obj (field (text "access_token") (str (b'a' ∷ [])) end)

abbrev session : Value
session = obj (field (text "user") user (field (text "tokens") tokens end))

abbrev welcome : Response
welcome = record {
  status = 200;
  body = obj (field (text "success") (Value.bool true) (field (text "data") session end));
}

abbrev expired : Response
expired = record { status = 401; body = null }

abbrev failure : AxiosError
failure = record { message = axios_401; response = some expired; has_request = true }

abbrev server : Reply → Platform
server reply = record {
  token_key = b't' ∷ [];
  default_page_size = 20;
  reply = λ sent r. reply;
  request_id = λ n. n ∷ [];
  string_of = λ v. [];
  stringify = λ v. b'u' ∷ [];
}

abbrev storing : Dict Text → World
storing d = record { storage = d; blocked = false; location = b'/' ∷ []; tracked = []; sent = [] }

-- A page with a token and a user in localStorage.
abbrev context : Context
context = record {
  user = null;
  auth_loading = true;
  world = storing ((token_key, b'x' ∷ []) ∷ (user_key, b'u' ∷ []) ∷ []);
}

abbrev parse : Text → Option Value
parse s = if is_empty s then none else some user

calls_are_proper_example :
    CallIsProper (server (rejected failure)) (storing []) (Call.login email password)
    × PlainIsProper (server (rejected failure)) (storing []) (PlainCall.get_tenant email)
calls_are_proper_example =
    calls_are_proper (server (rejected failure)) (storing []) (Call.login email password)
      (PlainCall.get_tenant email)

-- The browser once the login was sent.
abbrev sent : World
sent =
    (client_post (server (arrived welcome)) (text "/auth/login") (obj (login_fields email password))
      (storing [])).1

welcome_sent :
    client_post
      (server (arrived welcome))
      (text "/auth/login")
      (obj (login_fields email password))
      (storing [])
    ≡ (ok welcome, sent)
unfolding send
welcome_sent = refl

welcome_read : handle_envelope (server (arrived welcome)) welcome ≡ ok session
unfolding handle_envelope get_field text text_eq Value.keys
welcome_read = refl

open_storage : sent.blocked ≡ false
unfolding send
open_storage = refl

has_user : is_truthy (prop (text "user") session) ≡ true
unfolding get_field text text_eq
has_user = refl

has_tokens : is_truthy (prop (text "tokens") session) ≡ true
unfolding get_field text text_eq
has_tokens = refl

login_stores_session_example :
    let (x, w) = Auth.login (server (arrived welcome)) email password (storing []) in
    (x ≡ ok session)
    × (lookup user_key w.storage
        ≡ stored_session
            (server (arrived welcome))
            (prop (text "tokens") session)
            (prop (text "user") session)
            user_key
            (lookup user_key sent.storage))
login_stores_session_example =
    login_stores_session (server (arrived welcome)) email password user_key (storing []) sent
      welcome session refl refl welcome_sent open_storage welcome_read has_user has_tokens

token_there : lookup token_key context.world.storage ≡ some (b'x' ∷ [])
unfolding lookup text text_eq
token_there = refl

user_there : lookup user_key context.world.storage ≡ some (b'u' ∷ [])
unfolding lookup text text_eq
user_there = refl

init_after_rejection_example :
    ((init (server (rejected failure)) [] parse context).auth_loading ≡ false)
    × ((init (server (rejected failure)) [] parse context).user
        ≡ (if is_unauthorized (some expired) then null else user))
init_after_rejection_example =
    init_after_rejection (server (rejected failure)) [] (b'x' ∷ []) (b'u' ∷ []) parse user context
      failure refl refl token_there refl user_there refl refl refl

routes_are_guarded_example :
    (shown_page (element user Route.billing)
      ≡ (if is_in (audience Route.billing) user then some Route.billing else none))
    × (may_see user (shown_page (follow user 2 Route.billing)) ≡ true)
    × (follow null 3 Route.billing ≡ guest_view Route.billing)
routes_are_guarded_example = routes_are_guarded user Route.billing 2

navigation_settles_example :
    (is_settled (follow user 3 Route.create_institution) ≡ true)
    × (follow user (2 + 3) Route.create_institution ≡ follow user 3 Route.create_institution)
navigation_settles_example = navigation_settles user Route.create_institution 2
