-- ===== src/Session/LoginPage.antt =====
-- `handleSubmit` of frontend/src/pages/Login.tsx.
use wazire.Base.{Bool, false, not, ◌&&◌, ◌||◌, Option, none, some, [], is_empty, if◌then◌else◌}
use wazire.Base.Text.{Text, text, text_eq, includes}
use wazire.Base.Value.{Value, str, is_truthy, prop}
use wazire.Http.Types.{Failure, api, axios, plain, other, Result, ok, throw, Platform}
use wazire.Session.Context.{Context, login}

pub record LoginPage : Type 0 where
  pub error : Option Text
  pub navigated : Option Text  -- where the page goes
  pub loading : Bool
  pub context : Context

-- `v === t`.
abbrev pub is_text : Text → Value → Bool
is_text t (str s) = text_eq s t
is_text t v = false

-- An admin of no institution goes to create one.
abbrev pub landing : Value → Text
landing u =
    if is_text (text "admin") (prop (text "role") u) && not (is_truthy (prop (text "tenant_id") u))
    then text "/institutions/create"
    else text "/dashboard"

-- `err.message`, empty where there is none.
abbrev message_of : Failure → Text
message_of (api e) = e.message
message_of (axios e) = e.message
message_of (plain message) = message
message_of (other v) = []

unfoldable pub shown_error : Text → Text
unfolding includes
shown_error message =
    if includes message (text "Invalid")
    then text "Invalid email or password."
    else if is_empty message
    then text "Login failed."
    else message

abbrev after_login : Result Value × Context → LoginPage
after_login (ok u, c) = record {
  error = none;
  navigated = some (landing u);
  loading = false;
  context = c;
}
after_login (throw f, c) = record {
  error = some (shown_error (message_of f));
  navigated = none;
  loading = false;
  context = c;
}

unfoldable pub handle_submit :
    Platform → Text → (Text → Option Value) → Text → Text → Context → LoginPage
unfolding shown_error
handle_submit p denied parse email password c =
    if is_empty email || is_empty password
    then record { error = none; navigated = none; loading = false; context = c }
    else after_login (login p denied parse email password c)
