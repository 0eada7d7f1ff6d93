-- ===== src/Session/Auth.antt =====
-- frontend/src/apis/auth.ts: signing in and the users.
use wazire.Base.{ℕ, Bool, true, false, not, ◌||◌, [], ◌∷◌, ◌++◌, if◌then◌else◌}
use wazire.Base.Text.{Text, text}
use wazire.Base.Number.{whole}
use wazire.Base.Dict.{insert}
use wazire.Base.Value.{Value, undefined, null, str, num, obj, Fields, end, field, is_truthy, prop}
use wazire.Http.Types.{
  World, api, api_error, plain, Result, ok, throw, M, ◌>>=◌, ◌>>◌, lift, return, catch_as, Platform,
}
use wazire.Http.Client.{client_get, client_post, client_put, client_delete}
use wazire.Http.Envelope.{
  handle_envelope, handle_paginated_envelope, Paginated, message_text, or_value,
}
use wazire.Http.Utils.{
  validate_required_fields, validate_password, validate_required_id, validate_update_payload,
  handle_api_error,
}
use wazire.Session.Guards.{validate_email}

abbrev pub refresh_key : Text
refresh_key = text "refresh_token"

abbrev pub user_key : Text
user_key = text "wazire_user"

-- `localStorage.setItem`, where localStorage can be used.
abbrev pub set_item : Text → Text → World → World
set_item key v w = record w { storage = insert key v w.storage }

abbrev pub is_nullish : Value → Bool
is_nullish undefined = true
is_nullish null = true
is_nullish v = false

abbrev store_refresh : Platform → Value → World → World
store_refresh p token w =
    if is_truthy token then set_item refresh_key (message_text p token) w else w

-- The tokens in localStorage. Nothing is written where it cannot be used, or where there are no
-- tokens: what is thrown then is caught.
unfoldable pub store_tokens : Platform → Value → World → World
store_tokens p tokens w =
    if w.blocked || is_nullish tokens
    then w
    else store_refresh p (prop (text "refresh_token") tokens)
        (set_item p.token_key (message_text p (prop (text "access_token") tokens)) w)

unfoldable pub store_user : Platform → Value → World → World
store_user p user w = if w.blocked then w else set_item user_key (p.stringify user) w

-- The check of the reply to a login: a property of a missing value cannot be read.
unfoldable pub check_login : Value → Result (Unit {0})
check_login data_of =
    if is_nullish data_of
    then throw (plain (text "Cannot read properties of undefined (reading 'user')"))
    else if not (is_truthy (prop (text "user") data_of))
        || not (is_truthy (prop (text "tokens") data_of))
    then throw (api (api_error (text "Invalid authentication response") 500))
    else ok tt

-- An effect on the browser that gives nothing.
abbrev pub effect : (World → World) → M (Unit {0})
effect f w = (ok tt, f w)

abbrev pub login_fields : Text → Text → Fields
login_fields email password =
    field (text "email") (str email) (field (text "password") (str password) end)

pub record RegisterPayload : Type 0 where
  pub first_name : Text
  pub last_name : Text
  pub email : Text
  pub password : Text
  pub rest : Fields  -- the optional properties

abbrev pub register_fields : RegisterPayload → Fields
register_fields r = field (text "first_name") (str r.first_name) (
    field (text "last_name") (str r.last_name)
      (field (text "email") (str r.email) (field (text "password") (str r.password) r.rest)))

-- `params?.tenant_id`, where it is there.
abbrev tenant_param : Value → Fields
tenant_param tenant = if is_truthy tenant then field (text "tenant_id") tenant end else end

module _ (p : Platform) where
  unfoldable pub login : Text → Text → M Value
  login email password =
      lift (
        validate_required_fields (login_fields email password)
          (text "email" ∷ text "password" ∷ []))
      >> catch_as
          (do
            response ← client_post p (text "/auth/login") (obj (login_fields email password))
            data_of ← lift (handle_envelope p response)
            _ ← lift (check_login data_of)
            _ ← effect (λ w.
                store_user p (prop (text "user") data_of)
                  (store_tokens p (prop (text "tokens") data_of) w))
            return data_of)
          (handle_api_error (text "Login"))

  -- `min_length` is `config.MIN_PASSWORD_LENGTH`.
  unfoldable pub register : ℕ → RegisterPayload → M Value
  register min_length r =
      lift (
        validate_required_fields (register_fields r)
          (text "email" ∷ text "password" ∷ text "first_name" ∷ text "last_name" ∷ []))
      >> (lift (validate_password min_length r.password)
          >> (lift (validate_email r.email)
              >> catch_as
                  (do
                    response ← client_post p (text "/auth/register") (obj (register_fields r))
                    lift (handle_envelope p response))
                  (handle_api_error (text "Registration"))))

  unfoldable pub refresh : Text → M Value
  refresh refresh_token =
      lift (validate_required_id refresh_token (text "Refresh token"))
      >> catch_as
          (do
            response ←
                client_post p (text "/auth/refresh")
                  (obj (field (text "refresh_token") (str refresh_token) end))
            tokens ← lift (handle_envelope p response)
            _ ← effect (store_tokens p tokens)
            return tokens)
          (handle_api_error (text "Token refresh"))

  unfoldable pub me : M Value
  me =
      catch_as
        (do response ← client_get p (text "/auth/me") undefined; lift (handle_envelope p response))
        (handle_api_error (text "Get user profile"))

  unfoldable pub update_me : Fields → M Value
  update_me payload =
      lift (validate_update_payload payload)
      >> catch_as
          (do
            response ← client_put p (text "/auth/me") (obj payload)
            updated_user ← lift (handle_envelope p response)
            _ ← effect (store_user p updated_user)
            return updated_user)
          (handle_api_error (text "Profile update"))

  unfoldable pub list_users : Value → M Paginated
  list_users params =
      catch_as
        (do
          response ← client_get p (text "/account/users") (
              obj (
                field (text "page") (or_value (prop (text "page") params) (num (whole 1))) (
                  field (text "per_page")
                    (or_value (prop (text "per_page") params) (num (whole p.default_page_size)))
                    (tenant_param (prop (text "tenant_id") params)))))
          lift (handle_paginated_envelope p response))
        (handle_api_error (text "List users"))

  unfoldable pub get_user : Text → M Value
  get_user user_id =
      lift (validate_required_id user_id (text "User ID"))
      >> catch_as
          (do
            response ← client_get p (text "/account/users/" ++ user_id) undefined
            lift (handle_envelope p response))
          (handle_api_error (text "Get user"))

  unfoldable pub update_user : Text → Fields → M Value
  update_user user_id payload =
      lift (validate_required_id user_id (text "User ID"))
      >> (lift (validate_update_payload payload)
          >> catch_as
              (do
                response ← client_put p (text "/account/users/" ++ user_id) (obj payload)
                lift (handle_envelope p response))
              (handle_api_error (text "Update user")))

  unfoldable pub delete_user : Text → M Value
  delete_user user_id =
      lift (validate_required_id user_id (text "User ID"))
      >> catch_as
          (do
            response ← client_delete p (text "/account/users/" ++ user_id)
            _ ← lift (handle_envelope p response)
            return undefined)
          (handle_api_error (text "Delete user"))
