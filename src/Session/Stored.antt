-- ===== src/Session/Stored.antt =====
-- What a login leaves in localStorage.
use wazire.Base.{
  ◌≡◌, refl, true, false, ◌&&◌, Option, some, [], ◌∷◌, is_empty, if◌then◌else◌, Bool-cases, inl,
  inr, arith,
}
use wazire.Base.Text.{Text, text, text_eq}
use wazire.Base.Dict.{lookup, lookup-insert}
use wazire.Base.Value.{Value, undefined, null, bool, num, str, arr, obj, is_truthy, prop, get_field}
use wazire.Http.Types.{Platform, World, Response, ok, ◌>>=◌, ◌>>◌, catch_as, catch_with}
use wazire.Http.Client.{client_post}
use wazire.Http.Utils.{validate_required_fields, missing_fields}
use wazire.Http.Envelope.{handle_envelope, message_text}
use wazire.Session.Auth.{
  login, login_fields, store_tokens, store_user, check_login, refresh_key, user_key, is_nullish,
}

truthy-nullish : (v : Value) → is_truthy v ≡ true → is_nullish v ≡ false
truthy-nullish undefined h = cc
truthy-nullish null h = cc
truthy-nullish (bool b) h = refl
truthy-nullish (num n) h = refl
truthy-nullish (str s) h = refl
truthy-nullish (arr vs) h = refl
truthy-nullish (obj fs) h = refl

-- What a key holds once tokens and a user were stored.
abbrev pub stored_session : Platform → Value → Value → Text → Option Text → Option Text
stored_session p tokens user k before =
    let refresh_token = prop (text "refresh_token") tokens in
    if text_eq user_key k
    then some (p.stringify user)
    else if text_eq refresh_key k && is_truthy refresh_token
    then some (message_text p refresh_token)
    else if text_eq p.token_key k
    then some (message_text p (prop (text "access_token") tokens))
    else before

lookup-stored :
    (p : Platform) (tokens user : Value) (w : World) (k : Text)
    → w.blocked ≡ false
    → is_truthy tokens ≡ true
    → lookup k (store_user p user (store_tokens p tokens w)).storage
      ≡ stored_session p tokens user k (lookup k w.storage)
unfolding store_tokens store_user
lookup-stored p tokens user w k open_storage given =
    elim (Bool-cases (is_truthy (prop (text "refresh_token") tokens))) [
      | inl e ↦
          rw (open_storage, truthy-nullish tokens given, e) (simp lookup-insert (ground arith))
      | inr e ↦
          rw (open_storage, truthy-nullish tokens given, e) (simp lookup-insert (ground arith))
    ]

checked :
    (d : Value)
    → is_truthy (prop (text "user") d) ≡ true
    → is_truthy (prop (text "tokens") d) ≡ true
    → check_login d ≡ ok tt
unfolding check_login
checked undefined u t = cc
checked null u t = cc
checked (bool b) u t = cc
checked (num n) u t = cc
checked (str s) u t = cc
checked (arr vs) u t = cc
checked (obj fs) u t = rw (u, t) refl

pub fields_given :
    (email password : Text)
    → is_empty email ≡ false
    → is_empty password ≡ false
    → validate_required_fields (login_fields email password) (text "email" ∷ text "password" ∷ [])
      ≡ ok tt
unfolding validate_required_fields missing_fields get_field text text_eq
fields_given email password e p = rw (e, p) refl

-- A login that the server answers with a user and tokens gives that answer, and where localStorage
-- can be used it leaves the access token, the text of the user and, if there is one, the refresh
-- token there, and leaves all other keys alone.
pub login_stores_session :
    (p : Platform) (email password k : Text) (w w' : World) (resp : Response) (d : Value)
    → is_empty email ≡ false
    → is_empty password ≡ false
    → client_post p (text "/auth/login") (obj (login_fields email password)) w ≡ (ok resp, w')
    → w'.blocked ≡ false
    → handle_envelope p resp ≡ ok d
    → is_truthy (prop (text "user") d) ≡ true
    → is_truthy (prop (text "tokens") d) ≡ true
    → let (x, w'') = login p email password w in
      (x ≡ ok d)
      × (lookup k w''.storage
          ≡ stored_session p
              (prop (text "tokens") d)
              (prop (text "user") d)
              k
              (lookup k w'.storage))
unfolding login catch_as catch_with ◌>>=◌ ◌>>◌
login_stores_session p email password k w w' resp d e pw sent open_storage data_of user tokens =
    rw (fields_given email password e pw, sent, ◌>>=◌)
      (rw (data_of, ◌>>=◌)
        (rw (checked d user tokens, ◌>>=◌)
          (
            refl,
            lookup-stored p (prop (text "tokens") d) (prop (text "user") d) w' k open_storage
                tokens,
          )))
