-- ===== src/Session/Restore.antt =====
-- The session when the page is loaded, and when the user signs out.
use wazire.Base.{
  ◌≡◌, ◌∙◌, refl, ap, Bool, false, ◌||◌, ◌==◌, Option, none, some, ◌∷◌, is_empty, if◌then◌else◌,
  Bool-cases, Option-cases, inl, inr, arith,
}
use wazire.Base.Text.{Text, text, text_eq}
use wazire.Base.Dict.{lookup, lookup-delete, text_eq_refl}
use wazire.Base.Value.{Value, undefined, null}
use wazire.Http.Types.{
  Platform, World, Request, Response, AxiosError, axios, get, throw, api, ◌>>=◌, rejected, catch_as,
  catch_with,
}
use wazire.Http.Client.{request, send, attach, on_error, get_auth_token, remove_auth_token}
use wazire.Http.Utils.{handle_api_error}
use wazire.Http.Interceptors.{on_error_unauthorized, lookup-ended}
use wazire.Session.Auth
use wazire.Session.Auth.{user_key, refresh_key}
use wazire.Session.Context.{Context, token_key, init, logout, restore}

abbrev pub is_unauthorized : Option Response → Bool
is_unauthorized none = false
is_unauthorized (some resp) = resp.status == 401

on_error-user :
    (p : Platform) (e : AxiosError) (r : Request) (w : World)
    → w.blocked ≡ false
    → ((on_error p e r w).blocked ≡ false)
      × (lookup user_key (on_error p e r w).storage
          ≡ (if is_unauthorized e.response then none else lookup user_key w.storage))
unfolding on_error remove_auth_token
on_error-user p e r w open_storage = elim (Option-cases e.response) [
  | inl missing ↦ rw missing (open_storage, refl)
  | inr (resp, has) ↦ elim (Bool-cases (resp.status == 401)) [
    | inl is_401 ↦
        rw (on_error_unauthorized p r w e resp open_storage has (ground arith), has, is_401)
          (open_storage, lookup-ended p w user_key ∙ ground (arith, text_eq_refl user_key))
    | inr other ↦ rw (has, other) (ground arith, ground arith)
  ]
]

-- The user after a request that was rejected, where localStorage keeps the text of a user.
restore_after :
    (p : Platform) (denied stored : Text) (parse : Text → Option Value) (u : Value)
    (gone : Option Response) (c : Context) (w : World)
    → c.user ≡ null
    → w.blocked ≡ false
    → is_empty stored ≡ false
    → parse stored ≡ some u
    → lookup user_key w.storage ≡ (if is_unauthorized gone then none else some stored)
    → (restore p denied parse (record c { world = w })).user
      ≡ (if is_unauthorized gone then null else u)
unfolding restore
restore_after p denied stored parse u gone c w before open_storage given parsed kept =
    elim (Bool-cases (is_unauthorized gone)) [
      | inl is_401 ↦
          let none_kept = rw is_401 at kept in rw (open_storage, none_kept, is_401) before
      | inr other ↦
          let kept' = rw other at kept in rw (open_storage, kept', given, parsed, other) refl
    ]

read_open :
    (blocked : Bool) (o : Option Text) (t : Text)
    → blocked ≡ false
    → o ≡ some t
    → (if blocked then none else o) ≡ some t
read_open b o t h e = rw h e

abbrev pub me_request : Request
me_request = request get (text "/auth/me") undefined undefined

me_rejected :
    (p : Platform) (w : World) (e : AxiosError)
    → p.reply w.sent (attach p w me_request) ≡ rejected e
    → Auth.me p w ≡ (
      throw (api (handle_api_error (text "Get user profile") (axios e))),
      on_error p e (attach p w me_request) (record w { sent = attach p w me_request ∷ w.sent }),
    )
unfolding Auth.me catch_as catch_with ◌>>=◌ send
me_rejected p w e reply = rw (reply, send, ◌>>=◌) refl

-- A page is loaded with a token in localStorage and with the text of a user, and the request for
-- the user is rejected. Then the page is no longer loading, and the user is signed out exactly if
-- the server answered with status 401; otherwise, also if it cannot be reached, the user is the one
-- that localStorage keeps.
pub init_after_rejection :
    (p : Platform) (denied token stored : Text) (parse : Text → Option Value) (u : Value)
    (c : Context) (e : AxiosError)
    → c.user ≡ null
    → c.world.blocked ≡ false
    → lookup token_key c.world.storage ≡ some token
    → is_empty token ≡ false
    → lookup user_key c.world.storage ≡ some stored
    → is_empty stored ≡ false
    → parse stored ≡ some u
    → p.reply c.world.sent (attach p c.world me_request) ≡ rejected e
    → ((init p denied parse c).auth_loading ≡ false)
      × ((init p denied parse c).user ≡ (if is_unauthorized e.response then null else u))
unfolding init
init_after_rejection p denied token stored parse u c e before open_storage has_token t has_user s
      parsed reply =
    let token_read : (if c.world.blocked then none else lookup token_key c.world.storage)
        ≡ some token =
      read_open _ _ token open_storage has_token in
    let r = attach p c.world me_request in
    let w = record c.world { sent = r ∷ c.world.sent } in
    let (open', kept) = on_error-user p e r w open_storage in
    let kept' = kept ∙ ap (λ v. if is_unauthorized e.response then none else v) has_user in
    rw (token_read, t, me_rejected p c.world e reply)
      (
        refl,
        restore_after p denied stored parse u e.response c (on_error p e r w) before open' s parsed
            kept',
      )

-- Signing out where localStorage can be used: there is no user any more, and localStorage has lost
-- the user, the refresh token and the entry `access_token`, and no other entry. So the token that
-- requests carry stays exactly if the configuration gives it another key than these.
pub logout_lem :
    (p : Platform) (denied k : Text) (parse : Text → Option Value) (c : Context)
    → c.world.blocked ≡ false
    → let c' = logout p denied parse c in
      let gone =
        λ (j : Text). text_eq refresh_key j || (text_eq token_key j || text_eq user_key j) in
      (c'.user ≡ null)
      × (lookup k c'.world.storage ≡ (if gone k then none else lookup k c.world.storage))
      × (get_auth_token p c'.world ≡ (if gone p.token_key then none else get_auth_token p c.world))
unfolding logout get_auth_token
logout_lem p denied k parse c open_storage =
    rw open_storage (refl, simp lookup-delete (ground arith), simp lookup-delete (ground arith))
