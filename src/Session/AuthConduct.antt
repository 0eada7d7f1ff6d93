-- ===== src/Session/AuthConduct.antt =====
-- The functions of frontend/src/apis/auth.ts towards the server.
use wazire.Base.{ℕ, ◌≡◌, ◌∙◌, refl, inl, inr, is_empty, Bool-cases, arith}
use wazire.Base.Text.{Text, text}
use wazire.Base.Value.{Value, Fields, undefined, prop}
use wazire.Http.Types.{Platform, World, Result, ok, throw, M, ◌>>=◌, lift, return}
use wazire.Http.Envelope.{handle_envelope}
use wazire.Apis.Conduct.{IsProper, request-IsProper, discard-quiet}
use wazire.Apis.Checks.{
  Check, checked-IsProper, ok_if-Check, validate_required_id-Check, validate_required_fields-Check,
  validate_update_payload-Check, validate_password-Check,
}
use wazire.Session.Guards.{validate_email}
use wazire.Session.Auth.{
  login, register, refresh, me, update_me, list_users, get_user, update_user, delete_user,
  RegisterPayload, store_tokens, store_user, check_login, effect,
}

validate_email-Check : (email : Text) → Check (validate_email email)
unfolding validate_email
validate_email-Check email = elim (Bool-cases (is_empty email)) [
  | inl e ↦ rw e (inr (_, refl, refl))
  | inr e ↦ rw e (ok_if-Check _ _)
]

store_tokens-sent :
    (p : Platform) (tokens : Value) (w : World) → (store_tokens p tokens w).sent ≡ w.sent
unfolding store_tokens
store_tokens-sent p tokens w = ground arith

store_user-sent : (p : Platform) (user : Value) (w : World) → (store_user p user w).sent ≡ w.sent
unfolding store_user
store_user-sent p user w = ground arith

-- What a login does once the data of the reply was checked.
finish_login : Platform → Value → Result (Unit {0}) → M Value
finish_login p d checked = do
  _ ← lift checked
  _ ← effect (λ w. store_user p (prop (text "user") d) (store_tokens p (prop (text "tokens") d) w))
  return d

finish_login-sent :
    (p : Platform) (d : Value) (g : Result (Unit {0})) (v : World)
    → (finish_login p d g v).1.sent ≡ v.sent
unfolding finish_login ◌>>=◌
finish_login-sent p d (ok u) v =
    store_user-sent p (prop (text "user") d) (store_tokens p (prop (text "tokens") d) v)
    ∙ store_tokens-sent p (prop (text "tokens") d) v
finish_login-sent p d (throw f) v = refl

login-quiet :
    (p : Platform) (d : Result Value) (v : World)
    → ((lift d >>= λ x. finish_login p x (check_login x)) v).1.sent ≡ v.sent
unfolding ◌>>=◌
login-quiet p (ok x) v = finish_login-sent p x (check_login x) v
login-quiet p (throw f) v = refl

stored-quiet :
    (f : Value → World → World) (d : Result Value) (v : World)
    → ((x : Value) (w : World) → (f x w).sent ≡ w.sent)
    → ((lift d >>= λ x. effect (f x) >>= λ _. return x) v).1.sent ≡ v.sent
unfolding ◌>>=◌
stored-quiet f (ok x) v h = h x v
stored-quiet f (throw e) v h = refl

-- Every function on the session and on users either rejects its arguments with an ApiError of status
-- 400 and does nothing, or sends one request; and all that it throws are ApiErrors.
pub session_IsProper :
    (p : Platform) (w : World) (email password id token : Text) (n : ℕ) (r : RegisterPayload)
    (fields : Fields) (params : Value)
    → IsProper w (login p email password w)
      × IsProper w (register p n r w)
      × IsProper w (refresh p token w)
      × IsProper w (me p w)
      × IsProper w (update_me p fields w)
      × IsProper w (list_users p params w)
      × IsProper w (get_user p id w)
      × IsProper w (update_user p id fields w)
      × IsProper w (delete_user p id w)
unfolding login register refresh me update_me list_users get_user update_user delete_user
    finish_login
session_IsProper p w email password id token n r fields params = (
  checked-IsProper w _ _ (validate_required_fields-Check _ _)
      (request-IsProper w p _ _ _ (λ x v. login-quiet p (handle_envelope p x) v)),
  checked-IsProper w _ _ (validate_required_fields-Check _ _) (
      checked-IsProper w _ _ (validate_password-Check n r.password) (
        checked-IsProper w _ _ (validate_email-Check r.email)
          (request-IsProper w p _ _ _ (λ x v. refl)))),
  checked-IsProper w _ _ (validate_required_id-Check _ _) (
      request-IsProper w p _ _ _
        (λ x v. stored-quiet (store_tokens p) (handle_envelope p x) v (store_tokens-sent p))),
  request-IsProper w p _ _ _ (λ x v. refl),
  checked-IsProper w _ _ (validate_update_payload-Check fields) (
      request-IsProper w p _ _ _
        (λ x v. stored-quiet (store_user p) (handle_envelope p x) v (store_user-sent p))),
  request-IsProper w p _ _ _ (λ x v. refl),
  checked-IsProper w _ _ (validate_required_id-Check _ _)
      (request-IsProper w p _ _ _ (λ x v. refl)),
  checked-IsProper w _ _ (validate_required_id-Check _ _) (
      checked-IsProper w _ _ (validate_update_payload-Check fields)
        (request-IsProper w p _ _ _ (λ x v. refl))),
  checked-IsProper w _ _ (validate_required_id-Check _ _)
      (request-IsProper w p _ _ _ (λ x v. discard-quiet (handle_envelope p x) undefined v)),
)
