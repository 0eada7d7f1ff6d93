-- ===== src/Apis/Conduct.antt =====
-- How an API function behaves towards the server and its caller: either its guard rejects the
-- arguments, or it makes one request; and it throws nothing but ApiErrors.
use wazire.Base.{
  suc, ◌≡◌, ◌∙◌, refl, Bool, true, false, some, ◌∷◌, ◌⊎◌, inl, inr, length, ap, arith,
}
use wazire.Base.Text.{Text}
use wazire.Http.Types.{
  Request, Response, AxiosError, ApiError, Failure, api, Reply, arrived, rejected, World, Platform,
  Result, ok, throw, M, ◌>>=◌, bind_result, catch_result, catch_with, fail, lift, return,
  catch_with, catch_as, reject_if, ◌>>◌,
}
use wazire.Http.Client.{send, attach, on_error}

abbrev pub OnlyApiErrors : {A : Type 0} → Result A → Type 0
OnlyApiErrors (ok a) = Unit
OnlyApiErrors (throw (api e)) = Unit
OnlyApiErrors (throw _) = ⊥

-- From `w`, a call ends in this result and world: the guard threw an ApiError of status 400 and
-- nothing happened, or one request was sent and nothing but an ApiError was thrown.
abbrev pub IsProper : {A : Type 0} → World → Result A × World → Type 0
IsProper w (r, w') =
    ((w' ≡ w) × ((e : ApiError) × (e.status ≡ some 400) × (r ≡ throw (api e))))
    ⊎ ((length w'.sent ≡ suc (length w.sent)) × OnlyApiErrors r)

on_error-sent :
    (p : Platform) (e : AxiosError) (r : Request) (w : World) → (on_error p e r w).sent ≡ w.sent
unfolding on_error
on_error-sent p e r w = ground arith

Reply-cases :
    (x : Reply) → ((resp : Response) × (x ≡ arrived resp)) ⊎ ((e : AxiosError) × (x ≡ rejected e))
Reply-cases (arrived resp) = inl (resp, refl)
Reply-cases (rejected e) = inr (e, refl)

-- A call of axios sends one request.
pub send-sent :
    (p : Platform) (r : Request) (w : World) → length (send p r w).1.sent ≡ suc (length w.sent)
unfolding send
send-sent p r w = elim (Reply-cases (p.reply w.sent (attach p w r))) [
  | inl (resp, eq) ↦ rw (eq, send) refl
  | inr (e, eq) ↦
      rw (eq, send)
        (ap length (on_error-sent p e (attach p w r) (record w { sent = attach p w r ∷ w.sent })))
]

module _ {A : Type 0} (w : World) where
  caught-IsProper :
      (h : Failure → ApiError) (x : Result A) (w' : World)
      → length w'.sent ≡ suc (length w.sent)
      → IsProper w (catch_result (x, w') (λ f. fail (api (h f))))
  caught-IsProper h (ok a) w' n = inr (n, tt)
  caught-IsProper h (throw f) w' n = inr (n, tt)

  replied-IsProper :
      (k : Response → M A) (h : Failure → ApiError) (x : Result Response) (w' : World)
      → ((resp : Response) (v : World) → (k resp v).1.sent ≡ v.sent)
      → length w'.sent ≡ suc (length w.sent)
      → IsProper w (catch_result (bind_result (x, w') k) (λ f. fail (api (h f))))
  replied-IsProper k h (ok resp) w' quiet n =
      caught-IsProper h (k resp w').0 (k resp w').1 (ap length (quiet resp w') ∙ n)
  replied-IsProper k h (throw f) w' quiet n = inr (n, tt)

  -- A request whose reply is handled without another one, under a `catch` clause that throws an
  -- ApiError.
  pub request-IsProper :
      (p : Platform) (r : Request) (k : Response → M A) (h : Failure → ApiError)
      → ((resp : Response) (w' : World) → (k resp w').1.sent ≡ w'.sent)
      → IsProper w (catch_as (send p r >>= k) h w)
  unfolding catch_as ◌>>=◌
  request-IsProper p r k h quiet =
      replied-IsProper k h (send p r w).0 (send p r w).1 quiet (send-sent p r w)

  caught_with-IsProper :
      (k : Response → M A) (g : Failure → M A) (x : Result Response) (w' : World)
      → ((resp : Response) (v : World) → (k resp v).1.sent ≡ v.sent)
      → ((f : Failure) (v : World) → ((g f v).1 ≡ v) × OnlyApiErrors (g f v).0)
      → length w'.sent ≡ suc (length w.sent)
      → IsProper w (catch_result (bind_result (x, w') k) g)
  caught_with-IsProper k g (throw f) w' quiet calm n = inr (rw ((calm f w').0) n, (calm f w').1)
  caught_with-IsProper k g (ok resp) w' quiet calm n =
      go (k resp w').0 (k resp w').1 (ap length (quiet resp w') ∙ n)
    where
      go :
          (x : Result A) (v : World)
          → length v.sent ≡ suc (length w.sent)
          → IsProper w (catch_result (x, v) g)
      go (ok a) v m = inr (m, tt)
      go (throw f) v m = inr (rw ((calm f v).0) m, (calm f v).1)

  -- The same under a `catch` clause that may give a result, and sends nothing.
  pub request_with-IsProper :
      (p : Platform) (r : Request) (k : Response → M A) (g : Failure → M A)
      → ((resp : Response) (w' : World) → (k resp w').1.sent ≡ w'.sent)
      → ((f : Failure) (v : World) → ((g f v).1 ≡ v) × OnlyApiErrors (g f v).0)
      → IsProper w (catch_with (send p r >>= k) g w)
  unfolding catch_with ◌>>=◌
  request_with-IsProper p r k g quiet calm =
      caught_with-IsProper k g (send p r w).0 (send p r w).1 quiet calm (send-sent p r w)

  -- A guard in front of a call.
  pub guard-IsProper :
      (b : Bool) (message : Text) (m : M A)
      → IsProper w (m w)
      → IsProper w ((reject_if b message >> m) w)
  unfolding reject_if ◌>>◌
  guard-IsProper true message m h = inl (refl, (_, refl, refl))
  guard-IsProper false message m h = h

-- Dropping a result leaves the world alone.
pub discard-quiet :
    {A B : Type 0} (x : Result A) (b : B) (v : World)
    → (◌>>=◌ (lift x) (λ _. return b) v).1.sent ≡ v.sent
unfolding ◌>>=◌
discard-quiet (ok a) b v = refl
discard-quiet (throw f) b v = refl
