-- ===== src/Apis/PlainConduct.antt =====
-- The API modules that catch nothing, towards the server.
use wazire.Base.{suc, ◌≡◌, ◌∙◌, ap, length, refl}
use wazire.Http.Types.{Platform, World, Request, Response, Result, ok, throw, M, ◌>>=◌, bind_result}
use wazire.Http.Client.{send}
use wazire.Apis.Conduct.{send-sent}

-- From `w`, a call sent exactly one request; if that was rejected, it throws what axios threw.
abbrev pub SendsOnce : {A : Type 0} → Result Response × World → World → Result A × World → Type 0
SendsOnce (ok resp, v) w (r, w') = length w'.sent ≡ suc (length w.sent)
SendsOnce (throw f, v) w (r, w') = (length w'.sent ≡ suc (length w.sent)) × (r ≡ throw f)

module _ {A : Type 0} (w : World) (k : Response → M A)
    (quiet : (resp : Response) (v : World) → (k resp v).1.sent ≡ v.sent) where
  read-SendsOnce :
      (x : Result Response) (v : World)
      → length v.sent ≡ suc (length w.sent)
      → SendsOnce (x, v) w (bind_result (x, v) k)
  read-SendsOnce (ok resp) v n = ap length (quiet resp v) ∙ n
  read-SendsOnce (throw f) v n = (n, refl)

  pub plain-SendsOnce : (p : Platform) (r : Request) → SendsOnce (send p r w) w ((send p r >>= k) w)
  unfolding ◌>>=◌
  plain-SendsOnce p r = read-SendsOnce (send p r w).0 (send p r w).1 (send-sent p r w)
