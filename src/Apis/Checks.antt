-- ===== src/Apis/Checks.antt =====
-- The guards of frontend/src/apis/api-utils.ts in front of a request.
use wazire.Base.{
  ◌≡◌, refl, Bool, true, false, if◌then◌else◌, Bool-cases, inl, inr, ◌⊎◌, some, List, is_empty, ℕ,
}
use wazire.Base.Text.{Text}
use wazire.Base.Value.{Fields, keys}
use wazire.Http.Types.{World, ApiError, api_error, Result, M, ok, throw, api, lift, ◌>>◌, ◌>>=◌}
use wazire.Http.Utils.{
  missing_fields, validate_required_id, validate_required_fields, validate_update_payload,
  validate_password,
}
use wazire.Apis.Conduct.{IsProper}

-- A check passes, or throws an ApiError of status 400.
abbrev pub Check : Result (Unit {0}) → Type 0
Check x = (x ≡ ok tt) ⊎ ((e : ApiError) × (e.status ≡ some 400) × (x ≡ throw (api e)))

pub checked-IsProper :
    {A : Type 0} (w : World) (x : Result (Unit {0})) (m : M A)
    → Check x
    → IsProper w (m w)
    → IsProper w ((lift x >> m) w)
unfolding ◌>>◌ ◌>>=◌
checked-IsProper w (ok u) m c h = h
checked-IsProper w (throw f) m (inl e) h = cc
checked-IsProper w (throw f) m (inr (e, status, eq)) h = inl (refl, (e, status, cc))

pub ok_if-Check :
    (b : Bool) (message : Text) → Check (if b then ok tt else throw (api (api_error message 400)))
ok_if-Check true message = inl refl
ok_if-Check false message = inr (_, refl, refl)

pub throw_if-Check :
    (b : Bool) (message : Text) → Check (if b then throw (api (api_error message 400)) else ok tt)
throw_if-Check true message = inr (_, refl, refl)
throw_if-Check false message = inl refl

pub validate_required_id-Check : (id name : Text) → Check (validate_required_id id name)
unfolding validate_required_id
validate_required_id-Check id name = throw_if-Check (is_empty id) _

pub validate_required_fields-Check :
    (payload : Fields) (fs : List Text) → Check (validate_required_fields payload fs)
unfolding validate_required_fields
validate_required_fields-Check payload fs = ok_if-Check (is_empty (missing_fields payload fs)) _

pub validate_update_payload-Check : (payload : Fields) → Check (validate_update_payload payload)
unfolding validate_update_payload
validate_update_payload-Check payload = throw_if-Check (is_empty (keys payload)) _

pub validate_password-Check : (n : ℕ) (password : Text) → Check (validate_password n password)
unfolding validate_password
validate_password-Check n password = elim (Bool-cases (is_empty password)) [
  | inl e ↦ rw e (inr (_, refl, refl))
  | inr e ↦ rw e (throw_if-Check _ _)
]
