-- ===== src/Apis/Mine.antt =====
-- What `getMySubmission` of frontend/src/apis/submission.ts makes of a rejection.
use wazire.Base.{
  ℕ, ◌≤◌, ◌<◌, ◌≡◌, ◌≢◌, ◌⊎◌, inl, inr, refl, Bool, true, false, not, ◌&&◌, some, List, arith, ◌==◌,
  ==_iff,
}
use wazire.Base.Text.{Text, text, includes}
use wazire.Base.Decimal.{print}
use wazire.Base.Value.{Value, null}
use wazire.Http.Types.{
  ApiError, Request, AxiosError, api, Result, ok, throw, rejected, World, Platform, ◌>>=◌,
  catch_with,
}
use wazire.Http.Client.{send}
use wazire.Apis.Submission.{get_my_submission, mine_message}
use wazire.Apis.Status.{
  status_message, view_status, has_status, has_status_sound, holds_from, holds_from_sound,
}

-- A rejection with this status gives null for 404, and otherwise an ApiError.
abbrev Outcome : Result Value → ℕ → Type 0
Outcome r s =
    ((s ≡ 404) × (r ≡ ok null))
    ⊎ ((s ≢ 404) × ((err : ApiError) × (r ≡ throw (api err)) × (err.status ≡ some (view_status s))))

abbrev has_outcome : Result Value → ℕ → Bool
has_outcome (ok null) s = s == 404
has_outcome (ok v) s = false
has_outcome (throw (api e)) s = not (s == 404) && has_status e (view_status s)
has_outcome (throw f) s = false

has_outcome_sound : (r : Result Value) (s : ℕ) → has_outcome r s ≡ true → Outcome r s
has_outcome_sound (ok null) s h = inl ((==_iff s 404).0 h, refl)
has_outcome_sound (throw (api e)) s h =
    inr (ground (arith, ==_iff s 404), (e, refl, has_status_sound e (view_status s) (ground arith)))
has_outcome_sound (ok v) s h = cc
has_outcome_sound (throw f) s h = cc

outcome_table :
    (p : Platform) (w : World)
    → holds_from 400 200 (λ n. has_outcome (mine_message p (status_message n) w).0 n) ≡ true
unfolding holds_from includes text print
outcome_table p w = refl

mine_message-Outcome :
    (p : Platform) (w : World) (s : ℕ)
    → 400 ≤ s
    → s < 600
    → Outcome (mine_message p (status_message s) w).0 s
mine_message-Outcome p w s lo hi = has_outcome_sound (mine_message p (status_message s) w).0 s (
    holds_from_sound 400 200 (λ n. has_outcome (mine_message p (status_message n) w).0 n) s
      (outcome_table p w) lo (omega arith))

-- When the request for one's own submission is rejected with a status from 400 to 599 and the
-- message of axios for it, the result is null if the status is 404, and otherwise an ApiError is
-- thrown, of that status if it is 401 or 403, and of status 500 otherwise.
pub get_my_submission_rejected :
    (p : Platform) (w : World) (exam_id : Text) (s : ℕ) (e : AxiosError)
    → 400 ≤ s
    → s < 600
    → e.message ≡ status_message s
    → ((rs : List Request) (r : Request) → p.reply rs r ≡ rejected e)
    → ((s ≡ 404) × ((get_my_submission p exam_id w).0 ≡ ok null))
      ⊎ ((s ≢ 404)
          × ((err : ApiError) × ((get_my_submission p exam_id w).0 ≡ throw (api err))
              × (err.status ≡ some (view_status s))))
unfolding get_my_submission catch_with ◌>>=◌ send
get_my_submission_rejected p w exam_id s e lo hi m h =
    rw (h _ _, send) (rw m (mine_message-Outcome p _ s lo hi))
