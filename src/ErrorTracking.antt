-- ===== src/ErrorTracking.antt =====
-- The error store of frontend/src/utils/errorTracking.ts. The console output and the time stamps
-- are left out; an entry is the error with its context.
use wazire.Base.{
  ℕ, ◌-◌, ◌<◌, Bool, true, false, List, [], ◌∷◌, ◌++◌, length, drop, ltb, ◌==◌, if◌then◌else◌,
}
pub mod History
mod Tests

abbrev pub max_errors : ℕ
max_errors = 100

module _ {ℓ} {A : Type ℓ} where
  -- `this.errors.shift()`.
  abbrev pub shift : List A → List A
  shift [] = []
  shift (_ ∷ xs) = xs

  -- `track`: the entry is pushed at the end, and the first one is dropped if there are too many.
  unfoldable pub track : A → List A → List A
  track x errors =
      let pushed = errors ++ x ∷ [] in
      if ltb max_errors (length pushed) then shift pushed else pushed

  -- `getRecentErrors`, that is `errors.slice(-count)`: `slice` from the end, but from the start at 0.
  unfoldable pub get_recent_errors : ℕ → List A → List A
  get_recent_errors count errors =
      if count == 0 then errors else drop (length errors - count) errors

  unfoldable pub clear_errors : List A → List A
  clear_errors errors = []
