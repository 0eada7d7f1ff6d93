-- ===== src/ErrorTracking/Tests.antt =====
-- The error store on errors that are numbers.
use wazire.Base.{ℕ, ◌≡◌, refl, List, [], ◌∷◌, arith}
use wazire.ErrorTracking.{track, clear_errors, get_recent_errors, max_errors}
use wazire.ErrorTracking.History.{track_all, last, get_recent_errors-track_all}

abbrev log : List ℕ
log = 7 ∷ 8 ∷ 9 ∷ []

get_recent_errors-track_all_example :
    (track_all log [] ≡ last max_errors log) × (get_recent_errors 2 (track_all log []) ≡ last 2 log)
get_recent_errors-track_all_example = get_recent_errors-track_all log 2 (omega arith) (omega arith)

-- Asked for no error at all, the store gives every error that it holds.
all_for_zero : get_recent_errors 0 log ≡ log
unfolding get_recent_errors
all_for_zero = refl

cleared : get_recent_errors 10 (track 4 (clear_errors log)) ≡ 4 ∷ []
unfolding get_recent_errors track clear_errors
cleared = refl
