-- ===== src/Session/Guards.antt =====
-- `validateEmail` of frontend/src/apis/api-utils.ts.
use wazire.Base.{ℕ, Bool, true, false, not, ◌&&◌, ◌||◌, [], ◌∷◌, ◌==◌, all, is_empty, if◌then◌else◌}
use wazire.Base.Text.{Text, text, is_space}
use wazire.Http.Types.{api_error, api, Result, ok, throw}

-- `[^\s@]`.
unfoldable pub is_plain : ℕ → Bool
unfolding is_space
is_plain c = not (is_space c) && not (c == b'@')

-- `[^\s@]+\.[^\s@]+$`, after a character of the first run or not.
unfoldable pub match_after : Bool → Text → Bool
unfolding is_plain
match_after started [] = false
match_after started (c ∷ s) =
    (started && ((c == b'.') && (not (is_empty s) && all is_plain s)))
    || (is_plain c && match_after true s)

-- `^[^\s@]+@[^\s@]+\.[^\s@]+$`, after a character of the first run or not.
unfoldable pub match_address : Bool → Text → Bool
unfolding is_plain match_after
match_address started [] = false
match_address started (c ∷ s) =
    (started && ((c == b'@') && match_after false s)) || (is_plain c && match_address true s)

unfoldable pub validate_email : Text → Result (Unit {0})
unfolding match_address
validate_email email =
    if is_empty email
    then throw (api (api_error (text "Email is required") 400))
    else if match_address false email
    then ok tt
    else throw (api (api_error (text "Please provide a valid email address") 400))
