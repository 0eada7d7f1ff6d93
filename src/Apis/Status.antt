-- ===== src/Apis/Status.antt =====
-- The status of the ApiError that an API function throws when the server rejects its request.
use wazire.Base.{
  dec_le, ℕ, zero, suc, ◌+◌, ◌≤◌, ◌<◌, ◌≡◌, ◌≢◌, refl, subst, Bool, true, false, ◌&&◌, ◌||◌, none,
  some, List, [], ◌∷◌, ◌++◌, arith, ◌==◌, if◌then◌else◌, any,
}
use wazire.Base.Text.{Text, text, includes, to_lower}
use wazire.Base.Decimal.{print}
use wazire.Http.Types.{
  ApiError, api_error, first_rule, Request, AxiosError, api, axios, plain, reject_if, ◌>>◌, ◌>>=◌,
  catch_as, rejected, World, Platform, throw,
}
use wazire.Http.Client.{send}
use wazire.Http.Utils.{handle_api_error}
use wazire.Apis.Shared.{on_401, on_403, on_404}
use wazire.Apis.Exam.{get_exam}

-- The message that axios gives to a rejection with a status.
abbrev pub status_message : ℕ → Text
status_message s = text "Request failed with status code " ++ print s

abbrev pub has_status : ApiError → ℕ → Bool
has_status e n = elim e.status [ none ↦ false | some s ↦ s == n ]

-- A test of `count` numbers, from `first` on.
unfoldable pub holds_from : (first count : ℕ) → (ℕ → Bool) → Bool
holds_from first zero test = true
holds_from first (suc count) test = test first && holds_from (suc first) count test

pub holds_from_sound :
    (first count : ℕ) (test : ℕ → Bool) (s : ℕ)
    → holds_from first count test ≡ true
    → first ≤ s
    → s < first + count
    → test s ≡ true
unfolding holds_from
holds_from_sound first zero test s h lo hi = absurd (omega arith)
holds_from_sound first (suc count) test s h lo hi = elim (dec_le (suc first) s) [
  | yes later ↦ holds_from_sound (suc first) count test s (ground arith) later (omega arith)
  | no now ↦ let here : first ≡ s = omega arith in subst (λ n. test n ≡ true) here (ground arith)
]

-- The statuses that the tests of `getExam` tell apart.
abbrev pub view_status : ℕ → ℕ
view_status s = if (s == 401) || ((s == 403) || (s == 404)) then s else 500

view_table :
    (a b c d : Text)
    → holds_from 400 200 (λ n.
      has_status
        (first_rule (on_401 a ∷ on_403 b ∷ on_404 c ∷ []) (api_error d 500) (status_message n))
        (view_status n))
      ≡ true
unfolding holds_from includes text print
view_table a b c d = refl

pub has_status_sound : (e : ApiError) (n : ℕ) → has_status e n ≡ true → e.status ≡ some n
has_status_sound e n h = ground arith

-- A table from 400 on, at a status.
from_table :
    (f : ℕ → ApiError) (g : ℕ → ℕ) (s : ℕ)
    → holds_from 400 200 (λ n. has_status (f n) (g n)) ≡ true
    → 400 ≤ s
    → s < 600
    → (f s).status ≡ some (g s)
from_table f g s table lo hi =
    has_status_sound (f s) (g s)
      (holds_from_sound 400 200 (λ n. has_status (f n) (g n)) s table lo (omega arith))

view_first_rule :
    (a b c d : Text) (s : ℕ)
    → 400 ≤ s
    → s < 600
    → (first_rule (on_401 a ∷ on_403 b ∷ on_404 c ∷ []) (api_error d 500) (status_message s)).status
      ≡ some (view_status s)
view_first_rule a b c d s lo hi =
    from_table
      (λ n. first_rule (on_401 a ∷ on_403 b ∷ on_404 c ∷ []) (api_error d 500) (status_message n))
      view_status s (view_table a b c d) lo hi

-- A reader of an exam, asked for by an identifier that is not empty, whose request is rejected
-- with a status from 400 to 599 and the message of axios for it, gets an ApiError of that status
-- if it is 401, 403 or 404, and of status 500 otherwise.
pub get_exam_failure_status :
    (p : Platform) (w : World) (id : Text) (s : ℕ) (e : AxiosError)
    → id ≢ []
    → 400 ≤ s
    → s < 600
    → e.message ≡ status_message s
    → ((rs : List Request) (r : Request) → p.reply rs r ≡ rejected e)
    → (err : ApiError) × ((get_exam p id w).0 ≡ throw (api err))
      × (err.status ≡ some (view_status s))
unfolding get_exam reject_if ◌>>◌ ◌>>=◌ catch_as send
get_exam_failure_status p w [] s e n lo hi m h = absurd (n refl)
get_exam_failure_status p w (c ∷ id) s e n lo hi m h =
    rw (h _ _, send)
      (rw m (
        _,
        refl,
        view_first_rule (text "Authentication required to view exam")
            (text "Access denied to view this exam") (text "Exam not found")
            (text "Failed to fetch exam") s lo hi,
      ))

unfoldable pub common_status : ℕ → ℕ
common_status s = if any (λ k. k == s) (400 ∷ 401 ∷ 403 ∷ 404 ∷ 409 ∷ 429 ∷ []) then s else 500

common_table :
    (context : Text)
    → holds_from 400 200
        (λ n. has_status (handle_api_error context (plain (status_message n))) (common_status n))
      ≡ true
unfolding holds_from includes text print to_lower common_status handle_api_error
common_table context = refl

-- The common error handler turns a rejection with a status from 400 to 599 and the message of
-- axios for it into an ApiError of that status if it is one of 400, 401, 403, 404, 409 and 429,
-- and of status 500 otherwise, in any context.
pub handle_api_error_status :
    (context : Text) (s : ℕ) (e : AxiosError)
    → 400 ≤ s
    → s < 600
    → e.message ≡ status_message s
    → (handle_api_error context (axios e)).status ≡ some (common_status s)
unfolding handle_api_error
handle_api_error_status context s e lo hi m = rw m (
    from_table (λ n. handle_api_error context (plain (status_message n))) common_status s
      (common_table context) lo hi)
