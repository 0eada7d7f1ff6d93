-- ===== src/Paging/Window.antt =====
-- `getVisiblePages` of frontend/src/components/Pagination.tsx.
use wazire.Base.{
  ℕ, zero, suc, ◌+◌, ◌-◌, ◌≤◌, ◌<◌, ◌≡◌, refl, List, [], ◌∷◌, leb, ltb, min, max, if◌then◌else◌,
  arith, true, false, dec_le, Bool-cases, ◌⊎◌, inl, inr,
}

-- `for (let i = first; …; i++) pages.push(i)`, for so many rounds.
unfoldable pub count_from : ℕ → ℕ → List ℕ
count_from first zero = []
count_from first (suc n) = first ∷ count_from (suc first) n

-- The numbers from `first` to `last`, none where `last` is below `first`.
abbrev pub between : ℕ → ℕ → List ℕ
between first last = count_from first (suc last - first)

abbrev pub max_visible : ℕ
max_visible = 5

-- The window that starts at `start`, moved back where it exceeds the last page.
abbrev pub window : ℕ → ℕ → List ℕ
window total_pages start =
    if ltb total_pages (start + max_visible - 1)
    then between (max 1 (total_pages + 1 - max_visible)) total_pages
    else between start (start + max_visible - 1)

unfoldable pub get_visible_pages : ℕ → ℕ → List ℕ
get_visible_pages total_pages current_page =
    if leb total_pages max_visible
    then between 1 total_pages
    else window total_pages (max 1 (current_page - 2))

-- The first number of the window, written without the code.
abbrev pub first_visible : ℕ → ℕ → ℕ
first_visible total_pages current_page = max 1 (min (current_page - 2) (total_pages - 4))

count_from_cong : (a b n m : ℕ) → a ≡ b → n ≡ m → count_from a n ≡ count_from b m
count_from_cong a b n m e f = rw (e, f) refl

window_numbers :
    (t c : ℕ) → get_visible_pages t c ≡ count_from (first_visible t c) (min max_visible t)
unfolding get_visible_pages
window_numbers t c = elim (dec_le t 5) [
  | yes few ↦
      let small : leb t 5 ≡ true = ground arith in
      rw small (count_from_cong _ _ _ _ (omega arith) (omega arith))
  | no many ↦
      let large : leb t 5 ≡ false = ground arith in
      elim (Bool-cases (ltb t (max 1 (c - 2) + 5 - 1))) [
        | inl over ↦ rw (large, over) (count_from_cong _ _ _ _ (ground arith) (ground arith))
        | inr fits ↦ rw (large, fits) (count_from_cong _ _ _ _ (ground arith) (ground arith))
      ]
]

-- Whatever the current page is, the numbers shown are five consecutive ones, or all where there are
-- no more than five; they start at a page that is there and end at one; and if the current page is
-- one of the pages, it is among them.
pub get_visible_pages_lem :
    (total_pages current_page : ℕ)
    → let first = first_visible total_pages current_page in
      (get_visible_pages total_pages current_page ≡ count_from first (min max_visible total_pages))
      × (1 ≤ first)
      × (first + min max_visible total_pages ≤ total_pages + 1)
      × ((current_page < 1)
          ⊎ (total_pages < current_page)
          ⊎ ((first ≤ current_page) × (current_page < first + min max_visible total_pages)))
get_visible_pages_lem t c = (window_numbers t c, omega arith, omega arith, ground arith)
