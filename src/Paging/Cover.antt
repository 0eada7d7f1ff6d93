-- ===== src/Paging/Cover.antt =====
-- The pages of a list, taken together, and the current page as it moves.
use wazire.Base.{
  ℕ, zero, suc, ◌+◌, ◌-◌, ◌*◌, ◌≤◌, ◌<◌, ◌≡◌, ◌∙◌, refl, sym, ap, List, [], ◌∷◌, ◌++◌, arith,
  length, take, drop,
}
use wazire.Paging.Slices.{
  page_size, total_pages, page_items, handle_page_change, handle_next_page, handle_prev_page,
}

module _ {ℓ} {A : Type ℓ} where
  -- So many pages from one on, one after the other.
  unfoldable pub pages_from : ℕ → ℕ → List A → List A
  pages_from first zero xs = []
  pages_from first (suc n) xs = page_items first xs ++ pages_from (suc first) n xs

  drop_nil : (n : ℕ) → drop {A = A} n [] ≡ []
  drop_nil zero = refl
  drop_nil (suc n) = refl

  take_nil : (n : ℕ) → take {A = A} n [] ≡ []
  take_nil zero = refl
  take_nil (suc n) = refl

  take-add : (a c : ℕ) (xs : List A) → take a xs ++ take c (drop a xs) ≡ take (a + c) xs
  take-add zero c xs = ap (λ k. take k xs) (omega arith)
  take-add (suc a) c [] = rw (take_nil c, take_nil (suc a + c)) refl
  take-add (suc a) c (x ∷ xs) =
      rw (take-add a c xs)
        (let next : suc (a + c) ≡ suc a + c = omega arith in ap (λ k. take k (x ∷ xs)) next)

  drop-add : (b a : ℕ) (xs : List A) → drop a (drop b xs) ≡ drop (b + a) xs
  drop-add zero a xs = ap (λ k. drop k xs) (omega arith)
  drop-add (suc b) a [] = drop_nil a ∙ sym (drop_nil (suc b + a))
  drop-add (suc b) a (x ∷ xs) =
      let next : suc (b + a) ≡ suc b + a = omega arith in
      drop-add b a xs ∙ ap (λ k. drop k (x ∷ xs)) next

  take_all : (n : ℕ) (xs : List A) → length xs ≤ n → take n xs ≡ xs
  take_all n [] h = take_nil n
  take_all zero (x ∷ xs) h = absurd (omega arith)
  take_all (suc n) (x ∷ xs) h = rw (take_all n xs (omega arith)) refl

  drop_all : (n : ℕ) (xs : List A) → length xs ≤ n → drop n xs ≡ []
  drop_all n [] h = drop_nil n
  drop_all zero (x ∷ xs) h = absurd (omega arith)
  drop_all (suc n) (x ∷ xs) h = drop_all n xs (omega arith)

  page_items-suc :
      (i : ℕ) (xs : List A) → page_items (suc i) xs ≡ take page_size (drop (i * page_size) xs)
  unfolding page_items
  page_items-suc i xs = ap (λ k. take page_size (drop (k * page_size) xs)) (omega arith)

  pages_from-take :
      (n i : ℕ) (xs : List A)
      → pages_from (suc i) n xs ≡ take (n * page_size) (drop (i * page_size) xs)
  unfolding pages_from
  pages_from-take zero i xs = refl
  pages_from-take (suc n) i xs =
      rw (page_items-suc i xs, pages_from-take n (suc i) xs)
        (ap (λ k. take page_size (drop (i * page_size) xs) ++ take (n * page_size) (drop k xs))
            (omega arith)
          ∙ ap (λ ys. take page_size (drop (i * page_size) xs) ++ take (n * page_size) ys)
              (sym (drop-add (i * page_size) page_size xs))
          ∙ take-add page_size (n * page_size) (drop (i * page_size) xs)
          ∙ ap (λ k. take k (drop (i * page_size) xs)) (omega arith))

  pages_are_whole :
      (xs : List A) (current_page : ℕ)
      → total_pages (length xs) < current_page
      → (pages_from 1 (total_pages (length xs)) xs ≡ xs) × (page_items current_page xs ≡ [])
  unfolding total_pages page_items
  pages_are_whole xs current_page past = (
    pages_from-take (total_pages (length xs)) 0 xs
        ∙ take_all (total_pages (length xs) * page_size) xs (ground arith),
    ap (take page_size) (drop_all ((current_page - 1) * page_size) xs (ground arith)),
  )

-- What the user does to the current page.
pub data Move : Type 0 where
  next_page prev_page : Move
  page_change : ℕ → Move

unfoldable pub move : ℕ → Move → ℕ → ℕ
unfolding handle_page_change handle_next_page handle_prev_page
move total_items next_page current_page = handle_next_page total_items current_page
move total_items prev_page current_page = handle_prev_page current_page
move total_items (page_change n) current_page = handle_page_change total_items n current_page

unfoldable pub moves : ℕ → List Move → ℕ → ℕ
moves total_items [] current_page = current_page
moves total_items (m ∷ ms) current_page = moves total_items ms (move total_items m current_page)

move_in_range :
    (total_items : ℕ) (m : Move) (c : ℕ)
    → 1 ≤ c
    → c ≤ total_pages total_items
    → (1 ≤ move total_items m c) × (move total_items m c ≤ total_pages total_items)
unfolding move
move_in_range t next_page c lo hi = ground arith
move_in_range t prev_page c lo hi = ground arith
move_in_range t (page_change n) c lo hi = ground arith

moves_in_range :
    (total_items : ℕ) (ms : List Move) (c : ℕ)
    → 1 ≤ c
    → c ≤ total_pages total_items
    → (1 ≤ moves total_items ms c) × (moves total_items ms c ≤ total_pages total_items)
unfolding moves
moves_in_range t [] c lo hi = (lo, hi)
moves_in_range t (m ∷ ms) c lo hi =
    let (lo', hi') = move_in_range t m c lo hi in moves_in_range t ms (move t m c) lo' hi'

-- The pages of a list from the first to the last, one after the other, are the whole list: no item
-- is missing, and none is shown twice. A page past the last one is empty. However the user turns the
-- pages, starting from one of them, the current page stays one of them.
pub pages_cover {ℓ} :
    {A : Type ℓ} (xs : List A) (ms : List Move) (current_page past : ℕ)
    → 1 ≤ current_page
    → current_page ≤ total_pages (length xs)
    → total_pages (length xs) < past
    → (pages_from 1 (total_pages (length xs)) xs ≡ xs)
      × (page_items past xs ≡ [])
      × (1 ≤ moves (length xs) ms current_page)
      × (moves (length xs) ms current_page ≤ total_pages (length xs))
pages_cover xs ms current_page past first last beyond =
    let (whole, empty) = pages_are_whole xs past beyond in
    let (low, high) = moves_in_range (length xs) ms current_page first last in
    (whole, empty, low, high)
