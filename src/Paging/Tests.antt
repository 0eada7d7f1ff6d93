-- ===== src/Paging/Tests.antt =====
-- The theorems on pages at a list of eleven items.
use wazire.Base.{ℕ, ◌≡◌, ◌+◌, ◌≤◌, ◌<◌, ◌⊎◌, refl, List, [], ◌∷◌, length, arith, min}
use wazire.Paging.Window.{
  get_visible_pages, get_visible_pages_lem, first_visible, count_from, max_visible,
}
use wazire.Paging.Slices.{total_pages, page_items}
use wazire.Paging.Cover.{pages_from, pages_cover, next_page, prev_page, page_change, moves}

abbrev items : List ℕ
items = count_from 1 11

get_visible_pages_lem_example :
    (get_visible_pages 9 7 ≡ count_from (first_visible 9 7) (min max_visible 9))
    × (1 ≤ first_visible 9 7)
    × (first_visible 9 7 + min max_visible 9 ≤ 9 + 1)
    × ((7 < 1) ⊎ (9 < 7) ⊎ ((first_visible 9 7 ≤ 7) × (7 < first_visible 9 7 + min max_visible 9)))
get_visible_pages_lem_example = get_visible_pages_lem 9 7

two_pages : total_pages (length items) ≡ 2
unfolding total_pages count_from
two_pages = refl

pages_cover_example :
    (pages_from 1 (total_pages (length items)) items ≡ items)
    × (page_items 3 items ≡ [])
    × (1 ≤ moves (length items) (next_page ∷ next_page ∷ prev_page ∷ page_change 7 ∷ []) 1)
    × (moves (length items) (next_page ∷ next_page ∷ prev_page ∷ page_change 7 ∷ []) 1
        ≤ total_pages (length items))
pages_cover_example =
    pages_cover items (next_page ∷ next_page ∷ prev_page ∷ page_change 7 ∷ []) 1 3 (omega arith)
      (omega (arith, two_pages)) (omega (arith, two_pages))
