-- ===== src/Paging/Slices.antt =====
-- The pages of the list of questions in frontend/src/pages/ExamQuestions.tsx, which the browser
-- cuts itself: `totalPages`, `paginatedQuestions`, and the handlers that move the current page.
use wazire.Base.{
  ℕ, suc, ◌+◌, ◌-◌, ◌*◌, ◌/◌, Bool, List, ◌&&◌, leb, ltb, ◌==◌, if◌then◌else◌, take, drop,
}

abbrev pub page_size : ℕ
page_size = 10

-- `Math.ceil(totalItems / pageSize) || 1`.
unfoldable pub total_pages : ℕ → ℕ
total_pages total_items = let pages = (total_items + 9) / 10 in if pages == 0 then 1 else pages

-- `slice((currentPage - 1) * pageSize, startIndex + pageSize)`, for a current page from 1 on.
unfoldable pub page_items {ℓ} : {A : Type ℓ} → ℕ → List A → List A
page_items current_page xs = take page_size (drop ((current_page - 1) * page_size) xs)

abbrev pub has_next : ℕ → ℕ → Bool
has_next total_items current_page = ltb current_page (total_pages total_items)

abbrev pub has_prev : ℕ → Bool
has_prev current_page = ltb 1 current_page

-- `handlePageChange`, `handleNextPage` and `handlePrevPage`.
unfoldable pub handle_page_change : ℕ → ℕ → ℕ → ℕ
unfolding total_pages
handle_page_change total_items new_page current_page =
    if leb 1 new_page && leb new_page (total_pages total_items) then new_page else current_page

unfoldable pub handle_next_page : ℕ → ℕ → ℕ
unfolding total_pages
handle_next_page total_items current_page =
    if has_next total_items current_page then suc current_page else current_page

unfoldable pub handle_prev_page : ℕ → ℕ
handle_prev_page current_page = if has_prev current_page then current_page - 1 else current_page
