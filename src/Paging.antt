-- ===== src/Paging.antt =====
-- Pages of a list: the window of page numbers of frontend/src/components/Pagination.tsx, and how
-- the pages that show lists choose what is on one.
pub mod Window
pub mod Slices
pub mod Cover
mod Tests
