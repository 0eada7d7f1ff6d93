-- ===== src/Ui.antt =====
-- What a page shows and what can be done there, with the shared components of frontend/src/components
-- that the pages build it from.
pub mod Element
pub mod Parts
