-- ===== src/Users.antt =====
-- The page on which an admin manages users: frontend/src/pages/UserManagement.tsx.
pub mod Page
pub mod Look
pub mod Own
pub mod Removal
mod Tests
