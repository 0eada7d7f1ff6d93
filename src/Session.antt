-- ===== src/Session.antt =====
-- The session: the functions of frontend/src/apis/auth.ts, the context of
-- frontend/src/contexts/AuthContext.tsx, the login page and the routes of frontend/src/App.tsx.
pub mod Guards
pub mod Auth
pub mod AuthConduct
pub mod Call
pub mod Calls
pub mod Stored
pub mod Context
pub mod Restore
pub mod LoginPage
pub mod Rejected
pub mod Routes
pub mod Navigation
mod Tests
