-- ===== src/Questions.antt =====
-- frontend/src/pages/ExamQuestions.tsx: the questions of an exam. `Form` has the form of a question
-- and what is sent of it, `Page` the state of the page with its handlers, `View` what is listed,
-- `Screen` and `Look` what the page shows and what can be done there.
pub mod Form
pub mod Numbers
pub mod RoundTrip
pub mod Types
pub mod View
pub mod Page
pub mod Life
pub mod Previews
pub mod Uploads
pub mod Screen
pub mod Dialogs
pub mod Look
pub mod Viewers
pub mod Rights
mod Tests
mod ScreenTests
