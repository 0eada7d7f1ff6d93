-- ===== src/CoursePage.antt =====
-- The page of a course: frontend/src/pages/CourseDetail.tsx. The pages and filters of its list of
-- students are in ListPages/Enrollments.
pub mod Types
pub mod Page
pub mod Steps
pub mod Look
pub mod Dialogs
pub mod View
pub mod Controls
pub mod Rights
pub mod Year
mod Tests
