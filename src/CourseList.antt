-- ===== src/CourseList.antt =====
-- The page that lists courses: frontend/src/pages/Courses.tsx.
pub mod Page
pub mod Look
pub mod Deletion
pub mod Lecturer
mod Tests
