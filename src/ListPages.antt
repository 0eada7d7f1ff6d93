-- ===== src/ListPages.antt =====
-- The pages that list exams, courses and the students of a course: frontend/src/pages/Exams.tsx,
-- frontend/src/pages/Courses.tsx and frontend/src/pages/CourseDetail.tsx.
pub mod Students
pub mod Exams
pub mod ExamsLook
pub mod Managed
pub mod Stuck
pub mod Enrollments
pub mod Stale
mod Tests
