-- ===== src/Apis.antt =====
-- The API modules of the frontend, frontend/src/apis.
pub mod Shared
pub mod Exam
pub mod ExamQuestion
pub mod Submission
pub mod Conduct
pub mod Checks
pub mod ExamConduct
pub mod Course
pub mod CourseConduct
pub mod Enrollment
pub mod EnrollmentConduct
pub mod Billing
pub mod BillingConduct
pub mod Plain
pub mod PlainConduct
pub mod PlainCalls
pub mod Status
pub mod Mine
