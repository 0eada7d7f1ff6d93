-- ===== src/Display.antt =====
-- The times and durations that the pages show: `formatTime` of frontend/src/pages/TakeExam.tsx and
-- frontend/src/utils/formatDuration.ts.
pub mod FormatTime
pub mod Duration
pub mod Offset
mod Tests
