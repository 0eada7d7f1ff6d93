-- ===== src/TakeExam.antt =====
-- frontend/src/pages/TakeExam.tsx: taking an exam. `Answer` has the shapes of an answer, `Queue`
-- the queue of unsaved answers, `Steps` the events of the page and the server, `Timer` the
-- countdown, and `Loading` what `loadExam` makes of the replies; the other modules hold the proofs.
pub mod Answer
pub mod Queue
pub mod Steps
pub mod Effects
pub mod Invariant
pub mod Delivery
pub mod Drain
pub mod Submit
pub mod Grading
pub mod Timer
pub mod Countdown
pub mod Sheet
pub mod Screen
pub mod Entrance
pub mod Loading
pub mod Deadline
pub mod Ready
pub mod Starting
pub mod Moves
pub mod Emptied
mod Tests
mod ScreenTests
