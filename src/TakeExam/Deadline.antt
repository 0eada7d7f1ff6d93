-- ===== src/TakeExam/Deadline.antt =====
-- The countdown of an exam as the page loads it, by the replies of the server.
use wazire.Base.{
  ℕ, ◌+◌, ◌*◌, ◌<◌, ◌≡◌, ◌≢◌, refl, Bool, false, ◌&&◌, Option, none, some, List, is_empty, leb, ltb,
  length, if◌then◌else◌, arith,
}
use wazire.Base.Text.{Text}
use wazire.TakeExam.Answer.{Answer}
use wazire.TakeExam.Timer.{Timer, ExamTimes, load_timer, run_ticks, total_seconds}
use wazire.TakeExam.Countdown.{reaches, countdown_submits}
use wazire.TakeExam.Sheet.{Question}
use wazire.TakeExam.Entrance.{Exam, Submission}
use wazire.TakeExam.Loading.{Reply, ok, Visit, found, times_of, created, load}

-- The seconds that an exam takes.
abbrev pub duration : Exam → ℕ
duration e = e.duration_hours * 3600 + e.duration_minutes * 60

-- When the exam has to end: at its end time, or its duration after the start of the submission.
abbrev pub end_from : Option ℕ → Option ℕ → ℕ → Option ℕ
end_from (some end) start total = some end
end_from none (some start) total = some (start + total * 1000)
end_from none none total = none

abbrev pub deadline_of : Exam → Option Submission → Option ℕ
deadline_of e s = end_from e.end_time (created s) (duration e)

-- Whether a page that is loaded at `now` submits the exam when it ticks at the times that follow.
abbrev pub expires : Option ℕ → ℕ → ℕ → List ℕ → Bool
expires none total now nows = leb total (length nows)
expires (some d) total now nows = ltb (now + 500) d && reaches d nows

timer_submits :
    (end start : Option ℕ) (e : ExamTimes) (now : ℕ) (t : Timer) (nows : List ℕ)
    → e.end_time ≡ end
    → 0 < total_seconds e
    → end_from end start (total_seconds e) ≢ some (now + 500)
    → run_ticks nows (load_timer e start now t)
      ≡ (if expires (end_from end start (total_seconds e)) (total_seconds e) now nows then 1 else 0)
unfolding load_timer
timer_submits (some d) start e now t nows h pos apart =
    ground (arith, countdown_submits nows (load_timer e start now t))
timer_submits none (some s) e now t nows h pos apart =
    ground (arith, countdown_submits nows (load_timer e (some s) now t))
timer_submits none none e now t nows h pos apart =
    ground (arith, countdown_submits nows (load_timer e none now t))

timer-load :
    (e : Option Exam) (qs : List Question) (submission : Reply (Option Submission))
    (saved : Reply (List (Text × Answer))) (now : ℕ) (v : Visit)
    → is_empty v.door.id ≡ false
    → (load (ok (e, qs)) submission saved now v).timer
      ≡ load_timer (times_of e) (created (found submission)) now v.timer
unfolding load
timer-load e qs submission saved now v has_id = ground arith

-- An exam with a duration is loaded on the page that takes it, which has an identifier, at any time
-- and with any replies to the requests for the submission and the saved answers, and its deadline, if
-- there is one, is not just half a second ahead. The deadline is the end time of the exam or, if it
-- has none, its duration after the start of the submission, if that was found. Then, with a deadline,
-- the countdown submits the exam once if the deadline was more than half a second ahead and a tick is
-- later than half a second before it, and otherwise not at all; without one, it submits once if it
-- ticks at least as many times as the exam has seconds, and otherwise not at all.
pub exam_ends_at_deadline :
    (e : Exam) (qs : List Question) (submission : Reply (Option Submission))
    (saved : Reply (List (Text × Answer))) (now : ℕ) (v : Visit) (nows : List ℕ)
    → is_empty v.door.id ≡ false
    → 0 < duration e
    → deadline_of e (found submission) ≢ some (now + 500)
    → run_ticks nows (load (ok (some e, qs)) submission saved now v).timer
      ≡ (if expires (deadline_of e (found submission)) (duration e) now nows then 1 else 0)
unfolding total_seconds
exam_ends_at_deadline e qs submission saved now v nows has_id pos apart =
    rw (timer-load (some e) qs submission saved now v has_id) (
      timer_submits e.end_time (created (found submission)) (times_of (some e)) now v.timer nows
        refl pos apart)
