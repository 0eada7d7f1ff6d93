-- ===== src/TakeExam/Timer.antt =====
-- The countdown of frontend/src/pages/TakeExam.tsx: the part of `loadExam` that sets it, and the
-- effect that counts down once a second. Times are milliseconds since the epoch, and the duration
-- of an exam is a whole number of hours and minutes.
use wazire.Base.{
  ℕ, suc, ◌+◌, ◌-◌, ◌*◌, ◌/◌, Bool, true, false, ◌&&◌, Option, none, some, List, [], ◌∷◌, leb, ltb,
  ◌==◌, if◌then◌else◌,
}

pub record Timer : Type 0 where
  pub deadline : Option ℕ  -- deadlineRef.current
  pub time_remaining : ℕ
  pub total_duration : ℕ

pub record ExamTimes : Type 0 where
  pub duration_hours : ℕ
  pub duration_minutes : ℕ
  pub end_time : Option ℕ

-- `Math.max(0, Math.round((deadline - now) / 1000))`: half a second is rounded up.
unfoldable pub seconds_until : ℕ → ℕ → ℕ
seconds_until deadline now = (deadline + 500 - now) / 1000

-- `Math.max(0, total - Math.round((now - start) / 1000))`, also for a start that lies ahead.
unfoldable pub seconds_left : ℕ → ℕ → ℕ → ℕ
seconds_left total start now =
    if leb start now then total - (now - start + 500) / 1000 else total + (start - now + 499) / 1000

unfoldable pub total_seconds : ExamTimes → ℕ
total_seconds e = e.duration_hours * 3600 + e.duration_minutes * 60

-- The start of the countdown where there is a total: the end time of the exam first, then the
-- start of the submission.
abbrev start_with : Option ℕ → Option ℕ → ℕ → ℕ → Timer → Timer
start_with (some end) created total now t = record t {
  deadline = some end;
  time_remaining = seconds_until end now;
}
start_with none (some start) total now t = record t {
  deadline = some (start + total * 1000);
  time_remaining = seconds_left total start now;
}
start_with none none total now t = record t { deadline = none; time_remaining = total }

unfoldable pub load_timer : ExamTimes → Option ℕ → ℕ → Timer → Timer
unfolding seconds_until seconds_left total_seconds
load_timer e created now t =
    let total = total_seconds e in
    let t' = record t { total_duration = total } in
    if ltb 0 total then start_with e.end_time created total now t' else t'

unfoldable pub next_remaining : Option ℕ → ℕ → ℕ → ℕ
unfolding seconds_until
next_remaining none remaining now = remaining - 1
next_remaining (some deadline) remaining now = seconds_until deadline now

-- One tick of the interval, with whether it submits the exam. No interval runs before the exam is
-- started or when no time remains.
unfoldable pub tick : Bool → ℕ → Timer → Timer × Bool
unfolding next_remaining
tick exam_started now t =
    if exam_started && ltb 0 t.time_remaining
    then (
      record t { time_remaining = next_remaining t.deadline t.time_remaining now },
      next_remaining t.deadline t.time_remaining now == 0,
    )
    else (t, false)

abbrev pub count_submit : Bool → ℕ → ℕ
count_submit true n = suc n
count_submit false n = n

-- The ticks of a started exam at the given times, with the number of submissions.
unfoldable pub run_ticks : List ℕ → Timer → ℕ
run_ticks [] t = 0
run_ticks (now ∷ nows) t = count_submit (tick true now t).1 (run_ticks nows (tick true now t).0)
