-- ===== src/TakeExam/Countdown.antt =====
-- When the countdown of the exam page submits the exam.
use wazire.Base.{
  ℕ, ◌+◌, ◌-◌, ◌*◌, ◌≤◌, ◌<◌, ◌≡◌, ◌⊎◌, refl, Bool, true, false, ◌&&◌, ◌||◌, Option, none, some,
  List, [], ◌∷◌, leb, ltb, if◌then◌else◌, arith, length,
}
use wazire.TakeExam.Timer.{Timer, ExamTimes, load_timer, tick, run_ticks, total_seconds}

-- With a deadline and time remaining, a tick either submits the exam, with the deadline less than
-- half a second ahead or past and no time left, or it does not, with the deadline at least half a
-- second ahead and the seconds shown within half a second of the true time.
pub tick_at_deadline :
    (t : Timer) (d now : ℕ)
    → t.deadline ≡ some d
    → 0 < t.time_remaining
    → let (t', submits) = tick true now t in
      ((submits ≡ true) × (d < now + 500) × (t'.time_remaining ≡ 0))
      ⊎ ((submits ≡ false)
          × (now + 500 ≤ d)
          × (t'.time_remaining * 1000 ≤ d + 500 - now)
          × (d < now + t'.time_remaining * 1000 + 500))
unfolding tick
tick_at_deadline t d now h pos = ground arith

run_ticks_done : (nows : List ℕ) (t : Timer) → t.time_remaining ≡ 0 → run_ticks nows t ≡ 0
unfolding run_ticks tick
run_ticks_done [] t h = refl
run_ticks_done (now ∷ nows) t h = ground (arith, run_ticks_done nows t h)

run_ticks_undated :
    (nows : List ℕ) (t : Timer)
    → t.deadline ≡ none
    → 0 < t.time_remaining
    → run_ticks nows t ≡ (if leb t.time_remaining (length nows) then 1 else 0)
unfolding run_ticks tick
run_ticks_undated [] t h pos = ground arith
run_ticks_undated (now ∷ nows) t h pos =
    ground
      (arith, run_ticks_done nows (tick true now t).0, run_ticks_undated nows (tick true now t).0)

-- Whether one of the times is later than half a second before the deadline.
abbrev pub reaches : ℕ → List ℕ → Bool
reaches d [] = false
reaches d (now ∷ nows) = ltb d (now + 500) || reaches d nows

run_ticks_dated :
    (nows : List ℕ) (t : Timer) (d : ℕ)
    → t.deadline ≡ some d
    → 0 < t.time_remaining
    → run_ticks nows t ≡ (if reaches d nows then 1 else 0)
unfolding run_ticks tick
run_ticks_dated [] t d h pos = ground arith
run_ticks_dated (now ∷ nows) t d h pos =
    ground
      (arith, run_ticks_done nows (tick true now t).0, run_ticks_dated nows (tick true now t).0 d)

-- Whether the ticks at these times use up the time: there are enough of them, or one of them reaches
-- the deadline, if there is one.
abbrev pub uses_up : Option ℕ → ℕ → List ℕ → Bool
uses_up none remaining nows = leb remaining (length nows)
uses_up (some d) remaining nows = reaches d nows

submits_if :
    (deadline : Option ℕ) (nows : List ℕ) (t : Timer)
    → t.deadline ≡ deadline
    → run_ticks nows t
      ≡ (if ltb 0 t.time_remaining && uses_up deadline t.time_remaining nows then 1 else 0)
submits_if none nows t h = ground (arith, run_ticks_undated nows t h, run_ticks_done nows t)
submits_if (some d) nows t h = ground (arith, run_ticks_dated nows t d h, run_ticks_done nows t)

-- However often the countdown ticks, and at whatever times, it submits the exam at most once. With
-- time remaining it does so exactly if, without a deadline, it ticks at least as many times as there
-- are seconds left, and with a deadline, if one of the ticks is later than half a second before it.
-- With no time remaining it never does.
pub countdown_submits :
    (nows : List ℕ) (t : Timer)
    → run_ticks nows t
      ≡ (if ltb 0 t.time_remaining && uses_up t.deadline t.time_remaining nows then 1 else 0)
countdown_submits nows t = submits_if t.deadline nows t refl

pub submits_at_most_once : (nows : List ℕ) (t : Timer) → run_ticks nows t ≤ 1
submits_at_most_once nows t = ground (arith, countdown_submits nows t)

-- A page on which an exam with a duration is loaded when its end is less than half a second ahead,
-- or past, never submits the exam by itself.
pub late_page_never_submits :
    (e : ExamTimes) (created : Option ℕ) (now : ℕ) (t : Timer) (nows : List ℕ) (end : ℕ)
    → e.end_time ≡ some end
    → 0 < total_seconds e
    → end < now + 500
    → run_ticks nows (load_timer e created now t) ≡ 0
late_page_never_submits e created now t nows end h pos late =
    run_ticks_done nows (load_timer e created now t) (unfold load_timer in ground arith)
