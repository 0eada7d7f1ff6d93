-- ===== src/Display/Offset.antt =====
-- The dates that frontend/src/components/DateTimePicker.tsx hands on, with the offset from UTC.
use wazire.Base.{
  ℕ, ◌+◌, ◌*◌, ◌/◌, ◌%◌, ◌≡◌, ◌<◌, ◌∙◌, Option, none, some, [], ◌∷◌, ◌++◌, drop, ◌==◌, is_empty,
  if◌then◌else◌, arith,
}
use wazire.Base.Text.{Text, text}
use wazire.Base.Decimal.{print, pad_start2}
use wazire.Display.FormatTime.{read_time, read_time-minutes}

-- `-getTimezoneOffset()`, in minutes: zero or more, or below zero by so many.
pub data Offset : Type 0 where
  ahead behind : ℕ → Offset

-- `offset >= 0`.
abbrev sign : Offset → ℕ
sign (ahead m) = b'+'
sign (behind m) = if m == 0 then b'+' else b'-'

-- `Math.abs(Math.floor(offset / 60))`: a quotient below zero is rounded away from it.
unfoldable pub offset_hours : Offset → ℕ
offset_hours (ahead m) = m / 60
offset_hours (behind m) = (m + 59) / 60

-- `Math.abs(offset % 60)`: the remainder has the sign of the offset.
unfoldable pub offset_minutes : Offset → ℕ
offset_minutes (ahead m) = m % 60
offset_minutes (behind m) = m % 60

unfoldable pub offset_text : Offset → Text
unfolding offset_hours offset_minutes
offset_text o =
    sign o ∷ (pad_start2 (print (offset_hours o)) ++ b':' ∷ pad_start2 (print (offset_minutes o)))

-- A local time with its offset. `local_offset` is the offset of the browser at a local time.
unfoldable pub with_offset : (Text → Offset) → Text → Text → Text
unfolding offset_text
with_offset local_offset date time =
    let local_date = date ++ b'T' ∷ time in
    local_date ++ (text ":00" ++ offset_text (local_offset local_date))

abbrev or_midnight : Text → Text
or_midnight [] = text "00:00"
or_midnight (c ∷ s) = c ∷ s

-- What `handleDateSelect` hands to `onChange`, for a month from 0 on.
unfoldable pub handle_date_select : (Text → Offset) → ℕ → ℕ → ℕ → Text → Text
unfolding with_offset
handle_date_select local_offset year month day time =
    with_offset local_offset
      (print year ++ b'-' ∷ (pad_start2 (print (month + 1)) ++ b'-' ∷ pad_start2 (print day)))
      (or_midnight time)

-- What `handleTimeSelect` hands on, if there is a date.
unfoldable pub handle_time_select : (Text → Offset) → Text → ℕ → ℕ → Option Text
unfolding with_offset
handle_time_select local_offset date hour minute =
    if is_empty date
    then none
    else some (
        with_offset local_offset date (pad_start2 (print hour) ++ b':' ∷ pad_start2 (print minute)))

-- The minutes that the text of an offset says.
abbrev pub said : Offset → ℕ
said o = read_time 0 0 (drop 1 (offset_text o))

hours_away : (m : ℕ) → (0 * 60 + (m + 59) / 60) * 60 + m % 60 ≡ (if m % 60 == 0 then m else m + 60)
hours_away m = ground arith

-- Below 59 hours, the text of an offset ahead of UTC, or behind it by whole hours, says the minutes
-- of the offset. The text of any other offset behind UTC says an hour too much.
pub offset_text_says :
    (m : ℕ)
    → m < 3540
    → (said (ahead m) ≡ m) × (said (behind m) ≡ (if m % 60 == 0 then m else m + 60))
unfolding offset_text offset_hours offset_minutes
offset_text_says m small = (
  read_time-minutes 0 (m / 60) (m % 60) (omega arith) (omega arith) ∙ omega arith,
  read_time-minutes 0 ((m + 59) / 60) (m % 60) (omega arith) (omega arith) ∙ hours_away m,
)
