-- ===== src/Display/Duration.antt =====
-- frontend/src/utils/formatDuration.ts, and the call of it in frontend/src/pages/TakeExam.tsx. A
-- duration is a decimal number: its whole part and the digits behind the point, with no trailing
-- zero, as JavaScript prints a number of this size.
use wazire.Base.{
  ℕ, zero, suc, ◌+◌, ◌/◌, ◌%◌, ◌≡◌, ◌<◌, ◌≤◌, ◌≢◌, refl, Bool, true, ◌&&◌, Option, none, some, [],
  ◌∷◌, ◌++◌, ◌==◌, is_empty, if◌then◌else◌, arith, ◌∙◌, All, dec_lt,
}
use wazire.Base.Text.{Text, text}
use wazire.Base.Decimal.{
  print, pad_start2, read_digits, print_below_ten, print_below_hundred, read-print, is_digit,
  digits-print,
}

pub record Decimal : Type 0 where
  pub whole : ℕ
  pub fraction : Text

-- `hours.toString()`.
unfoldable pub to_text : Decimal → Text
to_text d = if is_empty d.fraction then print d.whole else print d.whole ++ b'.' ∷ d.fraction

-- `hours === 0`.
abbrev is_zero : Decimal → Bool
is_zero d = (d.whole == 0) && is_empty d.fraction

abbrev before : ℕ → Option (Text × Text) → Option (Text × Text)
before c none = none
before c (some (a, b)) = some (c ∷ a, b)

-- The texts before and after the first point, the two calls of `substring` around `indexOf('.')`;
-- none where there is no point.
unfoldable pub split_point : Text → Option (Text × Text)
split_point [] = none
split_point (c ∷ s) = if c == b'.' then some ([], s) else before c (split_point s)

-- The labels, from `wholeHours` and `minutes`.
unfoldable pub label : ℕ → ℕ → Text
label whole_hours minutes =
    if whole_hours == 0
    then print minutes ++ text " min"
    else if minutes == 0
    then if whole_hours == 1 then text "1 hr" else print whole_hours ++ text " hrs"
    else print whole_hours
      ++ text " "
      ++ (if whole_hours == 1 then text "hr" else text "hrs")
      ++ text " "
      ++ print minutes
      ++ text " min"

abbrev label_parts : ℕ → Option (Text × Text) → Text
label_parts whole none = label whole 0
label_parts whole (some (a, b)) = label (read_digits 0 a) (read_digits 0 b)

unfoldable pub format_duration : Decimal → Text
unfolding to_text split_point
format_duration d =
    if is_zero d then text "0 min" else label_parts d.whole (split_point (to_text d))

-- A text without the zeros at its end: what is left of the digits behind the point when
-- `parseFloat` has read them.
unfoldable pub trim_zeros : Text → Text
trim_zeros [] = []
trim_zeros (c ∷ s) = let t = trim_zeros s in if (c == b'0') && is_empty t then [] else c ∷ t

-- `parseFloat(`${hours}.${String(minutes).padStart(2, '0')}`)`, as TakeExam.tsx passes the duration
-- of an exam.
unfoldable pub exam_duration : ℕ → ℕ → Decimal
unfolding trim_zeros
exam_duration hours minutes = record {
  whole = hours;
  fraction = trim_zeros (pad_start2 (print minutes));
}

split_point-digits :
    (s t : Text) → All (λ c. is_digit c ≡ true) s → split_point (s ++ b'.' ∷ t) ≡ some (s, t)
unfolding split_point
split_point-digits [] t h = refl
split_point-digits (c ∷ s) t (d, h) = ground (arith, split_point-digits s t h)

-- A duration with digits behind the point shows them as the number of minutes that they spell.
pub format_duration_fraction :
    (d : Decimal) → d.fraction ≢ [] → format_duration d ≡ label d.whole (read_digits 0 d.fraction)
unfolding format_duration to_text
format_duration_fraction d h = ground (
  arith,
  split_point-digits (print d.whole) d.fraction (digits-print d.whole),
  read-print d.whole,
)

-- The minutes that are shown for an exam of `minutes` minutes.
pub shown_minutes : ℕ → ℕ
shown_minutes m = if m % 10 == 0 then m / 10 else m

fraction-below_ten :
    (m : ℕ) → m < 10 → 0 < m → trim_zeros (pad_start2 (print m)) ≡ b'0' ∷ (b'0' + m) ∷ []
unfolding trim_zeros pad_start2
fraction-below_ten m h p = rw (print_below_ten m h) (ground arith)

fraction-below_hundred :
    (m : ℕ)
    → 10 ≤ m
    → m < 100
    → trim_zeros (pad_start2 (print m))
      ≡ (if m % 10 == 0 then (b'0' + m / 10) ∷ [] else (b'0' + m / 10) ∷ (b'0' + m % 10) ∷ [])
unfolding trim_zeros pad_start2
fraction-below_hundred m p h = rw (print_below_hundred m p h) (ground arith)

split_point-no_point : (s : Text) → All (λ c. is_digit c ≡ true) s → split_point s ≡ none
unfolding split_point
split_point-no_point [] h = refl
split_point-no_point (c ∷ s) (d, h) = ground (arith, split_point-no_point s h)

-- What `format_duration` shows of an exam, by its minutes as `fraction` spells them.
format_exam :
    (h m : ℕ) → m < 100 → 0 < m → format_duration (exam_duration h m) ≡ label h (shown_minutes m)
format_exam h m b p = elim (dec_lt m 10) [
  | yes q ↦
      let e = fraction-below_ten m q p in
      format_duration_fraction (exam_duration h m) (unfold exam_duration in rw e (λ x. cc))
      ∙ (unfold exam_duration shown_minutes read_digits in rw e (ground arith))
  | no q ↦
      let e = fraction-below_hundred m (omega arith) b in
      format_duration_fraction (exam_duration h m) (unfold exam_duration in rw e (ground arith))
      ∙ (unfold exam_duration shown_minutes read_digits in rw e (ground arith))
]

exam_duration-zero : (h : ℕ) → exam_duration h 0 ≡ record { whole = h; fraction = [] }
unfolding exam_duration print pad_start2
exam_duration-zero h = refl

format_exam-zero :
    (h : ℕ) → format_duration (exam_duration h 0) ≡ (if h == 0 then text "0 min" else label h 0)
unfolding format_duration to_text
format_exam-zero h =
    rw (exam_duration-zero h) (ground (arith, split_point-no_point (print h) (digits-print h)))

-- For an exam of some hours and fewer than sixty minutes, and not of no length, the page shows the
-- hours and, where the minutes are a multiple of ten, a tenth of them; other minutes are shown as
-- they are.
pub exam_duration_shown :
    (h m : ℕ)
    → m < 60
    → 0 < h + m
    → format_duration (exam_duration h m) ≡ label h (if m % 10 == 0 then m / 10 else m)
exam_duration_shown h zero b p = rw (format_exam-zero h) (ground arith)
exam_duration_shown h (suc m) b p =
    unfold shown_minutes in format_exam h (suc m) (omega arith) (omega arith)
