-- ===== src/Display/FormatTime.antt =====
-- `formatTime` of frontend/src/pages/TakeExam.tsx, for a whole number of seconds.
use wazire.Base.{
  ℕ, suc, ◌+◌, ◌-◌, ◌*◌, ◌/◌, ◌%◌, ◌≡◌, ◌∙◌, ap, zero, ◌<◌, refl, true, [], ◌∷◌, ◌++◌, ltb, ◌==◌,
  if◌then◌else◌, arith, All, dec_lt,
}
use mathlib.Core.List.{append-nil, append_assoc}
use wazire.Base.Text.{Text}
use wazire.Base.Decimal.{
  print, pad_start2, is_digit, digits-print, read-print, print_below_ten, print_below_hundred,
  read_digits,
}

unfoldable pub format_time : ℕ → Text
format_time s =
    let hours = s / 3600 in
    let mins = s % 3600 / 60 in
    let secs = s % 60 in
    (if ltb 0 hours then print hours ++ b':' ∷ [] else [])
    ++ (pad_start2 (print mins) ++ b':' ∷ pad_start2 (print secs))

-- A reader of clock times: numbers between colons, each worth sixty of the next.
unfoldable pub read_time : ℕ → ℕ → Text → ℕ
read_time total field [] = total * 60 + field
read_time total field (c ∷ s) =
    read_time (if c == b':' then total * 60 + field else total)
      (if c == b':' then 0 else field * 10 + (c - b'0')) s

read_time-digits :
    (total field : ℕ) (s rest : Text)
    → All (λ c. is_digit c ≡ true) s
    → read_time total field (s ++ rest) ≡ read_time total (read_digits field s) rest
unfolding read_time read_digits
read_time-digits total field [] rest h = refl
read_time-digits total field (c ∷ s) rest (d, h) =
    ground (arith, read_time-digits total (field * 10 + (c - b'0')) s rest h)

read_time-pad :
    (total n : ℕ) (rest : Text)
    → n < 60
    → read_time total 0 (pad_start2 (print n) ++ rest) ≡ read_time total n rest
unfolding read_time pad_start2
read_time-pad total n rest h = elim (dec_lt n 10) [
  | yes p ↦ rw (print_below_ten n p) (ground arith)
  | no p ↦ rw (print_below_hundred n (omega arith) (omega arith)) (ground arith)
]

pub read_time-minutes :
    (total m n : ℕ)
    → m < 60
    → n < 60
    → read_time total 0 (pad_start2 (print m) ++ b':' ∷ pad_start2 (print n))
      ≡ (total * 60 + m) * 60 + n
read_time-minutes total m n hm hn =
    read_time-pad total m (b':' ∷ pad_start2 (print n)) hm
    ∙ (unfold read_time in
        rw (← append-nil (pad_start2 (print n))) (read_time-pad (total * 60 + m) n [] hn))

read_time-colon :
    (total field : ℕ) (rest : Text)
    → read_time total field (b':' ∷ rest) ≡ read_time (total * 60 + field) 0 rest
unfolding read_time
read_time-colon total field rest = refl

read_time-print :
    (h : ℕ) (rest : Text) → read_time 0 0 ((print h ++ b':' ∷ []) ++ rest) ≡ read_time h 0 rest
read_time-print h rest =
    ap (read_time 0 0) (append_assoc (print h) (b':' ∷ []) rest)
    ∙ read_time-digits 0 0 (print h) (b':' ∷ rest) (digits-print h)
    ∙ read_time-colon 0 (read_digits 0 (print h)) rest
    ∙ ap (λ n. read_time n 0 rest) (omega (arith, read-print h))

read_time-hours :
    (h : ℕ) (rest : Text)
    → read_time 0 0 ((if ltb 0 h then print h ++ b':' ∷ [] else []) ++ rest) ≡ read_time h 0 rest
read_time-hours zero rest = refl
read_time-hours (suc h) rest =
    let some_hours : ltb 0 (suc h) ≡ true = ground arith in
    rw some_hours (read_time-print (suc h) rest)

-- The time that is shown reads back as the number of seconds: hours, if there are any, then minutes
-- and seconds.
pub format_time_reads_back : (s : ℕ) → read_time 0 0 (format_time s) ≡ s
unfolding format_time
format_time_reads_back s =
    read_time-hours (s / 3600) _
    ∙ read_time-minutes (s / 3600) (s % 3600 / 60) (s % 60) (omega arith) (omega arith)
    ∙ omega arith
