-- ===== src/Base/Parse.antt =====
-- `parseInt(s)` without a radix: white space and a sign, then hexadecimal digits behind `0x`, or
-- decimal ones; whatever follows the digits is left. Exact also where a double would be rounded.
use wazire.Base.Tests.{leb, ◌==◌, if◌then◌else◌}
use wazire.Base.Lists.{All}
use wazire.Base.Text.{Text, trim_start, is_space}
use wazire.Base.Number.{Number, minus, whole}
use wazire.Base.Decimal.{print, is_digit, read_digits, digits-print, read-print, print_before}
use Prim.Native.Nat.{ℕ, zero, suc, ◌+◌, ◌-◌, ◌*◌, ◌/◌, ◌%◌}
use mathlib.Core.Path.{◌≡◌, refl, ◌∙◌, ap}
use mathlib.Core.Logic.{◌≢◌}
use mathlib.Core.Bool.{Bool, true, false, ◌&&◌, ◌||◌}
use mathlib.Core.Option.{Option, none, some}
use mathlib.Core.List.{[], ◌∷◌}
use native.Mathlib.Omega.{arith}

abbrev is_hex_digit : ℕ → Bool
is_hex_digit c = is_digit c || ((leb b'a' c && leb c b'f') || (leb b'A' c && leb c b'F'))

abbrev hex_value : ℕ → ℕ
hex_value c = if leb b'a' c then c - 87 else if leb b'A' c then c - 55 else c - b'0'

unfoldable pub read_hex : ℕ → Text → ℕ
read_hex acc [] = acc
read_hex acc (c ∷ s) = read_hex (acc * 16 + hex_value c) s

-- The longest prefix whose characters pass the test.
unfoldable pub prefix : (ℕ → Bool) → Text → Text
prefix p [] = []
prefix p (c ∷ s) = if p c then c ∷ prefix p s else []

abbrev value_of : (Text → ℕ) → Text → Option ℕ
value_of read [] = none
value_of read (c ∷ s) = some (read (c ∷ s))

abbrev decimal_value : Text → Option ℕ
decimal_value s = value_of (read_digits 0) (prefix is_digit s)

abbrev is_x : ℕ → Bool
is_x c = (c == b'x') || (c == b'X')

-- The value behind the sign.
unfoldable pub parse_digits : Text → Option ℕ
unfolding prefix read_hex
parse_digits [] = none
parse_digits (c ∷ []) = decimal_value (c ∷ [])
parse_digits (c ∷ d ∷ s) =
    if (c == b'0') && is_x d
    then value_of (read_hex 0) (prefix is_hex_digit s)
    else decimal_value (c ∷ d ∷ s)

abbrev negated : Option ℕ → Option Number
negated none = none
negated (some zero) = some (whole 0)
negated (some (suc n)) = some (minus n 0)

abbrev positive : Option ℕ → Option Number
positive none = none
positive (some n) = some (whole n)

abbrev parse_signed : Text → Option Number
parse_signed [] = none
parse_signed (c ∷ s) =
    if c == b'-'
    then negated (parse_digits s)
    else if c == b'+'
    then positive (parse_digits s)
    else positive (parse_digits (c ∷ s))

-- `none` for NaN.
unfoldable pub parse_int : Text → Option Number
unfolding parse_digits trim_start
parse_int s = parse_signed (trim_start s)

prefix-All : (p : ℕ → Bool) (s : Text) → All (λ c. p c ≡ true) s → prefix p s ≡ s
unfolding prefix
prefix-All p [] h = refl
prefix-All p (c ∷ s) (h, hs) = rw (h, prefix-All p s hs) refl

parse_digits_lem :
    (c : ℕ) (s : Text)
    → All (λ d. is_digit d ≡ true) (c ∷ s)
    → parse_digits (c ∷ s) ≡ some (read_digits 0 (c ∷ s))
unfolding parse_digits
parse_digits_lem c [] h = rw (prefix-All is_digit (c ∷ []) h) refl
parse_digits_lem c (d ∷ s) h =
    let e : is_x d ≡ false = ground arith in rw (prefix-All is_digit (c ∷ d ∷ s) h) (ground arith)

trim_start_digit : (c : ℕ) (s : Text) → is_digit c ≡ true → trim_start (c ∷ s) ≡ c ∷ s
unfolding trim_start is_space
trim_start_digit c s h = ground arith

parse_int-digits :
    (c : ℕ) (s : Text)
    → All (λ d. is_digit d ≡ true) (c ∷ s)
    → parse_int (c ∷ s) ≡ some (whole (read_digits 0 (c ∷ s)))
unfolding parse_int
parse_int-digits c s h =
    let plain : (c == b'-' ≡ false) × (c == b'+' ≡ false) = ground arith in
    rw (trim_start_digit c s h.0, plain.0, plain.1, parse_digits_lem c s h) refl

parse_int-text :
    (s : Text)
    → s ≢ []
    → All (λ d. is_digit d ≡ true) s
    → parse_int s ≡ some (whole (read_digits 0 s))
parse_int-text [] n h = absurd (n refl)
parse_int-text (c ∷ s) n h = parse_int-digits c s h

print_before-ne-nil : (f n : ℕ) (c : ℕ) (rest : Text) → print_before f n (c ∷ rest) ≢ []
unfolding print_before
print_before-ne-nil zero n c rest = λ e. cc
print_before-ne-nil (suc f) n c rest =
    ground (arith, print_before-ne-nil f (n / 10) (b'0' + n % 10) (c ∷ rest))

pub print-ne-nil : (n : ℕ) → print n ≢ []
unfolding print print_before
print-ne-nil n = ground (arith, print_before-ne-nil n (n / 10) (b'0' + n % 10) [])

-- Printing a number and parsing it back.
pub parse_int-print : (n : ℕ) → parse_int (print n) ≡ some (whole n)
parse_int-print n =
    parse_int-text (print n) (print-ne-nil n) (digits-print n)
    ∙ ap (λ k. some (whole k)) (read-print n)
