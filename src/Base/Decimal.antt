-- ===== src/Base/Decimal.antt =====
-- Whole numbers printed in decimal, as `Number.prototype.toString` prints them.
use Prim.Native.Nat.{ℕ, zero, suc, ◌+◌, ◌-◌, ◌*◌, ◌/◌, ◌%◌, ◌<◌, ◌≤◌}
use mathlib.Core.Path.{◌≡◌, refl}
use mathlib.Core.Bool.{Bool, true, ◌&&◌}
use mathlib.Core.List.{[], ◌∷◌, ◌++◌}
use native.Mathlib.Omega.{arith}
use wazire.Base.Tests.{ltb, leb, if◌then◌else◌}
use wazire.Base.Lists.{All}
use wazire.Base.Text.{Text}

-- The digits of `n` in front of `rest`, one for each unit of fuel that is needed.
unfoldable pub print_before : ℕ → ℕ → Text → Text
print_before zero n rest = rest
print_before (suc f) n rest =
    let more = print_before f (n / 10) ((b'0' + n % 10) ∷ rest) in
    if ltb n 10 then (b'0' + n) ∷ rest else more

unfoldable pub print : ℕ → Text
unfolding print_before
print n = print_before (suc n) n []

-- A difference that may be below zero.
abbrev pub print_difference : ℕ → ℕ → Text
print_difference n k = if leb k n then print (n - k) else b'-' ∷ print (k - n)

-- `s.padStart(2, '0')`.
unfoldable pub pad_start2 : Text → Text
pad_start2 [] = b'0' ∷ b'0' ∷ []
pad_start2 (c ∷ []) = b'0' ∷ c ∷ []
pad_start2 s = s

abbrev pub is_digit : ℕ → Bool
is_digit c = leb b'0' c && leb c b'9'

-- The value of a text of digits, after a number already read.
unfoldable pub read_digits : ℕ → Text → ℕ
read_digits acc [] = acc
read_digits acc (c ∷ s) = read_digits (acc * 10 + (c - b'0')) s

pub read_digits-append :
    (acc : ℕ) (s t : Text) → read_digits acc (s ++ t) ≡ read_digits (read_digits acc s) t
unfolding read_digits
read_digits-append acc [] t = refl
read_digits-append acc (c ∷ s) t = read_digits-append (acc * 10 + (c - b'0')) s t

read-print_before :
    (f n : ℕ) (rest : Text) → n < f → read_digits 0 (print_before f n rest) ≡ read_digits n rest
unfolding print_before read_digits
read-print_before zero n rest h = elim h [ ]
read-print_before (suc f) n rest h =
    ground (arith, read-print_before f (n / 10) ((b'0' + n % 10) ∷ rest))

-- Printing and reading back.
pub read-print : (n : ℕ) → read_digits 0 (print n) ≡ n
unfolding print read_digits
read-print n = read-print_before (suc n) n [] (omega arith)

digits-print_before :
    (f n : ℕ) (rest : Text)
    → All (λ c. is_digit c ≡ true) rest
    → All (λ c. is_digit c ≡ true) (print_before f n rest)
unfolding print_before
digits-print_before zero n rest h = h
digits-print_before (suc f) n rest h =
    ground (arith, digits-print_before f (n / 10) ((b'0' + n % 10) ∷ rest))

pub digits-print : (n : ℕ) → All (λ c. is_digit c ≡ true) (print n)
unfolding print
digits-print n = digits-print_before (suc n) n [] tt

-- A number below a hundred prints one or two digits.
pub print_below_ten : (n : ℕ) → n < 10 → print n ≡ (b'0' + n) ∷ []
unfolding print
print_below_ten n h = ground arith

pub print_below_hundred :
    (n : ℕ) → 10 ≤ n → n < 100 → print n ≡ (b'0' + n / 10) ∷ (b'0' + n % 10) ∷ []
unfolding print
print_below_hundred zero h k = elim h [ ]
print_below_hundred (suc n) h k = ground arith
