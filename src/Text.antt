-- ===== src/Text.antt =====
-- The C formatted text that the program uses: `%d` of `sprintf` and of a string stream, and the
-- `%D` and `%4D` of `sscanf` (the Visual C++ runtime reads `D` as `d`). Bytes are numbers.
pub mod Digits
pub mod Minus
use console_master_rtpvoice.Prelude.{
  ℕ, zero, suc, ◌+◌, ◌-◌, ◌*◌, ◌/◌, ◌%◌, ◌^◌, Bool, ◌&&◌, ◌||◌, List, [], ◌∷◌, ◌++◌, Option, none,
  some, ℤ, pos, negsuc, ltb, leb, ◌==◌, if◌then◌else◌, take,
}
use mathlib.Core.Option

abbrev pub is_digit : ℕ → Bool
is_digit c = leb b'0' c && leb c b'9'

abbrev pub is_space : ℕ → Bool
is_space c = c == 32 || (leb 9 c && leb c 13)

pub skip_space : List ℕ → List ℕ
skip_space [] = []
skip_space (c ∷ r) = if is_space c then skip_space r else c ∷ r

-- The value of the digits that a text begins with, after `acc`.
pub scan_digits : ℕ → List ℕ → ℕ
scan_digits acc [] = acc
scan_digits acc (c ∷ r) = if is_digit c then scan_digits (acc * 10 + (c - 48)) r else acc

pub scan_unsigned : List ℕ → Option ℕ
unfolding scan_digits
scan_unsigned [] = none
scan_unsigned (c ∷ r) = if is_digit c then some (scan_digits 0 (c ∷ r)) else none

abbrev pub negate : ℕ → ℤ
negate zero = pos 0
negate (suc n) = negsuc n

pub scan_signed : List ℕ → Option ℤ
unfolding scan_unsigned
scan_signed [] = none
scan_signed (c ∷ r) =
    if c == 45
    then Option.map negate (scan_unsigned r)
    else if c == 43
    then Option.map pos (scan_unsigned r)
    else Option.map pos (scan_unsigned (c ∷ r))

-- `sscanf(s, "%D", &n)`; `none` is a matching failure, which leaves `n` as it was.
unfoldable pub scan_int : List ℕ → Option ℤ
unfolding skip_space scan_signed
scan_int s = scan_signed (skip_space s)

-- `sscanf(s, "%4D", &n)`: at most four characters of the number are read.
unfoldable pub scan_int4 : List ℕ → Option ℤ
unfolding skip_space scan_signed
scan_int4 s = scan_signed (take 4 (skip_space s))

decimal_fuel : ℕ → ℕ → List ℕ
decimal_fuel zero n = []
decimal_fuel (suc f) n =
    if ltb n 10 then (48 + n) ∷ [] else decimal_fuel f (n / 10) ++ (48 + n % 10) ∷ []

-- The decimal text of an unsigned 32-bit number: ten digits are enough.
unfoldable pub decimal : ℕ → List ℕ
unfolding decimal_fuel
decimal n = decimal_fuel 10 n

-- `sprintf(s, "%d", n)` of an unsigned 32-bit `n`, without the closing NUL.
unfoldable pub decimal_signed : ℕ → List ℕ
unfolding decimal
decimal_signed n = if ltb n (2 ^ 31) then decimal n else 45 ∷ decimal (2 ^ 32 - n)
