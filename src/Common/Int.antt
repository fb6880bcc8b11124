-- ===== src/Common/Int.antt =====
-- Python's whole numbers, and `int` on a text, with the default limit on the number of its digits.
use Prim.Native.Char.{code}
use Prim.Native.Nat.{ℕ, zero, suc, ◌+◌, ◌*◌, ◌-◌}
use Prim.Native.String.{String}
use mathlib.Core.Bool.{Bool, true, false, ◌&&◌}
use mathlib.Core.List.{List, [], ◌∷◌}
use mathlib.Core.Option.{Option, none, some}
use redfish_ctl.Common.Tests.{is_some, leb, ◌=?◌, if◌then◌else◌}
use redfish_ctl.Common.Text.{strip}

-- `negsuc n` is -(n + 1).
pub data ℤ : Type 0 where
  pos : ℕ → ℤ
  negsuc : ℕ → ℤ

abbrev negated : ℕ → ℤ
negated zero = pos 0
negated (suc n) = negsuc n

-- The number that the digits so far stand for, and whether the last character was a digit.
abbrev pub Digits : Type 0
Digits = Option (ℕ × Bool)

-- The zeros of the decimal digits outside ASCII (Unicode 14); each begins a row of ten digits.
abbrev other_zeros : List ℕ
other_zeros =
    1632 ∷ 1776 ∷ 1984 ∷ 2406 ∷ 2534 ∷ 2662 ∷ 2790 ∷ 2918 ∷ 3046 ∷ 3174 ∷ 3302 ∷ 3430 ∷ 3558 ∷ 3664
    ∷ 3792 ∷ 3872 ∷ 4160 ∷ 4240 ∷ 6112 ∷ 6160 ∷ 6470 ∷ 6608 ∷ 6784 ∷ 6800 ∷ 6992 ∷ 7088 ∷ 7232
    ∷ 7248 ∷ 42528 ∷ 43216 ∷ 43264 ∷ 43472 ∷ 43504 ∷ 43600 ∷ 44016 ∷ 65296 ∷ 66720 ∷ 68912 ∷ 69734
    ∷ 69872 ∷ 69942 ∷ 70096 ∷ 70384 ∷ 70736 ∷ 70864 ∷ 71248 ∷ 71360 ∷ 71472 ∷ 71904 ∷ 72016 ∷ 72784
    ∷ 73040 ∷ 73120 ∷ 92768 ∷ 92864 ∷ 93008 ∷ 120782 ∷ 120792 ∷ 120802 ∷ 120812 ∷ 120822 ∷ 123200
    ∷ 123632 ∷ 125264 ∷ 130032 ∷ []

other_digit : ℕ → List ℕ → Option ℕ
other_digit c [] = none
other_digit c (z ∷ zs) =
    let rest = other_digit c zs in if leb z c && leb c (z + 9) then some (c - z) else rest

-- The value of a decimal digit.
unfoldable pub digit_value : ℕ → Option ℕ
unfolding other_digit
digit_value c = if leb 48 c && leb c 57 then some (c - 48) else other_digit c other_zeros

-- One more character: a digit, or an underscore after a digit.
abbrev pub next_digit : Option ℕ → ℕ → ℕ → Bool → Digits
next_digit (some d) c n after_digit = some (n * 10 + d, true)
next_digit none c n after_digit = if (c =? 95) && after_digit then some (n, false) else none

unfoldable pub read_digit : ℕ → Digits → Digits
unfolding digit_value
read_digit c none = none
read_digit c (some (n, after_digit)) = next_digit (digit_value c) c n after_digit

unfoldable pub read_digits : Digits → String → Digits
unfolding read_digit
read_digits d String.[] = d
read_digits d (String.◌∷◌ c s) = read_digits (read_digit (code c) d) s

-- The last character must be a digit.
abbrev pub whole : Digits → Option ℕ
whole none = none
whole (some (n, true)) = some n
whole (some (n, false)) = none

abbrev pub as_ℤ : (ℕ → ℤ) → Option ℕ → Option ℤ
as_ℤ sign none = none
as_ℤ sign (some n) = some (sign n)

unfoldable pub read_signed : String → Option ℤ
unfolding read_digits
read_signed String.[] = none
read_signed (String.◌∷◌ c s) =
    if code c =? 45
    then as_ℤ negated (whole (read_digits (some (0, false)) s))
    else if code c =? 43
    then as_ℤ pos (whole (read_digits (some (0, false)) s))
    else as_ℤ pos (whole (read_digits (some (0, false)) (String.◌∷◌ c s)))

-- How many digits a text has.
unfoldable pub digit_count : String → ℕ
unfolding digit_value
digit_count String.[] = 0
digit_count (String.◌∷◌ c s) =
    let rest = digit_count s in if is_some (digit_value (code c)) then suc rest else rest

-- sys.int_info.default_max_str_digits
abbrev pub max_digits : ℕ
max_digits = 4300

-- int(s), where `none` is a ValueError
unfoldable pub int_of_text : String → Option ℤ
unfolding read_signed strip digit_count
int_of_text s = if leb (digit_count s) max_digits then read_signed (strip s) else none
