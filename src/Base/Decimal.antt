-- ===== src/Base/Decimal.antt =====
-- strconv.FormatInt and strconv.ParseInt in base 10.
pub mod RoundTrip
use Prim.Native.Nat.{ℕ, zero, suc, ◌+◌, ◌-◌, ◌*◌, ◌/◌, ◌%◌, ◌^◌}
use mathlib.Core.Bool.{Bool, true, false, ◌&&◌}
use mathlib.Core.Option.{Option, none, some}
use mathlib.Core.List.{List, [], ◌∷◌, ◌++◌}
use vitrum.Base.Test.{ltb, leb, ◌==◌, if◌then◌else◌}
use vitrum.Base.Bytes.{Bytes}
use vitrum.Base.Int.{ℤ, pos, negsuc}

-- The decimal digits of a number of at most `fuel` digits.
unfoldable pub digits : ℕ → ℕ → Bytes
digits zero n = []
digits (suc fuel) n =
    let front = digits fuel (n / 10) in
    if ltb n 10 then (48 + n) ∷ [] else front ++ ((48 + n % 10) ∷ [])

-- An int64 has at most 19 digits.
unfoldable pub format_int : ℤ → Bytes
unfolding digits
format_int (pos n) = digits 20 n
format_int (negsuc n) = b'-' ∷ digits 20 (n + 1)

abbrev pub is_digit : ℕ → Bool
is_digit c = leb 48 c && leb c 57

-- The value of the digits behind `acc`.
unfoldable pub parse_digits : ℕ → Bytes → Option ℕ
parse_digits acc [] = some acc
parse_digits acc (c ∷ r) =
    let rest = parse_digits (acc * 10 + (c - 48)) r in if is_digit c then rest else none

-- At least one digit.
unfoldable pub parse_nat : Bytes → Option ℕ
unfolding parse_digits
parse_nat [] = none
parse_nat (c ∷ r) = parse_digits 0 (c ∷ r)

-- The range of an int64.
abbrev pub in_range : Option ℕ → Option ℤ
in_range none = none
in_range (some n) = if ltb n (2 ^ 63) then some (pos n) else none

abbrev pub in_range_negative : Option ℕ → Option ℤ
in_range_negative none = none
in_range_negative (some zero) = some (pos 0)
in_range_negative (some (suc n)) = if ltb n (2 ^ 63) then some (negsuc n) else none

-- ParseInt(s, 10, 64), with `none` for its errors.
unfoldable pub parse_int : Bytes → Option ℤ
unfolding parse_nat
parse_int [] = none
parse_int (c ∷ r) =
    if c == b'+'
    then in_range (parse_nat r)
    else if c == b'-'
    then in_range_negative (parse_nat r)
    else in_range (parse_nat (c ∷ r))
