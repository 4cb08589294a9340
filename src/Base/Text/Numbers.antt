-- ===== src/Base/Text/Numbers.antt =====
-- The text of a number is a printing word.
use Prim.Native.Nat.{ℕ, ◌^◌, ◌<◌}
use mathlib.Core.Path.{◌≡◌, refl}
use mathlib.Core.Logic.{◌≢◌}
use mathlib.Core.Option.{none}
use mathlib.Core.List.{[]}
use native.Mathlib.Omega.{arith}
use vitrum.Base.Seq.{All, All-map}
use vitrum.Base.Int.{pos}
use vitrum.Base.Decimal.{parse_int, format_int}
use vitrum.Base.Decimal.RoundTrip.{IsDigit, parse_int-format_int, format_int-IsDigit}
use vitrum.Base.Text.Words.{IsPrint}

pub format_int-IsPrint : (n : ℕ) → All IsPrint (format_int (pos n))
format_int-IsPrint n =
    All-map IsDigit IsPrint (format_int (pos n)) (λ c d. omega arith) (format_int-IsDigit n)

pub format_int-ne-nil : (n : ℕ) → n < 2 ^ 63 → format_int (pos n) ≢ []
unfolding parse_int
format_int-ne-nil n h e =
    let failed : parse_int (format_int (pos n)) ≡ none = rw e refl in
    cc (failed, parse_int-format_int n h)
