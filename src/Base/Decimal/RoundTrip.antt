-- ===== src/Base/Decimal/RoundTrip.antt =====
-- ParseInt reads back what FormatInt writes.
use Prim.Native.Nat.{ℕ, zero, suc, ◌+◌, ◌-◌, ◌*◌, ◌/◌, ◌%◌, ◌^◌, ◌<◌, ◌≤◌}
use mathlib.Core.Path.{◌≡◌, refl, sym, ap, ◌∙◌}
use mathlib.Core.Logic.{◌≢◌, ◌⊎◌, inl, inr}
use mathlib.Core.Option.{Option, none, some}
use mathlib.Core.List.{[], ◌∷◌, ◌++◌}
use native.Mathlib.Nat.{pow-suc}
use native.Mathlib.Omega.{arith}
use vitrum.Base.Test.{ltb, Bool-cases}
use vitrum.Base.Seq.{length, length-append, All, All-append}
use vitrum.Base.Bytes.{Bytes}
use vitrum.Base.Int.{pos}
use vitrum.Base.Decimal.{digits, format_int, parse_digits, parse_nat, parse_int}

abbrev pub IsDigit : ℕ → Type 0
IsDigit c = (48 ≤ c) × (c ≤ 57)

digits_small : (fuel n : ℕ) → n < 10 → digits (suc fuel) n ≡ (48 + n) ∷ []
unfolding digits
digits_small fuel n h = ground arith

digits_large :
    (fuel n : ℕ) → 10 ≤ n → digits (suc fuel) n ≡ digits fuel (n / 10) ++ ((48 + n % 10) ∷ [])
unfolding digits
digits_large fuel n h = ground arith

digit-cases : (n : ℕ) → (n < 10) ⊎ (10 ≤ n)
digit-cases n = grind arith

pub digits-IsDigit : (fuel n : ℕ) → All IsDigit (digits fuel n)
digits-IsDigit zero n = unfold digits in tt
digits-IsDigit (suc fuel) n = elim (digit-cases n) [
  | inl h ↦ rw (digits_small fuel n h) (omega arith)
  | inr h ↦
      rw (digits_large fuel n h)
        (All-append IsDigit (digits fuel (n / 10)) _ (digits-IsDigit fuel (n / 10)) (omega arith))
]

abbrev then_digit : ℕ → Option ℕ → Option ℕ
then_digit d none = none
then_digit d (some m) = some (m * 10 + d)

parse_digits-append :
    (acc : ℕ) (xs : Bytes) (d : ℕ)
    → d < 10
    → parse_digits acc (xs ++ ((48 + d) ∷ [])) ≡ then_digit d (parse_digits acc xs)
unfolding parse_digits
parse_digits-append acc [] d h = ground arith
parse_digits-append acc (c ∷ xs) d h =
    ground (arith, parse_digits-append (acc * 10 + (c - 48)) xs d h)

one_digit : (n : ℕ) → n < 10 → parse_digits 0 ((48 + n) ∷ []) ≡ some n
unfolding parse_digits
one_digit n h = ground arith

parse_digits-digits :
    (fuel n : ℕ) → n < 10 ^ suc fuel → parse_digits 0 (digits (suc fuel) n) ≡ some n
parse_digits-digits zero n h = rw (digits_small zero n (omega arith)) (one_digit n (omega arith))
parse_digits-digits (suc fuel) n h = elim (digit-cases n) [
  | inl small ↦ rw (digits_small (suc fuel) n small) (one_digit n small)
  | inr large ↦ rw (digits_large (suc fuel) n large) (
      parse_digits-append 0 (digits (suc fuel) (n / 10)) (n % 10) (omega arith)
      ∙ ap (then_digit (n % 10)) (parse_digits-digits fuel (n / 10) (shrink fuel n h))
      ∙ ap some (omega arith))
]
  where
    shrink : (fuel n : ℕ) → n < 10 ^ suc (suc fuel) → n / 10 < 10 ^ suc fuel
    shrink fuel n h = omega (arith, pow-suc 10 (suc fuel))

parse_int-IsDigit :
    (xs : Bytes) (n : ℕ)
    → All IsDigit xs
    → xs ≢ []
    → parse_digits 0 xs ≡ some n
    → n < 2 ^ 63
    → parse_int xs ≡ some (pos n)
unfolding parse_int parse_nat
parse_int-IsDigit [] n d e h lt = absurd (e refl)
parse_int-IsDigit (c ∷ r) n d e h lt = ground arith

snoc-ne-nil : (xs : Bytes) (d : ℕ) → xs ++ (d ∷ []) ≢ []
snoc-ne-nil [] d e = cc
snoc-ne-nil (x ∷ xs) d e = cc

digits-ne-nil : (fuel n : ℕ) → digits (suc fuel) n ≢ []
digits-ne-nil fuel n e = elim (digit-cases n) [
  | inl h ↦ cc (digits_small fuel n h)
  | inr h ↦ snoc-ne-nil (digits fuel (n / 10)) (48 + n % 10) (sym (digits_large fuel n h) ∙ e)
]

-- An int64 that is not negative is read back.
pub parse_int-format_int : (n : ℕ) → n < 2 ^ 63 → parse_int (format_int (pos n)) ≡ some (pos n)
unfolding format_int
parse_int-format_int n h =
    parse_int-IsDigit (digits 20 n) n (digits-IsDigit 20 n) (digits-ne-nil 19 n)
      (parse_digits-digits 19 n (omega arith)) h

pub format_int-IsDigit : (n : ℕ) → All IsDigit (format_int (pos n))
unfolding format_int
format_int-IsDigit n = digits-IsDigit 20 n

-- A text has at most as many digits as there is room for.
digits-le : (fuel n : ℕ) → length (digits fuel n) ≤ fuel
unfolding digits
digits-le zero n = omega arith
digits-le (suc fuel) n = elim (Bool-cases (ltb n 10)) [
  | inl e ↦ rw e (omega arith)
  | inr e ↦ rw e (
      omega
        (arith, length-append (digits fuel (n / 10)) ((48 + n % 10) ∷ []), digits-le fuel (n / 10)))
]

pub length-format_int : (n : ℕ) → length (format_int (pos n)) ≤ 20
unfolding format_int
length-format_int n = digits-le 20 n
