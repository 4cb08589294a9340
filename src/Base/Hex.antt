-- ===== src/Base/Hex.antt =====
-- hex.EncodeToString and hex.Decode.
use Prim.Native.Nat.{ℕ, ◌+◌, ◌-◌, ◌*◌, ◌/◌, ◌%◌, ◌≤◌, ◌<◌}
use mathlib.Core.Path.{◌≡◌, refl}
use mathlib.Core.Logic.{inl, inr}
use mathlib.Core.Bool.{◌&&◌}
use mathlib.Core.Option.{Option, none, some}
use mathlib.Core.List.{[], ◌∷◌}
use native.Mathlib.Omega.{arith}
use vitrum.Base.Test.{Option-cases, ltb, leb, if◌then◌else◌}
use vitrum.Base.Seq.{length, All}
use vitrum.Base.Bytes.{Bytes, IsByte}

abbrev pub hex_digit : ℕ → ℕ
hex_digit n = if ltb n 10 then 48 + n else 87 + n

-- A digit of either case.
abbrev pub unhex : ℕ → Option ℕ
unhex c =
    if leb 48 c && leb c 57
    then some (c - 48)
    else if leb 97 c && leb c 102
    then some (c - 87)
    else if leb 65 c && leb c 70
    then some (c - 55)
    else none

unfoldable pub encode_hex : Bytes → Bytes
encode_hex [] = []
encode_hex (b ∷ r) = hex_digit (b / 16) ∷ hex_digit (b % 16) ∷ encode_hex r

abbrev hex_byte : Option ℕ → Option ℕ → Option Bytes → Option Bytes
hex_byte (some a) (some b) (some r) = some ((a * 16 + b) ∷ r)
hex_byte _ _ _ = none

unfoldable pub decode_hex : Bytes → Option Bytes
decode_hex [] = some []
decode_hex (x ∷ []) = none
decode_hex (x ∷ y ∷ r) = hex_byte (unhex x) (unhex y) (decode_hex r)

abbrev hex_cons : Option ℕ → Option ℕ → Bytes → Bytes
hex_cons (some a) (some b) r = (a * 16 + b) ∷ r
hex_cons _ _ r = []

-- What hex.Decode writes, of a text that may be bad: the bytes before the first bad pair.
unfoldable pub hex_prefix : Bytes → Bytes
hex_prefix [] = []
hex_prefix (x ∷ []) = []
hex_prefix (x ∷ y ∷ r) = hex_cons (unhex x) (unhex y) (hex_prefix r)

unhex-hex_digit : (n : ℕ) → n < 16 → unhex (hex_digit n) ≡ some n
unhex-hex_digit n h = ground arith

pub decode_hex-encode_hex : (b : Bytes) → All IsByte b → decode_hex (encode_hex b) ≡ some b
unfolding decode_hex encode_hex
decode_hex-encode_hex [] h = refl
decode_hex-encode_hex (x ∷ r) (hx, hr) =
    rw
      (
        unhex-hex_digit (x / 16) (omega arith),
        unhex-hex_digit (x % 16) (omega arith),
        decode_hex-encode_hex r hr,
      )
      (ground arith)

pub length-encode_hex : (b : Bytes) → length (encode_hex b) ≡ 2 * length b
unfolding encode_hex
length-encode_hex [] = refl
length-encode_hex (x ∷ r) = omega (arith, length-encode_hex r)

-- Hex digits are printing ASCII.
pub encode_hex-All : (b : Bytes) → All IsByte b → All (λ c. (33 ≤ c) × (c ≤ 126)) (encode_hex b)
unfolding encode_hex
encode_hex-All [] h = tt
encode_hex-All (x ∷ r) (hx, hr) =
    ((ground arith, ground arith), ((ground arith, ground arith), encode_hex-All r hr))

-- Two digits make a byte.
pub decode_hex-length : (t b : Bytes) → decode_hex t ≡ some b → length t ≡ 2 * length b
unfolding decode_hex
decode_hex-length [] b h = ground arith
decode_hex-length (x ∷ []) b h = ground arith
decode_hex-length (x ∷ y ∷ r) b h = elim (Option-cases (decode_hex r)) [
  | inl e ↦ ground arith
  | inr (s, e) ↦ ground (arith, decode_hex-length r s)
]
