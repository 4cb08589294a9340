-- ===== src/Base/Text.antt =====
-- bytes.TrimSpace, strings.TrimSpace and strings.Fields, on UTF-8: white space is what
-- unicode.IsSpace says, and its encodings have one, two or three bytes.
pub mod Words
pub mod Numbers
use Prim.Native.Nat.{ℕ, zero, suc}
use mathlib.Core.Bool.{Bool, true, false, ◌&&◌, ◌||◌}
use mathlib.Core.Option.{Option, none, some}
use mathlib.Core.List.{List, [], ◌∷◌, ◌++◌, reverse}
use vitrum.Base.Test.{leb, ◌==◌, if◌then◌else◌}
use vitrum.Base.Seq.{length}
use vitrum.Base.Bytes.{Bytes}

-- '\t', '\n', '\v', '\f', '\r' and ' '
abbrev pub is_ascii_space : ℕ → Bool
is_ascii_space c = leb 9 c && leb c 13 || c == 32

-- U+0085 and U+00A0
abbrev is_space_pair : ℕ → ℕ → Bool
is_space_pair c d = c == 194 && (d == 133 || d == 160)

-- U+1680, U+2000 to U+200A, U+2028, U+2029, U+202F, U+205F and U+3000
abbrev is_space_triple : ℕ → ℕ → ℕ → Bool
is_space_triple c d e =
    c == 225 && d == 154 && e == 128
    || c == 226 && d == 128 && (leb 128 e && leb e 138 || e == 168 || e == 169 || e == 175)
    || c == 226 && d == 129 && e == 159
    || c == 227 && d == 128 && e == 128

after_triple : ℕ → ℕ → Bytes → Option Bytes
after_triple c d [] = none
after_triple c d (e ∷ r) = if is_space_triple c d e then some r else none

after_pair : ℕ → Bytes → Option Bytes
unfolding after_triple
after_pair c [] = none
after_pair c (d ∷ r) = if is_space_pair c d then some r else after_triple c d r

-- What follows the white space at the front, if there is one.
unfoldable pub strip_space : Bytes → Option Bytes
unfolding after_pair
strip_space [] = none
strip_space (c ∷ r) = if is_ascii_space c then some r else after_pair c r

before_triple : ℕ → ℕ → Bytes → Option Bytes
before_triple d e [] = none
before_triple d e (c ∷ r) = if is_space_triple c d e then some r else none

before_pair : ℕ → Bytes → Option Bytes
unfolding before_triple
before_pair d [] = none
before_pair d (c ∷ r) = if is_space_pair c d then some r else before_triple c d r

-- The same at the end, on the reversed bytes.
unfoldable pub strip_space_back : Bytes → Option Bytes
unfolding before_pair
strip_space_back [] = none
strip_space_back (c ∷ r) = if is_ascii_space c then some r else before_pair c r

-- A white space that is stripped shortens the bytes, so their length is fuel enough.
unfoldable pub strip_all : (Bytes → Option Bytes) → ℕ → Bytes → Bytes
strip_all strip zero b = b
strip_all strip (suc fuel) b = elim (strip b) [ none ↦ b | some r ↦ strip_all strip fuel r ]

unfoldable pub trim_left : Bytes → Bytes
unfolding strip_all
trim_left b = strip_all strip_space (length b) b

unfoldable pub trim_right_space : Bytes → Bytes
unfolding strip_all
trim_right_space b = reverse (strip_all strip_space_back (length b) (reverse b))

unfoldable pub trim_space : Bytes → Bytes
unfolding trim_left trim_right_space
trim_space b = trim_right_space (trim_left b)

-- A field that ends, if it has any bytes.
abbrev pub end_field : Bytes → List Bytes → List Bytes
end_field [] rest = rest
end_field (c ∷ r) rest = (c ∷ r) ∷ rest

-- The loop of strings.Fields, on the field that is being read and the rest.
unfoldable pub fields_loop : ℕ → Bytes → Bytes → List Bytes
fields_loop zero cur b = end_field cur []
fields_loop (suc fuel) cur [] = end_field cur []
fields_loop (suc fuel) cur (c ∷ r) = elim (strip_space (c ∷ r)) [
  | some rest ↦ end_field cur (fields_loop fuel [] rest)
  | none ↦ fields_loop fuel (cur ++ (c ∷ [])) r
]

unfoldable pub fields : Bytes → List Bytes
unfolding fields_loop
fields b = fields_loop (length b) [] b
