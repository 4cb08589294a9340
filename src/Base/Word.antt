-- ===== src/Base/Word.antt =====
-- encoding/binary: fixed-width unsigned integers as bytes.
use Prim.Native.Nat.{ℕ, ◌+◌, ◌*◌, ◌/◌, ◌%◌, ◌^◌, ◌<◌}
use mathlib.Core.Path.{◌≡◌}
use mathlib.Core.List.{[], ◌∷◌, ◌++◌}
use native.Mathlib.Omega.{arith}
use vitrum.Base.Bytes.{Bytes}

abbrev pub IsU32 : ℕ → Type 0
IsU32 n = n < 2 ^ 32

-- binary.LittleEndian.PutUint16, PutUint32 and binary.BigEndian.PutUint16, PutUint32, on a value that fits.
abbrev pub le_put_uint16 : ℕ → Bytes
le_put_uint16 n = n % 256 ∷ n / 256 % 256 ∷ []

abbrev pub le_put_uint32 : ℕ → Bytes
le_put_uint32 n = n % 256 ∷ n / 256 % 256 ∷ n / 65536 % 256 ∷ n / 16777216 % 256 ∷ []

abbrev pub be_put_uint16 : ℕ → Bytes
be_put_uint16 n = n / 256 % 256 ∷ n % 256 ∷ []

abbrev pub be_put_uint32 : ℕ → Bytes
be_put_uint32 n = n / 16777216 % 256 ∷ n / 65536 % 256 ∷ n / 256 % 256 ∷ n % 256 ∷ []

-- The readers look at the first bytes of a slice. Go panics on a shorter slice; the callers check
-- the length first, and the value there is 0.
abbrev pub le_uint16 : Bytes → ℕ
le_uint16 (a ∷ b ∷ r) = a + b * 256
le_uint16 _ = 0

abbrev pub le_uint32 : Bytes → ℕ
le_uint32 (a ∷ b ∷ c ∷ d ∷ r) = a + b * 256 + c * 65536 + d * 16777216
le_uint32 _ = 0

abbrev pub be_uint16 : Bytes → ℕ
be_uint16 (a ∷ b ∷ r) = a * 256 + b
be_uint16 _ = 0

abbrev pub be_uint32 : Bytes → ℕ
be_uint32 (a ∷ b ∷ c ∷ d ∷ r) = a * 16777216 + b * 65536 + c * 256 + d
be_uint32 _ = 0

pub le_uint16-put : (n : ℕ) (r : Bytes) → n < 2 ^ 16 → le_uint16 (le_put_uint16 n ++ r) ≡ n
le_uint16-put n r h = omega arith

pub le_uint32-put : (n : ℕ) (r : Bytes) → IsU32 n → le_uint32 (le_put_uint32 n ++ r) ≡ n
le_uint32-put n r h = omega arith

pub be_uint32-put : (n : ℕ) (r : Bytes) → IsU32 n → be_uint32 (be_put_uint32 n ++ r) ≡ n
be_uint32-put n r h = omega arith
