-- ===== src/TestLog/SeedReader.antt =====
-- internal/testlog/seed.go: SeedReader. SHA-256 is a parameter.
pub mod Stream
use vitrum.Base.{
  ℕ, zero, suc, ◌+◌, ◌/◌, ◌%◌, ◌^◌, [], ◌∷◌, ◌++◌, ltb, if◌then◌else◌, length, take, drop,
}
use vitrum.Base.Bytes.{Bytes}

pub record SeedReader : Type 0 where
  pub seed : Bytes
  pub ctr : ℕ
  pub buf : Bytes

-- binary.Write of a uint64, in big-endian order
abbrev pub be_uint64 : ℕ → Bytes
be_uint64 n =
    n / 2 ^ 56 % 256
    ∷ n / 2 ^ 48 % 256
    ∷ n / 2 ^ 40 % 256
    ∷ n / 2 ^ 32 % 256
    ∷ n / 2 ^ 24 % 256
    ∷ n / 2 ^ 16 % 256
    ∷ n / 2 ^ 8 % 256
    ∷ n % 256
    ∷ []

abbrev pub new_seed_reader : Bytes → SeedReader
new_seed_reader seed = record { seed = seed; ctr = 0; buf = [] }

module _ (sha256 : Bytes → Bytes) where
  unfoldable pub block : Bytes → ℕ → Bytes
  block seed ctr = sha256 (seed ++ be_uint64 ctr)

  abbrev pub more : SeedReader → SeedReader
  more r = record r { ctr = (r.ctr + 1) % 2 ^ 64; buf = r.buf ++ block r.seed r.ctr }

  -- The loop of Read, for a slice of `n` bytes.
  unfoldable pub fill : ℕ → ℕ → SeedReader → SeedReader
  unfolding block
  fill zero n r = r
  fill (suc fuel) n r = let rest = fill fuel n (more r) in if ltb (length r.buf) n then rest else r

  -- Read into a slice of `n` bytes. Every block has bytes, so there are at most `n` rounds.
  unfoldable pub read : ℕ → SeedReader → SeedReader × Bytes
  unfolding fill
  read n r = let full = fill n n r in (record full { buf = drop n full.buf }, take n full.buf)
