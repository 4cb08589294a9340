-- ===== src/TestLog/SeedReader/Stream.antt =====
-- internal/testlog/seed.go: what reads return, one after another, is one stream.
use vitrum.Base.{
  ℕ, zero, suc, ◌+◌, ◌%◌, ◌^◌, ◌≤◌, List, [], ◌∷◌, ◌++◌, ◌≡◌, refl, sym, ap, ap₂, ◌∙◌, ltb,
  Bool-cases, inl, inr, length, take, drop, length-append, length-take, append_assoc, append-nil,
  arith,
}
use vitrum.Base.Bytes.{Bytes}
use vitrum.TestLog.SeedReader.{SeedReader, new_seed_reader, block, more, fill, read}

-- Reads of the given lengths, with what each of them returns.
unfoldable pub read_all : (Bytes → Bytes) → List ℕ → SeedReader → SeedReader × List Bytes
unfolding read
read_all sha256 [] r = (r, [])
read_all sha256 (n ∷ ns) r =
    let (r1, out) = read sha256 n r in let (r2, outs) = read_all sha256 ns r1 in (r2, out ∷ outs)

unfoldable pub concat : List Bytes → Bytes
concat [] = []
concat (b ∷ l) = b ++ concat l

abbrev pub lengths : List Bytes → List ℕ
lengths [] = []
lengths (b ∷ l) = length b ∷ lengths l

-- The first blocks of the stream: SHA-256 of the seed and a counter.
unfoldable pub blocks : (Bytes → Bytes) → Bytes → ℕ → Bytes
blocks sha256 seed zero = []
blocks sha256 seed (suc m) = blocks sha256 seed m ++ block sha256 seed (m % 2 ^ 64)

take-drop : (n : ℕ) (b : Bytes) → take n b ++ drop n b ≡ b
take-drop zero b = refl
take-drop (suc n) [] = refl
take-drop (suc n) (x ∷ b) = ap (λ (l : Bytes). x ∷ l) (take-drop n b)

module _ (sha256 : Bytes → Bytes) (hashes : (b : Bytes) → length (sha256 b) ≡ 32) where
  -- Bytes that were returned before, with what is in the buffer, are a start of the stream.
  pub record IsStream (seed before : Bytes) (r : SeedReader) : Type 0 where
    pub count : ℕ
    pub seeded : r.seed ≡ seed
    pub counted : r.ctr ≡ count % 2 ^ 64
    pub streamed : before ++ r.buf ≡ blocks sha256 seed count

  more-IsStream :
      (seed before : Bytes) (r : SeedReader)
      → IsStream seed before r
      → IsStream seed before (more sha256 r)
  unfolding blocks
  more-IsStream seed before r s = record {
    count = suc s.count;
    seeded = s.seeded;
    counted = rw s.counted (omega arith);
    streamed =
        sym (append_assoc before r.buf (block sha256 r.seed r.ctr))
        ∙ rw (s.streamed, s.seeded, s.counted) refl;
  }

  fill-IsStream :
      (fuel n : ℕ) (seed before : Bytes) (r : SeedReader)
      → IsStream seed before r
      → IsStream seed before (fill sha256 fuel n r)
  unfolding fill
  fill-IsStream zero n seed before r s = s
  fill-IsStream (suc fuel) n seed before r s = elim (Bool-cases (ltb (length r.buf) n)) [
    | inl e ↦
        rw e (fill-IsStream fuel n seed before (more sha256 r) (more-IsStream seed before r s))
    | inr e ↦ rw e s
  ]

  length-block : (seed : Bytes) (ctr : ℕ) → length (block sha256 seed ctr) ≡ 32
  unfolding block
  length-block seed ctr = hashes _

  length-fill :
      (fuel n : ℕ) (r : SeedReader)
      → n ≤ fuel + length r.buf
      → n ≤ length (fill sha256 fuel n r).buf
  unfolding fill
  length-fill zero n r h = omega arith
  length-fill (suc fuel) n r h = elim (Bool-cases (ltb (length r.buf) n)) [
    | inl e ↦ rw e (
        length-fill fuel n (more sha256 r) (
          omega
            (arith, length-append r.buf (block sha256 r.seed r.ctr), length-block r.seed r.ctr)))
    | inr e ↦ rw e (ground arith)
  ]

  read-IsStream :
      (n : ℕ) (seed before : Bytes) (r : SeedReader)
      → IsStream seed before r
      → IsStream seed (before ++ (read sha256 n r).1) (read sha256 n r).0
  unfolding read
  read-IsStream n seed before r s =
      let k = fill-IsStream n n seed before r s in
      record {
        count = k.count;
        seeded = k.seeded;
        counted = k.counted;
        streamed =
            append_assoc before (take n (fill sha256 n n r).buf) (drop n (fill sha256 n n r).buf)
            ∙ ap (λ (b : Bytes). before ++ b) (take-drop n (fill sha256 n n r).buf)
            ∙ k.streamed;
      }

  length-read : (n : ℕ) (r : SeedReader) → length (read sha256 n r).1 ≡ n
  unfolding read
  length-read n r = length-take n (fill sha256 n n r).buf (length-fill n n r (omega arith))

  read_on-IsStream :
      (ns : List ℕ) (seed before : Bytes) (r : SeedReader)
      → IsStream seed before r
      → IsStream seed (before ++ concat (read_all sha256 ns r).1) (read_all sha256 ns r).0
  unfolding read_all concat
  read_on-IsStream [] seed before r s = rw (append-nil before) s
  read_on-IsStream (n ∷ ns) seed before r s =
      rw
        (← append_assoc before (read sha256 n r).1
          (concat (read_all sha256 ns (read sha256 n r).0).1))
        (read_on-IsStream ns seed (before ++ (read sha256 n r).1) (read sha256 n r).0
          (read-IsStream n seed before r s))

  lengths-read_all : (ns : List ℕ) (r : SeedReader) → lengths (read_all sha256 ns r).1 ≡ ns
  unfolding read_all
  lengths-read_all [] r = refl
  lengths-read_all (n ∷ ns) r =
      ap₂ (λ (k : ℕ) (ks : List ℕ). k ∷ ks) (length-read n r)
        (lengths-read_all ns (read sha256 n r).0)

  -- Every read of a new SeedReader, of whatever length, fills its slice; and what any reads
  -- return, one after the other, followed by what the reader still holds, is SHA-256 of the
  -- seed and 0, of the seed and 1, and so on, with a counter of 64 bits that wraps. A hash has
  -- 32 bytes.
  pub read_all-IsStream :
      (seed : Bytes) (ns : List ℕ)
      → (lengths (read_all sha256 ns (new_seed_reader seed)).1 ≡ ns)
        × IsStream seed
            (concat (read_all sha256 ns (new_seed_reader seed)).1)
            (read_all sha256 ns (new_seed_reader seed)).0
  unfolding blocks
  read_all-IsStream seed ns = (
    lengths-read_all ns (new_seed_reader seed),
    read_on-IsStream ns seed [] (new_seed_reader seed)
        (record { count = 0; seeded = refl; counted = refl; streamed = refl }),
  )
