-- ===== src/Witness/Request/RoundTrip.antt =====
-- internal/witness: parseRequest reads back what EncodeAddCheckpoint writes, and stays in bounds.
use vitrum.Base.{
  ℕ, zero, suc, ◌^◌, ◌≤◌, ◌<◌, ◌≡◌, ◌≢◌, refl, ◌∙◌, List, [], ◌∷◌, ◌++◌, Option, some, length, All,
  All-map, append_assoc, append-nil, arith,
}
use vitrum.Base.Bytes.{Bytes, codes, bytes_eq_refl}
use vitrum.Base.Int.{pos}
use vitrum.Base.Decimal.{format_int}
use vitrum.Base.Decimal.RoundTrip.{IsDigit, format_int-IsDigit, parse_int-format_int}
use vitrum.Base.Result.{ok, ◌>>=◌}
use vitrum.Witness.Request.{
  max_proof_lines, cut_line, cut_prefix, or_error, parse_old, proof_loop, parse_request, proof_text,
  encode_add_checkpoint, invalid_proof_hash,
}

cut_line-append : (l r : Bytes) → All (λ c. c ≢ 10) l → cut_line (l ++ (10 ∷ r)) ≡ some (l, r)
unfolding cut_line
cut_line-append [] r h = refl
cut_line-append (x ∷ l) r h = ground (arith, cut_line-append l r h.1, h.0)

-- The text of a hash is one line that is not empty, and ParseHash reads it back.
pub record IsHashText (parse_hash : Bytes → Option Bytes) (hash_string : Bytes → Bytes)
    : Type 0 where
  pub read_back : (h : Bytes) → length h ≡ 32 → parse_hash (hash_string h) ≡ some h
  pub one_line : (h : Bytes) → All (λ c. c ≢ 10) (hash_string h)
  pub not_empty : (h : Bytes) → hash_string h ≢ []

module _ (parse_hash : Bytes → Option Bytes) (hash_string : Bytes → Bytes)
    (good : IsHashText parse_hash hash_string) where
  -- One round of the loop, on the line of a hash.
  proof_loop_line :
      (room : ℕ) (h rest : Bytes) (acc : List Bytes)
      → length h ≡ 32
      → proof_loop parse_hash (suc room) (hash_string h ++ (10 ∷ rest)) acc
        ≡ proof_loop parse_hash room rest (acc ++ (h ∷ []))
  unfolding proof_loop
  proof_loop_line room h rest acc hl =
      rw (cut_line-append (hash_string h) rest (good.one_line h))
        (go (hash_string h) (good.not_empty h) (good.read_back h hl))
    where
      go :
          (l : Bytes)
          → l ≢ []
          → parse_hash l ≡ some h
          → (elim l [
            | [] ↦ ok (acc, rest)
            | ◌∷◌ x r ↦ or_error invalid_proof_hash (parse_hash (x ∷ r)) >>= λ h.
                proof_loop parse_hash room rest (acc ++ (h ∷ []))
          ])
            ≡ proof_loop parse_hash room rest (acc ++ (h ∷ []))
      go [] ne e = absurd (ne refl)
      go (x ∷ r) ne e = rw e

  proof_loop_end :
      (room : ℕ) (note : Bytes) (acc : List Bytes)
      → proof_loop parse_hash room (10 ∷ note) acc ≡ ok (acc, note)
  unfolding proof_loop cut_line
  proof_loop_end zero note acc = refl
  proof_loop_end (suc room) note acc = refl

  proof_loop-proof_text :
      (proof : List Bytes) (room : ℕ) (note : Bytes) (acc : List Bytes)
      → All (λ h. length h ≡ 32) proof
      → length proof ≤ room
      → proof_loop parse_hash room (proof_text hash_string proof ++ (10 ∷ note)) acc
        ≡ ok (acc ++ proof, note)
  unfolding proof_text
  proof_loop-proof_text [] room note acc hp h = proof_loop_end room note acc ∙ rw (append-nil acc)
  proof_loop-proof_text (x ∷ proof) zero note acc hp h = absurd (omega arith)
  proof_loop-proof_text (x ∷ proof) (suc room) note acc (hx, hp) h =
      rw (append_assoc (hash_string x) (10 ∷ proof_text hash_string proof) (10 ∷ note))
        (proof_loop_line room x (proof_text hash_string proof ++ (10 ∷ note)) acc hx)
      ∙ proof_loop-proof_text proof room note (acc ++ (x ∷ [])) hp (omega arith)
      ∙ rw (append_assoc acc (x ∷ []) proof)

  parse_old-format_int : (n : ℕ) → n < 2 ^ 63 → parse_old (format_int (pos n)) ≡ ok (pos n)
  unfolding parse_old
  parse_old-format_int n h =
      rw (parse_int-format_int n h, bytes_eq_refl (format_int (pos n))) (ground arith)

  cut_old : (b : Bytes) → cut_prefix (codes "old ") (codes "old " ++ b) ≡ some b
  unfolding cut_prefix
  cut_old b = refl

  old_line-IsLine : (n : ℕ) → All (λ c. c ≢ 10) (codes "old " ++ format_int (pos n))
  old_line-IsLine n = (
    omega arith,
    (
      omega arith,
      (
        omega arith,
        (
          omega arith,
          All-map IsDigit (λ c. c ≢ 10) (format_int (pos n)) digit-ne (format_int-IsDigit n),
        ),
      ),
    ),
  )
    where
      digit-ne : (c : ℕ) → IsDigit c → c ≢ 10
      digit-ne c h = omega arith

  -- The witness parses what the feeder encodes, for a size below 2 ^ 63, at most 63 hashes of
  -- 32 bytes and a note that is not empty, when the text of a hash is one line that is not
  -- empty and parses back.
  pub parse_request-encode :
      (n : ℕ) (proof : List Bytes) (note : Bytes)
      → n < 2 ^ 63
      → All (λ h. length h ≡ 32) proof
      → length proof ≤ max_proof_lines
      → note ≢ []
      → parse_request parse_hash (encode_add_checkpoint hash_string (pos n) proof note)
        ≡ ok (record { old = pos n; proof = proof; note = note })
  unfolding parse_request encode_add_checkpoint
  parse_request-encode n proof [] h hp hl ne = absurd (ne refl)
  parse_request-encode n proof (x ∷ note) h hp hl ne = rw (
    cut_line-append (codes "old " ++ format_int (pos n))
        (proof_text hash_string proof ++ (10 ∷ (x ∷ note))) (old_line-IsLine n),
    cut_old (format_int (pos n)),
    parse_old-format_int n h,
    proof_loop-proof_text proof max_proof_lines (x ∷ note) [] hp hl,
  )
