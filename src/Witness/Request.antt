-- ===== src/Witness/Request.antt =====
-- internal/witness/witness.go: parseRequest, and wire.go: EncodeAddCheckpoint. tlog.ParseHash and
-- the text of a tlog.Hash are parameters.
pub mod RoundTrip
use vitrum.Base.{
  ℕ, zero, suc, List, [], ◌∷◌, ◌++◌, Bool, true, false, Option, none, some, not, ◌||◌, ◌==◌,
  if◌then◌else◌,
}
use vitrum.Base.Bytes.{Bytes, codes, bytes_eq}
use vitrum.Base.Int.{ℤ, pos, negsuc, int_lt}
use vitrum.Base.Decimal.{format_int, parse_int}
use vitrum.Base.Result.{Result, ok, err, ◌>>=◌}

pub record Request : Type 0 where
  pub old : ℤ
  pub proof : List Bytes
  pub note : Bytes

-- The messages of parseRequest's errors.
pub data RequestError : Type 0 where
  missing_old_size bad_first_line invalid_old_size : RequestError
  missing_checkpoint too_many_proof_lines invalid_proof_hash empty_checkpoint : RequestError

abbrev pub max_proof_lines : ℕ
max_proof_lines = 63

abbrev cut_behind : ℕ → Option (Bytes × Bytes) → Option (Bytes × Bytes)
cut_behind x none = none
cut_behind x (some (line, rest)) = some (x ∷ line, rest)

-- bytes.Cut(b, []byte("\n"))
unfoldable pub cut_line : Bytes → Option (Bytes × Bytes)
cut_line [] = none
cut_line (x ∷ r) = if x == 10 then some ([], r) else cut_behind x (cut_line r)

-- strings.CutPrefix
unfoldable pub cut_prefix : Bytes → Bytes → Option Bytes
cut_prefix [] b = some b
cut_prefix (p ∷ ps) [] = none
cut_prefix (p ∷ ps) (x ∷ b) = if p == x then cut_prefix ps b else none

abbrev pub or_error {ℓ} : {A : Type ℓ} → RequestError → Option A → Result RequestError A
or_error e none = err e
or_error e (some a) = ok a

-- The size line: a number that is not negative, in the form that FormatInt gives it.
unfoldable pub parse_old : Bytes → Result RequestError ℤ
parse_old s = do
  old ← or_error invalid_old_size (parse_int s)
  (if int_lt old (pos 0) || not (bytes_eq s (format_int old)) then err invalid_old_size else ok old)

module _ (parse_hash : Bytes → Option Bytes) where
  -- The loop over the proof lines, with room for so many more.
  unfoldable pub proof_loop : ℕ → Bytes → List Bytes → Result RequestError (List Bytes × Bytes)
  proof_loop zero rest proof = do
    (line, after) ← or_error missing_checkpoint (cut_line rest)
    (elim line [ [] ↦ ok (proof, after) | ◌∷◌ x l ↦ err too_many_proof_lines ])
  proof_loop (suc room) rest proof = do
    (line, after) ← or_error missing_checkpoint (cut_line rest)
    (elim line [
      | [] ↦ ok (proof, after)
      | ◌∷◌ x l ↦ or_error invalid_proof_hash (parse_hash (x ∷ l)) >>= λ h.
          proof_loop room after (proof ++ (h ∷ []))
    ])

  unfoldable pub parse_request : Bytes → Result RequestError Request
  unfolding proof_loop parse_old
  parse_request body = do
    (line, rest) ← or_error missing_old_size (cut_line body)
    size ← or_error bad_first_line (cut_prefix (codes "old ") line)
    old ← parse_old size
    (proof, note) ← proof_loop max_proof_lines rest []
    (elim note [
      | [] ↦ err empty_checkpoint
      | ◌∷◌ x r ↦ ok (record { old = old; proof = proof; note = x ∷ r })
    ])

module _ (hash_string : Bytes → Bytes) where
  -- fmt.Fprintln(&b, h) for every hash of the proof
  unfoldable pub proof_text : List Bytes → Bytes
  proof_text [] = []
  proof_text (h ∷ proof) = hash_string h ++ (10 ∷ proof_text proof)

  unfoldable pub encode_add_checkpoint : ℤ → List Bytes → Bytes → Bytes
  unfolding proof_text
  encode_add_checkpoint old proof cp_note =
      codes "old " ++ (format_int old ++ (10 ∷ (proof_text proof ++ (10 ∷ cp_note))))
