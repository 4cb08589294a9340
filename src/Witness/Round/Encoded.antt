-- ===== src/Witness/Round/Encoded.antt =====
-- internal/witness: what AddCheckpoint makes of a body that EncodeAddCheckpoint made.
use vitrum.Base.{
  ℕ, ◌^◌, ◌<◌, ◌≤◌, List, [], Bool, false, Option, some, ◌≡◌, ◌≢◌, All, length, arith,
}
use vitrum.Base.Bytes.{Bytes}
use vitrum.Base.Int.{pos}
use vitrum.Base.Result.{ok}
use vitrum.Witness.{Checkpoint}
use vitrum.Witness.Note.{note_text}
use vitrum.Witness.Request.{encode_add_checkpoint, max_proof_lines}
use vitrum.Witness.Request.RoundTrip.{IsHashText, parse_request-encode}
use vitrum.Witness.Pool.{Logic, check_request}

-- A signed note as the witness reads it.
pub record Reads (g : Logic) (note text : Bytes) (cp : Checkpoint) (size : ℕ) : Type 0 where
  pub not_empty : note ≢ []
  pub splits : note_text note ≡ some text
  pub parses : g.parse_checkpoint text ≡ some cp
  pub sized : cp.n ≡ pos size
  pub in_range : size < 2 ^ 63

-- The hashes of a proof that fits a request.
pub record IsProof (proof : List Bytes) : Type 0 where
  pub hashes : All (λ h. length h ≡ 32) proof
  pub few : length proof ≤ max_proof_lines

pub nil-IsProof : IsProof []
nil-IsProof = record { hashes = tt; few = omega arith }

module _ (g : Logic) (hash_string : Bytes → Bytes)
    (good : IsHashText g.parse_hash hash_string) where
  pub check_request-encode :
      (signer : Option ℕ) (halted : Bool) (key epoch old size : ℕ) (proof : List Bytes)
      (note text : Bytes) (cp : Checkpoint)
      → signer ≡ some key
      → halted ≡ false
      → Reads g note text cp size
      → IsProof proof
      → old ≤ size
      → check_request g signer halted epoch (encode_add_checkpoint hash_string (pos old) proof note)
        ≡ ok (
          record { old = pos old; proof = proof; note = note },
          record { cp = cp; text = text; signer = key; epoch = epoch },
        )
  unfolding check_request
  check_request-encode signer halted key epoch old size proof note text cp signs runs r p le =
      let bound : old < 2 ^ 63 = omega (arith, r.in_range) in
      rw
        (
          signs,
          runs,
          parse_request-encode g.parse_hash hash_string good old proof note bound p.hashes p.few
              r.not_empty,
          r.splits,
          r.parses,
          r.sized,
        )
        (ground arith)
