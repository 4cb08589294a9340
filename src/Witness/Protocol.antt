-- ===== src/Witness/Protocol.antt =====
-- internal/witness: submissions, signer changes and the sequencer, interleaved under their locks.
pub mod Sound
pub mod Safety
use vitrum.Base.{ℕ, Bool, Option, ◌≡◌}
use vitrum.Base.Bytes.{Bytes}
use vitrum.Base.Int.{ℤ}
use vitrum.Base.Result.{ok}
use vitrum.Witness.Logs.{Store}
use vitrum.Witness.Request.{Request}
use vitrum.Witness.Pool.{
  Candidate, Witness, Logic, new_witness, set_signer, clear_signer, check_request, add_to_pool,
}
use vitrum.Witness.Sequencer.{sequence_pool, rotate, retire, start_sequencer, end_sequencer}

-- Where the goroutine of RunSequencer stands: between two runs of sequence, or inside one, before
-- or after sequencePool.
pub data Phase : Type 0 where
  waiting rotated sequenced : Phase

module _ {S I : Type 0} (g : Logic) (store : Store S I) where
  -- One critical section of the code. `poolMu` covers addToPool and the two ends of sequence, `mu`
  -- covers sequencePool, SetSigner and ClearSigner. AddCheckpoint reads the signer, Halted and the
  -- epoch before it takes the lock, so a submission may carry any values of these.
  pub data Step : Phase → Witness S → Phase → Witness S → Type 0 where
    signer_set : {p : Phase} {w : Witness S} (key : ℕ) → Step p w p (set_signer g store w key)
    signer_cleared : {p : Phase} {w : Witness S} → Step p w p (clear_signer g store w)
    submitted :
        {p : Phase} {w : Witness S} (signer : Option ℕ) (halted : Bool) (epoch : ℕ) (body : Bytes)
        (req : Request) (c : Candidate)
        → check_request g signer halted epoch body ≡ ok (req, c)
        → Step p w p (add_to_pool g store w req c).0
    started : {p : Phase} {w : Witness S} → Step p w p (start_sequencer store w).0
    rotates : {w : Witness S} → Step waiting w rotated (rotate store w)
    sequences :
        {w : Witness S} (sign : ℕ → Bytes → Option Bytes) (now : ℤ) (i : I)
        → Step rotated w sequenced (sequence_pool store w sign now i)
    retires : {w : Witness S} → Step sequenced w waiting (retire store w)
    ended : {w : Witness S} → Step waiting w waiting (end_sequencer store w)

  -- The states of a witness that New made on some store.
  pub data Reach : Phase → Witness S → Type 0 where
    made : (s : S) → Reach waiting (new_witness g store s)
    next : {p q : Phase} {w v : Witness S} → Reach p w → Step p w q v → Reach q v
