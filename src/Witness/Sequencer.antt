-- ===== src/Witness/Sequencer.antt =====
-- internal/witness/witness.go: RunSequencer, sequence, sequencePool, setPoolResult and stopPools.
pub mod Answers
pub mod Commit
pub mod Entries
use vitrum.Base.{
  ℕ, ◌+◌, List, [], ◌∷◌, Bool, true, false, Option, none, some, not, ◌&&◌, ◌==◌, if◌then◌else◌,
  length, drop,
}
use vitrum.Base.Bytes.{Bytes, codes}
use vitrum.Base.Dict.{Dict}
use vitrum.Base.Int.{ℤ}
use vitrum.Witness.{Checkpoint, LogState}
use vitrum.Witness.Logs.{Store}
use vitrum.Witness.Pool.{Reply, Candidate, PoolEntry, Pool, Witness, reply, count, null}

-- What the loop of sequencePool makes of a pool.
pub record Batch : Type 0 where
  pub entries : Pool
  pub states : Dict LogState
  pub sign_failed : Bool

-- The three ways through the loop's body.
pub data Signing : Type 0 where
  key_changed : Signing
  failed : Signing
  signed : Bytes → Signing

abbrev pub with_result : PoolEntry → Reply → PoolEntry
with_result e r = record e { result = r }

unfoldable pub set_pool_result : Pool → Reply → Pool
set_pool_result [] r = []
set_pool_result ((origin, e) ∷ p) r = (origin, with_result e r) ∷ set_pool_result p r

abbrev of_sign : Option Bytes → Signing
of_sign none = failed
of_sign (some s) = signed s

-- The state that a signed entry puts into the store.
abbrev pub next_state : Candidate → Bytes → LogState
next_state c s = record { size = c.cp.n; hash = c.cp.hash; note = s }

unfoldable pub sign_entry : Bytes → PoolEntry → Signing → Batch → Batch
sign_entry origin e key_changed b = record b {
  entries =
      (
        origin,
        with_result e (reply 503 (codes "witness key changed while checkpoint was pending\n")),
      )
      ∷ b.entries;
}
sign_entry origin e failed b = record b {
  entries = (origin, with_result e (reply 500 [])) ∷ b.entries;
  sign_failed = true;
}
sign_entry origin e (signed s) b = record {
  entries = (origin, with_result e (reply 200 (drop (length e.candidate.text + 1) s))) ∷ b.entries;
  states = (origin, next_state e.candidate s) ∷ b.states;
  sign_failed = b.sign_failed;
}

-- `sign` is note.Sign at the moment of the batch: a signer adds the time to what it signs.
module _ (sign : ℕ → Bytes → Option Bytes) where
  unfoldable pub signing : ℕ → ℕ → PoolEntry → Signing
  signing key epoch e =
      if not (e.candidate.signer == key && e.candidate.epoch == epoch)
      then key_changed
      else of_sign (sign key e.candidate.text)

  unfoldable pub sign_entries : ℕ → ℕ → Pool → Batch
  unfolding sign_entry signing
  sign_entries key epoch [] = record { entries = []; states = []; sign_failed = false }
  sign_entries key epoch ((origin, e) ∷ p) =
      sign_entry origin e (signing key epoch e) (sign_entries key epoch p)

module _ {S I : Type 0} (store : Store S I) where
  unfoldable pub fail_batch : Witness S → Reply → Witness S
  unfolding set_pool_result
  fail_batch w r = record w {
    in_sequencing = set_pool_result w.in_sequencing r;
    batches_failed = count w.batches_failed;
  }

  -- sequencePool on what PutBatch returned
  unfoldable pub after_put : Witness S → Pool → ℤ → S × Bool → Witness S
  unfolding fail_batch
  after_put w entries now (s, true) = record w {
    store = s;
    in_sequencing = entries;
    batches_committed = count w.batches_committed;
    last_commit = now;
  }
  after_put w entries now (s, false) = fail_batch (record w { store = s }) (reply 500 [])

  -- sequencePool after its loop
  unfoldable pub commit_batch : Witness S → Batch → ℤ → I → Witness S
  unfolding fail_batch after_put
  commit_batch w b now i =
      if b.sign_failed
      then fail_batch w (reply 500 [])
      else if null b.states
      then record w { in_sequencing = b.entries; batches_failed = count w.batches_failed }
      else after_put w b.entries now (store.put_batch w.store i b.states)

  unfoldable pub sequence_pool : Witness S → (ℕ → Bytes → Option Bytes) → ℤ → I → Witness S
  unfolding fail_batch commit_batch sign_entries
  sequence_pool w sign now i = if null w.in_sequencing then w else (elim w.signer [
    | none ↦ fail_batch w (reply 503 (codes "witness key not provisioned\n"))
    | some key ↦
        if store.halted w.store
        then fail_batch w
            (reply 503 (codes "witness halted: storage rollback or tamper detected\n"))
        else commit_batch w (sign_entries sign key w.epoch w.in_sequencing) now i
  ])

  -- The two locked parts of sequence around sequencePool.
  unfoldable pub rotate : Witness S → Witness S
  rotate w = record w { current_pool = []; in_sequencing = w.current_pool }

  unfoldable pub retire : Witness S → Witness S
  retire w = record w { in_sequencing = []; closed = w.in_sequencing ∷ w.closed }

  unfoldable pub sequence : Witness S → (ℕ → Bytes → Option Bytes) → ℤ → I → Witness S
  unfolding rotate sequence_pool retire
  sequence w sign now i = retire (sequence_pool (rotate w) sign now i)

  unfoldable pub stop_pools : Witness S → Witness S
  unfolding set_pool_result
  stop_pools w = record w {
    current_pool = [];
    closed =
        set_pool_result w.current_pool (reply 503 (codes "witness sequencer stopped\n")) ∷ w.closed;
  }

  -- The start of RunSequencer: whether this call is the one that runs.
  unfoldable pub start_sequencer : Witness S → Witness S × Bool
  start_sequencer w = if w.running then (w, false) else (record w { running = true }, true)

  -- The end of RunSequencer: the context is done.
  unfoldable pub end_sequencer : Witness S → Witness S
  unfolding stop_pools
  end_sequencer w = record (stop_pools w) { running = false }
