-- ===== src/Witness/Status.antt =====
-- internal/witness/witness.go: Provisioned, Verifier, Logs and Status.
use vitrum.Base.{ℕ, [], Bool, true, false, Option, none, some, length, if◌then◌else◌}
use vitrum.Base.Bytes.{Bytes}
use vitrum.Base.Dict.{Dict}
use vitrum.Base.Int.{ℤ, pos, int_eq}
use vitrum.Witness.{LogState}
use vitrum.Witness.Logs.{Store}
use vitrum.Witness.Pool.{Witness}

-- `none` is the zero time, and a store without a generation.
pub record Status : Type 0 where
  pub sequencer_running : Bool
  pub pending : ℕ
  pub sequencing : ℕ
  pub batches_committed : ℕ
  pub batches_failed : ℕ
  pub last_commit : Option ℤ
  pub generation : Option ℕ

module _ {S I : Type 0} (store : Store S I) where
  abbrev pub provisioned : Witness S → Bool
  provisioned w = elim w.signer [ none ↦ false | some key ↦ true ]

  -- The text of a signer's verifier key is a parameter.
  abbrev pub verifier : (ℕ → Bytes) → Witness S → Bytes
  verifier verifier_of w = elim w.signer [ none ↦ [] | some key ↦ verifier_of key ]

  abbrev pub logs : Witness S → Dict LogState
  logs w = store.all w.store

  -- `generation_of` is the method Generation of a store that has one.
  abbrev pub status_of : (S → Option ℕ) → Witness S → Status
  status_of generation_of w = record {
    sequencer_running = w.running;
    pending = length w.current_pool;
    sequencing = length w.in_sequencing;
    batches_committed = w.batches_committed;
    batches_failed = w.batches_failed;
    last_commit = if int_eq w.last_commit (pos 0) then none else some w.last_commit;
    generation = generation_of w.store;
  }
