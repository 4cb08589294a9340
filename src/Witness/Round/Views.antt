-- ===== src/Witness/Round/Views.antt =====
-- internal/witness: a log's checkpoints submitted one after the other, each on its own.
use vitrum.Base.{
  ◌+◌, length, drop, ℕ, ◌<◌, ◌≤◌, List, [], true, false, ◌≡◌, ◌≢◌, ap, ◌∙◌, sym, refl, arith,
}
use vitrum.Base.Bytes.{Bytes, bytes_eq-false}
use vitrum.Base.Dict.{lookup}
use vitrum.Base.Int.{pos}
use vitrum.Witness.{Checkpoint}
use vitrum.Witness.Logs.{Store, IsStore}
use vitrum.Witness.Pool.{Logic, Witness, Reply, reply, conflict, consistent}
use vitrum.Witness.Request.{encode_add_checkpoint}
use vitrum.Witness.Request.RoundTrip.{IsHashText}
use vitrum.Witness.Round.{Turn, round}
use vitrum.Witness.Round.Alone.{IsReliable}
use vitrum.Witness.Round.Encoded.{Reads, IsProof, nil-IsProof}
use vitrum.Witness.Round.Consistent.{consistent_first, consistent_same, consistent_larger}
use vitrum.Witness.Round.Steps.{
  IsAt, Signs, round-conflict, round-inconsistent, round-taken, round-IsAt,
}

-- A checkpoint of the log as the witness reads it, of a tree that is not empty.
pub record IsView (g : Logic) (cp : Checkpoint) (note : Bytes) : Type 0 where
  pub text : Bytes
  pub size : ℕ
  pub reads : Reads g note text cp size
  pub positive : 0 < size

module _ {S I : Type 0} (g : Logic) (hash_string : Bytes → Bytes)
    (texts : IsHashText g.parse_hash hash_string) (store : Store S I) (good : IsStore store)
    (reliable : IsReliable store) (t : Turn I) (key : ℕ) (signing : Signs t key) (w : Witness S)
    (cp : Checkpoint) (note : Bytes) (view : IsView g cp note) where
  -- The witness and the answer after the note is submitted with an old size and a proof.
  abbrev pub after : ℕ → List Bytes → Witness S
  after old proof = (round g store t w (encode_add_checkpoint hash_string (pos old) proof note)).0

  abbrev pub answer : ℕ → List Bytes → Reply
  answer old proof = (round g store t w (encode_add_checkpoint hash_string (pos old) proof note)).1

  -- The answer is a cosignature, and the witness is at the checkpoint.
  pub record IsTaken (old : ℕ) (proof : List Bytes) : Type 0 where
    pub answered : (answer old proof).code ≡ 200
    pub at_checkpoint : IsAt store (after old proof) key cp.origin view.size cp.hash
    pub cosigned :
        answer old proof ≡ reply 200 (drop (length view.text + 1) (signing.signed view.text))
    pub others :
        (o : Bytes) → cp.origin ≢ o → store.get (after old proof).store o ≡ store.get w.store o

  taken :
      (n : ℕ) (hash : Bytes) (proof : List Bytes)
      → IsAt store w key cp.origin n hash
      → IsProof proof
      → n ≤ view.size
      → consistent g
          (store.get w.store cp.origin)
          (record { old = pos n; proof = proof; note = note })
          cp
        ≡ true
      → IsTaken n proof
  unfolding lookup
  taken n hash proof at fits le e =
      let c =
        round-taken g hash_string texts store good reliable t key signing w note view.text cp
          view.size n hash view.reads at proof fits le e in
      record {
        answered = ap (λ r. r.code) c.answered;
        at_checkpoint =
            round-IsAt g hash_string texts store good reliable t key signing w note view.text cp
              view.size n hash view.reads at proof fits le e;
        cosigned = c.answered;
        others = λ o ne. c.stored o ∙ rw (bytes_eq-false cp.origin o ne) refl;
      }

  -- The first sighting of a log.
  pub first-IsTaken : (hash : Bytes) → IsAt store w key cp.origin 0 hash → IsTaken 0 []
  first-IsTaken hash at = taken 0 hash [] at nil-IsProof (omega arith) (
      consistent_first g (store.get w.store cp.origin) note cp view.size view.reads.sized
        view.positive)

  -- The same checkpoint once more.
  pub same-IsTaken : IsAt store w key cp.origin view.size cp.hash → IsTaken view.size []
  same-IsTaken at = taken view.size cp.hash [] at nil-IsProof (omega arith) (
      consistent_same g (store.get w.store cp.origin) note cp view.size view.reads.sized
        view.positive (sym at.hash_at))

  module _ (n : ℕ) (hash : Bytes) (at : IsAt store w key cp.origin n hash) where
    -- A submission that names another size than the witness has.
    pub stale_lem :
        (old : ℕ) (proof : List Bytes)
        → IsProof proof
        → old ≤ view.size
        → old ≢ n
        → round g store t w (encode_add_checkpoint hash_string (pos old) proof note)
          ≡ (w, conflict (store.get w.store cp.origin))
    stale_lem old proof fits le ne =
        round-conflict g hash_string texts store good reliable t key signing w note view.text cp
          view.size n hash view.reads at old proof fits le ne

    module _ (proof : List Bytes) (fits : IsProof proof) (started : 0 < n)
        (grows : n < view.size) where
      checked :
          consistent g
            (store.get w.store cp.origin)
            (record { old = pos n; proof = proof; note = note })
            cp
          ≡ g.check_tree proof cp.n cp.hash (pos n) hash
      checked =
          consistent_larger g (store.get w.store cp.origin) note cp view.size view.reads.sized
            view.positive n proof started grows
          ∙ rw (at.hash_at, view.reads.sized) refl

      pub larger-IsTaken : g.check_tree proof cp.n cp.hash (pos n) hash ≡ true → IsTaken n proof
      larger-IsTaken holds = taken n hash proof at fits (omega arith) (checked ∙ holds)

      pub unproved_lem :
          g.check_tree proof cp.n cp.hash (pos n) hash ≡ false
          → round g store t w (encode_add_checkpoint hash_string (pos n) proof note)
            ≡ (w, reply 422 [])
      unproved_lem fails =
          round-inconsistent g hash_string texts store good reliable t key signing w note view.text
            cp view.size n hash view.reads at proof fits (omega arith) (checked ∙ fails)
