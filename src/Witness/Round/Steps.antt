-- ===== src/Witness/Round/Steps.antt =====
-- internal/witness: the answers to a submission on its own, by the size that the witness has.
use vitrum.Base.{ℕ, ◌≤◌, List, [], Bool, true, false, none, some, ◌≡◌, ◌≢◌, refl, ◌∙◌, arith}
use vitrum.Base.Bytes.{Bytes, bytes_eq_refl}
use vitrum.Base.Dict.{lookup}
use vitrum.Base.Int.{pos, int_eq}
use vitrum.Witness.{Checkpoint}
use vitrum.Witness.Logs.{Store, IsStore}
use vitrum.Witness.Request.{Request, encode_add_checkpoint}
use vitrum.Witness.Request.RoundTrip.{IsHashText}
use vitrum.Witness.Pool.{
  Reply, Candidate, Witness, Logic, reply, latest_size, latest_hash, conflict, consistent,
}
use vitrum.Witness.Sequencer.{next_state}
use vitrum.Witness.Round.{Turn, round}
use vitrum.Witness.Round.Alone.{
  IsReliable, IsIdle, IsCommitted, refusal, round-refused, round-IsCommitted,
}
use vitrum.Witness.Round.Encoded.{Reads, IsProof, check_request-encode}

-- An idle witness, and the size and the hash that it has for a log; size 0 for a log that is new.
pub record IsAt {S I : Type 0} (store : Store S I) (w : Witness S) (key : ℕ) (origin : Bytes)
    (n : ℕ) (hash : Bytes) : Type 0 where
  pub idle : IsIdle w key
  pub size_at : latest_size (store.get w.store origin) ≡ pos n
  pub hash_at : latest_hash (store.get w.store origin) ≡ hash

-- What note.Sign gives with the key at every time.
pub record Signs {I : Type 0} (t : Turn I) (key : ℕ) : Type 0 where
  pub signed : Bytes → Bytes
  pub signs : (text : Bytes) → t.sign key text ≡ some (signed text)

module _ {S I : Type 0} (g : Logic) (hash_string : Bytes → Bytes)
    (texts : IsHashText g.parse_hash hash_string) (store : Store S I) (good : IsStore store)
    (reliable : IsReliable store) (t : Turn I) (key : ℕ) (signing : Signs t key) (w : Witness S)
    (note text : Bytes) (cp : Checkpoint) (size n : ℕ) (hash : Bytes)
    (read : Reads g note text cp size) (at : IsAt store w key cp.origin n hash) where
  -- The candidate of the note.
  abbrev pub candidate : Candidate
  candidate = record { cp = cp; text = text; signer = key; epoch = w.epoch }

  abbrev pub body : ℕ → List Bytes → Bytes
  body old proof = encode_add_checkpoint hash_string (pos old) proof note

  abbrev pub request : ℕ → List Bytes → Request
  request old proof = record { old = pos old; proof = proof; note = note }

  module _ (old : ℕ) (proof : List Bytes) (fits : IsProof proof) (le : old ≤ size) where
    refused :
        (r : Reply)
        → refusal g (store.get w.store cp.origin) (request old proof) cp ≡ some r
        → round g store t w (body old proof) ≡ (w, r)
    refused r e =
        round-refused g store good reliable t w key at.idle (body old proof) (request old proof)
          candidate
          (check_request-encode g hash_string texts w.signer (store.halted w.store) key w.epoch old
            size proof note text cp at.idle.signs (reliable.runs w.store) read fits le)
          r e

    committed :
        refusal g (store.get w.store cp.origin) (request old proof) cp ≡ none
        → IsCommitted store w key candidate
            (signing.signed text)
            (round g store t w (body old proof)).0
            (round g store t w (body old proof)).1
    committed e =
        round-IsCommitted g store good reliable t w key at.idle (body old proof) (request old proof)
          candidate
          (check_request-encode g hash_string texts w.signer (store.halted w.store) key w.epoch old
            size proof note text cp at.idle.signs (reliable.runs w.store) read fits le)
          (signing.signed text) refl refl (signing.signs text) e

    pub round-conflict :
        old ≢ n → round g store t w (body old proof) ≡ (w, conflict (store.get w.store cp.origin))
    round-conflict ne =
        let apart : int_eq (pos old) (pos n) ≡ false = ground arith in
        refused (conflict (store.get w.store cp.origin)) (rw (at.size_at, apart) refl)

  module _ (proof : List Bytes) (fits : IsProof proof) (le : n ≤ size) where
    abbrev taken : Bool
    taken = consistent g (store.get w.store cp.origin) (request n proof) cp

    same_size : int_eq (pos n) (latest_size (store.get w.store cp.origin)) ≡ true
    same_size = rw at.size_at (ground arith)

    pub round-inconsistent : taken ≡ false → round g store t w (body n proof) ≡ (w, reply 422 [])
    round-inconsistent e = refused n proof fits le (reply 422 []) (rw (same_size, e) refl)

    pub round-taken :
        taken ≡ true
        → IsCommitted store w key candidate
            (signing.signed text)
            (round g store t w (body n proof)).0
            (round g store t w (body n proof)).1
    round-taken e = committed n proof fits le (rw (same_size, e) refl)

    pub round-IsAt :
        taken ≡ true → IsAt store (round g store t w (body n proof)).0 key cp.origin size cp.hash
    unfolding lookup
    round-IsAt e =
        let c = round-taken e in
        let now : store.get (round g store t w (body n proof)).0.store cp.origin
            ≡ some (next_state candidate (signing.signed text)) =
          c.stored cp.origin ∙ rw (bytes_eq_refl cp.origin) refl in
        record { idle = c.idle_after; size_at = rw now read.sized; hash_at = rw now refl }
