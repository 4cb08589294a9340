-- ===== src/Client/Selftest/Material.antt =====
-- cmd/vitrum/selftest.go with internal/testlog: the checkpoints of the selftest's log.
use vitrum.Base.{
  ℕ, ◌+◌, ◌<◌, ◌≤◌, List, [], ◌∷◌, ◌++◌, true, false, some, ◌≡◌, ◌≢◌, refl, ap, ◌∙◌, length, drop,
}
use vitrum.Base.Bytes.{Bytes, codes, bytes_eq_refl}
use vitrum.Base.Int.{ℤ, pos}
use vitrum.Base.Result.{ok}
use vitrum.Witness.{Checkpoint}
use vitrum.Witness.Logs.{Store, IsStore}
use vitrum.Witness.Pool.{Logic, Witness}
use vitrum.Witness.Request.{encode_add_checkpoint}
use vitrum.Witness.Request.RoundTrip.{IsHashText}
use vitrum.Witness.Round.{Turn, round}
use vitrum.Witness.Round.Alone.{IsReliable}
use vitrum.Witness.Round.Encoded.{IsProof}
use vitrum.Witness.Round.Steps.{Signs}
use vitrum.Witness.Round.Views.{IsView, IsTaken}
use vitrum.TestLog.{Library, Log, append, checkpoint, tree_hash, prove_tree}
use vitrum.TestLog.SeedReader.{SeedReader}
use vitrum.Client.Feed.{max_witness_response, witness_time, verify_cosignature}
use vitrum.Client.Feed.Command.{Cosigners}
use vitrum.Client.Selftest.{
  must, first_sighting, verifies, new_selftest_log, sign_as, grow_fork, replace_first,
  selftest_origin, unknown_origin, with_flag,
}
use vitrum.Client.Selftest.Served.{serve_next, must-code}

module _ {S I K V : Type 0} (g : Logic) (hash_string : Bytes → Bytes)
    (texts : IsHashText g.parse_hash hash_string) (store : Store S I) (good : IsStore store)
    (reliable : IsReliable store) (turns : ℕ → Turn I) (key : ℕ)
    (signing : (k : ℕ) → Signs (turns k) key) (b : Library K SeedReader) (cs : Cosigners V)
    (v : V) where
  abbrev pub cosigned_lines : ℕ → Bytes → Bytes
  cosigned_lines k text = drop (length text + 1) ((signing k).signed text)

  -- A note with the witness's signature behind it opens under its verifier, with that signature
  -- and its time; and the signature is short enough for the client.
  pub record IsVerifier : Type 0 where
    pub time : (k : ℕ) → (cp : Checkpoint) → (note : Bytes) → IsView g cp note → ℤ
    pub opens :
        (k : ℕ) (cp : Checkpoint) (note : Bytes) (view : IsView g cp note)
        → cs.open_note v (note ++ cosigned_lines k view.text)
          ≡ some (record { name = cs.name v; timestamp = some (time k cp note view) } ∷ [])
    pub short : (k : ℕ) (text : Bytes) → length (cosigned_lines k text) ≤ max_witness_response

  abbrev pub sent : Witness S → ℕ → ℤ → List Bytes → Bytes → Witness S
  sent w k old proof note =
      (round g store (turns k) w (encode_add_checkpoint hash_string old proof note)).0

  module _ (verifier : IsVerifier) (w : Witness S) (k : ℕ) (cp : Checkpoint) (note : Bytes)
      (view : IsView g cp note) where
    verified :
        verify_cosignature
          (verifies b cs hash_string (serve_next g store turns) v)
          note
          (cosigned_lines k view.text)
        ≡ ok (verifier.time k cp note view)
    unfolding verify_cosignature witness_time
    verified = rw (verifier.opens k cp note view, bytes_eq_refl (cs.name v)) refl

    -- A submission that is taken, as the selftest sees it.
    pub must-taken :
        (old : ℕ) (proof : List Bytes)
        → IsTaken g hash_string texts store good reliable
            (turns k)
            key
            (signing k)
            w
            cp
            note
            view
            old
            proof
        → must b cs hash_string (serve_next g store turns) 200 (pos old) proof note (w, k)
          ≡ ((sent w k (pos old) proof note, k + 1), ok (cosigned_lines k view.text))
    must-taken old proof one =
        must-code g store turns b cs hash_string w k (pos old) proof note 200 one.answered
          (rw one.cosigned (verifier.short k view.text))
        ∙ ap (λ r. ((sent w k (pos old) proof note, k + 1), ok r.resp)) one.cosigned

    pub first_sighting-taken :
        IsTaken g hash_string texts store good reliable
          (turns k)
          key
          (signing k)
          w
          cp
          note
          view
          0
          []
        → first_sighting b cs hash_string (serve_next g store turns) v note (w, k)
          ≡ ((sent w k (pos 0) [] note, k + 1), ok (verifier.time k cp note view))
    unfolding first_sighting
    first_sighting-taken one = rw (must-taken 0 [] one, verified) refl

  -- The log of the selftest: two checkpoints and the proof between them, a fork of a larger size
  -- whose proof does not hold, and the first checkpoint under another origin.
  pub record IsSelftestLog (seed : Bytes) (l0 : Log K) : Type 0 where
    pub l1 : Log K
    pub first_records : with_flag (append b l0 (codes "a" ∷ codes "b" ∷ codes "c" ∷ [])) ≡ some l1
    pub cp1 : Checkpoint
    pub note1 : Bytes
    pub first_checkpoint : checkpoint b l1 ≡ some (note1, cp1)
    pub view1 : IsView g cp1 note1
    pub l2 : Log K
    pub more_records : with_flag (append b l1 (codes "d" ∷ codes "e" ∷ [])) ≡ some l2
    pub cp2 : Checkpoint
    pub note2 : Bytes
    pub second_checkpoint : checkpoint b l2 ≡ some (note2, cp2)
    pub view2 : IsView g cp2 note2
    pub same_log : cp1.origin ≡ cp2.origin
    pub grows : view1.size < view2.size
    pub proof : List Bytes
    pub proved : prove_tree b l2 cp2.n cp1.n ≡ some proof
    pub fits : IsProof proof
    pub holds : g.check_tree proof cp2.n cp2.hash (pos view1.size) cp1.hash ≡ true
    pub fork : Log K
    pub forked : new_selftest_log b (seed ++ codes "-fork") selftest_origin ≡ some fork
    pub fork_checkpoint : Bytes × Checkpoint
    pub fork_signed : checkpoint b (grow_fork b fork) ≡ some fork_checkpoint
    pub fork_proof : List Bytes
    pub fork_proved : prove_tree b (grow_fork b fork) fork_checkpoint.1.n cp2.n ≡ some fork_proof
    pub fork_fits : IsProof fork_proof
    pub root : Bytes
    pub fork_root : tree_hash b (grow_fork b fork) fork_checkpoint.1.n ≡ some root
    pub cp3 : Checkpoint
    pub note3 : Bytes
    pub signed_as : sign_as b l2 fork_checkpoint.1.n root ≡ some (note3, cp3)
    pub view3 : IsView g cp3 note3
    pub same_origin : cp2.origin ≡ cp3.origin
    pub larger : view2.size < view3.size
    pub fails : g.check_tree fork_proof cp3.n cp3.hash (pos view2.size) cp2.hash ≡ false
    pub cp4 : Checkpoint
    pub view4 : IsView g cp4 (replace_first selftest_origin unknown_origin note1)
    pub other_origin : cp2.origin ≢ cp4.origin
