-- ===== src/Client/Record/Replays/Replayed.antt =====
-- cmd/vitrum/record.go: the fixtures that cmdRecord writes are what the witness answers.
use vitrum.Base.{
  ℕ, ◌+◌, ◌<◌, List, [], ◌∷◌, true, false, none, some, ◌≡◌, refl, sym, ap, ◌∙◌, arith, subst,
}
use vitrum.Base.Bytes.{Bytes, codes}
use vitrum.Base.Dict.{Dict, lookup}
use vitrum.Base.Int.{ℤ, pos, int_lt}
use vitrum.Witness.{Checkpoint}
use vitrum.Witness.Logs.{Store, IsStore}
use vitrum.Witness.Pool.{Logic, Witness, latest_hash, null, conflict}
use vitrum.Witness.Request.{encode_add_checkpoint}
use vitrum.Witness.Request.RoundTrip.{IsHashText}
use vitrum.Witness.Round.{Turn, round}
use vitrum.Witness.Round.Alone.{IsReliable, IsIdle}
use vitrum.Witness.Round.Encoded.{IsProof, nil-IsProof}
use vitrum.Witness.Round.Steps.{IsAt, Signs}
use vitrum.Witness.Round.Views.{
  IsView, IsTaken, after, first-IsTaken, same-IsTaken, stale_lem, larger-IsTaken, unproved_lem,
}
use vitrum.Client.Record.{FixtureStep, tampered}
use vitrum.Client.Record.Replays.{replay, replay-step}

-- The proof of a larger tree, and the one that record spoils.
pub record IsGrowth (g : Logic) (cp1 cp2 : Checkpoint) (proof : List Bytes) : Type 0 where
  pub fits : IsProof proof
  pub holds : g.check_tree proof cp2.n cp2.hash cp1.n cp1.hash ≡ true
  pub spoiled :
      null proof ≡ false → g.check_tree (tampered proof) cp2.n cp2.hash cp1.n cp1.hash ≡ false

tampered-IsProof : (proof : List Bytes) → IsProof proof → IsProof (tampered proof)
tampered-IsProof [] p = p
tampered-IsProof ([] ∷ proof) p = p
tampered-IsProof ((b ∷ h) ∷ proof) p = record { hashes = (p.hashes.0, p.hashes.1); few = p.few }

abbrev pub fixture : Bytes → ℕ → FixtureStep
fixture file status = record { file = file; status = status }

module _ {S I : Type 0} (g : Logic) (hash_string : Bytes → Bytes)
    (texts : IsHashText g.parse_hash hash_string) (store : Store S I) (good : IsStore store)
    (reliable : IsReliable store) (turns : ℕ → Turn I) (key : ℕ)
    (signing : (k : ℕ) → Signs (turns k) key) (files : Dict Bytes) where
  abbrev pub body : ℤ → List Bytes → Bytes → Bytes
  body old proof note = encode_add_checkpoint hash_string old proof note

  module _ (w : Witness S) (k : ℕ) (cp1 : Checkpoint) (note1 : Bytes)
      (view1 : IsView g cp1 note1) where
    -- The last step: the first submission once more.
    pub stale-replays :
        (n : ℕ) (hash : Bytes)
        → IsAt store w key cp1.origin n hash
        → 0 < n
        → lookup (codes "99-stale.req") files ≡ some (body (pos 0) [] note1)
        → replay g store turns w k files (fixture (codes "99-stale.req") 409 ∷ []) ≡ true
    unfolding replay conflict
    stale-replays n hash at started found =
        replay-step g store turns w k files (fixture (codes "99-stale.req") 409) []
          (body (pos 0) [] note1) found
          (ap (λ r. r.1.code)
            (stale_lem g hash_string texts store good reliable (turns k) key (signing k) w cp1 note1
              view1 n hash at 0 [] nil-IsProof (omega arith) (omega arith)))
          refl

  module _ (w : Witness S) (k : ℕ) (cp1 : Checkpoint) (note1 : Bytes)
      (view1 : IsView g cp1 note1) where
    module _ (at : IsAt store w key cp1.origin view1.size cp1.hash)
        (stale : lookup (codes "99-stale.req") files ≡ some (body (pos 0) [] note1))
        (cp2 : Checkpoint) (note2 : Bytes) (view2 : IsView g cp2 note2)
        (one_log : cp1.origin ≡ cp2.origin) (proof : List Bytes) (growth : IsGrowth g cp1 cp2 proof)
        (grows : int_lt cp1.n cp2.n ≡ true) where
      larger : view1.size < view2.size
      larger =
          let h : int_lt (pos view1.size) (pos view2.size) ≡ true =
            rw (view1.reads.sized, view2.reads.sized) at grows in
          ground arith

      origin-IsAt : IsAt store w key cp2.origin view1.size cp1.hash
      origin-IsAt = subst (λ o. IsAt store w key o view1.size cp1.hash) one_log at

      sized :
          (hashes : List Bytes)
          → some (body cp1.n hashes note2) ≡ some (body (pos view1.size) hashes note2)
      sized hashes = ap (λ n. some (body n hashes note2)) view1.reads.sized

      growth_taken :
          IsTaken g hash_string texts store good reliable
            (turns k)
            key
            (signing k)
            w
            cp2
            note2
            view2
            view1.size
            proof
      growth_taken =
          larger-IsTaken g hash_string texts store good reliable (turns k) key (signing k) w cp2
            note2 view2 view1.size cp1.hash origin-IsAt proof growth.fits view1.positive larger
            (rw (← view1.reads.sized) growth.holds)

      pub grow-replays :
          lookup (codes "03-grow.req") files ≡ some (body cp1.n proof note2)
          → replay g store turns w k files
              (fixture (codes "03-grow.req") 200 ∷ fixture (codes "99-stale.req") 409 ∷ [])
            ≡ true
      grow-replays found =
          let v =
            after g hash_string texts store good reliable (turns k) key (signing k) w cp2 note2
              view2 view1.size proof in
          replay-step g store turns w k files (fixture (codes "03-grow.req") 200)
            (fixture (codes "99-stale.req") 409 ∷ []) (body (pos view1.size) proof note2)
            (found ∙ sized proof) growth_taken.answered
            (stale-replays v (k + 1) cp1 note1 view1 view2.size cp2.hash
              (subst (λ o. IsAt store v key o view2.size cp2.hash) (sym one_log)
                growth_taken.at_checkpoint)
              view2.positive stale)

      pub bad-replays :
          null proof ≡ false
          → lookup (codes "02-badproof.req") files ≡ some (body cp1.n (tampered proof) note2)
          → (steps : List FixtureStep) → replay g store turns w (k + 1) files steps ≡ true
          → replay g store turns w k files (fixture (codes "02-badproof.req") 422 ∷ steps) ≡ true
      bad-replays nonempty found steps rest =
          let refused =
            unproved_lem g hash_string texts store good reliable (turns k) key (signing k) w cp2
              note2 view2 view1.size cp1.hash origin-IsAt (tampered proof)
              (tampered-IsProof proof growth.fits) view1.positive larger
              (rw (← view1.reads.sized) (growth.spoiled nonempty)) in
          replay-step g store turns w k files (fixture (codes "02-badproof.req") 422) steps
            (body (pos view1.size) (tampered proof) note2) (found ∙ sized (tampered proof))
            (ap (λ r. r.1.code) refused)
            (subst (λ r. replay g store turns r.0 (k + 1) files steps ≡ true) (sym refused) rest)

  -- The first two steps, before steps that a witness at the checkpoint answers as listed.
  module _ (w : Witness S) (idle : IsIdle w key) (cp : Checkpoint) (note : Bytes)
      (fresh : store.get w.store cp.origin ≡ none) (view : IsView g cp note) where
    fresh-IsAt : IsAt store w key cp.origin 0 (latest_hash none)
    fresh-IsAt = record { idle = idle; size_at = rw fresh refl; hash_at = rw fresh refl }

    pub start-replays :
        (steps : List FixtureStep)
        → lookup (codes "00-first.req") files ≡ some (body (pos 0) [] note)
        → lookup (codes "01-resubmit.req") files ≡ some (body cp.n [] note)
        → ((v : Witness S)
            → IsAt store v key cp.origin view.size cp.hash
            → replay g store turns v 2 files steps ≡ true)
        → replay g store turns w 0 files
            (fixture (codes "00-first.req") 200 ∷ fixture (codes "01-resubmit.req") 200 ∷ steps)
          ≡ true
    start-replays steps first second rest =
        let one =
          first-IsTaken g hash_string texts store good reliable (turns 0) key (signing 0) w cp note
            view (latest_hash none) fresh-IsAt in
        let two =
          same-IsTaken g hash_string texts store good reliable (turns 1) key (signing 1)
            (round g store (turns 0) w (body (pos 0) [] note)).0 cp note view one.at_checkpoint in
        replay-step g store turns w 0 files (fixture (codes "00-first.req") 200) _
          (body (pos 0) [] note) first one.answered
          (replay-step g store turns _ 1 files (fixture (codes "01-resubmit.req") 200) steps
            (body (pos view.size) [] note)
            (second ∙ ap (λ n. some (body n [] note)) view.reads.sized) two.answered
            (rest _ two.at_checkpoint))
