-- ===== src/Client/Record/Replays/Recorded.antt =====
-- cmd/vitrum/record.go: what cmdRecord has written, and its replay.
use vitrum.Base.{ℕ, List, [], ◌∷◌, ◌++◌, true, false, none, ◌≡◌}
use vitrum.Base.Bytes.{Bytes, codes, bytes_eq}
use vitrum.Base.Dict.{Dict, insert, lookup-insert}
use vitrum.Base.Int.{ℤ, pos, int_lt}
use vitrum.Witness.{Checkpoint}
use vitrum.Witness.Logs.{Store, IsStore}
use vitrum.Witness.Pool.{Logic, Witness, null}
use vitrum.Witness.Request.{encode_add_checkpoint}
use vitrum.Witness.Request.RoundTrip.{IsHashText}
use vitrum.Witness.Round.{Turn}
use vitrum.Witness.Round.Alone.{IsReliable, IsIdle}
use vitrum.Witness.Round.Steps.{Signs}
use vitrum.Witness.Round.Views.{IsView}
use vitrum.Client.Record.{Recording, tampered}
use vitrum.Client.Record.Replays.{replay}
use vitrum.Client.Record.Replays.Replayed.{
  IsGrowth, fixture, stale-replays, grow-replays, bad-replays, start-replays,
}

-- A step that was written.
abbrev pub written : Recording → Bytes → ℕ → Bytes → Recording
written d name status content = record {
  files = insert (name ++ codes ".req") content d.files;
  steps = d.steps ++ (record { file = name ++ codes ".req"; status = status } ∷ []);
}

module _ {S I : Type 0} (g : Logic) (hash_string : Bytes → Bytes)
    (texts : IsHashText g.parse_hash hash_string) (store : Store S I) (good : IsStore store)
    (reliable : IsReliable store) (turns : ℕ → Turn I) (key : ℕ)
    (signing : (k : ℕ) → Signs (turns k) key) (w : Witness S) (idle : IsIdle w key)
    (cp1 : Checkpoint) (note1 : Bytes) (view1 : IsView g cp1 note1)
    (fresh : store.get w.store cp1.origin ≡ none) (files : Dict Bytes) (manifest : Bytes) where
  abbrev body : ℤ → List Bytes → Bytes → Bytes
  body old proof note = encode_add_checkpoint hash_string old proof note

  -- The recording behind the first two steps, with the last step behind some of its own.
  abbrev pub begun : Recording
  begun =
      written
        (written (record { files = files; steps = [] }) (codes "00-first") 200
          (body (pos 0) [] note1))
        (codes "01-resubmit") 200 (body cp1.n [] note1)

  abbrev pub ended : Recording → Recording
  ended d = written d (codes "99-stale") 409 (body (pos 0) [] note1)

  abbrev pub Replays : Recording → Type 0
  Replays d =
      replay g store turns w 0 (insert (codes "manifest.json") manifest d.files) d.steps ≡ true

  pub unchanged-Replays : Replays (ended begun)
  unfolding bytes_eq
  unchanged-Replays =
      start-replays g hash_string texts store good reliable turns key signing
        (insert (codes "manifest.json") manifest (ended begun).files) w idle cp1 note1 fresh view1
        (fixture (codes "99-stale.req") 409 ∷ []) (simp (lookup-insert)) (simp (lookup-insert))
        (λ v at.
          stale-replays g hash_string texts store good reliable turns key signing
            (insert (codes "manifest.json") manifest (ended begun).files) v 2 cp1 note1 view1
            view1.size cp1.hash at view1.positive (simp (lookup-insert)))

  module _ (cp2 : Checkpoint) (note2 : Bytes) (view2 : IsView g cp2 note2)
      (one_log : cp1.origin ≡ cp2.origin) (proof : List Bytes) (growth : IsGrowth g cp1 cp2 proof)
      (grows : int_lt cp1.n cp2.n ≡ true) where
    abbrev pub with_growth : Recording → Recording
    with_growth d = written d (codes "03-grow") 200 (body cp1.n proof note2)

    pub grown-Replays : Replays (ended (with_growth begun))
    unfolding bytes_eq
    grown-Replays =
        start-replays g hash_string texts store good reliable turns key signing
          (insert (codes "manifest.json") manifest (ended (with_growth begun)).files) w idle cp1
          note1 fresh view1
          (fixture (codes "03-grow.req") 200 ∷ fixture (codes "99-stale.req") 409 ∷ [])
          (simp (lookup-insert)) (simp (lookup-insert))
          (λ v at.
            grow-replays g hash_string texts store good reliable turns key signing
              (insert (codes "manifest.json") manifest (ended (with_growth begun)).files) v 2 cp1
              note1 view1 at (simp (lookup-insert)) cp2 note2 view2 one_log proof growth grows
              (simp (lookup-insert)))

    abbrev pub with_bad : Recording → Recording
    with_bad d = written d (codes "02-badproof") 422 (body cp1.n (tampered proof) note2)

    pub bad-Replays : null proof ≡ false → Replays (ended (with_growth (with_bad begun)))
    unfolding bytes_eq
    bad-Replays nonempty =
        start-replays g hash_string texts store good reliable turns key signing
          (insert (codes "manifest.json") manifest (ended (with_growth (with_bad begun))).files) w
          idle cp1 note1 fresh view1
          (fixture (codes "02-badproof.req") 422
            ∷ fixture (codes "03-grow.req") 200
            ∷ fixture (codes "99-stale.req") 409
            ∷ [])
          (simp (lookup-insert)) (simp (lookup-insert))
          (λ v at.
            bad-replays g hash_string texts store good reliable turns key signing
              (insert (codes "manifest.json") manifest (ended (with_growth (with_bad begun))).files)
              v 2 cp1 note1 view1 at (simp (lookup-insert)) cp2 note2 view2 one_log proof growth
              grows nonempty (simp (lookup-insert))
              (fixture (codes "03-grow.req") 200 ∷ fixture (codes "99-stale.req") 409 ∷ [])
              (grow-replays g hash_string texts store good reliable turns key signing
                (insert (codes "manifest.json") manifest
                  (ended (with_growth (with_bad begun))).files)
                v 3 cp1 note1 view1 at (simp (lookup-insert)) cp2 note2 view2 one_log proof growth
                grows (simp (lookup-insert))))
