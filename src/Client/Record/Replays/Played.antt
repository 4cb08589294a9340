-- ===== src/Client/Record/Replays/Played.antt =====
-- cmd/vitrum/record.go: what the steps of cmdRecord have written is what a fresh witness answers.
use vitrum.Base.{ℕ, List, [], Bool, true, Option, none, some, ◌≡◌, sym, ap, ◌∙◌, inl, inr, subst}
use vitrum.Base.Bytes.{Bytes, codes}
use vitrum.Base.Dict.{Dict, insert}
use vitrum.Base.Int.{pos, int_lt}
use vitrum.Base.Result.{Result, ok, ◌>>=◌, >>=-eq-ok}
use vitrum.Witness.{Checkpoint}
use vitrum.Witness.Logs.{Store, IsStore}
use vitrum.Witness.Pool.{Logic, Witness}
use vitrum.Witness.Request.{encode_add_checkpoint}
use vitrum.Witness.Request.RoundTrip.{IsHashText}
use vitrum.Witness.Round.{Turn}
use vitrum.Witness.Round.Alone.{IsReliable, IsIdle}
use vitrum.Witness.Round.Steps.{Signs}
use vitrum.Witness.Round.Views.{IsView}
use vitrum.Client.LogClient.{Tlog, LogClient, checkpoint}
use vitrum.Client.LogClient.Checks.{IsChecked, checkpoint-IsChecked}
use vitrum.Client.Record.{RecordError, Recording, of_client, step, wait_growth, grown, record_steps}
use vitrum.Client.Record.Replays.{replay}
use vitrum.Client.Record.Replays.Replayed.{IsGrowth}
use vitrum.Client.Record.Replays.Recorded.{
  written, begun, ended, unchanged-Replays, grown-Replays, bad-Replays,
}
use vitrum.Client.Record.Replays.Written.{
  of_client-ok, step-written, Checked, wait_growth-Checked, Grown, stayed, larger, grown-Grown,
}

module _ {V F : Type 0} (g : Logic) (l : Tlog V F) where
  -- The witness reads the log's checkpoints as the client does, and takes the proof of a later one
  -- but not the same proof with its first byte inverted.
  pub record IsLog (c : LogClient V F) : Type 0 where
    pub views :
        (fetched : Option Bytes) (cp : Checkpoint) (note : Bytes)
        → IsChecked l c fetched cp note
        → IsView g cp note
    pub growth :
        (f1 f2 : Option Bytes) (cp1 cp2 : Checkpoint) (note1 note2 : Bytes) (proof : List Bytes)
        → IsChecked l c f1 cp1 note1
        → IsChecked l c f2 cp2 note2
        → int_lt cp1.n cp2.n ≡ true
        → l.prove_tree c.fetcher cp2 cp1.n ≡ some proof
        → IsGrowth g cp1 cp2 proof

module _ {S I V F : Type 0} (g : Logic) (hash_string : Bytes → Bytes)
    (texts : IsHashText g.parse_hash hash_string) (store : Store S I) (good : IsStore store)
    (reliable : IsReliable store) (turns : ℕ → Turn I) (key : ℕ)
    (signing : (k : ℕ) → Signs (turns k) key) (w : Witness S) (idle : IsIdle w key)
    (fresh : (o : Bytes) → store.get w.store o ≡ none) (can_write : Bytes → Bool)
    (l : Tlog V F) where
  -- The replay of a recording beside its manifest.
  abbrev pub Plays : Bytes → Recording → Type 0
  Plays manifest d =
      replay g store turns w 0 (insert (codes "manifest.json") manifest d.files) d.steps ≡ true

  module _ (c : LogClient V F) (files : Dict Bytes) where
    -- The steps of record_steps behind the first checkpoint.
    abbrev grow_step :
        Recording → Checkpoint → Bytes → Checkpoint × Bytes → Result RecordError Recording
    grow_step d1 cp1 note1 newest = grown hash_string can_write l c d1 cp1 newest >>= λ d3.
        step hash_string can_write d3 (codes "99-stale") 409
          (encode_add_checkpoint hash_string (pos 0) [] note1)

    abbrev wait_step :
        List (Option Bytes) → Checkpoint → Bytes → Recording → Result RecordError Recording
    wait_step polls cp1 note1 d1 =
        wait_growth hash_string can_write l c cp1 (cp1, note1) polls >>= grow_step d1 cp1 note1

    abbrev second_step :
        List (Option Bytes) → Checkpoint → Bytes → Recording → Result RecordError Recording
    second_step polls cp1 note1 d0 =
        step hash_string can_write d0 (codes "01-resubmit") 200
          (encode_add_checkpoint hash_string cp1.n [] note1)
        >>= wait_step polls cp1 note1

    abbrev first_step : List (Option Bytes) → Checkpoint × Bytes → Result RecordError Recording
    first_step polls (cp1, note1) =
        step hash_string can_write (record { files = files; steps = [] }) (codes "00-first") 200
          (encode_add_checkpoint hash_string (pos 0) [] note1)
        >>= second_step polls cp1 note1

  module _ (c : LogClient V F) (log : IsLog g l c) (files : Dict Bytes) (manifest : Bytes)
      (cp1 : Checkpoint) (note1 : Bytes)
      (checked1 : Checked hash_string can_write l c (cp1, note1)) where
    abbrev view1 : IsView g cp1 note1
    view1 = log.views checked1.0 cp1 note1 checked1.1

    abbrev start : Recording
    start =
        begun g hash_string texts store good reliable turns key signing w idle cp1 note1 view1
          (fresh cp1.origin) files manifest

    abbrev finish : Recording → Recording
    finish =
        ended g hash_string texts store good reliable turns key signing w idle cp1 note1 view1
          (fresh cp1.origin) files manifest

    proof-IsGrowth :
        (cp2 : Checkpoint) (note2 : Bytes) (proof : List Bytes)
        → Checked hash_string can_write l c (cp2, note2)
        → int_lt cp1.n cp2.n ≡ true
        → l.prove_tree c.fetcher cp2 cp1.n ≡ some proof
        → IsGrowth g cp1 cp2 proof
    proof-IsGrowth cp2 note2 proof k grows proved =
        log.growth checked1.0 k.0 cp1 cp2 note1 note2 proof checked1.1 k.1 grows proved

    Grown-Plays :
        (cp2 : Checkpoint) (note2 : Bytes) (d : Recording)
        → Checked hash_string can_write l c (cp2, note2)
        → Grown hash_string can_write l c start cp1 cp2 note2 d
        → Plays manifest (finish d)
    Grown-Plays cp2 note2 d k (stayed e) =
        subst (λ r. Plays manifest (finish r)) (sym e)
          (unchanged-Replays g hash_string texts store good reliable turns key signing w idle cp1
            note1 view1 (fresh cp1.origin) files manifest)
    Grown-Plays cp2 note2 d k (larger proof grows proved d2 (inl (nothing, e2)) e) =
        subst (λ r. Plays manifest (finish r))
          (sym (
            e
            ∙ ap
                (λ r.
                  written r (codes "03-grow") 200
                    (encode_add_checkpoint hash_string cp1.n proof note2))
                e2))
          (grown-Replays g hash_string texts store good reliable turns key signing w idle cp1 note1
            view1 (fresh cp1.origin) files manifest cp2 note2 (log.views k.0 cp2 note2 k.1)
            (checked1.1.own ∙ sym k.1.own) proof (proof-IsGrowth cp2 note2 proof k grows proved)
            grows)
    Grown-Plays cp2 note2 d k (larger proof grows proved d2 (inr (nonempty, e2)) e) =
        subst (λ r. Plays manifest (finish r))
          (sym (
            e
            ∙ ap
                (λ r.
                  written r (codes "03-grow") 200
                    (encode_add_checkpoint hash_string cp1.n proof note2))
                e2))
          (bad-Replays g hash_string texts store good reliable turns key signing w idle cp1 note1
            view1 (fresh cp1.origin) files manifest cp2 note2 (log.views k.0 cp2 note2 k.1)
            (checked1.1.own ∙ sym k.1.own) proof (proof-IsGrowth cp2 note2 proof k grows proved)
            grows nonempty)

    waited-Plays :
        (polls : List (Option Bytes)) (d : Recording)
        → wait_step c files polls cp1 note1 start ≡ ok d
        → Plays manifest d
    waited-Plays polls d h =
        let ((cp2, note2), waits, h1) =
          >>=-eq-ok (wait_growth hash_string can_write l c cp1 (cp1, note1) polls)
            (grow_step c files start cp1 note1) h in
        let k =
          wait_growth-Checked hash_string can_write l c cp1 (cp1, note1) polls (cp2, note2) checked1
            waits in
        let (d3, grows, h2) =
          >>=-eq-ok (grown hash_string can_write l c start cp1 (cp2, note2))
            (λ d3.
              step hash_string can_write d3 (codes "99-stale") 409
                (encode_add_checkpoint hash_string (pos 0) [] note1))
            h1 in
        subst (Plays manifest)
          (sym (
            step-written hash_string can_write l c d3 d (codes "99-stale") 409
              (encode_add_checkpoint hash_string (pos 0) [] note1) h2))
          (Grown-Plays cp2 note2 d3 k
            (grown-Grown hash_string can_write l c start cp1 cp2 note2 d3 grows))

  module _ (c : LogClient V F) (log : IsLog g l c) (files : Dict Bytes) (manifest : Bytes) where
    pub record_steps-Plays :
        (first : Option Bytes) (polls : List (Option Bytes)) (d : Recording)
        → record_steps hash_string can_write l c (record { files = files; steps = [] }) first polls
          ≡ ok d
        → Plays manifest d
    unfolding record_steps
    record_steps-Plays first polls d h =
        let ((cp1, note1), fetches, h1) =
          >>=-eq-ok (of_client (checkpoint l c first)) (first_step c files polls) h in
        let (d0, one, h2) =
          >>=-eq-ok
            (step hash_string can_write (record { files = files; steps = [] }) (codes "00-first")
              200 (encode_add_checkpoint hash_string (pos 0) [] note1))
            (second_step c files polls cp1 note1) h1 in
        let (d1, two, h3) =
          >>=-eq-ok
            (step hash_string can_write d0 (codes "01-resubmit") 200
              (encode_add_checkpoint hash_string cp1.n [] note1))
            (wait_step c files polls cp1 note1) h2 in
        let begins =
          step-written hash_string can_write l c d0 d1 (codes "01-resubmit") 200
            (encode_add_checkpoint hash_string cp1.n [] note1) two
          ∙ ap
              (λ r.
                written r (codes "01-resubmit") 200
                  (encode_add_checkpoint hash_string cp1.n [] note1))
              (step-written hash_string can_write l c (record { files = files; steps = [] }) d0
                (codes "00-first") 200 (encode_add_checkpoint hash_string (pos 0) [] note1) one) in
        waited-Plays c log files manifest cp1 note1
          (
            first,
            checkpoint-IsChecked l c first cp1 note1 (of_client-ok (checkpoint l c first) fetches),
          )
          polls d (subst (λ r. wait_step c files polls cp1 note1 r ≡ ok d) begins h3)
