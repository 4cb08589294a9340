-- ===== src/Client/Record/Replays/Written.antt =====
-- cmd/vitrum/record.go: what a recording without an error has written.
use vitrum.Base.{
  ℕ, List, [], ◌∷◌, ◌++◌, Bool, true, false, Option, some, ◌≡◌, ◌⊎◌, Bool-cases, inl, inr, subst,
}
use vitrum.Base.Bytes.{Bytes, codes}
use vitrum.Base.Int.{int_lt}
use vitrum.Base.Result.{Result, ok, err, ◌>>=◌, >>=-eq-ok}
use vitrum.Witness.{Checkpoint}
use vitrum.Witness.Pool.{null}
use vitrum.Witness.Request.{encode_add_checkpoint}
use vitrum.Client.LogClient.{Tlog, LogClient, ClientError, or_error, checkpoint, prove_tree}
use vitrum.Client.LogClient.Checks.{IsChecked, or_error-ok, checkpoint-IsChecked}
use vitrum.Client.Record.{
  RecordError, Recording, of_client, tampered, step, bad_step, wait_growth, grown,
}
use vitrum.Client.Record.Replays.Recorded.{written}

pub of_client-ok : {A : Type 0} (r : Result ClientError A) {a : A} → of_client r ≡ ok a → r ≡ ok a
of_client-ok (ok b) h = cc
of_client-ok (err e) h = cc

module _ {V F : Type 0} (hash_string : Bytes → Bytes) (can_write : Bytes → Bool) (l : Tlog V F)
    (c : LogClient V F) where
  pub step-written :
      (d d' : Recording) (name : Bytes) (status : ℕ) (content : Bytes)
      → step hash_string can_write d name status content ≡ ok d'
      → d' ≡ written d name status content
  unfolding step
  step-written d d' name status content h = elim (Bool-cases (can_write (name ++ codes ".req"))) [
    | inl e ↦
        let same : ◌≡◌ {A = Result RecordError Recording} (ok (written d name status content))
            (ok d') =
          rw e at h in
        cc
    | inr e ↦ cc (rw e at h)
  ]

  abbrev pub Checked : Checkpoint × Bytes → Type 0
  Checked (cp, note) = (fetched : Option Bytes) × IsChecked l c fetched cp note

  pub wait_growth-Checked :
      (cp1 : Checkpoint) (newest : Checkpoint × Bytes) (polls : List (Option Bytes))
      (last : Checkpoint × Bytes)
      → Checked newest
      → wait_growth hash_string can_write l c cp1 newest polls ≡ ok last
      → Checked last
  unfolding wait_growth
  wait_growth-Checked cp1 newest [] last k h = subst Checked (cc) k
  wait_growth-Checked cp1 newest (fetched ∷ polls) last k h =
      elim (Bool-cases (int_lt cp1.n newest.0.n)) [
        | inl e ↦
            let same : ◌≡◌ {A = Result RecordError (Checkpoint × Bytes)} (ok newest) (ok last) =
              rw e at h in
            subst Checked (cc) k
        | inr e ↦
            let (next, e1, h1) =
              >>=-eq-ok (of_client (checkpoint l c fetched))
                (λ next. wait_growth hash_string can_write l c cp1 next polls) (rw e at h) in
            wait_growth-Checked cp1 next polls last
              (
                fetched,
                checkpoint-IsChecked l c fetched next.0 next.1
                    (of_client-ok (checkpoint l c fetched) e1),
              )
              h1
      ]

  -- The three ways through the part on growth.
  pub data Grown (d : Recording) (cp1 cp2 : Checkpoint) (note2 : Bytes) (d' : Recording)
      : Type 0 where
    stayed : d' ≡ d → Grown d cp1 cp2 note2 d'
    larger :
        (proof : List Bytes)
        → int_lt cp1.n cp2.n ≡ true
        → l.prove_tree c.fetcher cp2 cp1.n ≡ some proof
        → (d2 : Recording)
        → ((null proof ≡ true) × (d2 ≡ d))
          ⊎ ((null proof ≡ false)
              × (d2
                  ≡ written d
                      (codes "02-badproof")
                      422
                      (encode_add_checkpoint hash_string cp1.n (tampered proof) note2)))
        → d'
          ≡ written d2 (codes "03-grow") 200 (encode_add_checkpoint hash_string cp1.n proof note2)
        → Grown d cp1 cp2 note2 d'

  written-Grown :
      (d : Recording) (cp1 cp2 : Checkpoint) (note2 : Bytes) (d' : Recording) (proof : List Bytes)
      → int_lt cp1.n cp2.n ≡ true
      → l.prove_tree c.fetcher cp2 cp1.n ≡ some proof
      → (bad_step hash_string can_write d cp1 note2 proof >>= λ d2.
          step hash_string can_write d2
            (codes "03-grow")
            200
            (encode_add_checkpoint hash_string cp1.n proof note2))
        ≡ ok d'
      → Grown d cp1 cp2 note2 d'
  written-Grown d cp1 cp2 note2 d' proof grows proved h =
      let (d2, spoils, h2) =
        >>=-eq-ok (bad_step hash_string can_write d cp1 note2 proof)
          (λ d2.
            step hash_string can_write d2 (codes "03-grow") 200
              (encode_add_checkpoint hash_string cp1.n proof note2))
          h in
      let grew =
        step-written d2 d' (codes "03-grow") 200
          (encode_add_checkpoint hash_string cp1.n proof note2) h2 in
      elim (Bool-cases (null proof)) [
        | inl e ↦
            let same : ◌≡◌ {A = Result RecordError Recording} (ok d) (ok d2) = rw e at spoils in
            larger proof grows proved d2 (inl (e, cc)) grew
        | inr e ↦
            larger proof grows proved d2
              (inr (
                e,
                step-written d d2 (codes "02-badproof") 422
                    (encode_add_checkpoint hash_string cp1.n (tampered proof) note2)
                    (rw e at spoils),
              ))
              grew
      ]

  pub grown-Grown :
      (d : Recording) (cp1 cp2 : Checkpoint) (note2 : Bytes) (d' : Recording)
      → grown hash_string can_write l c d cp1 (cp2, note2) ≡ ok d'
      → Grown d cp1 cp2 note2 d'
  unfolding grown prove_tree
  grown-Grown d cp1 cp2 note2 d' h = elim (Bool-cases (int_lt cp1.n cp2.n)) [
    | inl e ↦
        let (proof, e1, h1) =
          >>=-eq-ok (of_client (prove_tree l c cp2 cp1.n))
            (λ proof. bad_step hash_string can_write d cp1 note2 proof >>= λ d2.
              step hash_string can_write d2 (codes "03-grow") 200
                (encode_add_checkpoint hash_string cp1.n proof note2))
            (rw e at h) in
        written-Grown d cp1 cp2 note2 d' proof e
          (or_error-ok ClientError.no_proof (l.prove_tree c.fetcher cp2 cp1.n)
            (of_client-ok (or_error ClientError.no_proof (l.prove_tree c.fetcher cp2 cp1.n)) e1))
          h1
    | inr e ↦
        let same : ◌≡◌ {A = Result RecordError Recording} (ok d) (ok d') = rw e at h in stayed (cc)
  ]
