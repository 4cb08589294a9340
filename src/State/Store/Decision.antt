-- ===== src/State/Store/Decision.antt =====
-- internal/state/store.go: the decision of Open, against the boot decision of ROLLBACK.md.
use vitrum.Base.{
  ◌+◌, ◌≤◌, ◌≡◌, refl, sym, ap, subst, if-elim, ◌⊎◌, inl, inr, Bool, true, not, ◌&&◌, Option, none,
  some, ◌==◌, if◌then◌else◌, arith,
}
use vitrum.Base.Bytes.{bytes_eq, bytes_eq_iff}
use vitrum.Base.Dict.Distinct.{Distinct}
use vitrum.Base.Result.{Result, ok, err}
use vitrum.State.{Error}
use vitrum.State.Anchor.{AnchorState}
use vitrum.State.Blob.{LoadedBlob}
use vitrum.State.Store.{
  Platform, RollbackStore, max_uint32, anchor_for, halt, adopt, reanchor, reanchored, boot,
}
use vitrum.State.Store.Adopted.{Adopted, Unreadable, adopt-cases}

-- The boot decision of ROLLBACK.md, on plain numbers.
pub data Decision : Type 0 where
  start_empty : Decision
  serve : LoadedBlob → Decision
  recover : LoadedBlob → Decision
  refuse : Decision

abbrev pub is_fresh : AnchorState → Bool
is_fresh anchored = anchored.generation == 0 && not anchored.bound

pub decide : AnchorState → Result Error LoadedBlob → Decision
decide anchored (err e) = if is_fresh anchored then start_empty else refuse
decide anchored (ok blob) =
    if anchored.bound && blob.gen == anchored.generation && bytes_eq blob.hash anchored.blob_hash
    then serve blob
    else if blob.gen == anchored.generation
    then refuse
    else if blob.gen == anchored.generation + 1
    then recover blob
    else refuse

-- The generation of a loaded blob, if there is one, is a uint32, and its map has each key once.
abbrev pub IsBlob : Result Error LoadedBlob → Type 0
IsBlob (err e) = Unit
IsBlob (ok blob) = (blob.gen ≤ max_uint32) × Distinct blob.states

module _ {D A : Type 0} (p : Platform D A) where
  -- The anchor was set to the blob's generation and digest; the store is halted if that failed.
  abbrev pub Anchored :
      LoadedBlob → RollbackStore D A → A × Option Error → RollbackStore D A → Type 0
  Anchored blob u (a, none) t = t ≡ record u { anchor = a }
  Anchored blob u (a, some e) t = t ≡ record u { anchor = a; halted = true }

  -- What a decision demands of the store that Open makes of `s`.
  pub Outcome : Decision → RollbackStore D A → RollbackStore D A → Type 0
  Outcome start_empty s t = t ≡ record s { gen = 0 }
  Outcome refuse s t = t ≡ record s { halted = true }
  Outcome (serve blob) s t = Adopted p blob s t ⊎ Unreadable p blob s t
  Outcome (recover blob) s t =
      ((u : RollbackStore D A) × Adopted p blob s u
        × Anchored blob u
            (p.anchor.set_anchor s.anchor
              (record { generation = blob.gen; blob_hash = blob.hash; bound = true }))
            t)
      ⊎ Unreadable p blob s t

  -- The calls behind each decision.
  abbrev calls : RollbackStore D A → Decision → RollbackStore D A
  calls s start_empty = record s { gen = 0 }
  calls s (serve blob) = (adopt p s blob).0
  calls s (recover blob) = reanchor p (adopt p s blob) blob
  calls s refuse = halt s

  boot-calls :
      (s : RollbackStore D A) (anchored : AnchorState) (r : Result Error LoadedBlob)
      → anchored.generation ≤ max_uint32
      → IsBlob r
      → boot p s anchored r ≡ calls s (decide anchored r)
  unfolding boot decide
  boot-calls s anchored (err e) ha hb = ground arith
  boot-calls s anchored (ok blob) ha hb =
      ground (arith, hb.0, bytes_eq_iff blob.hash anchored.blob_hash)

  reanchor-Anchored :
      (s : RollbackStore D A) (blob : LoadedBlob)
      → Anchored blob s (p.anchor.set_anchor s.anchor (anchor_for blob)) (reanchor p (s, true) blob)
  unfolding reanchor reanchored halt
  reanchor-Anchored s blob = go (p.anchor.set_anchor s.anchor (anchor_for blob))
    where
      go : (r : A × Option Error) → Anchored blob s r (reanchored p s r)
      go (a, none) = refl
      go (a, some e) = refl

  serve-Outcome :
      (s : RollbackStore D A) (blob : LoadedBlob)
      → Distinct blob.states
      → Outcome (serve blob) s (calls s (serve blob))
  unfolding Outcome
  serve-Outcome s blob d = elim (adopt-cases p s blob d) [
    | inl (t, e, h) ↦ inl (rw (calls, e) h)
    | inr (t, e, h) ↦ inr (rw (calls, e) h)
  ]

  recover-Outcome :
      (s : RollbackStore D A) (blob : LoadedBlob)
      → Distinct blob.states
      → Outcome (recover blob) s (calls s (recover blob))
  unfolding Outcome
  recover-Outcome s blob d = elim (adopt-cases p s blob d) [
    | inl (t, e, h) ↦
        let same : t.anchor ≡ s.anchor = ap (λ (x : RollbackStore D A). x.anchor) h.else_same in
        inl (t, h, rw (e, ← same) (reanchor-Anchored t blob))
    | inr (t, e, h) ↦ inr (rw e (unfold reanchor in h))
  ]

  decided-Outcome :
      (s : RollbackStore D A) (anchored : AnchorState) (r : Result Error LoadedBlob)
      → IsBlob r
      → Outcome (decide anchored r) s (calls s (decide anchored r))
  unfolding decide Outcome halt
  decided-Outcome s anchored (err e) hb =
      if-elim (λ d. Outcome d s (calls s d)) (is_fresh anchored) _ _ (λ h. refl) (λ h. refl)
  decided-Outcome s anchored (ok blob) hb =
      if-elim (λ d. Outcome d s (calls s d))
        (anchored.bound && blob.gen == anchored.generation && bytes_eq blob.hash anchored.blob_hash)
        _ _ (λ h. serve-Outcome s blob hb.1)
        (λ h.
          if-elim (λ d. Outcome d s (calls s d)) (blob.gen == anchored.generation) _ _ (λ h. refl)
            (λ h.
              if-elim (λ d. Outcome d s (calls s d)) (blob.gen == anchored.generation + 1) _ _
                (λ h. recover-Outcome s blob hb.1) (λ h. refl)))

  -- The switch of Open does what the boot decision of ROLLBACK.md says. It starts empty, or
  -- takes the generation of the blob and the states that RestoreNote makes of its notes, each
  -- under its origin, and nothing else; for a blob one generation ahead it then sets the anchor
  -- to that generation and the blob's digest; or it halts, also when a note does not restore,
  -- with the states as they were, and when the anchor cannot be set. The generations of the
  -- anchor and of the blob are uint32 values, and the blob's map has each key once.
  pub boot-Outcome :
      (s : RollbackStore D A) (anchored : AnchorState) (r : Result Error LoadedBlob)
      → anchored.generation ≤ max_uint32
      → IsBlob r
      → Outcome (decide anchored r) s (boot p s anchored r)
  boot-Outcome s anchored r ha hb =
      subst (Outcome (decide anchored r) s) (sym (boot-calls s anchored r ha hb))
        (decided-Outcome s anchored r hb)
