-- ===== src/State/Store/Boot.antt =====
-- internal/state/store.go: a store that Open serves is not older than the anchor.
use vitrum.Base.{
  ℕ, ◌+◌, ◌≤◌, ◌≡◌, refl, subst, ◌⊎◌, inr, Bool, true, false, Option, none, some, [], arith,
}
use vitrum.Base.Bytes.{Bytes, bytes_eq_iff}
use vitrum.Base.Dict.{Dict}
use vitrum.Base.Result.{Result, ok, err}
use vitrum.Witness.{LogState}
use vitrum.State.{Error}
use vitrum.State.Anchor.{AnchorState}
use vitrum.State.Blob.{LoadedBlob, load}
use vitrum.State.Store.{
  Platform, RollbackStore, max_uint32, anchor_for, halt, new_store, admit_into, admit_notes, adopt,
  reanchor, reanchored, boot, open_store,
}

module _ {D A : Type 0} (p : Platform D A) where
  -- What Open may serve: an empty start under a fresh anchor, or the newest blob, which the anchor
  -- names by digest or which is one generation ahead of it.
  pub record NoRollback (anchored : AnchorState) (r : Result Error LoadedBlob)
      (s : RollbackStore D A) : Type 0 where
    pub not_behind : anchored.generation ≤ s.gen
    pub not_far_ahead : s.gen ≤ anchored.generation + 1
    pub source :
        ((anchored.bound ≡ false) × (s.gen ≡ 0) × (s.mem ≡ []))
        ⊎ ((blob : LoadedBlob) × (r ≡ ok blob)
            × (blob.gen ≡ s.gen)
            × ((blob.hash ≡ anchored.blob_hash) ⊎ (s.gen ≡ anchored.generation + 1)))

  adopt-gen : (s : RollbackStore D A) (blob : LoadedBlob) → (adopt p s blob).0.gen ≡ blob.gen
  unfolding adopt admit_into halt
  adopt-gen s blob = go (admit_notes p.parse_checkpoint blob.states [])
    where
      go :
          (r : Result Error (Dict LogState))
          → (admit_into p (record s { gen = blob.gen }) r).0.gen ≡ blob.gen
      go (ok m) = refl
      go (err e) = refl

  reanchor-gen :
      (w : RollbackStore D A × Bool) (blob : LoadedBlob) → (reanchor p w blob).gen ≡ w.0.gen
  unfolding reanchor
  reanchor-gen (s, false) blob = refl
  reanchor-gen (s, true) blob = go (p.anchor.set_anchor s.anchor (anchor_for blob))
    where
      go : (r : A × Option Error) → (reanchored p s r).gen ≡ s.gen
      go (a, none) = refl
      go (a, some e) = unfold halt in refl

  -- If Open does not halt, it serves nothing older than the anchor.
  pub boot-NoRollback :
      (s : RollbackStore D A) (anchored : AnchorState) (r : Result Error LoadedBlob)
      → anchored.generation ≤ max_uint32
      → s.mem ≡ []
      → (boot p s anchored r).halted ≡ false
      → NoRollback anchored r (boot p s anchored r)
  unfolding boot halt
  boot-NoRollback s anchored (err e) ha m h = record {
    not_behind = ground arith;
    not_far_ahead = ground arith;
    source = ground arith;
  }
  boot-NoRollback s anchored (ok blob) ha m h = record {
    not_behind = ground (arith, adopt-gen s blob, reanchor-gen (adopt p s blob) blob);
    not_far_ahead = ground (arith, adopt-gen s blob, reanchor-gen (adopt p s blob) blob);
    source = inr (
      blob,
      refl,
      ground (arith, adopt-gen s blob, reanchor-gen (adopt p s blob) blob),
      ground (
        arith,
        adopt-gen s blob,
        reanchor-gen (adopt p s blob) blob,
        bytes_eq_iff blob.hash anchored.blob_hash,
      ),
    );
  }

  -- A store that Open returns without a halt is not behind the anchor that Open has read and at
  -- most one generation ahead of it: either the anchor was never bound, and the store starts
  -- empty at generation 0, or the store is at the generation of the blob that load returned,
  -- whose digest the anchor names or which is one generation ahead. The anchor's generation is
  -- a uint32.
  pub open_store-NoRollback :
      (d : D) (off : ℕ) (key : Bytes) (a : A) (anchored : AnchorState) (s : RollbackStore D A)
      → anchored.generation ≤ max_uint32
      → p.anchor.anchor a ≡ ok anchored
      → open_store p d off key a ≡ ok s
      → s.halted ≡ false
      → NoRollback anchored (load p.crypto p.device d off key) s
  unfolding open_store new_store
  open_store-NoRollback d off key a anchored s ha e h run =
      let r = load p.crypto p.device d off key in
      let same : boot p (new_store d off key a) anchored r ≡ s = ground (arith, h, e) in
      subst (NoRollback anchored r) same
        (boot-NoRollback (new_store d off key a) anchored r ha refl (rw same run))
