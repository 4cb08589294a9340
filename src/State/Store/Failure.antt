-- ===== src/State/Store/Failure.antt =====
-- internal/state/store.go: what PutBatch leaves when it returns an error.
use vitrum.Base.{
  ℕ, ◌%◌, ◌≡◌, refl, ap, subst, ◌⊎◌, inl, inr, Bool, true, false, Option, none, some, ◌==◌,
  if◌then◌else◌, arith,
}
use vitrum.Base.Bytes.{Bytes}
use vitrum.Base.Dict.{Dict}
use vitrum.Base.Result.{Result, ok, err}
use vitrum.Witness.{LogState}
use vitrum.State.{Error, halted}
use vitrum.State.Blob.{Crypto, BlockDevice, seal_blob, slot_lba, save_at, save}
use vitrum.State.Store.{
  Platform, RollbackStore, max_uint32, next_gen, is_write_failed, halt, next_states, after_save,
  after_anchor, put_batch,
}

module _ {D : Type 0} (c : Crypto) (dev : BlockDevice D) where
  -- An error of save other than a failed write comes before the device is touched.
  save_at-untouched :
      (d d' : D) (b : Result Error Bytes) (l : Result Error ℕ) (e : Error)
      → save_at c dev d b l ≡ (d', err e)
      → (is_write_failed e ≡ true) ⊎ (d' ≡ d)
  unfolding save_at
  save_at-untouched d d' (err x) l e h = inr (ground arith)
  save_at-untouched d d' (ok b) (err x) e h = inr (ground arith)
  save_at-untouched d d' (ok b) (ok lba) e h = inl (ground arith)

error_pair : {D : Type 0} (w : D × Result Error Bytes) (x : Error) → w.1 ≡ err x → w ≡ (w.0, err x)
error_pair w x h = ap (λ (r : Result Error Bytes). (w.0, r)) h

module _ {D A : Type 0} (p : Platform D A) where
  -- Memory and generation are as before, and the store has halted or nothing at all has changed.
  pub record Kept (s s' : RollbackStore D A) : Type 0 where
    pub mem : s'.mem ≡ s.mem
    pub gen : s'.gen ≡ s.gen
    pub stopped : (s'.halted ≡ true) ⊎ (s' ≡ s)

  halt-Kept : (s s' : RollbackStore D A) → s'.mem ≡ s.mem → s'.gen ≡ s.gen → Kept s (halt s')
  unfolding halt
  halt-Kept s s' m g = record { mem = m; gen = g; stopped = inl refl }

  -- After an error of save.
  failed_save-Kept :
      (s : RollbackStore D A) (d : D) (wf : Bool)
      → (wf ≡ true) ⊎ (d ≡ s.dev)
      → Kept s (if wf then halt (record s { dev = d }) else record s { dev = d })
  failed_save-Kept s d true h = halt-Kept s (record s { dev = d }) refl refl
  failed_save-Kept s d false (inl e) = absurd (false_true e)
    where
      false_true : false ≡ true → ⊥
      false_true e = cc
  failed_save-Kept s d false (inr e) = record {
    mem = refl;
    gen = refl;
    stopped = inr (ap (λ (x : D). record s { dev = x }) e);
  }

  after_anchor-Kept :
      (s s' : RollbackStore D A) (d : D) (next : ℕ) (updates : Dict LogState) (r : A × Option Error)
      (e : Error)
      → after_anchor p s d next updates r ≡ (s', some e)
      → Kept s s'
  unfolding after_anchor
  after_anchor-Kept s s' d next updates (a, none) e q = absurd (no_result q)
    where
      no_result :
          {x y : RollbackStore D A}
          → ◌≡◌ {A = RollbackStore D A × Option Error} (x, none) (y, some e)
          → ⊥
      no_result h = cc
  after_anchor-Kept s s' d next updates (a, some x) e q =
      subst (Kept s) (ap (λ (w : RollbackStore D A × Option Error). w.0) q)
        (halt-Kept s (record s { dev = d; anchor = a }) refl refl)

  after_save-Kept :
      (s s' : RollbackStore D A) (next : ℕ) (updates : Dict LogState) (w : D × Result Error Bytes)
      (e : Error)
      → ((x : Error) → w.1 ≡ err x → (is_write_failed x ≡ true) ⊎ (w.0 ≡ s.dev))
      → after_save p s next updates w ≡ (s', some e)
      → Kept s s'
  unfolding after_save
  after_save-Kept s s' next updates (d, err x) e early q =
      subst (Kept s) (ap (λ (w : RollbackStore D A × Option Error). w.0) q)
        (failed_save-Kept s d (is_write_failed x) (early x refl))
  after_save-Kept s s' next updates (d, ok h) e early q =
      after_anchor-Kept s s' d next updates
        (p.anchor.set_anchor s.anchor (record { generation = next; blob_hash = h; bound = true })) e
        q

  -- A PutBatch that returns an error has not changed the states or the generation that the
  -- store serves, and either the store has halted or it is exactly as before, medium and anchor
  -- included.
  pub put_batch-Kept :
      (s s' : RollbackStore D A) (nonce : Option Bytes) (updates : Dict LogState) (e : Error)
      → put_batch p s nonce updates ≡ (s', some e)
      → Kept s s'
  unfolding put_batch save
  put_batch-Kept s s' nonce updates e q = go s.halted (s.gen == max_uint32) q
    where
      go :
          (h f : Bool)
          → (if h
              then (s, some halted)
              else if f
              then (halt s, some halted)
              else after_save p s (next_gen s.gen) updates (
                  save p.crypto p.device s.dev s.off s.key nonce
                    (next_gen s.gen)
                    (next_states s updates)))
            ≡ (s', some e)
          → Kept s s'
      go true f q =
          subst (Kept s) (ap (λ (w : RollbackStore D A × Option Error). w.0) q)
            (record { mem = refl; gen = refl; stopped = inr refl })
      go false true q =
          subst (Kept s) (ap (λ (w : RollbackStore D A × Option Error). w.0) q)
            (halt-Kept s s refl refl)
      go false false q =
          let w =
            save p.crypto p.device s.dev s.off s.key nonce (next_gen s.gen)
              (next_states s updates) in
          after_save-Kept s s' (next_gen s.gen) updates w e
            (λ x h.
              save_at-untouched p.crypto p.device s.dev w.0
                (seal_blob p.crypto s.key nonce (next_gen s.gen) (next_states s updates))
                (slot_lba p.device s.dev s.off (next_gen s.gen % 2)) x (error_pair w x h))
            q
