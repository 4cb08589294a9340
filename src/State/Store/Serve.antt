-- ===== src/State/Store/Serve.antt =====
-- internal/state/store.go: RollbackStore as the store of a witness.
use vitrum.Base.{◌≡◌, refl, sym, ap, ◌∙◌, Bool, true, false, Option, none, some}
use vitrum.Base.Bytes.{Bytes}
use vitrum.Base.Dict.{Dict, lookup}
use vitrum.Base.Dict.Distinct.{Distinct, or_else, lookup-insert_all}
use vitrum.Witness.{LogState}
use vitrum.Witness.Logs.{Store, IsStore}
use vitrum.Witness.Logs
use vitrum.State.{Error}
use vitrum.State.Store.{Platform, RollbackStore, put_batch}
use vitrum.State.Store.Commit.{put_batch-Steps}
use vitrum.State.Store.Failure.{put_batch-Kept}

abbrev succeeded : Option Error → Bool
succeeded none = true
succeeded (some e) = false

module _ {D A : Type 0} (p : Platform D A) where
  -- The methods Get, PutBatch, All and Halted of RollbackStore.
  unfoldable pub rollback_store : Store (RollbackStore D A) (Option Bytes)
  rollback_store = record {
    get = λ s o. Logs.get s.mem o;
    put_batch = λ s nonce u. let (t, e) = put_batch p s nonce u in (t, succeeded e);
    all = λ s. Logs.all s.mem;
    halted = λ s. s.halted;
  }

  committed :
      (s t : RollbackStore D A) (nonce : Option Bytes) (u : Dict LogState)
      (r : RollbackStore D A × Option Error)
      → Distinct u
      → put_batch p s nonce u ≡ r
      → ◌≡◌ {A = RollbackStore D A × Bool} (r.0, succeeded r.1) (t, true)
      → (o : Bytes) → Logs.get t.mem o ≡ or_else (lookup o u) (Logs.get s.mem o)
  unfolding Logs.get Logs.put_batch
  committed s t seed u (x, none) d h e o =
      let steps = put_batch-Steps p s x seed u h in
      ap (λ (w : RollbackStore D A × Bool). lookup o w.0.mem) (sym e)
      ∙ ap (λ (w : RollbackStore D A). lookup o w.mem) steps.result
      ∙ lookup-insert_all o u s.mem d
  committed s t seed u (x, some y) d h e o = cc

  kept :
      (s t : RollbackStore D A) (nonce : Option Bytes) (u : Dict LogState)
      (r : RollbackStore D A × Option Error)
      → put_batch p s nonce u ≡ r
      → ◌≡◌ {A = RollbackStore D A × Bool} (r.0, succeeded r.1) (t, false)
      → (o : Bytes) → Logs.get t.mem o ≡ Logs.get s.mem o
  unfolding Logs.get
  kept s t seed u (x, none) h e o = cc
  kept s t seed u (x, some y) h e o =
      ap (λ (w : RollbackStore D A × Bool). lookup o w.0.mem) (sym e)
      ∙ ap (λ m. lookup o m) (put_batch-Kept p s x seed u y h).mem

  -- The rollback-protected store is a store, whatever its disk, its anchor and its crypto do.
  pub rollback_store-IsStore : IsStore rollback_store
  unfolding rollback_store
  rollback_store-IsStore = record {
    committed = λ s t i u d h o. committed s t i u (put_batch p s i u) d refl h o;
    kept = λ s t i u h o. kept s t i u (put_batch p s i u) refl h o;
  }
