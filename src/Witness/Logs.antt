-- ===== src/Witness/Logs.antt =====
-- internal/witness/witness.go: the Store interfaces and MemStore.
use vitrum.Base.{Option, Bool, true, false, [], ◌≡◌, ap, subst}
use vitrum.Base.Dict.Distinct.{Distinct, or_else, lookup-insert_all}
use vitrum.Base.Bytes.{Bytes}
use vitrum.Base.Dict.{Dict, lookup, insert_all}
use vitrum.Witness.{LogState}

-- The interfaces Store and HaltableStore over a store's state `S`. `I` is what the outside
-- contributes to one PutBatch, such as a random nonce. A store without Halted is never halted.
pub record Store (S I : Type 0) : Type 0 where
  pub get : S → Bytes → Option LogState
  pub put_batch : S → I → Dict LogState → S × Bool
  pub all : S → Dict LogState
  pub halted : S → Bool

abbrev pub MemStore : Type 0
MemStore = Dict LogState

abbrev pub new_mem_store : MemStore
new_mem_store = []

module _ (m : MemStore) where
  unfoldable pub get : Bytes → Option LogState
  unfolding lookup
  get origin = lookup origin m

  -- PutBatch of MemStore never fails.
  unfoldable pub put_batch : Dict LogState → MemStore
  unfolding insert_all
  put_batch states = insert_all states m

  -- A copy of the map.
  unfoldable pub all : Dict LogState
  all = m

-- MemStore has no method Halted.
abbrev pub mem_store : Store MemStore Unit
mem_store = record {
  get = get;
  put_batch = λ m i states. (put_batch m states, true);
  all = all;
  halted = λ m. false;
}

-- What the comment on Store promises: a PutBatch that succeeds changes the states of its origins
-- and no other, and one that fails changes none.
pub record IsStore {S I : Type 0} (store : Store S I) : Type 0 where
  pub committed :
      (s t : S) (i : I) (u : Dict LogState)
      → Distinct u
      → store.put_batch s i u ≡ (t, true)
      → (o : Bytes) → store.get t o ≡ or_else (lookup o u) (store.get s o)
  pub kept :
      (s t : S) (i : I) (u : Dict LogState)
      → store.put_batch s i u ≡ (t, false)
      → (o : Bytes) → store.get t o ≡ store.get s o

-- The in-RAM store is a store.
pub mem_store-IsStore : IsStore mem_store
unfolding get put_batch
mem_store-IsStore = record {
  committed = λ s t i u d h o.
      subst (λ m. lookup o m ≡ or_else (lookup o u) (lookup o s)) (ap (λ r. r.0) h)
        (lookup-insert_all o u s d);
  kept = λ s t i u h o. cc;
}
