-- ===== src/Witness/Sequencer/Commit.antt =====
-- internal/witness: no cosignature leaves sequencePool before its state is in the store.
use vitrum.Base.{
  ℕ, ◌≡◌, refl, sym, ap, ◌∙◌, subst, ◌⊎◌, inl, inr, List, [], ◌∷◌, Bool, true, false, if-elim,
  Option, none, some, if◌then◌else◌, arith,
}
use vitrum.Base.Bytes.{Bytes, codes}
use vitrum.Base.Dict.{lookup}
use vitrum.Base.Dict.Distinct.{or_else, Distinct}
use vitrum.Base.Int.{ℤ}
use vitrum.Witness.Logs.{Store, IsStore}
use vitrum.Witness.Pool.{Reply, Witness, reply, null}
use vitrum.Witness.Sequencer.{
  Batch, set_pool_result, sign_entries, fail_batch, after_put, commit_batch, sequence_pool,
}
use vitrum.Witness.Sequencer.Entries.{states-Distinct}

null-eq {ℓ} : {A : Type ℓ} (l : List A) → null l ≡ true → l ≡ []
null-eq [] h = refl
null-eq (x ∷ l) h = cc

module _ {S I : Type 0} (store : Store S I) (good : IsStore store) where
  -- What a run of sequencePool comes to: nothing to do, one refusal for all, or the loop's answers
  -- with the loop's states in the store.
  pub data Sequenced (w : Witness S) (sign : ℕ → Bytes → Option Bytes) (v : Witness S)
      : Type 0 where
    idle : w.in_sequencing ≡ [] → v ≡ w → Sequenced w sign v
    refused :
        (r : Reply)
        → (r.code ≡ 500) ⊎ (r.code ≡ 503)
        → v.in_sequencing ≡ set_pool_result w.in_sequencing r
        → ((o : Bytes) → store.get v.store o ≡ store.get w.store o)
        → Sequenced w sign v
    looped :
        (key : ℕ)
        → w.signer ≡ some key
        → v.in_sequencing ≡ (sign_entries sign key w.epoch w.in_sequencing).entries
        → ((o : Bytes)
            → store.get v.store o
              ≡ or_else
                  (lookup o (sign_entries sign key w.epoch w.in_sequencing).states)
                  (store.get w.store o))
        → Sequenced w sign v

  module _ (w : Witness S) (sign : ℕ → Bytes → Option Bytes) (now : ℤ) (i : I) where
    commit_batch-Sequenced :
        (key : ℕ)
        → w.signer ≡ some key
        → Distinct w.in_sequencing
        → Sequenced w sign
            (commit_batch store w (sign_entries sign key w.epoch w.in_sequencing) now i)
    unfolding commit_batch fail_batch after_put lookup
    commit_batch-Sequenced key hk d = go (sign_entries sign key w.epoch w.in_sequencing) refl
      where
        put :
            (b : Batch) (r : S × Bool)
            → b ≡ sign_entries sign key w.epoch w.in_sequencing
            → store.put_batch w.store i b.states ≡ r
            → Sequenced w sign (after_put store w b.entries now r)
        put b (s, true) e h = looped key hk (ap (λ b. b.entries) e) (λ o.
            good.committed w.store s i b.states
              (subst (λ b. Distinct b.states) (sym e)
                (states-Distinct sign key w.epoch w.in_sequencing d))
              h o
            ∙ ap (λ b. or_else (lookup o b.states) (store.get w.store o)) e)
        put b (s, false) e h =
            refused (reply 500 []) (inl refl) refl (good.kept w.store s i b.states h)

        go :
            (b : Batch)
            → b ≡ sign_entries sign key w.epoch w.in_sequencing
            → Sequenced w sign (commit_batch store w b now i)
        go b e =
            if-elim (λ v. Sequenced w sign v) b.sign_failed _ _
              (λ h. refused (reply 500 []) (inl refl) refl (λ o. refl))
              (λ h.
                if-elim (λ v. Sequenced w sign v) (null b.states) _ _
                  (λ n. looped key hk (ap (λ b. b.entries) e) (λ o.
                    ap (λ l. or_else (lookup o l) (store.get w.store o))
                      (sym (null-eq b.states n) ∙ ap (λ b. b.states) e)))
                  (λ n. put b (store.put_batch w.store i b.states) e refl))

    pub sequence_pool-Sequenced :
        Distinct w.in_sequencing → Sequenced w sign (sequence_pool store w sign now i)
    unfolding sequence_pool fail_batch
    sequence_pool-Sequenced d =
        if-elim (λ v. Sequenced w sign v) (null w.in_sequencing) _ _
          (λ h. idle (null-eq w.in_sequencing h) refl) (λ h. go w.signer refl)
      where
        go :
            (k : Option ℕ)
            → w.signer ≡ k
            → Sequenced w sign (elim k [
              | none ↦ fail_batch store w (reply 503 (codes "witness key not provisioned\n"))
              | some key ↦
                  if store.halted w.store
                  then fail_batch store w
                      (reply 503 (codes "witness halted: storage rollback or tamper detected\n"))
                  else commit_batch store w (sign_entries sign key w.epoch w.in_sequencing) now i
            ])
        go none e =
            refused (reply 503 (codes "witness key not provisioned\n")) (inr refl) refl (λ o. refl)
        go (some key) e =
            if-elim (λ v. Sequenced w sign v) (store.halted w.store) _ _
              (λ h.
                refused (reply 503 (codes "witness halted: storage rollback or tamper detected\n"))
                  (inr refl) refl (λ o. refl))
              (λ h. commit_batch-Sequenced key e d)

    -- A run of sequencePool leaves the other fields alone.
    pub sequence_pool-frame :
        ((sequence_pool store w sign now i).current_pool ≡ w.current_pool)
        × ((sequence_pool store w sign now i).closed ≡ w.closed)
        × ((sequence_pool store w sign now i).signer ≡ w.signer)
        × ((sequence_pool store w sign now i).epoch ≡ w.epoch)
    unfolding sequence_pool fail_batch commit_batch after_put
    sequence_pool-frame = ground arith
