-- ===== src/Witness/Sequencer/Answers.antt =====
-- internal/witness: what an entry of the pool gets from sequencePool, and what it stores.
use vitrum.Base.{
  ℕ, ◌+◌, ◌≡◌, refl, sym, ap, ◌∙◌, subst, ◌⊎◌, inl, inr, Option, none, some, length, drop, arith,
}
use vitrum.Base.Bytes.{Bytes}
use vitrum.Base.Dict.{lookup}
use vitrum.Base.Dict.Distinct.{or_else, Distinct}
use vitrum.Witness.Logs.{Store, IsStore}
use vitrum.Witness.Pool.{PoolEntry, Witness}
use vitrum.Witness.Sequencer.{
  Signing, key_changed, failed, signed, with_result, next_state, signing, sign_entries,
}
use vitrum.Witness.Sequencer.Entries.{
  reply_of, state_of, map_entry, bind_entry, lookup-set_pool_result, answered, lookup-entries,
  lookup-states, signing-signed,
}
use vitrum.Witness.Sequencer.Commit.{Sequenced, idle, refused, looped}

module _ {S I : Type 0} (store : Store S I) (good : IsStore store) where
  -- The entry that a 200 answers: its checkpoint is what the store has for the origin, with the
  -- signed note, the answer is the note's signatures, and key and epoch are those of the witness.
  pub data IsCosigned (w : Witness S) (sign : ℕ → Bytes → Option Bytes) (v : Witness S) (o : Bytes)
      (e : PoolEntry) : Type 0 where
    cosigned :
        (s : Bytes)
        → w.signer ≡ some e.candidate.signer
        → w.epoch ≡ e.candidate.epoch
        → sign e.candidate.signer e.candidate.text ≡ some s
        → e.result.resp ≡ drop (length e.candidate.text + 1) s
        → store.get v.store o ≡ some (next_state e.candidate s)
        → IsCosigned w sign v o e

  module _ (w : Witness S) (sign : ℕ → Bytes → Option Bytes) (v : Witness S) (o : Bytes) where
    -- What the store has for the origin of an entry that the loop signed.
    stored_signed :
        (key : ℕ) (a : PoolEntry) (s : Bytes)
        → Distinct w.in_sequencing
        → store.get v.store o
          ≡ or_else
              (lookup o (sign_entries sign key w.epoch w.in_sequencing).states)
              (store.get w.store o)
        → lookup o w.in_sequencing ≡ some a
        → signing sign key w.epoch a ≡ signed s
        → store.get v.store o ≡ some (next_state a.candidate s)
    unfolding state_of
    stored_signed key a s d k ha hs =
        k
        ∙ ap (λ m. or_else m (store.get w.store o))
            (lookup-states sign key w.epoch o w.in_sequencing d
              ∙ ap (λ m. bind_entry (λ e. state_of e (signing sign key w.epoch e)) m) ha
              ∙ ap (λ g. state_of a g) hs)

    looped-200 :
        (key : ℕ) (a : PoolEntry)
        → w.signer ≡ some key
        → Distinct w.in_sequencing
        → store.get v.store o
          ≡ or_else
              (lookup o (sign_entries sign key w.epoch w.in_sequencing).states)
              (store.get w.store o)
        → lookup o w.in_sequencing ≡ some a
        → (answered sign key w.epoch a).result.code ≡ 200
        → IsCosigned w sign v o (answered sign key w.epoch a)
    unfolding reply_of
    looped-200 key a hk d k ha c = go (signing sign key w.epoch a) refl (c)
      where
        go :
            (g : Signing)
            → signing sign key w.epoch a ≡ g
            → (reply_of a g).code ≡ 200
            → IsCosigned w sign v o (answered sign key w.epoch a)
        go key_changed e c = absurd (omega arith)
        go failed e c = absurd (omega arith)
        go (signed s) e c =
            let (h1, h2, h3) = signing-signed sign key w.epoch a s e in
            cosigned s (hk ∙ ap (λ x. some x) (sym h1)) (sym h2)
              (ap (λ x. sign x a.candidate.text) h1 ∙ h3) (ap (λ g. (reply_of a g).resp) e)
              (stored_signed key a s d k ha e)

    map_entry-some :
        {A : Type 0} (f : PoolEntry → A) (m : Option PoolEntry) (x : A)
        → map_entry f m ≡ some x
        → (a : PoolEntry) × (m ≡ some a) × (f a ≡ x)
    map_entry-some f none x h = cc
    map_entry-some f (some a) x h = (a, refl, ground arith)

    -- An entry that sequencePool answers with 200 is cosigned and committed.
    pub Sequenced-200 :
        (e : PoolEntry)
        → Distinct w.in_sequencing
        → Sequenced store good w sign v
        → lookup o v.in_sequencing ≡ some e
        → e.result.code ≡ 200
        → IsCosigned w sign v o e
    unfolding lookup
    Sequenced-200 e d (idle p q) h c =
        absurd (nothing (ap (λ l. lookup o l) (sym (ap (λ v. v.in_sequencing) q ∙ p)) ∙ h))
      where
        nothing : none ≡ some e → ⊥
        nothing h = cc
    Sequenced-200 e d (refused r p q k) h c =
        let (a, ha, he) =
          map_entry-some (λ e. with_result e r) (lookup o w.in_sequencing) e
            (sym (ap (λ l. lookup o l) q ∙ lookup-set_pool_result o w.in_sequencing r) ∙ h) in
        absurd (code (ap (λ x. x.result.code) he ∙ c))
      where
        code : r.code ≡ 200 → ⊥
        code c = elim p [ inl x ↦ omega arith | inr x ↦ omega arith ]
    Sequenced-200 e d (looped key hk q k) h c =
        let (a, ha, he) =
          map_entry-some (answered sign key w.epoch) (lookup o w.in_sequencing) e (
            sym (ap (λ l. lookup o l) q ∙ lookup-entries sign key w.epoch o w.in_sequencing) ∙ h) in
        subst (λ x. IsCosigned w sign v o x) he
          (looped-200 key a hk d (k o) ha (ap (λ x. x.result.code) he ∙ c))

    -- What one run of sequencePool makes of the state of a log: nothing, or the checkpoint of the
    -- log's entry, signed.
    pub Sequenced-get :
        Distinct w.in_sequencing
        → Sequenced store good w sign v
        → (store.get v.store o ≡ store.get w.store o)
          ⊎ ((a : PoolEntry) × (s : Bytes) × (lookup o w.in_sequencing ≡ some a)
              × (store.get v.store o ≡ some (next_state a.candidate s)))
    unfolding state_of
    Sequenced-get d (idle p q) = inl (ap (λ v. store.get v.store o) q)
    Sequenced-get d (refused r p q k) = inl (k o)
    Sequenced-get d (looped key hk q k) =
        go (lookup o w.in_sequencing) refl (lookup-states sign key w.epoch o w.in_sequencing d)
      where
        signs :
            (a : PoolEntry) (g : Signing)
            → lookup o w.in_sequencing ≡ some a
            → signing sign key w.epoch a ≡ g
            → lookup o (sign_entries sign key w.epoch w.in_sequencing).states ≡ state_of a g
            → (store.get v.store o ≡ store.get w.store o)
              ⊎ ((a : PoolEntry) × (s : Bytes) × (lookup o w.in_sequencing ≡ some a)
                  × (store.get v.store o ≡ some (next_state a.candidate s)))
        signs a key_changed ha e h = inl (k o ∙ ap (λ m. or_else m (store.get w.store o)) h)
        signs a failed ha e h = inl (k o ∙ ap (λ m. or_else m (store.get w.store o)) h)
        signs a (signed s) ha e h = inr (a, s, ha, stored_signed key a s d (k o) ha e)

        go :
            (m : Option PoolEntry)
            → lookup o w.in_sequencing ≡ m
            → lookup o (sign_entries sign key w.epoch w.in_sequencing).states
              ≡ bind_entry (λ e. state_of e (signing sign key w.epoch e)) m
            → (store.get v.store o ≡ store.get w.store o)
              ⊎ ((a : PoolEntry) × (s : Bytes) × (lookup o w.in_sequencing ≡ some a)
                  × (store.get v.store o ≡ some (next_state a.candidate s)))
        go none e h = inl (k o ∙ ap (λ m. or_else m (store.get w.store o)) h)
        go (some a) e h = signs a (signing sign key w.epoch a) e refl h

    -- What the waiter of an entry gets.
    pub data IsAnswered (a : PoolEntry) : Type 0 where
      answer :
          (e : PoolEntry)
          → lookup o v.in_sequencing ≡ some e
          → e.candidate ≡ a.candidate
          → (e.result.code ≡ 200) ⊎ ((e.result.code ≡ 500) ⊎ (e.result.code ≡ 503))
          → IsAnswered a

    -- Every entry of the pool gets an answer: 200, 500 or 503.
    pub Sequenced-IsAnswered :
        (a : PoolEntry)
        → Sequenced store good w sign v
        → lookup o w.in_sequencing ≡ some a
        → IsAnswered a
    unfolding lookup reply_of
    Sequenced-IsAnswered a (idle p q) h = absurd (nothing (ap (λ l. lookup o l) (sym p) ∙ h))
      where
        nothing : none ≡ some a → ⊥
        nothing h = cc
    Sequenced-IsAnswered a (refused r p q k) h =
        answer (with_result a r)
          (ap (λ l. lookup o l) q
            ∙ lookup-set_pool_result o w.in_sequencing r
            ∙ ap (λ m. map_entry (λ e. with_result e r) m) h)
          refl (inr p)
    Sequenced-IsAnswered a (looped key hk q k) h =
        answer (answered sign key w.epoch a)
          (ap (λ l. lookup o l) q
            ∙ lookup-entries sign key w.epoch o w.in_sequencing
            ∙ ap (λ m. map_entry (answered sign key w.epoch) m) h)
          refl (codes_of (signing sign key w.epoch a))
      where
        codes_of :
            (g : Signing)
            → ((reply_of a g).code ≡ 200)
              ⊎ (((reply_of a g).code ≡ 500) ⊎ ((reply_of a g).code ≡ 503))
        codes_of key_changed = inr (inr refl)
        codes_of failed = inr (inl refl)
        codes_of (signed s) = inl refl

    -- sequencePool adds no entries.
    pub Sequenced-none :
        Sequenced store good w sign v
        → lookup o w.in_sequencing ≡ none
        → lookup o v.in_sequencing ≡ none
    Sequenced-none (idle p q) h = ap (λ v. lookup o v.in_sequencing) q ∙ h
    Sequenced-none (refused r p q k) h =
        ap (λ l. lookup o l) q
        ∙ lookup-set_pool_result o w.in_sequencing r
        ∙ ap (λ m. map_entry (λ e. with_result e r) m) h
    Sequenced-none (looped key hk q k) h =
        ap (λ l. lookup o l) q
        ∙ lookup-entries sign key w.epoch o w.in_sequencing
        ∙ ap (λ m. map_entry (answered sign key w.epoch) m) h
