-- ===== src/Witness/Protocol/Sound.antt =====
-- internal/witness: what waits in a pool extends what is stored, at every moment.
use vitrum.Base.{
  ℕ, ◌+◌, ◌≤◌, ◌≡◌, refl, sym, ◌∙◌, subst, ◌⊎◌, inl, inr, [], ◌∷◌, false, Option, none, some,
  length, arith,
}
use vitrum.Base.Bytes.{Bytes, bytes_eq_iff}
use vitrum.Base.Dict.{Dict, lookup, insert, lookup-insert}
use vitrum.Base.Dict.Distinct.{Distinct, insert-Distinct}
use vitrum.Base.Int.{int_lt}
use vitrum.Witness.Logs.{Store, IsStore}
use vitrum.Witness.Pool.{
  Candidate, PoolEntry, Pool, Witness, Logic, max_pool_size, reply, add_entry, add_to_pool,
}
use vitrum.Witness.Request.{Request}
use vitrum.Witness.Pool.Extends.{IsExtension}
use vitrum.Witness.Pool.Admit.{IsAdmissible, add_to_pool-cases}
use vitrum.Witness.Sequencer.Answers.{Sequenced-get, Sequenced-none}
use vitrum.Witness.Sequencer.Commit.{Sequenced}
use vitrum.Witness.Protocol.{Phase, waiting, rotated, sequenced}

insert-cases {ℓ} :
    {V : Type ℓ} (k j : Bytes) (v x : V) (m : Dict V)
    → lookup j (insert k v m) ≡ some x
    → ((k ≡ j) × (v ≡ x)) ⊎ (lookup j m ≡ some x)
insert-cases k j v x m h = ground (arith, lookup-insert k j v m, bytes_eq_iff k j)

length-insert {ℓ} :
    {V : Type ℓ} (k : Bytes) (v : V) (m : Dict V) → length (insert k v m) ≤ length m + 1
unfolding insert
length-insert k v [] = omega arith
length-insert k v ((j, w) ∷ m) = ground (arith, length-insert k v m)

none-some {ℓ} : {A : Type ℓ} {a : A} → none ≡ some a → ⊥
none-some h = cc

module _ {S I : Type 0} (g : Logic) (store : Store S I) where
  -- The entry stands under its origin, its checkpoint is what its text says, and it extends the
  -- stored state of the origin.
  pub record IsPending (s : S) (o : Bytes) (e : PoolEntry) : Type 0 where
    pub of_origin : e.candidate.cp.origin ≡ o
    pub of_text : g.parse_checkpoint e.candidate.text ≡ some e.candidate.cp
    pub extends : IsExtension g (store.get s o) e.candidate.cp

  -- The pool that sequencePool is about to sign and commit.
  unfoldable pub IsReady : Phase → S → Pool → Type 0
  IsReady waiting s p = Unit
  IsReady rotated s p =
      Distinct p × ((o : Bytes) (e : PoolEntry) → lookup o p ≡ some e → IsPending s o e)
  IsReady sequenced s p = Unit

  -- The invariant, on the phase, the store's state, the current pool and the pool in sequencing.
  pub record IsSound (p : Phase) (s : S) (cur seq : Pool) : Type 0 where
    pub distinct : Distinct cur
    pub room : length cur ≤ max_pool_size
    pub current : (o : Bytes) (e : PoolEntry) → lookup o cur ≡ some e → IsPending s o e
    pub apart : (o : Bytes) (e : PoolEntry) → lookup o cur ≡ some e → lookup o seq ≡ none
    pub ready : IsReady p s seq

  pub empty_IsSound : (p : Phase) (s : S) (seq : Pool) → IsReady p s seq → IsSound p s [] seq
  unfolding lookup
  empty_IsSound p s seq r = record {
    distinct = tt;
    room = omega arith;
    current = λ o e h. cc;
    apart = λ o e h. cc;
    ready = r;
  }

  add_entry-IsSound :
      (p : Phase) (w : Witness S) (c : Candidate)
      → IsSound p w.store w.current_pool w.in_sequencing
      → g.parse_checkpoint c.text ≡ some c.cp
      → IsAdmissible g store w c
      → IsSound p w.store (add_entry g store w c).current_pool w.in_sequencing
  unfolding add_entry IsAdmissible
  add_entry-IsSound p w c snd hp (h1, h2, h3, h4) = record {
    distinct = insert-Distinct c.cp.origin e w.current_pool snd.distinct;
    room = room;
    current = λ o x h. current o x (insert-cases c.cp.origin o e x w.current_pool h);
    apart = λ o x h. apart o x (insert-cases c.cp.origin o e x w.current_pool h);
    ready = snd.ready;
  }
    where
      e : PoolEntry
      e = record { candidate = c; result = reply 0 [] }

      room : length (insert c.cp.origin e w.current_pool) ≤ max_pool_size
      room = omega (arith, length-insert c.cp.origin e w.current_pool)

      own : IsPending w.store c.cp.origin e
      own = record { of_origin = refl; of_text = hp; extends = h4 }

      current :
          (o : Bytes) (x : PoolEntry)
          → ((c.cp.origin ≡ o) × (e ≡ x)) ⊎ (lookup o w.current_pool ≡ some x)
          → IsPending w.store o x
      current o x (inl q) =
          subst (λ x. IsPending w.store o x) q.1 (subst (λ o. IsPending w.store o e) q.0 own)
      current o x (inr q) = snd.current o x q

      apart :
          (o : Bytes) (x : PoolEntry)
          → ((c.cp.origin ≡ o) × (e ≡ x)) ⊎ (lookup o w.current_pool ≡ some x)
          → lookup o w.in_sequencing ≡ none
      apart o x (inl q) = subst (λ o. lookup o w.in_sequencing ≡ none) q.0 h2
      apart o x (inr q) = snd.apart o x q

  pub add_to_pool-IsSound :
      (p : Phase) (w : Witness S) (req : Request) (c : Candidate)
      → IsSound p w.store w.current_pool w.in_sequencing
      → g.parse_checkpoint c.text ≡ some c.cp
      → int_lt c.cp.n req.old ≡ false
      → (let v = (add_to_pool g store w req c).0 in
          IsSound p v.store v.current_pool v.in_sequencing)
  unfolding add_entry
  add_to_pool-IsSound p w req c snd hp hn = elim (add_to_pool-cases g store w req c hn) [
    | inl e ↦ subst (λ v. IsSound p v.store v.current_pool v.in_sequencing) (sym e) snd
    | inr (e, h) ↦
        subst (λ v. IsSound p v.store v.current_pool v.in_sequencing) (sym e)
          (add_entry-IsSound p w c snd hp h)
  ]

  -- A commit leaves what waits in the current pool pending: it changes other logs only.
  pub Sequenced-IsSound :
      (good : IsStore store) (w v : Witness S) (sign : ℕ → Bytes → Option Bytes)
      → IsSound rotated w.store w.current_pool w.in_sequencing
      → Sequenced store good w sign v
      → IsSound sequenced v.store w.current_pool v.in_sequencing
  unfolding IsReady
  Sequenced-IsSound good w v sign snd q = record {
    distinct = snd.distinct;
    room = snd.room;
    current = λ o e h. record {
      of_origin = (snd.current o e h).of_origin;
      of_text = (snd.current o e h).of_text;
      extends =
          subst (λ m. IsExtension g m e.candidate.cp) (sym (same o e h))
            (snd.current o e h).extends;
    };
    apart = λ o e h. Sequenced-none store good w sign v o q (snd.apart o e h);
    ready = tt;
  }
    where
      same :
          (o : Bytes) (e : PoolEntry)
          → lookup o w.current_pool ≡ some e
          → store.get v.store o ≡ store.get w.store o
      same o e h = elim (Sequenced-get store good w sign v o snd.ready.0 q) [
        | inl k ↦ k
        | inr (a, s, ha, k) ↦ absurd (none-some (sym (snd.apart o e h) ∙ ha))
      ]
