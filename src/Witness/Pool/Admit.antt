-- ===== src/Witness/Pool/Admit.antt =====
-- internal/witness: addToPool takes a checkpoint only when it extends what is stored for its log.
use vitrum.Base.{
  subst, Option-cases, ℕ, ◌<◌, ◌≡◌, refl, sym, ap, ◌∙◌, ◌⊎◌, inl, inr, [], Bool, true, false,
  Option, none, some, length, arith,
}
use vitrum.Base.Bytes.{Bytes, bytes_eq_iff, bytes_eq_refl}
use vitrum.Base.Dict.{lookup, lookup-insert}
use vitrum.Base.Int.{int_lt, int_eq_iff}
use vitrum.Base.Result.{ok}
use vitrum.Witness.Logs.{Store}
use vitrum.Witness.Request.{Request}
use vitrum.Witness.Pool.Extends.{IsExtension, consistent-IsConsistent}
use vitrum.Witness.Pool.{
  Reply, Candidate, PoolEntry, Witness, Outcome, answers, waits, Logic, max_pool_size, reply,
  latest_size, conflict, same_candidate, consistent, check_request, match_pending, add_entry, admit,
  add_to_pool,
}

module _ (g : Logic) where
  -- The checks of AddCheckpoint that its pool relies on.
  pub check_request-ok :
      (signer : Option ℕ) (halted : Bool) (epoch : ℕ) (body : Bytes) (req : Request) (c : Candidate)
      → check_request g signer halted epoch body ≡ ok (req, c)
      → (g.parse_checkpoint c.text ≡ some c.cp)
        × (int_lt c.cp.n req.old ≡ false)
        × (signer ≡ some c.signer)
        × (halted ≡ false)
  unfolding check_request
  check_request-ok signer halted epoch body req c h = ground arith

  module _ {S I : Type 0} (store : Store S I) where
    -- The entry that a pool has for an origin, the current pool first.
    unfoldable pub pending : Witness S → Bytes → Option PoolEntry
    pending w origin = elim (lookup origin w.current_pool) [
      | some e ↦ some e
      | none ↦ lookup origin w.in_sequencing
    ]

    -- Nothing waits for the origin, there is room, and the candidate extends the stored state.
    unfoldable pub IsAdmissible : Witness S → Candidate → Type 0
    IsAdmissible w c =
        (lookup c.cp.origin w.current_pool ≡ none)
        × (lookup c.cp.origin w.in_sequencing ≡ none)
        × (length w.current_pool < max_pool_size)
        × IsExtension g (store.get w.store c.cp.origin) c.cp

    admit-cases :
        (w : Witness S) (req : Request) (c : Candidate)
        → ((((r : Reply) × ((admit g store w req c).1 ≡ answers r)))
            × ((admit g store w req c).0 ≡ w))
          ⊎ ((admit g store w req c ≡ (add_entry g store w c, waits c.cp.origin))
              × (length w.current_pool < max_pool_size)
              × (req.old ≡ latest_size (store.get w.store c.cp.origin))
              × (consistent g (store.get w.store c.cp.origin) req c.cp ≡ true))
    unfolding admit
    admit-cases w req c =
        ground (arith, int_eq_iff req.old (latest_size (store.get w.store c.cp.origin)))

    admit-IsAdmissible :
        (w : Witness S) (req : Request) (c : Candidate)
        → int_lt c.cp.n req.old ≡ false
        → lookup c.cp.origin w.current_pool ≡ none
        → lookup c.cp.origin w.in_sequencing ≡ none
        → ((admit g store w req c).0 ≡ w)
          ⊎ (((admit g store w req c).0 ≡ add_entry g store w c) × IsAdmissible w c)
    unfolding IsAdmissible IsExtension
    admit-IsAdmissible w req c h h1 h2 = elim (admit-cases w req c) [
      | inl p ↦ inl p.1
      | inr (e, room, old, taken) ↦ inr (
        ap (λ r. r.0) e,
        (
          h1,
          h2,
          room,
          (
            subst (λ o. int_lt c.cp.n o ≡ false) old h,
            consistent-IsConsistent g (store.get w.store c.cp.origin) req c.cp taken old,
          ),
        ),
      )
    ]

    add_to_pool-current :
        (w : Witness S) (req : Request) (c : Candidate) (e : PoolEntry)
        → lookup c.cp.origin w.current_pool ≡ some e
        → add_to_pool g store w req c ≡ (w, match_pending g store w e c)
    unfolding add_to_pool
    add_to_pool-current w req c e h = ground arith

    add_to_pool-sequencing :
        (w : Witness S) (req : Request) (c : Candidate) (e : PoolEntry)
        → lookup c.cp.origin w.current_pool ≡ none
        → lookup c.cp.origin w.in_sequencing ≡ some e
        → add_to_pool g store w req c ≡ (w, match_pending g store w e c)
    unfolding add_to_pool
    add_to_pool-sequencing w req c e h1 h2 = ground arith

    add_to_pool-fresh :
        (w : Witness S) (req : Request) (c : Candidate)
        → lookup c.cp.origin w.current_pool ≡ none
        → lookup c.cp.origin w.in_sequencing ≡ none
        → add_to_pool g store w req c ≡ admit g store w req c
    unfolding add_to_pool
    add_to_pool-fresh w req c h1 h2 = ground arith

    -- What addToPool does to the witness, for a request that passed the checks of AddCheckpoint:
    -- nothing, or it adds an entry for a candidate that is admissible.
    pub add_to_pool-cases :
        (w : Witness S) (req : Request) (c : Candidate)
        → int_lt c.cp.n req.old ≡ false
        → ((add_to_pool g store w req c).0 ≡ w)
          ⊎ (((add_to_pool g store w req c).0 ≡ add_entry g store w c) × IsAdmissible w c)
    add_to_pool-cases w req c h = elim (Option-cases (lookup c.cp.origin w.current_pool)) [
      | inr (e, he) ↦ inl (ap (λ r. r.0) (add_to_pool-current w req c e he))
      | inl h1 ↦ elim (Option-cases (lookup c.cp.origin w.in_sequencing)) [
        | inr (e, he) ↦ inl (ap (λ r. r.0) (add_to_pool-sequencing w req c e h1 he))
        | inl h2 ↦ rw (add_to_pool-fresh w req c h1 h2) (admit-IsAdmissible w req c h h1 h2)
      ]
    ]

    -- Entry and candidate agree on all that matchPending compares.
    unfoldable pub IsSame : PoolEntry → Candidate → Type 0
    IsSame e c =
        (e.candidate.signer ≡ c.signer)
        × (e.candidate.epoch ≡ c.epoch)
        × (e.candidate.cp.n ≡ c.cp.n)
        × (e.candidate.cp.hash ≡ c.cp.hash)
        × (e.candidate.text ≡ c.text)

    match_pending-cases :
        (w : Witness S) (e : PoolEntry) (c : Candidate)
        → (match_pending g store w e c ≡ answers (conflict (store.get w.store c.cp.origin)))
          ⊎ ((match_pending g store w e c ≡ waits c.cp.origin) × IsSame e c)
    unfolding match_pending same_candidate IsSame
    match_pending-cases w e c = ground (
      arith,
      int_eq_iff e.candidate.cp.n c.cp.n,
      bytes_eq_iff e.candidate.cp.hash c.cp.hash,
      bytes_eq_iff e.candidate.text c.text,
    )

    pending-current :
        (w : Witness S) (origin : Bytes) (e : PoolEntry)
        → lookup origin w.current_pool ≡ some e
        → pending w origin ≡ some e
    unfolding pending
    pending-current w origin e h = ground arith

    pending-sequencing :
        (w : Witness S) (origin : Bytes) (e : PoolEntry)
        → lookup origin w.current_pool ≡ none
        → lookup origin w.in_sequencing ≡ some e
        → pending w origin ≡ some e
    unfolding pending
    pending-sequencing w origin e h1 h2 = ground arith

    lookup-add_entry :
        (w : Witness S) (c : Candidate)
        → lookup c.cp.origin (add_entry g store w c).current_pool
          ≡ some (record { candidate = c; result = reply 0 [] })
    unfolding add_entry
    lookup-add_entry w c =
        lookup-insert c.cp.origin c.cp.origin (record { candidate = c; result = reply 0 [] })
          w.current_pool
        ∙ rw (bytes_eq_refl c.cp.origin)

    -- A submission that waits after addToPool waits for its own origin, and one of the pools
    -- has for that origin an entry with the size, the hash, the text, the signer and the epoch
    -- of its candidate.
    pub add_to_pool-waits :
        (w : Witness S) (req : Request) (c : Candidate) (origin : Bytes)
        → (add_to_pool g store w req c).1 ≡ waits origin
        → (origin ≡ c.cp.origin)
          × ((e : PoolEntry) × (pending (add_to_pool g store w req c).0 c.cp.origin ≡ some e)
              × IsSame e c)
    add_to_pool-waits w req c origin h = elim (Option-cases (lookup c.cp.origin w.current_pool)) [
      | inr (e, he) ↦ rw (add_to_pool-current w req c e he) (
          found e (pending-current w c.cp.origin e he)
            (ap (λ r. r.1) (sym (add_to_pool-current w req c e he)) ∙ h))
      | inl h1 ↦ elim (Option-cases (lookup c.cp.origin w.in_sequencing)) [
        | inr (e, he) ↦ rw (add_to_pool-sequencing w req c e h1 he) (
            found e (pending-sequencing w c.cp.origin e h1 he)
              (ap (λ r. r.1) (sym (add_to_pool-sequencing w req c e h1 he)) ∙ h))
        | inl h2 ↦ elim (admit-cases w req c) [
          | inl p ↦
              absurd
                (answered p.0.0 (ap (λ r. r.1) (sym (add_to_pool-fresh w req c h1 h2)) ∙ h) p.0.1)
          | inr p ↦ (
            sym (waits-inj (ap (λ r. r.1) (sym p.0 ∙ sym (add_to_pool-fresh w req c h1 h2)) ∙ h)),
            (
              record { candidate = c; result = reply 0 [] },
              pending-current (add_to_pool g store w req c).0 c.cp.origin
                  (record { candidate = c; result = reply 0 [] })
                  (ap (λ (r : Witness S × Outcome). lookup c.cp.origin r.0.current_pool)
                      (add_to_pool-fresh w req c h1 h2 ∙ p.0)
                    ∙ lookup-add_entry w c),
              unfold IsSame in (refl, refl, refl, refl, refl),
            ),
          )
        ]
      ]
    ]
      where
        waits-inj : {a b : Bytes} → waits a ≡ waits b → a ≡ b
        waits-inj h = cc

        answered :
            (r : Reply)
            → (admit g store w req c).1 ≡ waits origin
            → (admit g store w req c).1 ≡ answers r
            → ⊥
        answered r h k = cc

        found :
            (e : PoolEntry)
            → pending w c.cp.origin ≡ some e
            → match_pending g store w e c ≡ waits origin
            → (origin ≡ c.cp.origin)
              × ((e : PoolEntry) × (pending w c.cp.origin ≡ some e) × IsSame e c)
        found e he hm = elim (match_pending-cases w e c) [ inl p ↦ cc | inr p ↦ (cc, (e, he, p.1)) ]
