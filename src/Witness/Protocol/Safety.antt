-- ===== src/Witness/Protocol/Safety.antt =====
-- internal/witness: whatever the interleaving, a log's stored state only ever moves to an extension.
use vitrum.Base.{
  arith, if-elim, ℕ, ◌≤◌, ◌≡◌, refl, sym, ap, subst, ◌⊎◌, inl, inr, [], ◌∷◌, Bool, false, Option,
  none, some, length,
}
use vitrum.Base.Bytes.{Bytes}
use vitrum.Base.Dict.{lookup}
use vitrum.Base.Int.{ℤ, int_lt}
use vitrum.Witness.Logs.{Store, IsStore}
use vitrum.Witness.Pool.{
  PoolEntry, Pool, Witness, Logic, max_pool_size, latest_size, set_signer, clear_signer,
  new_witness, add_entry, add_to_pool,
}
use vitrum.Witness.Pool.Extends.{IsExtension}
use vitrum.Witness.Pool.Admit.{IsAdmissible, add_to_pool-cases, check_request-ok}
use vitrum.Witness.Sequencer.{
  rotate, retire, sequence, start_sequencer, end_sequencer, sequence_pool, next_state, stop_pools,
}
use vitrum.Witness.Sequencer.Answers.{
  Sequenced-get, Sequenced-200, IsCosigned, answer, Sequenced-IsAnswered,
}
use vitrum.Witness.Sequencer.Commit.{sequence_pool-Sequenced, sequence_pool-frame}
use vitrum.Witness.Protocol.{
  Phase, waiting, rotated, sequenced, Step, signer_set, signer_cleared, submitted, started, rotates,
  sequences, retires, ended, Reach, made, next,
}
use vitrum.Witness.Protocol.Sound.{
  IsPending, IsReady, IsSound, empty_IsSound, add_to_pool-IsSound, Sequenced-IsSound,
}

module _ {S I : Type 0} (g : Logic) (store : Store S I) where
  abbrev pub IsSoundAt : Phase → Witness S → Type 0
  IsSoundAt p w = IsSound g store p w.store w.current_pool w.in_sequencing

  started_IsSound :
      (p : Phase) (w : Witness S) → IsSoundAt p w → IsSoundAt p (start_sequencer store w).0
  unfolding start_sequencer
  started_IsSound p w snd =
      if-elim (λ (r : Witness S × Bool). IsSoundAt p r.0) w.running _ _ (λ h. snd) (λ h. snd)

  rotate-IsSound : (w : Witness S) → IsSoundAt waiting w → IsSoundAt rotated (rotate store w)
  unfolding rotate IsReady
  rotate-IsSound w snd =
      empty_IsSound g store rotated w.store w.current_pool (snd.distinct, snd.current)

  retire-IsSound : (w : Witness S) → IsSoundAt sequenced w → IsSoundAt waiting (retire store w)
  unfolding retire IsReady lookup
  retire-IsSound w snd = record {
    distinct = snd.distinct;
    room = snd.room;
    current = snd.current;
    apart = λ o e h. refl;
    ready = tt;
  }

  end-IsSound : (w : Witness S) → IsSoundAt waiting (end_sequencer store w)
  unfolding end_sequencer stop_pools IsReady
  end-IsSound w = empty_IsSound g store waiting w.store w.in_sequencing tt

  module _ (good : IsStore store) where
    sequence_pool-IsSound :
        (w : Witness S) (sign : ℕ → Bytes → Option Bytes) (now : ℤ) (i : I)
        → IsSoundAt rotated w
        → IsSoundAt sequenced (sequence_pool store w sign now i)
    unfolding IsReady
    sequence_pool-IsSound w sign now i snd =
        let v = sequence_pool store w sign now i in
        subst (λ p. IsSound g store sequenced v.store p v.in_sequencing)
          (sym (sequence_pool-frame store good w sign now i).0)
          (Sequenced-IsSound g store good w v sign snd
            (sequence_pool-Sequenced store good w sign now i snd.ready.0))

    Step-IsSound :
        {p q : Phase} {w v : Witness S} → Step g store p w q v → IsSoundAt p w → IsSoundAt q v
    unfolding set_signer clear_signer
    Step-IsSound (signer_set key) snd = snd
    Step-IsSound signer_cleared snd = snd
    Step-IsSound {p} {q} {w} (submitted signer halted epoch body req c h) snd =
        let (hp, hn, hs, hh) = check_request-ok g signer halted epoch body req c h in
        add_to_pool-IsSound g store p w req c snd hp hn
    Step-IsSound {p} {q} {w} started snd = started_IsSound p w snd
    Step-IsSound {p} {q} {w} rotates snd = rotate-IsSound w snd
    Step-IsSound {p} {q} {w} (sequences sign now i) snd = sequence_pool-IsSound w sign now i snd
    Step-IsSound {p} {q} {w} retires snd = retire-IsSound w snd
    Step-IsSound {p} {q} {w} ended snd = end-IsSound w

    -- In every state that a witness reaches: the pool has at most 256 entries, no origin waits in
    -- two pools, and every entry that is not yet committed stands under the origin of its
    -- checkpoint, has the checkpoint that its text says, and extends what the store has.
    pub Reach-IsSound : {p : Phase} {w : Witness S} → Reach g store p w → IsSoundAt p w
    unfolding new_witness IsReady
    Reach-IsSound (made s) = empty_IsSound g store waiting s [] tt
    Reach-IsSound (next r st) = Step-IsSound st (Reach-IsSound r)

    -- In every state that a witness reaches over a store that keeps its contract, for every
    -- entry of its current pool: the entry stands under the origin of its checkpoint, the
    -- checkpoint is what its text says and extends what the store has for that origin, the
    -- origin has no entry in sequencing, and the pool has at most 256 entries.
    pub Reach-IsPending :
        {p : Phase} {w : Witness S}
        → Reach g store p w
        → (o : Bytes) (e : PoolEntry) → lookup o w.current_pool ≡ some e
        → IsPending g store w.store o e
          × (lookup o w.in_sequencing ≡ none)
          × (length w.current_pool ≤ max_pool_size)
    Reach-IsPending r o e h =
        let snd = Reach-IsSound r in (snd.current o e h, snd.apart o e h, snd.room)

    -- The state of a log is as before, or it is a checkpoint of this log that extends it.
    pub data Grows (s t : S) (o : Bytes) : Type 0 where
      unchanged : store.get t o ≡ store.get s o → Grows s t o
      extended :
          (e : PoolEntry) (signed : Bytes)
          → IsPending g store s o e
          → store.get t o ≡ some (next_state e.candidate signed)
          → Grows s t o

    sequence_pool-Grows :
        (w : Witness S) (sign : ℕ → Bytes → Option Bytes) (now : ℤ) (i : I) (o : Bytes)
        → IsSoundAt rotated w
        → Grows w.store (sequence_pool store w sign now i).store o
    unfolding IsReady
    sequence_pool-Grows w sign now i o snd =
        elim (Sequenced-get store good w sign (sequence_pool store w sign now i) o snd.ready.0
          (sequence_pool-Sequenced store good w sign now i snd.ready.0)) [
            | inl k ↦ unchanged k
            | inr (a, s, ha, k) ↦ extended a s (snd.ready.1 o a ha) k
          ]

    -- No step of a witness in a state it reaches over a store that keeps its contract, in
    -- whatever order submissions, signer changes and the sequencer take their locks, changes
    -- the stored state of a log other than to a checkpoint of that log, parsed from the text
    -- that was signed, that is consistent with the stored state and not smaller than it.
    pub Step-Grows :
        {p q : Phase} {w v : Witness S}
        → Reach g store p w
        → Step g store p w q v
        → (o : Bytes) → Grows w.store v.store o
    unfolding set_signer clear_signer rotate retire start_sequencer end_sequencer stop_pools
        add_entry
    Step-Grows r (signer_set key) o = unchanged refl
    Step-Grows r signer_cleared o = unchanged refl
    Step-Grows {p} {q} {w} r (submitted signer halted epoch body req c h) o =
        let (hp, hn, hs, hh) = check_request-ok g signer halted epoch body req c h in
        unchanged (same (add_to_pool-cases g store w req c hn))
      where
        same :
            ((add_to_pool g store w req c).0 ≡ w)
              ⊎ (((add_to_pool g store w req c).0 ≡ add_entry g store w c)
                  × IsAdmissible g store w c)
            → store.get (add_to_pool g store w req c).0.store o ≡ store.get w.store o
        same (inl e) = ap (λ v. store.get v.store o) e
        same (inr e) = ap (λ v. store.get v.store o) e.0
    Step-Grows {p} {q} {w} r started o =
        if-elim (λ (x : Witness S × Bool). Grows w.store x.0.store o) w.running _ _
          (λ h. unchanged refl) (λ h. unchanged refl)
    Step-Grows r rotates o = unchanged refl
    Step-Grows {p} {q} {w} r (sequences sign now i) o =
        sequence_pool-Grows w sign now i o (Reach-IsSound r)
    Step-Grows r retires o = unchanged refl
    Step-Grows r ended o = unchanged refl

    -- No step of a witness in a state it reaches over a store that keeps its contract makes the
    -- stored size of a log smaller.
    pub Step-size :
        {p q : Phase} {w v : Witness S}
        → Reach g store p w
        → Step g store p w q v
        → (o : Bytes)
        → int_lt (latest_size (store.get v.store o)) (latest_size (store.get w.store o)) ≡ false
    unfolding IsExtension
    Step-size {p} {q} {w} {v} r st o = elim (Step-Grows r st o) [
      | unchanged k ↦ rw k (int_lt-irrefl (latest_size (store.get w.store o)))
      | extended e s h k ↦ rw k h.extends.0
    ]
      where
        int_lt-irrefl : (a : ℤ) → int_lt a a ≡ false
        int_lt-irrefl a = ground arith

    -- In a state that a witness reaches with a pool in sequencing, over a store that keeps its
    -- contract, an entry that sequencePool answers with 200 is cosigned and committed: its note
    -- is what signing its text gave with the witness's present key, at the witness's present
    -- epoch, the answer is the signature part of that note, and the store has that note, the
    -- size and the hash of the checkpoint for the origin by then.
    pub Reach-IsCosigned :
        {w : Witness S}
        → Reach g store rotated w
        → (sign : ℕ → Bytes → Option Bytes) (now : ℤ) (i : I) (o : Bytes) (e : PoolEntry)
        → lookup o (sequence_pool store w sign now i).in_sequencing ≡ some e
        → e.result.code ≡ 200
        → IsCosigned store good w sign (sequence_pool store w sign now i) o e
    unfolding IsReady
    Reach-IsCosigned {w} r sign now i o e h c =
        let d = (Reach-IsSound r).ready.0 in
        Sequenced-200 store good w sign (sequence_pool store w sign now i) o e d
          (sequence_pool-Sequenced store good w sign now i d) h c

    -- One run of sequence, in a state that a witness reaches between two runs over a store that
    -- keeps its contract, closes a pool in which every entry that waited in the current pool
    -- has an answer for its candidate, 200, 500 or 503, and leaves an empty current pool.
    pub sequence-IsAnswered :
        {w : Witness S}
        → Reach g store waiting w
        → (sign : ℕ → Bytes → Option Bytes) (now : ℤ) (i : I) (o : Bytes) (a : PoolEntry)
        → lookup o w.current_pool ≡ some a
        → ((sequence store w sign now i).current_pool ≡ [])
          × ((p : Pool) × (e : PoolEntry) × ((sequence store w sign now i).closed ≡ p ∷ w.closed)
              × (lookup o p ≡ some e)
              × (e.candidate ≡ a.candidate)
              × ((e.result.code ≡ 200) ⊎ ((e.result.code ≡ 500) ⊎ (e.result.code ≡ 503))))
    unfolding sequence retire rotate
    sequence-IsAnswered {w} r sign now i o a h =
        let (f1, f2, f3, f4) = sequence_pool-frame store good (rotate store w) sign now i in
        let q =
          sequence_pool-Sequenced store good (rotate store w) sign now i
            (Reach-IsSound r).distinct in
        (
          f1,
          elim (Sequenced-IsAnswered store good (rotate store w) sign
              (sequence_pool store (rotate store w) sign now i) o a q h) [
                | answer e he hc hr ↦ (
                  (sequence_pool store (rotate store w) sign now i).in_sequencing,
                  e,
                  ap (λ l. (sequence_pool store (rotate store w) sign now i).in_sequencing ∷ l) f2,
                  he,
                  hc,
                  hr,
                )
              ],
        )
