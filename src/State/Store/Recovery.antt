-- ===== src/State/Store/Recovery.antt =====
-- internal/state/store.go: Open after a reboot, at the points of the crash matrix of ROLLBACK.md.
use vitrum.Base.{
  ℕ, ◌+◌, ◌≡◌, refl, sym, ap, ◌∙◌, ◌⊎◌, inl, inr, Bool, true, false, Option, none, some, [], ◌==◌,
  if◌then◌else◌, arith, ==-refl, ◌<◌, All, All-map, Bool-cases,
}
use mathlib.Core.Option
use vitrum.Base.Bytes.{Bytes, bytes_eq_refl}
use vitrum.Base.Dict.{Dict, lookup, has, keys}
use vitrum.Base.Dict.Distinct.{Distinct, or_else, or_else-none, lookup-insert_all, lookup-not-has}
use vitrum.Base.Result.{ok}
use vitrum.Witness.{LogState}
use vitrum.Witness.Logs
use vitrum.State.Codec.RoundTrip.{SameMap}
use vitrum.State.Anchor.{AnchorState, IsAnchor}
use vitrum.State.Blob.{IsCrypto, IsDisk, LoadedBlob, save, load}
use vitrum.State.Blob.Seal.{IsNonce}
use vitrum.State.Store.{
  Platform, RollbackStore, max_uint32, next_gen, anchor_for, new_store, admit_into, admit_notes,
  put_each, adopt, reanchor, reanchored, boot, open_store, next_states, put_batch,
}
use vitrum.State.Store.Admit.{
  IsRestorable, Restores, Notes, admit_notes-Restores, put_each-insert_all, next_states-Notes,
}
use vitrum.State.Store.Commit.{anchor_state, Committed, Stored, put_batch-Stored, saved_loads}

map-some :
    (o : Option LogState) (n : Bytes)
    → some n ≡ Option.map (λ st. st.note) o
    → (st : LogState) × (o ≡ some st) × (st.note ≡ n)
map-some none n h = cc
map-some (some st) n h = (st, refl, ground arith)

map-none : (o : Option LogState) → none ≡ Option.map {B = Bytes} (λ st. st.note) o → o ≡ none
map-none none h = refl
map-none (some st) h = cc

module _ {D A : Type 0} (p : Platform D A) where
  -- A store that serves the states `m` at generation `g`.
  pub record Serves (s : RollbackStore D A) (g : ℕ) (m : Dict LogState) : Type 0 where
    pub running : s.halted ≡ false
    pub gen : s.gen ≡ g
    pub states : (k : Bytes) → lookup k s.mem ≡ lookup k m

  module _ (states : Dict Bytes) (m : Dict LogState) (notes : Notes states m)
      (good : IsRestorable p.parse_checkpoint m) (out : Dict Bytes)
      (same : SameMap out states) where
    entries : All (Restores p.parse_checkpoint m) out
    entries =
        All-map (λ e. lookup e.0 states ≡ some e.1) (Restores p.parse_checkpoint m) out
          (λ e h.
            let (st, there, n) = map-some (lookup e.0 m) e.1 (sym h ∙ notes e.0) in
            (st, there, rw (← n) (good.at e.0 st there)))
          same.1

    -- What admit restores from the blob.
    restored :
        (r : Dict LogState) × (admit_notes p.parse_checkpoint out [] ≡ ok r)
        × ((k : Bytes) → lookup k (put_each r []) ≡ lookup k m)
    restored =
        let (r, done, d, at) = admit_notes-Restores p.parse_checkpoint m out [] entries tt in
        (
          r,
          done,
          λ k. rw (put_each-insert_all r []) (
              lookup-insert_all k r [] d
              ∙ ap (λ o. or_else o (lookup k [])) (at k)
              ∙ at_key k (Bool-cases (has k (keys out)))),
        )
      where
        at_key :
            (k : Bytes)
            → (has k (keys out) ≡ true) ⊎ (has k (keys out) ≡ false)
            → or_else (if has k (keys out) then lookup k m else lookup k []) (lookup k [])
              ≡ lookup k m
        at_key k (inl e) = rw e (unfold lookup in or_else-none (lookup k m))
        at_key k (inr e) =
            let gone : lookup k m ≡ none =
              map-none (lookup k m) (sym (lookup-not-has k out e) ∙ same.0 k ∙ notes k) in
            rw (e, gone) (unfold lookup in refl)

    -- Adopting the blob makes a new store serve the states.
    adopt-Serves :
        (d : D) (off : ℕ) (key : Bytes) (a : A) (g : ℕ) (h : Bytes)
        → let blob : LoadedBlob = record { states = out; gen = g; hash = h } in
          (s : RollbackStore D A) × (adopt p (new_store d off key a) blob ≡ (s, true))
          × Serves s g m
          × (s.anchor ≡ a)
    unfolding adopt admit_into new_store
    adopt-Serves d off key a g h =
        let (r, done, at) = restored in
        (
          record {
            mem = put_each r [];
            dev = d;
            off = off;
            key = key;
            anchor = a;
            gen = g;
            halted = false;
          },
          rw done,
          record { running = refl; gen = refl; states = at },
          refl,
        )

  -- The switch of Open, on a blob that the anchor names.
  boot_match :
      (s t : RollbackStore D A) (blob : LoadedBlob)
      → adopt p s blob ≡ (t, true)
      → boot p s (anchor_state blob.gen blob.hash) (ok blob) ≡ t
  unfolding boot
  boot_match s t blob e =
      rw (==-refl blob.gen, bytes_eq_refl blob.hash) (ap (λ (w : RollbackStore D A × Bool). w.0) e)

  -- The switch of Open, on a blob one generation ahead of the anchor.
  boot_ahead :
      (s t : RollbackStore D A) (anchored : AnchorState) (a' : A) (blob : LoadedBlob)
      → adopt p s blob ≡ (t, true)
      → anchored.generation < max_uint32
      → blob.gen ≡ next_gen anchored.generation
      → p.anchor.set_anchor t.anchor (anchor_for blob) ≡ (a', none)
      → boot p s anchored (ok blob) ≡ record t { anchor = a' }
  unfolding boot
  boot_ahead s t anchored a' blob e lt g f =
      let other : (blob.gen == anchored.generation) ≡ false = ground arith in
      let room : (anchored.generation == max_uint32) ≡ false = ground arith in
      let ahead : (blob.gen == next_gen anchored.generation) ≡ true = ground arith in
      rw (other, room, ahead) (ap (λ (w : RollbackStore D A × Bool). reanchor p w blob) e ∙ anchors)
    where
      anchors : reanchor p (t, true) blob ≡ record t { anchor = a' }
      anchors = unfold reanchor in ap (reanchored p t) f

module _ {D A : Type 0} (p : Platform D A) where
  -- A reboot after a commit: Open gives a store that serves what was committed.
  pub open_store-Stored :
      (s : RollbackStore D A) (states : Dict Bytes)
      → Stored p s states
      → Notes states s.mem
      → IsRestorable p.parse_checkpoint s.mem
      → (s' : RollbackStore D A) × (open_store p s.dev s.off s.key s.anchor ≡ ok s')
        × Serves p s' s.gen s.mem
  unfolding open_store
  open_store-Stored s states t notes good =
      let (s', adopts, serves, same_anchor) =
        adopt-Serves p states s.mem notes good t.blob.states t.holds s.dev s.off s.key s.anchor
          s.gen t.blob.hash in
      let blob : LoadedBlob = record { states = t.blob.states; gen = s.gen; hash = t.blob.hash } in
      let whole : load p.crypto p.device s.dev s.off s.key ≡ ok blob =
        t.loads ∙ ap (λ (g : ℕ). ok (record t.blob { gen = g })) t.newest in
      (
        s',
        rw (t.reads, whole)
            (ap ok (boot_match p (new_store s.dev s.off s.key s.anchor) s' blob adopts)),
        serves,
      )

module _ {D A : Type 0} (p : Platform D A) (n : ℕ) (disk : IsDisk p.device n)
    (crypto : IsCrypto p.crypto) (anc : IsAnchor p.anchor) where
  -- After a PutBatch without an error, from a store between commits with distinct keys, Open on
  -- the medium and the anchor that it left gives a store that is not halted and serves exactly
  -- the states of the memory after the commit, under the next generation. The disk, the AEAD
  -- and the anchor are as they document, the random nonce has its length, and every state's
  -- note restores to it.
  pub open_store-put_batch :
      (s s' : RollbackStore D A) (nonce : Option Bytes) (updates : Dict LogState)
      → Committed p n s
      → IsNonce nonce
      → Distinct s.mem
      → IsRestorable p.parse_checkpoint (Logs.put_batch s.mem updates)
      → put_batch p s nonce updates ≡ (s', none)
      → (s'' : RollbackStore D A) × (open_store p s'.dev s'.off s'.key s'.anchor ≡ ok s'')
        × Serves p s'' (s.gen + 1) (Logs.put_batch s.mem updates)
  open_store-put_batch s s' nonce updates c hn d good q =
      let (g, mem, running, stored, ready) =
        put_batch-Stored p n disk crypto anc s s' nonce updates c hn q in
      let (s'', opens, serves) =
        open_store-Stored p s' (next_states s updates) stored
          (rw mem (next_states-Notes s updates d)) (rw mem good) in
      (s'', opens, rw (← g, ← mem) serves)

  -- When the blob of a commit is written and the power fails before the anchor moves, Open
  -- adopts the written blob, moves the anchor to it and serves the states of the commit: for a
  -- store between commits below the last generation, distinct keys, notes that restore to their
  -- states, a nonce of its length, and an anchor that takes the new state.
  pub open_store-crash :
      (s : RollbackStore D A) (d : D) (a : A) (h : Bytes) (nonce : Option Bytes)
      (updates : Dict LogState)
      → Committed p n s
      → s.gen < max_uint32
      → IsNonce nonce
      → Distinct s.mem
      → IsRestorable p.parse_checkpoint (Logs.put_batch s.mem updates)
      → save p.crypto p.device s.dev s.off s.key nonce (next_gen s.gen) (next_states s updates)
        ≡ (d, ok h)
      → p.anchor.set_anchor s.anchor (anchor_state (next_gen s.gen) h) ≡ (a, none)
      → (s' : RollbackStore D A) × (open_store p d s.off s.key s.anchor ≡ ok s')
        × Serves p s' (next_gen s.gen) (Logs.put_batch s.mem updates)
        × (s'.anchor ≡ a)
  unfolding open_store
  open_store-crash s d a h nonce updates c lt hn dist good e f =
      let (out, loads, same) =
        saved_loads p n disk crypto anc s d nonce (next_states s updates) h c (omega arith) hn e in
      let (t, adopts, serves, there) =
        adopt-Serves p (next_states s updates) (Logs.put_batch s.mem updates)
          (next_states-Notes s updates dist) good out same d s.off s.key s.anchor (next_gen s.gen)
          h in
      let blob : LoadedBlob = record { states = out; gen = next_gen s.gen; hash = h } in
      (
        record t { anchor = a },
        rw (c.reads, loads)
            (ap ok (
              boot_ahead p (new_store d s.off s.key s.anchor) t c.anchored a blob adopts
                (omega (arith, c.same_gen)) (ap next_gen (sym c.same_gen)) (rw there f))),
        record { running = serves.running; gen = serves.gen; states = serves.states },
        refl,
      )
