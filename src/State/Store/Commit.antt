-- ===== src/State/Store/Commit.antt =====
-- internal/state/store.go: what PutBatch does when it succeeds, and what it leaves when it fails.
use vitrum.Base.{
  ℕ, suc, ◌+◌, ◌≤◌, ◌<◌, ◌≡◌, ◌≢◌, refl, sym, ap, ◌∙◌, Bool, true, false, Option, none, some,
  length, ◌==◌, if◌then◌else◌, arith, zero,
}
use vitrum.Base.Bytes.{Bytes}
use vitrum.Base.Int.{ℤ, pos}
use vitrum.Base.Dict.{Dict}
use vitrum.Base.Result.{Result, ok, err}
use vitrum.Witness.{LogState}
use vitrum.Witness.Logs
use vitrum.State.{Error, halted}
use vitrum.State.Anchor.{AnchorState, IsAnchor, IsWord}
use vitrum.State.Codec.RoundTrip.{SameMap}
use vitrum.State.Blob.{state_key_len, IsCrypto, IsDisk, LoadedBlob, save, load_slot, load}
use vitrum.State.Blob.Seal.{IsNonce}
use vitrum.State.Blob.Save.{save-hash, save-info}
use vitrum.State.Blob.Load.{AtMost, Below, load-save, load_newest}
use vitrum.State.Store.{
  Platform, RollbackStore, max_uint32, next_gen, halt, next_states, after_save, after_anchor,
  put_batch,
}

-- A method's result cannot be both with and without an error.
no_error :
    {S : Type 0} {s s' : S} {e : Error} → ◌≡◌ {A = S × Option Error} (s, some e) (s', none) → ⊥
no_error h = cc

-- The anchor of a commit at generation `g` whose blob has the digest `h`.
abbrev pub anchor_state : ℕ → Bytes → AnchorState
anchor_state g h = record { generation = g; blob_hash = h; bound = true }

module _ {D A : Type 0} (p : Platform D A) where
  -- What the medium and the anchor hold after a commit.
  pub record Stored (s : RollbackStore D A) (states : Dict Bytes) : Type 0 where
    pub blob : LoadedBlob
    pub loads : load p.crypto p.device s.dev s.off s.key ≡ ok blob
    pub newest : blob.gen ≡ s.gen
    pub reads : p.anchor.anchor s.anchor ≡ ok (anchor_state s.gen blob.hash)
    pub holds : SameMap blob.states states

  -- The steps of a commit that succeeded: S1, S2 and the change of memory.
  pub record Steps (s s' : RollbackStore D A) (nonce : Option Bytes) (updates : Dict LogState)
      : Type 0 where
    pub running : s.halted ≡ false
    pub room : s.gen ≢ max_uint32
    pub dev : D
    pub hash : Bytes
    pub anchor : A
    pub saved :
        save p.crypto p.device s.dev s.off s.key nonce (next_gen s.gen) (next_states s updates)
        ≡ (dev, ok hash)
    pub anchored :
        p.anchor.set_anchor s.anchor (anchor_state (next_gen s.gen) hash) ≡ (anchor, none)
    pub result : s' ≡ record s {
      dev = dev;
      anchor = anchor;
      mem = Logs.put_batch s.mem updates;
      gen = next_gen s.gen;
    }

  after_anchor-eq-none :
      (s s' : RollbackStore D A) (d : D) (next : ℕ) (updates : Dict LogState) (r : A × Option Error)
      → after_anchor p s d next updates r ≡ (s', none)
      → (a : A) × (r ≡ (a, none))
        × (s' ≡ record s { dev = d; anchor = a; mem = Logs.put_batch s.mem updates; gen = next })
  unfolding after_anchor
  after_anchor-eq-none s s' d next updates (a, none) q =
      (a, refl, sym (ap (λ (w : RollbackStore D A × Option Error). w.0) q))
  after_anchor-eq-none s s' d next updates (a, some e) q = absurd (no_error q)

  after_save-eq-none :
      (s s' : RollbackStore D A) (next : ℕ) (updates : Dict LogState) (w : D × Result Error Bytes)
      → after_save p s next updates w ≡ (s', none)
      → (d : D) × (h : Bytes) × (a : A) × (w ≡ (d, ok h))
        × (p.anchor.set_anchor s.anchor (anchor_state next h) ≡ (a, none))
        × (s' ≡ record s { dev = d; anchor = a; mem = Logs.put_batch s.mem updates; gen = next })
  unfolding after_save
  after_save-eq-none s s' next updates (d, err e) q = absurd (no_error q)
  after_save-eq-none s s' next updates (d, ok h) q =
      let (a, e, r) =
        after_anchor-eq-none s s' d next updates
          (p.anchor.set_anchor s.anchor (anchor_state next h)) q in
      (d, h, a, refl, e, r)

  pub put_batch-Steps :
      (s s' : RollbackStore D A) (nonce : Option Bytes) (updates : Dict LogState)
      → put_batch p s nonce updates ≡ (s', none)
      → Steps s s' nonce updates
  unfolding put_batch
  put_batch-Steps s s' nonce updates q = go s.halted (s.gen == max_uint32) refl refl q
    where
      go :
          (h f : Bool)
          → s.halted ≡ h
          → (s.gen == max_uint32) ≡ f
          → (if h
              then (s, some halted)
              else if f
              then (halt s, some halted)
              else after_save p s (next_gen s.gen) updates (
                  save p.crypto p.device s.dev s.off s.key nonce
                    (next_gen s.gen)
                    (next_states s updates)))
            ≡ (s', none)
          → Steps s s' nonce updates
      go true f eh ef e = absurd (no_error e)
      go false true eh ef e = absurd (no_error e)
      go false false eh ef e =
          let (d, h, a, e₁, e₂, r) =
            after_save-eq-none s s' (next_gen s.gen) updates
              (save p.crypto p.device s.dev s.off s.key nonce (next_gen s.gen)
                (next_states s updates))
              e in
          record {
            running = eh;
            room = ground arith;
            dev = d;
            hash = h;
            anchor = a;
            saved = e₁;
            anchored = e₂;
            result = r;
          }

module _ {D A : Type 0} (p : Platform D A) (n : ℕ) where
  -- A running store's state between commits: no slot of the medium is newer than its generation,
  -- which is the anchor's.
  pub record Committed (s : RollbackStore D A) : Type 0 where
    pub blocks : ℤ
    pub info : p.device.info s.dev ≡ (pos n, blocks)
    pub key : length s.key ≡ state_key_len
    pub gen : s.gen ≤ max_uint32
    pub first : AtMost s.gen (load_slot p.crypto p.device s.dev s.off 0 s.key)
    pub second : AtMost s.gen (load_slot p.crypto p.device s.dev s.off 1 s.key)
    pub anchored : AnchorState
    pub reads : p.anchor.anchor s.anchor ≡ ok anchored
    pub same_gen : anchored.generation ≡ s.gen

module _ {D A : Type 0} (p : Platform D A) (n : ℕ) (disk : IsDisk p.device n)
    (good : IsCrypto p.crypto) (anc : IsAnchor p.anchor) where
  Below-next :
      (g : ℕ) (r : Result Error LoadedBlob) → AtMost g r → g < max_uint32 → Below (next_gen g) r
  Below-next g (err e) h lt = tt
  Below-next g (ok b) h lt = omega arith

  older :
      (s : RollbackStore D A)
      → Committed p n s
      → s.gen < max_uint32
      → (other : ℕ) → other < 2
      → Below (next_gen s.gen) (load_slot p.crypto p.device s.dev s.off other s.key)
  older s h lt zero l = Below-next s.gen _ h.first lt
  older s h lt (suc zero) l = Below-next s.gen _ h.second lt
  older s h lt (suc (suc o)) l = absurd (omega arith)

  -- The blob that a commit's save left is what load returns.
  pub saved_loads :
      (s : RollbackStore D A) (d' : D) (nonce : Option Bytes) (states : Dict Bytes) (h : Bytes)
      → Committed p n s
      → s.gen ≢ max_uint32
      → IsNonce nonce
      → save p.crypto p.device s.dev s.off s.key nonce (next_gen s.gen) states ≡ (d', ok h)
      → (out : Dict Bytes) × (load p.crypto p.device d' s.off s.key
          ≡ ok (record { states = out; gen = next_gen s.gen; hash = h }))
        × SameMap out states
  saved_loads s d' nonce states h c room hn e =
      load-save p.crypto p.device n disk good s.dev d' c.blocks s.off s.key nonce (next_gen s.gen)
        states h c.info (omega arith) hn (λ other lt ne. older s c (omega (arith, c.gen)) other lt)
        e

  -- The store that the steps S1 and S2 and the change of memory lead to.
  committed :
      (s : RollbackStore D A) (d : D) (a : A) (nonce : Option Bytes) (updates : Dict LogState)
      (h : Bytes)
      → Committed p n s
      → s.gen ≢ max_uint32
      → IsNonce nonce
      → save p.crypto p.device s.dev s.off s.key nonce (next_gen s.gen) (next_states s updates)
        ≡ (d, ok h)
      → p.anchor.set_anchor s.anchor (anchor_state (next_gen s.gen) h) ≡ (a, none)
      → let s' = record s {
        dev = d;
        anchor = a;
        mem = Logs.put_batch s.mem updates;
        gen = next_gen s.gen;
      } in
        Stored p s' (next_states s updates) × Committed p n s'
  committed s d a nonce updates h c room hn e f =
      let (out, loads, same) = saved_loads s d nonce (next_states s updates) h c room hn e in
      let word : IsWord (anchor_state (next_gen s.gen) h) = record {
        generation = omega arith;
        blob_hash =
            save-hash p.crypto p.device n disk good s.dev d s.off s.key nonce (next_gen s.gen)
              (next_states s updates) h e;
      } in
      let reads = anc.read_back s.anchor a (anchor_state (next_gen s.gen) h) word f in
      let blob : LoadedBlob = record { states = out; gen = next_gen s.gen; hash = h } in
      let (where_found, first, second) =
        load_newest p.crypto p.device d s.off s.key blob c.key loads in
      (
        record { blob = blob; loads = loads; newest = refl; reads = reads; holds = same },
        record {
          blocks = c.blocks;
          info =
              save-info p.crypto p.device n disk good s.dev d s.off s.key nonce (next_gen s.gen)
                (next_states s updates) h e
              ∙ c.info;
          key = c.key;
          gen = omega arith;
          first = first;
          second = second;
          anchored = anchor_state (next_gen s.gen) h;
          reads = reads;
          same_gen = refl;
        },
      )

  -- After a PutBatch without an error from a store between commits, the generation is one
  -- higher, memory has the updates, the store runs, the newest blob of the medium has the notes
  -- of the new states, the anchor names that blob by its generation and digest, and the store
  -- is again between commits. The disk, the AEAD and the anchor are as they document, and the
  -- random nonce has its length.
  pub put_batch-Stored :
      (s s' : RollbackStore D A) (nonce : Option Bytes) (updates : Dict LogState)
      → Committed p n s
      → IsNonce nonce
      → put_batch p s nonce updates ≡ (s', none)
      → (s'.gen ≡ s.gen + 1)
        × (s'.mem ≡ Logs.put_batch s.mem updates)
        × (s'.halted ≡ false)
        × Stored p s' (next_states s updates)
        × Committed p n s'
  put_batch-Stored s s' nonce updates c hn q =
      let t = put_batch-Steps p s s' nonce updates q in
      let (stored, ready) =
        committed s t.dev t.anchor nonce updates t.hash c t.room hn t.saved t.anchored in
      rw t.result (omega (arith, c.gen, t.room), refl, t.running, stored, ready)
