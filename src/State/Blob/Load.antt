-- ===== src/State/Blob/Load.antt =====
-- internal/state/blob.go: load picks the newest valid slot.
use vitrum.Base.{
  ℕ, ◌%◌, ◌≤◌, ◌<◌, ◌≡◌, ◌≢◌, refl, sym, ap, ◌∙◌, ◌⊎◌, Option, none, some, length, arith, zero, suc,
}
use vitrum.Base.Bytes.{Bytes}
use vitrum.Base.Int.{ℤ, pos}
use vitrum.Base.Word.{IsU32}
use vitrum.Base.Dict.{Dict}
use vitrum.Base.Result.{Result, ok, err}
use vitrum.State.{Error, no_state}
use vitrum.State.Codec.RoundTrip.{SameMap}
use vitrum.State.Blob.{
  state_key_len, Crypto, IsCrypto, BlockDevice, IsDisk, LoadedBlob, save, load_slot, load, newer,
}
use vitrum.State.Blob.Seal.{IsNonce}
use vitrum.State.Blob.Save.{load_slot-save, load_slot-save_other, save-key}

-- The loop of load over the results of the two slots.
pick : Result Error LoadedBlob → Result Error LoadedBlob → Result Error LoadedBlob
pick a b = elim (newer (newer none a) b) [ none ↦ err no_state | some newest ↦ ok newest ]

load-eq-pick :
    {D : Type 0} (c : Crypto) (dev : BlockDevice D) (d : D) (offset : ℕ) (key : Bytes)
    → length key ≡ state_key_len
    → load c dev d offset key
      ≡ pick (load_slot c dev d offset 0 key) (load_slot c dev d offset 1 key)
unfolding load pick
load-eq-pick c dev d offset key h = rw h

-- A result that carries no generation above `g`.
abbrev pub AtMost : ℕ → Result Error LoadedBlob → Type 0
AtMost g (err e) = Unit
AtMost g (ok b) = b.gen ≤ g

abbrev pub Below : ℕ → Result Error LoadedBlob → Type 0
Below g (err e) = Unit
Below g (ok b) = b.gen < g

AtMost-Below : (g : ℕ) (r : Result Error LoadedBlob) → Below g r → AtMost g r
AtMost-Below g (err e) h = tt
AtMost-Below g (ok b) h = omega arith

pick_newest :
    (a b : Result Error LoadedBlob) (x : LoadedBlob)
    → pick a b ≡ ok x
    → ((a ≡ ok x) ⊎ (b ≡ ok x)) × AtMost x.gen a × AtMost x.gen b
unfolding pick newer
pick_newest (err e) (err f) x h = cc
pick_newest (err e) (ok b) x h = ground arith
pick_newest (ok a) (err f) x h = ground arith
pick_newest (ok a) (ok b) x h = ground arith

pick-first : (x : LoadedBlob) (b : Result Error LoadedBlob) → AtMost x.gen b → pick (ok x) b ≡ ok x
unfolding pick newer
pick-first x (err e) h = refl
pick-first x (ok b) h = ground arith

pick-second : (a : Result Error LoadedBlob) (x : LoadedBlob) → Below x.gen a → pick a (ok x) ≡ ok x
unfolding pick newer
pick-second (err e) x h = refl
pick-second (ok a) x h = ground arith

pick-no_state :
    (a b : Result Error LoadedBlob)
    → pick a b ≡ err no_state
    → (x : LoadedBlob) → (a ≢ ok x) × (b ≢ ok x)
unfolding pick newer
pick-no_state (err e) (err f) h x = (λ p. cc, λ p. cc)
pick-no_state (err e) (ok b) h x = cc
pick-no_state (ok a) (err f) h x = cc
pick-no_state (ok a) (ok b) h x = ground arith

module _ {D : Type 0} (c : Crypto) (dev : BlockDevice D) where
  -- What load returns, for a key of 32 bytes, is in one of the two slots, and neither slot has
  -- a valid blob of a higher generation.
  pub load_newest :
      (d : D) (offset : ℕ) (key : Bytes) (x : LoadedBlob)
      → length key ≡ state_key_len
      → load c dev d offset key ≡ ok x
      → ((load_slot c dev d offset 0 key ≡ ok x) ⊎ (load_slot c dev d offset 1 key ≡ ok x))
        × AtMost x.gen (load_slot c dev d offset 0 key)
        × AtMost x.gen (load_slot c dev d offset 1 key)
  load_newest d offset key x hk h =
      pick_newest (load_slot c dev d offset 0 key) (load_slot c dev d offset 1 key) x
        (sym (load-eq-pick c dev d offset key hk) ∙ h)

  -- The slot of the generation, by parity.
  load-written :
      (s : ℕ) (d : D) (offset : ℕ) (key : Bytes) (x : LoadedBlob)
      → length key ≡ state_key_len
      → s < 2
      → load_slot c dev d offset s key ≡ ok x
      → ((other : ℕ) → other < 2 → s ≢ other → Below x.gen (load_slot c dev d offset other key))
      → load c dev d offset key ≡ ok x
  load-written zero d offset key x hk hs h older =
      load-eq-pick c dev d offset key hk
      ∙ rw h (
          pick-first x (load_slot c dev d offset 1 key)
            (AtMost-Below x.gen _ (older 1 (omega arith) (omega arith))))
  load-written (suc zero) d offset key x hk hs h older =
      load-eq-pick c dev d offset key hk
      ∙ rw h (pick-second (load_slot c dev d offset 0 key) x (older 0 (omega arith) (omega arith)))
  load-written (suc (suc s)) d offset key x hk hs h older = absurd (omega arith)

  -- No slot is valid when load says so.
  pub load-no_state :
      (d : D) (offset : ℕ) (key : Bytes)
      → length key ≡ state_key_len
      → load c dev d offset key ≡ err no_state
      → (x : LoadedBlob)
      → (load_slot c dev d offset 0 key ≢ ok x) × (load_slot c dev d offset 1 key ≢ ok x)
  load-no_state d offset key hk h =
      pick-no_state (load_slot c dev d offset 0 key) (load_slot c dev d offset 1 key)
        (sym (load-eq-pick c dev d offset key hk) ∙ h)

module _ {D : Type 0} (c : Crypto) (dev : BlockDevice D) (n : ℕ) (disk : IsDisk dev n)
    (good : IsCrypto c) where
  -- After a save without an error over a slot pair whose other slot has no newer or equal
  -- generation, load gives the generation, the digest and the states of that save, for a uint32
  -- generation, a nonce of its length, and a disk and an AEAD as they document.
  pub load-save :
      (d d' : D) (blocks : ℤ) (offset : ℕ) (key : Bytes) (nonce : Option Bytes) (gen : ℕ)
      (states : Dict Bytes) (h : Bytes)
      → dev.info d ≡ (pos n, blocks)
      → IsU32 gen
      → IsNonce nonce
      → ((other : ℕ) → other < 2 → gen % 2 ≢ other → Below gen (load_slot c dev d offset other key))
      → save c dev d offset key nonce gen states ≡ (d', ok h)
      → (out : Dict Bytes) × (load c dev d' offset key
          ≡ ok (record { states = out; gen = gen; hash = h }))
        × SameMap out states
  load-save d d' blocks offset key nonce gen states h hi g hn older e =
      let (out, there, same) =
        load_slot-save c dev n disk good d d' offset key nonce gen states h g hn e in
      (
        out,
        load-written c dev (gen % 2) d' offset key (record { states = out; gen = gen; hash = h })
            (save-key c dev d d' offset key nonce gen states h e) (omega arith) there
            (λ other lt ne.
              rw
                (sym (ap (λ (w : D × Result Error Bytes). load_slot c dev w.0 offset other key) e)
                  ∙ load_slot-save_other c dev n disk good d blocks offset key nonce gen states
                      other hi hn ne)
                (older other lt ne)),
        same,
      )
