-- ===== src/State/Blob/Save.antt =====
-- internal/state/blob.go: what save does to the two slots, as loadSlot sees it.
use vitrum.Base.{
  ℕ, zero, suc, ◌+◌, ◌*◌, ◌/◌, ◌%◌, ◌≤◌, ◌<◌, ◌≡◌, ◌≢◌, refl, ap, sym, ◌∙◌, ◌⊎◌, inl, inr, Bool,
  true, Option, none, some, length, arith,
}
use vitrum.Base.Bytes.{Bytes}
use vitrum.Base.Int.{ℤ, pos}
use vitrum.Base.Word.{IsU32}
use vitrum.Base.Dict.{Dict}
use vitrum.Base.Result.{Result, ok, err, ◌>>=◌}
use vitrum.State.{Error}
use vitrum.State.Codec.RoundTrip.{SameMap, decode-encode}
use native.Mathlib.Nat.{div-add-mod', mul-div_cancel}
use vitrum.State.Blob.Seal.{
  IsNonce, seal_some, seal_none, length-slot_bytes, seal_some-fits, seal_blob-fits,
}
use vitrum.State.Blob.Slot.{parse_slot-slot_bytes}
use vitrum.State.Blob.{
  slot_size, state_key_len, Crypto, IsCrypto, BlockDevice, IsDisk, gen_aad, slot_lba_at, slot_bytes,
  slot_lba, seal_blob, save_at, save, parse_slot, load_slot, read_slot, or_read_failed,
}

-- What a save that returned a digest has done.
pub save-eq-ok :
    {D : Type 0} (c : Crypto) (dev : BlockDevice D) (d d' : D) (offset : ℕ) (key : Bytes)
    (nonce : Option Bytes) (gen : ℕ) (states : Dict Bytes) (h : Bytes)
    → save c dev d offset key nonce gen states ≡ (d', ok h)
    → (blob : Bytes) × (lba : ℕ) × (seal_blob c key nonce gen states ≡ ok blob)
      × (slot_lba dev d offset (gen % 2) ≡ ok lba)
      × (dev.write_blocks d lba (slot_bytes blob) ≡ (d', true))
      × (c.sha256 blob ≡ h)
unfolding save save_at
save-eq-ok c dev d d' offset key nonce gen states h e =
    go (seal_blob c key nonce gen states) (slot_lba dev d offset (gen % 2)) e
  where
    go :
        (b : Result Error Bytes) (l : Result Error ℕ)
        → save_at c dev d b l ≡ (d', ok h)
        → (blob : Bytes) × (lba : ℕ) × (b ≡ ok blob)
          × (l ≡ ok lba)
          × (dev.write_blocks d lba (slot_bytes blob) ≡ (d', true))
          × (c.sha256 blob ≡ h)
    go (err x) l p = cc
    go (ok blob) (err x) p = cc
    go (ok blob) (ok lba) p = (blob, lba, refl, refl, ground arith, ground arith)

-- A save that succeeded had a key of the right length.
pub save-key :
    {D : Type 0} (c : Crypto) (dev : BlockDevice D) (d d' : D) (offset : ℕ) (key : Bytes)
    (nonce : Option Bytes) (gen : ℕ) (states : Dict Bytes) (h : Bytes)
    → save c dev d offset key nonce gen states ≡ (d', ok h)
    → length key ≡ state_key_len
save-key c dev d d' offset key none gen states h e =
    let (blob, lba, hb, hl, hw, hh) = save-eq-ok c dev d d' offset key none gen states h e in
    absurd (seal_none c key gen states blob hb)
save-key c dev d d' offset key (some n) gen states h e =
    let (blob, lba, hb, hl, hw, hh) = save-eq-ok c dev d d' offset key (some n) gen states h e in
    let (text, hk, ht, hi, eb) = seal_some c key gen states blob n hb in hk

-- An address that the block size divides is given back by its block number.
aligned : (n m k s : ℕ) → 0 < n → m % n ≡ 0 → k % n ≡ 0 → (k + s * m) / n * n ≡ k + s * m
aligned n m k s h hm hk =
    let q = k / n + s * (m / n) in
    let e : k + s * m ≡ q * n = omega (
      arith,
      div-add-mod' k n,
      ap (λ (t : ℕ). s * t) (div-add-mod' m n),
      hm,
      hk,
      ap (λ (t : ℕ). s * t) hm,
    ) in
    rw e (ap (λ (t : ℕ). t * n) (mul-div_cancel q h))

slot_lba_bounds :
    (n : ℕ) (blocks : ℤ) (offset slot lba : ℕ)
    → slot_lba_at (pos n, blocks) offset slot ≡ ok lba
    → lba * n ≡ offset + slot * slot_size
unfolding slot_lba_at
slot_lba_bounds zero blocks offset slot lba h = cc
slot_lba_bounds (suc n) blocks offset slot lba h =
    ground (arith, aligned (suc n) slot_size offset slot (omega arith))

ℕ_ne-cases : (a b : ℕ) → a ≢ b → (a < b) ⊎ (b < a)
ℕ_ne-cases a b h = grind arith

module _ {D : Type 0} (c : Crypto) (dev : BlockDevice D) (n : ℕ) (disk : IsDisk dev n)
    (good : IsCrypto c) where
  slot_lba-write :
      (d : D) (lba : ℕ) (buf : Bytes) (offset slot : ℕ)
      → slot_lba dev (dev.write_blocks d lba buf).0 offset slot ≡ slot_lba dev d offset slot
  unfolding slot_lba
  slot_lba-write d lba buf offset slot =
      ap (λ (i : ℤ × ℤ). slot_lba_at i offset slot) (disk.info-write d lba buf)

  -- A slot that was written is read as the bytes that were written.
  load_slot-write :
      (d d' : D) (lba offset slot : ℕ) (key buf : Bytes)
      → slot_lba dev d offset slot ≡ ok lba
      → dev.write_blocks d lba buf ≡ (d', true)
      → length buf ≡ slot_size
      → load_slot c dev d' offset slot key ≡ parse_slot c key buf
  unfolding load_slot read_slot
  load_slot-write d d' lba offset slot key buf hl hw hb =
      let there : slot_lba dev d' offset slot ≡ ok lba =
        ap (λ (w : D × Bool). slot_lba dev w.0 offset slot) (sym hw)
        ∙ slot_lba-write d lba buf offset slot
        ∙ hl in
      rw (there, rw hb at (disk.read-write_same d d' lba buf hw), read_slot)

  -- After a save without an error, loadSlot on the slot of that generation gives the
  -- generation, the digest that save returned, and the states that were saved, for a generation
  -- that is a uint32, a nonce of its length, and a disk and an AEAD as they document.
  pub load_slot-save :
      (d d' : D) (offset : ℕ) (key : Bytes) (nonce : Option Bytes) (gen : ℕ) (states : Dict Bytes)
      (h : Bytes)
      → IsU32 gen
      → IsNonce nonce
      → save c dev d offset key nonce gen states ≡ (d', ok h)
      → (out : Dict Bytes) × (load_slot c dev d' offset (gen % 2) key
          ≡ ok (record { states = out; gen = gen; hash = h }))
        × SameMap out states
  load_slot-save d d' offset key none gen states h g hn e =
      let (blob, lba, hb, hl, hw, hh) = save-eq-ok c dev d d' offset key none gen states h e in
      absurd (seal_none c key gen states blob hb)
  load_slot-save d d' offset key (some nonce) gen states h g hn e =
      let (blob, lba, hb, hl, hw, hh) =
        save-eq-ok c dev d d' offset key (some nonce) gen states h e in
      let (text, hk, ht, hi, eb) = seal_some c key gen states blob nonce hb in
      let (out, ho, same) = decode-encode states text ht in
      let ct = c.seal key nonce text (gen_aad gen) in
      (
        out,
        load_slot-write d d' lba offset (gen % 2) key (slot_bytes blob) hl hw
              (length-slot_bytes blob (seal_some-fits c good key nonce gen states blob hn hb))
            ∙ rw (← hh, eb)
                (parse_slot-slot_bytes gen nonce ct g hn hi c key text out
                  (omega (arith, good.length-seal key nonce text (gen_aad gen))) hk
                  (good.open-seal key nonce text (gen_aad gen)) ho),
        same,
      )

  -- A write to one slot does not reach the other.
  load_slot-write_other :
      (d : D) (blocks : ℤ) (lba offset slot other : ℕ) (key buf : Bytes)
      → dev.info d ≡ (pos n, blocks)
      → slot_lba dev d offset slot ≡ ok lba
      → length buf ≡ slot_size
      → slot ≢ other
      → load_slot c dev (dev.write_blocks d lba buf).0 offset other key
        ≡ load_slot c dev d offset other key
  unfolding load_slot read_slot
  load_slot-write_other d blocks lba offset slot other key buf hi hl hb ne =
      rw slot_lba-write (go (slot_lba dev d offset other) refl)
    where
      d' : D
      d' = (dev.write_blocks d lba buf).0

      located_at :
          (s a : ℕ) → slot_lba dev d offset s ≡ ok a → slot_lba_at (pos n, blocks) offset s ≡ ok a
      located_at s a h = rw (← hi) (unfold slot_lba in h)

      apart :
          (a : ℕ)
          → lba * n ≡ offset + slot * slot_size
          → a * n ≡ offset + other * slot_size
          → (slot < other) ⊎ (other < slot)
          → (lba * n + length buf ≤ a * n) ⊎ (a * n + slot_size ≤ lba * n)
      apart a p q (inl lt) = inl (omega (arith, hb))
      apart a p q (inr lt) = inr (omega (arith, hb))

      first : lba * n ≡ offset + slot * slot_size
      first = slot_lba_bounds n blocks offset slot lba (located_at slot lba hl)

      go :
          (l : Result Error ℕ)
          → slot_lba dev d offset other ≡ l
          → (l >>= λ a. read_slot dev d' a >>= parse_slot c key)
            ≡ (l >>= λ a. read_slot dev d a >>= parse_slot c key)
      go (err e) he = refl
      go (ok a) he =
          let second : a * n ≡ offset + other * slot_size =
            slot_lba_bounds n blocks offset other a (located_at other a he) in
          ap (λ (o : Option Bytes). or_read_failed o >>= parse_slot c key)
            (disk.read-write_apart d lba a slot_size buf
              (apart a first second (ℕ_ne-cases slot other ne)))

  -- A save, whether it succeeds or not, leaves what loadSlot gives for a slot other than that
  -- of its generation, for a disk and an AEAD as they document, known blocks, and a nonce of
  -- its length.
  pub load_slot-save_other :
      (d : D) (blocks : ℤ) (offset : ℕ) (key : Bytes) (nonce : Option Bytes) (gen : ℕ)
      (states : Dict Bytes) (other : ℕ)
      → dev.info d ≡ (pos n, blocks)
      → IsNonce nonce
      → gen % 2 ≢ other
      → load_slot c dev (save c dev d offset key nonce gen states).0 offset other key
        ≡ load_slot c dev d offset other key
  unfolding save save_at
  load_slot-save_other d blocks offset key nonce gen states other hi hn ne =
      go (seal_blob c key nonce gen states) (slot_lba dev d offset (gen % 2)) refl refl
    where
      go :
          (b : Result Error Bytes) (l : Result Error ℕ)
          → seal_blob c key nonce gen states ≡ b
          → slot_lba dev d offset (gen % 2) ≡ l
          → load_slot c dev (save_at c dev d b l).0 offset other key
            ≡ load_slot c dev d offset other key
      go (err e) l hb hl = refl
      go (ok blob) (err e) hb hl = refl
      go (ok blob) (ok lba) hb hl =
          load_slot-write_other d blocks lba offset (gen % 2) other key (slot_bytes blob) hi hl
            (length-slot_bytes blob (seal_blob-fits c good key nonce gen states blob hn hb)) ne

  -- A digest that save returns has 32 bytes.
  pub save-hash :
      (d d' : D) (offset : ℕ) (key : Bytes) (nonce : Option Bytes) (gen : ℕ) (states : Dict Bytes)
      (h : Bytes)
      → save c dev d offset key nonce gen states ≡ (d', ok h)
      → length h ≡ 32
  save-hash d d' offset key nonce gen states h e =
      let (blob, lba, hb, hl, hw, hh) = save-eq-ok c dev d d' offset key nonce gen states h e in
      rw (← hh) (good.length-sha256 blob)

  -- A save leaves the geometry of the device.
  pub save-info :
      (d d' : D) (offset : ℕ) (key : Bytes) (nonce : Option Bytes) (gen : ℕ) (states : Dict Bytes)
      (h : Bytes)
      → save c dev d offset key nonce gen states ≡ (d', ok h)
      → dev.info d' ≡ dev.info d
  save-info d d' offset key nonce gen states h e =
      let (blob, lba, hb, hl, hw, hh) = save-eq-ok c dev d d' offset key nonce gen states h e in
      ap (λ (w : D × Bool). dev.info w.0) (sym hw) ∙ disk.info-write d lba (slot_bytes blob)
