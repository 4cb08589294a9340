-- ===== src/State/Blob.antt =====
-- internal/state/blob.go: save and load, the two slots on the block device. AES-256-GCM, SHA-256
-- and the device are parameters; an `offset` is below 2 ^ 62, so that its sums do not wrap.
pub mod Slot
pub mod Save
pub mod Seal
pub mod Load
use vitrum.Base.{
  ℕ, zero, suc, ◌+◌, ◌-◌, ◌*◌, ◌/◌, ◌%◌, ◌≤◌, ◌<◌, ◌≡◌, ◌⊎◌, List, [], ◌∷◌, ◌++◌, Bool, true, false,
  not, ◌||◌, ◌&&◌, Option, none, some, length, take, drop, replicate, ltb, ◌==◌, if◌then◌else◌,
}
use vitrum.Base.Bytes.{Bytes, codes, bytes_eq}
use vitrum.Base.Int.{ℤ, pos, negsuc}
use vitrum.Base.Word.{le_put_uint32, le_uint32}
use vitrum.Base.Dict.{Dict}
use vitrum.Base.Result.{Result, ok, err, ◌>>=◌}
use vitrum.State.{
  Error, bad_key_length, bad_nonce, blob_too_large, unsupported_block_size, device_too_small,
  write_failed, read_failed, no_state, bad_magic, bad_length, auth_failed,
}
use vitrum.State.Codec.{encode, decode}

abbrev pub slot_size : ℕ
slot_size = 64 * 1024

abbrev pub state_key_len : ℕ
state_key_len = 32

abbrev pub nonce_len : ℕ
nonce_len = 16

abbrev pub tag_len : ℕ
tag_len = 16

abbrev pub header_len : ℕ
header_len = 8 + 4 + 4 + nonce_len

abbrev pub magic : Bytes
magic = codes "VITRUMW2"

-- cipher.AEAD over AES-256-GCM with its key, nonce, text and additional data, and sha256.Sum256.
pub record Crypto : Type 0 where
  pub seal : Bytes → Bytes → Bytes → Bytes → Bytes
  pub open_sealed : Bytes → Bytes → Bytes → Bytes → Option Bytes
  pub sha256 : Bytes → Bytes

-- What the code relies on: Open undoes Seal, a sealed text is one tag longer, a digest has 32 bytes.
pub record IsCrypto (c : Crypto) : Type 0 where
  pub open-seal :
      (key nonce text aad : Bytes)
      → c.open_sealed key nonce (c.seal key nonce text aad) aad ≡ some text
  pub length-seal :
      (key nonce text aad : Bytes) → length (c.seal key nonce text aad) ≡ length text + tag_len
  pub length-sha256 : (b : Bytes) → length (c.sha256 b) ≡ 32

-- The interface BlockDevice, over the state `D` of the device. ReadBlocks takes the number of bytes
-- of its buffer. A failed WriteBlocks may have changed the blocks that it was to write.
pub record BlockDevice (D : Type 0) : Type 0 where
  pub info : D → ℤ × ℤ
  pub read_blocks : D → ℕ → ℕ → Option Bytes
  pub write_blocks : D → ℕ → Bytes → D × Bool

-- A device with blocks of `bs` bytes: a write that succeeds is read back, and no write reaches
-- beyond its blocks.
pub record IsDisk {D : Type 0} (dev : BlockDevice D) (bs : ℕ) : Type 0 where
  pub info-write :
      (d : D) (lba : ℕ) (buf : Bytes) → dev.info (dev.write_blocks d lba buf).0 ≡ dev.info d
  pub read-write_same :
      (d d' : D) (lba : ℕ) (buf : Bytes)
      → dev.write_blocks d lba buf ≡ (d', true)
      → dev.read_blocks d' lba (length buf) ≡ some buf
  pub read-write_apart :
      (d : D) (lba other n : ℕ) (buf : Bytes)
      → (lba * bs + length buf ≤ other * bs) ⊎ (other * bs + n ≤ lba * bs)
      → dev.read_blocks (dev.write_blocks d lba buf).0 other n ≡ dev.read_blocks d other n

pub record LoadedBlob : Type 0 where
  pub states : Dict Bytes
  pub gen : ℕ
  pub hash : Bytes

-- genAAD
abbrev pub gen_aad : ℕ → Bytes
gen_aad gen = le_put_uint32 gen

-- newAEAD: with a key of 32 bytes and a nonce size above 0 the two constructors do not fail.
unfoldable pub check_key : Bytes → Result Error (Unit {0})
check_key key = if not (length key == state_key_len) then err bad_key_length else ok tt

-- `n > blocks` for an int64 number of blocks
abbrev pub exceeds : ℕ → ℤ → Bool
exceeds n (pos m) = ltb m n
exceeds n (negsuc m) = true

-- slotLBA, on what Info returns
unfoldable pub slot_lba_at : ℤ × ℤ → ℕ → ℕ → Result Error ℕ
slot_lba_at (negsuc n, blocks) offset slot = err unsupported_block_size
slot_lba_at (pos zero, blocks) offset slot = err unsupported_block_size
slot_lba_at (pos (suc n), blocks) offset slot =
    let bs = suc n in
    let slot_offset = offset + slot * slot_size in
    if not (slot_size % bs == 0) || not (offset % bs == 0)
    then err unsupported_block_size
    else if exceeds ((slot_offset + slot_size) / bs) blocks
    then err device_too_small
    else ok (slot_offset / bs)

-- The header and the ciphertext: the bytes that the digest covers.
unfoldable pub blob_bytes : ℕ → Bytes → Bytes → Bytes
blob_bytes gen nonce ciphertext =
    magic ++ (le_put_uint32 gen ++ (le_put_uint32 (length ciphertext) ++ (nonce ++ ciphertext)))

-- The rest of the slot is zero.
unfoldable pub slot_bytes : Bytes → Bytes
slot_bytes blob = blob ++ replicate (slot_size - length blob) 0

module _ (c : Crypto) where
  -- What save computes before it looks at the device. `nonce` is what rand.Read gave, if anything.
  unfoldable pub seal_blob : Bytes → Option Bytes → ℕ → Dict Bytes → Result Error Bytes
  unfolding check_key
  seal_blob key nonce gen states = do
    checked ← check_key key
    plaintext ← encode states
    n ← elim nonce [ none ↦ err bad_nonce | some n ↦ ok n ]
    let ciphertext = c.seal key n plaintext (gen_aad gen)
    (if ltb slot_size (header_len + length ciphertext)
        then err blob_too_large
        else ok (blob_bytes gen n ciphertext))

  -- loadSlot, on the bytes of the slot
  unfoldable pub parse_slot : Bytes → Bytes → Result Error LoadedBlob
  unfolding check_key
  parse_slot key buf =
      if not (bytes_eq (take 8 buf) magic)
      then err bad_magic
      else (let gen = le_uint32 (drop 8 buf) in
          let len = le_uint32 (drop 12 buf) in
          let nonce = take nonce_len (drop 16 buf) in
          if ltb len tag_len || ltb (slot_size - header_len) len then err bad_length else do
            checked ← check_key key
            plaintext ←
                elim (c.open_sealed key nonce (take len (drop header_len buf)) (gen_aad gen)) [
                  | none ↦ err auth_failed
                  | some text ↦ ok text
                ]
            states ← decode plaintext
            ok (record {
              states = states;
              gen = gen;
              hash = c.sha256 (take (header_len + len) buf);
            }))

abbrev pub or_read_failed : Option Bytes → Result Error Bytes
or_read_failed none = err read_failed
or_read_failed (some buf) = ok buf

module _ {D : Type 0} (dev : BlockDevice D) where
  unfoldable pub slot_lba : D → ℕ → ℕ → Result Error ℕ
  unfolding slot_lba_at
  slot_lba d offset slot = slot_lba_at (dev.info d) offset slot

  unfoldable pub read_slot : D → ℕ → Result Error Bytes
  read_slot d lba = or_read_failed (dev.read_blocks d lba slot_size)

module _ {D : Type 0} (c : Crypto) (dev : BlockDevice D) where
  write_slot : D → ℕ → Bytes → D × Result Error Bytes
  unfolding slot_bytes
  write_slot d lba blob =
      let (d', done) = dev.write_blocks d lba (slot_bytes blob) in
      (d', if done then ok (c.sha256 blob) else err write_failed)

  -- save, from the blob that is to be written and the slot's address
  unfoldable pub save_at : D → Result Error Bytes → Result Error ℕ → D × Result Error Bytes
  unfolding write_slot
  save_at d (err e) lba = (d, err e)
  save_at d (ok blob) (err e) = (d, err e)
  save_at d (ok blob) (ok lba) = write_slot d lba blob

  unfoldable pub save : D → ℕ → Bytes → Option Bytes → ℕ → Dict Bytes → D × Result Error Bytes
  save d offset key nonce gen states =
      save_at d (seal_blob c key nonce gen states) (slot_lba dev d offset (gen % 2))

  unfoldable pub load_slot : D → ℕ → ℕ → Bytes → Result Error LoadedBlob
  load_slot d offset slot key = do
    lba ← slot_lba dev d offset slot
    buf ← read_slot dev d lba
    parse_slot c key buf

-- The body of the loop of load: keep the newest of the valid slots so far.
unfoldable pub newer : Option LoadedBlob → Result Error LoadedBlob → Option LoadedBlob
newer newest (err e) = newest
newer none (ok blob) = some blob
newer (some newest) (ok blob) = if ltb newest.gen blob.gen then some blob else some newest

module _ {D : Type 0} (c : Crypto) (dev : BlockDevice D) where
  unfoldable pub load : D → ℕ → Bytes → Result Error LoadedBlob
  unfolding newer
  load d offset key =
      if not (length key == state_key_len)
      then err bad_key_length
      else (let first = newer none (load_slot c dev d offset 0 key) in
          elim (newer first (load_slot c dev d offset 1 key)) [
            | none ↦ err no_state
            | some newest ↦ ok newest
          ])
