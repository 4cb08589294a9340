-- ===== src/State/Blob/Slot.antt =====
-- internal/state/blob.go: loadSlot reads back what save wrote.
use vitrum.Base.{
  ℕ, ◌+◌, ◌-◌, ◌≤◌, ◌≡◌, refl, ◌++◌, some, length, take, drop, replicate, arith, append_assoc,
  le→ltb, take-append_of, drop-append_of, length-append,
}
use vitrum.Base.Bytes.{Bytes, bytes_eq_refl}
use vitrum.Base.Word.{IsU32, le_put_uint32, le_uint32, le_uint32-put}
use vitrum.Base.Dict.{Dict}
use vitrum.Base.Result.{ok}
use vitrum.State.Codec.{decode}
use vitrum.State.Blob.{
  slot_size, state_key_len, nonce_len, tag_len, header_len, magic, Crypto, gen_aad, blob_bytes,
  slot_bytes, parse_slot,
}

-- A slot whose fields are known is accepted when its ciphertext opens and decodes.
module _ (c : Crypto) (key buf nonce ct blob text : Bytes) (gen : ℕ) (states : Dict Bytes) where
  parse_slot_fields :
      take 8 buf ≡ magic
      → le_uint32 (drop 8 buf) ≡ gen
      → le_uint32 (drop 12 buf) ≡ length ct
      → take nonce_len (drop 16 buf) ≡ nonce
      → take (length ct) (drop header_len buf) ≡ ct
      → take (header_len + length ct) buf ≡ blob
      → tag_len ≤ length ct
      → header_len + length ct ≤ slot_size
      → length key ≡ state_key_len
      → c.open_sealed key nonce ct (gen_aad gen) ≡ some text
      → decode text ≡ ok states
      → parse_slot c key buf ≡ ok (record { states = states; gen = gen; hash = c.sha256 blob })
  unfolding parse_slot
  parse_slot_fields e₁ e₂ e₃ e₄ e₅ e₆ lo hi hk ho hd = rw (
    e₁,
    bytes_eq_refl magic,
    e₂,
    e₃,
    le→ltb (length ct) tag_len lo,
    le→ltb (slot_size - header_len) (length ct) (omega arith),
    hk,
    e₄,
    e₅,
    e₆,
    ho,
    hd,
  )

module _ (gen : ℕ) (nonce ct : Bytes) (g : IsU32 gen) (hn : length nonce ≡ nonce_len)
    (hi : header_len + length ct ≤ slot_size) where
  zeros : Bytes
  zeros = replicate (slot_size - length (blob_bytes gen nonce ct)) 0

  after_header : Bytes
  after_header = nonce ++ (ct ++ zeros)

  slot_bytes-blob_bytes :
      slot_bytes (blob_bytes gen nonce ct)
      ≡ magic ++ (le_put_uint32 gen ++ (le_put_uint32 (length ct) ++ after_header))
  unfolding slot_bytes blob_bytes zeros after_header
  slot_bytes-blob_bytes = simp append_assoc

  length-blob_bytes : length (blob_bytes gen nonce ct) ≡ header_len + length ct
  unfolding blob_bytes
  length-blob_bytes = omega (arith, length-append nonce ct)

  -- A sealed blob in its slot is accepted, with its generation, states and digest.
  pub parse_slot-slot_bytes :
      (c : Crypto) (key text : Bytes) (states : Dict Bytes)
      → tag_len ≤ length ct
      → length key ≡ state_key_len
      → c.open_sealed key nonce ct (gen_aad gen) ≡ some text
      → decode text ≡ ok states
      → parse_slot c key (slot_bytes (blob_bytes gen nonce ct))
        ≡ ok (record { states = states; gen = gen; hash = c.sha256 (blob_bytes gen nonce ct) })
  parse_slot-slot_bytes c key text states lo hk ho hd =
      parse_slot_fields c key (slot_bytes (blob_bytes gen nonce ct)) nonce ct
        (blob_bytes gen nonce ct) text gen states (rw slot_bytes-blob_bytes)
        (rw slot_bytes-blob_bytes (le_uint32-put gen (le_put_uint32 (length ct) ++ after_header) g))
        (rw slot_bytes-blob_bytes (le_uint32-put (length ct) after_header (omega arith)))
        (rw slot_bytes-blob_bytes
          (unfold after_header in take-append_of nonce_len nonce (ct ++ zeros) hn))
        (rw slot_bytes-blob_bytes body) whole lo hi hk ho hd
    where
      body : take (length ct) (drop nonce_len after_header) ≡ ct
      body =
          unfold after_header in
          rw (drop-append_of nonce_len nonce (ct ++ zeros) hn)
            (take-append_of (length ct) ct zeros refl)

      whole :
          take (header_len + length ct) (slot_bytes (blob_bytes gen nonce ct))
          ≡ blob_bytes gen nonce ct
      whole =
          unfold slot_bytes in
          take-append_of (header_len + length ct) (blob_bytes gen nonce ct) _ length-blob_bytes
