-- ===== src/State/Blob/Seal.antt =====
-- internal/state/blob.go: what a sealed blob is made of.
use vitrum.Base.{
  ℕ, ◌+◌, ◌-◌, ◌≤◌, ◌≡◌, Option, none, some, length, replicate, arith, length-append,
  length-replicate,
}
use vitrum.Base.Bytes.{Bytes}
use vitrum.Base.Dict.{Dict}
use vitrum.Base.Result.{ok, >>=-eq-ok}
use vitrum.State.Codec.{encode}
use vitrum.State.Blob.{
  slot_size, state_key_len, nonce_len, header_len, Crypto, IsCrypto, gen_aad, check_key, blob_bytes,
  slot_bytes, seal_blob,
}

-- rand.Read fills the nonce, if it succeeds.
abbrev pub IsNonce : Option Bytes → Type 0
IsNonce none = Unit
IsNonce (some n) = length n ≡ nonce_len

-- What a blob that was sealed is made of.
module _ (c : Crypto) (key : Bytes) (gen : ℕ) (states : Dict Bytes) (blob : Bytes) where
  pub seal_some :
      (n : Bytes)
      → seal_blob c key (some n) gen states ≡ ok blob
      → (text : Bytes) × (length key ≡ state_key_len)
        × (encode states ≡ ok text)
        × (header_len + length (c.seal key n text (gen_aad gen)) ≤ slot_size)
        × (blob ≡ blob_bytes gen n (c.seal key n text (gen_aad gen)))
  unfolding seal_blob
  seal_some n h =
      let (u, hu, h₁) = >>=-eq-ok (check_key key) _ h in
      let (text, ht, h₂) = >>=-eq-ok (encode states) _ h₁ in
      (text, ground arith, ht, ground arith, ground arith)

  pub seal_none : seal_blob c key none gen states ≡ ok blob → ⊥
  unfolding seal_blob
  seal_none h =
      let (u, hu, h₁) = >>=-eq-ok (check_key key) _ h in
      let (text, ht, h₂) = >>=-eq-ok (encode states) _ h₁ in cc

pub length-slot_bytes :
    (blob : Bytes) → length blob ≤ slot_size → length (slot_bytes blob) ≡ slot_size
unfolding slot_bytes
length-slot_bytes blob h = omega (
  arith,
  length-append blob (replicate (slot_size - length blob) 0),
  length-replicate {A = ℕ} (slot_size - length blob) 0,
)

module _ (c : Crypto) (good : IsCrypto c) where
  -- A sealed blob fits its slot.
  pub seal_some-fits :
      (key nonce : Bytes) (gen : ℕ) (states : Dict Bytes) (blob : Bytes)
      → length nonce ≡ nonce_len
      → seal_blob c key (some nonce) gen states ≡ ok blob
      → length blob ≤ slot_size
  seal_some-fits key nonce gen states blob hn h =
      let (text, hk, ht, hi, e) = seal_some c key gen states blob nonce h in
      let ct = c.seal key nonce text (gen_aad gen) in
      rw e (unfold blob_bytes in omega (arith, length-append nonce ct))

  pub seal_blob-fits :
      (key : Bytes) (nonce : Option Bytes) (gen : ℕ) (states : Dict Bytes) (blob : Bytes)
      → IsNonce nonce
      → seal_blob c key nonce gen states ≡ ok blob
      → length blob ≤ slot_size
  seal_blob-fits key none gen states blob hn h = absurd (seal_none c key gen states blob h)
  seal_blob-fits key (some n') gen states blob hn h = seal_some-fits key n' gen states blob hn h
