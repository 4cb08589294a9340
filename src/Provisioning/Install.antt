-- ===== src/Provisioning/Install.antt =====
-- internal/provision/server.go: what provision leaves, when it succeeds and when it fails.
use vitrum.Base.{
  ℕ, ◌+◌, ◌*◌, ◌<◌, List, [], ◌++◌, false, Option, none, some, ◌≡◌, ◌≢◌, refl, if-elim, ltb, ◌==◌,
  length, All, replicate, arith, ==-refl, ◌∙◌,
}
use vitrum.Base.Bytes.{Bytes, codes}
use vitrum.Base.Text.{trim_space}
use vitrum.Base.Hex.{decode_hex, hex_prefix, decode_hex-length}
use vitrum.Provisioning.Clean.{IsHeld}
use vitrum.Witness.Logs.{Store}
use vitrum.Witness.Pool.{Logic, set_signer}
use vitrum.Provisioning.Slices.{
  Memory, to_list, put_slice, zero, zero_apart, zero_pointer_apart, put_slice_own,
}
use vitrum.Provisioning.{
  Keys, Device, Answer, done, failed, bad_length, install, forget, use_key, use_seed, use_input,
  with_seed, provision, read_input, filled, max_seed_input, seed_size,
}

-- The key's slice was made before the address.
fresh_at : (o : Option ℕ) (n p : ℕ) → All (λ q. q < n) (to_list o) → o ≡ some p → p < n
fresh_at none n p h e = cc
fresh_at (some q) n p h e = ground arith

module _ {S I C : Type 0} (g : Logic) (store : Store S I) (keys : Keys) where
  -- Of a device and an answer: on failure the witness and its key are as before; on success the
  -- text is a seed in hex, the witness signs over a slice with the key of that seed under the given
  -- name, and the answer is the signer's verifier key.
  abbrev pub Ends : Device S C → Bytes → Bytes → Device S C × Answer → Type 0
  Ends d name text (v, failed e) =
      (v.witness ≡ d.witness)
      × (v.priv ≡ d.priv)
      × ((p : ℕ) → d.priv ≡ some p → v.memory p ≡ d.memory p)
  Ends d name text (v, done out) =
      (seed : Bytes) × (vkey : Bytes) × (at : ℕ) × (slice : ℕ) × (decode_hex text ≡ some seed)
      × (length seed ≡ seed_size)
      × (keys.new_signer name (keys.new_key seed) ≡ some vkey)
      × (out ≡ vkey ++ codes "\n")
      × (v.witness ≡ set_signer g store d.witness at)
      × (v.signers at ≡ some (record { vkey = vkey; key = slice }))
      × (v.priv ≡ some slice)
      × (v.memory slice ≡ keys.new_key seed)

  -- A later stage of provision: the device but for slices made since, and the deferred calls.
  module _ (d : Device S C) (name : Bytes) (h : All (λ p. p < d.next) (to_list d.priv)) where
    -- The key's slice is not written.
    abbrev Keeps : Memory → Type 0
    Keeps m = (p : ℕ) → d.priv ≡ some p → m p ≡ d.memory p

    Keeps-put_slice :
        (a : ℕ) (b : Bytes) (m : Memory) → d.next < a + 1 → Keeps m → Keeps (put_slice a b m)
    unfolding put_slice
    Keeps-put_slice a b m ha k p e =
        let apart : (p == a) ≡ false = ground (arith, fresh_at d.priv d.next p h e) in
        rw apart (k p e)

    Keeps-zero : (a : ℕ) (m : Memory) → d.next < a + 1 → Keeps m → Keeps (zero a m)
    unfolding zero
    Keeps-zero a m ha k p e =
        let apart : (p == a) ≡ false = ground (arith, fresh_at d.priv d.next p h e) in
        rw apart (k p e)

    not_priv : (a : ℕ) → d.next < a + 1 → d.priv ≢ some a
    not_priv a ha e = omega (arith, fresh_at d.priv d.next a h e)

    abbrev close : Device S C × Answer → Device S C × Answer
    close r = (forget g store keys d.next (d.next + 1) r.0, r.1)

    use_key-Ends :
        (m : Memory) (n slice : ℕ) (text seed : Bytes) (made : Option Bytes)
        → d.next + 1 < slice
        → Keeps m
        → m slice ≡ keys.new_key seed
        → decode_hex text ≡ some seed
        → length seed ≡ seed_size
        → keys.new_signer name (keys.new_key seed) ≡ made
        → Ends d name text
            (close (use_key g store keys (record d { memory = m; next = n }) name slice made))
    unfolding use_key forget install
    use_key-Ends m n slice text seed none hs k hm dec len sig = (
      refl,
      refl,
      Keeps-zero d.next (zero (d.next + 1) (zero slice m)) (omega arith) (
          Keeps-zero (d.next + 1) (zero slice m) (omega arith)
            (Keeps-zero slice m (omega arith) k)),
    )
    use_key-Ends m n slice text seed (some vkey) hs k hm dec len sig = (
      seed,
      vkey,
      n,
      slice,
      dec,
      len,
      sig,
      refl,
      refl,
      rw (==-refl n) refl,
      refl,
      zero_apart d.next slice _ (omega arith)
          ∙ zero_apart (d.next + 1) slice _ (omega arith)
          ∙ zero_pointer_apart d.priv slice m (not_priv slice (omega arith))
          ∙ hm,
    )

    use_seed-Ends :
        (m : Memory) (n : ℕ) (text : Bytes) (decoded : Option Bytes)
        → d.next + 1 < n
        → Keeps m
        → decode_hex text ≡ decoded
        → length text ≡ 2 * seed_size
        → Ends d name text (
            close (
              use_seed g store keys
                (record d { memory = m; next = n })
                name
                (d.next + 1)
                text
                decoded))
    unfolding use_seed forget
    use_seed-Ends m n text none hs k dec len = (
      refl,
      refl,
      Keeps-zero d.next _ (omega arith) (
          Keeps-zero (d.next + 1) _ (omega arith)
            (Keeps-put_slice (d.next + 1) (filled seed_size (hex_prefix text)) m (omega arith) k)),
    )
    use_seed-Ends m n text (some seed) hs k dec len =
        use_key-Ends (put_slice n (keys.new_key seed) (put_slice (d.next + 1) seed m)) (n + 1) n
          text seed (keys.new_signer name (keys.new_key seed)) hs
          (Keeps-put_slice n (keys.new_key seed) (put_slice (d.next + 1) seed m) (omega arith)
            (Keeps-put_slice (d.next + 1) seed m (omega arith) k))
          (put_slice_own n (keys.new_key seed) (put_slice (d.next + 1) seed m)) dec
          (omega (arith, decode_hex-length text seed dec)) refl

    with_seed-Ends :
        (m : Memory) (input : Bytes)
        → Keeps m
        → Ends d name
            (trim_space input)
            (with_seed g store keys (record d { memory = m; next = d.next + 1 }) name d.next input)
    unfolding with_seed use_input
    with_seed-Ends m input k =
        let text : Bytes = trim_space input in
        let n : ℕ = d.next + 1 + 1 in
        let made : Memory = put_slice (d.next + 1) (replicate seed_size 0) m in
        let kept : Keeps made =
          Keeps-put_slice (d.next + 1) (replicate seed_size 0) m (omega arith) k in
        if-elim (λ (r : Device S C × Answer). Ends d name text (close r))
          (length text == 2 * seed_size)
          (use_seed g store keys (record d { memory = made; next = n }) name (d.next + 1) text
            (decode_hex text))
          (record d { memory = made; next = n }, failed (bad_length (length text)))
          (λ e. use_seed-Ends made n text (decode_hex text) (omega arith) kept refl (ground arith))
          (λ e. (
            refl,
            refl,
            Keeps-zero d.next _ (omega arith) (Keeps-zero (d.next + 1) _ (omega arith) kept),
          ))

  -- What provision leaves, for any name and input, from a device that is sound between commands
  -- (IsHeld): when it fails, the witness, the key's address and the key are as before; when it
  -- succeeds, the trimmed input is 32 bytes in hex, the witness has a new signer over the
  -- server's slice, that slice holds the private key of those bytes, and the answer is the
  -- verifier key of the signer under the given name.
  pub provision-Ends :
      (d : Device S C) (name : Bytes) (stdin : List Bytes)
      → IsHeld g store keys [] d
      → Ends d name
          (trim_space (read_input (max_seed_input + 1) stdin))
          (provision g store keys d name stdin)
  unfolding provision
  provision-Ends d name stdin h =
      let input : Bytes = read_input (max_seed_input + 1) stdin in
      let contents : Bytes = filled (max_seed_input + 1) input in
      let kept : Keeps d name h.fresh (put_slice d.next contents d.memory) =
        Keeps-put_slice d name h.fresh d.next contents d.memory (omega arith) (λ p e. refl) in
      if-elim (Ends d name (trim_space input)) (ltb max_seed_input (length input)) _ _
        (λ e. (refl, refl, Keeps-zero d name h.fresh d.next _ (omega arith) kept))
        (λ e. with_seed-Ends d name h.fresh (put_slice d.next contents d.memory) input kept)
