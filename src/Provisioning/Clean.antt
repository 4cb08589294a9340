-- ===== src/Provisioning/Clean.antt =====
-- internal/provision/server.go: which slices may hold secrets between commands.
use vitrum.Base.{
  ℕ, ◌+◌, ◌*◌, ◌<◌, List, [], ◌∷◌, ◌++◌, Option, none, some, ◌≡◌, ◌≢◌, refl, if-elim, ltb, ◌==◌,
  length, All, replicate, arith, append-nil,
}
use vitrum.Base.Bytes.{Bytes, codes, bytes_eq}
use vitrum.Base.Text.{trim_space, fields}
use vitrum.Base.Hex.{decode_hex, hex_prefix}
use vitrum.Witness.Logs.{Store}
use vitrum.Witness.Pool.{Logic, set_signer, clear_signer}
use vitrum.Provisioning.Slices.{
  IsZero, IsClean, to_list, put_slice, zero, put_slice-IsClean, zero-IsClean, zero_pointer-IsClean,
}
use vitrum.Provisioning.Cases.{settime-elim, run-elim}
use vitrum.Provisioning.{
  Keys, Clock, Signer, Device, Answer, failed, input_too_large, bad_length, install, forget,
  use_key, use_seed, use_input, with_seed, provision, deprovision, run, exec, read_input, filled,
  max_seed_input, seed_size,
}

-- A signer and the key's slice: neither, or the signer closes over that slice.
abbrev pub Owns : (ℕ → Option Signer) → Option ℕ → Option ℕ → Type 0
Owns signers none none = Unit {0}
Owns signers none (some a) = ⊥
Owns signers (some k) none = ⊥
Owns signers (some k) (some a) =
    (vkey : Bytes) × (signers k ≡ some (record { vkey = vkey; key = a }))

fresh_later :
    (o : Option ℕ) (m n : ℕ)
    → m < n + 1
    → All (λ p. p < m) (to_list o)
    → All (λ p. p < n) (to_list o)
fresh_later none m n h f = tt
fresh_later (some p) m n h f = (omega arith, tt)

module _ {S I C : Type 0} (g : Logic) (store : Store S I) (keys : Keys) where
  -- Between two commands: every slice is zero but the key's and those listed, the witness signs
  -- with the key's slice, and addresses are made in order.
  pub record IsHeld (l : List ℕ) (d : Device S C) : Type 0 where
    pub clean : IsClean (l ++ to_list d.priv) d.memory
    pub owned : Owns d.signers d.witness.signer d.priv
    pub fresh : All (λ p. p < d.next) (to_list d.priv)

  zero_slice :
      (a : ℕ) (l : List ℕ) (d : Device S C)
      → IsHeld (a ∷ l) d
      → IsHeld l (record d { memory = zero a d.memory })
  zero_slice a l d h = record {
    clean = zero-IsClean a d.memory (l ++ to_list d.priv) h.clean;
    owned = h.owned;
    fresh = h.fresh;
  }

  write_slice :
      (a : ℕ) (b : Bytes) (n : ℕ) (l : List ℕ) (d : Device S C)
      → d.next < n + 1
      → IsHeld l d
      → IsHeld (a ∷ l) (record d { memory = put_slice a b d.memory; next = n })
  write_slice a b n l d hn h = record {
    clean = put_slice-IsClean a b d.memory (l ++ to_list d.priv) h.clean;
    owned = h.owned;
    fresh = fresh_later d.priv d.next n hn h.fresh;
  }

  -- A slice that is listed may be written again.
  rewrite_slice :
      (a : ℕ) (b : Bytes) (l : List ℕ) (d : Device S C)
      → IsHeld (a ∷ l) d
      → IsHeld (a ∷ l) (record d { memory = put_slice a b d.memory })
  rewrite_slice a b l d h = record {
    clean = λ i apart.
        put_slice-IsClean a b d.memory (a ∷ (l ++ to_list d.priv)) h.clean i (apart.0, apart);
    owned = h.owned;
    fresh = h.fresh;
  }

  later : (d : Device S C) (l : List ℕ) → IsHeld l d → IsHeld l (record d { next = d.next + 1 })
  later d l h = record {
    clean = h.clean;
    owned = h.owned;
    fresh = fresh_later d.priv d.next (d.next + 1) (omega arith) h.fresh;
  }

  install-IsHeld :
      (d : Device S C) (at slice seed buf : ℕ) (vkey : Bytes)
      → slice < d.next
      → IsHeld (slice ∷ seed ∷ buf ∷ []) d
      → IsHeld (seed ∷ buf ∷ []) (install g store keys d at slice vkey)
  unfolding install set_signer
  install-IsHeld d at slice seed buf vkey hs h = record {
    clean = λ i apart.
        zero_pointer-IsClean d.priv d.memory (slice ∷ seed ∷ buf ∷ [])
          (λ j others. h.clean j (moved d.priv j others)) i
          (apart.1.1.0, (apart.0, (apart.1.0, tt)));
    owned = (vkey, ground arith);
    fresh = (hs, tt);
  }
    where
      moved :
          (p : Option ℕ) (j : ℕ)
          → All (λ a. j ≢ a) (to_list p ++ (slice ∷ seed ∷ buf ∷ []))
          → All (λ a. j ≢ a) ((slice ∷ seed ∷ buf ∷ []) ++ to_list p)
      moved none j o = o
      moved (some p) j o = (o.1.0, (o.1.1.0, (o.1.1.1.0, (o.0, tt))))

  forget-IsHeld :
      (buf seed : ℕ) (d : Device S C)
      → IsHeld (seed ∷ buf ∷ []) d
      → IsHeld [] (forget g store keys buf seed d)
  unfolding forget
  forget-IsHeld buf seed d h =
      zero_slice buf [] (record d { memory = zero seed d.memory }) (zero_slice seed (buf ∷ []) d h)

  use_key-IsHeld :
      (d : Device S C) (name : Bytes) (slice seed buf : ℕ) (made : Option Bytes)
      → slice < d.next
      → IsHeld (slice ∷ seed ∷ buf ∷ []) d
      → IsHeld (seed ∷ buf ∷ []) (use_key g store keys d name slice made).0
  unfolding use_key
  use_key-IsHeld d name slice seed buf none hs h = zero_slice slice (seed ∷ buf ∷ []) d h
  use_key-IsHeld d name slice seed buf (some vkey) hs h =
      install-IsHeld (record d { next = d.next + 1 }) d.next slice seed buf vkey (omega arith)
        (later d (slice ∷ seed ∷ buf ∷ []) h)

  use_seed-IsHeld :
      (d : Device S C) (name : Bytes) (seed buf : ℕ) (text : Bytes) (decoded : Option Bytes)
      → IsHeld (seed ∷ buf ∷ []) d
      → IsHeld (seed ∷ buf ∷ []) (use_seed g store keys d name seed text decoded).0
  unfolding use_seed
  use_seed-IsHeld d name seed buf text none h =
      rewrite_slice seed (filled seed_size (hex_prefix text)) (buf ∷ []) d h
  use_seed-IsHeld d name seed buf text (some bytes) h =
      let priv : Bytes = keys.new_key bytes in
      let copied : Device S C = record d { memory = put_slice seed bytes d.memory } in
      use_key-IsHeld
        (record copied { memory = put_slice d.next priv copied.memory; next = d.next + 1 }) name
        d.next seed buf (keys.new_signer name priv) (omega arith)
        (write_slice d.next priv (d.next + 1) (seed ∷ buf ∷ []) copied (omega arith)
          (rewrite_slice seed bytes (buf ∷ []) d h))

  with_seed-IsHeld :
      (d : Device S C) (name : Bytes) (buf : ℕ) (input : Bytes)
      → IsHeld (buf ∷ []) d
      → IsHeld [] (with_seed g store keys d name buf input).0
  unfolding with_seed use_input
  with_seed-IsHeld d name buf input h =
      let made : Device S C = record d {
        memory = put_slice d.next (replicate seed_size 0) d.memory;
        next = d.next + 1;
      } in
      let held : IsHeld (d.next ∷ buf ∷ []) made =
        write_slice d.next (replicate seed_size 0) (d.next + 1) (buf ∷ []) d (omega arith) h in
      let text : Bytes = trim_space input in
      forget-IsHeld buf d.next (use_input g store keys made name d.next text).0 (
        if-elim (λ (r : Device S C × Answer). IsHeld (d.next ∷ buf ∷ []) r.0)
          (length text == 2 * seed_size)
          (use_seed g store keys made name d.next text (decode_hex text))
          (made, failed (bad_length (length text)))
          (λ e. use_seed-IsHeld made name d.next buf text (decode_hex text) held) (λ e. held))

  provision-IsHeld :
      (d : Device S C) (name : Bytes) (stdin : List Bytes)
      → IsHeld [] d
      → IsHeld [] (provision g store keys d name stdin).0
  unfolding provision
  provision-IsHeld d name stdin h =
      let input : Bytes = read_input (max_seed_input + 1) stdin in
      let contents : Bytes = filled (max_seed_input + 1) input in
      let read : Device S C = record d {
        memory = put_slice d.next contents d.memory;
        next = d.next + 1;
      } in
      let held : IsHeld (d.next ∷ []) read =
        write_slice d.next contents (d.next + 1) [] d (omega arith) h in
      if-elim (λ (r : Device S C × Answer). IsHeld [] r.0) (ltb max_seed_input (length input))
        (record read { memory = zero d.next read.memory }, failed input_too_large)
        (with_seed g store keys read name d.next input) (λ e. zero_slice d.next [] read held)
        (λ e. with_seed-IsHeld read name d.next input held)

  deprovision-IsHeld : (d : Device S C) → IsHeld [] d → IsHeld [] (deprovision g store keys d)
  unfolding deprovision clear_signer
  deprovision-IsHeld d h = record {
    clean = zero_pointer-IsClean d.priv d.memory [] (rw append-nil h.clean);
    owned = tt;
    fresh = tt;
  }

  later_clock : (d : Device S C) (c : C) → IsHeld [] d → IsHeld [] (record d { clock = c })
  later_clock d c h = record { clean = h.clean; owned = h.owned; fresh = h.fresh }

  pub exec-IsHeld :
      (clock : Clock C) (d : Device S C) (stdin : List Bytes) (command : Bytes)
      → IsHeld [] d
      → IsHeld [] (exec g store keys clock d stdin command).0
  unfolding exec
  exec-IsHeld clock d stdin command h =
      run-elim g store keys clock (λ r. IsHeld [] r.0) d stdin (λ e. h)
        (λ name. provision-IsHeld d name stdin h) (λ out. deprovision-IsHeld d h)
        (settime-elim g store keys clock (λ r. IsHeld [] r.0) d (λ e. h)
          (λ c out. later_clock d c h))
        h (fields command)

  -- From a device that is sound between commands (IsHeld), a command with deprovision as its
  -- first field leaves the witness without a signer and every slice of memory zero.
  pub exec-deprovision :
      (clock : Clock C) (d : Device S C) (stdin args : List Bytes) (command : Bytes)
      → IsHeld [] d
      → fields command ≡ codes "deprovision" ∷ args
      → ((exec g store keys clock d stdin command).0.witness.signer ≡ none)
        × ((i : ℕ) → IsZero ((exec g store keys clock d stdin command).0.memory i))
  unfolding exec run deprovision clear_signer bytes_eq
  exec-deprovision clock d stdin args command h named =
      rw named (refl, λ i. (deprovision-IsHeld d h).clean i tt)
