-- ===== src/Provisioning/Upload.antt =====
-- internal/provision/server.go against cmd/vitrum/provision.go: the command and the input that the
-- client sends install the key of its seed.
use vitrum.Base.{
  ℕ, zero, suc, ◌+◌, ◌-◌, ◌≤◌, List, [], ◌∷◌, ◌++◌, true, false, some, ◌≡◌, ◌≢◌, refl, sym, ap, ◌∙◌,
  ltb, ◌==◌, length, length-append, take, All, arith, Bool-cases, inl, inr,
}
use vitrum.Base.Bytes.{Bytes, IsByte, codes, bytes_eq}
use vitrum.Base.Text.{trim_space}
use vitrum.Base.Text.Words.{IsPrint, trim_space-line, fields_words}
use vitrum.Base.Hex.{
  encode_hex, decode_hex, decode_hex-encode_hex, length-encode_hex, encode_hex-All,
}
use vitrum.Witness.Logs.{Store}
use vitrum.Witness.Pool.{Logic, set_signer}
use vitrum.Provisioning.Clean.{IsHeld}
use vitrum.Provisioning.Install.{Ends, provision-Ends}
use vitrum.Provisioning.{
  Keys, Clock, Device, Answer, done, failed, provision, run_provision, run, exec, read_input,
  max_seed_input, seed_size, use_key, use_seed, use_input, with_seed,
}

abbrev pub concat : List Bytes → Bytes
concat [] = []
concat (b ∷ r) = b ++ concat r

take-append_short : (n : ℕ) (b c : Bytes) → take n (b ++ c) ≡ take n b ++ take (n - length b) c
take-append_short zero b c = ground arith
take-append_short (suc n) [] c = ground arith
take-append_short (suc n) (x ∷ b) c =
    ap (λ (l : Bytes). x ∷ l)
      (let e : suc n - suc (length b) ≡ n - length b = omega arith in
        rw e (take-append_short n b c))

-- However the input is cut, the loop of reads gets as much of it as there is room for.
pub read_input-take : (n : ℕ) (chunks : List Bytes) → read_input n chunks ≡ take n (concat chunks)
unfolding read_input
read_input-take zero [] = refl
read_input-take (suc n) [] = refl
read_input-take n (b ∷ r) = elim (Bool-cases (n == 0)) [
  | inl e ↦ let z : n ≡ 0 = ground arith in rw z refl
  | inr e ↦ rw (e, read_input-take (n - length b) r) (sym (take-append_short n b (concat r)))
]

take-all_short : (n : ℕ) (b : Bytes) → length b ≤ n → take n b ≡ b
take-all_short zero [] h = refl
take-all_short zero (x ∷ b) h = absurd (omega arith)
take-all_short (suc n) [] h = refl
take-all_short (suc n) (x ∷ b) h = ap (λ (l : Bytes). x ∷ l) (take-all_short n b (omega arith))

-- What the client sends: the text that sshRun is given, and the input.
unfoldable pub upload_command : Bytes → Bytes
upload_command name = codes "provision " ++ name

unfoldable pub upload_input : Bytes → Bytes
upload_input seed = encode_hex seed ++ (10 ∷ [])

input_lem :
    (seed : Bytes) (stdin : List Bytes)
    → length seed ≡ seed_size
    → concat stdin ≡ upload_input seed
    → read_input (max_seed_input + 1) stdin ≡ upload_input seed
unfolding upload_input
input_lem seed stdin size sent =
    read_input-take 129 stdin
    ∙ ap (take 129) sent
    ∙ take-all_short 129 (upload_input seed)
        (omega (arith, length-append (encode_hex seed) (10 ∷ []), length-encode_hex seed))

text_lem :
    (seed : Bytes)
    → length seed ≡ seed_size
    → All IsByte seed
    → trim_space (upload_input seed) ≡ encode_hex seed
unfolding upload_input
text_lem seed size bytes =
    trim_space-line (encode_hex seed) (encode_hex-All seed bytes)
      (λ e. omega (arith, length-encode_hex seed, ap length e))

provision-IsPrint : All IsPrint (codes "provision")
provision-IsPrint = omega arith

module _ {S I C : Type 0} (g : Logic) (store : Store S I) (keys : Keys) where
  -- The witness signs over a slice that holds the key of the seed.
  abbrev pub IsInstalled : Bytes → Bytes → Device S C → Device S C → Type 0
  IsInstalled seed vkey d v =
      (at : ℕ) × (slice : ℕ) × (v.witness ≡ set_signer g store d.witness at)
      × (v.priv ≡ some slice)
      × (v.signers at ≡ some (record { vkey = vkey; key = slice }))
      × (v.memory slice ≡ keys.new_key seed)

module _ {S I C : Type 0} (g : Logic) (store : Store S I) (keys : Keys) (seed vkey name : Bytes)
    (stdin : List Bytes) (bytes : All IsByte seed) (size : length seed ≡ seed_size)
    (sent : concat stdin ≡ upload_input seed)
    (made : keys.new_signer name (keys.new_key seed) ≡ some vkey) where
  provision-answer :
      (d : Device S C) → (provision g store keys d name stdin).1 ≡ done (vkey ++ codes "\n")
  unfolding provision with_seed use_input use_seed use_key upload_input
  provision-answer d =
      let short : ltb 128 (length (upload_input seed)) ≡ false =
        ground (arith, length-append (encode_hex seed) (10 ∷ []), length-encode_hex seed) in
      let right : (length (encode_hex seed) == 64) ≡ true =
        ground (arith, length-encode_hex seed) in
      rw
        (
          input_lem seed stdin size sent,
          short,
          text_lem seed size bytes,
          right,
          decode_hex-encode_hex seed bytes,
          made,
        )
        refl

  -- Success says what was installed.
  installed :
      (d : Device S C) (text : Bytes) (r : Device S C × Answer)
      → decode_hex text ≡ some seed
      → Ends g store keys d name text r
      → r.1 ≡ done (vkey ++ codes "\n")
      → IsInstalled g store keys seed vkey d r.0
  installed d text (v, failed e) dec h same = cc
  installed d text (v, done out) dec h same =
      let same_seed : h.0 ≡ seed = cc in
      let same_vkey : h.1 ≡ vkey =
        cc (ap (λ (b : Bytes). keys.new_signer name (keys.new_key b)) same_seed) in
      (
        h.2,
        h.3,
        h.8,
        h.10,
        h.9 ∙ ap (λ (t : Bytes). some (record { vkey = t; key = h.3 })) same_vkey,
        h.11 ∙ ap keys.new_key same_seed,
      )

  -- The command and the input that the client sends for a seed of 32 bytes, however the input
  -- is cut into reads, with a name of printing characters for which a signer is made, are
  -- answered with the verifier key of that signer; afterwards the witness has a new signer with
  -- that verifier key, over the server's slice, which holds the private key of the seed. The
  -- device is sound between commands (IsHeld).
  pub exec-upload :
      (clock : Clock C) (d : Device S C)
      → IsHeld g store keys [] d
      → All IsPrint name
      → name ≢ []
      → ((exec g store keys clock d stdin (upload_command name)).1 ≡ done (vkey ++ codes "\n"))
        × IsInstalled g store keys seed vkey d
            (exec g store keys clock d stdin (upload_command name)).0
  unfolding exec run run_provision bytes_eq upload_command
  exec-upload clock d h print nonempty =
      rw (fields_words (codes "provision") name provision-IsPrint (λ e. cc) print nonempty) (
        provision-answer d,
        installed d (trim_space (read_input (max_seed_input + 1) stdin))
            (provision g store keys d name stdin)
            (ap decode_hex
                (ap trim_space (input_lem seed stdin size sent) ∙ text_lem seed size bytes)
              ∙ decode_hex-encode_hex seed bytes)
            (provision-Ends g store keys d name stdin h) (provision-answer d),
      )
