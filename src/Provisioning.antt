-- ===== src/Provisioning.antt =====
-- internal/provision/server.go: the commands of the provisioning server, and the memory that holds
-- secrets. A command is one step: its buffers are its own, and the server's lock covers the rest.
pub mod Slices
pub mod Cases
pub mod Clean
pub mod Install
pub mod Keep
pub mod Upload
pub mod Session
use vitrum.Base.{
  ℕ, ◌+◌, ◌-◌, ◌*◌, List, [], ◌∷◌, ◌++◌, Bool, true, false, Option, none, some, ltb, ◌==◌,
  if◌then◌else◌, length, take, drop, replicate,
}
use vitrum.Base.Bytes.{Bytes, codes, bytes_eq}
use vitrum.Base.Int.{ℤ, pos, int_lt}
use vitrum.Base.Decimal.{parse_int}
use vitrum.Base.Text.{trim_space, fields}
use vitrum.Base.Hex.{decode_hex, hex_prefix}
use vitrum.Witness.Logs.{Store}
use vitrum.Witness.Pool.{Witness, Logic, set_signer, clear_signer}
use vitrum.Witness.Status.{provisioned, verifier}
use vitrum.Provisioning.Slices.{Memory, put_slice, zero, zero_pointer}

-- ed25519.NewKeyFromSeed, and torchwood.NewCosignatureSigner on a name and a private key: the text
-- of the verifier key, or `none` for its error.
pub record Keys : Type 0 where
  pub new_key : Bytes → Bytes
  pub new_signer : Bytes → Bytes → Option Bytes

-- SetTime of the configuration if there is one, time.Now in seconds, and the texts of a time and of
-- the time since a start.
pub record Clock (C : Type 0) : Type 0 where
  pub set_time : Option (C → ℤ → C)
  pub now : C → ℤ
  pub time_text : ℤ → Bytes
  pub uptime_text : ℤ → ℤ → Bytes

-- torchwood's signer: the text of its verifier key, and the address of the slice that it closes
-- over.
pub record Signer : Type 0 where
  pub vkey : Bytes
  pub key : ℕ

-- The server with what it refers to. `next` is the first address that is not in use, and `priv`
-- the address of the key's slice, or nil.
pub record Device (S C : Type 0) : Type 0 where
  pub witness : Witness S
  pub memory : Memory
  pub next : ℕ
  pub signers : ℕ → Option Signer
  pub priv : Option ℕ
  pub clock : C
  pub start : ℤ

-- The calls of fail, for their texts.
pub data Failure : Type 0 where
  empty_command provision_usage settime_usage bad_seconds no_clock : Failure
  unknown_command : Bytes → Failure
  input_too_large bad_hex bad_signer : Failure
  bad_length : ℕ → Failure

-- A command ends with its output and status 0, or with fail.
pub data Answer : Type 0 where
  done : Bytes → Answer
  failed : Failure → Answer

abbrev pub max_seed_input : ℕ
max_seed_input = 128

abbrev pub seed_size : ℕ
seed_size = 32

-- The status that exec returns.
abbrev pub exit_status : Answer → ℕ
exit_status (done out) = 0
exit_status (failed e) = 1

-- The loop of reads into a buffer with `room` bytes left. A read gives what has come, as far as
-- there is room; behind the last comes an error.
unfoldable pub read_input : ℕ → List Bytes → Bytes
read_input room [] = []
read_input room (chunk ∷ r) =
    let rest = read_input (room - length chunk) r in
    if room == 0 then [] else take room chunk ++ rest

-- A slice of `size` bytes with something written to its front.
abbrev pub filled : ℕ → Bytes → Bytes
filled size b = b ++ replicate (size - length b) 0

abbrev pub bool_text : Bool → Bytes
bool_text true = codes "true"
bool_text false = codes "false"

abbrev pub verifier_line : Bytes → Bytes
verifier_line [] = []
verifier_line (c ∷ v) = codes "verifier=" ++ ((c ∷ v) ++ codes "\n")

module _ {S I C : Type 0} (g : Logic) (store : Store S I) (keys : Keys) where
  -- The locked part of provision: the signer at `at`, over the key's slice at `slice`.
  unfoldable pub install : Device S C → ℕ → ℕ → Bytes → Device S C
  unfolding set_signer
  install d at slice vkey = record d {
    witness = set_signer g store d.witness at;
    memory = zero_pointer d.priv d.memory;
    signers = λ i. if i == at then some (record { vkey = vkey; key = slice }) else d.signers i;
    priv = some slice;
  }

  -- What the deferred calls do at the end, to the seed and to the buffer.
  unfoldable pub forget : ℕ → ℕ → Device S C → Device S C
  forget buf seed d = record d { memory = zero buf (zero seed d.memory) }

  -- From NewCosignatureSigner on, with the private key at `slice` and the next address free.
  unfoldable pub use_key : Device S C → Bytes → ℕ → Option Bytes → Device S C × Answer
  unfolding install
  use_key d name slice none = (record d { memory = zero slice d.memory }, failed bad_signer)
  use_key d name slice (some vkey) =
      (install (record d { next = d.next + 1 }) d.next slice vkey, done (vkey ++ codes "\n"))

  -- With the seed's slice at `seed`, from hex.Decode on.
  unfoldable pub use_seed : Device S C → Bytes → ℕ → Bytes → Option Bytes → Device S C × Answer
  unfolding use_key
  use_seed d name seed text none = (
    record d { memory = put_slice seed (filled seed_size (hex_prefix text)) d.memory },
    failed bad_hex,
  )
  use_seed d name seed text (some bytes) =
      let priv = keys.new_key bytes in
      use_key
        (record d {
          memory = put_slice d.next priv (put_slice seed bytes d.memory);
          next = d.next + 1;
        })
        name d.next (keys.new_signer name priv)

  -- From the check of the length on.
  unfoldable pub use_input : Device S C → Bytes → ℕ → Bytes → Device S C × Answer
  unfolding use_seed
  use_input d name seed text =
      if length text == 2 * seed_size
      then use_seed d name seed text (decode_hex text)
      else (d, failed (bad_length (length text)))

  -- From the seed's slice on, with the input in a buffer.
  unfoldable pub with_seed : Device S C → Bytes → ℕ → Bytes → Device S C × Answer
  unfolding use_input forget
  with_seed d name buf input =
      let seed = d.next in
      let made = record d {
        memory = put_slice seed (replicate seed_size 0) d.memory;
        next = seed + 1;
      } in
      let (after, answer) = use_input made name seed (trim_space input) in
      (forget buf seed after, answer)

  unfoldable pub provision : Device S C → Bytes → List Bytes → Device S C × Answer
  unfolding with_seed
  provision d name stdin =
      let input = read_input (max_seed_input + 1) stdin in
      let buf = d.next in
      let read = record d {
        memory = put_slice buf (filled (max_seed_input + 1) input) d.memory;
        next = buf + 1;
      } in
      if ltb max_seed_input (length input)
      then (record read { memory = zero buf read.memory }, failed input_too_large)
      else with_seed read name buf input

  unfoldable pub deprovision : Device S C → Device S C
  unfolding clear_signer
  deprovision d = record d {
    witness = clear_signer g store d.witness;
    memory = zero_pointer d.priv d.memory;
    priv = none;
  }

  module _ (clock : Clock C) where
    unfoldable pub set_clock : Device S C → ℤ → Option (C → ℤ → C) → Device S C × Answer
    set_clock d sec none = (d, failed no_clock)
    set_clock d sec (some set) =
        let c = set d.clock sec in
        (
          record d { clock = c },
          done (codes "time " ++ (clock.time_text (clock.now c) ++ codes "\n")),
        )

    unfoldable pub settime_to : Device S C → Option ℤ → Device S C × Answer
    unfolding set_clock
    settime_to d none = (d, failed bad_seconds)
    settime_to d (some sec) =
        if int_lt sec (pos 0) then (d, failed bad_seconds) else set_clock d sec clock.set_time

    -- The case settime of exec, on the arguments behind it.
    unfoldable pub settime : Device S C → List Bytes → Device S C × Answer
    unfolding settime_to
    settime d (sec ∷ []) = settime_to d (parse_int sec)
    settime d _ = (d, failed settime_usage)

    abbrev pub verifier_of : Device S C → ℕ → Bytes
    verifier_of d i = elim (d.signers i) [ none ↦ [] | some s ↦ s.vkey ]

    -- The case status of exec.
    unfoldable pub status : Device S C → Bytes
    status d =
        let now = clock.now d.clock in
        codes "provisioned="
        ++ (bool_text (provisioned store d.witness)
            ++ (codes "\n"
                ++ (verifier_line (verifier store (verifier_of d) d.witness)
                    ++ (codes "time="
                        ++ (clock.time_text now
                            ++ (codes "\nuptime="
                                ++ (clock.uptime_text d.start now ++ codes "\n")))))))

    unfoldable pub run_provision : Device S C → List Bytes → List Bytes → Device S C × Answer
    unfolding provision
    run_provision d stdin (name ∷ []) = provision d name stdin
    run_provision d stdin _ = (d, failed provision_usage)

    -- The switch of exec, on the fields of the command.
    unfoldable pub run : Device S C → List Bytes → List Bytes → Device S C × Answer
    unfolding settime run_provision
    run d stdin [] = (d, failed empty_command)
    run d stdin (command ∷ args) =
        if bytes_eq command (codes "provision")
        then run_provision d stdin args
        else if bytes_eq command (codes "deprovision")
        then (deprovision d, done (codes "deprovisioned\n"))
        else if bytes_eq command (codes "settime")
        then settime d args
        else if bytes_eq command (codes "status")
        then (d, done (status d))
        else (d, failed (unknown_command command))

    unfoldable pub exec : Device S C → List Bytes → Bytes → Device S C × Answer
    unfolding run
    exec d stdin command = run d stdin (fields command)
