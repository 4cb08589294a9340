-- ===== src/Tests/Hosts.antt =====
-- cmd/vitrum: pairing, feeding a checkpoint and provisioning a device.
use vitrum.Base.{
  Option, [], ◌∷◌, List, Bool, true, false, none, some, ◌≡◌, refl, All, arith, length, ◌<◌,
}
use vitrum.Base.Bytes.{Bytes, codes, bytes_eq}
use vitrum.Base.Int.{pos}
use vitrum.Base.Dict.{lookup}
use vitrum.Base.Result.{ok}
use vitrum.Witness.{Checkpoint}
use vitrum.Witness.Logs.{get, MemStore, mem_store}
use vitrum.Witness.Note.{note_text}
use vitrum.Witness.Pool.{
  Witness, Logic, new_witness, set_signer, add_checkpoint, answers, waits, conflict, latest_size,
  max_pool_size,
}
use vitrum.Witness.Status.{verifier}
use vitrum.Base.Text.Words.{IsPrint}
use vitrum.Provisioning.{verifier_of}
use vitrum.Client.Pin.{HostKeys, Attempt, dial_pinned, dials}
use vitrum.Client.Pin.Agree.{IsHostKeys, IsClientOf, dials-agree}
use vitrum.Client.Feed.{Feeder, Response, first_body, feed, resubmit}
use vitrum.Client.Feed.Retry.{feed-waits}
use vitrum.Client.Commands.{timely, cmd_provision}
use vitrum.Client.Commands.Installs.{device_link, Succeeds, cmd_provision-Succeeds}
use vitrum.Tests.Protocol.{logic, hash_string, parse_hash, text_IsHashText, zero_hash}
use vitrum.Witness.Request.{cut_prefix}
use vitrum.Tests.Provisions.{
  rfc_3339, parse_rfc_3339, keys, clock, server, fresh-IsHeld, seed, name,
}

abbrev host_keys : HostKeys
host_keys = record { parse_key = λ b. some b; marshal_key = λ b. b }

host_keys-IsHostKeys : IsHostKeys host_keys
host_keys-IsHostKeys = record { parse-marshal = λ key. refl }

abbrev attempt : Bytes → Attempt
attempt key = record {
  presented = some key;
  connects = true;
  replaced = none;
  can_read = true;
  can_make_dir = true;
  appeared = none;
  can_create = true;
  can_write = true;
  landed = 0;
  can_close = true;
  can_remove = true;
}

abbrev later_dials : List (Bool × Attempt)
later_dials = (true, attempt (8 ∷ [])) ∷ (false, attempt (7 ∷ [])) ∷ []

first_dial : (dial_pinned host_keys true (attempt (7 ∷ [])) none).1 ≡ ok (7 ∷ [])
unfolding dial_pinned
first_dial = refl

dials-agree_example :
    All
      (IsClientOf host_keys host_keys-IsHostKeys (7 ∷ []))
      (dials host_keys (dial_pinned host_keys true (attempt (7 ∷ [])) none).0 later_dials)
dials-agree_example =
    dials-agree host_keys host_keys-IsHostKeys true (attempt (7 ∷ [])) none (7 ∷ []) later_dials
      first_dial (refl, (refl, tt))

abbrev feed_logic : Logic
feed_logic = record logic { parse_hash = parse_hash }

abbrev feeder : Feeder
feeder = record {
  hash_string = hash_string;
  prove_tree = λ cp older. some (zero_hash ∷ []);
  open_note = λ note. none;
  witness_name = [];
}

abbrev store : MemStore
store = (codes "A", record { size = pos 5; hash = codes "H"; note = [] }) ∷ []

abbrev witness : Witness MemStore
witness = set_signer feed_logic mem_store (new_witness feed_logic mem_store store) 7

abbrev note : Bytes
note = codes "ABC\n\nsig\n"

abbrev cp : Checkpoint
cp = record { origin = codes "A"; n = pos 66; hash = codes "C" }

signs : witness.signer ≡ some 7
unfolding set_signer
signs = refl

splits : note_text note ≡ some (codes "ABC\n")
unfolding note_text
splits = refl

size : latest_size (mem_store.get witness.store cp.origin) ≡ pos 5
unfolding set_signer new_witness get lookup bytes_eq
size = refl

free : lookup cp.origin witness.current_pool ≡ none
unfolding set_signer new_witness lookup
free = refl

idle : lookup cp.origin witness.in_sequencing ≡ none
unfolding set_signer new_witness lookup
idle = refl

room : length witness.current_pool < max_pool_size
unfolding set_signer new_witness
room = omega arith

-- A service that answers each submission by the conflict.
abbrev submit : Witness MemStore → Bytes → Witness MemStore × Option Response
submit w body = (w, some (409, (conflict (mem_store.get w.store cp.origin)).resp))

feed-waits_example :
    (add_checkpoint feed_logic mem_store witness (first_body feeder note)
      ≡ (witness, answers (conflict (mem_store.get witness.store cp.origin))))
    × ((body : Bytes) × (feed feeder submit witness cp note
          ≡ resubmit feeder submit witness note (ok body))
        × ((add_checkpoint feed_logic mem_store witness body).1 ≡ waits cp.origin))
feed-waits_example =
    feed-waits feed_logic mem_store feeder text_IsHashText witness 7 5 66 cp note (codes "ABC\n")
      (zero_hash ∷ []) signs refl (λ e. cc) splits refl size refl (omega arith) (omega arith)
      (omega arith) free idle room submit refl refl (refl, tt) (omega arith)
      (λ e. absurd (omega arith)) (λ h. refl)

unsigned-IsPrint : All IsPrint (
    verifier mem_store (verifier_of logic mem_store keys clock server.device) server.device.witness)
unfolding new_witness
unsigned-IsPrint = tt

read_9 : parse_rfc_3339 (rfc_3339 (pos 9)) ≡ some (pos 9000000000)
unfolding parse_rfc_3339 cut_prefix
read_9 = refl

cmd_provision-Succeeds_example :
    Succeeds logic mem_store keys clock seed (codes "w+key") server.device (
      cmd_provision
        (device_link logic mem_store keys clock)
        keys
        parse_rfc_3339
        (pos 8000000000)
        300000000000
        server.device
        9
        (some timely)
        seed
        name)
cmd_provision-Succeeds_example =
    cmd_provision-Succeeds logic mem_store keys clock seed (codes "w+key") name (omega arith) refl
      refl (omega arith) (λ e. cc) (omega arith) (λ e. cc) parse_rfc_3339 (pos 8000000000)
      300000000000 server.device 9 (λ c sec. sec) timely (pos 9000000000) fresh-IsHeld
      unsigned-IsPrint (omega arith) refl (omega arith) read_9 refl (λ e. cc)
