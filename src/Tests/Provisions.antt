-- ===== src/Tests/Provisions.antt =====
-- internal/provision: a device with small keys, from NewServer on.
use vitrum.Base.{
  ℕ, ◌+◌, ◌-◌, ◌*◌, ◌/◌, ◌%◌, Option, [], ◌∷◌, ◌++◌, List, true, none, some, ◌≡◌, refl, replicate,
  arith, append-nil,
}
use vitrum.Base.Bytes.{Bytes, codes, bytes_eq}
use vitrum.Base.Int.{ℤ, pos, negsuc}
use vitrum.Base.Result.{ok}
use vitrum.Base.Text.{trim_space, fields, strip_space, strip_space_back}
use vitrum.Witness.Logs.{MemStore, mem_store}
use vitrum.Witness.Request.{cut_prefix}
use vitrum.Witness.Pool.{Witness, new_witness}
use vitrum.Provisioning.{
  Keys, Clock, Device, Answer, done, failed, bad_length, provision, exec, read_input,
}
use vitrum.Provisioning.Slices.{IsZero}
use vitrum.Provisioning.Clean.{IsHeld, exec-IsHeld, exec-deprovision}
use vitrum.Provisioning.Install.{Ends, provision-Ends}
use vitrum.Provisioning.Keep.{exec_failed}
use vitrum.Provisioning.Upload.{upload_command, upload_input, IsInstalled, exec-upload}
use vitrum.Provisioning.Session.{Config, Server, Channel, exec_request, other_request, new_server}
use vitrum.Provisioning.Session.Guarded.{handle_conns, server-IsHeld}
use vitrum.Tests.Protocol.{logic}

abbrev pub keys : Keys
keys = record {
  new_key = λ seed. seed ++ seed;
  new_signer = λ name key. some (name ++ codes "+key");
}

-- Times of the first minute, in RFC 3339.
abbrev digits : ℕ → Bytes
digits n = (48 + n / 10 % 10) ∷ (48 + n % 10) ∷ []

abbrev pub rfc_3339 : ℤ → Bytes
rfc_3339 (pos n) = codes "1970-01-01T00:00:" ++ (digits n ++ codes "Z")
rfc_3339 (negsuc n) = []

abbrev seconds_of : Option Bytes → Option ℤ
seconds_of (some (a ∷ b ∷ z ∷ [])) = some (pos ((10 * (a - 48) + (b - 48)) * 1000000000))
seconds_of _ = none

unfoldable pub parse_rfc_3339 : Bytes → Option ℤ
parse_rfc_3339 b = seconds_of (cut_prefix (codes "1970-01-01T00:00:") b)

abbrev pub clock : Clock ℤ
clock = record {
  set_time = some (λ c sec. sec);
  now = λ c. c;
  time_text = rfc_3339;
  uptime_text = λ s t. codes "U";
}

abbrev pub fresh_witness : Witness MemStore
fresh_witness = new_witness logic mem_store []

abbrev config : Config MemStore
config = record { host_seed = replicate 32 1; witness = some fresh_witness; start = none }

abbrev pub server : Server MemStore ℤ
server = record {
  host_key = replicate 64 1;
  host_private = replicate 64 1;
  device = record {
    witness = fresh_witness;
    memory = λ a. [];
    next = 0;
    signers = λ k. none;
    priv = none;
    clock = pos 5;
    start = pos 5;
  };
}

server_made : new_server logic mem_store keys clock (λ key. some key) config (pos 5) ≡ ok server
unfolding new_server
server_made = refl

abbrev pub seed : Bytes
seed = replicate 32 7

abbrev pub name : Bytes
name = codes "w"

abbrev stdin : List Bytes
stdin = upload_input seed ∷ []

abbrev channels : List Channel
channels =
    record {
      kind = codes "session";
      accepts = true;
      stdin = stdin;
      reqs = other_request ∷ exec_request (some (upload_command name)) ∷ [];
    }
    ∷ []

unsigned : (w : Witness MemStore) → config.witness ≡ some w → w.signer ≡ none
unfolding new_witness
unsigned w e = cc

server-IsHeld_example :
    IsHeld logic mem_store keys []
      (handle_conns logic mem_store keys clock server.device (some channels ∷ none ∷ []))
server-IsHeld_example =
    server-IsHeld logic mem_store keys clock (λ key. some key) config (pos 5) server
      (some channels ∷ none ∷ []) server_made unsigned

pub fresh-IsHeld : IsHeld logic mem_store keys [] server.device
unfolding new_witness
fresh-IsHeld = record { clean = λ i apart. tt; owned = tt; fresh = tt }

abbrev provisioned : Device MemStore ℤ
provisioned = (exec logic mem_store keys clock server.device stdin (upload_command name)).0

provisioned-IsHeld : IsHeld logic mem_store keys [] provisioned
provisioned-IsHeld =
    exec-IsHeld logic mem_store keys clock server.device stdin (upload_command name) fresh-IsHeld

deprovision_fields : fields (codes "deprovision") ≡ codes "deprovision" ∷ []
unfolding fields strip_space
deprovision_fields = refl

exec-deprovision_example :
    ((exec logic mem_store keys clock provisioned [] (codes "deprovision")).0.witness.signer ≡ none)
    × ((i : ℕ)
        → IsZero
            ((exec logic mem_store keys clock provisioned [] (codes "deprovision")).0.memory i))
exec-deprovision_example =
    exec-deprovision logic mem_store keys clock provisioned [] [] (codes "deprovision")
      provisioned-IsHeld deprovision_fields

provision-Ends_example :
    Ends logic mem_store keys server.device name
      (trim_space (read_input 129 stdin))
      (provision logic mem_store keys server.device name stdin)
provision-Ends_example = provision-Ends logic mem_store keys server.device name stdin fresh-IsHeld

-- A provision of a provisioned device, with an input that is no seed.
abbrev refused : Device MemStore ℤ × Answer
refused = exec logic mem_store keys clock provisioned (codes "xy" ∷ []) (upload_command name)

refused_result : refused.1 ≡ failed (bad_length 2)
unfolding exec fields strip_space trim_space read_input upload_command bytes_eq strip_space_back
refused_result = refl

exec_failed_example :
    (refused.0.witness ≡ provisioned.witness)
    × (refused.0.priv ≡ provisioned.priv)
    × ((p : ℕ) → provisioned.priv ≡ some p → refused.0.memory p ≡ provisioned.memory p)
exec_failed_example =
    exec_failed logic mem_store keys clock provisioned (codes "xy" ∷ []) (upload_command name)
      (bad_length 2) provisioned-IsHeld refused_result

exec-upload_example :
    ((exec logic mem_store keys clock server.device stdin (upload_command name)).1
      ≡ done (codes "w+key" ++ codes "\n"))
    × IsInstalled logic mem_store keys seed (codes "w+key") server.device provisioned
exec-upload_example =
    exec-upload logic mem_store keys seed (codes "w+key") name stdin (omega arith) refl
      (append-nil (upload_input seed)) refl clock server.device fresh-IsHeld (omega arith) (λ e. cc)
