-- ===== src/Tests/Serving.antt =====
-- The checkpoint endpoint, the provisioning of a card and the log ring, at concrete inputs.
use vitrum.Base.{
  ◌&&◌, ◌||◌, ◌-◌, drop, length, ℕ, List, [], ◌∷◌, true, false, Option, none, some, ◌≡◌, refl,
  if◌then◌else◌, replicate, arith,
}
use vitrum.Base.Bytes.{Bytes, codes, bytes_eq, bytes_eq_iff, bytes_eq_refl}
use vitrum.Base.Dict.{lookup}
use vitrum.Base.Int.{pos}
use vitrum.Witness.{LogState}
use vitrum.Witness.Logs.{all, MemStore, mem_store}
use vitrum.Witness.Pool.{null, Logic, Witness, new_witness}
use vitrum.Witness.Http.{is_origin_hash, get_checkpoint, plain_text}
use vitrum.Witness.Http.Notes.{get_checkpoint_stored}
use vitrum.Firmware.LogRing.{log_ring_lines, new_ring, recent}
use vitrum.Firmware.LogRing.Recent.{write_all, lines_of, recent-write_all}
use vitrum.Firmware.DeviceKey.{Soc, secure, rpmb_diversifier, derive}
use vitrum.Firmware.Hab.{Report, boot_status}
use vitrum.Firmware.Provision.{
  CounterError, key_not_programmed, Card, ProvisionStatus, provision_rpmb,
}
use vitrum.Firmware.Provision.Guards.{IsHonest}
use vitrum.Firmware.ProvisionTool.{Lit, Network, run_tool, is_up, lights}
use vitrum.Firmware.ProvisionTool.Shows.{both_lit, lights-run_tool}

abbrev hash_of : Bytes → Bytes
hash_of o = if bytes_eq o (codes "A") then replicate 64 97 else replicate 64 98

abbrev log_state : LogState
log_state = record { size = pos 66; hash = codes "C"; note = codes "ABC\n\n- key\n" }

abbrev logic : Logic
logic = record {
  parse_checkpoint = λ b. none;
  parse_hash = λ b. some b;
  check_tree = λ proof n h old prev. false;
  empty_tree_hash = 0 ∷ [];
}

abbrev server : Witness MemStore
server = new_witness logic mem_store ((codes "A", log_state) ∷ [])

one_origin : (p : Bytes) → hash_of p ≡ hash_of (codes "A") → p ≡ codes "A"
one_origin p h = ground (arith, bytes_eq_iff p (codes "A"), bytes_eq_refl (codes "A"))

pattern_holds : is_origin_hash (hash_of (codes "A")) ≡ true
unfolding is_origin_hash bytes_eq
pattern_holds = refl

stored : lookup (codes "A") (mem_store.all server.store) ≡ some log_state
unfolding lookup all new_witness bytes_eq
stored = refl

get_checkpoint_stored_example :
    get_checkpoint hash_of logic mem_store server (hash_of (codes "A"))
    ≡ record { code = 200; content_type = plain_text; body = log_state.note }
get_checkpoint_stored_example =
    get_checkpoint_stored hash_of logic mem_store server (codes "A") log_state one_origin
      pattern_holds stored

-- A card as its key, if it has one, and its write counter.
abbrev CardState : Type 0
CardState = Option Bytes × ℕ

abbrev count_of : CardState → CardState × ℕ × Option CounterError
count_of (none, n) = ((none, n), 0, some key_not_programmed)
count_of (some key, n) = ((some key, n), n, none)

abbrev card : Card CardState
card = record {
  init = λ t key. (t, true);
  counter = λ t key authenticated. count_of t;
  program_key = λ t key. ((some key, 0), true);
}

abbrev fused : Soc
fused = record {
  snvs = some true;
  caam = some (λ diversifier. some (replicate 32 5));
  dcp = none;
  unique_id = 1 ∷ [];
  pbkdf2 = λ password salt rounds n. some password;
}

abbrev signed_boot : Report
signed_boot = record {
  status = codes "success";
  config = codes "closed";
  state = codes "trusted";
  failures = 0;
  events = [];
}

abbrev dark : Lit
dark = record { blue = false; white = false }

abbrev no_network : Network
no_network = record { init = false; listens = true; serves = true }

abbrev tool_status : ProvisionStatus
tool_status = (run_tool card (codes "r1") fused signed_boot true (none, 0)).1.status

lights-run_tool_example :
    (both_lit (lights dark tool_status no_network (true ∷ []))
      ≡ tool_status.success && (is_up no_network || null (true ∷ [])))
    × IsHonest (secure fused) (boot_status signed_boot) tool_status
    × ((tool_status.key_programmed && (derive fused rpmb_diversifier).1) ≡ false)
lights-run_tool_example =
    lights-run_tool card (codes "r1") fused signed_boot true (none, 0) dark no_network (true ∷ [])

tool_status_succeeds : tool_status.success ≡ true
unfolding run_tool provision_rpmb bytes_eq derive
tool_status_succeeds = refl

abbrev writes : List (Bytes × Bytes)
writes = (codes "1", codes "up\n") ∷ (codes "2", codes "ready\n\n") ∷ []

recent-write_all_example :
    recent (write_all new_ring writes)
    ≡ drop (length (lines_of writes) - log_ring_lines) (lines_of writes)
recent-write_all_example = recent-write_all writes (omega arith)
