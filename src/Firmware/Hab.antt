-- ===== src/Firmware/Hab.antt =====
-- fw/internal/hab/hab_usbarmory.go: what the boot ROM reports.
pub mod Clean
use vitrum.Base.{
  ℕ, ◌+◌, List, [], ◌∷◌, Bool, true, false, Option, none, some, ◌==◌, ltb, if◌then◌else◌, length,
  take,
}
use vitrum.Base.Int.{pos}
use vitrum.Base.Bytes.{Bytes, codes, bytes_eq}
use vitrum.Base.Hex.{encode_hex}
use vitrum.Firmware.Provision.{HabStatus}

pub record Event : Type 0 where
  pub status : Bytes
  pub contents : Bytes

-- hab.Status.
pub record Report : Type 0 where
  pub status : Bytes
  pub config : Bytes
  pub state : Bytes
  pub failures : ℕ
  pub events : List Event

-- A call of the ROM's event function: its status, the size that it stores and the buffer.
pub record RomEvent : Type 0 where
  pub result : ℕ
  pub size : ℕ
  pub buf : Bytes

abbrev pub hab_success : ℕ
hab_success = 240

abbrev pub hab_failure : ℕ
hab_failure = 51

abbrev pub hab_event_max : ℕ
hab_event_max = 128

abbrev pub event_status : Bytes → ℕ
event_status (a ∷ b ∷ c ∷ d ∷ status ∷ r) = status
event_status _ = 0

unfoldable pub hab_status_name : ℕ → Bytes
hab_status_name v =
    if v == 0
    then codes "any"
    else if v == 51
    then codes "failure"
    else if v == 105
    then codes "warning"
    else if v == 240
    then codes "success"
    else codes "unknown"

unfoldable pub hab_config_name : ℕ → Bytes
hab_config_name v =
    if v == 51
    then codes "return"
    else if v == 240
    then codes "open"
    else if v == 204
    then codes "closed"
    else codes "unknown"

unfoldable pub hab_state_name : ℕ → Bytes
hab_state_name v =
    if v == 51
    then codes "initial"
    else if v == 85
    then codes "check"
    else if v == 102
    then codes "nonsecure"
    else if v == 153
    then codes "trusted"
    else if v == 170
    then codes "secure"
    else if v == 204
    then codes "fail-soft"
    else if v == 255
    then codes "fail-hard"
    else codes "unknown"

unfoldable pub make_hab_event : Bytes → Event
unfolding hab_status_name
make_hab_event event = record {
  status = hab_status_name (event_status event);
  contents = encode_hex event;
}

-- The slice of the buffer that a call filled.
abbrev pub filled_part : RomEvent → Bytes
filled_part e = take (if ltb hab_event_max e.size then hab_event_max else e.size) e.buf

abbrev pub add_event : Event → Report → Report
add_event e r =
    if bytes_eq e.status (hab_status_name hab_failure)
    then record r { failures = r.failures + 1; events = e ∷ r.events }
    else record r { events = e ∷ r.events }

-- The loop over the ROM's calls, which ends at the first that does not succeed. The events are in
-- their order, and the failures are counted from the last.
unfoldable pub read_events : Report → List RomEvent → Report
unfolding make_hab_event hab_status_name
read_events r [] = r
read_events r (e ∷ calls) =
    let rest = read_events r calls in
    if e.result == hab_success then add_event (make_hab_event (filled_part e)) rest else r

unfoldable pub read_hab_report : ℕ → ℕ → ℕ → List RomEvent → Report
unfolding read_events hab_status_name hab_config_name hab_state_name
read_hab_report status config state calls =
    read_events
      (record {
        status = hab_status_name status;
        config = hab_config_name config;
        state = hab_state_name state;
        failures = 0;
        events = [];
      })
      calls

-- What provisionRPMB reads of a report.
abbrev pub boot_status : Report → HabStatus
boot_status r = record { status = r.status; failures = pos r.failures }
