-- ===== src/Firmware/ProvisionTool.antt =====
-- fw/rpmb-provision/main.go: main, serveProvisionStatus and the LEDs. The detection of the eMMC and
-- the network are arguments. A loop's two calls of led before it sleeps are one step, and so are
-- the two after a success.
pub mod Shows
use vitrum.Base.{List, [], ◌∷◌, Bool, true, false, not, ◌&&◌, ◌||◌, Option, none, if◌then◌else◌}
use vitrum.Base.Bytes.{Bytes}
use vitrum.Firmware.DeviceKey.{Soc, secure, rpmb_diversifier, derive}
use vitrum.Firmware.Hab.{Report, boot_status}
use vitrum.Firmware.Provision.{Card, ProvisionStatus, emmc_detect, fail, new_status, provision_rpmb}

-- The status with the revision of the image.
pub record ToolStatus : Type 0 where
  pub revision : Bytes
  pub status : ProvisionStatus

pub record Lit : Type 0 where
  pub blue : Bool
  pub white : Bool

-- Whether netInit and Listen succeed, and whether Serve has not returned.
pub record Network : Type 0 where
  pub init : Bool
  pub listens : Bool
  pub serves : Bool

-- The derivation that main passes: a key with the DEV mark is an error.
abbrev pub tool_key : Option Bytes × Bool → Option Bytes
tool_key (key, dev) = if dev then none else key

module _ {T : Type 0} (c : Card T) where
  -- The status that main serves.
  unfoldable pub run_tool : Bytes → Soc → Report → Bool → T → T × ToolStatus
  run_tool revision soc boot detected t =
      if not detected
      then (
        t,
        record {
          revision = revision;
          status = fail (new_status (secure soc) (boot_status boot)) emmc_detect;
        },
      )
      else let (u, status) =
          provision_rpmb c t (secure soc) (boot_status boot)
            (tool_key (derive soc rpmb_diversifier)) in
        (u, record { revision = revision; status = status })

-- One half of a round of fatalPattern: the blue LED first.
abbrev pub half_round : Bool → Lit
half_round first = record { blue = first; white = not first }

-- The halves in the order in which the loops that run go through them.
unfoldable pub run_pattern : Lit → List Bool → Lit
run_pattern l [] = l
run_pattern l (first ∷ halves) = run_pattern (half_round first) halves

abbrev pub is_up : Network → Bool
is_up net = net.init && net.listens && net.serves

abbrev pub show_status : Lit → ProvisionStatus → Lit
show_status l s = if s.success then record { blue = true; white = true } else l

-- The LEDs, from how they were at main's start: fatalPattern runs after a failure, and fatal when
-- the network fails.
unfoldable pub lights : Lit → ProvisionStatus → Network → List Bool → Lit
unfolding run_pattern
lights l s net halves =
    let shown = show_status (record l { white = false }) s in
    if not s.success || not (is_up net) then run_pattern shown halves else shown
