-- ===== src/Firmware/ProvisionTool/Shows.antt =====
-- fw/rpmb-provision/main.go: what the LEDs of the provisioning tool say.
use vitrum.Base.{◌≡◌, List, [], ◌∷◌, Bool, true, false, ◌&&◌, ◌||◌, inl, inr, refl, arith}
use vitrum.Base.Bytes.{Bytes}
use vitrum.Witness.Pool.{null}
use vitrum.Firmware.DeviceKey.{Soc, secure, rpmb_diversifier, derive}
use vitrum.Firmware.Hab.{Report, boot_status}
use vitrum.Firmware.Provision.{Card, ProvisionStatus}
use vitrum.Firmware.Provision.Guards.{IsCleared, IsHonest, provision_rpmb-IsHonest}
use vitrum.Firmware.ProvisionTool.{
  Lit, Network, tool_key, run_tool, half_round, run_pattern, is_up, show_status, lights,
}

abbrev pub both_lit : Lit → Bool
both_lit l = l.blue && l.white

half_round-both_lit : (first : Bool) → both_lit (half_round first) ≡ false
half_round-both_lit true = refl
half_round-both_lit false = refl

run_pattern-both_lit :
    (l : Lit) (halves : List Bool) → both_lit (run_pattern l halves) ≡ both_lit l && null halves
unfolding run_pattern
run_pattern-both_lit l [] = ground arith
run_pattern-both_lit l (first ∷ halves) =
    ground (arith, run_pattern-both_lit (half_round first) halves, half_round-both_lit first)

lights-both_lit :
    (l : Lit) (s : ProvisionStatus) (net : Network) (halves : List Bool)
    → both_lit (lights l s net halves) ≡ s.success && (is_up net || null halves)
unfolding lights
lights-both_lit l s net halves =
    ground (arith, run_pattern-both_lit (show_status (record l { white = false }) s) halves)

module _ {T : Type 0} (c : Card T) (revision : Bytes) (soc : Soc) (boot : Report) where
  run_tool-IsHonest :
      (detected : Bool) (t : T)
      → IsHonest (secure soc) (boot_status boot) (run_tool c revision soc boot detected t).1.status
  unfolding run_tool IsHonest
  run_tool-IsHonest false t = inl (refl, refl)
  run_tool-IsHonest true t =
      provision_rpmb-IsHonest c (secure soc) (boot_status boot) t
        (tool_key (derive soc rpmb_diversifier))

  -- A key that the tool says it programmed does not have the DEV mark.
  not_dev :
      (s : ProvisionStatus)
      → IsHonest (secure soc) (boot_status boot) s
      → (s.key_programmed && (derive soc rpmb_diversifier).1) ≡ false
  unfolding IsHonest IsCleared derive
  not_dev s (inl (h, _)) = ground (arith, h)
  not_dev s (inr ((_, _, is_secure), _, _)) = ground (arith, is_secure)

  -- After any steps of the loops that blink the LEDs of the provisioning tool, both LEDs are
  -- lit just when its status says success and no loop for a failure of the network has begun.
  -- The status says that a key was programmed only when the probe found the card without a key,
  -- HAB is clean and SNVS is secure, and the key does not have the DEV mark; then it says
  -- success just when the counter was authenticated, and else it does not say success.
  pub lights-run_tool :
      (detected : Bool) (t : T) (l : Lit) (net : Network) (halves : List Bool)
      → (both_lit (lights l (run_tool c revision soc boot detected t).1.status net halves)
          ≡ (run_tool c revision soc boot detected t).1.status.success
            && (is_up net || null halves))
        × IsHonest
            (secure soc)
            (boot_status boot)
            (run_tool c revision soc boot detected t).1.status
        × (((run_tool c revision soc boot detected t).1.status.key_programmed
              && (derive soc rpmb_diversifier).1)
            ≡ false)
  lights-run_tool detected t l net halves =
      let honest = run_tool-IsHonest detected t in
      (
        lights-both_lit l (run_tool c revision soc boot detected t).1.status net halves,
        honest,
        not_dev (run_tool c revision soc boot detected t).1.status honest,
      )
