-- ===== src/Firmware/Provision.antt =====
-- fw/rpmb-provision/provision.go: provisionRPMB. The driver github.com/usbarmory/rpmb, over the
-- state of the card, and the key derivation are parameters.
pub mod Guards
use vitrum.Base.{
  ℕ, List, [], Bool, true, false, not, ◌&&◌, ◌||◌, Option, none, some, ◌==◌, if◌then◌else◌,
  replicate,
}
use vitrum.Base.Int.{ℤ, pos, int_eq}
use vitrum.Base.Bytes.{Bytes, codes, bytes_eq}

-- The errors of Counter that the code tells apart.
pub data CounterError : Type 0 where
  key_not_programmed invalid_mac other_error : CounterError

-- InitWithTransport with a key, and Counter and ProgramKey of an RPMB with that key. Counter takes
-- whether the response is authenticated, and gives a value beside its error.
pub record Card (T : Type 0) : Type 0 where
  pub init : T → Bytes → T × Bool
  pub counter : T → Bytes → Bool → T × ℕ × Option CounterError
  pub program_key : T → Bytes → T × Bool

pub record HabStatus : Type 0 where
  pub status : Bytes
  pub failures : ℤ

-- The first one is main's.
pub data ProvisionError : Type 0 where
  emmc_detect probe_init inconclusive_state existing_derivation existing_init foreign :
      ProvisionError
  inconclusive_key already_programmed hab_not_clean snvs_not_secure : ProvisionError
  derivation init_failed programming verification : ProvisionError

-- rpmbProvisionStatus, without the revision that its caller fills in
pub record ProvisionStatus : Type 0 where
  pub hab : HabStatus
  pub snvs_secure : Bool
  pub unprogrammed_before : Bool
  pub programmed_before : Bool
  pub derived_key_matches : Bool
  pub foreign_key : Bool
  pub probe : Bytes
  pub key_programmed : Bool
  pub authenticated_counter : Bool
  pub counter : ℕ
  pub success : Bool
  pub error : Option ProvisionError

abbrev pub fail : ProvisionStatus → ProvisionError → ProvisionStatus
fail s e = record s { error = some e }

abbrev pub hab_clean : HabStatus → Bool
hab_clean boot = bytes_eq boot.status (codes "success") && int_eq boot.failures (pos 0)

abbrev pub new_status : Bool → HabStatus → ProvisionStatus
new_status secure boot = record {
  hab = boot;
  snvs_secure = secure;
  unprogrammed_before = false;
  programmed_before = false;
  derived_key_matches = false;
  foreign_key = false;
  probe = [];
  key_programmed = false;
  authenticated_counter = false;
  counter = 0;
  success = false;
  error = none;
}

abbrev pub zero_key : Bytes
zero_key = replicate 32 0

module _ {T : Type 0} (c : Card T) where
  -- The authenticated counter under the derived key, on a card that has a key
  unfoldable pub diagnosed : ProvisionStatus → T × ℕ × Option CounterError → T × ProvisionStatus
  diagnosed s (t, n, none) = (
    t,
    fail (record s { counter = n; derived_key_matches = true; authenticated_counter = true })
        already_programmed,
  )
  diagnosed s (t, n, some invalid_mac) =
      (t, fail (record s { counter = n; foreign_key = true }) foreign)
  diagnosed s (t, n, some key_not_programmed) =
      (t, fail (record s { counter = n }) inconclusive_key)
  diagnosed s (t, n, some other_error) = (t, fail (record s { counter = n }) inconclusive_key)

  -- A card that has a key: nothing is written.
  unfoldable pub diagnose : T → ProvisionStatus → Option Bytes → T × ProvisionStatus
  unfolding diagnosed
  diagnose t s none = (t, fail s existing_derivation)
  diagnose t s (some key) =
      let (u, done) = c.init t key in
      if not done then (u, fail s existing_init) else diagnosed s (c.counter u key true)

  -- The authenticated counter after the key was programmed
  unfoldable pub verified : ProvisionStatus → T × ℕ × Option CounterError → T × ProvisionStatus
  verified s (t, n, some e) = (t, fail (record s { counter = n }) verification)
  verified s (t, n, none) =
      (t, record s { counter = n; authenticated_counter = true; success = true })

  unfoldable pub programmed : ProvisionStatus → Bytes → T × Bool → T × ProvisionStatus
  unfolding verified
  programmed s key (t, false) = (t, fail s programming)
  programmed s key (t, true) = verified (record s { key_programmed = true }) (c.counter t key true)

  unfoldable pub program : T → ProvisionStatus → Option Bytes → T × ProvisionStatus
  unfolding programmed
  program t s none = (t, fail s derivation)
  program t s (some key) =
      let (u, done) = c.init t key in
      if not done then (u, fail s init_failed) else programmed s key (c.program_key u key)

  -- A card without a key: the checks before it is programmed.
  unfoldable pub guarded :
      T → Bool → HabStatus → ProvisionStatus → Option Bytes → T × ProvisionStatus
  unfolding program
  guarded t secure boot s derive =
      if not (hab_clean boot)
      then (t, fail s hab_not_clean)
      else if not secure
      then (t, fail s snvs_not_secure)
      else program t s derive

  -- The three outcomes of the probe
  unfoldable pub probed :
      Bool
      → HabStatus
      → ProvisionStatus
      → Option Bytes
      → T × ℕ × Option CounterError
      → T × ProvisionStatus
  unfolding diagnose guarded
  probed secure boot s derive (t, n, some key_not_programmed) =
      guarded t secure boot
        (record s { unprogrammed_before = true; probe = codes "unprogrammed (result 0x7)" }) derive
  probed secure boot s derive (t, n, some invalid_mac) =
      (t, fail (record s { probe = codes "inconclusive" }) inconclusive_state)
  probed secure boot s derive (t, n, some other_error) =
      (t, fail (record s { probe = codes "inconclusive" }) inconclusive_state)
  probed secure boot s derive (t, n, none) =
      diagnose t (record s { programmed_before = true; probe = codes "programmed" }) derive

  unfoldable pub provision_rpmb : T → Bool → HabStatus → Option Bytes → T × ProvisionStatus
  unfolding probed
  provision_rpmb t secure boot derive =
      let (u, done) = c.init t zero_key in
      if not done
      then (u, fail (new_status secure boot) probe_init)
      else probed secure boot (new_status secure boot) derive (c.counter u zero_key false)
