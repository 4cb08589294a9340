-- ===== src/Firmware/Storage.antt =====
-- fw/vitrum/target_usbarmory.go, and the choice of the store in fw/vitrum/main.go.
pub mod Closed
use vitrum.Base.{ℕ, Bool, true, false, not, Option, none, some, ◌++◌, [], if◌then◌else◌}
use vitrum.Base.Bytes.{Bytes, codes}
use vitrum.Firmware.DeviceKey.{
  Soc, secure, derive, state_diversifier, rpmb_diversifier, host_key_diversifier,
}

-- The board: whether it is native, Detect of the microSD card and of the eMMC, and the calls
-- InitWithTransport with the RPMB key and Counter, whether they return no error.
pub record Board : Type 0 where
  pub soc : Soc
  pub native : Bool
  pub detects_sd : Bool
  pub detects_mmc : Bool
  pub init_rpmb : Bytes → Bool
  pub reads_counter : Bytes → Bool

-- The key of the RPMB that the anchor is on, and its DEV mark.
abbrev pub AnchorKey : Type 0
AnchorKey = Bytes × Bool

-- newStorage: nothing, the rollback-protected storage with its key, its anchor's key and its
-- description, or a call of fatal, which does not return.
pub data Storage : Type 0 where
  ram_only : Storage
  protected : Bytes → Bytes → Bytes → Storage
  fatal : Storage

module _ (b : Board) where
  abbrev pub usable_anchor : Option Bytes × Bool → Option AnchorKey
  usable_anchor (none, dev) = none
  usable_anchor (some key, dev) =
      if not (b.init_rpmb key)
      then none
      else if not (b.reads_counter key)
      then none
      else some (key, dev)

  -- newRPMBAnchor, with `none` for its errors.
  unfoldable pub new_rpmb_anchor : Option AnchorKey
  unfolding derive
  new_rpmb_anchor =
      if not b.detects_mmc then none else usable_anchor (derive b.soc rpmb_diversifier)

  -- The closure degrade.
  abbrev pub degrade : Storage
  degrade = if secure b.soc then fatal else ram_only

  abbrev pub mark : Bool → Bytes
  mark true = codes " [DEV keys: unfused unit]"
  mark false = []

  abbrev pub with_anchor : Bytes → Bool → Option AnchorKey → Storage
  with_anchor key dev none = degrade
  with_anchor key dev (some (rpmb_key, rpmb_dev)) =
      protected key rpmb_key
        (codes "microSD blob + " ++ (codes "eMMC RPMB" ++ (codes " anchor" ++ mark dev)))

  abbrev pub with_state_key : Option Bytes × Bool → Storage
  with_state_key (none, dev) = degrade
  with_state_key (some key, dev) = with_anchor key dev new_rpmb_anchor

  unfoldable pub new_storage : Storage
  unfolding new_rpmb_anchor derive
  new_storage =
      if not b.native
      then ram_only
      else if not b.detects_sd
      then degrade
      else with_state_key (derive b.soc state_diversifier)

  -- hostKeySeed: the seed with its source, or an error.
  unfoldable pub host_key_seed : Option (Bytes × Bytes)
  unfolding derive
  host_key_seed =
      let (seed, dev) = derive b.soc host_key_diversifier in
      (elim seed [
        | none ↦ none
        | some s ↦ some (
          s,
          codes "HUK-derived" ++ (if dev then codes " [DEV: unfused, non-unique HUK]" else []),
        )
      ])

-- What main serves from: an in-RAM store, or a store that Open gave, with whether it is halted; or it
-- ends in fatal.
pub data Serving (S : Type 0) : Type 0 where
  serves_ram : Serving S
  serves_store : S → Bytes → Serving S
  fatal_start : Serving S

module _ {S : Type 0} (halted : S → Bool) where
  abbrev serve_opened : Bytes → Option S → Serving S
  serve_opened desc none = fatal_start
  serve_opened desc (some s) =
      serves_store s (if halted s then desc ++ codes " - HALTED (rollback/tamper)" else desc)

  -- main up to witness.New, with state.Open on the storage's key and anchor, and the text that it
  -- reports.
  unfoldable pub choose_store : (Bytes → Bytes → Option S) → Storage → Serving S
  choose_store open_state ram_only = serves_ram
  choose_store open_state fatal = fatal_start
  choose_store open_state (protected key rpmb_key desc) =
      serve_opened desc (open_state key rpmb_key)
