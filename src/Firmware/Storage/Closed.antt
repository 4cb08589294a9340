-- ===== src/Firmware/Storage/Closed.antt =====
-- fw/vitrum/target_usbarmory.go and main.go: a fused unit fails closed.
use vitrum.Base.{
  Bool, true, false, not, Option, none, some, ◌≡◌, ◌⊎◌, inl, inr, refl, ap, if-elim, arith,
  Option-cases,
}
use vitrum.Base.Bytes.{Bytes}
use vitrum.Firmware.DeviceKey.{secure, derive, state_diversifier, rpmb_diversifier}
use vitrum.Firmware.Storage.{
  Board, Storage, ram_only, protected, fatal, AnchorKey, usable_anchor, new_rpmb_anchor, degrade,
  with_anchor, with_state_key, new_storage, Serving, serves_ram, serves_store, fatal_start,
  choose_store,
}

module _ (b : Board) where
  -- The storage's keys are the device's own, both with the same DEV mark, and the card, the eMMC and
  -- the RPMB partition answered.
  abbrev pub IsBound : Bytes → Bytes → Type 0
  IsBound key rpmb_key =
      (b.native ≡ true)
      × (derive b.soc state_diversifier ≡ (some key, not (secure b.soc)))
      × (derive b.soc rpmb_diversifier ≡ (some rpmb_key, not (secure b.soc)))
      × (b.detects_sd ≡ true)
      × (b.detects_mmc ≡ true)
      × (b.init_rpmb rpmb_key ≡ true)
      × (b.reads_counter rpmb_key ≡ true)

  abbrev IsClosed : Storage → Type 0
  IsClosed ram_only = (b.native ≡ false) ⊎ (secure b.soc ≡ false)
  IsClosed (protected key rpmb_key desc) = IsBound key rpmb_key
  IsClosed fatal = (b.native ≡ true) × (secure b.soc ≡ true)

  abbrev IsAnchor : Option AnchorKey → Type 0
  IsAnchor none = Unit {0}
  IsAnchor (some (key, dev)) =
      (b.detects_mmc ≡ true)
      × (derive b.soc rpmb_diversifier ≡ (some key, not (secure b.soc)))
      × (b.init_rpmb key ≡ true)
      × (b.reads_counter key ≡ true)

  new_rpmb_anchor-IsAnchor : IsAnchor (new_rpmb_anchor b)
  unfolding new_rpmb_anchor derive
  new_rpmb_anchor-IsAnchor =
      if-elim IsAnchor (not b.detects_mmc) _ _ (λ e. tt) (λ e. usable (ground arith) _ refl)
    where
      usable :
          b.detects_mmc ≡ true
          → (o : Option Bytes) → (derive b.soc rpmb_diversifier).0 ≡ o
          → IsAnchor (usable_anchor b (o, not (secure b.soc)))
      usable detected none d = tt
      usable detected (some key) d =
          if-elim IsAnchor (not (b.init_rpmb key)) _ _ (λ e. tt)
            (λ e.
              if-elim IsAnchor (not (b.reads_counter key)) _ _ (λ f. tt)
                (λ f. (
                  detected,
                  ap (λ (k : Option Bytes). (k, not (secure b.soc))) d,
                  ground arith,
                  ground arith,
                )))

  degrade-IsClosed : b.native ≡ true → IsClosed (degrade b)
  degrade-IsClosed native =
      if-elim IsClosed (secure b.soc) fatal ram_only (λ e. (native, e)) (λ e. inr e)

  with_anchor-IsClosed :
      (key : Bytes) (dev : Bool) (o : Option AnchorKey)
      → b.native ≡ true
      → b.detects_sd ≡ true
      → derive b.soc state_diversifier ≡ (some key, not (secure b.soc))
      → IsAnchor o
      → IsClosed (with_anchor b key dev o)
  with_anchor-IsClosed key dev none native sd d h = degrade-IsClosed native
  with_anchor-IsClosed key dev (some (rpmb_key, rpmb_dev)) native sd d h =
      (native, d, h.1, sd, h.0, h.2, h.3)

  new_storage-IsClosed : IsClosed (new_storage b)
  unfolding new_storage derive
  new_storage-IsClosed =
      if-elim IsClosed (not b.native) _ _ (λ e. inl (ground arith))
        (λ e.
          if-elim IsClosed (not b.detects_sd) _ _ (λ f. degrade-IsClosed (ground arith))
            (λ f. keyed _ refl (ground arith) (ground arith)))
    where
      keyed :
          (o : Option Bytes)
          → (derive b.soc state_diversifier).0 ≡ o
          → b.native ≡ true
          → b.detects_sd ≡ true
          → IsClosed (with_state_key b (o, not (secure b.soc)))
      keyed none d native sd = degrade-IsClosed native
      keyed (some key) d native sd =
          with_anchor-IsClosed key (not (secure b.soc)) (new_rpmb_anchor b) native sd
            (ap (λ (k : Option Bytes). (k, not (secure b.soc))) d) new_rpmb_anchor-IsAnchor

  module _ {S : Type 0} (halted : S → Bool) (open_state : Bytes → Bytes → Option S) where
    -- From RAM only on an emulated or unfused unit; from a store only under the device's keys.
    abbrev pub IsServing : Serving S → Type 0
    IsServing serves_ram = (b.native ≡ false) ⊎ (secure b.soc ≡ false)
    IsServing fatal_start = b.native ≡ true
    IsServing (serves_store s desc) =
        (key : Bytes) × (rpmb_key : Bytes) × (open_state key rpmb_key ≡ some s)
        × IsBound key rpmb_key

    opened : (v : Storage) → IsClosed v → IsServing (choose_store halted open_state v)
    unfolding choose_store
    opened ram_only h = h
    opened fatal h = h.0
    opened (protected key rpmb_key desc) h = elim (Option-cases (open_state key rpmb_key)) [
      | inl e ↦ rw e h.0
      | inr (s, e) ↦ rw e (key, rpmb_key, e, h)
    ]

    -- The firmware serves from RAM only on an emulated or an unfused unit; when it serves from
    -- a store, Open gave that store for the device's own state and RPMB keys, which bear the
    -- same DEV mark, and the microSD card, the eMMC and the RPMB partition under that key have
    -- answered.
    pub choose_store-IsServing : IsServing (choose_store halted open_state (new_storage b))
    choose_store-IsServing = opened (new_storage b) new_storage-IsClosed
