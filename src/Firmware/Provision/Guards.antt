-- ===== src/Firmware/Provision/Guards.antt =====
-- fw/rpmb-provision: when provisionRPMB programs a key.
use vitrum.Base.{ℕ, ◌≡◌, ◌⊎◌, Bool, true, false, not, ◌&&◌, Option, none, some, if-elim, arith}
use vitrum.Base.Bytes.{Bytes, codes}
use vitrum.Firmware.Provision.{
  CounterError, key_not_programmed, invalid_mac, other_error, Card, HabStatus, ProvisionStatus,
  hab_clean, new_status, zero_key, diagnosed, diagnose, verified, programmed, program, guarded,
  probed, provision_rpmb,
}

-- What must hold before the one-time key is programmed.
unfoldable pub IsCleared : Bool → HabStatus → ProvisionStatus → Type 0
IsCleared secure boot s = (s.unprogrammed_before ≡ true) × (hab_clean boot ≡ true) × (secure ≡ true)

-- A status claims a programmed key only under those conditions, and success only with a key
-- that was programmed and a counter that was authenticated.
unfoldable pub IsHonest : Bool → HabStatus → ProvisionStatus → Type 0
IsHonest secure boot s =
    ((s.key_programmed ≡ false) × (s.success ≡ false))
    ⊎ (IsCleared secure boot s × (s.key_programmed ≡ true) × (s.success ≡ s.authenticated_counter))

module _ {T : Type 0} (c : Card T) (secure : Bool) (boot : HabStatus) where
  -- The status of provisionRPMB, for any card, says that a key was programmed only when the
  -- probe found the card without a key, HAB is clean and SNVS is secure; then it says success
  -- just when the counter was authenticated, and else it does not say success.
  pub provision_rpmb-IsHonest :
      (t : T) (derive : Option Bytes)
      → IsHonest secure boot (provision_rpmb c t secure boot derive).1
  unfolding provision_rpmb probed guarded program programmed verified diagnose diagnosed IsHonest
      IsCleared
  provision_rpmb-IsHonest t derive = ground arith

module _ {T : Type 0} (c : Card T) (P : T → Type 0)
    (init_keeps : (t : T) (key : Bytes) → P t → P (c.init t key).0)
    (counter_keeps : (t : T) (key : Bytes) (mac : Bool) → P t → P (c.counter t key mac).0)
    (secure : Bool) (boot : HabStatus) (closed : (hab_clean boot && secure) ≡ false) where
  guarded_keeps :
      (t : T) (s : ProvisionStatus) (derive : Option Bytes)
      → P t
      → P (guarded c t secure boot s derive).0
  unfolding guarded
  guarded_keeps t s derive h =
      if-elim (λ (r : T × ProvisionStatus). P r.0) (not (hab_clean boot)) _ _ (λ e. h)
        (λ e.
          if-elim (λ (r : T × ProvisionStatus). P r.0) (not secure) _ _ (λ e. h)
            (λ f. absurd (both e f)))
    where
      both : not (hab_clean boot) ≡ false → not secure ≡ false → ⊥
      both e f = ground (arith, closed)

  diagnose_keeps :
      (t : T) (s : ProvisionStatus) (derive : Option Bytes) → P t → P (diagnose c t s derive).0
  unfolding diagnose diagnosed
  diagnose_keeps t s none h = h
  diagnose_keeps t s (some key) h =
      if-elim (λ (r : T × ProvisionStatus). P r.0) (not (c.init t key).1) _ _
        (λ e. init_keeps t key h)
        (λ e.
          end_keeps (c.counter (c.init t key).0 key true)
            (counter_keeps (c.init t key).0 key true (init_keeps t key h)))
    where
      end_keeps : (r : T × ℕ × Option CounterError) → P r.0 → P (diagnosed c s r).0
      end_keeps (t, n, none) h = h
      end_keeps (t, n, some key_not_programmed) h = h
      end_keeps (t, n, some invalid_mac) h = h
      end_keeps (t, n, some other_error) h = h

  probed_keeps :
      (s : ProvisionStatus) (derive : Option Bytes) (r : T × ℕ × Option CounterError)
      → P r.0
      → P (probed c secure boot s derive r).0
  unfolding probed
  probed_keeps s derive (t, n, none) h =
      diagnose_keeps t (record s { programmed_before = true; probe = codes "programmed" }) derive h
  probed_keeps s derive (t, n, some key_not_programmed) h =
      guarded_keeps t
        (record s { unprogrammed_before = true; probe = codes "unprogrammed (result 0x7)" }) derive
        h
  probed_keeps s derive (t, n, some invalid_mac) h = h
  probed_keeps s derive (t, n, some other_error) h = h

  -- When HAB is not clean or SNVS is not secure, provisionRPMB leaves every property of the
  -- card that initialisation and counter reads leave, such as that it has no key: it does not
  -- program one.
  pub provision_rpmb_keeps :
      (t : T) (derive : Option Bytes) → P t → P (provision_rpmb c t secure boot derive).0
  unfolding provision_rpmb
  provision_rpmb_keeps t derive h =
      if-elim (λ (r : T × ProvisionStatus). P r.0) (not (c.init t zero_key).1) _ _
        (λ e. init_keeps t zero_key h)
        (λ e.
          probed_keeps (new_status secure boot) derive
            (c.counter (c.init t zero_key).0 zero_key false)
            (counter_keeps (c.init t zero_key).0 zero_key false (init_keeps t zero_key h)))
