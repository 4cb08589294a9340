-- ===== src/Firmware/DeviceKey.antt =====
-- fw/internal/devicekey: keys derived from the hardware-unique key.
use vitrum.Base.{ℕ, Bool, false, not, Option, none, some, replicate}
use vitrum.Base.Bytes.{Bytes, codes}

-- The SoC: SNVS if there is one, with whether it is available; DeriveKey of CAAM and of DCP if there
-- is one, the latter with an IV; the unique ID; and PBKDF2-HMAC-SHA256 of a password and a salt, for
-- a number of rounds and a length.
pub record Soc : Type 0 where
  pub snvs : Option Bool
  pub caam : Option (Bytes → Option Bytes)
  pub dcp : Option (Bytes → Bytes → Option Bytes)
  pub unique_id : Bytes
  pub pbkdf2 : Bytes → Bytes → ℕ → ℕ → Option Bytes

abbrev pub state_diversifier : Bytes
state_diversifier = codes "vitrum-state-v1"

abbrev pub rpmb_diversifier : Bytes
rpmb_diversifier = codes "vitrum-rpmb-v1"

abbrev pub host_key_diversifier : Bytes
host_key_diversifier = codes "vitrum-hostkey-v1"

abbrev pub pbkdf_iter : ℕ
pbkdf_iter = 4096

abbrev pub key_len : ℕ
key_len = 32

module _ (soc : Soc) where
  -- `imx6ul.SNVS != nil && imx6ul.SNVS.Available()`, securityStatus's first result.
  abbrev pub secure : Bool
  secure = elim soc.snvs [ none ↦ false | some available ↦ available ]

  abbrev pub stretch_key : Bytes → Option Bytes
  stretch_key dk = soc.pbkdf2 dk soc.unique_id pbkdf_iter key_len

  abbrev pub device_key :
      Option (Bytes → Option Bytes) → Option (Bytes → Bytes → Option Bytes) → Bytes → Option Bytes
  device_key (some derive_key) dcp diversifier = derive_key diversifier
  device_key none (some derive_key) diversifier = derive_key diversifier (replicate 16 0)
  device_key none none diversifier = none

  abbrev stretched : Option Bytes → Option Bytes
  stretched none = none
  stretched (some dk) = stretch_key dk

  -- Derive: the key, or `none` for an error, and the DEV mark.
  unfoldable pub derive : Bytes → Option Bytes × Bool
  derive diversifier = (stretched (device_key soc.caam soc.dcp diversifier), not secure)
