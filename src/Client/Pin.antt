-- ===== src/Client/Pin.antt =====
-- cmd/vitrum/provision.go: dialPinned, dialTOFU and dialCallback, over the file of the pinned host
-- key.
pub mod Agree
use vitrum.Base.{
  ℕ, List, [], ◌∷◌, Bool, true, false, ◌&&◌, not, Option, none, some, if◌then◌else◌, take,
}
use vitrum.Base.Bytes.{Bytes, bytes_eq}
use vitrum.Base.Result.{Result, ok, err}

-- ssh.ParseAuthorizedKey and ssh.MarshalAuthorizedKey.
pub record HostKeys : Type 0 where
  pub parse_key : Bytes → Option Bytes
  pub marshal_key : Bytes → Bytes

-- What the host and the network do during one dial: the key that the device presents, if the
-- connection gets that far, and whether the handshake ends well; what other processes have made of
-- the file since the last dial, `none` when they left it; whether it can be read, what another
-- process has put there since it was found missing, and how each call of the pairing ends. A Write
-- that fails has landed in part.
pub record Attempt : Type 0 where
  pub presented : Option Bytes
  pub connects : Bool
  pub replaced : Option (Option Bytes)
  pub can_read : Bool
  pub can_make_dir : Bool
  pub appeared : Option Bytes
  pub can_create : Bool
  pub can_write : Bool
  pub landed : ℕ
  pub can_close : Bool
  pub can_remove : Bool

pub data DialError : Type 0 where
  no_pin bad_pin dial_failed no_directory pin_failed : DialError

-- The pin file, absent or with its contents.
abbrev pub Pin : Type 0
Pin = Option Bytes

-- A client is known by the key of the device that it is connected to.
abbrev pub Client : Type 0
Client = Bytes

-- dialCallback, with a callback that accepts some keys.
unfoldable pub verify_host : Attempt → (Bytes → Bool) → Option Bytes → Option Client
verify_host a accepts none = none
verify_host a accepts (some key) = if accepts key && a.connects then some key else none

abbrev pub dial_callback : Attempt → (Bytes → Bool) → Option Client
dial_callback a accepts = verify_host a accepts a.presented

-- ssh.FixedHostKey.
abbrev pub fixed_host_key : Bytes → Bytes → Bool
fixed_host_key pinned key = bytes_eq pinned key

abbrev pub or_dial_failed : Option Client → Result DialError Client
or_dial_failed none = err dial_failed
or_dial_failed (some c) = ok c

-- os.Remove.
abbrev pub removed : Attempt → Pin → Pin
removed a pin = if a.can_remove then none else pin

-- The file that a dial reads.
abbrev pub at_dial : Attempt → Pin → Pin
at_dial a pin = elim a.replaced [ none ↦ pin | some other ↦ other ]

-- The file at the time of its creation. One that was read is not opened again by the dial.
abbrev pub found : Attempt → Pin → Pin
found a none = a.appeared
found a (some b) = some b

module _ (keys : HostKeys) where
  -- With the file created: Write and Close.
  unfoldable pub write_pin : Attempt → Client → Pin × Result DialError Client
  write_pin a key =
      let text = keys.marshal_key key in
      if not a.can_write
      then (removed a (some (take a.landed text)), err pin_failed)
      else if not a.can_close
      then (removed a (some text), err pin_failed)
      else (some text, ok key)

  -- OpenFile with O_CREATE and O_EXCL.
  unfoldable pub create_pin : Attempt → Client → Pin → Pin × Result DialError Client
  unfolding write_pin
  create_pin a key (some b) = (some b, err pin_failed)
  create_pin a key none = if a.can_create then write_pin a key else (none, err pin_failed)

  unfoldable pub pair : Attempt → Pin → Option Client → Pin × Result DialError Client
  unfolding create_pin
  pair a pin none = (found a pin, err dial_failed)
  pair a pin (some key) =
      if a.can_make_dir then create_pin a key (found a pin) else (found a pin, err no_directory)

  unfoldable pub dial_tofu : Attempt → Pin → Pin × Result DialError Client
  unfolding pair verify_host
  dial_tofu a pin = pair a pin (dial_callback a (λ key. true))

  abbrev pub dial_parsed : Attempt → Option Bytes → Result DialError Client
  dial_parsed a none = err bad_pin
  dial_parsed a (some key) = or_dial_failed (dial_callback a (fixed_host_key key))

  -- A file that is missing or cannot be read.
  unfoldable pub dial_pinned : Bool → Attempt → Pin → Pin × Result DialError Client
  unfolding dial_tofu verify_host
  dial_pinned tofu a none =
      if a.can_read && tofu then dial_tofu a none else (found a none, err no_pin)
  dial_pinned tofu a (some b) =
      if a.can_read then (some b, dial_parsed a (keys.parse_key b)) else (some b, err no_pin)

  -- One dial behind the other, each with its -tofu flag, and the keys of the clients.
  unfoldable pub dials : Pin → List (Bool × Attempt) → List (Result DialError Client)
  unfolding dial_pinned
  dials pin [] = []
  dials pin ((tofu, a) ∷ r) =
      let (after, got) = dial_pinned tofu a (at_dial a pin) in got ∷ dials after r
