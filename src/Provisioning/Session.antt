-- ===== src/Provisioning/Session.antt =====
-- internal/provision/server.go: NewServer, the requests of a session, and the channels of a
-- connection in the order in which their commands run.
pub mod Guarded
use vitrum.Base.{
  ℕ, List, [], ◌∷◌, not, Bool, true, false, Option, none, some, ◌==◌, if◌then◌else◌, length,
}
use vitrum.Base.Bytes.{Bytes, codes, bytes_eq}
use vitrum.Base.Int.{ℤ}
use vitrum.Base.Result.{Result, ok, err}
use vitrum.Witness.Logs.{Store}
use vitrum.Witness.Pool.{Witness, Logic}
use vitrum.Provisioning.{Keys, Clock, Device, Answer, exec, seed_size}

-- `none` is a nil witness and a start of zero.
pub record Config (S : Type 0) : Type 0 where
  pub host_seed : Bytes
  pub witness : Option (Witness S)
  pub start : Option ℤ

pub data ServerError : Type 0 where
  bad_seed_size : ℕ → ServerError
  nil_witness bad_host_key : ServerError

-- The public host key, the slice of its private key, which no command reaches and nothing zeroes,
-- and the device with the memory of the commands.
pub record Server (S C : Type 0) : Type 0 where
  pub host_key : Bytes
  pub host_private : Bytes
  pub device : Device S C

-- A request: exec with its command, if the payload unmarshals, or one of another type.
pub data ChannelRequest : Type 0 where
  exec_request : Option Bytes → ChannelRequest
  other_request : ChannelRequest

-- What a session sends: its replies, and the answer of the command that it ran.
pub record Session : Type 0 where
  pub replies : List Bool
  pub ran : Option Answer

-- A channel of a connection: its type, whether Accept succeeds, the input and the requests.
pub record Channel : Type 0 where
  pub kind : Bytes
  pub accepts : Bool
  pub stdin : List Bytes
  pub reqs : List ChannelRequest

-- What becomes of a channel.
pub data Handled : Type 0 where
  rejected dropped : Handled
  served : Session → Handled

module _ {S I C : Type 0} (g : Logic) (store : Store S I) (keys : Keys) (clock : Clock C) where
  abbrev start_of : C → Option ℤ → ℤ
  start_of c none = clock.now c
  start_of c (some t) = t

  abbrev started : Config S → C → Witness S → Option Bytes → Result ServerError (Server S C)
  started cfg c w none = err bad_host_key
  started cfg c w (some host) = ok (record {
    host_key = host;
    host_private = keys.new_key cfg.host_seed;
    device = record {
      witness = w;
      memory = λ a. [];
      next = 0;
      signers = λ k. none;
      priv = none;
      clock = c;
      start = start_of c cfg.start;
    };
  })

  abbrev with_witness :
      (Bytes → Option Bytes) → Config S → C → Option (Witness S) → Result ServerError (Server S C)
  with_witness host_signer cfg c none = err nil_witness
  with_witness host_signer cfg c (some w) =
      started cfg c w (host_signer (keys.new_key cfg.host_seed))

  -- `host_signer` is ssh.NewSignerFromSigner on a private key, with its public key.
  unfoldable pub new_server :
      (Bytes → Option Bytes) → Config S → C → Result ServerError (Server S C)
  new_server host_signer cfg c =
      if length cfg.host_seed == seed_size
      then with_witness host_signer cfg c cfg.witness
      else err (bad_seed_size (length cfg.host_seed))

  abbrev replied : Bool → Device S C × Session → Device S C × Session
  replied b (d, s) = (d, record s { replies = b ∷ s.replies })

  abbrev answered : Device S C × Answer → Device S C × Session
  answered (d, a) = (d, record { replies = true ∷ []; ran = some a })

  unfoldable pub handle_session :
      Device S C → List Bytes → List ChannelRequest → Device S C × Session
  unfolding exec
  handle_session d stdin [] = (d, record { replies = []; ran = none })
  handle_session d stdin (exec_request none ∷ r) = (d, record { replies = false ∷ []; ran = none })
  handle_session d stdin (exec_request (some command) ∷ r) =
      answered (exec g store keys clock d stdin command)
  handle_session d stdin (other_request ∷ r) = replied false (handle_session d stdin r)

  abbrev serve_session : Device S C × Session → Device S C × Handled
  serve_session (d, s) = (d, served s)

  unfoldable pub handle_channel : Device S C → Channel → Device S C × Handled
  unfolding handle_session
  handle_channel d ch =
      if not (bytes_eq ch.kind (codes "session"))
      then (d, rejected)
      else if not ch.accepts
      then (d, dropped)
      else serve_session (handle_session d ch.stdin ch.reqs)

  abbrev and_then :
      Device S C × Handled → (Device S C → Device S C × List Handled) → Device S C × List Handled
  and_then (d, x) f = let r = f d in (r.0, x ∷ r.1)

  unfoldable pub handle_channels : Device S C → List Channel → Device S C × List Handled
  unfolding handle_channel
  handle_channels d [] = (d, [])
  handle_channels d (ch ∷ r) = and_then (handle_channel d ch) (λ v. handle_channels v r)

  -- A connection, with its channels unless the handshake fails.
  unfoldable pub handle_conn : Device S C → Option (List Channel) → Device S C × List Handled
  unfolding handle_channels
  handle_conn d none = (d, [])
  handle_conn d (some channels) = handle_channels d channels
