-- ===== src/Witness.antt =====
-- internal/witness: the types that its files share.
pub mod Http
pub mod Logs
pub mod Note
pub mod Pool
pub mod Protocol
pub mod Request
pub mod Round
pub mod Sequencer
pub mod Status
use vitrum.Base.Bytes.{Bytes}
use vitrum.Base.Int.{ℤ}

-- The fields of torchwood.Checkpoint that the code reads: Origin, N and Hash.
pub record Checkpoint : Type 0 where
  pub origin : Bytes
  pub n : ℤ
  pub hash : Bytes

-- The witness's view of a single log.
pub record LogState : Type 0 where
  pub size : ℤ
  pub hash : Bytes
  pub note : Bytes
