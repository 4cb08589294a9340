-- ===== src/State.antt =====
-- internal/state: what its files share, the errors and the constants of blob.go.
pub mod Codec
pub mod Blob
pub mod Store
pub mod Anchor
use vitrum.Base.{ℕ, ◌+◌, ◌*◌}
use vitrum.Base.Bytes.{Bytes, codes}

-- The errors of the package. `out_of_fuel` is no error of the source: it would mean that the loop
-- of `decode` had not ended.
pub data Error : Type 0 where
  bad_key_length bad_nonce blob_too_large unsupported_block_size device_too_small : Error
  origin_too_long note_too_long : Error
  truncated_origin_length truncated_origin truncated_note : Error
  write_failed read_failed no_state bad_magic bad_length auth_failed : Error
  not_bound not_monotonic unknown_format anchor_io : Error
  bad_note wrong_origin halted : Error
  out_of_fuel : Error
