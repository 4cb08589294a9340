-- ===== src/State/Codec.antt =====
-- internal/state/blob.go: encode and decode, the plaintext of a state blob.
pub mod RoundTrip
pub mod Total
use vitrum.Base.{
  ℕ, zero, suc, ◌+◌, ◌-◌, ◌^◌, List, [], ◌∷◌, ◌++◌, Option, none, some, length, take, drop, ltb,
  if◌then◌else◌,
}
use vitrum.Base.Bytes.{Bytes, bytes_lt}
use vitrum.Base.Word.{le_put_uint16, le_put_uint32, le_uint16, le_uint32}
use vitrum.Base.Dict.{Dict, lookup, insert, keys}
use vitrum.Base.Result.{Result, ok, err, ◌>>=◌}
use vitrum.State.{
  Error, origin_too_long, note_too_long, truncated_origin_length, truncated_origin, truncated_note,
  out_of_fuel,
}

-- slices.Sorted
unfoldable pub sorted_insert : Bytes → List Bytes → List Bytes
sorted_insert k [] = k ∷ []
sorted_insert k (j ∷ l) = if bytes_lt j k then j ∷ sorted_insert k l else k ∷ j ∷ l

unfoldable pub sorted : List Bytes → List Bytes
unfolding sorted_insert
sorted [] = []
sorted (k ∷ l) = sorted_insert k (sorted l)

-- states[origin], which is nil where the map has no such key.
abbrev pub note_of : Option Bytes → Bytes
note_of none = []
note_of (some n) = n

unfoldable pub encode_entry : Bytes → Bytes → Result Error Bytes
encode_entry origin note =
    if ltb 65535 (length origin)
    then err origin_too_long
    else if ltb (2 ^ 32 - 1) (length note)
    then err note_too_long
    else ok (le_put_uint16 (length origin) ++ (origin ++ (le_put_uint32 (length note) ++ note)))

unfoldable pub encode_loop : Dict Bytes → List Bytes → Result Error Bytes
unfolding encode_entry
encode_loop states [] = ok []
encode_loop states (origin ∷ rest) = do
  b ← encode_entry origin (note_of (lookup origin states))
  r ← encode_loop states rest
  ok (b ++ r)

unfoldable pub encode : Dict Bytes → Result Error Bytes
unfolding encode_loop sorted keys
encode states = encode_loop states (sorted (keys states))

-- One round of the loop of `decode`: the origin and the note, and the payload behind them.
unfoldable pub decode_entry : Bytes → Result Error (Bytes × Bytes × Bytes)
decode_entry payload =
    if ltb (length payload) 2
    then err truncated_origin_length
    else (let origin_len = le_uint16 payload in
        let rest = drop 2 payload in
        if ltb (length rest) (origin_len + 4)
        then err truncated_origin
        else (let after = drop origin_len rest in
            let note_len = le_uint32 after in
            let tail = drop 4 after in
            if ltb (length tail) note_len
            then err truncated_note
            else ok (take origin_len rest, take note_len tail, drop note_len tail)))

unfoldable pub decode_loop : ℕ → Bytes → Dict Bytes → Result Error (Dict Bytes)
unfolding decode_entry
decode_loop fuel [] states = ok states
decode_loop zero (b ∷ bs) states = err out_of_fuel
decode_loop (suc fuel) (b ∷ bs) states = do
  (origin, note, payload) ← decode_entry (b ∷ bs)
  decode_loop fuel payload (insert origin note states)

-- A round takes six bytes at least, so `length payload` rounds are enough.
unfoldable pub decode : Bytes → Result Error (Dict Bytes)
unfolding decode_loop
decode payload = decode_loop (length payload) payload []
