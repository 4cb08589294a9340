-- ===== src/State/Codec/Total.antt =====
-- internal/state/blob.go: the loop of decode ends on every payload.
use vitrum.Base.{
  ℕ, zero, suc, ◌<◌, ◌≤◌, ◌≡◌, ◌≢◌, [], ◌∷◌, length, drop, arith, length-drop, inl, inr,
}
use vitrum.Base.Bytes.{Bytes}
use vitrum.Base.Word.{le_uint16, le_uint32}
use vitrum.Base.Dict.{Dict, insert}
use vitrum.Base.Result.{ok, err, Result-cases}
use vitrum.State.{out_of_fuel}
use vitrum.State.Codec.{decode_entry, decode_loop, decode}

-- A round takes something off the payload.
decode_entry-shorter : (p o n r : Bytes) → decode_entry p ≡ ok (o, n, r) → length r < length p
unfolding decode_entry
decode_entry-shorter p o n r h = ground (
  arith,
  length-drop 2 p,
  length-drop (le_uint16 p) (drop 2 p),
  length-drop 4 (drop (le_uint16 p) (drop 2 p)),
  length-drop (le_uint32 (drop (le_uint16 p) (drop 2 p))) (drop 4 (drop (le_uint16 p) (drop 2 p))),
)

decode_entry-ne-out_of_fuel : (p : Bytes) → decode_entry p ≢ err out_of_fuel
unfolding decode_entry
decode_entry-ne-out_of_fuel p h = ground arith

decode_loop-ne-out_of_fuel :
    (fuel : ℕ) (p : Bytes) (acc : Dict Bytes)
    → length p ≤ fuel
    → decode_loop fuel p acc ≢ err out_of_fuel
unfolding decode_loop
decode_loop-ne-out_of_fuel fuel [] acc h = λ e. cc
decode_loop-ne-out_of_fuel zero (b ∷ bs) acc h = absurd (omega arith)
decode_loop-ne-out_of_fuel (suc fuel) (b ∷ bs) acc h = elim (Result-cases (decode_entry (b ∷ bs))) [
  | inl ((o, n, r), e) ↦ rw e (
      decode_loop-ne-out_of_fuel fuel r (insert o n acc)
        (omega (arith, decode_entry-shorter (b ∷ bs) o n r e)))
  | inr (x, e) ↦ rw e (λ q. decode_entry-ne-out_of_fuel (b ∷ bs) (cc (e, q)))
]

-- On every payload, decode ends within the rounds that its loop is given, one for each byte of
-- the payload.
pub decode-ne-out_of_fuel : (payload : Bytes) → decode payload ≢ err out_of_fuel
unfolding decode
decode-ne-out_of_fuel payload = decode_loop-ne-out_of_fuel (length payload) payload [] (omega arith)
