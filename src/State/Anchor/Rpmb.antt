-- ===== src/State/Anchor/Rpmb.antt =====
-- internal/state/anchor_rpmb.go: the anchor record in an RPMB sector. The driver
-- github.com/usbarmory/rpmb is a parameter.
use vitrum.Base.{
  ℕ, ◌+◌, ◌<◌, ◌≡◌, refl, sym, ◌∙◌, ◌++◌, Bool, true, not, Option, none, some, leb, take, drop,
  replicate, length, if◌then◌else◌, arith, take-all,
}
use vitrum.Base.Bytes.{Bytes, codes, bytes_eq}
use vitrum.Base.Word.{be_put_uint32, be_uint32, be_uint32-put}
use vitrum.Base.Result.{Result, ok, err}
use vitrum.State.{Error, not_bound, not_monotonic, unknown_format, anchor_io}
use vitrum.State.Anchor.{AnchorState, fresh, Anchor, IsAnchor, IsWord}

-- (*rpmb.RPMB).Read of so many bytes of a sector, and Write. A failed Write may have landed.
pub record Rpmb (R : Type 0) : Type 0 where
  pub read : R → ℕ → ℕ → Option Bytes
  pub write : R → ℕ → Bytes → R × Bool

-- A successful authenticated write is what the sector reads from then on.
pub record IsRpmb {R : Type 0} (p : Rpmb R) : Type 0 where
  pub read-write :
      (r r' : R) (sector : ℕ) (buf : Bytes)
      → p.write r sector buf ≡ (r', true)
      → p.read r' sector (length buf) ≡ some buf

abbrev pub rpmb_anchor_sector : ℕ
rpmb_anchor_sector = 1

abbrev pub anchor_magic : Bytes
anchor_magic = codes "VITRUMA2"

abbrev pub anchor_record_len : ℕ
anchor_record_len = 4 + 8 + 32

-- The two directions of the record, out of Anchor and SetAnchor.
unfoldable pub decode_record : Bytes → Result Error AnchorState
decode_record buf =
    if bytes_eq buf (replicate anchor_record_len 0)
    then ok fresh
    else if not (bytes_eq (take 8 (drop 4 buf)) anchor_magic)
    then err unknown_format
    else ok (record { generation = be_uint32 buf; blob_hash = take 32 (drop 12 buf); bound = true })

unfoldable pub encode_record : AnchorState → Bytes
encode_record next = be_put_uint32 next.generation ++ (anchor_magic ++ next.blob_hash)

module _ {R : Type 0} (p : Rpmb R) where
  unfoldable pub read_anchor : R → Result Error AnchorState
  unfolding decode_record
  read_anchor r = elim (p.read r rpmb_anchor_sector anchor_record_len) [
    | none ↦ err anchor_io
    | some buf ↦ decode_record buf
  ]

  write_record : R → AnchorState → R × Option Error
  write_record r next =
      let (r', done) = p.write r rpmb_anchor_sector (encode_record next) in
      (r', if done then none else some anchor_io)

  -- SetAnchor, once the current record is read.
  unfoldable pub set_over : R → Result Error AnchorState → AnchorState → R × Option Error
  unfolding write_record
  set_over r (err e) next = (r, some e)
  set_over r (ok cur) next =
      if not next.bound
      then (r, some not_bound)
      else if leb next.generation cur.generation
      then (r, some not_monotonic)
      else write_record r next

  unfoldable pub write_anchor : R → AnchorState → R × Option Error
  unfolding set_over
  write_anchor r next = set_over r (read_anchor r) next

pub decode_record-encode_record :
    (s : AnchorState) → IsWord s → s.bound ≡ true → decode_record (encode_record s) ≡ ok s
unfolding decode_record encode_record bytes_eq
decode_record-encode_record s w b = ground (
  arith,
  be_uint32-put s.generation (anchor_magic ++ s.blob_hash),
  take-all 32 s.blob_hash w.blob_hash,
)

module _ {R : Type 0} (p : Rpmb R) where
  unfoldable pub rpmb_anchor : Anchor R
  rpmb_anchor = record { anchor = read_anchor p; set_anchor = write_anchor p }

  -- What a SetAnchor without an error has checked and done.
  set_over-eq-none :
      (r r' : R) (c : Result Error AnchorState) (next : AnchorState)
      → set_over p r c next ≡ (r', none)
      → (s : AnchorState) × (c ≡ ok s)
        × (s.generation < next.generation)
        × (next.bound ≡ true)
        × (p.write r rpmb_anchor_sector (encode_record next) ≡ (r', true))
  unfolding set_over
  set_over-eq-none r r' (err e) next h = cc
  set_over-eq-none r r' (ok s) next h = (s, refl, ground arith, ground arith, ground arith)

length-encode_record : (s : AnchorState) → IsWord s → length (encode_record s) ≡ anchor_record_len
unfolding encode_record
length-encode_record s w = omega (arith, w.blob_hash)

read_anchor-write :
    {R : Type 0} (p : Rpmb R) (r : R) (s : AnchorState)
    → p.read r rpmb_anchor_sector (length (encode_record s)) ≡ some (encode_record s)
    → IsWord s
    → s.bound ≡ true
    → read_anchor p r ≡ ok s
unfolding read_anchor
read_anchor-write p r s h w b =
    rw (rw (length-encode_record s w) at h, read_anchor) (decode_record-encode_record s w b)

-- Over an RPMB driver that keeps what it wrote, for a state of a uint32 generation and a digest
-- of 32 bytes: after a SetAnchor that returns no error, Anchor reads the new state back, the
-- state was bound to a blob, and the anchor had a smaller generation before.
pub write_anchor-read_anchor :
    {R : Type 0} (p : Rpmb R)
    → IsRpmb p
    → (r r' : R) (next : AnchorState) → IsWord next
    → write_anchor p r next ≡ (r', none)
    → (read_anchor p r' ≡ ok next)
      × (next.bound ≡ true)
      × ((s : AnchorState) × (read_anchor p r ≡ ok s) × (s.generation < next.generation))
unfolding write_anchor
write_anchor-read_anchor p d r r' next w h =
    let (s, e, less, b, done) = set_over-eq-none p r r' (read_anchor p r) next h in
    (
      read_anchor-write p r' next (d.read-write r r' 1 (encode_record next) done) w b,
      b,
      (s, e, less),
    )

-- Over a driver that keeps what it wrote, the RPMB anchor is an anchor.
pub rpmb_anchor-IsAnchor : {R : Type 0} (p : Rpmb R) → IsRpmb p → IsAnchor (rpmb_anchor p)
unfolding rpmb_anchor write_anchor
rpmb_anchor-IsAnchor p d = record {
  read_back = λ r r' next w h. (write_anchor-read_anchor p d r r' next w h).0;
  advances = λ r r' s next e h.
      let (s', e', less, b, done) = set_over-eq-none p r r' (read_anchor p r) next h in
      (ground (arith, sym e ∙ e'), b);
}
