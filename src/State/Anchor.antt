-- ===== src/State/Anchor.antt =====
-- internal/state/anchor.go and anchor_mem.go: the Anchor interface, its laws, and MemAnchor.
pub mod Rpmb
use vitrum.Base.{
  ℕ, ◌<◌, ◌≤◌, ◌≡◌, Bool, true, false, not, Option, none, some, leb, if◌then◌else◌, arith,
  replicate, length,
}
use vitrum.Base.Bytes.{Bytes}
use vitrum.Base.Word.{IsU32}
use vitrum.Base.Result.{Result, ok, err}
use vitrum.State.{Error, not_bound, not_monotonic}

pub record AnchorState : Type 0 where
  pub generation : ℕ
  pub blob_hash : Bytes
  pub bound : Bool

-- The zero value: generation 0, the zero hash, not bound.
abbrev pub fresh : AnchorState
fresh = record { generation = 0; blob_hash = replicate 32 0; bound = false }

-- `A` is the state of the anchor. `none` is a nil error; a failed write may have changed the state.
pub record Anchor (A : Type 0) : Type 0 where
  pub anchor : A → Result Error AnchorState
  pub set_anchor : A → AnchorState → A × Option Error

-- Go's types say so much of an AnchorState: a uint32 and an array of 32 bytes.
pub record IsWord (s : AnchorState) : Type 0 where
  pub generation : IsU32 s.generation
  pub blob_hash : length s.blob_hash ≡ 32

-- What the interface documents: a successful SetAnchor is read back, and only advances.
pub record IsAnchor {A : Type 0} (n : Anchor A) : Type 0 where
  pub read_back :
      (a a' : A) (next : AnchorState)
      → IsWord next
      → n.set_anchor a next ≡ (a', none)
      → n.anchor a' ≡ ok next
  pub advances :
      (a a' : A) (s next : AnchorState)
      → n.anchor a ≡ ok s
      → n.set_anchor a next ≡ (a', none)
      → (s.generation < next.generation) × (next.bound ≡ true)

-- (*MemAnchor).SetAnchor
unfoldable pub mem_set_anchor : AnchorState → AnchorState → AnchorState × Option Error
mem_set_anchor s next =
    if not next.bound
    then (s, some not_bound)
    else if leb next.generation s.generation
    then (s, some not_monotonic)
    else (next, none)

unfoldable pub mem_anchor : Anchor AnchorState
unfolding mem_set_anchor
mem_anchor = record { anchor = ok; set_anchor = mem_set_anchor }

-- MemAnchor is an anchor.
pub mem_anchor-IsAnchor : IsAnchor mem_anchor
unfolding mem_anchor
mem_anchor-IsAnchor = record {
  read_back = λ a a' next w h. ground arith;
  advances = λ a a' s next r h. (ground arith, ground arith);
}
