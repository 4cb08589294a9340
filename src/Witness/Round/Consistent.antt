-- ===== src/Witness/Round/Consistent.antt =====
-- internal/witness: which proofs addToPool takes, by the old size that a request names.
use vitrum.Base.{ℕ, ◌<◌, List, [], true, Option, ◌≡◌, arith}
use vitrum.Base.Bytes.{Bytes, bytes_eq_iff}
use vitrum.Base.Int.{pos}
use vitrum.Witness.{Checkpoint, LogState}
use vitrum.Witness.Pool.{Logic, latest_hash, consistent}

module _ (g : Logic) (prev : Option LogState) (note : Bytes) (cp : Checkpoint) (n : ℕ)
    (sized : cp.n ≡ pos n) (positive : 0 < n) where
  -- The first checkpoint of a log needs no proof.
  pub consistent_first :
      consistent g prev (record { old = pos 0; proof = []; note = note }) cp ≡ true
  unfolding consistent
  consistent_first = rw sized (ground arith)

  -- Nor does the same tree once more.
  pub consistent_same :
      cp.hash ≡ latest_hash prev
      → consistent g prev (record { old = pos n; proof = []; note = note }) cp ≡ true
  unfolding consistent
  consistent_same same = rw sized (ground (arith, (bytes_eq_iff cp.hash (latest_hash prev)).1 same))

  -- A larger tree is taken just when tlog.CheckTree takes its proof.
  pub consistent_larger :
      (old : ℕ) (proof : List Bytes)
      → 0 < old
      → old < n
      → consistent g prev (record { old = pos old; proof = proof; note = note }) cp
        ≡ g.check_tree proof (pos n) cp.hash (pos old) (latest_hash prev)
  unfolding consistent
  consistent_larger old proof some_old grows = rw sized (ground arith)
