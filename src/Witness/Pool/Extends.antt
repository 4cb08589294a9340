-- ===== src/Witness/Pool/Extends.antt =====
-- internal/witness: when a checkpoint extends what is stored for its log.
use vitrum.Base.{◌≡◌, sym, ◌∙◌, ◌⊎◌, inl, inr, List, true, false, Option, arith}
use vitrum.Base.Bytes.{Bytes, bytes_eq_iff}
use vitrum.Base.Int.{pos, int_lt, int_eq_iff}
use vitrum.Witness.{Checkpoint, LogState}
use vitrum.Witness.Request.{Request}
use vitrum.Witness.Pool.{Logic, latest_size, latest_hash, consistent}

module _ (g : Logic) where
  -- What makes a checkpoint an extension of a log's state, whatever was sent with it.
  pub data IsConsistent (prev : Option LogState) (cp : Checkpoint) : Type 0 where
    empty_tree : cp.n ≡ pos 0 → cp.hash ≡ g.empty_tree_hash → IsConsistent prev cp
    same_tree : latest_size prev ≡ cp.n → latest_hash prev ≡ cp.hash → IsConsistent prev cp
    first_sighting : latest_size prev ≡ pos 0 → IsConsistent prev cp
    proved :
        (proof : List Bytes)
        → g.check_tree proof cp.n cp.hash (latest_size prev) (latest_hash prev) ≡ true
        → IsConsistent prev cp

  -- It is consistent and does not shrink the log.
  unfoldable pub IsExtension : Option LogState → Checkpoint → Type 0
  IsExtension prev cp = (int_lt cp.n (latest_size prev) ≡ false) × IsConsistent prev cp

  consistent-cases :
      (prev : Option LogState) (req : Request) (cp : Checkpoint)
      → consistent g prev req cp ≡ true
      → (cp.n ≡ pos 0 × (cp.hash ≡ g.empty_tree_hash))
        ⊎ ((req.old ≡ cp.n × (cp.hash ≡ latest_hash prev))
            ⊎ (req.old ≡ pos 0
                ⊎ (g.check_tree req.proof cp.n cp.hash req.old (latest_hash prev) ≡ true)))
  unfolding consistent
  consistent-cases prev req cp h = ground (
    arith,
    int_eq_iff cp.n (pos 0),
    int_eq_iff req.old cp.n,
    int_eq_iff req.old (pos 0),
    bytes_eq_iff cp.hash g.empty_tree_hash,
    bytes_eq_iff cp.hash (latest_hash prev),
  )

  pub consistent-IsConsistent :
      (prev : Option LogState) (req : Request) (cp : Checkpoint)
      → consistent g prev req cp ≡ true
      → req.old ≡ latest_size prev
      → IsConsistent prev cp
  consistent-IsConsistent prev req cp h e = elim (consistent-cases prev req cp h) [
    | inl p ↦ empty_tree p.0 p.1
    | inr (inl p) ↦ same_tree (sym e ∙ p.0) (sym p.1)
    | inr (inr (inl p)) ↦ first_sighting (sym e ∙ p)
    | inr (inr (inr p)) ↦ proved req.proof (rw (sym e) p)
  ]
