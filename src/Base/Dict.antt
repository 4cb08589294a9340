-- ===== src/Base/Dict.antt =====
-- Go maps with string keys, as association lists. A `range` loop goes through the list: the order
-- of the entries stands for the order in which Go happens to go through them.
use Prim.Native.Nat.{ℕ, zero, suc, ◌≤◌}
pub mod Distinct
use mathlib.Core.Path.{◌≡◌, refl}
use mathlib.Core.Bool.{Bool, true, false, ◌||◌}
use mathlib.Core.Option.{Option, none, some}
use mathlib.Core.List.{List, [], ◌∷◌, ◌++◌, foldl}
use native.Mathlib.Omega.{arith}
use vitrum.Base.Test.{if◌then◌else◌}
use vitrum.Base.Seq.{length}
use vitrum.Base.Bytes.{Bytes, bytes_eq, bytes_eq_iff}

abbrev pub Dict {ℓ} : Type ℓ → Type ℓ
Dict V = List (Bytes × V)

-- Whether a list of keys has the key.
unfoldable pub has : Bytes → List Bytes → Bool
has k [] = false
has k (j ∷ l) = bytes_eq j k || has k l

module _ {ℓ} {V : Type ℓ} where
  -- m[k], with the second value of Go's two-value form as the constructor.
  unfoldable pub lookup : Bytes → Dict V → Option V
  lookup k [] = none
  lookup k ((j, v) ∷ m) = if bytes_eq j k then some v else lookup k m

  -- m[k] = v
  unfoldable pub insert : Bytes → V → Dict V → Dict V
  insert k v [] = (k, v) ∷ []
  insert k v ((j, w) ∷ m) = if bytes_eq j k then (k, v) ∷ m else (j, w) ∷ insert k v m

  -- for k, v := range updates { m[k] = v }
  unfoldable pub insert_all : Dict V → Dict V → Dict V
  unfolding insert
  insert_all [] m = m
  insert_all ((k, v) ∷ u) m = insert_all u (insert k v m)

  unfoldable pub keys : Dict V → List Bytes
  keys [] = []
  keys ((k, v) ∷ m) = k ∷ keys m

  pub lookup-insert :
      (k j : Bytes) (v : V) (m : Dict V)
      → lookup j (insert k v m) ≡ (if bytes_eq k j then some v else lookup j m)
  unfolding lookup insert
  lookup-insert k j v [] = refl
  lookup-insert k j v ((i, w) ∷ m) =
      ground (arith, bytes_eq_iff k j, bytes_eq_iff i k, bytes_eq_iff i j, lookup-insert k j v m)

  pub lookup-none-has : (k : Bytes) (m : Dict V) → lookup k m ≡ none → has k (keys m) ≡ false
  unfolding lookup has keys
  lookup-none-has k [] h = refl
  lookup-none-has k ((j, v) ∷ m) h = ground (arith, lookup-none-has k m)

  pub lookup-some-has :
      (k : Bytes) (m : Dict V) (v : V) → lookup k m ≡ some v → has k (keys m) ≡ true
  unfolding lookup has keys
  lookup-some-has k [] v h = cc
  lookup-some-has k ((j, w) ∷ m) v h = ground (arith, lookup-some-has k m v)
