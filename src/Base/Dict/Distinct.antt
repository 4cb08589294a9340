-- ===== src/Base/Dict/Distinct.antt =====
-- Go maps have each key once: what that gives for loops over them.
use vitrum.Base.Bytes.{Bytes, bytes_eq, bytes_eq_iff}
use vitrum.Base.Dict.{Dict, has, lookup, insert, insert_all, keys, lookup-insert}
use mathlib.Core.Path.{◌≡◌, refl}
use mathlib.Core.Bool.{false, ◌||◌}
use mathlib.Core.Option.{Option, none, some}
use mathlib.Core.List.{[], ◌∷◌}
use native.Mathlib.Omega.{arith}

abbrev pub or_else {ℓ} : {V : Type ℓ} → Option V → Option V → Option V
or_else (some v) o = some v
or_else none o = o

pub or_else-none {ℓ} : {V : Type ℓ} (o : Option V) → or_else o none ≡ o
or_else-none none = refl
or_else-none (some x) = refl

-- No key stands twice.
abbrev pub Distinct {ℓ} : {V : Type ℓ} → Dict V → Type 0
Distinct [] = Unit
Distinct ((k, v) ∷ m) = (has k (keys m) ≡ false) × Distinct m

module _ {ℓ} {V : Type ℓ} where
  pub has-keys-insert :
      (k j : Bytes) (v : V) (m : Dict V)
      → has k (keys (insert j v m)) ≡ (bytes_eq j k || has k (keys m))
  unfolding has keys insert
  has-keys-insert k j v [] = refl
  has-keys-insert k j v ((i, w) ∷ m) = ground (arith, has-keys-insert k j v m, bytes_eq_iff i j)

  pub insert-Distinct : (j : Bytes) (v : V) (m : Dict V) → Distinct m → Distinct (insert j v m)
  unfolding insert keys has
  insert-Distinct j v [] h = (refl, tt)
  insert-Distinct j v ((i, w) ∷ m) h = ground (
    arith,
    insert-Distinct j v m h.1,
    has-keys-insert i j v m,
    bytes_eq_iff i j,
    bytes_eq_iff j i,
  )

  pub insert_all-Distinct : (u m : Dict V) → Distinct m → Distinct (insert_all u m)
  unfolding insert_all
  insert_all-Distinct [] m h = h
  insert_all-Distinct ((k, v) ∷ u) m h =
      insert_all-Distinct u (insert k v m) (insert-Distinct k v m h)

  pub lookup-not-has : (k : Bytes) (m : Dict V) → has k (keys m) ≡ false → lookup k m ≡ none
  unfolding has keys lookup
  lookup-not-has k [] h = refl
  lookup-not-has k ((j, v) ∷ m) h = ground (arith, lookup-not-has k m)

  -- After the loop, a key that the first map has carries that map's value.
  pub lookup-insert_all :
      (k : Bytes) (u m : Dict V)
      → Distinct u
      → lookup k (insert_all u m) ≡ or_else (lookup k u) (lookup k m)
  unfolding lookup insert_all
  lookup-insert_all k [] m h = refl
  lookup-insert_all k ((j, v) ∷ u) m (h, hu) = ground (
    arith,
    lookup-insert_all k u (insert j v m) hu,
    lookup-insert j k v m,
    bytes_eq_iff j k,
    lookup-not-has j u h,
  )
