-- ===== src/Base/Result.antt =====
-- Go's pair of a value and an error, of which one is meaningful.
use mathlib.Core.Path.{◌≡◌, refl}
use mathlib.Core.Logic.{◌⊎◌, inl, inr}

pub data Result {ℓ κ} (E : Type ℓ) (A : Type κ) : Type (ℓ ⊔ κ) where
  ok : A → Result E A
  err : E → Result E A

-- `if err != nil { return err }` between two steps.
infixl 5 ◌>>=◌
abbrev pub ◌>>=◌ {ℓ κ μ} :
    {X : Type ℓ} {V : Type κ} {W : Type μ} → Result X V → (V → Result X W) → Result X W
err x >>= next = err x
ok v >>= next = next v

module _ {ℓ κ} {X : Type ℓ} {V : Type κ} where
  pub Result-cases : (r : Result X V) → ((v : V) × (r ≡ ok v)) ⊎ ((x : X) × (r ≡ err x))
  Result-cases (err x) = inr (x, refl)
  Result-cases (ok v) = inl (v, refl)

-- A chain without an error: the first step has a value, from which the second makes the result.
pub >>=-eq-ok {ℓ κ μ} :
    {X : Type ℓ} {V : Type κ} {W : Type μ} (r : Result X V) (next : V → Result X W) {w : W}
    → (r >>= next) ≡ ok w
    → (v : V) × (r ≡ ok v) × (next v ≡ ok w)
>>=-eq-ok (err x) next e = cc
>>=-eq-ok (ok v) next e = (v, refl, e)
