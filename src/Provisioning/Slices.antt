-- ===== src/Provisioning/Slices.antt =====
-- internal/provision/server.go: slices by their address, and zero.
use vitrum.Base.{
  ℕ, List, [], ◌∷◌, ◌++◌, false, Option, none, some, ◌≡◌, ◌≢◌, refl, ap, sym, map, ==-refl,
  Bool-cases, inl, inr, ◌==◌, if◌then◌else◌, All, arith,
}
use vitrum.Base.Bytes.{Bytes}

-- What the slice at each address holds; nothing where none was made.
abbrev pub Memory : Type 0
Memory = ℕ → Bytes

-- A slice that is made, or written.
unfoldable pub put_slice : ℕ → Bytes → Memory → Memory
put_slice a b m = λ i. if i == a then b else m i

-- zero, on a slice.
abbrev pub zeros : Bytes → Bytes
zeros b = map (λ (x : ℕ). 0) b

unfoldable pub zero : ℕ → Memory → Memory
zero a m = λ i. if i == a then zeros (m i) else m i

-- zero, on a slice or nil.
unfoldable pub zero_pointer : Option ℕ → Memory → Memory
unfolding zero
zero_pointer none m = m
zero_pointer (some a) m = zero a m

abbrev pub IsZero : Bytes → Type 0
IsZero b = All (λ x. x ≡ 0) b

-- Every slice is zero, but for those at the addresses.
abbrev pub IsClean : List ℕ → Memory → Type 0
IsClean l m = (i : ℕ) → All (λ a. i ≢ a) l → IsZero (m i)

abbrev pub to_list : Option ℕ → List ℕ
to_list none = []
to_list (some a) = a ∷ []

zeros-IsZero : (b : Bytes) → IsZero (zeros b)
zeros-IsZero [] = tt
zeros-IsZero (x ∷ b) = (refl, zeros-IsZero b)

-- Writing a slice may make it a secret.
pub put_slice-IsClean :
    (a : ℕ) (b : Bytes) (m : Memory) (l : List ℕ) → IsClean l m → IsClean (a ∷ l) (put_slice a b m)
unfolding put_slice
put_slice-IsClean a b m l h i (apart, rest) =
    let e : (i == a) ≡ false = ground arith in rw e (h i rest)

-- Zeroing a slice ends that.
pub zero-IsClean : (a : ℕ) (m : Memory) (l : List ℕ) → IsClean (a ∷ l) m → IsClean l (zero a m)
unfolding zero
zero-IsClean a m l h i rest = elim (Bool-cases (i == a)) [
  | inl e ↦ rw e (zeros-IsZero (m i))
  | inr e ↦ rw e (h i (ground arith, rest))
]

pub zero_pointer-IsClean :
    (p : Option ℕ) (m : Memory) (l : List ℕ)
    → IsClean (to_list p ++ l) m
    → IsClean l (zero_pointer p m)
unfolding zero_pointer
zero_pointer-IsClean none m l h = h
zero_pointer-IsClean (some a) m l h = zero-IsClean a m l h

-- Zeroing leaves the other slices.
pub zero_apart : (a i : ℕ) (m : Memory) → i ≢ a → zero a m i ≡ m i
unfolding zero
zero_apart a i m h = let e : (i == a) ≡ false = ground arith in rw e refl

pub zero_pointer_apart : (p : Option ℕ) (i : ℕ) (m : Memory) → p ≢ some i → zero_pointer p m i ≡ m i
unfolding zero_pointer
zero_pointer_apart none i m h = refl
zero_pointer_apart (some a) i m h = zero_apart a i m (λ e. h (ap some (sym e)))

pub put_slice_own : (a : ℕ) (b : Bytes) (m : Memory) → put_slice a b m a ≡ b
unfolding put_slice
put_slice_own a b m = rw (==-refl a) refl
