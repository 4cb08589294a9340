-- ===== src/Client/KeyFiles/Written.antt =====
-- cmd/vitrum/keygen.go and hostkey.go: what is in the files afterwards.
use vitrum.Base.{
  Bool, true, false, not, ◌&&◌, Option, none, some, ◌≡◌, ◌≢◌, refl, sym, if-elim, Option-cases, inl,
  inr, subst, arith,
}
use vitrum.Base.Bytes.{Bytes, bytes_eq, bytes_eq_iff, bytes_eq_refl}
use vitrum.Base.Dict.{lookup, insert, lookup-insert}
use vitrum.Client.KeyFiles.{
  Files, Write, whole, unopened, partial, KeygenError, seed_exists, write_file, write_both,
  is_there, with_text, with_random, generate,
}

other_key : (a b : Bytes) → a ≢ b → bytes_eq a b ≡ false
other_key a b h = ground (arith, (bytes_eq_iff a b).0, h)

-- Two files written whole, one behind the other.
module _ (a b x y : Bytes) (files : Files) (apart : a ≢ b) where
  first_kept : lookup a (insert b y (insert a x files)) ≡ some x
  first_kept =
      let other : bytes_eq b a ≡ false = other_key b a (λ e. apart (sym e)) in
      rw (lookup-insert b a y (insert a x files), other, lookup-insert a a x files, bytes_eq_refl a)
        refl

  second_there : lookup b (insert b y (insert a x files)) ≡ some y
  second_there = rw (lookup-insert b b y (insert a x files), bytes_eq_refl b) refl

-- What is there when no write failed.
abbrev pub AreWritten : Bytes → Bytes → Bytes → Bytes → Files × Option KeygenError → Type 0
AreWritten seed_path seed other_path other (files, some e) = Unit {0}
AreWritten seed_path seed other_path other (files, none) =
    (lookup seed_path files ≡ some seed) × (lookup other_path files ≡ some other)

write_both-AreWritten :
    (seed_first : Bool) (seed_path seed other_path other : Bytes) (w v : Write) (files : Files)
    → seed_path ≢ other_path
    → AreWritten seed_path seed other_path other
        (write_both seed_first seed_path seed other_path other w v files)
unfolding write_both write_file
write_both-AreWritten true p s q o whole whole files h =
    (first_kept p q s o files h, second_there p q s o files h)
write_both-AreWritten true p s q o whole unopened files h = tt
write_both-AreWritten true p s q o whole (partial n) files h = tt
write_both-AreWritten true p s q o unopened v files h = tt
write_both-AreWritten true p s q o (partial n) v files h = tt
write_both-AreWritten false p s q o whole whole files h =
    let apart : q ≢ p = λ e. h (sym e) in
    (second_there q p o s files apart, first_kept q p o s files apart)
write_both-AreWritten false p s q o unopened whole files h = tt
write_both-AreWritten false p s q o (partial n) whole files h = tt
write_both-AreWritten false p s q o w unopened files h = tt
write_both-AreWritten false p s q o w (partial n) files h = tt

-- Without -force an existing seed stays, with every other file.
generate_kept :
    (seed_first : Bool) (p q : Bytes) (w v : Write) (files : Files) (text_of : Bytes → Option Bytes)
    (random : Option Bytes) (seed : Bytes)
    → lookup p files ≡ some seed
    → generate false seed_first p q w v files text_of random ≡ (files, some seed_exists)
unfolding generate
generate_kept seed_first p q w v files text_of random seed e = rw e refl

-- A run without an error leaves the seed that was drawn, and the text that belongs to it.
abbrev pub AreGenerated :
    Bytes → Bytes → (Bytes → Option Bytes) → Option Bytes → Files × Option KeygenError → Type 0
AreGenerated p q text_of random (files, some e) = Unit {0}
AreGenerated p q text_of random (files, none) =
    (seed : Bytes) × (text : Bytes) × (random ≡ some seed)
    × (text_of seed ≡ some text)
    × (lookup p files ≡ some seed)
    × (lookup q files ≡ some text)

generated :
    (p q seed text : Bytes) (text_of : Bytes → Option Bytes) (r : Files × Option KeygenError)
    → text_of seed ≡ some text
    → AreWritten p seed q text r
    → AreGenerated p q text_of (some seed) r
generated p q seed text text_of (files, some e) t h = tt
generated p q seed text text_of (files, none) t h = (seed, text, refl, t, h.0, h.1)

with_random-AreGenerated :
    (force seed_first : Bool) (p q : Bytes) (w v : Write) (files : Files)
    (text_of : Bytes → Option Bytes) (random : Option Bytes)
    → p ≢ q
    → AreGenerated p q text_of random (with_random force seed_first p q w v files text_of random)
with_random-AreGenerated force seed_first p q w v files text_of none h = tt
with_random-AreGenerated force seed_first p q w v files text_of (some seed) h =
    elim (Option-cases (text_of seed)) [
      | inl e ↦ rw e tt
      | inr (text, e) ↦
          subst
            (λ (o : Option Bytes).
              AreGenerated p q text_of (some seed)
                (with_text force seed_first p q w v files seed o))
            (sym e)
            (generated p q seed text text_of _ e
              (write_both-AreWritten seed_first p seed q text w v files h))
    ]

pub generate-AreGenerated :
    (force seed_first : Bool) (p q : Bytes) (w v : Write) (files : Files)
    (text_of : Bytes → Option Bytes) (random : Option Bytes)
    → p ≢ q
    → AreGenerated p q text_of random (generate force seed_first p q w v files text_of random)
unfolding generate
generate-AreGenerated force seed_first p q w v files text_of random h =
    if-elim (AreGenerated p q text_of random) (is_there (lookup p files) && not force)
      (files, some seed_exists) (with_random force seed_first p q w v files text_of random)
      (λ e. tt) (λ e. with_random-AreGenerated force seed_first p q w v files text_of random h)
