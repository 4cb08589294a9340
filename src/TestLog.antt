-- ===== src/TestLog.antt =====
-- internal/testlog/testlog.go: the log of the tests and of the selftest. note.GenerateKey, NewSigner
-- and Sign, the text of a checkpoint, and the functions of tlog over a hash reader are parameters.
pub mod SeedReader
pub mod AppendOnly
use vitrum.Base.{ℕ, ◌+◌, List, [], ◌∷◌, ◌++◌, Bool, true, false, Option, none, some, get_elem?}
use vitrum.Base.Bytes.{Bytes}
use vitrum.Base.Int.{ℤ, pos, negsuc}
use vitrum.Witness.{Checkpoint}

-- tlog.HashReader
abbrev pub HashReader : Type 0
HashReader = List ℤ → Option (List Bytes)

-- `K` has the signers, and `R` the random sources.
pub record Library (K R : Type 0) : Type 0 where
  pub generate_key : R → Bytes → Option (Bytes × Bytes)
  pub new_signer : Bytes → Option K
  pub sign : K → Bytes → Option Bytes
  pub checkpoint_string : Checkpoint → Bytes
  pub stored_hashes : ℕ → Bytes → HashReader → Option (List Bytes)
  pub tree_hash : ℤ → HashReader → Option Bytes
  pub prove_tree : ℤ → ℤ → HashReader → Option (List Bytes)

pub record Log (K : Type 0) : Type 0 where
  pub origin : Bytes
  pub signer : K
  pub vkey : Bytes
  pub hashes : List Bytes
  pub n : ℕ

-- out[i] = l.hashes[x], or an error.
abbrev pub hash_at : List Bytes → ℤ → Option Bytes
hash_at hashes (pos x) = get_elem? hashes x
hash_at hashes (negsuc x) = none

abbrev cons_both : Option Bytes → Option (List Bytes) → Option (List Bytes)
cons_both (some h) (some out) = some (h ∷ out)
cons_both _ _ = none

unfoldable pub read_hashes : List Bytes → HashReader
read_hashes hashes [] = some []
read_hashes hashes (x ∷ indexes) = cons_both (hash_at hashes x) (read_hashes hashes indexes)

module _ {K R : Type 0} (b : Library K R) where
  abbrev of_key : Bytes → Bytes → Option K → Option (Log K)
  of_key origin vkey none = none
  of_key origin vkey (some s) =
      some (record { origin = origin; signer = s; vkey = vkey; hashes = []; n = 0 })

  -- New
  unfoldable pub new_log : R → Bytes → Option (Log K)
  new_log rand origin = elim (b.generate_key rand origin) [
    | none ↦ none
    | some (skey, vkey) ↦ of_key origin vkey (b.new_signer skey)
  ]

  abbrev pub appended : Log K → List Bytes → Log K
  appended l hs = record l { hashes = l.hashes ++ hs; n = l.n + 1 }

  -- Append, with whether it ends without an error.
  unfoldable pub append : Log K → List Bytes → Log K × Bool
  unfolding read_hashes
  append l [] = (l, true)
  append l (r ∷ records) = elim (b.stored_hashes l.n r (read_hashes l.hashes)) [
    | none ↦ (l, false)
    | some hs ↦ append (appended l hs) records
  ]

  unfoldable pub tree_hash : Log K → ℤ → Option Bytes
  unfolding read_hashes
  tree_hash l size = b.tree_hash size (read_hashes l.hashes)

  -- A checkpoint of a tree, and its signed note.
  unfoldable pub checkpoint_with_hash : Log K → ℤ → Bytes → Option (Bytes × Checkpoint)
  checkpoint_with_hash l size root =
      let cp : Checkpoint = record { origin = l.origin; n = size; hash = root } in
      elim (b.sign l.signer (b.checkpoint_string cp)) [ none ↦ none | some s ↦ some (s, cp) ]

  unfoldable pub checkpoint : Log K → Option (Bytes × Checkpoint)
  unfolding tree_hash checkpoint_with_hash
  checkpoint l = elim (tree_hash l (pos l.n)) [
    | none ↦ none
    | some th ↦ checkpoint_with_hash l (pos l.n) th
  ]

  unfoldable pub prove_tree : Log K → ℤ → ℤ → Option (List Bytes)
  unfolding read_hashes
  prove_tree l newer older = b.prove_tree newer older (read_hashes l.hashes)
