-- ===== src/TestLog/AppendOnly.antt =====
-- internal/testlog/testlog.go: Append keeps every hash, and so every root and proof.
use vitrum.Base.{
  ℕ, zero, suc, ◌≤◌, List, [], ◌∷◌, ◌++◌, Bool, true, false, none, some, ◌≡◌, subst, sym, ap, ◌∙◌,
  inl, inr, refl, arith, length, get_elem?, Option-cases, ◌+◌,
}
use vitrum.Base.Bytes.{Bytes}
use vitrum.Base.Int.{ℤ, pos, negsuc}
use vitrum.TestLog.{HashReader, Library, Log, read_hashes, append, appended, tree_hash, prove_tree}

get_elem?-append :
    (xs ys : List Bytes) (i : ℕ) {h : Bytes}
    → get_elem? xs i ≡ some h
    → get_elem? (xs ++ ys) i ≡ some h
get_elem?-append [] ys i e = cc
get_elem?-append (x ∷ xs) ys zero e = e
get_elem?-append (x ∷ xs) ys (suc i) e = get_elem?-append xs ys i e

-- A reader that gives what another gives.
abbrev pub Extends : HashReader → HashReader → Type 0
Extends r r' = (indexes : List ℤ) (hs : List Bytes) → r indexes ≡ some hs → r' indexes ≡ some hs

read_hashes-append : (xs ys : List Bytes) → Extends (read_hashes xs) (read_hashes (xs ++ ys))
unfolding read_hashes
read_hashes-append xs ys [] hs e = e
read_hashes-append xs ys (negsuc x ∷ indexes) hs e = cc
read_hashes-append xs ys (pos x ∷ indexes) hs e = elim (Option-cases (get_elem? xs x)) [
  | inl missing ↦ cc (rw missing at e)
  | inr (h, found) ↦ elim (Option-cases (read_hashes xs indexes)) [
    | inl missing ↦ cc (rw (found, missing) at e)
    | inr (rest, read) ↦
        rw (get_elem?-append xs ys x found, read_hashes-append xs ys indexes rest read)
          (rw (found, read) at e)
  ]
]

module _ {K R : Type 0} (b : Library K R) where
  -- tlog's functions read the tree through the reader only.
  pub record IsReader : Type 0 where
    pub same_root :
        (size : ℤ) (r r' : HashReader) (root : Bytes)
        → Extends r r'
        → b.tree_hash size r ≡ some root
        → b.tree_hash size r' ≡ some root
    pub same_proof :
        (newer older : ℤ) (r r' : HashReader) (proof : List Bytes)
        → Extends r r'
        → b.prove_tree newer older r ≡ some proof
        → b.prove_tree newer older r' ≡ some proof

  -- A log that has grown, or has not.
  pub record IsLonger (l m : Log K) : Type 0 where
    pub same_origin : m.origin ≡ l.origin
    pub same_signer : m.signer ≡ l.signer
    pub extends : Extends (read_hashes l.hashes) (read_hashes m.hashes)
    pub larger : l.n ≤ m.n

  module _ (l : Log K) (r : Bytes) (records : List Bytes) where
    append_failed :
        b.stored_hashes l.n r (read_hashes l.hashes) ≡ none → append b l (r ∷ records) ≡ (l, false)
    unfolding append
    append_failed e = rw (e, append)

    append_stored :
        (hs : List Bytes)
        → b.stored_hashes l.n r (read_hashes l.hashes) ≡ some hs
        → append b l (r ∷ records) ≡ append b (appended b l hs) records
    unfolding append
    append_stored hs e = rw (e, append)

  IsLonger-refl : (l : Log K) → IsLonger l l
  IsLonger-refl l = record {
    same_origin = refl;
    same_signer = refl;
    extends = λ indexes hs e. e;
    larger = omega arith;
  }

  append-IsLonger : (l : Log K) (records : List Bytes) → IsLonger l (append b l records).0
  unfolding append
  append-IsLonger l [] = IsLonger-refl l
  append-IsLonger l (r ∷ records) =
      elim (Option-cases (b.stored_hashes l.n r (read_hashes l.hashes))) [
        | inl failed ↦
            subst (λ m. IsLonger l m.0) (sym (append_failed l r records failed)) (IsLonger-refl l)
        | inr (hs, stored) ↦
            let rest = append-IsLonger (appended b l hs) records in
            subst (λ m. IsLonger l m.0) (sym (append_stored l r records hs stored))
              (record {
                same_origin = rest.same_origin;
                same_signer = rest.same_signer;
                extends = λ indexes hs' e.
                    rest.extends indexes hs' (read_hashes-append l.hashes hs indexes hs' e);
                larger = omega (arith, rest.larger);
              })
      ]

  -- Append without an error counts its records.
  append-n :
      (l : Log K) (records : List Bytes)
      → (append b l records).1 ≡ true
      → (append b l records).0.n ≡ l.n + length records
  unfolding append
  append-n l [] h = omega arith
  append-n l (r ∷ records) h = elim (Option-cases (b.stored_hashes l.n r (read_hashes l.hashes))) [
    | inl failed ↦ cc (append_failed l r records failed)
    | inr (hs, stored) ↦
        let e = append_stored l r records hs stored in
        rw e (omega (arith, append-n (appended b l hs) records (sym (ap (λ m. m.1) e) ∙ h)))
  ]

  -- The log after Append, whether it failed or not.
  pub record IsExtension (l : Log K) (records : List Bytes) (m : Log K) (done : Bool) : Type 0 where
    pub longer : IsLonger l m
    pub counted : done ≡ true → m.n ≡ l.n + length records
    pub roots :
        (size : ℤ) (root : Bytes) → tree_hash b l size ≡ some root → tree_hash b m size ≡ some root
    pub proofs :
        (newer older : ℤ) (proof : List Bytes)
        → prove_tree b l newer older ≡ some proof
        → prove_tree b m newer older ≡ some proof

  -- Append of any records to a log, whether it fails or not, keeps the origin and the signer,
  -- makes no tree smaller, and keeps every hash, so that every root and every consistency proof
  -- that the log gave before is the same afterwards; without an error the size grows by the
  -- number of records. tlog's functions read a tree through its reader only.
  pub append-IsExtension :
      IsReader
      → (l : Log K) (records : List Bytes)
      → IsExtension l records (append b l records).0 (append b l records).1
  unfolding tree_hash prove_tree
  append-IsExtension reader l records =
      let k = append-IsLonger l records in
      record {
        longer = k;
        counted = append-n l records;
        roots = λ size root e. reader.same_root size _ _ root k.extends e;
        proofs = λ newer older proof e. reader.same_proof newer older _ _ proof k.extends e;
      }
