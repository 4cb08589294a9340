-- ===== src/Tests/Selftests.antt =====
-- internal/testlog: the seeded reader and a small log.
use vitrum.Base.{ℕ, List, [], ◌∷◌, Option, none, some, ◌≡◌, refl, length, replicate}
use vitrum.Base.Bytes.{Bytes, codes}
use vitrum.TestLog.{Library, Log, append}
use vitrum.TestLog.AppendOnly.{IsReader, IsExtension, append-IsExtension}
use vitrum.TestLog.SeedReader.{new_seed_reader}
use vitrum.TestLog.SeedReader.Stream.{IsStream, read_all, concat, lengths, read_all-IsStream}

abbrev sha256 : Bytes → Bytes
sha256 b = replicate 32 7

sha256-length : (b : Bytes) → length (sha256 b) ≡ 32
sha256-length b = refl

read_all-IsStream_example :
    (lengths (read_all sha256 (20 ∷ 40 ∷ []) (new_seed_reader (codes "s"))).1 ≡ 20 ∷ 40 ∷ [])
    × IsStream sha256 sha256-length
        (codes "s")
        (concat (read_all sha256 (20 ∷ 40 ∷ []) (new_seed_reader (codes "s"))).1)
        (read_all sha256 (20 ∷ 40 ∷ []) (new_seed_reader (codes "s"))).0
read_all-IsStream_example = read_all-IsStream sha256 sha256-length (codes "s") (20 ∷ 40 ∷ [])

-- A tree is the list of its records, and a root the hash at its index.
abbrev first : List Bytes → Option Bytes
first [] = none
first (h ∷ hs) = some h

abbrev one : Option (List Bytes) → Option Bytes
one none = none
one (some hs) = first hs

abbrev library : Library ℕ Bytes
library = record {
  generate_key = λ rand name. some (rand, name);
  new_signer = λ key. some 1;
  sign = λ k text. some text;
  checkpoint_string = λ cp. cp.origin;
  stored_hashes = λ n r reader. some (r ∷ []);
  tree_hash = λ size reader. one (reader (size ∷ []));
  prove_tree = λ newer older reader. reader (older ∷ []);
}

one-same :
    (o o' : Option (List Bytes)) (root : Bytes)
    → ((hs : List Bytes) → o ≡ some hs → o' ≡ some hs)
    → one o ≡ some root
    → one o' ≡ some root
one-same none o' root k e = cc
one-same (some hs) o' root k e = rw (k hs refl) e

library-IsReader : IsReader library
library-IsReader = record {
  same_root =
      λ size r r' root k e. one-same (r (size ∷ [])) (r' (size ∷ [])) root (k (size ∷ [])) e;
  same_proof = λ newer older r r' proof k e. k (older ∷ []) proof e;
}

abbrev small_log : Log ℕ
small_log = record { origin = codes "A"; signer = 1; vkey = []; hashes = codes "a" ∷ []; n = 1 }

append-IsExtension_example :
    IsExtension library small_log
      (codes "b" ∷ codes "c" ∷ [])
      (append library small_log (codes "b" ∷ codes "c" ∷ [])).0
      (append library small_log (codes "b" ∷ codes "c" ∷ [])).1
append-IsExtension_example =
    append-IsExtension library library-IsReader small_log (codes "b" ∷ codes "c" ∷ [])
