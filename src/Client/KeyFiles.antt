-- ===== src/Client/KeyFiles.antt =====
-- cmd/vitrum/keygen.go and hostkey.go: new keys and their two files.
pub mod Written
use vitrum.Base.{
  ℕ, List, [], ◌∷◌, ◌++◌, Bool, true, false, not, ◌&&◌, Option, none, some, if◌then◌else◌, take,
}
use vitrum.Base.Bytes.{Bytes, codes}
use vitrum.Base.Dict.{Dict, lookup, insert}
use vitrum.Provisioning.{Keys}

-- The files by their paths.
abbrev pub Files : Type 0
Files = Dict Bytes

-- How MkdirAll and WriteFile end: with the file written, with an error before the file is opened, or
-- with so many bytes written.
pub data Write : Type 0 where
  whole unopened : Write
  partial : ℕ → Write

pub data KeygenError : Type 0 where
  seed_exists no_random bad_key write_failed : KeygenError

unfoldable pub write_file : Files → Bytes → Bytes → Write → Files × Option KeygenError
write_file files path contents whole = (insert path contents files, none)
write_file files path contents unopened = (files, some write_failed)
write_file files path contents (partial n) =
    (insert path (take n contents) files, some write_failed)

abbrev pub then_write :
    Bytes → Bytes → Write → Files × Option KeygenError → Files × Option KeygenError
then_write path contents w (files, some e) = (files, some e)
then_write path contents w (files, none) = write_file files path contents w

-- The loop over the map of two files, in the order that it happens to take.
unfoldable pub write_both :
    Bool → Bytes → Bytes → Bytes → Bytes → Write → Write → Files → Files × Option KeygenError
unfolding write_file
write_both seed_first seed_path seed other_path other w v files =
    if seed_first
    then then_write other_path other v (write_file files seed_path seed w)
    else then_write seed_path seed w (write_file files other_path other v)

abbrev pub is_there : Option Bytes → Bool
is_there none = false
is_there (some b) = true

module _ (force seed_first : Bool) (seed_path other_path : Bytes) (w v : Write) where
  abbrev pub with_text : Files → Bytes → Option Bytes → Files × Option KeygenError
  with_text files seed none = (files, some bad_key)
  with_text files seed (some text) = write_both seed_first seed_path seed other_path text w v files

  abbrev pub with_random :
      Files → (Bytes → Option Bytes) → Option Bytes → Files × Option KeygenError
  with_random files text_of none = (files, some no_random)
  with_random files text_of (some seed) = with_text files seed (text_of seed)

  -- From the test for the seed file on, with what rand.Read gave, and the other file's text for a
  -- seed.
  unfoldable pub generate :
      Files → (Bytes → Option Bytes) → Option Bytes → Files × Option KeygenError
  unfolding write_both
  generate files text_of random =
      if is_there (lookup seed_path files) && not force
      then (files, some seed_exists)
      else with_random files text_of random

  abbrev pub vkey_line : Option Bytes → Option Bytes
  vkey_line none = none
  vkey_line (some vkey) = some (vkey ++ codes "\n")

  -- cmdKeygen, on a key name; the other file has the verifier key.
  abbrev pub cmd_keygen : Keys → Bytes → Files → Option Bytes → Files × Option KeygenError
  cmd_keygen keys name files random =
      generate files (λ seed. vkey_line (keys.new_signer name (keys.new_key seed))) random

  -- cmdHostkey; the other file has the public key, as ssh.NewPublicKey and MarshalAuthorizedKey
  -- make it of the private key.
  abbrev pub cmd_hostkey :
      Keys → (Bytes → Option Bytes) → Files → Option Bytes → Files × Option KeygenError
  cmd_hostkey keys public_text files random =
      generate files (λ seed. public_text (keys.new_key seed)) random
