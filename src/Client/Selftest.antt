-- ===== src/Client/Selftest.antt =====
-- cmd/vitrum/selftest.go: cmdSelftest, newSelftestLog and signAs over the log of internal/testlog
-- and a witness behind its endpoint. The lines that it prints are left out.
pub mod Material
pub mod Passes
pub mod Served
use vitrum.Base.{ℕ, List, [], ◌∷◌, ◌++◌, Bool, true, false, Option, none, some, ◌==◌, if◌then◌else◌}
use vitrum.Base.Bytes.{Bytes, codes, bytes_eq}
use vitrum.Base.Int.{ℤ, pos}
use vitrum.Base.Decimal.{format_int}
use vitrum.Base.Text.{trim_space}
use vitrum.Base.Result.{Result, ok, err}
use vitrum.Witness.{Checkpoint}
use vitrum.Witness.Request.{cut_prefix, encode_add_checkpoint}
use vitrum.TestLog.{
  Library, Log, new_log, append, tree_hash, checkpoint, checkpoint_with_hash, prove_tree,
}
use vitrum.TestLog.SeedReader.{SeedReader, new_seed_reader}
use vitrum.Client.LogClient.{HealthError, Fields, reported_key}
use vitrum.Client.Feed.{Feeder, Response, FeedError, limited, verify_cosignature}
use vitrum.Client.Feed.Command.{Cosigners}

pub data SelftestError : Type 0 where
  no_log no_checkpoint no_proof no_root bad_witness_key append_failed : SelftestError
  no_key : HealthError → SelftestError
  not_answered bad_cosignature : FeedError → SelftestError
  unexpected : ℕ → SelftestError
  not_stale : ℕ → SelftestError
  other_size : Bytes → SelftestError

abbrev pub selftest_origin : Bytes
selftest_origin = codes "vitrum-selftest.invalid/log"

abbrev pub unknown_origin : Bytes
unknown_origin = codes "unknown.invalid/log"

-- bytes.Replace(b, old, new, 1), for an `old` that is not empty
unfoldable pub replace_first : Bytes → Bytes → Bytes → Bytes
unfolding cut_prefix
replace_first old new [] = []
replace_first old new (c ∷ b) = elim (cut_prefix old (c ∷ b)) [
  | some rest ↦ new ++ rest
  | none ↦ c ∷ replace_first old new b
]

-- A service's state, and log.Fatal as an error.
abbrev pub M : Type 0 → Type 0 → Type 0
M W A = W → W × Result SelftestError A

abbrev pub after :
    {W A B : Type 0} → (A → M W B) → W × Result SelftestError A → W × Result SelftestError B
after next (w, ok a) = next a w
after next (w, err e) = (w, err e)

infixl 5 ◌>>=◌
abbrev pub ◌>>=◌ : {W A B : Type 0} → M W A → (A → M W B) → M W B
◌>>=◌ m next w = after next (m w)

abbrev pub fail_on : {W A : Type 0} → SelftestError → Option A → M W A
fail_on e none w = (w, err e)
fail_on e (some a) w = (w, ok a)

abbrev pub wrap : {W E A : Type 0} → (E → SelftestError) → Result E A → M W A
wrap f (ok a) w = (w, ok a)
wrap f (err e) w = (w, err (f e))

abbrev pub done : {W : Type 0} → SelftestError → Bool → M W (Unit {0})
done e true w = (w, ok tt)
done e false w = (w, err e)

abbrev pub finished : {W : Type 0} → M W (Unit {0})
finished w = (w, ok tt)

abbrev pub with_flag : {K : Type 0} → Log K × Bool → Option (Log K)
with_flag (l, true) = some l
with_flag (l, false) = none

module _ {K : Type 0} (b : Library K SeedReader) where
  unfoldable pub new_selftest_log : Bytes → Bytes → Option (Log K)
  new_selftest_log seed origin = new_log b (new_seed_reader seed) origin

  -- signAs: the same body as CheckpointWithHash.
  unfoldable pub sign_as : Log K → ℤ → Bytes → Option (Bytes × Checkpoint)
  sign_as l size root = checkpoint_with_hash b l size root

  -- Whether Append has failed is not looked at.
  unfoldable pub grow_fork : Log K → Log K
  grow_fork fork =
      (append b fork
        (codes "a" ∷ codes "b" ∷ codes "X" ∷ codes "d" ∷ codes "e" ∷ codes "f" ∷ codes "g" ∷ [])).0

  module _ {V W : Type 0} (k : Cosigners V) (hash_string : Bytes → Bytes)
      (submit : W → Bytes → W × Option Response) where
    abbrev pub verifies : V → Feeder
    verifies v = record {
      hash_string = hash_string;
      prove_tree = λ cp older. none;
      open_note = λ note. k.open_note v note;
      witness_name = k.name v;
    }

    abbrev pub answered : W × Option Response → W × Result SelftestError Response
    answered (w, answer) = wrap not_answered (limited answer) w

    abbrev pub post : Bytes → M W Response
    post body w = answered (submit w body)

    abbrev pub expect : ℕ → Response → M W Bytes
    expect expected (code, resp) w =
        if code == expected then (w, ok resp) else (w, err (unexpected code))

    unfoldable pub must : ℕ → ℤ → List Bytes → Bytes → M W Bytes
    unfolding limited
    must expected old proof cp_note =
        post (encode_add_checkpoint hash_string old proof cp_note) >>= expect expected

    -- The stale replay.
    abbrev pub stale_answer : ℤ → Response → M W (Unit {0})
    stale_answer size (code, resp) = do
      conflict ← done (not_stale code) (code == 409)
      done (other_size resp) (bytes_eq (trim_space resp) (format_int size))

    unfoldable pub stale_replay : Bytes → ℤ → M W (Unit {0})
    unfolding limited
    stale_replay cp_note size =
        post (encode_add_checkpoint hash_string (pos 0) [] cp_note) >>= stale_answer size

    -- A first submission, with the timestamp of its cosignature.
    unfoldable pub first_sighting : V → Bytes → M W ℤ
    first_sighting v cp_note = do
      cosig ← must 200 (pos 0) [] cp_note
      wrap bad_cosignature (verify_cosignature (verifies v) cp_note cosig)

    -- The fork of the log, signed with the log's own key.
    unfoldable pub fork_refused : Log K → Bytes → ℤ → M W (Unit {0})
    fork_refused l seed size = do
      fork ← fail_on no_log (new_selftest_log (seed ++ codes "-fork") selftest_origin)
      let forked = grow_fork fork
      (note, fork_cp) ← fail_on no_checkpoint (checkpoint b forked)
      proof ← fail_on no_proof (prove_tree b forked fork_cp.n size)
      root ← fail_on no_root (tree_hash b forked fork_cp.n)
      (fork_note, cp) ← fail_on no_checkpoint (sign_as l fork_cp.n root)
      resp ← must 422 size proof fork_note
      finished

    -- cmdSelftest behind the lookup of the witness's key.
    unfoldable pub run_selftest : V → Bytes → Log K → M W (Unit {0})
    run_selftest v seed l0 = do
      l1 ← fail_on append_failed (with_flag (append b l0 (codes "a" ∷ codes "b" ∷ codes "c" ∷ [])))
      (note1, cp1) ← fail_on no_checkpoint (checkpoint b l1)
      time ← first_sighting v note1
      stale ← stale_replay note1 cp1.n
      l2 ← fail_on append_failed (with_flag (append b l1 (codes "d" ∷ codes "e" ∷ [])))
      (note2, cp2) ← fail_on no_checkpoint (checkpoint b l2)
      proof ← fail_on no_proof (prove_tree b l2 cp2.n cp1.n)
      resp ← must 200 cp1.n proof note2
      refused ← fork_refused l2 seed cp2.n
      fresh ← first_sighting v (replace_first selftest_origin unknown_origin note1)
      finished

    unfoldable pub cmd_selftest : (Bytes → Option Fields) → Option Response → Bytes → M W (Unit {0})
    cmd_selftest decode health seed = do
      l ← fail_on no_log (new_selftest_log seed selftest_origin)
      key ← wrap no_key (reported_key decode health)
      v ← fail_on bad_witness_key (k.new_cosignature_verifier key)
      run_selftest v seed l
