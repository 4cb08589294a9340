-- ===== src/Tests/Passing.antt =====
-- cmd/vitrum/selftest.go: a selftest against an in-RAM witness.
use vitrum.Base.{
  ℕ, List, [], ◌∷◌, ◌++◌, Option, none, some, ◌≡◌, ◌<◌, ◌+◌, length, length-drop, length-append,
  drop, drop-append_of, append_assoc, sym, ◌∙◌, ◌-◌, refl, ap, if◌then◌else◌, replicate, arith,
}
use vitrum.Base.Bytes.{Bytes, codes, bytes_eq_refl}
use vitrum.Base.Dict.{lookup}
use vitrum.Base.Int.{ℤ, pos, negsuc, int_eq}
use vitrum.Base.Result.{ok}
use vitrum.Witness.{Checkpoint}
use vitrum.Witness.Logs.{MemStore, mem_store, mem_store-IsStore, get}
use vitrum.Witness.Note.{note_text}
use vitrum.Witness.Pool.{Witness, Logic, new_witness, set_signer}
use vitrum.Witness.Request.{cut_prefix}
use vitrum.Witness.Round.Steps.{IsAt}
use vitrum.Witness.Round.Views.{IsView}
use vitrum.TestLog.{Library, Log, new_log, append, checkpoint, tree_hash, prove_tree}
use vitrum.TestLog.SeedReader.{SeedReader}
use vitrum.Client.Feed.{Response}
use vitrum.Client.LogClient.{Fields, reported_key}
use vitrum.Client.Selftest.{
  selftest_origin, unknown_origin, replace_first, new_selftest_log, sign_as, grow_fork,
  cmd_selftest,
}
use vitrum.Client.Selftest.Served.{serve_next}
use vitrum.Client.Selftest.Material.{IsVerifier, IsSelftestLog}
use vitrum.Client.Selftest.Passes.{cmd_selftest-passes}
use vitrum.Tests.Fixtures.{
  log_logic, cosign_line, open_cosigned, cosigners, mem_store-IsReliable, turns, turn_signs,
}
use vitrum.Tests.Protocol.{hash_string, text_IsHashText, zero_hash}

-- The text of a checkpoint is its origin, its size and its hash, in a line.
abbrev size_byte : ℤ → ℕ
size_byte (pos n) = n
size_byte (negsuc n) = 0

abbrev text_of : Checkpoint → Bytes
text_of cp = cp.origin ++ (size_byte cp.n ∷ (cp.hash ++ (10 ∷ [])))

abbrev with_size : Bytes → Option Bytes → Option Checkpoint
with_size origin (some (n ∷ h ∷ r)) = some (record { origin = origin; n = pos n; hash = h ∷ [] })
with_size origin _ = none

parse : Bytes → Option Checkpoint
unfolding cut_prefix
parse b = elim (cut_prefix selftest_origin b) [
  | some rest ↦ with_size selftest_origin (some rest)
  | none ↦ with_size unknown_origin (cut_prefix unknown_origin b)
]

abbrev test_logic : Logic
test_logic = record log_logic { parse_checkpoint = parse }

abbrev library : Library ℕ SeedReader
library = record {
  generate_key = λ rand name. some (name, name);
  new_signer = λ key. some 1;
  sign = λ k text. some (text ++ codes "\nsig\n");
  checkpoint_string = text_of;
  stored_hashes = λ n r reader. some (r ∷ []);
  tree_hash = λ size reader. some (codes "h");
  prove_tree = λ newer older reader.
      if int_eq newer (pos 7) then some (replicate 32 1 ∷ []) else some (zero_hash ∷ []);
}

abbrev log_of : List Bytes → ℕ → Log ℕ
log_of records n = record {
  origin = selftest_origin;
  signer = 1;
  vkey = selftest_origin;
  hashes = records;
  n = n;
}

abbrev note_of : Bytes → ℕ → Bytes
note_of origin n = origin ++ (n ∷ codes "h\n\nsig\n")

abbrev cp_of : Bytes → ℕ → Checkpoint
cp_of origin n = record { origin = origin; n = pos n; hash = codes "h" }

view_3 : IsView test_logic (cp_of selftest_origin 3) (note_of selftest_origin 3)
unfolding note_text parse
view_3 = record {
  text = selftest_origin ++ (3 ∷ codes "h\n");
  size = 3;
  reads = record {
    not_empty = λ e. cc;
    splits = refl;
    parses = refl;
    sized = refl;
    in_range = omega arith;
  };
  positive = omega arith;
}

view_5 : IsView test_logic (cp_of selftest_origin 5) (note_of selftest_origin 5)
unfolding note_text parse
view_5 = record {
  text = selftest_origin ++ (5 ∷ codes "h\n");
  size = 5;
  reads = record {
    not_empty = λ e. cc;
    splits = refl;
    parses = refl;
    sized = refl;
    in_range = omega arith;
  };
  positive = omega arith;
}

view_7 : IsView test_logic (cp_of selftest_origin 7) (note_of selftest_origin 7)
unfolding note_text parse
view_7 = record {
  text = selftest_origin ++ (7 ∷ codes "h\n");
  size = 7;
  reads = record {
    not_empty = λ e. cc;
    splits = refl;
    parses = refl;
    sized = refl;
    in_range = omega arith;
  };
  positive = omega arith;
}

view_renamed :
    IsView test_logic
      (cp_of unknown_origin 3)
      (replace_first selftest_origin unknown_origin (note_of selftest_origin 3))
unfolding note_text parse replace_first
view_renamed = record {
  text = unknown_origin ++ (3 ∷ codes "h\n");
  size = 3;
  reads = record {
    not_empty = λ e. cc;
    splits = refl;
    parses = refl;
    sized = refl;
    in_range = omega arith;
  };
  positive = omega arith;
}

-- A note with the line behind it ends with the line.
opens_cosigned :
    (note text : Bytes)
    → open_cosigned (note ++ drop (length text + 1) (text ++ codes "\n- w\n"))
      ≡ some (record { name = codes "w"; timestamp = some (pos 9) } ∷ [])
unfolding open_cosigned
opens_cosigned note text =
    let line : drop (length text + 1) (text ++ codes "\n- w\n") ≡ cosign_line =
      ap (drop (length text + 1)) (sym (append_assoc text (10 ∷ []) cosign_line))
      ∙ drop-append_of (length text + 1) (text ++ (10 ∷ [])) cosign_line
          (length-append text (10 ∷ [])) in
    let at_end : drop (length (note ++ cosign_line) - 4) (note ++ cosign_line) ≡ cosign_line =
      drop-append_of (length (note ++ cosign_line) - 4) note cosign_line
        (omega (arith, length-append note cosign_line)) in
    rw (line, at_end, bytes_eq_refl cosign_line) refl

abbrev serving : Witness MemStore × ℕ → Bytes → (Witness MemStore × ℕ) × Option Response
serving = serve_next test_logic mem_store turns

verifier :
    IsVerifier test_logic hash_string text_IsHashText mem_store mem_store-IsStore
      mem_store-IsReliable turns 7 turn_signs library cosigners tt
verifier = record {
  time = λ k cp note view. pos 9;
  opens = λ k cp note view. opens_cosigned note view.text;
  short = λ k text. omega (
    arith,
    length-drop (length text + 1) (text ++ codes "\n- w\n"),
    length-append text (codes "\n- w\n"),
  );
}

abbrev start : Log ℕ
start = log_of [] 0

grows_5 : view_3.size < view_5.size
unfolding view_3 view_5
grows_5 = omega arith

grows_7 : view_5.size < view_7.size
unfolding view_5 view_7
grows_7 = omega arith

selftest_log :
    IsSelftestLog test_logic hash_string text_IsHashText mem_store mem_store-IsStore
      mem_store-IsReliable turns 7 turn_signs library cosigners tt
      (codes "s")
      start
unfolding append checkpoint prove_tree tree_hash new_selftest_log sign_as grow_fork replace_first
    new_log
selftest_log = record {
  l1 = log_of (codes "a" ∷ codes "b" ∷ codes "c" ∷ []) 3;
  first_records = refl;
  cp1 = cp_of selftest_origin 3;
  note1 = note_of selftest_origin 3;
  first_checkpoint = refl;
  view1 = view_3;
  l2 = log_of (codes "a" ∷ codes "b" ∷ codes "c" ∷ codes "d" ∷ codes "e" ∷ []) 5;
  more_records = refl;
  cp2 = cp_of selftest_origin 5;
  note2 = note_of selftest_origin 5;
  second_checkpoint = refl;
  view2 = view_5;
  same_log = refl;
  grows = grows_5;
  proof = zero_hash ∷ [];
  proved = refl;
  fits = record { hashes = (refl, tt); few = omega arith };
  holds = refl;
  fork = start;
  forked = refl;
  fork_checkpoint = (note_of selftest_origin 7, cp_of selftest_origin 7);
  fork_signed = refl;
  fork_proof = replicate 32 1 ∷ [];
  fork_proved = refl;
  fork_fits = record { hashes = (refl, tt); few = omega arith };
  root = codes "h";
  fork_root = refl;
  cp3 = cp_of selftest_origin 7;
  note3 = note_of selftest_origin 7;
  signed_as = refl;
  view3 = view_7;
  same_origin = refl;
  larger = grows_7;
  fails = refl;
  cp4 = cp_of unknown_origin 3;
  view4 = view_renamed;
  other_origin = λ e. omega (arith, ap (λ (b : Bytes). length b) e);
}

abbrev server : Witness MemStore
server = set_signer test_logic mem_store (new_witness test_logic mem_store []) 7

server-IsAt : (o : Bytes) → IsAt mem_store server 7 o 0 (replicate 32 0)
unfolding set_signer new_witness get lookup
server-IsAt o = record {
  idle = record { signs = refl; empty = refl; settled = refl };
  size_at = refl;
  hash_at = refl;
}

abbrev decode : Bytes → Option Fields
decode b = some (λ name. some (codes "w+key"))

reported : reported_key decode (some (200, [])) ≡ ok (codes "w+key")
unfolding reported_key
reported = refl

made : new_selftest_log library (codes "s") selftest_origin ≡ some start
unfolding new_selftest_log new_log
made = refl

cmd_selftest-passes_example :
    (cmd_selftest library cosigners hash_string serving decode
      (some (200, []))
      (codes "s")
      (server, 0)).1
    ≡ ok tt
cmd_selftest-passes_example =
    cmd_selftest-passes test_logic hash_string text_IsHashText mem_store mem_store-IsStore
      mem_store-IsReliable turns 7 turn_signs library cosigners tt verifier (codes "s") start
      selftest_log server (replicate 32 0) (replicate 32 0) (server-IsAt selftest_log.cp1.origin)
      (server-IsAt selftest_log.cp4.origin) decode (some (200, [])) (codes "w+key") made reported
      refl
