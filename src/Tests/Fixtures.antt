-- ===== src/Tests/Fixtures.antt =====
-- cmd/vitrum/record.go and feed.go over a log of two checkpoints.
use vitrum.Base.{
  ℕ, List, [], ◌∷◌, ◌++◌, Bool, true, false, Option, none, some, ◌==◌, ◌≡◌, refl, Bool-cases, inl,
  inr, if◌then◌else◌, length, drop, ◌-◌, arith, subst,
}
use vitrum.Base.Bytes.{Bytes, codes, bytes_eq, bytes_eq_iff}
use vitrum.Base.Dict.{Dict, lookup}
use vitrum.Base.Int.{pos}
use vitrum.Base.Result.{ok, err}
use vitrum.Witness.{Checkpoint}
use vitrum.Witness.Logs.{MemStore, mem_store, mem_store-IsStore, get}
use vitrum.Witness.Note.{note_text}
use vitrum.Witness.Pool.{Witness, Logic, new_witness, set_signer}
use vitrum.Witness.Round.{Turn}
use vitrum.Witness.Round.Alone.{IsReliable, IsIdle}
use vitrum.Witness.Round.Steps.{Signs}
use vitrum.Witness.Round.Views.{IsView}
use vitrum.Client.LogClient.{Tlog, LogClient, new_log_client, checkpoint, prove_tree}
use vitrum.Client.LogClient.Checks.{IsChecked}
use vitrum.Client.Logs.{resolve_log}
use vitrum.Client.Feed.{Signature, Response, feed}
use vitrum.Client.Feed.Command.{Cosigners, Flags, cmd_feed}
use vitrum.Client.Feed.Command.Verified.{IsFed, cmd_feed-IsFed}
use vitrum.Client.Record.{FixtureManifest, cmd_record}
use vitrum.Client.Record.Replays.{replay}
use vitrum.Client.Record.Replays.Replayed.{IsGrowth}
use vitrum.Client.Record.Replays.Played.{IsLog}
use vitrum.Client.Record.Replays.Fixtures.{cmd_record-replay}
use vitrum.Tests.Protocol.{logic, hash_string, parse_hash, text_IsHashText, zero_hash}

-- A proof is right when its first byte is zero.
abbrev pub starts_zero : List Bytes → Bool
starts_zero ((b ∷ h) ∷ proof) = b == 0
starts_zero _ = false

abbrev pub log_logic : Logic
log_logic = record logic {
  parse_hash = parse_hash;
  check_tree = λ proof n h old prev. starts_zero proof;
}

abbrev note_66 : Bytes
note_66 = codes "ABC\n\nsig\n"

abbrev note_68 : Bytes
note_68 = codes "ADE\n\nsig\n"

abbrev open_text : Bytes → Option Bytes
open_text b =
    if bytes_eq b note_66
    then some (codes "ABC\n")
    else if bytes_eq b note_68
    then some (codes "ADE\n")
    else none

abbrev tlog : Tlog (Unit {0}) (Unit {0})
tlog = record {
  new_verifier = λ b. some tt;
  new_tile_fetcher = λ b. some tt;
  open_text = λ v b. open_text b;
  parse_checkpoint = logic.parse_checkpoint;
  prove_tree = λ f cp older. some (zero_hash ∷ []);
}

view_66 : IsView log_logic (record { origin = codes "A"; n = pos 66; hash = codes "C" }) note_66
unfolding note_text
view_66 = record {
  text = codes "ABC\n";
  size = 66;
  reads = record {
    not_empty = λ e. cc;
    splits = refl;
    parses = refl;
    sized = refl;
    in_range = omega arith;
  };
  positive = omega arith;
}

view_68 : IsView log_logic (record { origin = codes "A"; n = pos 68; hash = codes "E" }) note_68
unfolding note_text
view_68 = record {
  text = codes "ADE\n";
  size = 68;
  reads = record {
    not_empty = λ e. cc;
    splits = refl;
    parses = refl;
    sized = refl;
    in_range = omega arith;
  };
  positive = omega arith;
}

same_view :
    (cp cp' : Checkpoint) (note note' text text' : Bytes)
    → bytes_eq note note' ≡ true
    → open_text note ≡ some text
    → open_text note' ≡ some text'
    → logic.parse_checkpoint text ≡ some cp
    → logic.parse_checkpoint text' ≡ some cp'
    → IsView log_logic cp' note'
    → IsView log_logic cp note
same_view cp cp' note note' text text' e opened opened' parsed parsed' view =
    let same : note' ≡ note = cc ((bytes_eq_iff note note').0 e) in
    let same_text : text' ≡ text = cc in
    let same_cp : cp' ≡ cp = cc in
    subst (λ b. IsView log_logic cp b) same (subst (λ p. IsView log_logic p note') same_cp view)

module _ (c : LogClient (Unit {0}) (Unit {0})) where
  views :
      (fetched : Option Bytes) (cp : Checkpoint) (note : Bytes)
      → IsChecked tlog c fetched cp note
      → IsView log_logic cp note
  unfolding bytes_eq
  views fetched cp note k = elim (Bool-cases (bytes_eq note note_66)) [
    | inl e ↦
        same_view cp _ note note_66 k.text (codes "ABC\n") e k.opened refl k.parsed refl view_66
    | inr e ↦ elim (Bool-cases (bytes_eq note note_68)) [
      | inl e2 ↦
          same_view cp _ note note_68 k.text (codes "ADE\n") e2 k.opened refl k.parsed refl view_68
      | inr e2 ↦
          let unknown : ◌≡◌ {A = Option Bytes} none (some k.text) = rw (e, e2) at k.opened in cc
    ]
  ]

  growth :
      (cp1 cp2 : Checkpoint) (proof : List Bytes)
      → some (zero_hash ∷ []) ≡ some proof
      → IsGrowth log_logic cp1 cp2 proof
  growth cp1 cp2 proof h = subst (IsGrowth log_logic cp1 cp2) {x = zero_hash ∷ []} (cc) (record {
    fits = record { hashes = (refl, tt); few = omega arith };
    holds = refl;
    spoiled = λ e. refl;
  })

  is_log : IsLog log_logic tlog c
  is_log = record {
    views = views;
    growth = λ f1 f2 cp1 cp2 note1 note2 proof k1 k2 grows proved. growth cp1 cp2 proof proved;
  }

pub mem_store-IsReliable : IsReliable mem_store
mem_store-IsReliable = record { runs = λ s. refl; commits = λ s i u. refl }

-- A signer adds a line.
abbrev pub turns : ℕ → Turn (Unit {0})
turns k = record { sign = λ key text. some (text ++ codes "\n- w\n"); now = pos k; outside = tt }

abbrev pub turn_signs : (k : ℕ) → Signs (turns k) 7
turn_signs k = record { signed = λ text. text ++ codes "\n- w\n"; signs = λ text. refl }

abbrev fresh_witness : Witness MemStore
fresh_witness = set_signer log_logic mem_store (new_witness log_logic mem_store []) 7

fresh_witness-IsIdle : IsIdle fresh_witness 7
unfolding set_signer new_witness
fresh_witness-IsIdle = record { signs = refl; empty = refl; settled = refl }

nothing_stored : (o : Bytes) → mem_store.get fresh_witness.store o ≡ none
unfolding set_signer new_witness get lookup
nothing_stored o = refl

abbrev recorded : Dict Bytes × FixtureManifest
recorded =
    elim (cmd_record hash_string (λ file. true) tlog true (λ m. codes "{}") [] [] (codes "u")
      (codes "A") (codes "k") [] (some note_66) (some note_66 ∷ some note_68 ∷ [])) [
        | ok r ↦ r
        | err e ↦ ([], record { origin = []; vkey = []; steps = [] })
      ]

records :
    cmd_record hash_string
      (λ file. true)
      tlog
      true
      (λ m. codes "{}")
      []
      []
      (codes "u")
      (codes "A")
      (codes "k")
      []
      (some note_66)
      (some note_66 ∷ some note_68 ∷ [])
    ≡ ok recorded
unfolding cmd_record resolve_log new_log_client checkpoint prove_tree bytes_eq
records = refl

five_steps : length recorded.1.steps ≡ 5
unfolding cmd_record resolve_log new_log_client checkpoint prove_tree bytes_eq
five_steps = refl

cmd_record-replay_example :
    replay log_logic mem_store turns fresh_witness 0 recorded.0 recorded.1.steps ≡ true
cmd_record-replay_example =
    cmd_record-replay log_logic hash_string text_IsHashText mem_store mem_store-IsStore
      mem_store-IsReliable turns 7 turn_signs fresh_witness fresh_witness-IsIdle nothing_stored
      (λ file. true) tlog true (λ m. codes "{}") [] [] (codes "u") (codes "A") (codes "k") []
      (some note_66) (some note_66 ∷ some note_68 ∷ []) (λ log c found made. is_log c) recorded.0
      recorded.1 records

-- The line that a witness answers with.
abbrev pub cosign_line : Bytes
cosign_line = codes "- w\n"

-- A note opens when the witness's line stands at its end.
unfoldable pub open_cosigned : Bytes → Option (List Signature)
open_cosigned b =
    if bytes_eq (drop (length b - 4) b) cosign_line
    then some (record { name = codes "w"; timestamp = some (pos 9) } ∷ [])
    else none

abbrev pub cosigners : Cosigners (Unit {0})
cosigners = record {
  new_cosignature_verifier = λ key. some tt;
  open_note = λ v note. open_cosigned note;
  name = λ v. codes "w";
}

abbrev flags : Flags
flags = record {
  log_name = [];
  log_url = codes "u";
  origin = codes "A";
  log_key = codes "k";
  witness_key = codes "w+key";
}

abbrev answer_200 : Unit {0} → Bytes → Unit {0} × Option Response
answer_200 w body = (w, some (200, codes "- w\n"))

feeds :
    (cmd_feed tlog cosigners hash_string
      (λ body. none)
      []
      flags
      none
      (some note_66)
      answer_200
      tt).1
    ≡ ok (pos 9)
unfolding cmd_feed resolve_log new_log_client checkpoint feed bytes_eq open_cosigned
feeds = refl

cmd_feed-IsFed_example :
    IsFed tlog cosigners hash_string (λ body. none) [] flags none (some note_66) answer_200 (pos 9)
cmd_feed-IsFed_example =
    cmd_feed-IsFed tlog cosigners hash_string (λ body. none) [] flags none (some note_66) answer_200
      tt (pos 9) feeds
