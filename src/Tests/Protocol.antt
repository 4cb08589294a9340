-- ===== src/Tests/Protocol.antt =====
-- internal/witness: one checkpoint through an in-RAM witness.
use vitrum.Base.{
  ℕ, [], ◌∷◌, ◌++◌, false, Option, none, some, ◌≡◌, ◌≢◌, ◌⊎◌, refl, ◌==◌, length, ◌≤◌, arith, All,
}
use vitrum.Base.Bytes.{Bytes, codes}
use vitrum.Base.Dict.{lookup, insert}
use vitrum.Base.Int.{pos}
use vitrum.Base.Result.{ok}
use vitrum.Witness.{Checkpoint}
use vitrum.Witness.Logs.{get, MemStore, mem_store, mem_store-IsStore}
use vitrum.Witness.Request.{Request, parse_request}
use vitrum.Witness.Pool.{
  Candidate, PoolEntry, Pool, Witness, Logic, check_request, add_to_pool, new_witness, set_signer,
}
use vitrum.Witness.Sequencer.{rotate, sequence_pool, sequence}
use vitrum.Witness.Protocol.{
  waiting, rotated, signer_set, submitted, rotates, sequences, Reach, made, next,
}
use vitrum.Witness.Protocol.Safety.{
  Grows, Step-Grows, Reach-IsCosigned, Reach-IsPending, sequence-IsAnswered,
}
use vitrum.Witness.Protocol.Sound.{IsPending}
use vitrum.Witness.Sequencer.Answers.{IsCosigned}
use vitrum.Witness.Pool.Admit.{pending, IsSame, add_to_pool-waits}
use vitrum.Witness.Request.{cut_line, cut_prefix, encode_add_checkpoint}
use vitrum.Witness.Request.RoundTrip.{IsHashText, parse_request-encode}
use vitrum.Witness.Note.{note_text}
use vitrum.Witness.Pool.{reply, max_pool_size, waits}
use vitrum.Base.Bytes.{bytes_eq}
use vitrum.Base.Decimal.{parse_int, format_int}
use vitrum.Base.{◌+◌, ◌-◌, ap, replicate}

-- A checkpoint whose origin, size and hash are one byte each.
abbrev parse_checkpoint : Bytes → Option Checkpoint
parse_checkpoint (o ∷ n ∷ h ∷ r) = some (record { origin = o ∷ []; n = pos n; hash = h ∷ [] })
parse_checkpoint _ = none

abbrev pub logic : Logic
logic = record {
  parse_checkpoint = parse_checkpoint;
  parse_hash = λ b. some b;
  check_tree = λ proof n h old prev. length proof == 1;
  empty_tree_hash = 0 ∷ [];
}

abbrev body : Bytes
body = codes "old 0\n\nABC\n\nsig\n"

abbrev req : Request
req = record { old = pos 0; proof = []; note = codes "ABC\n\nsig\n" }

abbrev candidate : Candidate
candidate = record {
  cp = record { origin = codes "A"; n = pos 66; hash = codes "C" };
  text = codes "ABC\n";
  signer = 7;
  epoch = 1;
}

abbrev sign : ℕ → Bytes → Option Bytes
sign key text = some (text ++ codes "\n- key\n")

checked : check_request logic (some 7) false 1 body ≡ ok (req, candidate)
unfolding check_request parse_request cut_line cut_prefix parse_int bytes_eq format_int note_text
checked = refl

abbrev provisioned : Witness MemStore
provisioned = set_signer logic mem_store (new_witness logic mem_store []) 7

abbrev pooled : Witness MemStore
pooled = (add_to_pool logic mem_store provisioned req candidate).0

abbrev held : Witness MemStore
held = rotate mem_store pooled

abbrev committed : Witness MemStore
committed = sequence_pool mem_store held sign (pos 9) tt

pooled_reached : Reach logic mem_store waiting pooled
pooled_reached =
    next (next (made []) (signer_set 7)) (submitted (some 7) false 1 body req candidate checked)

held_reached : Reach logic mem_store rotated held
held_reached = next pooled_reached rotates

abbrev pending_entry : PoolEntry
pending_entry = record { candidate = candidate; result = reply 0 [] }

abbrev cosigned_entry : PoolEntry
cosigned_entry = record { candidate = candidate; result = reply 200 (codes "- key\n") }

pooled_entry : lookup (codes "A") pooled.current_pool ≡ some pending_entry
unfolding add_to_pool lookup set_signer new_witness get insert bytes_eq
pooled_entry = refl

committed_entry : lookup (codes "A") committed.in_sequencing ≡ some cosigned_entry
unfolding add_to_pool lookup sequence_pool rotate set_signer new_witness get insert bytes_eq
committed_entry = refl

Step-Grows_example : Grows logic mem_store mem_store-IsStore held.store committed.store (codes "A")
Step-Grows_example =
    Step-Grows logic mem_store mem_store-IsStore held_reached (sequences sign (pos 9) tt)
      (codes "A")

Reach-IsCosigned_example :
    IsCosigned mem_store mem_store-IsStore held sign committed (codes "A") cosigned_entry
Reach-IsCosigned_example =
    Reach-IsCosigned logic mem_store mem_store-IsStore held_reached sign (pos 9) tt (codes "A")
      cosigned_entry committed_entry refl

Reach-IsPending_example :
    IsPending logic mem_store pooled.store (codes "A") pending_entry
    × (lookup (codes "A") pooled.in_sequencing ≡ none)
    × (length pooled.current_pool ≤ max_pool_size)
Reach-IsPending_example =
    Reach-IsPending logic mem_store mem_store-IsStore pooled_reached (codes "A") pending_entry
      pooled_entry

sequence-IsAnswered_example :
    ((sequence mem_store pooled sign (pos 9) tt).current_pool ≡ [])
    × ((p : Pool) × (e : PoolEntry) × ((sequence mem_store pooled sign (pos 9) tt).closed
          ≡ p ∷ pooled.closed)
        × (lookup (codes "A") p ≡ some e)
        × (e.candidate ≡ pending_entry.candidate)
        × ((e.result.code ≡ 200) ⊎ ((e.result.code ≡ 500) ⊎ (e.result.code ≡ 503))))
sequence-IsAnswered_example =
    sequence-IsAnswered logic mem_store mem_store-IsStore pooled_reached sign (pos 9) tt (codes "A")
      pending_entry pooled_entry

waits_pooled : (add_to_pool logic mem_store provisioned req candidate).1 ≡ waits (codes "A")
unfolding add_to_pool lookup set_signer new_witness get
waits_pooled = refl

add_to_pool-waits_example :
    (codes "A" ≡ candidate.cp.origin)
    × ((e : PoolEntry) × (pending logic mem_store
            (add_to_pool logic mem_store provisioned req candidate).0
            candidate.cp.origin
          ≡ some e)
        × IsSame logic mem_store e candidate)
add_to_pool-waits_example =
    add_to_pool-waits logic mem_store provisioned req candidate (codes "A") waits_pooled

-- The text of a hash that stands in for its base64: every byte shifted past the line feed.
pub shift : Bytes → Bytes
shift [] = []
shift (x ∷ l) = (x + 11) ∷ shift l

pub unshift : Bytes → Bytes
unshift [] = []
unshift (x ∷ l) = (x - 11) ∷ unshift l

abbrev pub hash_string : Bytes → Bytes
hash_string h = 48 ∷ shift h

abbrev pub parse_hash : Bytes → Option Bytes
parse_hash [] = none
parse_hash (x ∷ l) = some (unshift l)

unshift-shift : (l : Bytes) → unshift (shift l) ≡ l
unfolding shift unshift
unshift-shift [] = refl
unshift-shift (x ∷ l) = ground (arith, unshift-shift l)

shift-IsLine : (l : Bytes) → All (λ c. c ≢ 10) (shift l)
unfolding shift
shift-IsLine [] = tt
shift-IsLine (x ∷ l) = (omega arith, shift-IsLine l)

pub text_IsHashText : IsHashText parse_hash hash_string
text_IsHashText = record {
  read_back = λ h e. ap some (unshift-shift h);
  one_line = λ h. (omega arith, shift-IsLine h);
  not_empty = λ h e. cc;
}

abbrev pub zero_hash : Bytes
zero_hash = replicate 32 0

parse_request-encode_example :
    parse_request parse_hash
      (encode_add_checkpoint hash_string (pos 5) (zero_hash ∷ []) (codes "N"))
    ≡ ok (record { old = pos 5; proof = zero_hash ∷ []; note = codes "N" })
parse_request-encode_example =
    parse_request-encode parse_hash hash_string text_IsHashText 5 (zero_hash ∷ []) (codes "N")
      (omega arith) (refl, tt) (omega arith) (λ e. cc)
