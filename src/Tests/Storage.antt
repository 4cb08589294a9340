-- ===== src/Tests/Storage.antt =====
-- internal/state: one commit of a rollback-protected store, a crash, and reboots.
use vitrum.Base.{
  ℕ, zero, suc, ◌+◌, ◌%◌, ◌<◌, ◌≡◌, ◌≢◌, refl, ap, ◌⊎◌, [], ◌∷◌, true, false, Option, none, some,
  replicate, arith,
}
use vitrum.Base.Bytes.{Bytes, codes, bytes_lt, bytes_eq, bytes_eq_iff}
use vitrum.Base.Int.{pos}
use vitrum.Base.Dict.{Dict, has, keys, lookup, insert}
use vitrum.Base.Dict.Distinct.{Distinct}
use vitrum.Base.Result.{Result, ok, err}
use vitrum.Witness.{LogState}
use vitrum.Witness.Logs
use vitrum.Witness.Note.{restore_note}
use vitrum.State.{Error, write_failed, out_of_fuel}
use vitrum.State.Codec.{encode, decode}
use vitrum.State.Codec.RoundTrip.{SameMap, decode-encode}
use vitrum.State.Codec.Total.{decode-ne-out_of_fuel}
use vitrum.State.Anchor.{AnchorState, IsWord, fresh, mem_anchor, mem_anchor-IsAnchor}
use vitrum.State.Anchor.Rpmb.{read_anchor, write_anchor, write_anchor-read_anchor}
use vitrum.State.Blob.{save_at, read_slot, seal_blob, slot_lba, LoadedBlob, save, load, load_slot}
use vitrum.State.Blob.Save.{load_slot-save_other}
use vitrum.State.Blob.Load.{AtMost, Below, load-save, load_newest}
use vitrum.State.Store.{
  adopt, reanchor, admit_notes, after_anchor, Platform, RollbackStore, next_gen, next_states,
  put_batch, open_store, boot,
}
use vitrum.State.Store.Boot.{NoRollback, open_store-NoRollback}
use vitrum.State.Store.Decision.{Outcome, decide, boot-Outcome}
use vitrum.State.Store.Commit.{anchor_state, Stored, Committed, put_batch-Stored}
use vitrum.State.Store.Failure.{Kept, put_batch-Kept}
use vitrum.State.Store.Admit.{IsRestorable}
use vitrum.State.Store.Recovery.{Serves, open_store-put_batch, open_store-crash}
use vitrum.Tests.Platform.{
  read_sector, Log, crypto, crypto-IsCrypto, disk, disk-IsDisk, rpmb, rpmb-IsRpmb, parse_checkpoint,
  platform, read_log,
}

abbrev key : Bytes
key = replicate 32 1

abbrev salt : Option Bytes
salt = some (replicate 16 2)

abbrev log_state : LogState
log_state = record { size = pos 66; hash = codes "C"; note = codes "ABC\n\n- key\n" }

abbrev updates : Dict LogState
updates = (codes "A", log_state) ∷ []

abbrev empty_store : RollbackStore Log AnchorState
empty_store = record {
  mem = [];
  dev = [];
  off = 0;
  key = key;
  anchor = fresh;
  gen = 0;
  halted = false;
}

empty_Committed : Committed platform 512 empty_store
unfolding load_slot read_log mem_anchor slot_lba read_slot
empty_Committed = record {
  blocks = pos 1000;
  info = refl;
  key = refl;
  gen = omega arith;
  first = tt;
  second = tt;
  anchored = fresh;
  reads = refl;
  same_gen = refl;
}

put_result : (put_batch platform empty_store salt updates).1 ≡ none
unfolding put_batch save save_at seal_blob encode next_states insert Logs.all lookup bytes_eq
    slot_lba after_anchor mem_anchor
put_result = refl

abbrev full_store : RollbackStore Log AnchorState
full_store = (put_batch platform empty_store salt updates).0

put_done : put_batch platform empty_store salt updates ≡ (full_store, none)
put_done = ap (λ (e : Option Error). (full_store, e)) put_result

log_state_restored : restore_note parse_checkpoint log_state.note ≡ some (codes "A", log_state)
unfolding restore_note
log_state_restored = refl

updates-lookup :
    (o : Bytes) (st : LogState)
    → lookup o (Logs.put_batch [] updates) ≡ some st
    → (o ≡ codes "A") × (st ≡ log_state)
unfolding Logs.put_batch lookup insert
updates-lookup o st h = ground (arith, bytes_eq_iff (codes "A") o)

updates-IsRestorable : IsRestorable parse_checkpoint (Logs.put_batch [] updates)
updates-IsRestorable = record {
  at = λ o st h. let (eo, es) = updates-lookup o st h in rw (eo, es) log_state_restored;
}

put_batch-Stored_example :
    (full_store.gen ≡ empty_store.gen + 1)
    × (full_store.mem ≡ Logs.put_batch empty_store.mem updates)
    × (full_store.halted ≡ false)
    × Stored platform full_store (next_states empty_store updates)
    × Committed platform 512 full_store
put_batch-Stored_example =
    put_batch-Stored platform 512 disk-IsDisk crypto-IsCrypto mem_anchor-IsAnchor empty_store
      full_store salt updates empty_Committed refl put_done

reopened :
    (s : RollbackStore Log AnchorState) × (open_store platform full_store.dev full_store.off
        full_store.key full_store.anchor
      ≡ ok s)
    × Serves platform s (empty_store.gen + 1) (Logs.put_batch empty_store.mem updates)
reopened =
    open_store-put_batch platform 512 disk-IsDisk crypto-IsCrypto mem_anchor-IsAnchor empty_store
      full_store salt updates empty_Committed refl tt updates-IsRestorable put_done

open_store-put_batch_example :
    (s : RollbackStore Log AnchorState) × (open_store platform full_store.dev full_store.off
        full_store.key full_store.anchor
      ≡ ok s)
    × Serves platform s (empty_store.gen + 1) (Logs.put_batch empty_store.mem updates)
open_store-put_batch_example =
    open_store-put_batch platform 512 disk-IsDisk crypto-IsCrypto mem_anchor-IsAnchor empty_store
      full_store salt updates empty_Committed refl tt updates-IsRestorable put_done

full_anchor : full_store.anchor.generation ≡ 1
unfolding put_batch save save_at seal_blob encode next_states insert Logs.all lookup bytes_eq
    slot_lba after_anchor mem_anchor
full_anchor = refl

full_anchored : platform.anchor.anchor full_store.anchor ≡ ok full_store.anchor
unfolding mem_anchor
full_anchored = refl

open_store-NoRollback_example :
    NoRollback platform full_store.anchor
      (load crypto disk full_store.dev full_store.off full_store.key)
      reopened.0
open_store-NoRollback_example =
    open_store-NoRollback platform full_store.dev full_store.off full_store.key full_store.anchor
      full_store.anchor reopened.0 (omega (arith, full_anchor)) full_anchored reopened.1
      reopened.2.running

abbrev digest_of : Result Error Bytes → Bytes
digest_of (err e) = []
digest_of (ok h) = h

-- What S1 of the commit wrote.
abbrev states : Dict Bytes
states = next_states empty_store updates

abbrev saved : Log × Result Error Bytes
saved = save crypto disk [] 0 key salt 1 states

saved_result : saved.1 ≡ ok (digest_of saved.1)
unfolding save save_at seal_blob encode next_states insert Logs.all lookup bytes_eq slot_lba
saved_result = refl

saved_done : saved ≡ (saved.0, ok (digest_of saved.1))
saved_done = ap (λ (r : Result Error Bytes). (saved.0, r)) saved_result

load_slot-save_other_example :
    load_slot crypto disk saved.0 0 0 key ≡ load_slot crypto disk [] 0 0 key
load_slot-save_other_example =
    load_slot-save_other crypto disk 512 disk-IsDisk crypto-IsCrypto [] (pos 1000) 0 key salt 1
      states 0 refl refl (omega arith)

older_slots :
    (other : ℕ) → other < 2 → 1 % 2 ≢ other → Below 1 (load_slot crypto disk [] 0 other key)
unfolding load_slot read_log slot_lba read_slot
older_slots zero lt ne = tt
older_slots (suc zero) lt ne = absurd (ne refl)
older_slots (suc (suc n)) lt ne = absurd (omega arith)

newest :
    (out : Dict Bytes) × (load crypto disk saved.0 0 key
      ≡ ok (record { states = out; gen = 1; hash = digest_of saved.1 }))
    × SameMap out states
newest =
    load-save crypto disk 512 disk-IsDisk crypto-IsCrypto [] saved.0 (pos 1000) 0 key salt 1 states
      (digest_of saved.1) refl (omega arith) refl older_slots saved_done

load-save_example :
    (out : Dict Bytes) × (load crypto disk saved.0 0 key
      ≡ ok (record { states = out; gen = 1; hash = digest_of saved.1 }))
    × SameMap out states
load-save_example =
    load-save crypto disk 512 disk-IsDisk crypto-IsCrypto [] saved.0 (pos 1000) 0 key salt 1 states
      (digest_of saved.1) refl (omega arith) refl older_slots saved_done

abbrev newest_blob : LoadedBlob
newest_blob = record { states = newest.0; gen = 1; hash = digest_of saved.1 }

load_newest_example :
    ((load_slot crypto disk saved.0 0 0 key ≡ ok newest_blob)
      ⊎ (load_slot crypto disk saved.0 0 1 key ≡ ok newest_blob))
    × AtMost 1 (load_slot crypto disk saved.0 0 0 key)
    × AtMost 1 (load_slot crypto disk saved.0 0 1 key)
load_newest_example = load_newest crypto disk saved.0 0 key newest_blob refl newest.1

abbrev next_anchor : AnchorState
next_anchor = anchor_state (next_gen 0) (digest_of saved.1)

crash_anchor : platform.anchor.set_anchor fresh next_anchor ≡ (next_anchor, none)
unfolding mem_anchor
crash_anchor = refl

open_store-crash_example :
    (s : RollbackStore Log AnchorState) × (open_store platform saved.0 0 key fresh ≡ ok s)
    × Serves platform s (next_gen 0) (Logs.put_batch [] updates)
    × (s.anchor ≡ next_anchor)
open_store-crash_example =
    open_store-crash platform 512 disk-IsDisk crypto-IsCrypto mem_anchor-IsAnchor empty_store
      saved.0 next_anchor (digest_of saved.1) salt updates empty_Committed (omega arith) refl tt
      updates-IsRestorable saved_done crash_anchor

abbrev ahead : LoadedBlob
ahead = record { states = (codes "A", log_state.note) ∷ []; gen = 6; hash = replicate 32 3 }

abbrev behind : AnchorState
behind = record { generation = 5; blob_hash = replicate 32 4; bound = true }

ahead_once : Distinct ahead.states
unfolding has keys
ahead_once = (refl, tt)

boot-Outcome_example :
    Outcome platform
      (decide behind (ok ahead))
      empty_store
      (boot platform empty_store behind (ok ahead))
boot-Outcome_example =
    boot-Outcome platform empty_store behind (ok ahead) (omega arith) (omega arith, ahead_once)

-- That boot recovers.
ahead_recovered : (boot platform empty_store behind (ok ahead)).anchor.generation ≡ 6
unfolding boot adopt reanchor admit_notes mem_anchor restore_note bytes_eq
ahead_recovered = refl

-- A disk that takes no write.
abbrev broken : Platform Log AnchorState
broken = record platform {
  device = record disk { write_blocks = λ (d : Log) (lba : ℕ) (buf : Bytes). (d, false) };
}

broken_result : (put_batch broken empty_store salt updates).1 ≡ some write_failed
unfolding put_batch save save_at seal_blob encode next_states insert Logs.all lookup bytes_eq
    slot_lba
broken_result = refl

put_batch-Kept_example : Kept broken empty_store (put_batch broken empty_store salt updates).0
put_batch-Kept_example =
    put_batch-Kept broken empty_store (put_batch broken empty_store salt updates).0 salt updates
      write_failed
      (ap (λ (e : Option Error). ((put_batch broken empty_store salt updates).0, e)) broken_result)

abbrev notes : Dict Bytes
notes = (codes "B", codes "two") ∷ (codes "A", codes "one") ∷ []

abbrev payload_of : Result Error Bytes → Bytes
payload_of (err e) = []
payload_of (ok b) = b

notes_encoded : encode notes ≡ ok (payload_of (encode notes))
unfolding encode bytes_lt lookup bytes_eq
notes_encoded = refl

decode-encode_example :
    (out : Dict Bytes) × (decode (payload_of (encode notes)) ≡ ok out) × SameMap out notes
decode-encode_example = decode-encode notes (payload_of (encode notes)) notes_encoded

decode-ne-out_of_fuel_example : decode (codes "\u{1}\0A") ≢ err out_of_fuel
decode-ne-out_of_fuel_example = decode-ne-out_of_fuel (codes "\u{1}\0A")

next_IsWord : IsWord behind
next_IsWord = record { generation = omega arith; blob_hash = refl }

write_done : write_anchor rpmb [] behind ≡ ((write_anchor rpmb [] behind).0, none)
unfolding write_anchor read_anchor read_sector bytes_eq
write_done = refl

write_anchor-read_anchor_example :
    (read_anchor rpmb (write_anchor rpmb [] behind).0 ≡ ok behind)
    × (behind.bound ≡ true)
    × ((s : AnchorState) × (read_anchor rpmb [] ≡ ok s) × (s.generation < behind.generation))
write_anchor-read_anchor_example =
    write_anchor-read_anchor rpmb rpmb-IsRpmb [] (write_anchor rpmb [] behind).0 behind next_IsWord
      write_done
