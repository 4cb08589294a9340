-- ===== src/State/Store.antt =====
-- internal/state/store.go: RollbackStore, over the crypto, the block device, the anchor and the
-- parser of checkpoints, which are parameters. A method returns the new store beside its error.
pub mod Boot
pub mod Decision
pub mod Commit
pub mod Failure
pub mod Admit
pub mod Adopted
pub mod Recovery
pub mod Serve
use vitrum.Base.{
  ℕ, ◌+◌, ◌-◌, ◌%◌, ◌^◌, List, [], ◌∷◌, Bool, true, false, not, ◌&&◌, Option, none, some, ltb, ◌==◌,
  if◌then◌else◌,
}
use vitrum.Base.Bytes.{Bytes, bytes_eq}
use vitrum.Base.Dict.{Dict, insert}
use vitrum.Base.Result.{Result, ok, err, ◌>>=◌}
use vitrum.Witness.{Checkpoint, LogState}
use vitrum.Witness.Logs.{MemStore, new_mem_store}
use vitrum.Witness.Logs
use vitrum.Witness.Note.{restore_note}
use vitrum.State.{Error, write_failed, bad_note, wrong_origin, halted}
use vitrum.State.Anchor.{AnchorState, Anchor}
use vitrum.State.Blob.{Crypto, BlockDevice, LoadedBlob, save, load}

-- What the store is built over.
pub record Platform (D A : Type 0) : Type 0 where
  pub crypto : Crypto
  pub device : BlockDevice D
  pub anchor : Anchor A
  pub parse_checkpoint : Bytes → Option Checkpoint

pub record RollbackStore (D A : Type 0) : Type 0 where
  pub mem : MemStore
  pub dev : D
  pub off : ℕ
  pub key : Bytes
  pub anchor : A
  pub gen : ℕ
  pub halted : Bool

-- ^uint32(0)
abbrev pub max_uint32 : ℕ
max_uint32 = 2 ^ 32 - 1

-- The generation after `g`, as a uint32.
abbrev pub next_gen : ℕ → ℕ
next_gen g = (g + 1) % 2 ^ 32

abbrev pub anchor_for : LoadedBlob → AnchorState
anchor_for blob = record { generation = blob.gen; blob_hash = blob.hash; bound = true }

-- errors.Is(err, ErrWriteFailed)
abbrev pub is_write_failed : Error → Bool
is_write_failed write_failed = true
is_write_failed _ = false

-- states[o] = x.Note for every entry of a map
unfoldable pub add_notes : Dict LogState → Dict Bytes → Dict Bytes
add_notes [] states = states
add_notes ((o, x) ∷ r) states = add_notes r (insert o x.note states)

-- The loop at the end of admit, one PutBatch for each entry.
unfoldable pub put_each : Dict LogState → MemStore → MemStore
unfolding Logs.put_batch
put_each [] mem = mem
put_each ((o, st) ∷ r) mem = put_each r (Logs.put_batch mem ((o, st) ∷ []))

-- The two errors of an entry, on what RestoreNote returned.
abbrev pub checked_entry : Bytes → Option (Bytes × LogState) → Result Error (Bytes × LogState)
checked_entry origin none = err bad_note
checked_entry origin (some (o, st)) = if bytes_eq o origin then ok (o, st) else err wrong_origin

module _ (parse_checkpoint : Bytes → Option Checkpoint) where
  -- One entry of admit's first loop.
  unfoldable pub admit_entry : Bytes → Bytes → Result Error (Bytes × LogState)
  admit_entry origin note = checked_entry origin (restore_note parse_checkpoint note)

  unfoldable pub admit_notes : Dict Bytes → Dict LogState → Result Error (Dict LogState)
  unfolding admit_entry
  admit_notes [] restored = ok restored
  admit_notes ((origin, note) ∷ rest) restored = do
    (o, st) ← admit_entry origin note
    admit_notes rest (insert o st restored)

module _ {D A : Type 0} where
  unfoldable pub halt : RollbackStore D A → RollbackStore D A
  halt s = record s { halted = true }

  unfoldable pub new_store : D → ℕ → Bytes → A → RollbackStore D A
  new_store dev offset key anchor = record {
    mem = new_mem_store;
    dev = dev;
    off = offset;
    key = key;
    anchor = anchor;
    gen = 0;
    halted = false;
  }

  -- What the blob of the next generation holds.
  unfoldable pub next_states : RollbackStore D A → Dict LogState → Dict Bytes
  unfolding add_notes
  next_states s updates = add_notes updates (add_notes (Logs.all s.mem) [])

module _ {D A : Type 0} (p : Platform D A) where
  -- admit, and the halt that both its callers make of an error
  unfoldable pub admit_into :
      RollbackStore D A → Result Error (Dict LogState) → RollbackStore D A × Bool
  unfolding halt put_each
  admit_into s (err e) = (halt s, false)
  admit_into s (ok restored) = (record s { mem = put_each restored s.mem }, true)

  unfoldable pub adopt : RollbackStore D A → LoadedBlob → RollbackStore D A × Bool
  unfolding admit_into
  adopt s blob =
      admit_into (record s { gen = blob.gen }) (admit_notes p.parse_checkpoint blob.states [])

  -- Open after SetAnchor for an adopted blob
  unfoldable pub reanchored : RollbackStore D A → A × Option Error → RollbackStore D A
  unfolding halt
  reanchored s (a, none) = record s { anchor = a }
  reanchored s (a, some e) = halt (record s { anchor = a })

  -- Open after admit of a blob one generation ahead
  unfoldable pub reanchor : RollbackStore D A × Bool → LoadedBlob → RollbackStore D A
  unfolding reanchored
  reanchor (s, false) blob = s
  reanchor (s, true) blob = reanchored s (p.anchor.set_anchor s.anchor (anchor_for blob))

  -- The switch of Open.
  unfoldable pub boot :
      RollbackStore D A → AnchorState → Result Error LoadedBlob → RollbackStore D A
  unfolding halt adopt reanchor
  boot s anchored (err e) =
      if anchored.generation == 0 && not anchored.bound then record s { gen = 0 } else halt s
  boot s anchored (ok blob) =
      if blob.gen == anchored.generation
      then (if not anchored.bound
          then halt s
          else if not (bytes_eq blob.hash anchored.blob_hash)
          then halt s
          else (adopt s blob).0)
      else if not (anchored.generation == max_uint32) && blob.gen == next_gen anchored.generation
      then reanchor (adopt s blob) blob
      else if not (anchored.generation == max_uint32) && ltb (next_gen anchored.generation) blob.gen
      then halt s
      else halt s

  unfoldable pub open_store : D → ℕ → Bytes → A → Result Error (RollbackStore D A)
  unfolding new_store boot
  open_store dev offset key anchor = do
    anchored ← p.anchor.anchor anchor
    ok (boot (new_store dev offset key anchor) anchored (load p.crypto p.device dev offset key))

  -- PutBatch after S2, on what SetAnchor returned
  unfoldable pub after_anchor :
      RollbackStore D A
      → D
      → ℕ
      → Dict LogState
      → A × Option Error
      → RollbackStore D A × Option Error
  unfolding halt Logs.put_batch
  after_anchor s d next updates (a, none) =
      (record s { dev = d; anchor = a; mem = Logs.put_batch s.mem updates; gen = next }, none)
  after_anchor s d next updates (a, some e) = (halt (record s { dev = d; anchor = a }), some e)

  -- PutBatch after S1, on what save returned
  unfoldable pub after_save :
      RollbackStore D A
      → ℕ
      → Dict LogState
      → D × Result Error Bytes
      → RollbackStore D A × Option Error
  unfolding halt
  after_save s next updates (d, err e) =
      (if is_write_failed e then halt (record s { dev = d }) else record s { dev = d }, some e)
  after_save s next updates (d, ok h) =
      after_anchor s d next updates
        (p.anchor.set_anchor s.anchor (record { generation = next; blob_hash = h; bound = true }))

  -- PutBatch. `nonce` is what rand.Read gives to save.
  unfoldable pub put_batch :
      RollbackStore D A → Option Bytes → Dict LogState → RollbackStore D A × Option Error
  unfolding halt after_save
  put_batch s nonce updates =
      if s.halted
      then (s, some halted)
      else if s.gen == max_uint32
      then (halt s, some halted)
      else (let next = next_gen s.gen in
          after_save s next updates
            (save p.crypto p.device s.dev s.off s.key nonce next (next_states s updates)))

  -- Put
  abbrev pub put :
      RollbackStore D A → Option Bytes → Bytes → LogState → RollbackStore D A × Option Error
  put s nonce origin st = put_batch s nonce ((origin, st) ∷ [])
