-- ===== src/State/Store/Admit.antt =====
-- internal/state/store.go: admit restores the states that a commit's notes came from.
use vitrum.Base.{◌≡◌, refl, ap, ◌∙◌, [], ◌∷◌, Option, some, if◌then◌else◌, arith, All}
use vitrum.Base.Bytes.{Bytes, bytes_eq_iff, bytes_eq_refl}
use vitrum.Base.Dict.{Dict, lookup, insert, insert_all, keys, has, lookup-insert}
use vitrum.Base.Dict.Distinct.{Distinct, insert-Distinct, or_else-none, lookup-insert_all}
use mathlib.Core.Option
use vitrum.Base.Result.{ok}
use vitrum.Witness.{Checkpoint, LogState}
use vitrum.Witness.Logs
use vitrum.Witness.Logs.{MemStore}
use vitrum.Witness.Note.{restore_note}
use vitrum.State.Store.{
  admit_entry, checked_entry, admit_notes, put_each, add_notes, next_states, RollbackStore,
}

module _ (parse_checkpoint : Bytes → Option Checkpoint) where
  -- Every state of the map is what RestoreNote makes of its note.
  pub record IsRestorable (m : Dict LogState) : Type 0 where
    pub at :
        (o : Bytes) (st : LogState)
        → lookup o m ≡ some st
        → restore_note parse_checkpoint st.note ≡ some (o, st)

  -- An entry whose note restores to what the map has at its key.
  abbrev pub Restores : Dict LogState → Bytes × Bytes → Type 0
  Restores m (o, note) =
      (st : LogState) × (lookup o m ≡ some st) × (restore_note parse_checkpoint note ≡ some (o, st))

  pub admit_entry-eq-ok :
      (o note : Bytes) (st : LogState)
      → restore_note parse_checkpoint note ≡ some (o, st)
      → admit_entry parse_checkpoint o note ≡ ok (o, st)
  unfolding admit_entry
  admit_entry-eq-ok o note st e = ap (checked_entry o) e ∙ rw (bytes_eq_refl o)

  -- Such entries are all admitted, and what is restored is the map, at their keys.
  pub admit_notes-Restores :
      (m : Dict LogState) (l : Dict Bytes) (acc : Dict LogState)
      → All (Restores m) l
      → Distinct acc
      → (r : Dict LogState) × (admit_notes parse_checkpoint l acc ≡ ok r)
        × Distinct r
        × ((k : Bytes) → lookup k r ≡ (if has k (keys l) then lookup k m else lookup k acc))
  unfolding admit_notes has keys
  admit_notes-Restores m [] acc h d = (acc, refl, d, λ k. refl)
  admit_notes-Restores m ((o, note) ∷ l) acc ((st, there, e), rest) d =
      let (r, done, d', same) =
        admit_notes-Restores m l (insert o st acc) rest (insert-Distinct o st acc d) in
      (
        r,
        rw (admit_entry-eq-ok o note st e) done,
        d',
        λ k. same k ∙ ground (arith, lookup-insert o k st acc, bytes_eq_iff o k, there),
      )

-- The loop of PutBatch calls is the map's own update.
pub put_each-insert_all : (r : Dict LogState) (mem : MemStore) → put_each r mem ≡ insert_all r mem
unfolding put_each insert_all
put_each-insert_all [] mem = refl
put_each-insert_all ((o, st) ∷ r) mem = put_each-insert_all r (insert o st mem)

-- `states` holds the notes of `m`.
abbrev pub Notes : Dict Bytes → Dict LogState → Type 0
Notes states m = (k : Bytes) → lookup k states ≡ Option.map (λ st. st.note) (lookup k m)

add_notes-Notes :
    (u : Dict LogState) (states : Dict Bytes) (m : Dict LogState)
    → Notes states m
    → Notes (add_notes u states) (insert_all u m)
unfolding add_notes insert_all
add_notes-Notes [] states m h = h
add_notes-Notes ((o, x) ∷ u) states m h =
    add_notes-Notes u (insert o x.note states) (insert o x m)
      λ k. ground (arith, lookup-insert o k x.note states, lookup-insert o k x m, h k)

-- The blob of a commit holds the notes that memory has after it.
pub next_states-Notes :
    {D A : Type 0} (s : RollbackStore D A) (updates : Dict LogState)
    → Distinct s.mem
    → Notes (next_states s updates) (Logs.put_batch s.mem updates)
unfolding next_states Logs.put_batch Logs.all lookup
next_states-Notes s updates d = add_notes-Notes updates (add_notes s.mem []) s.mem λ k.
    add_notes-Notes s.mem [] [] (λ j. unfold lookup in refl) k
    ∙ ap (Option.map (λ st. st.note))
        (lookup-insert_all k s.mem [] d ∙ or_else-none (lookup k s.mem))
