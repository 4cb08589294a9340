-- ===== src/Witness/Note.antt =====
-- internal/witness/witness.go: RestoreNote, and the split of a signed note.
use vitrum.Base.{
  ℕ, suc, ◌+◌, [], ◌∷◌, Bool, false, ◌&&◌, Option, none, some, take, ◌==◌, if◌then◌else◌,
}
use vitrum.Base.Bytes.{Bytes}
use vitrum.Witness.{Checkpoint, LogState}

-- bytes.Index(b, []byte("\n\n")), with `none` for -1
starts_blank : Bytes → Bool
starts_blank (x ∷ y ∷ r) = x == 10 && y == 10
starts_blank _ = false

unfoldable pub index_blank : Bytes → Option ℕ
unfolding starts_blank
index_blank [] = none
index_blank (x ∷ r) =
    if starts_blank (x ∷ r)
    then some 0
    else (elim (index_blank r) [ none ↦ none | some i ↦ some (suc i) ])

-- The checkpoint text of a signed note: `noteBytes[:sep+1]`.
unfoldable pub note_text : Bytes → Option Bytes
unfolding index_blank
note_text b = elim (index_blank b) [ none ↦ none | some sep ↦ some (take (sep + 1) b) ]

-- torchwood.ParseCheckpoint is a parameter.
module _ (parse_checkpoint : Bytes → Option Checkpoint) where
  log_state_of : Bytes → Option Checkpoint → Option (Bytes × LogState)
  log_state_of b none = none
  log_state_of b (some cp) = some (cp.origin, record { size = cp.n; hash = cp.hash; note = b })

  -- The origin and the state of a persisted note; `none` is either error of the source.
  unfoldable pub restore_note : Bytes → Option (Bytes × LogState)
  unfolding note_text log_state_of
  restore_note b = elim (note_text b) [
    | none ↦ none
    | some text ↦ log_state_of b (parse_checkpoint text)
  ]
