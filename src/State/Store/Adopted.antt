-- ===== src/State/Store/Adopted.antt =====
-- internal/state/store.go: adopt takes the states of a blob, or halts when a note does not restore.
use vitrum.Base.{
  ◌≡◌, refl, ap, ◌∙◌, ◌⊎◌, inl, inr, true, false, Option, none, some, [], ◌∷◌, if◌then◌else◌, All,
  Bool-cases, arith,
}
use vitrum.Base.Bytes.{Bytes, bytes_eq, bytes_eq_iff, bytes_eq_refl}
use vitrum.Base.Dict.{Dict, has, keys, lookup, insert}
use vitrum.Base.Dict.Distinct.{Distinct, or_else, lookup-insert_all}
use vitrum.Base.Result.{err}
use vitrum.Witness.{LogState}
use vitrum.Witness.Note.{restore_note}
use vitrum.State.{Error, bad_note, wrong_origin}
use vitrum.State.Blob.{LoadedBlob}
use vitrum.State.Store.{
  Platform, RollbackStore, halt, admit_into, admit_notes, admit_entry, checked_entry, put_each,
  adopt,
}
use vitrum.State.Store.Admit.{
  Restores, admit_notes-Restores, put_each-insert_all, admit_entry-eq-ok,
}

module _ {D A : Type 0} (p : Platform D A) where
  -- The note restores, under the origin that it is stored for.
  abbrev IsReadable : Bytes × Bytes → Type 0
  IsReadable (o, note) = (st : LogState) × (restore_note p.parse_checkpoint note ≡ some (o, st))

  -- From `s`, the store has taken the generation and all states of the blob, and nothing else.
  pub record Adopted (blob : LoadedBlob) (s t : RollbackStore D A) : Type 0 where
    pub restores : All (Restores p.parse_checkpoint t.mem) blob.states
    pub others : (k : Bytes) → has k (keys blob.states) ≡ false → lookup k t.mem ≡ lookup k s.mem
    pub else_same : t ≡ record s { mem = t.mem; gen = blob.gen }

  -- A note of the blob does not restore, and the store is halted with the states of `s`.
  abbrev pub Unreadable : LoadedBlob → RollbackStore D A → RollbackStore D A → Type 0
  Unreadable blob s t =
      (All IsReadable blob.states → ⊥) × (t ≡ record s { gen = blob.gen; halted = true })

  -- The states of readable entries.
  states_of : (l : Dict Bytes) → All IsReadable l → Dict LogState
  states_of [] h = []
  states_of ((o, note) ∷ l) ((st, e), h) = (o, st) ∷ states_of l h

  IsReadable-cases :
      (o note : Bytes)
      → (IsReadable (o, note))
        ⊎ ((e : Error) × (admit_entry p.parse_checkpoint o note ≡ err e)
            × (IsReadable (o, note) → ⊥))
  unfolding admit_entry
  IsReadable-cases o note = go (restore_note p.parse_checkpoint note) refl
    where
      go :
          (r : Option (Bytes × LogState))
          → restore_note p.parse_checkpoint note ≡ r
          → (IsReadable (o, note))
            ⊎ ((e : Error) × (admit_entry p.parse_checkpoint o note ≡ err e)
                × (IsReadable (o, note) → ⊥))
      go none e = inr (bad_note, ap (checked_entry o) e, λ h. cc (h.1))
      go (some (o', st)) e = elim (Bool-cases (bytes_eq o' o)) [
        | inl same ↦ inl (st, e ∙ ap (λ (x : Bytes). some (x, st)) ((bytes_eq_iff o' o).0 same))
        | inr other ↦ inr (
          wrong_origin,
          ap (checked_entry o) e ∙ rw other refl,
          λ h. cc (h.1, other, bytes_eq_refl o),
        )
      ]

  admit_notes-fails :
      (l : Dict Bytes) (acc : Dict LogState)
      → (All IsReadable l)
        ⊎ ((e : Error) × (admit_notes p.parse_checkpoint l acc ≡ err e) × (All IsReadable l → ⊥))
  unfolding admit_notes
  admit_notes-fails [] acc = inl tt
  admit_notes-fails ((o, note) ∷ l) acc = elim (IsReadable-cases o note) [
    | inr (e, fails, bad) ↦ inr (e, rw fails refl, λ h. bad h.0)
    | inl (st, e) ↦ elim (admit_notes-fails l (insert o st acc)) [
      | inl h ↦ inl ((st, e), h)
      | inr (x, fails, bad) ↦
          inr (x, rw (admit_entry-eq-ok p.parse_checkpoint o note st e, fails) refl, λ h. bad h.1)
    ]
  ]

  -- A map that agrees with the states at the keys of the entries.
  agrees-Restores :
      (l : Dict Bytes) (h : All IsReadable l) (m : Dict LogState)
      → Distinct l
      → ((k : Bytes) → has k (keys l) ≡ true → lookup k m ≡ lookup k (states_of l h))
      → All (Restores p.parse_checkpoint m) l
  unfolding has keys lookup states_of
  agrees-Restores [] h m d same = tt
  agrees-Restores ((o, note) ∷ l) ((st, e), h) m (new, d) same = (
    (st, same o (rw (bytes_eq_refl o) refl) ∙ rw (bytes_eq_refl o) refl, e),
    agrees-Restores l h m d (λ k there. ground (arith, same k, bytes_eq_iff o k)),
  )

  has-states_of :
      (l : Dict Bytes) (h : All IsReadable l) (k : Bytes)
      → has k (keys l) ≡ true
      → (st : LogState) × (lookup k (states_of l h) ≡ some st)
  unfolding has keys lookup states_of
  has-states_of [] h k there = cc
  has-states_of ((o, note) ∷ l) ((st, e), h) k there = elim (Bool-cases (bytes_eq o k)) [
    | inl same ↦ (st, rw same refl)
    | inr other ↦
        let (st', found) = has-states_of l h k (rw other at there) in (st', rw other found)
  ]

  pub adopt-cases :
      (s : RollbackStore D A) (blob : LoadedBlob)
      → Distinct blob.states
      → ((t : RollbackStore D A) × (adopt p s blob ≡ (t, true)) × Adopted blob s t)
        ⊎ ((t : RollbackStore D A) × (adopt p s blob ≡ (t, false)) × Unreadable blob s t)
  unfolding adopt admit_into halt
  adopt-cases s blob d = elim (admit_notes-fails blob.states []) [
    | inr (e, fails, bad) ↦ inr (_, rw fails refl, (bad, refl))
    | inl h ↦
        let m = states_of blob.states h in
        let (r, done, d', at) =
          admit_notes-Restores p.parse_checkpoint m blob.states []
            (agrees-Restores blob.states h m d (λ k there. refl)) tt in
        let after : (k : Bytes)
            → lookup k (put_each r s.mem)
              ≡ or_else (if has k (keys blob.states) then lookup k m else none) (lookup k s.mem) =
          λ k. rw (put_each-insert_all r s.mem) (
            lookup-insert_all k r s.mem d'
            ∙ ap (λ o. or_else o (lookup k s.mem)) (at k ∙ (unfold lookup in refl))) in
        inl (
          record s { mem = put_each r s.mem; gen = blob.gen },
          rw done refl,
          record {
            restores = agrees-Restores blob.states h (put_each r s.mem) d (λ k there.
                let (st, found) = has-states_of blob.states h k there in
                after k ∙ rw (there, found) refl);
            others = λ k gone. after k ∙ rw gone refl;
            else_same = refl;
          },
        )
  ]
