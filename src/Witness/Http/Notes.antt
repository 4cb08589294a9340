-- ===== src/Witness/Http/Notes.antt =====
-- internal/witness/http.go: the checkpoint endpoint serves what is stored.
use vitrum.Base.{◌≡◌, refl, ap, [], ◌∷◌, Bool, true, false, some, if◌then◌else◌, arith}
use vitrum.Base.Bytes.{Bytes, bytes_eq, bytes_eq_iff}
use vitrum.Base.Dict.{Dict, lookup}
use vitrum.Witness.{LogState}
use vitrum.Witness.Logs.{Store}
use vitrum.Witness.Pool.{Logic, Witness}
use vitrum.Witness.Http.{is_origin_hash, find_note, checkpoint, get_checkpoint, plain_text}

module _ (hash_of : Bytes → Bytes) where
  find_note-lookup :
      (h : Bytes) (m : Dict LogState) (note : Bytes)
      → find_note hash_of h m ≡ some note
      → (o : Bytes) × (st : LogState) × (lookup o m ≡ some st) × (hash_of o ≡ h) × (st.note ≡ note)
  unfolding find_note lookup
  find_note-lookup h [] note e = cc
  find_note-lookup h ((o, st) ∷ m) note e =
      go (bytes_eq (hash_of o) h) refl e (find_note-lookup h m note)
    where
      later : (p : Bytes) → bytes_eq (hash_of o) h ≡ false → hash_of p ≡ h → bytes_eq o p ≡ false
      later p f q = ground (arith, bytes_eq_iff (hash_of o) h, bytes_eq_iff o p, ap hash_of)

      go :
          (b : Bool)
          → bytes_eq (hash_of o) h ≡ b
          → (if b then some st.note else find_note hash_of h m) ≡ some note
          → (find_note hash_of h m ≡ some note
              → (p : Bytes) × (x : LogState) × (lookup p m ≡ some x)
                × (hash_of p ≡ h)
                × (x.note ≡ note))
          → (p : Bytes) × (x : LogState) × (lookup p ((o, st) ∷ m) ≡ some x)
            × (hash_of p ≡ h)
            × (x.note ≡ note)
      go true f e rec = (
        o,
        st,
        ground (arith, bytes_eq_iff o o),
        ground (arith, bytes_eq_iff (hash_of o) h),
        ground arith,
      )
      go false f e rec = let (p, x, there, q, n) = rec e in (p, x, rw (later p f q) there, q, n)

  find_note_stored :
      (o : Bytes) (st : LogState) (m : Dict LogState)
      → ((p : Bytes) → hash_of p ≡ hash_of o → p ≡ o)
      → lookup o m ≡ some st
      → find_note hash_of (hash_of o) m ≡ some st.note
  unfolding find_note lookup
  find_note_stored o st [] inj e = cc
  find_note_stored o st ((p, x) ∷ m) inj e = ground (
    arith,
    find_note_stored o st m inj,
    bytes_eq_iff p o,
    bytes_eq_iff (hash_of p) (hash_of o),
    inj p,
    ap hash_of,
  )

  module _ {S I : Type 0} (g : Logic) (store : Store S I) where
    get_checkpoint-note :
        (w : Witness S) (h : Bytes)
        → (get_checkpoint hash_of g store w h).code ≡ 200
        → find_note hash_of h (store.all w.store) ≡ some (get_checkpoint hash_of g store w h).body
    unfolding get_checkpoint checkpoint
    get_checkpoint-note w h e = ground arith

    -- When the checkpoint endpoint answers 200, some origin in the store has the hash that was
    -- asked for, and the answer's body is the note that is stored for it.
    pub get_checkpoint-lookup :
        (w : Witness S) (h : Bytes)
        → (get_checkpoint hash_of g store w h).code ≡ 200
        → (o : Bytes) × (st : LogState) × (lookup o (store.all w.store) ≡ some st)
          × (hash_of o ≡ h)
          × (st.note ≡ (get_checkpoint hash_of g store w h).body)
    get_checkpoint-lookup w h e =
        find_note-lookup h (store.all w.store) (get_checkpoint hash_of g store w h).body
          (get_checkpoint-note w h e)

    -- For an origin in the store whose hash has the form of one and that no other origin
    -- shares, the checkpoint endpoint answers that hash with 200, plain text and the stored
    -- note.
    pub get_checkpoint_stored :
        (w : Witness S) (o : Bytes) (st : LogState)
        → ((p : Bytes) → hash_of p ≡ hash_of o → p ≡ o)
        → is_origin_hash (hash_of o) ≡ true
        → lookup o (store.all w.store) ≡ some st
        → get_checkpoint hash_of g store w (hash_of o)
          ≡ record { code = 200; content_type = plain_text; body = st.note }
    unfolding get_checkpoint checkpoint
    get_checkpoint_stored w o st inj hex there =
        rw (hex, find_note_stored o st (store.all w.store) inj there)
