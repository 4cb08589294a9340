-- ===== src/State/Codec/RoundTrip.antt =====
-- internal/state/blob.go: decode reads back what encode wrote.
use vitrum.Base.{
  ℕ, zero, suc, ◌+◌, ◌^◌, ◌≤◌, ◌<◌, ◌≡◌, ◌≢◌, All, refl, sym, ap, ◌∙◌, List, [], ◌∷◌, ◌++◌, Option,
  none, some, true, false, ◌||◌, length, take, drop, ltb, le→ltb, arith, ◌⊎◌, if◌then◌else◌,
  length-append, take-append, drop-append, append_assoc, inl, inr, Bool-cases,
}
use vitrum.Base.Bytes.{Bytes, bytes_eq, bytes_eq_iff, bytes_eq_refl}
use vitrum.Base.Word.{le_put_uint16, le_put_uint32, le_uint32, le_uint16-put, le_uint32-put}
use vitrum.Base.Dict.{Dict, lookup, insert, keys, has, lookup-insert, lookup-none-has}
use vitrum.Base.Dict.Distinct.{lookup-not-has}
use vitrum.Base.Result.{Result, ok, err, >>=-eq-ok}
use vitrum.State.{Error, truncated_note}
use vitrum.State.Codec.{
  sorted_insert, sorted, note_of, encode_entry, encode_loop, encode, decode_entry, decode_loop,
  decode,
}

-- The bytes of one entry, with what follows it.
abbrev pub entry_bytes : Bytes → Bytes → Bytes → Bytes
entry_bytes o n r = le_put_uint16 (length o) ++ (o ++ (le_put_uint32 (length n) ++ (n ++ r)))

-- The two parts of `decode_entry`, on a payload whose lengths are known.
note_step :
    (o n r : Bytes)
    → length n < 2 ^ 32
    → (let after = le_put_uint32 (length n) ++ (n ++ r) in
        ◌≡◌ {A = Result Error (Bytes × Bytes × Bytes)}
          (if ltb (length (drop 4 after)) (le_uint32 after)
            then err truncated_note
            else ok
                (o, take (le_uint32 after) (drop 4 after), drop (le_uint32 after) (drop 4 after)))
          (ok (o, n, r)))
note_step o n r h = rw (
  le_uint32-put (length n) (n ++ r) h,
  le→ltb (length (n ++ r)) (length n) (omega (arith, length-append n r)),
  take-append n r,
  drop-append n r,
)

pub decode_entry-bytes :
    (o n r : Bytes)
    → length o ≤ 65535
    → length n < 2 ^ 32
    → decode_entry (entry_bytes o n r) ≡ ok (o, n, r)
unfolding decode_entry
decode_entry-bytes o n r ho hn =
    let rest = o ++ (le_put_uint32 (length n) ++ (n ++ r)) in
    rw
      (
        le→ltb (length (entry_bytes o n r)) 2 (omega arith),
        le_uint16-put (length o) rest (omega arith),
        le→ltb (length rest) (length o + 4) (
            omega
              (arith, length-append o (le_put_uint32 (length n) ++ (n ++ r)), length-append n r)),
        take-append o (le_put_uint32 (length n) ++ (n ++ r)),
        drop-append o (le_put_uint32 (length n) ++ (n ++ r)),
      )
      (note_step o n r hn)

-- What `encode_entry` accepts, and what it writes.
encode_entry-eq-ok :
    (o n b : Bytes)
    → encode_entry o n ≡ ok b
    → (length o ≤ 65535)
      × (length n < 2 ^ 32)
      × (le_put_uint16 (length o) ++ (o ++ (le_put_uint32 (length n) ++ n)) ≡ b)
unfolding encode_entry
encode_entry-eq-ok o n b h = ground arith

append-entry :
    (o n r : Bytes)
    → (le_put_uint16 (length o) ++ (o ++ (le_put_uint32 (length n) ++ n))) ++ r ≡ entry_bytes o n r
append-entry o n r = simp append_assoc

decode_entry-encode_entry :
    (o n b r : Bytes) → encode_entry o n ≡ ok b → decode_entry (b ++ r) ≡ ok (o, n, r)
decode_entry-encode_entry o n b r h =
    let (ho, hn, e) = encode_entry-eq-ok o n b h in
    rw (← e, append-entry o n r) (decode_entry-bytes o n r ho hn)

length-encode_entry : (o n b : Bytes) → encode_entry o n ≡ ok b → 0 < length b
length-encode_entry o n b h = let (ho, hn, e) = encode_entry-eq-ok o n b h in rw (← e) (omega arith)

-- One round of the loop, on a payload that is not empty.
decode_loop_step :
    (fuel : ℕ) (payload o n r : Bytes) (acc : Dict Bytes)
    → 0 < length payload
    → decode_entry payload ≡ ok (o, n, r)
    → decode_loop (suc fuel) payload acc ≡ decode_loop fuel r (insert o n acc)
unfolding decode_loop
decode_loop_step fuel [] o n r acc h e = absurd (omega arith)
decode_loop_step fuel (b ∷ bs) o n r acc h e = rw e

-- The map that decode builds from the entries of `ks`.
pub rebuilt : Dict Bytes → List Bytes → Dict Bytes → Dict Bytes
rebuilt states [] acc = acc
rebuilt states (k ∷ ks) acc = rebuilt states ks (insert k (note_of (lookup k states)) acc)

encode_loop-cons :
    (states : Dict Bytes) (k : Bytes) (ks : List Bytes) (b : Bytes)
    → encode_loop states (k ∷ ks) ≡ ok b
    → (c : Bytes) × (r : Bytes) × (encode_entry k (note_of (lookup k states)) ≡ ok c)
      × (encode_loop states ks ≡ ok r)
      × (c ++ r ≡ b)
unfolding encode_loop
encode_loop-cons states k ks b h =
    let (c, hc, h') = >>=-eq-ok (encode_entry k (note_of (lookup k states))) _ h in
    let (r, hr, e) = >>=-eq-ok (encode_loop states ks) _ h' in (c, r, hc, hr, cc)

decode_loop-encode_loop :
    (states : Dict Bytes) (ks : List Bytes) (fuel : ℕ) (b : Bytes) (acc : Dict Bytes)
    → encode_loop states ks ≡ ok b
    → length b ≤ fuel
    → decode_loop fuel b acc ≡ ok (rebuilt states ks acc)
decode_loop-encode_loop states [] fuel [] acc h hf = unfold decode_loop rebuilt in refl
decode_loop-encode_loop states [] fuel (x ∷ b) acc h hf = unfold encode_loop in cc
decode_loop-encode_loop states (k ∷ ks) zero b acc h hf =
    let (c, r, hc, hr, e) = encode_loop-cons states k ks b h in
    absurd (
      omega (
        arith,
        length-encode_entry k (note_of (lookup k states)) c hc,
        length-append c r,
        ap (λ (l : Bytes). length l) e,
      ))
decode_loop-encode_loop states (k ∷ ks) (suc fuel) b acc h hf =
    let n = note_of (lookup k states) in
    let (c, r, hc, hr, e) = encode_loop-cons states k ks b h in
    let long : 0 < length c = length-encode_entry k n c hc in
    let whole : length c + length r ≡ length b =
      sym (length-append c r) ∙ ap (λ (l : Bytes). length l) e in
    decode_loop_step fuel b k n r acc (omega arith)
      (rw (← e) (decode_entry-encode_entry k n c r hc))
    ∙ decode_loop-encode_loop states ks fuel r (insert k n acc) hr (omega arith)
    ∙ unfold rebuilt in refl

module _ (states : Dict Bytes) (k : Bytes) where
  lookup-rebuilt :
      (ks : List Bytes) (acc : Dict Bytes)
      → lookup k (rebuilt states ks acc)
        ≡ (if has k ks then some (note_of (lookup k states)) else lookup k acc)
  unfolding rebuilt has
  lookup-rebuilt [] acc = refl
  lookup-rebuilt (j ∷ ks) acc = ground (
    arith,
    lookup-rebuilt ks (insert j (note_of (lookup j states)) acc),
    lookup-insert j k (note_of (lookup j states)) acc,
    bytes_eq_iff j k,
  )

has-sorted_insert :
    (k j : Bytes) (l : List Bytes) → has k (sorted_insert j l) ≡ (bytes_eq j k || has k l)
unfolding has sorted_insert
has-sorted_insert k j [] = refl
has-sorted_insert k j (i ∷ l) = ground (arith, has-sorted_insert k j l)

has-sorted : (k : Bytes) (l : List Bytes) → has k (sorted l) ≡ has k l
unfolding sorted has
has-sorted k [] = refl
has-sorted k (j ∷ l) = rw (has-sorted_insert k j (sorted l), has-sorted k l)

-- A map that was read back: each entry of it is one of `states`, and no key is missing.
abbrev pub SameMap : Dict Bytes → Dict Bytes → Type 0
SameMap out states =
    ((k : Bytes) → lookup k out ≡ lookup k states) × All (λ e. lookup e.0 states ≡ some e.1) out

insert-All :
    (P : Bytes × Bytes → Type 0) (k v : Bytes) (m : Dict Bytes)
    → P (k, v)
    → All P m
    → All P (insert k v m)
unfolding insert
insert-All P k v [] h hm = (h, tt)
insert-All P k v ((j, w) ∷ m) h hm = elim (Bool-cases (bytes_eq j k)) [
  | inl e ↦ rw e (h, hm.1)
  | inr e ↦ rw e (hm.0, insert-All P k v m h hm.1)
]

has-All :
    (l big : List Bytes)
    → ((k : Bytes) → has k l ≡ true → has k big ≡ true)
    → All (λ k. has k big ≡ true) l
unfolding has
has-All [] big h = tt
has-All (j ∷ l) big h = (h j (rw (bytes_eq_refl j)), has-All l big (λ k e. h k (ground (arith, e))))

note_of-some : (o : Option Bytes) → o ≢ none → o ≡ some (note_of o)
note_of-some none h = absurd (h refl)
note_of-some (some n) h = refl

module _ (states : Dict Bytes) where
  present :
      (k : Bytes) → has k (keys states) ≡ true → lookup k states ≡ some (note_of (lookup k states))
  present k h = note_of-some (lookup k states) (λ e. absent (lookup-none-has k states e))
    where
      absent : has k (keys states) ≡ false → ⊥
      absent e = cc

  rebuilt-All :
      (ks : List Bytes) (acc : Dict Bytes)
      → All (λ k. has k (keys states) ≡ true) ks
      → All (λ e. lookup e.0 states ≡ some e.1) acc
      → All (λ e. lookup e.0 states ≡ some e.1) (rebuilt states ks acc)
  unfolding rebuilt
  rebuilt-All [] acc hk h = h
  rebuilt-All (k ∷ ks) acc hk h = rebuilt-All ks (insert k (note_of (lookup k states)) acc) hk.1 (
      insert-All (λ e. lookup e.0 states ≡ some e.1) k (note_of (lookup k states)) acc
        (present k hk.0) h)

  lookup-rebuilt_all :
      (k : Bytes) → lookup k (rebuilt states (sorted (keys states)) []) ≡ lookup k states
  lookup-rebuilt_all k =
      lookup-rebuilt states k (sorted (keys states)) []
      ∙ rw (has-sorted k (keys states)) (found (Bool-cases (has k (keys states))))
    where
      found :
          (has k (keys states) ≡ true) ⊎ (has k (keys states) ≡ false)
          → (if has k (keys states) then some (note_of (lookup k states)) else lookup k [])
            ≡ lookup k states
      found (inl e) = rw e (sym (present k e))
      found (inr e) = rw e (unfold lookup in sym (lookup-not-has k states e))

-- When encode returns a payload for a map, decode of the payload returns a map with the same
-- lookups as the map, each of whose entries is an entry of the map.
pub decode-encode :
    (states : Dict Bytes) (b : Bytes)
    → encode states ≡ ok b
    → (out : Dict Bytes) × (decode b ≡ ok out) × SameMap out states
unfolding encode decode
decode-encode states b h =
    let ks = sorted (keys states) in
    (
      rebuilt states ks [],
      decode_loop-encode_loop states ks (length b) b [] h (omega arith),
      (
        lookup-rebuilt_all states,
        rebuilt-All states ks []
            (has-All ks (keys states) (λ k e. sym (has-sorted k (keys states)) ∙ e)) tt,
      ),
    )
