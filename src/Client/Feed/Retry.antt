-- ===== src/Client/Feed/Retry.antt =====
-- cmd/vitrum/feed.go with internal/witness: a conflict tells the feeder what the witness needs.
use vitrum.Base.{
  Option, ℕ, ◌^◌, ◌<◌, ◌≤◌, List, [], ◌∷◌, ◌++◌, true, false, none, some, ◌≡◌, ◌≢◌, refl, ap, ◌∙◌,
  ◌==◌, leb, ltb, length-append, length, Bool-cases, inl, inr, All, arith,
}
use vitrum.Base.Bytes.{Bytes, bytes_eq_iff}
use vitrum.Base.Dict.{lookup}
use vitrum.Base.Int.{pos, int_lt, int_eq}
use vitrum.Base.Decimal.{parse_int, format_int}
use vitrum.Base.Decimal.RoundTrip.{parse_int-format_int, length-format_int}
use vitrum.Base.Text.{trim_space}
use vitrum.Base.Text.Numbers.{format_int-IsPrint, format_int-ne-nil}
use vitrum.Base.Text.Words.{trim_space-line}
use vitrum.Base.Result.{ok}
use vitrum.Witness.{Checkpoint}
use vitrum.Witness.Logs.{Store}
use vitrum.Witness.Note.{note_text}
use vitrum.Witness.Request.{Request, encode_add_checkpoint, max_proof_lines}
use vitrum.Witness.Request.RoundTrip.{IsHashText}
use vitrum.Witness.Round.Encoded.{check_request-encode}
use vitrum.Witness.Pool.{
  Candidate, Witness, Logic, answers, waits, latest_size, latest_hash, conflict, max_pool_size,
  check_request, consistent, admit, add_to_pool, add_checkpoint,
}
use vitrum.Client.Feed.{
  Feeder, Response, limited, first_body, proof_for, retry_body, resubmit, after_first, feed,
}

-- The body of a conflict gives the size that the witness has.
conflict-size :
    (n : ℕ) → n < 2 ^ 63 → parse_int (trim_space (format_int (pos n) ++ (10 ∷ []))) ≡ some (pos n)
conflict-size n h =
    ap parse_int
      (trim_space-line (format_int (pos n)) (format_int-IsPrint n) (format_int-ne-nil n h))
    ∙ parse_int-format_int n h

-- A feeder and a witness: the same texts of hashes, the origin's state in the witness's store, a
-- checkpoint of a later or equal size that the witness reads in the note, and a proof that it takes.
module _ {S I : Type 0} (g : Logic) (store : Store S I) (f : Feeder)
    (good : IsHashText g.parse_hash f.hash_string) (w : Witness S) (key n m : ℕ) (cp : Checkpoint)
    (note text : Bytes) (proof : List Bytes) (signs : w.signer ≡ some key)
    (runs : store.halted w.store ≡ false) (nonempty : note ≢ [])
    (splits : note_text note ≡ some text) (parses : g.parse_checkpoint text ≡ some cp)
    (size : latest_size (store.get w.store cp.origin) ≡ pos n) (new_size : cp.n ≡ pos m)
    (positive : 0 < n) (grows : n ≤ m) (bound : m < 2 ^ 63)
    (free : lookup cp.origin w.current_pool ≡ none) (idle : lookup cp.origin w.in_sequencing ≡ none)
    (room : length w.current_pool < max_pool_size) where
  -- The candidate of the note.
  abbrev pub candidate : Candidate
  candidate = record { cp = cp; text = text; signer = key; epoch = w.epoch }

  checked :
      (old : ℕ) (hashes : List Bytes)
      → old ≤ m
      → All (λ h. length h ≡ 32) hashes
      → length hashes ≤ max_proof_lines
      → check_request g w.signer
          (store.halted w.store)
          w.epoch
          (encode_add_checkpoint f.hash_string (pos old) hashes note)
        ≡ ok (record { old = pos old; proof = hashes; note = note }, candidate)
  checked old hashes le sized few =
      check_request-encode g f.hash_string good w.signer (store.halted w.store) key w.epoch old m
        hashes note text cp signs runs
        (record {
          not_empty = nonempty;
          splits = splits;
          parses = parses;
          sized = new_size;
          in_range = bound;
        })
        (record { hashes = sized; few = few }) le

  no_entry : (req : Request) → add_to_pool g store w req candidate ≡ admit g store w req candidate
  unfolding add_to_pool
  no_entry req = ground (arith, free, idle)

  -- The pools take the retry, and answer the first submission by a conflict.
  pool-conflict :
      add_to_pool g store w (record { old = pos 0; proof = []; note = note }) candidate
      ≡ (w, answers (conflict (store.get w.store cp.origin)))
  unfolding admit
  pool-conflict =
      let has_room : leb max_pool_size (length w.current_pool) ≡ false = ground arith in
      let stale : int_eq (pos 0) (pos n) ≡ false = ground arith in
      rw (no_entry _, has_room, size, stale) refl

  first-conflict :
      add_checkpoint g store w (first_body f note)
      ≡ (w, answers (conflict (store.get w.store cp.origin)))
  unfolding add_checkpoint first_body
  first-conflict = rw (checked 0 [] (omega arith) tt (omega arith)) pool-conflict

  retry_body-size :
      proof_for f cp (pos n) ≡ some proof
      → retry_body f cp note (format_int (pos n) ++ (10 ∷ []))
        ≡ ok (encode_add_checkpoint f.hash_string (pos n) proof note)
  unfolding retry_body
  retry_body-size proved =
      let behind : int_lt (pos m) (pos n) ≡ false = ground arith in
      rw (conflict-size n (omega arith), proved, new_size, behind) refl

  consistent-true :
      proof_for f cp (pos n) ≡ some proof
      → (n ≡ m → cp.hash ≡ latest_hash (store.get w.store cp.origin))
      → (n < m
          → g.check_tree proof (pos m) cp.hash (pos n) (latest_hash (store.get w.store cp.origin))
            ≡ true)
      → consistent g
          (store.get w.store cp.origin)
          (record { old = pos n; proof = proof; note = note })
          cp
        ≡ true
  unfolding consistent
  consistent-true proved agrees proves = elim (Bool-cases (n == m)) [
    | inl e ↦
        let same : n ≡ m = ground arith in
        let none_needed : [] ≡ proof = ground (arith, proved, new_size) in
        rw (← none_needed, new_size) (ground (arith, (bytes_eq_iff cp.hash _).1 (agrees same)))
    | inr e ↦ rw new_size (ground (arith, proves (ground arith)))
  ]

  pool-waits :
      consistent g
          (store.get w.store cp.origin)
          (record { old = pos n; proof = proof; note = note })
          cp
        ≡ true
      → (add_to_pool g store w (record { old = pos n; proof = proof; note = note }) candidate).1
        ≡ waits cp.origin
  unfolding admit
  pool-waits taken =
      let has_room : leb max_pool_size (length w.current_pool) ≡ false = ground arith in
      let fits : int_eq (pos n) (latest_size (store.get w.store cp.origin)) ≡ true =
        rw size (ground arith) in
      rw (no_entry _, has_room, fits, taken) refl

  -- The answer is short enough for the feeder, which then submits the retry.
  feed-resubmit :
      (submit : Witness S → Bytes → Witness S × Option Response)
      → submit w (first_body f note)
        ≡ (w, some (409, (conflict (store.get w.store cp.origin)).resp))
      → proof_for f cp (pos n) ≡ some proof
      → feed f submit w cp note
        ≡ resubmit f submit w note (ok (encode_add_checkpoint f.hash_string (pos n) proof note))
  unfolding feed after_first limited conflict
  feed-resubmit submit answered proved =
      let short : ltb 1048576 (length (format_int (pos n) ++ (10 ∷ []))) ≡ false =
        ground (arith, length-append (format_int (pos n)) (10 ∷ []), length-format_int n) in
      rw (answered, size, short) (ap (resubmit f submit w note) (retry_body-size proved))

  -- When a running witness with a key has a log at a size between 1 and that of the feeder's
  -- checkpoint, has no submission of the log in its pools and room for one, the first
  -- submission of the feeder is answered by a conflict that changes nothing; cmdFeed, over a
  -- service that gives that answer, then submits a second body, which the witness takes into
  -- its pool. The feeder's proof is at most 63 hashes of 32 bytes and connects the state of the
  -- witness with the checkpoint, whose size is below 2 ^ 63, the witness reads the note as the
  -- feeder does, and the text of a hash is one line that parses back.
  pub feed-waits :
      (submit : Witness S → Bytes → Witness S × Option Response)
      → submit w (first_body f note)
        ≡ (w, some (409, (conflict (store.get w.store cp.origin)).resp))
      → proof_for f cp (pos n) ≡ some proof
      → All (λ h. length h ≡ 32) proof
      → length proof ≤ max_proof_lines
      → (n ≡ m → cp.hash ≡ latest_hash (store.get w.store cp.origin))
      → (n < m
          → g.check_tree proof (pos m) cp.hash (pos n) (latest_hash (store.get w.store cp.origin))
            ≡ true)
      → (add_checkpoint g store w (first_body f note)
          ≡ (w, answers (conflict (store.get w.store cp.origin))))
        × ((body : Bytes) × (feed f submit w cp note ≡ resubmit f submit w note (ok body))
            × ((add_checkpoint g store w body).1 ≡ waits cp.origin))
  unfolding add_checkpoint
  feed-waits submit answered proved sized few agrees proves = (
    first-conflict,
    (
      encode_add_checkpoint f.hash_string (pos n) proof note,
      feed-resubmit submit answered proved,
      rw (checked n proof grows sized few) (pool-waits (consistent-true proved agrees proves)),
    ),
  )
