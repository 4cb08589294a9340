-- ===== src/Client/Feed/Accepted.antt =====
-- cmd/vitrum/feed.go and cosig.go: a feed that ends well has a verified cosignature.
use vitrum.Base.{
  ℕ, List, [], ◌∷◌, ◌++◌, Option, none, some, ◌≡◌, ◌⊎◌, inl, inr, ◌==◌, Bool-cases, refl, arith, ap,
  ◌∙◌, if◌then◌else◌,
}
use vitrum.Base.Bytes.{Bytes, bytes_eq, bytes_eq_iff}
use vitrum.Base.Int.{ℤ, pos, int_lt}
use vitrum.Base.Decimal.{parse_int}
use vitrum.Base.Text.{trim_space}
use vitrum.Base.Result.{Result, ok, err, ◌>>=◌, >>=-eq-ok}
use vitrum.Witness.{Checkpoint}
use vitrum.Witness.Request.{encode_add_checkpoint}
use vitrum.Client.Feed.{
  Signature, Feeder, Response, FeedError, or_error, limited, witness_time, verify_cosignature,
  finish, first_body, proof_for, retry_body, resubmit, after_first, feed,
}

-- A signature of that name has the time.
abbrev pub SignedAt : Bytes → ℤ → List Signature → Type 0
SignedAt name time [] = ⊥
SignedAt name time (s ∷ sigs) =
    ((s.name ≡ name) × (s.timestamp ≡ some time)) ⊎ SignedAt name time sigs

or_error-ok : {A : Type 0} (e : FeedError) (o : Option A) {a : A} → or_error e o ≡ ok a → o ≡ some a
or_error-ok e none h = cc
or_error-ok e (some b) h = cc

module _ (f : Feeder) where
  witness_time-SignedAt :
      (sigs : List Signature) (time : ℤ)
      → witness_time f sigs ≡ ok time
      → SignedAt f.witness_name time sigs
  unfolding witness_time
  witness_time-SignedAt [] time h = cc
  witness_time-SignedAt (s ∷ sigs) time h = elim (Bool-cases (bytes_eq s.name f.witness_name)) [
    | inl e ↦
        inl ((bytes_eq_iff _ _).0 e, or_error-ok FeedError.bad_timestamp s.timestamp (rw e at h))
    | inr e ↦ inr (witness_time-SignedAt sigs time (rw e at h))
  ]

  -- The signatures of a note with the witness's answer, one of which has the time.
  abbrev pub Cosigned : Bytes → Bytes → ℤ → Type 0
  Cosigned note resp time =
      (sigs : List Signature) × (f.open_note (note ++ resp) ≡ some sigs)
      × SignedAt f.witness_name time sigs

  finish-Cosigned :
      (note resp : Bytes) (code : ℕ) (time : ℤ)
      → finish f note (code, resp) ≡ ok time
      → (code ≡ 200) × Cosigned note resp time
  unfolding finish verify_cosignature
  finish-Cosigned note resp code time h = elim (Bool-cases (code == 200)) [
    | inl eq ↦
        let (sigs, opened, timed) =
          >>=-eq-ok (or_error FeedError.bad_note (f.open_note (note ++ resp))) (witness_time f)
            (rw eq at h) in
        (
          ground arith,
          (
            sigs,
            or_error-ok FeedError.bad_note (f.open_note (note ++ resp)) opened,
            witness_time-SignedAt sigs time timed,
          ),
        )
    | inr ne ↦ cc (rw ne at h)
  ]

  limited-ok :
      (answer : Option Response) (code : ℕ) (resp : Bytes)
      → limited answer ≡ ok (code, resp)
      → answer ≡ some (code, resp)
  unfolding limited
  limited-ok none code resp h = cc
  limited-ok (some (c, b)) code resp h = ground arith

  -- The body was made for the note.
  abbrev pub Encodes : Bytes → Bytes → Type 0
  Encodes note body =
      (old : ℤ) × (proof : List Bytes) × (body ≡ encode_add_checkpoint f.hash_string old proof note)

  abbrev chosen : Checkpoint → ℤ → Result FeedError (List Bytes)
  chosen cp latest =
      if int_lt cp.n latest
      then err FeedError.ahead
      else or_error FeedError.proof_failed (proof_for f cp latest)

  retry_body-Encodes :
      (cp : Checkpoint) (note resp body : Bytes)
      → retry_body f cp note resp ≡ ok body
      → Encodes note body
  unfolding retry_body
  retry_body-Encodes cp note resp body h =
      let (latest, found, h1) =
        >>=-eq-ok (or_error FeedError.bad_conflict (parse_int (trim_space resp)))
          (λ latest. chosen cp latest >>= λ proof.
            ok (encode_add_checkpoint f.hash_string latest proof note))
          h in
      let (proof, proved, h2) =
        >>=-eq-ok (chosen cp latest)
          (λ proof. ok (encode_add_checkpoint f.hash_string latest proof note)) h1 in
      (latest, proof, cc)

  module _ {W : Type 0} (submit : W → Bytes → W × Option Response) where
    -- A submission of the note that was answered with 200 and the signatures of the answer.
    pub data Accepted (note : Bytes) (time : ℤ) : Type 0 where
      accepted :
          (w : W) (body resp : Bytes)
          → Encodes note body
          → (submit w body).1 ≡ some (200, resp)
          → Cosigned note resp time
          → Accepted note time

    answer-Accepted :
        (w : W) (note body : Bytes) (time : ℤ)
        → Encodes note body
        → (limited (submit w body).1 >>= finish f note) ≡ ok time
        → Accepted note time
    answer-Accepted w note body time made h =
        let ((code, resp), e1, h1) = >>=-eq-ok (limited (submit w body).1) (finish f note) h in
        let (ok_code, cosigned) = finish-Cosigned note resp code time h1 in
        accepted w body resp made
          (limited-ok (submit w body).1 code resp e1 ∙ ap (λ (c : ℕ). some (c, resp)) ok_code)
          cosigned

    resubmit-Accepted :
        (w : W) (note : Bytes) (r : Result FeedError Bytes) (time : ℤ)
        → ((body : Bytes) → r ≡ ok body → Encodes note body)
        → (resubmit f submit w note r).1 ≡ ok time
        → Accepted note time
    unfolding resubmit
    resubmit-Accepted w note (err e) time made h = cc
    resubmit-Accepted w note (ok body) time made h =
        answer-Accepted w note body time (made body refl) h

    pub feed-Accepted :
        (w : W) (cp : Checkpoint) (note : Bytes) (time : ℤ)
        → (feed f submit w cp note).1 ≡ ok time
        → Accepted note time
    unfolding feed first_body
    feed-Accepted w cp note time h = go (limited (submit w (first_body f note)).1) refl h
      where
        v : W
        v = (submit w (first_body f note)).0

        go :
            (a : Result FeedError Response)
            → limited (submit w (first_body f note)).1 ≡ a
            → (after_first f submit v cp note a).1 ≡ ok time
            → Accepted note time
        go (err e) k h = cc
        go (ok (code, resp)) k h = elim (Bool-cases (code == 409)) [
          | inl conflict ↦
              resubmit-Accepted v note (retry_body f cp note resp) time
                (retry_body-Encodes cp note resp) (rw conflict at h)
          | inr other ↦
              answer-Accepted w note (first_body f note) time (pos 0, [], refl)
                (ap (λ a. a >>= finish f note) k ∙ (rw other at h))
        ]
