-- ===== src/Client/Feed.antt =====
-- cmd/vitrum/feed.go, client.go and cosig.go: submitting a log's checkpoint to a witness.
pub mod Accepted
pub mod Command
pub mod Retry
use vitrum.Base.{
  ℕ, List, [], ◌∷◌, ◌++◌, Bool, true, false, ◌&&◌, Option, none, some, ◌==◌, ltb, if◌then◌else◌,
  length,
}
use vitrum.Base.Bytes.{Bytes, bytes_eq}
use vitrum.Base.Int.{ℤ, pos, int_lt}
use vitrum.Base.Decimal.{parse_int}
use vitrum.Base.Text.{trim_space}
use vitrum.Base.Result.{Result, ok, err, ◌>>=◌}
use vitrum.Witness.{Checkpoint}
use vitrum.Witness.Request.{encode_add_checkpoint}

-- A signature of an opened note: its name, and what torchwood.CosignatureTimestamp says of it.
pub record Signature : Type 0 where
  pub name : Bytes
  pub timestamp : Option ℤ

-- The text of a hash, proveTree on a checkpoint and an older size, note.Open with the witness's
-- verifier, and the verifier's name.
pub record Feeder : Type 0 where
  pub hash_string : Bytes → Bytes
  pub prove_tree : Checkpoint → ℤ → Option (List Bytes)
  pub open_note : Bytes → Option (List Signature)
  pub witness_name : Bytes

-- A status code and a body.
abbrev pub Response : Type 0
Response = ℕ × Bytes

pub data FeedError : Type 0 where
  submit_failed bad_conflict ahead proof_failed bad_note no_cosignature bad_timestamp : FeedError
  refused : ℕ → Bytes → FeedError

abbrev pub max_witness_response : ℕ
max_witness_response = 1048576

-- What post returns for a response: an error when the body is too long.
unfoldable pub limited : Option Response → Result FeedError Response
limited none = err submit_failed
limited (some (code, resp)) =
    if ltb max_witness_response (length resp) then err submit_failed else ok (code, resp)

abbrev pub or_error : {A : Type 0} → FeedError → Option A → Result FeedError A
or_error e none = err e
or_error e (some a) = ok a

module _ (f : Feeder) where
  unfoldable pub witness_time : List Signature → Result FeedError ℤ
  witness_time [] = err no_cosignature
  witness_time (s ∷ r) =
      let rest = witness_time r in
      if bytes_eq s.name f.witness_name then or_error bad_timestamp s.timestamp else rest

  unfoldable pub verify_cosignature : Bytes → Bytes → Result FeedError ℤ
  unfolding witness_time
  verify_cosignature cp_note cosig =
      or_error bad_note (f.open_note (cp_note ++ cosig)) >>= witness_time

  -- The first body, with the old size 0.
  unfoldable pub first_body : Bytes → Bytes
  first_body cp_note = encode_add_checkpoint f.hash_string (pos 0) [] cp_note

  abbrev pub proof_for : Checkpoint → ℤ → Option (List Bytes)
  proof_for cp latest =
      if int_lt (pos 0) latest && int_lt latest cp.n then f.prove_tree cp latest else some []

  -- The body for a witness that answered a conflict.
  unfoldable pub retry_body : Checkpoint → Bytes → Bytes → Result FeedError Bytes
  retry_body cp cp_note resp = do
    latest ← or_error bad_conflict (parse_int (trim_space resp))
    proof ← (if int_lt cp.n latest then err ahead else or_error proof_failed (proof_for cp latest))
    ok (encode_add_checkpoint f.hash_string latest proof cp_note)

  unfoldable pub finish : Bytes → Response → Result FeedError ℤ
  unfolding verify_cosignature
  finish cp_note (code, resp) =
      if code == 200 then verify_cosignature cp_note resp else err (refused code resp)

  -- The service is a witness behind its endpoint, with what it may do on a request.
  module _ {W : Type 0} (submit : W → Bytes → W × Option Response) where
    unfoldable pub resubmit : W → Bytes → Result FeedError Bytes → W × Result FeedError ℤ
    unfolding limited finish
    resubmit w cp_note (err e) = (w, err e)
    resubmit w cp_note (ok body) =
        let (after, answer) = submit w body in (after, limited answer >>= finish cp_note)

    unfoldable pub after_first :
        W → Checkpoint → Bytes → Result FeedError Response → W × Result FeedError ℤ
    unfolding resubmit retry_body finish
    after_first w cp cp_note (err e) = (w, err e)
    after_first w cp cp_note (ok (code, resp)) =
        if code == 409
        then resubmit w cp_note (retry_body cp cp_note resp)
        else (w, finish cp_note (code, resp))

    -- cmdFeed, from the first submission on, with the timestamp that it prints.
    unfoldable pub feed : W → Checkpoint → Bytes → W × Result FeedError ℤ
    unfolding after_first first_body limited
    feed w cp cp_note =
        let (after, answer) = submit w (first_body cp_note) in
        after_first after cp cp_note (limited answer)
