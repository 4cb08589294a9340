-- ===== src/Client/Feed/Command/Verified.antt =====
-- cmd/vitrum/feed.go: what a success of cmdFeed says.
use vitrum.Base.{List, Option, none, some, ◌≡◌, refl, subst, ◌∙◌}
use vitrum.Base.Bytes.{Bytes}
use vitrum.Base.Int.{ℤ}
use vitrum.Base.Result.{Result, ok, err, ◌>>=◌, >>=-eq-ok}
use vitrum.Client.Logs.{FetchableLog, resolve_log}
use vitrum.Client.LogClient.{Tlog, LogClient, Fields, new_log_client, checkpoint}
use vitrum.Client.LogClient.Checks.{checkpoint-IsChecked, new_log_client-origin}
use vitrum.Client.Feed.{Response, feed}
use vitrum.Client.Feed.Command.{
  Cosigners, Flags, CommandError, Prepared, map_error, cosigner, run, given_or_reported, prepare,
  feeder_of, cmd_feed,
}
use vitrum.Client.Feed.Accepted.{Accepted, feed-Accepted}

map_error-ok :
    {E G A : Type 0} (f : E → G) (r : Result E A) {a : A} → map_error f r ≡ ok a → r ≡ ok a
map_error-ok f (ok b) h = cc
map_error-ok f (err e) h = cc

cosigner-ok : {K : Type 0} (o : Option K) {v : K} → cosigner o ≡ ok v → o ≡ some v
cosigner-ok none h = cc
cosigner-ok (some b) h = cc

module _ {V F K : Type 0} (l : Tlog V F) (k : Cosigners K) (hash_string : Bytes → Bytes)
    (decode : Bytes → Option Fields) (logs : List FetchableLog) (flags : Flags)
    (health : Option Response) (fetched : Option Bytes) where
  -- The client of the log that the flags name, with the checkpoint that it fetched and verified, and
  -- the verifier of the witness's key.
  pub data IsPrepared (p : Prepared V F K) : Type 0 where
    is_prepared :
        (log : FetchableLog) (key text : Bytes)
        → resolve_log logs flags.log_name flags.log_url flags.origin flags.log_key ≡ ok log
        → new_log_client l log.monitoring_url log.log.origin log.log.vkey ≡ ok p.client
        → given_or_reported decode health flags.witness_key ≡ ok key
        → k.new_cosignature_verifier key ≡ some p.verifier
        → fetched ≡ some p.note
        → l.open_text p.client.verifier p.note ≡ some text
        → l.parse_checkpoint text ≡ some p.cp
        → p.cp.origin ≡ log.log.origin
        → IsPrepared p

  -- The steps of prepare, from each of them on.
  abbrev with_note : LogClient V F → K → Result CommandError (Prepared V F K)
  with_note c v = do
    (cp, note) ← map_error CommandError.client_failed (checkpoint l c fetched)
    ok (record { client = c; verifier = v; cp = cp; note = note })

  abbrev with_key : LogClient V F → Bytes → Result CommandError (Prepared V F K)
  with_key c key = cosigner (k.new_cosignature_verifier key) >>= with_note c

  abbrev with_client : LogClient V F → Result CommandError (Prepared V F K)
  with_client c = given_or_reported decode health flags.witness_key >>= with_key c

  abbrev with_log : FetchableLog → Result CommandError (Prepared V F K)
  with_log log =
      map_error CommandError.client_failed
        (new_log_client l log.monitoring_url log.log.origin log.log.vkey)
      >>= with_client

  prepare-IsPrepared :
      (p : Prepared V F K)
      → prepare l k hash_string decode logs flags health fetched ≡ ok p
      → IsPrepared p
  unfolding prepare
  prepare-IsPrepared p h =
      let (log, resolved, h1) =
        >>=-eq-ok
          (map_error CommandError.not_resolved
            (resolve_log logs flags.log_name flags.log_url flags.origin flags.log_key))
          with_log h in
      let (c, made, h2) =
        >>=-eq-ok
          (map_error CommandError.client_failed
            (new_log_client l log.monitoring_url log.log.origin log.log.vkey))
          with_client h1 in
      let (key, given, h3) =
        >>=-eq-ok (given_or_reported decode health flags.witness_key) (with_key c) h2 in
      let (v, verifies, h4) =
        >>=-eq-ok (cosigner (k.new_cosignature_verifier key)) (with_note c) h3 in
      let ((cp, note), fetches, h5) =
        >>=-eq-ok (map_error CommandError.client_failed (checkpoint l c fetched))
          (λ (cp, note). ok (record { client = c; verifier = v; cp = cp; note = note })) h4 in
      let checks =
        checkpoint-IsChecked l c fetched cp note
          (map_error-ok CommandError.client_failed (checkpoint l c fetched) fetches) in
      let same : record { client = c; verifier = v; cp = cp; note = note } ≡ p = cc in
      subst IsPrepared same (
        is_prepared log key checks.text
          (map_error-ok CommandError.not_resolved
            (resolve_log logs flags.log_name flags.log_url flags.origin flags.log_key) resolved)
          (map_error-ok CommandError.client_failed
            (new_log_client l log.monitoring_url log.log.origin log.log.vkey) made)
          given (cosigner-ok (k.new_cosignature_verifier key) verifies) checks.got checks.opened
          checks.parsed
          (checks.own
            ∙ new_log_client-origin l log.monitoring_url log.log.origin log.log.vkey c (
                map_error-ok CommandError.client_failed
                  (new_log_client l log.monitoring_url log.log.origin log.log.vkey) made)))

  module _ {W : Type 0} (submit : W → Bytes → W × Option Response) where
    -- The fetched checkpoint of the named log was accepted by the witness, with a cosignature.
    abbrev pub IsFed : ℤ → Type 0
    IsFed time =
        (p : Prepared V F K) × IsPrepared p
        × Accepted (feeder_of l k hash_string decode logs flags health fetched p) submit p.note time

    -- When cmdFeed prints a timestamp, the log that the flags name is known, its client fetched
    -- a checkpoint that opens under the log's key and bears the log's origin, the witness's key
    -- is that of the flag or of /healthz, and the witness answered a submission of that
    -- checkpoint's note with 200 and lines which, behind the note, open under the witness's key
    -- and have a signature of its name with that timestamp.
    pub cmd_feed-IsFed :
        (w : W) (time : ℤ)
        → (cmd_feed l k hash_string decode logs flags health fetched submit w).1 ≡ ok time
        → IsFed time
    unfolding cmd_feed
    cmd_feed-IsFed w time h = go (prepare l k hash_string decode logs flags health fetched) refl h
      where
        go :
            (r : Result CommandError (Prepared V F K))
            → prepare l k hash_string decode logs flags health fetched ≡ r
            → (run l k hash_string decode logs flags health fetched submit w r).1 ≡ ok time
            → IsFed time
        go (err e) q h = cc
        go (ok p) q h = (
          p,
          prepare-IsPrepared p q,
          feed-Accepted (feeder_of l k hash_string decode logs flags health fetched p) submit w p.cp
              p.note time
              (map_error-ok CommandError.not_fed
                (feed (feeder_of l k hash_string decode logs flags health fetched p) submit w p.cp
                  p.note).1
                h),
        )
