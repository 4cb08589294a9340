-- ===== src/Client/Feed/Command.antt =====
-- cmd/vitrum/feed.go: cmdFeed from its flags on.
pub mod Verified
use vitrum.Base.{ℕ, List, [], ◌∷◌, Option, none, some}
use vitrum.Base.Bytes.{Bytes}
use vitrum.Base.Int.{ℤ}
use vitrum.Base.Result.{Result, ok, err, ◌>>=◌}
use vitrum.Witness.{Checkpoint}
use vitrum.Client.Logs.{FetchableLog, ResolveError, resolve_log}
use vitrum.Client.LogClient.{
  Tlog, LogClient, ClientError, HealthError, Fields, new_log_client, checkpoint, reported_key,
}
use vitrum.Client.Feed.{Signature, Feeder, Response, FeedError, feed}

-- torchwood.NewCosignatureVerifier, note.Open with such a verifier, and the verifier's name.
pub record Cosigners (K : Type 0) : Type 0 where
  pub new_cosignature_verifier : Bytes → Option K
  pub open_note : K → Bytes → Option (List Signature)
  pub name : K → Bytes

pub record Flags : Type 0 where
  pub log_name : Bytes
  pub log_url : Bytes
  pub origin : Bytes
  pub log_key : Bytes
  pub witness_key : Bytes

pub data CommandError : Type 0 where
  not_resolved : ResolveError → CommandError
  client_failed : ClientError → CommandError
  no_key : HealthError → CommandError
  bad_witness_key : CommandError
  not_fed : FeedError → CommandError

abbrev pub map_error : {E G A : Type 0} → (E → G) → Result E A → Result G A
map_error f (ok a) = ok a
map_error f (err e) = err (f e)

-- What cmdFeed has before the first submission.
pub record Prepared (V F K : Type 0) : Type 0 where
  pub client : LogClient V F
  pub verifier : K
  pub cp : Checkpoint
  pub note : Bytes

-- The key of the flag, or what /healthz reports.
abbrev pub given_or_reported :
    (Bytes → Option Fields) → Option Response → Bytes → Result CommandError Bytes
given_or_reported decode health [] = map_error no_key (reported_key decode health)
given_or_reported decode health (c ∷ key) = ok (c ∷ key)

abbrev pub cosigner : {K : Type 0} → Option K → Result CommandError K
cosigner none = err bad_witness_key
cosigner (some v) = ok v

module _ {V F K : Type 0} (l : Tlog V F) (k : Cosigners K) (hash_string : Bytes → Bytes)
    (decode : Bytes → Option Fields) (logs : List FetchableLog) (flags : Flags)
    (health : Option Response) (fetched : Option Bytes) where
  unfoldable pub prepare : Result CommandError (Prepared V F K)
  prepare = do
    log ←
        map_error not_resolved
          (resolve_log logs flags.log_name flags.log_url flags.origin flags.log_key)
    client ←
        map_error client_failed (new_log_client l log.monitoring_url log.log.origin log.log.vkey)
    key ← given_or_reported decode health flags.witness_key
    verifier ← cosigner (k.new_cosignature_verifier key)
    (cp, note) ← map_error client_failed (checkpoint l client fetched)
    ok (record { client = client; verifier = verifier; cp = cp; note = note })

  abbrev pub feeder_of : Prepared V F K → Feeder
  feeder_of p = record {
    hash_string = hash_string;
    prove_tree = λ cp older. l.prove_tree p.client.fetcher cp older;
    open_note = λ note. k.open_note p.verifier note;
    witness_name = k.name p.verifier;
  }

  module _ {W : Type 0} (submit : W → Bytes → W × Option Response) where
    abbrev pub fed : W × Result FeedError ℤ → W × Result CommandError ℤ
    fed (w, r) = (w, map_error not_fed r)

    abbrev pub run : W → Result CommandError (Prepared V F K) → W × Result CommandError ℤ
    run w (err e) = (w, err e)
    run w (ok p) = fed (feed (feeder_of p) submit w p.cp p.note)

    -- cmdFeed, with the timestamp that it prints.
    unfoldable pub cmd_feed : W → W × Result CommandError ℤ
    unfolding prepare
    cmd_feed w = run w prepare
