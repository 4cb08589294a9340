-- ===== src/Client/LogClient.antt =====
-- cmd/vitrum/client.go: reading a log, and talking to a witness. Verifiers, tile fetchers and JSON
-- are of libraries; what a fetch or a post gives is an argument.
pub mod Checks
use vitrum.Base.{ℕ, List, [], ◌∷◌, ◌++◌, Bool, true, false, Option, none, some, ◌==◌, if◌then◌else◌}
use vitrum.Base.Bytes.{Bytes, codes, bytes_eq}
use vitrum.Base.Int.{ℤ}
use vitrum.Base.Result.{Result, ok, err, ◌>>=◌}
use vitrum.Witness.{Checkpoint}

-- note.NewVerifier, torchwood.NewTileFetcher, the text that note.Open gives with a verifier,
-- torchwood.ParseCheckpoint, and tlog.ProveTree over the tiles of a checkpoint's tree.
pub record Tlog (V F : Type 0) : Type 0 where
  pub new_verifier : Bytes → Option V
  pub new_tile_fetcher : Bytes → Option F
  pub open_text : V → Bytes → Option Bytes
  pub parse_checkpoint : Bytes → Option Checkpoint
  pub prove_tree : F → Checkpoint → ℤ → Option (List Bytes)

pub record LogClient (V F : Type 0) : Type 0 where
  pub origin : Bytes
  pub verifier : V
  pub fetcher : F

pub data ClientError : Type 0 where
  bad_verifier_key bad_url fetch_failed not_verified not_checkpoint no_proof : ClientError
  other_origin : Bytes → ClientError

abbrev pub or_error {ℓ} : {A : Type ℓ} → ClientError → Option A → Result ClientError A
or_error e none = err e
or_error e (some a) = ok a

module _ {V F : Type 0} (l : Tlog V F) where
  unfoldable pub new_log_client : Bytes → Bytes → Bytes → Result ClientError (LogClient V F)
  new_log_client monitoring_url origin vkey = do
    verifier ← or_error bad_verifier_key (l.new_verifier vkey)
    fetcher ← or_error bad_url (l.new_tile_fetcher monitoring_url)
    ok (record { origin = origin; verifier = verifier; fetcher = fetcher })

  -- The parsed checkpoint and the signed note, from what ReadEndpoint gave.
  unfoldable pub checkpoint : LogClient V F → Option Bytes → Result ClientError (Checkpoint × Bytes)
  checkpoint c fetched = do
    note ← or_error fetch_failed fetched
    text ← or_error not_verified (l.open_text c.verifier note)
    cp ← or_error not_checkpoint (l.parse_checkpoint text)
    (if bytes_eq cp.origin c.origin then ok (cp, note) else err (other_origin cp.origin))

  unfoldable pub prove_tree : LogClient V F → Checkpoint → ℤ → Result ClientError (List Bytes)
  prove_tree c cp older = or_error no_proof (l.prove_tree c.fetcher cp older)

-- strings.TrimRight(base, "/")
unfoldable pub trim_slashes : Bytes → Bytes
trim_slashes [] = []
trim_slashes (c ∷ r) = elim (trim_slashes r) [
  | [] ↦ if c == 47 then [] else c ∷ []
  | d ∷ rest ↦ c ∷ d ∷ rest
]

abbrev pub endpoint : Bytes → Bytes → Bytes
endpoint base path = trim_slashes base ++ path

pub data HealthError : Type 0 where
  no_answer bad_json no_witness_key : HealthError
  bad_status : ℕ → HealthError

-- The fields of the object that are strings; the decoder sees the body through its limit.
abbrev pub Fields : Type 0
Fields = Bytes → Option Bytes

abbrev decoded : Option Fields → Result HealthError Fields
decoded none = err bad_json
decoded (some f) = ok f

unfoldable pub healthz : (Bytes → Option Fields) → Option (ℕ × Bytes) → Result HealthError Fields
healthz decode none = err no_answer
healthz decode (some (code, body)) =
    if code == 200 then decoded (decode body) else err (bad_status code)

abbrev not_empty : Option Bytes → Result HealthError Bytes
not_empty none = err no_witness_key
not_empty (some []) = err no_witness_key
not_empty (some (c ∷ k)) = ok (c ∷ k)

-- The witness's verifier key as its /healthz reports it.
unfoldable pub reported_key :
    (Bytes → Option Fields) → Option (ℕ × Bytes) → Result HealthError Bytes
unfolding healthz
reported_key decode answer = do
  health ← healthz decode answer
  not_empty (health (codes "witness_key"))
