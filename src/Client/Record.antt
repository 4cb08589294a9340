-- ===== src/Client/Record.antt =====
-- cmd/vitrum/record.go: cmdRecord and the manifest of its fixtures. Whether the directory can be made
-- and a file written are arguments; the directory's name and the log lines are left out.
pub mod Replays
use vitrum.Base.{ℕ, List, [], ◌∷◌, ◌++◌, Bool, true, false, Option, none, some, if◌then◌else◌}
use vitrum.Base.Bytes.{Bytes, codes}
use vitrum.Base.Dict.{Dict, insert}
use vitrum.Base.Int.{ℤ, pos, int_lt}
use vitrum.Base.Result.{Result, ok, err, ◌>>=◌}
use Prim.Native.Nat.{bit_xor}
use vitrum.Witness.{Checkpoint}
use vitrum.Witness.Pool.{null}
use vitrum.Witness.Request.{encode_add_checkpoint}
use vitrum.Client.Logs.{FetchableLog, ResolveError, resolve_log}
use vitrum.Client.LogClient.{Tlog, LogClient, ClientError, new_log_client, checkpoint, prove_tree}

pub record FixtureStep : Type 0 where
  pub file : Bytes
  pub status : ℕ

pub record FixtureManifest : Type 0 where
  pub origin : Bytes
  pub vkey : Bytes
  pub steps : List FixtureStep

pub data RecordError : Type 0 where
  not_resolved : ResolveError → RecordError
  no_directory : RecordError
  client_failed : ClientError → RecordError
  write_failed : Bytes → RecordError

-- The files of the output directory, and the steps so far.
pub record Recording : Type 0 where
  pub files : Dict Bytes
  pub steps : List FixtureStep

abbrev pub of_resolve : {A : Type 0} → Result ResolveError A → Result RecordError A
of_resolve (ok a) = ok a
of_resolve (err e) = err (not_resolved e)

abbrev pub of_client : {A : Type 0} → Result ClientError A → Result RecordError A
of_client (ok a) = ok a
of_client (err e) = err (client_failed e)

abbrev pub check_directory : Bool → Result RecordError (Unit {0})
check_directory true = ok tt
check_directory false = err no_directory

-- bad[0][0] ^= 0xff
abbrev flip : Bytes → Bytes
flip [] = []
flip (b ∷ h) = bit_xor b 0xff ∷ h

abbrev pub tampered : List Bytes → List Bytes
tampered [] = []
tampered (h ∷ proof) = flip h ∷ proof

module _ (hash_string : Bytes → Bytes) (can_write : Bytes → Bool) where
  abbrev body : ℤ → List Bytes → Bytes → Bytes
  body old proof note = encode_add_checkpoint hash_string old proof note

  unfoldable pub step : Recording → Bytes → ℕ → Bytes → Result RecordError Recording
  step d name status content =
      let file = name ++ codes ".req" in
      if can_write file
      then ok (record {
        files = insert file content d.files;
        steps = d.steps ++ (record { file = file; status = status } ∷ []);
      })
      else err (write_failed file)

  abbrev pub bad_step : Recording → Checkpoint → Bytes → List Bytes → Result RecordError Recording
  bad_step d cp1 note2 proof =
      if null proof
      then ok d
      else step d (codes "02-badproof") 422 (body cp1.n (tampered proof) note2)

  module _ {V F : Type 0} (l : Tlog V F) (c : LogClient V F) where
    -- The wait for the log to grow, over what the fetches gave before the deadline.
    unfoldable pub wait_growth :
        Checkpoint
        → Checkpoint × Bytes
        → List (Option Bytes)
        → Result RecordError (Checkpoint × Bytes)
    wait_growth cp1 newest [] = ok newest
    wait_growth cp1 newest (fetched ∷ polls) =
        let rest = of_client (checkpoint l c fetched) >>= λ next. wait_growth cp1 next polls in
        if int_lt cp1.n newest.0.n then ok newest else rest

    unfoldable pub grown :
        Recording → Checkpoint → Checkpoint × Bytes → Result RecordError Recording
    unfolding step
    grown d cp1 (cp2, note2) =
        if int_lt cp1.n cp2.n
        then (do
          proof ← of_client (prove_tree l c cp2 cp1.n)
          d2 ← bad_step d cp1 note2 proof
          step d2 (codes "03-grow") 200 (body cp1.n proof note2))
        else ok d

    -- cmdRecord between the creation of the client and the manifest.
    unfoldable pub record_steps :
        Recording → Option Bytes → List (Option Bytes) → Result RecordError Recording
    unfolding step wait_growth grown
    record_steps d first polls = do
      (cp1, note1) ← of_client (checkpoint l c first)
      d0 ← step d (codes "00-first") 200 (body (pos 0) [] note1)
      d1 ← step d0 (codes "01-resubmit") 200 (body cp1.n [] note1)
      (cp2, note2) ← wait_growth cp1 (cp1, note1) polls
      d3 ← grown d1 cp1 (cp2, note2)
      step d3 (codes "99-stale") 409 (body (pos 0) [] note1)

  -- json.MarshalIndent is a parameter.
  module _ {V F : Type 0} (l : Tlog V F) (can_make : Bool) (marshal : FixtureManifest → Bytes) where
    abbrev pub write_manifest :
        FixtureManifest → Dict Bytes → Result RecordError (Dict Bytes × FixtureManifest)
    write_manifest m files =
        if can_write (codes "manifest.json")
        then ok (insert (codes "manifest.json") (marshal m ++ codes "\n") files, m)
        else err (write_failed (codes "manifest.json"))

    -- The directory and the manifest that cmdRecord leaves, over what was in the directory.
    unfoldable pub cmd_record :
        List FetchableLog
        → Bytes
        → Bytes
        → Bytes
        → Bytes
        → Dict Bytes
        → Option Bytes
        → List (Option Bytes)
        → Result RecordError (Dict Bytes × FixtureManifest)
    unfolding record_steps
    cmd_record logs name url origin key files first polls = do
      log ← of_resolve (resolve_log logs name url origin key)
      made ← check_directory can_make
      client ← of_client (new_log_client l log.monitoring_url log.log.origin log.log.vkey)
      d ← record_steps l client (record { files = files; steps = [] }) first polls
      write_manifest (record { origin = log.log.origin; vkey = log.log.vkey; steps = d.steps })
          d.files
