-- ===== src/Client/Record/Replays/Fixtures.antt =====
-- cmd/vitrum/record.go with internal/witness/fixtures_test.go: cmdRecord, then TestFixtures.
use vitrum.Base.{ℕ, List, [], ◌++◌, Bool, true, Option, none, ◌≡◌, Bool-cases, inl, inr, subst}
use vitrum.Base.Bytes.{Bytes, codes}
use vitrum.Base.Dict.{Dict, insert}
use vitrum.Base.Result.{Result, ok, err, ◌>>=◌, >>=-eq-ok}
use vitrum.Witness.Logs.{Store, IsStore}
use vitrum.Witness.Pool.{Logic, Witness}
use vitrum.Witness.Request.RoundTrip.{IsHashText}
use vitrum.Witness.Round.{Turn}
use vitrum.Witness.Round.Alone.{IsReliable, IsIdle}
use vitrum.Witness.Round.Steps.{Signs}
use vitrum.Client.Logs.{FetchableLog, ResolveError, resolve_log}
use vitrum.Client.LogClient.{Tlog, LogClient, new_log_client}
use vitrum.Client.Record.{
  FixtureManifest, RecordError, Recording, of_resolve, check_directory, write_manifest, of_client,
  record_steps, cmd_record,
}
use vitrum.Client.Record.Replays.{replay}
use vitrum.Client.Record.Replays.Written.{of_client-ok}
use vitrum.Client.Record.Replays.Played.{IsLog, Plays, record_steps-Plays}

of_resolve-ok : {A : Type 0} (r : Result ResolveError A) {a : A} → of_resolve r ≡ ok a → r ≡ ok a
of_resolve-ok (ok b) h = cc
of_resolve-ok (err e) h = cc

module _ {S I V F : Type 0} (g : Logic) (hash_string : Bytes → Bytes)
    (texts : IsHashText g.parse_hash hash_string) (store : Store S I) (good : IsStore store)
    (reliable : IsReliable store) (turns : ℕ → Turn I) (key : ℕ)
    (signing : (k : ℕ) → Signs (turns k) key) (w : Witness S) (idle : IsIdle w key)
    (fresh : (o : Bytes) → store.get w.store o ≡ none) (can_write : Bytes → Bool)
    (l : Tlog V F) where
  module _ (can_make : Bool) (marshal : FixtureManifest → Bytes) (logs : List FetchableLog)
      (name url origin log_key : Bytes) (files : Dict Bytes) (first : Option Bytes)
      (polls : List (Option Bytes)) where
    abbrev manifest_of : FetchableLog → Recording → FixtureManifest
    manifest_of log d = record { origin = log.log.origin; vkey = log.log.vkey; steps = d.steps }

    abbrev Written : Type 0
    Written = Dict Bytes × FixtureManifest

    abbrev manifest_step : FetchableLog → Recording → Result RecordError Written
    manifest_step log d =
        write_manifest hash_string can_write l can_make marshal (manifest_of log d) d.files

    abbrev client_step : FetchableLog → LogClient V F → Result RecordError Written
    client_step log c =
        record_steps hash_string can_write l c (record { files = files; steps = [] }) first polls
        >>= manifest_step log

    abbrev log_step : FetchableLog → Result RecordError Written
    log_step log = check_directory can_make >>= λ made.
        of_client (new_log_client l log.monitoring_url log.log.origin log.log.vkey)
        >>= client_step log

    manifest_step-Plays :
        (log : FetchableLog) (d : Recording) (dir : Dict Bytes) (m : FixtureManifest)
        → ((manifest : Bytes)
            → Plays g hash_string texts store good reliable turns key signing w idle fresh can_write
                l manifest d)
        → manifest_step log d ≡ ok (dir, m)
        → replay g store turns w 0 dir m.steps ≡ true
    manifest_step-Plays log d dir m plays h =
        elim (Bool-cases (can_write (codes "manifest.json"))) [
          | inl e ↦
              let same : ◌≡◌ {A = Result RecordError Written}
                  (ok (
                    insert (codes "manifest.json") (marshal (manifest_of log d) ++ codes "\n")
                        d.files,
                    manifest_of log d,
                  ))
                  (ok (dir, m)) =
                rw e at h in
              let pair : ◌≡◌ {A = Written}
                  (
                    insert (codes "manifest.json") (marshal (manifest_of log d) ++ codes "\n")
                        d.files,
                    manifest_of log d,
                  )
                  (dir, m) =
                cc in
              subst (λ (r : Written). replay g store turns w 0 r.0 r.1.steps ≡ true) pair
                (plays (marshal (manifest_of log d) ++ codes "\n"))
          | inr e ↦ cc (rw e at h)
        ]

    -- Whatever fixtures cmdRecord writes without an error, TestFixtures finds that a fresh
    -- witness answers each of them with the status that the manifest lists. The witness has a
    -- key that signs, keeps its states in a store that neither halts nor fails a commit, gets
    -- one request at a time, and reads the log's checkpoints, of which none is of an empty
    -- tree, as the client does; tlog.CheckTree takes the log's proofs, but not one with its
    -- first byte inverted; the text of a hash is one line that parses back.
    pub cmd_record-replay :
        ((log : FetchableLog) (c : LogClient V F)
          → resolve_log logs name url origin log_key ≡ ok log
          → new_log_client l log.monitoring_url log.log.origin log.log.vkey ≡ ok c
          → IsLog g l c)
        → (dir : Dict Bytes) (m : FixtureManifest)
        → cmd_record hash_string can_write l can_make marshal logs name url origin log_key files
            first polls
          ≡ ok (dir, m)
        → replay g store turns w 0 dir m.steps ≡ true
    unfolding cmd_record
    cmd_record-replay honest dir m h =
        let (log, resolves, h1) =
          >>=-eq-ok (of_resolve (resolve_log logs name url origin log_key)) log_step h in
        let (made, makes, h2) =
          >>=-eq-ok (check_directory can_make)
            (λ made.
              of_client (new_log_client l log.monitoring_url log.log.origin log.log.vkey)
              >>= client_step log)
            h1 in
        let (c, connects, h3) =
          >>=-eq-ok (of_client (new_log_client l log.monitoring_url log.log.origin log.log.vkey))
            (client_step log) h2 in
        let (d, steps, h4) =
          >>=-eq-ok
            (record_steps hash_string can_write l c (record { files = files; steps = [] }) first
              polls)
            (manifest_step log) h3 in
        let is_log =
          honest log c (of_resolve-ok (resolve_log logs name url origin log_key) resolves) (
            of_client-ok (new_log_client l log.monitoring_url log.log.origin log.log.vkey)
              connects) in
        manifest_step-Plays log d dir m
          (λ manifest.
            record_steps-Plays g hash_string texts store good reliable turns key signing w idle
              fresh can_write l c is_log files manifest first polls d steps)
          h4
