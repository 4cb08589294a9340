-- ===== src/Client/LogClient/Checks.antt =====
-- cmd/vitrum/client.go: what the log client has checked.
use vitrum.Base.{Option, none, some, ◌≡◌, inl, inr, Bool-cases, if◌then◌else◌, ap, sym, ◌∙◌}
use vitrum.Base.Bytes.{Bytes, bytes_eq, bytes_eq_iff}
use vitrum.Base.Result.{Result, ok, err, ◌>>=◌, >>=-eq-ok}
use vitrum.Witness.{Checkpoint}
use vitrum.Client.LogClient.{Tlog, LogClient, ClientError, or_error, new_log_client, checkpoint}

pub or_error-ok :
    {A : Type 0} (e : ClientError) (o : Option A) {a : A} → or_error e o ≡ ok a → o ≡ some a
or_error-ok e none h = cc
or_error-ok e (some b) h = cc

module _ {V F : Type 0} (l : Tlog V F) (c : LogClient V F) where
  -- The note that was fetched, verified with the log's key, parsed, and of the log's origin.
  pub record IsChecked (fetched : Option Bytes) (cp : Checkpoint) (note : Bytes) : Type 0 where
    pub text : Bytes
    pub got : fetched ≡ some note
    pub opened : l.open_text c.verifier note ≡ some text
    pub parsed : l.parse_checkpoint text ≡ some cp
    pub own : cp.origin ≡ c.origin

  abbrev origin_checked : Checkpoint → Bytes → Result ClientError (Checkpoint × Bytes)
  origin_checked cp note =
      if bytes_eq cp.origin c.origin
      then ok (cp, note)
      else err (ClientError.other_origin cp.origin)

  origin_checked-ok :
      (parsed cp : Checkpoint) (fetched note : Bytes)
      → origin_checked parsed fetched ≡ ok (cp, note)
      → (parsed ≡ cp) × (fetched ≡ note) × (cp.origin ≡ c.origin)
  origin_checked-ok parsed cp fetched note h = elim (Bool-cases (bytes_eq parsed.origin c.origin)) [
    | inl e ↦
        let same : ◌≡◌ {A = Result ClientError (Checkpoint × Bytes)} (ok (parsed, fetched))
            (ok (cp, note)) =
          rw e at h in
        (cc, cc, cc ((bytes_eq_iff parsed.origin c.origin).0 e))
    | inr e ↦ cc (rw e at h)
  ]

  pub checkpoint-IsChecked :
      (fetched : Option Bytes) (cp : Checkpoint) (note : Bytes)
      → checkpoint l c fetched ≡ ok (cp, note)
      → IsChecked fetched cp note
  unfolding checkpoint
  checkpoint-IsChecked none cp note h = cc
  checkpoint-IsChecked (some b) cp note h =
      let (text, opened, h1) =
        >>=-eq-ok (or_error ClientError.not_verified (l.open_text c.verifier b))
          (λ text. or_error ClientError.not_checkpoint (l.parse_checkpoint text) >>= λ parsed.
            origin_checked parsed b)
          h in
      let (parsed, read, h2) =
        >>=-eq-ok (or_error ClientError.not_checkpoint (l.parse_checkpoint text))
          (λ parsed. origin_checked parsed b) h1 in
      let (same_cp, same_note, own) = origin_checked-ok parsed cp b note h2 in
      record {
        text = text;
        got = ap (λ (x : Bytes). some x) same_note;
        opened =
            ap (λ x. l.open_text c.verifier x) (sym same_note)
            ∙ or_error-ok ClientError.not_verified (l.open_text c.verifier b) opened;
        parsed =
            or_error-ok ClientError.not_checkpoint (l.parse_checkpoint text) read
            ∙ ap (λ (x : Checkpoint). some x) same_cp;
        own = own;
      }

module _ {V F : Type 0} (l : Tlog V F) where
  -- A client is for the origin that it was made with.
  pub new_log_client-origin :
      (url origin vkey : Bytes) (c : LogClient V F)
      → new_log_client l url origin vkey ≡ ok c
      → c.origin ≡ origin
  unfolding new_log_client
  new_log_client-origin url origin vkey c h =
      let (v, e1, h1) =
        >>=-eq-ok (or_error ClientError.bad_verifier_key (l.new_verifier vkey))
          (λ v. or_error ClientError.bad_url (l.new_tile_fetcher url) >>= λ f.
            ok (record { origin = origin; verifier = v; fetcher = f }))
          h in
      let (f, e2, h2) =
        >>=-eq-ok (or_error ClientError.bad_url (l.new_tile_fetcher url))
          (λ f. ok (record { origin = origin; verifier = v; fetcher = f })) h1 in
      cc
