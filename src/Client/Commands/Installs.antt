-- ===== src/Client/Commands/Installs.antt =====
-- cmd/vitrum/provision.go with internal/provision: the client's commands on the server.
use vitrum.Base.{
  ℕ, ◌^◌, ◌<◌, List, [], ◌∷◌, ◌++◌, true, false, Option, none, some, ◌≡◌, ◌≢◌, refl, sym, ap, subst,
  ◌∙◌, ltb, ◌==◌, length, All, arith, append-nil,
}
use vitrum.Base.Bytes.{Bytes, IsByte, codes, bytes_eq, bytes_eq_refl}
use vitrum.Base.Int.{ℤ, pos, int_lt}
use vitrum.Base.Decimal.{format_int}
use vitrum.Base.Decimal.RoundTrip.{parse_int-format_int}
use vitrum.Base.Text.Words.{IsPrint, trim_space-line, fields_word, fields_words}
use vitrum.Base.Text.Numbers.{format_int-IsPrint, format_int-ne-nil}
use vitrum.Base.Result.{Result, ok}
use vitrum.Witness.Logs.{Store}
use vitrum.Witness.Pool.{Logic}
use vitrum.Witness.Status.{verifier}
use vitrum.Provisioning.{
  Keys, Clock, Device, Answer, done, failed, run, exec, settime, set_clock, settime_to, status,
  verifier_of, seed_size,
}
use vitrum.Provisioning.Clean.{IsHeld, exec-IsHeld}
use vitrum.Provisioning.Upload.{upload_command, upload_input, IsInstalled, exec-upload}
use vitrum.Client.Clock.{ClockCheck, in_time, verify_clock, distance}
use vitrum.Client.Clock.Status.{verify_clock-status}
use vitrum.Client.Commands.{
  Link, SettimeReply, timely, lost, undelivered, CommandError, settime_command, timely_reply,
  send_settime, compare_key, upload, upload_if, after_status, verified_upload, connected,
  cmd_provision,
}

module _ {S I C : Type 0} (g : Logic) (store : Store S I) (keys : Keys) (clock : Clock C) where
  abbrev pub output : Device S C × Answer → Device S C × Option Bytes
  output (d, done out) = (d, some out)
  output (d, failed e) = (d, none)

  -- A device that every dial reaches, with one session for each command.
  abbrev pub device_link : Link (Device S C)
  device_link = record {
    dials = λ d. true;
    ssh_run = λ d command input. output (exec g store keys clock d (input ∷ []) command);
  }

  -- The command settime sets the clock.
  exec-settime :
      (d : Device S C) (stdin : List Bytes) (sec : ℕ) (set : C → ℤ → C)
      → sec < 2 ^ 63
      → clock.set_time ≡ some set
      → (out : Bytes) × (exec g store keys clock d stdin (settime_command device_link sec)
          ≡ (record d { clock = set d.clock (pos sec) }, done out))
  unfolding exec run settime settime_to set_clock bytes_eq
  exec-settime d stdin sec set h e =
      let positive : int_lt (pos sec) (pos 0) ≡ false = ground arith in
      rw
        (
          fields_words (codes "settime") (format_int (pos sec)) (omega arith) (λ n. cc)
              (format_int-IsPrint sec) (format_int-ne-nil sec h),
          parse_int-format_int sec h,
          positive,
          e,
        )
        (_, refl)

  -- Whether the reply comes in time or not.
  send_settime-done :
      (d : Device S C) (sec : ℕ) (set : C → ℤ → C) (out : Bytes)
      → exec g store keys clock d ([] ∷ []) (settime_command device_link sec)
        ≡ (record d { clock = set d.clock (pos sec) }, done out)
      → (reply : SettimeReply) → reply ≢ undelivered
      → send_settime device_link d sec reply ≡ (record d { clock = set d.clock (pos sec) }, none)
  unfolding send_settime
  send_settime-done d sec set out ran timely h =
      ap (λ (r : Device S C × Answer). timely_reply device_link (output r)) ran
  send_settime-done d sec set out ran lost h =
      ap (λ (r : Device S C × Answer). ((output r).0, none)) ran
  send_settime-done d sec set out ran undelivered h = absurd (h refl)

  exec-status :
      (d : Device S C) (stdin : List Bytes)
      → exec g store keys clock d stdin (codes "status") ≡ (d, done (status g store keys clock d))
  unfolding exec run bytes_eq
  exec-status d stdin = rw (fields_word (codes "status") (omega arith) (λ n. cc)) refl

  -- The client succeeds, and the device signs with the key of the seed.
  abbrev pub Succeeds : Bytes → Bytes → Device S C → Device S C × Result CommandError Bytes → Type 0
  Succeeds seed vkey d r = (r.1 ≡ ok vkey) × IsInstalled g store keys seed vkey d r.0

  -- The client takes the verifier key that it expects.
  compare_key-answer :
      (want : Bytes) (r : Device S C × Answer)
      → All IsPrint want
      → want ≢ []
      → r.1 ≡ done (want ++ codes "\n")
      → compare_key device_link want (output r) ≡ (r.0, ok want)
  unfolding compare_key
  compare_key-answer want (v, failed e) h ne same = cc
  compare_key-answer want (v, done out) h ne same =
      let text : out ≡ want ++ (10 ∷ []) = cc in
      rw (text, trim_space-line want h ne, bytes_eq_refl want) refl

  module _ (seed vkey name : Bytes) (bytes : All IsByte seed) (size : length seed ≡ seed_size)
      (made : keys.new_signer name (keys.new_key seed) ≡ some vkey) (print : All IsPrint name)
      (nonempty : name ≢ []) (print_key : All IsPrint vkey) (some_key : vkey ≢ []) where
    upload-Succeeds :
        (d : Device S C)
        → IsHeld g store keys [] d
        → Succeeds seed vkey d (upload device_link d seed name vkey)
    unfolding upload
    upload-Succeeds d h =
        let e =
          exec-upload g store keys seed vkey name (upload_input seed ∷ []) bytes size
            (append-nil (upload_input seed)) made clock d h print nonempty in
        let answer =
          compare_key-answer vkey
            (exec g store keys clock d (upload_input seed ∷ []) (upload_command name)) print_key
            some_key e.0 in
        subst (Succeeds seed vkey d) (sym answer) (refl, e.1)

    module _ (parse_time : Bytes → Option ℤ) (now : ℤ) (tol : ℕ) where
      verified_upload-Succeeds :
          (d : Device S C) (time : ℤ)
          → IsHeld g store keys [] d
          → All IsPrint (clock.time_text (clock.now d.clock))
          → parse_time (clock.time_text (clock.now d.clock)) ≡ some time
          → All IsPrint (verifier store (verifier_of g store keys clock d) d.witness)
          → ltb tol (distance time now) ≡ false
          → Succeeds seed vkey d
              (verified_upload device_link keys parse_time now tol d seed name vkey)
      unfolding upload_if
      verified_upload-Succeeds d time h prints reads shown close =
          let printed : output (exec g store keys clock d ([] ∷ []) (codes "status"))
              ≡ (d, some (status g store keys clock d)) =
            ap output (exec-status d ([] ∷ [])) in
          let checked : verify_clock parse_time now tol (some (status g store keys clock d))
              ≡ in_time =
            verify_clock-status parse_time now tol g store keys clock d time prints reads shown
            ∙ rw close refl in
          subst
            (λ (r : Device S C × Option Bytes).
              Succeeds seed vkey d
                (after_status device_link keys parse_time now tol seed name vkey r))
            (sym printed)
            (subst
              (λ (c : ClockCheck).
                Succeeds seed vkey d
                  (upload_if device_link keys parse_time now tol d seed name vkey c))
              (sym checked) (upload-Succeeds d h))

      -- cmdProvision with -settime, against a server that every dial reaches, ends with the
      -- verifier key of the seed's signer, and the server's witness then has a signer with that
      -- key over the slice that holds the private key of the seed. The device has a settable
      -- clock, is sound between commands (IsHeld), and gets the command settime, whether or not
      -- the reply comes in time; time.Parse reads the text of the clock once it is set, as a
      -- time within the tolerance of the host's; the seed has 32 bytes, and the name, the
      -- verifier keys and that text are printing characters.
      pub cmd_provision-Succeeds :
          (d : Device S C) (sec : ℕ) (set : C → ℤ → C) (reply : SettimeReply) (time : ℤ)
          → IsHeld g store keys [] d
          → All IsPrint (verifier store (verifier_of g store keys clock d) d.witness)
          → sec < 2 ^ 63
          → clock.set_time ≡ some set
          → All IsPrint (clock.time_text (clock.now (set d.clock (pos sec))))
          → parse_time (clock.time_text (clock.now (set d.clock (pos sec)))) ≡ some time
          → ltb tol (distance time now) ≡ false
          → reply ≢ undelivered
          → Succeeds seed vkey d
              (cmd_provision device_link keys parse_time now tol d sec (some reply) seed name)
      unfolding cmd_provision send_settime
      cmd_provision-Succeeds d sec set reply time h shown small settable prints reads close
            delivered =
          let right : (length seed == seed_size) ≡ true = ground arith in
          let v : Device S C = record d { clock = set d.clock (pos sec) } in
          let (out, ran) = exec-settime d ([] ∷ []) sec set small settable in
          let held : IsHeld g store keys [] v =
            subst (IsHeld g store keys []) (ap (λ (r : Device S C × Answer). r.0) ran)
              (exec-IsHeld g store keys clock d ([] ∷ []) (settime_command device_link sec) h) in
          let set_before : send_settime device_link d sec reply ≡ (v, none) =
            send_settime-done d sec set out ran reply delivered in
          rw (right, made)
            (subst
              (λ (r : Device S C × Option CommandError).
                Succeeds seed vkey d
                  (connected device_link keys parse_time now tol true seed name vkey r))
              (sym set_before) (verified_upload-Succeeds v time held prints reads shown close))
