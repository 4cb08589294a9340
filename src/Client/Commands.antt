-- ===== src/Client/Commands.antt =====
-- cmd/vitrum/provision.go: cmdProvision, cmdDeprovision and settime, over a device behind SSH.
pub mod Installs
use vitrum.Base.{
  ℕ, List, [], ◌∷◌, ◌++◌, Bool, true, false, not, Option, none, some, ◌==◌, if◌then◌else◌, length,
}
use vitrum.Base.Bytes.{Bytes, codes, bytes_eq}
use vitrum.Base.Int.{ℤ, pos}
use vitrum.Base.Decimal.{format_int}
use vitrum.Base.Text.{trim_space}
use vitrum.Base.Result.{Result, ok, err}
use vitrum.Provisioning.{Keys, seed_size}
use vitrum.Provisioning.Upload.{upload_command, upload_input}
use vitrum.Client.Clock.{ClockCheck, in_time, verify_clock}

-- A device: whether a dial succeeds, and sshRun of a command with an input, with what the device
-- prints unless the command fails.
pub record Link (D : Type 0) : Type 0 where
  pub dials : D → Bool
  pub ssh_run : D → Bytes → Bytes → D × Option Bytes

-- How the select of settime ends: by the reply, or by the timeout when the device got the command,
-- or did not.
pub data SettimeReply : Type 0 where
  timely lost undelivered : SettimeReply

pub data CommandError : Type 0 where
  bad_seed bad_name no_connection settime_refused upload_refused : CommandError
  bad_clock : ClockCheck → CommandError
  wrong_key : Bytes → CommandError

module _ {D : Type 0} (link : Link D) where
  abbrev pub settime_command : ℕ → Bytes
  settime_command sec = codes "settime " ++ format_int (pos sec)

  abbrev pub timely_reply : D × Option Bytes → D × Option CommandError
  timely_reply (d, none) = (d, some settime_refused)
  timely_reply (d, some out) = (d, none)

  abbrev pub select_reply : D → ℕ → SettimeReply → D × Option CommandError
  select_reply d sec timely = timely_reply (link.ssh_run d (settime_command sec) [])
  select_reply d sec lost = ((link.ssh_run d (settime_command sec) []).0, none)
  select_reply d sec undelivered = (d, none)

  unfoldable pub send_settime : D → ℕ → SettimeReply → D × Option CommandError
  send_settime d sec reply =
      if not (link.dials d) then (d, some no_connection) else select_reply d sec reply

  unfoldable pub compare_key : Bytes → D × Option Bytes → D × Result CommandError Bytes
  compare_key want (d, none) = (d, err upload_refused)
  compare_key want (d, some out) =
      let got = trim_space out in (d, (if bytes_eq got want then ok got else err (wrong_key got)))

  unfoldable pub upload : D → Bytes → Bytes → Bytes → D × Result CommandError Bytes
  unfolding compare_key upload_command upload_input
  upload d seed name want =
      compare_key want (link.ssh_run d (upload_command name) (upload_input seed))

  module _ (keys : Keys) (parse_time : Bytes → Option ℤ) (now : ℤ) (tol : ℕ) where
    unfoldable pub upload_if :
        D → Bytes → Bytes → Bytes → ClockCheck → D × Result CommandError Bytes
    unfolding upload
    upload_if d seed name want in_time = upload d seed name want
    upload_if d seed name want e = (d, err (bad_clock e))

    abbrev pub after_status :
        Bytes → Bytes → Bytes → D × Option Bytes → D × Result CommandError Bytes
    after_status seed name want (d, out) =
        upload_if d seed name want (verify_clock parse_time now tol out)

    -- With the second connection, the clock is verified if it was set.
    abbrev pub verified_upload : D → Bytes → Bytes → Bytes → D × Result CommandError Bytes
    verified_upload d seed name want =
        after_status seed name want (link.ssh_run d (codes "status") [])

    abbrev pub connected :
        Bool → Bytes → Bytes → Bytes → D × Option CommandError → D × Result CommandError Bytes
    connected set_time seed name want (d, some e) = (d, err e)
    connected set_time seed name want (d, none) =
        if not (link.dials d)
        then (d, err no_connection)
        else if set_time
        then verified_upload d seed name want
        else upload d seed name want

    abbrev pub with_want :
        D → ℕ → Option SettimeReply → Bytes → Bytes → Option Bytes → D × Result CommandError Bytes
    with_want d sec set_time seed name none = (d, err bad_name)
    with_want d sec none seed name (some want) = connected false seed name want (d, none)
    with_want d sec (some reply) seed name (some want) =
        connected true seed name want (send_settime d sec reply)

    -- `none` for -settime=false; `sec` is the host's time.
    unfoldable pub cmd_provision :
        D → ℕ → Option SettimeReply → Bytes → Bytes → D × Result CommandError Bytes
    unfolding upload_if verify_clock send_settime upload
    cmd_provision d sec set_time seed name =
        if not (length seed == seed_size)
        then (d, err bad_seed)
        else with_want d sec set_time seed name (keys.new_signer name (keys.new_key seed))

  abbrev pub deprovisioned : D × Option Bytes → D × Option CommandError
  deprovisioned (d, none) = (d, some upload_refused)
  deprovisioned (d, some out) = (d, none)

  unfoldable pub cmd_deprovision : D → D × Option CommandError
  cmd_deprovision d =
      if not (link.dials d)
      then (d, some no_connection)
      else deprovisioned (link.ssh_run d (codes "deprovision") [])
