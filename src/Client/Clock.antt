-- ===== src/Client/Clock.antt =====
-- cmd/vitrum/provision.go: verifyClock. Times are in nanoseconds.
pub mod Status
use vitrum.Base.{
  ℕ, ◌+◌, ◌-◌, List, [], ◌∷◌, Bool, true, false, Option, none, some, ltb, ◌==◌, if◌then◌else◌,
}
use vitrum.Base.Bytes.{Bytes, codes}
use vitrum.Base.Int.{ℤ, pos, negsuc}
use vitrum.Base.Text.{trim_space}
use vitrum.Witness.Request.{cut_prefix}

-- `in_time` is no error.
pub data ClockCheck : Type 0 where
  in_time status_failed bad_time off no_time : ClockCheck

abbrev add_first : ℕ → List Bytes → List Bytes
add_first c [] = (c ∷ []) ∷ []
add_first c (l ∷ r) = (c ∷ l) ∷ r

-- strings.Split on a line feed.
unfoldable pub split_lines : Bytes → List Bytes
split_lines [] = [] ∷ []
split_lines (c ∷ r) = let rest = split_lines r in if c == 10 then [] ∷ rest else add_first c rest

-- devTime.Sub(now).Abs().
abbrev pub distance : ℤ → ℤ → ℕ
distance (pos a) (pos b) = (a - b) + (b - a)
distance (pos a) (negsuc b) = a + (b + 1)
distance (negsuc a) (pos b) = b + (a + 1)
distance (negsuc a) (negsuc b) = (a - b) + (b - a)

-- time.Parse of an RFC 3339 text is a parameter.
module _ (parse_time : Bytes → Option ℤ) (now : ℤ) (tol : ℕ) where
  abbrev pub check_time : Option ℤ → ClockCheck
  check_time none = bad_time
  check_time (some t) = if ltb tol (distance t now) then off else in_time

  -- The first line with the prefix decides.
  unfoldable pub first_time : Option Bytes → ClockCheck → ClockCheck
  first_time none rest = rest
  first_time (some ts) rest = check_time (parse_time ts)

  unfoldable pub verify_lines : List Bytes → ClockCheck
  verify_lines [] = no_time
  verify_lines (l ∷ r) = first_time (cut_prefix (codes "time=") (trim_space l)) (verify_lines r)

  -- On what sshRun gave for the command status.
  unfoldable pub verify_clock : Option Bytes → ClockCheck
  unfolding verify_lines split_lines first_time
  verify_clock none = status_failed
  verify_clock (some out) = verify_lines (split_lines out)
