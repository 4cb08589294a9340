-- ===== src/Firmware/StatusLed.antt =====
-- fw/vitrum/main.go: the status LEDs. Times are in nanoseconds.
pub mod Shows
use vitrum.Base.{
  ℕ, ◌+◌, List, [], ◌∷◌, Bool, true, false, not, ◌&&◌, ◌||◌, Option, none, some, ltb, leb, ◌==◌,
  if◌then◌else◌,
}
use vitrum.Base.Bytes.{Bytes, codes, bytes_eq}

-- The variables of statusLED, and the two LEDs themselves.
pub record Leds : Type 0 where
  pub blue_lit : Bool
  pub white_lit : Bool
  pub blue : Bool
  pub white : Bool
  pub halted : Bool
  pub halt_on : Bool
  pub last_blue_toggle : ℕ
  pub last_halt_toggle : ℕ
  pub white_until : ℕ

-- What the loop selects on: a pulse at a time, or a tick, with what the witness then says of Halted
-- and Provisioned.
pub data Event : Type 0 where
  pulse : ℕ → Event
  tick : ℕ → Bool → Bool → Event

abbrev pub pulse_time : ℕ
pulse_time = 100000000

abbrev pub halt_period : ℕ
halt_period = 150000000

abbrev pub blue_period : ℕ
blue_period = 500000000

-- At the start of the loop, with LEDs as they are.
unfoldable pub start_leds : ℕ → Bool → Bool → Leds
start_leds now blue_lit white_lit = record {
  blue_lit = blue_lit;
  white_lit = white_lit;
  blue = false;
  white = false;
  halted = false;
  halt_on = false;
  last_blue_toggle = now;
  last_halt_toggle = now;
  white_until = 0;
}

abbrev pub bool_eq : Bool → Bool → Bool
bool_eq true b = b
bool_eq false b = not b

-- The closure set, on either LED: the hardware is called only on a change.
unfoldable pub set_blue : Leds → Bool → Leds
set_blue s on = if not (bool_eq s.blue on) then record s { blue_lit = on; blue = on } else s

unfoldable pub set_white : Leds → Bool → Leds
set_white s on = if not (bool_eq s.white on) then record s { white_lit = on; white = on } else s

-- The blinking of a halt.
unfoldable pub blink : Leds → ℕ → Leds
blink s now =
    if not s.halted
    then record s { halted = true; halt_on = true; last_halt_toggle = now }
    else if leb (s.last_halt_toggle + halt_period) now
    then record s { halt_on = not s.halt_on; last_halt_toggle = now }
    else s

abbrev both : Leds → Leds
both s = set_white (set_blue s s.halt_on) s.halt_on

-- The blue LED without a halt.
unfoldable pub show_blue : Leds → ℕ → Bool → Leds
unfolding set_blue
show_blue s now provisioned =
    if provisioned
    then set_blue s true
    else if leb (s.last_blue_toggle + blue_period) now
    then record (set_blue s (not s.blue)) { last_blue_toggle = now }
    else s

unfoldable pub led_step : Leds → Event → Leds
unfolding set_blue set_white blink show_blue
led_step s (pulse now) = record s { white_until = now + pulse_time }
led_step s (tick now is_halted provisioned) =
    if is_halted
    then both (blink s now)
    else set_white (show_blue s now provisioned) (ltb now s.white_until)

unfoldable pub run_leds : Leds → List Event → Leds
run_leds s [] = s
run_leds s (e ∷ r) = run_leds (led_step s e) r

-- statusWriter: the code of the last WriteHeader, 200 before the first.
unfoldable pub written_code : ℕ → List ℕ → ℕ
written_code code [] = code
written_code code (c ∷ r) = written_code c r

-- cosignLED, behind a handler that called WriteHeader with some codes: the channel has room for one
-- pulse.
unfoldable pub cosign_led : Bool → Bytes → List ℕ → Bool
unfolding written_code
cosign_led pending method headers =
    pending || bytes_eq method (codes "POST") && written_code 200 headers == 200
