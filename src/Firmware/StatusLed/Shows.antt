-- ===== src/Firmware/StatusLed/Shows.antt =====
-- fw/vitrum/main.go: what the LEDs show after each tick.
use vitrum.Base.{ℕ, ◌+◌, List, [], ◌∷◌, Bool, true, false, ◌||◌, ◌≡◌, refl, ap, ◌∙◌, ltb, arith}
use vitrum.Firmware.StatusLed.{
  Leds, Event, pulse, tick, pulse_time, start_leds, set_blue, set_white, blink, show_blue, led_step,
  run_leds, bool_eq,
}

-- The variables agree with the hardware.
abbrev pub IsSynced : Leds → Type 0
IsSynced s = (s.blue_lit ≡ s.blue) × (s.white_lit ≡ s.white)

bool_eq→eq : (a b : Bool) → bool_eq a b ≡ true → a ≡ b
bool_eq→eq true true h = refl
bool_eq→eq true false h = cc
bool_eq→eq false true h = cc
bool_eq→eq false false h = refl

-- The end of the last pulse's light, or what it was before.
unfoldable pub pulse_end : ℕ → List Event → ℕ
pulse_end u [] = u
pulse_end u (pulse now ∷ r) = pulse_end (now + pulse_time) r
pulse_end u (tick now h p ∷ r) = pulse_end u r

-- Whether a tick found the witness halted.
unfoldable pub any_halt : List Event → Bool
any_halt [] = false
any_halt (pulse now ∷ r) = any_halt r
any_halt (tick now true p ∷ r) = true
any_halt (tick now false p ∷ r) = any_halt r

-- What a tick shows, on what the variables were.
abbrev IsShown : Leds → ℕ → Bool → Bool → Leds → Type 0
IsShown s now true p v =
    (v.blue_lit ≡ v.white_lit) × (s.halted ≡ false → v.blue_lit ≡ true) × (v.halted ≡ true)
IsShown s now false p v =
    (v.white_lit ≡ ltb now s.white_until) × (p ≡ true → v.blue_lit ≡ true) × (v.halted ≡ s.halted)

tick_lem :
    (s : Leds) (now : ℕ) (h p : Bool)
    → IsSynced s
    → IsSynced (led_step s (tick now h p))
      × IsShown s now h p (led_step s (tick now h p))
      × ((led_step s (tick now h p)).white_until ≡ s.white_until)
unfolding led_step blink show_blue set_blue set_white
tick_lem s now true true sync = ground (
  arith,
  bool_eq→eq s.blue true,
  bool_eq→eq s.blue false,
  bool_eq→eq s.white true,
  bool_eq→eq s.white false,
)
tick_lem s now true false sync = ground (
  arith,
  bool_eq→eq s.blue true,
  bool_eq→eq s.blue false,
  bool_eq→eq s.white true,
  bool_eq→eq s.white false,
)
tick_lem s now false true sync = ground (
  arith,
  bool_eq→eq s.blue true,
  bool_eq→eq s.blue false,
  bool_eq→eq s.white true,
  bool_eq→eq s.white false,
)
tick_lem s now false false sync = ground (
  arith,
  bool_eq→eq s.blue true,
  bool_eq→eq s.blue false,
  bool_eq→eq s.white true,
  bool_eq→eq s.white false,
)

-- The variables after some events.
abbrev Follows : Leds → List Event → Leds → Type 0
Follows s l v =
    IsSynced v × (v.white_until ≡ pulse_end s.white_until l) × (v.halted ≡ (s.halted || any_halt l))

pulse-IsSynced : (s : Leds) (now : ℕ) → IsSynced s → IsSynced (led_step s (pulse now))
unfolding led_step
pulse-IsSynced s now h = h

pulsed :
    (s : Leds) (now : ℕ) (r : List Event)
    → Follows (led_step s (pulse now)) r (run_leds (led_step s (pulse now)) r)
    → Follows s (pulse now ∷ r) (run_leds s (pulse now ∷ r))
unfolding led_step run_leds pulse_end any_halt
pulsed s now r h = h

or_true : (a b : Bool) → (true || b) ≡ (a || true)
or_true a b = ground arith

-- The halt is kept by every event.
run_leds-Follows : (s : Leds) (l : List Event) → IsSynced s → Follows s l (run_leds s l)
unfolding run_leds pulse_end any_halt
run_leds-Follows s [] sync = (sync, refl, ground arith)
run_leds-Follows s (pulse now ∷ r) sync =
    pulsed s now r (run_leds-Follows (led_step s (pulse now)) r (pulse-IsSynced s now sync))
run_leds-Follows s (tick now true p ∷ r) sync =
    let t = tick_lem s now true p sync in
    let ih = run_leds-Follows (led_step s (tick now true p)) r t.0 in
    (
      ih.0,
      ih.1 ∙ ap (λ (n : ℕ). pulse_end n r) t.2,
      ih.2 ∙ ap (λ (x : Bool). x || any_halt r) t.1.2 ∙ or_true s.halted (any_halt r),
    )
run_leds-Follows s (tick now false p ∷ r) sync =
    let t = tick_lem s now false p sync in
    let ih = run_leds-Follows (led_step s (tick now false p)) r t.0 in
    (
      ih.0,
      ih.1 ∙ ap (λ (n : ℕ). pulse_end n r) t.2,
      ih.2 ∙ ap (λ (x : Bool). x || any_halt r) t.1.2,
    )

-- What the loop shows from its start on.
abbrev pub LedsShow : List Event → ℕ → Bool → Bool → Leds → Type 0
LedsShow l now true p v = (v.blue_lit ≡ v.white_lit) × (any_halt l ≡ false → v.blue_lit ≡ true)
LedsShow l now false p v = (v.white_lit ≡ ltb now (pulse_end 0 l)) × (p ≡ true → v.blue_lit ≡ true)

shown :
    (s : Leds) (l : List Event) (now : ℕ) (h p : Bool) (v : Leds)
    → s.white_until ≡ pulse_end 0 l
    → s.halted ≡ any_halt l
    → IsShown s now h p v
    → LedsShow l now h p v
shown s l now true p v u k x = (x.0, λ e. x.1 (k ∙ e))
shown s l now false p v u k x = (x.0 ∙ ap (λ (n : ℕ). ltb now n) u, x.1)

-- After a tick that ends any run of pulses and ticks from dark LEDs: when the witness is
-- halted, both LEDs show the same, and are lit if no tick before found it halted; when it is
-- not, the white LED is lit just when the tick comes before the end of the light of the last
-- pulse, and the blue LED is lit if the witness is provisioned.
pub run_leds-LedsShow :
    (began : ℕ) (l : List Event) (now : ℕ) (h p : Bool)
    → LedsShow l now h p (led_step (run_leds (start_leds began false false) l) (tick now h p))
unfolding start_leds
run_leds-LedsShow began l now h p =
    let s : Leds = run_leds (start_leds began false false) l in
    let f : Follows (start_leds began false false) l s =
      run_leds-Follows (start_leds began false false) l (refl, refl) in
    shown s l now h p (led_step s (tick now h p)) f.1 f.2 (tick_lem s now h p f.0).1
