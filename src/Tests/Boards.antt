-- ===== src/Tests/Boards.antt =====
-- fw/vitrum: LEDs and a fused board.
use vitrum.Base.{ℕ, [], ◌∷◌, List, true, false, Option, none, some}
use vitrum.Base.Bytes.{Bytes}
use vitrum.Firmware.StatusLed.{Event, pulse, tick, start_leds, run_leds, led_step}
use vitrum.Firmware.StatusLed.Shows.{LedsShow, run_leds-LedsShow}
use vitrum.Firmware.DeviceKey.{Soc}
use vitrum.Firmware.Storage.{Board, new_storage, choose_store}
use vitrum.Firmware.Storage.Closed.{IsServing, choose_store-IsServing}

abbrev events : List Event
events = tick 0 false true ∷ pulse 10 ∷ tick 50000000 false true ∷ []

run_leds-LedsShow_example :
    LedsShow events 90000000 false true
      (led_step (run_leds (start_leds 0 false false) events) (tick 90000000 false true))
run_leds-LedsShow_example = run_leds-LedsShow 0 events 90000000 false true

abbrev soc : Soc
soc = record {
  snvs = some true;
  caam = some (λ diversifier. some diversifier);
  dcp = none;
  unique_id = 1 ∷ [];
  pbkdf2 = λ password salt rounds n. some password;
}

abbrev board : Board
board = record {
  soc = soc;
  native = true;
  detects_sd = true;
  detects_mmc = true;
  init_rpmb = λ key. true;
  reads_counter = λ key. true;
}

abbrev open_state : Bytes → Bytes → Option ℕ
open_state key rpmb_key = some 7

choose_store-IsServing_example :
    IsServing board
      (λ s. false)
      open_state
      (choose_store (λ s. false) open_state (new_storage board))
choose_store-IsServing_example = choose_store-IsServing board (λ s. false) open_state
