-- ===== src/Firmware/Hab/Clean.antt =====
-- fw/internal/hab with fw/rpmb-provision: which reports of the boot ROM count as a clean boot.
use vitrum.Base.{
  ℕ, List, [], ◌∷◌, true, ◌≡◌, ◌≢◌, ◌↔◌, ◌&&◌, ◌==◌, refl, if-elim, arith, Bool-cases, inl, inr,
}
use vitrum.Base.Int.{pos, int_eq}
use vitrum.Base.Bytes.{Bytes, codes, bytes_eq}
use vitrum.Firmware.Provision.{hab_clean}
use vitrum.Firmware.Hab.{
  Report, RomEvent, hab_success, hab_failure, event_status, hab_status_name, hab_config_name,
  hab_state_name, make_hab_event, filled_part, add_event, read_events, read_hab_report, boot_status,
}

name_failure : (v : ℕ) → bytes_eq (hab_status_name v) (codes "failure") ≡ (v == 51)
unfolding hab_status_name bytes_eq
name_failure v = ground arith

name_success : (v : ℕ) → bytes_eq (hab_status_name v) (codes "success") ≡ (v == 240)
unfolding hab_status_name bytes_eq
name_success v = ground arith

-- No event that the ROM reports, before its first call that does not succeed, is a failure.
pub NoFailure : List RomEvent → Type 0
NoFailure [] = Unit {0}
NoFailure (e ∷ calls) =
    e.result ≡ hab_success → (event_status (filled_part e) ≢ hab_failure) × NoFailure calls

event_failure :
    (event : Bytes)
    → bytes_eq (make_hab_event event).status (hab_status_name hab_failure)
      ≡ (event_status event == 51)
unfolding make_hab_event hab_status_name
event_failure event = name_failure (event_status event)

-- An event adds a failure just when its status is that of one.
add_event_lem :
    (event : Bytes) (r : Report)
    → ((add_event (make_hab_event event) r).failures ≡ 0)
      ↔ ((event_status event ≢ hab_failure) × (r.failures ≡ 0))
add_event_lem event r = rw (event_failure event) (λ h. ground arith, λ h. ground arith)

read_events-status : (r : Report) (calls : List RomEvent) → (read_events r calls).status ≡ r.status
unfolding read_events
read_events-status r [] = refl
read_events-status r (e ∷ calls) =
    if-elim (λ (v : Report). v.status ≡ r.status) (e.result == hab_success) _ _
      (λ s.
        if-elim (λ (v : Report). v.status ≡ r.status)
          (bytes_eq (make_hab_event (filled_part e)).status (hab_status_name hab_failure)) _ _
          (λ f. read_events-status r calls) (λ f. read_events-status r calls))
      (λ s. refl)

read_events-NoFailure :
    (r : Report) (calls : List RomEvent)
    → r.failures ≡ 0
    → ((read_events r calls).failures ≡ 0) ↔ NoFailure calls
unfolding read_events NoFailure
read_events-NoFailure r [] h = (λ e. tt, λ e. h)
read_events-NoFailure r (e ∷ calls) h =
    let ih : ((read_events r calls).failures ≡ 0) ↔ NoFailure calls =
      read_events-NoFailure r calls h in
    let one : ((add_event (make_hab_event (filled_part e)) (read_events r calls)).failures ≡ 0)
        ↔ ((event_status (filled_part e) ≢ hab_failure) × ((read_events r calls).failures ≡ 0)) =
      add_event_lem (filled_part e) (read_events r calls) in
    elim (Bool-cases (e.result == hab_success)) [
      | inl s ↦ rw s (
        λ zero done. ((one.0 zero).0, ih.0 (one.0 zero).1),
        λ good. let g = good (ground arith) in one.1 (g.0, ih.1 g.1),
      )
      | inr s ↦ rw s (λ zero done. absurd (ground arith), λ good. h)
    ]

clean_test : (a n : ℕ) → ((a == 240 && int_eq (pos n) (pos 0)) ≡ true) ↔ ((a ≡ 240) × (n ≡ 0))
clean_test a n = ground arith

pub hab_clean_iff :
    (status config state : ℕ) (calls : List RomEvent)
    → (hab_clean (boot_status (read_hab_report status config state calls)) ≡ true)
      ↔ ((status ≡ hab_success) × NoFailure calls)
unfolding read_hab_report
hab_clean_iff status config state calls =
    let r : Report = record {
      status = hab_status_name status;
      config = hab_config_name config;
      state = hab_state_name state;
      failures = 0;
      events = [];
    } in
    let few : ((read_events r calls).failures ≡ 0) ↔ NoFailure calls =
      read_events-NoFailure r calls refl in
    rw (read_events-status r calls, name_success status)
      (
        λ clean. let c = (clean_test status _).0 clean in (c.0, few.0 c.1),
        λ good. (clean_test status _).1 (good.0, few.1 good.1),
      )
