-- ===== src/Provisioning/Cases.antt =====
-- internal/provision/server.go: what holds of every branch of settime and exec holds of them.
use vitrum.Base.{List, [], ◌∷◌, Option, none, some, if-elim}
use vitrum.Base.Bytes.{Bytes, codes, bytes_eq}
use vitrum.Base.Int.{ℤ, pos, int_lt}
use vitrum.Base.Decimal.{parse_int}
use vitrum.Witness.Logs.{Store}
use vitrum.Witness.Pool.{Logic}
use vitrum.Provisioning.{
  Keys, Clock, Device, Failure, Answer, done, failed, bad_seconds, provision, deprovision,
  set_clock, settime_to, settime, status, run_provision, run,
}

module _ {S I C : Type 0} (g : Logic) (store : Store S I) (keys : Keys) (clock : Clock C) where
  -- settime changes the clock at most.
  module _ (P : Device S C × Answer → Type 0) (d : Device S C)
      (refused : (e : Failure) → P (d, failed e))
      (set : (c : C) (out : Bytes) → P (record d { clock = c }, done out)) where
    set_clock-elim : (sec : ℤ) (f : Option (C → ℤ → C)) → P (set_clock g store keys clock d sec f)
    unfolding set_clock
    set_clock-elim sec none = refused _
    set_clock-elim sec (some f) = set _ _

    settime_to-elim : (sec : Option ℤ) → P (settime_to g store keys clock d sec)
    unfolding settime_to
    settime_to-elim none = refused _
    settime_to-elim (some sec) =
        if-elim P (int_lt sec (pos 0)) (d, failed bad_seconds)
          (set_clock g store keys clock d sec clock.set_time) (λ e. refused _)
          (λ e. set_clock-elim sec clock.set_time)

    pub settime-elim : (args : List Bytes) → P (settime g store keys clock d args)
    unfolding settime
    settime-elim [] = refused _
    settime-elim (sec ∷ []) = settime_to-elim (parse_int sec)
    settime-elim (sec ∷ x ∷ r) = refused _

  module _ (P : Device S C × Answer → Type 0) (d : Device S C) (stdin : List Bytes)
      (refused : (e : Failure) → P (d, failed e))
      (provisions : (name : Bytes) → P (provision g store keys d name stdin))
      (deprovisions : (out : Bytes) → P (deprovision g store keys d, done out))
      (sets : (args : List Bytes) → P (settime g store keys clock d args))
      (shows : P (d, done (status g store keys clock d))) where
    run_provision-elim : (args : List Bytes) → P (run_provision g store keys clock d stdin args)
    unfolding run_provision
    run_provision-elim [] = refused _
    run_provision-elim (name ∷ []) = provisions name
    run_provision-elim (name ∷ x ∷ r) = refused _

    pub run-elim : (args : List Bytes) → P (run g store keys clock d stdin args)
    unfolding run
    run-elim [] = refused _
    run-elim (command ∷ args) =
        if-elim P (bytes_eq command (codes "provision")) _ _ (λ e. run_provision-elim args)
          (λ e.
            if-elim P (bytes_eq command (codes "deprovision")) _ _ (λ e. deprovisions _)
              (λ e.
                if-elim P (bytes_eq command (codes "settime")) _ _ (λ e. sets args)
                  (λ e.
                    if-elim P (bytes_eq command (codes "status")) _ _ (λ e. shows)
                      (λ e. refused _))))
