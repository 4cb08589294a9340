-- ===== src/Provisioning/Keep.antt =====
-- internal/provision/server.go with internal/witness: commands that fail.
use vitrum.Base.{ℕ, List, [], some, ◌≡◌, refl}
use vitrum.Base.Bytes.{Bytes}
use vitrum.Base.Text.{fields}
use vitrum.Witness.Logs.{Store}
use vitrum.Witness.Pool.{Logic}
use vitrum.Provisioning.Cases.{settime-elim, run-elim}
use vitrum.Provisioning.Clean.{IsHeld}
use vitrum.Provisioning.Install.{Ends, provision-Ends}
use vitrum.Provisioning.{Keys, Clock, Device, Failure, Answer, done, failed, provision, exec}

module _ {S I C : Type 0} (g : Logic) (store : Store S I) (keys : Keys) where
  -- On failure the witness, the key's address and the key are as before.
  abbrev pub Fails : Device S C → Device S C × Answer → Type 0
  Fails d (v, done out) = Unit {0}
  Fails d (v, failed e) =
      (v.witness ≡ d.witness)
      × (v.priv ≡ d.priv)
      × ((p : ℕ) → d.priv ≡ some p → v.memory p ≡ d.memory p)

  Ends-Fails :
      (d : Device S C) (name text : Bytes) (r : Device S C × Answer)
      → Ends g store keys d name text r
      → Fails d r
  Ends-Fails d name text (v, done out) h = tt
  Ends-Fails d name text (v, failed e) h = h

  exec-Fails :
      (clock : Clock C) (d : Device S C) (stdin : List Bytes) (command : Bytes)
      → IsHeld g store keys [] d
      → Fails d (exec g store keys clock d stdin command)
  unfolding exec
  exec-Fails clock d stdin command h =
      run-elim g store keys clock (Fails d) d stdin (λ e. (refl, refl, λ p same. refl))
        (λ name.
          Ends-Fails d name _ (provision g store keys d name stdin)
            (provision-Ends g store keys d name stdin h))
        (λ out. tt)
        (settime-elim g store keys clock (Fails d) d (λ e. (refl, refl, λ p same. refl))
          (λ c out. tt))
        tt (fields command)

  Fails-failed :
      (d : Device S C) (r : Device S C × Answer) (e : Failure)
      → Fails d r
      → r.1 ≡ failed e
      → Fails d (r.0, failed e)
  Fails-failed d (v, done out) e h same = cc
  Fails-failed d (v, failed o) e h same = h

  -- A command that fails leaves the witness, the key's address and the key as they were, from a
  -- device that is sound between commands (IsHeld).
  pub exec_failed :
      (clock : Clock C) (d : Device S C) (stdin : List Bytes) (command : Bytes) (e : Failure)
      → IsHeld g store keys [] d
      → (exec g store keys clock d stdin command).1 ≡ failed e
      → ((exec g store keys clock d stdin command).0.witness ≡ d.witness)
        × ((exec g store keys clock d stdin command).0.priv ≡ d.priv)
        × ((p : ℕ)
            → d.priv ≡ some p
            → (exec g store keys clock d stdin command).0.memory p ≡ d.memory p)
  exec_failed clock d stdin command e h same =
      Fails-failed d (exec g store keys clock d stdin command) e
        (exec-Fails clock d stdin command h) same
