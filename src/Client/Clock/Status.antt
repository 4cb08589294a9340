-- ===== src/Client/Clock/Status.antt =====
-- cmd/vitrum/provision.go with internal/provision: verifyClock on what the command status prints.
use vitrum.Base.{
  ℕ, [], ◌∷◌, ◌++◌, Bool, true, false, Option, none, some, ◌≡◌, ◌≢◌, refl, ap, ◌∙◌, ltb, ◌==◌,
  if◌then◌else◌, All, All-append, arith, append_assoc,
}
use vitrum.Base.Bytes.{Bytes, codes}
use vitrum.Base.Int.{ℤ}
use vitrum.Base.Text.{trim_space}
use vitrum.Base.Text.Words.{IsPrint, trim_space-word}
use vitrum.Witness.Logs.{Store}
use vitrum.Witness.Pool.{Logic}
use vitrum.Witness.Status.{provisioned, verifier}
use vitrum.Witness.Request.{cut_prefix}
use vitrum.Provisioning.{Keys, Clock, Device, status, bool_text, verifier_of, verifier_line}
use vitrum.Client.Clock.{
  ClockCheck, split_lines, distance, check_time, first_time, verify_lines, verify_clock,
}

split_lines_line :
    (l rest : Bytes) → All IsPrint l → split_lines (l ++ (10 ∷ rest)) ≡ l ∷ split_lines rest
unfolding split_lines
split_lines_line [] rest h = refl
split_lines_line (c ∷ l) rest h =
    let other : (c == 10) ≡ false = ground arith in rw (other, split_lines_line l rest h.1) refl

cut_time : (w : Bytes) → cut_prefix (codes "time=") (codes "time=" ++ w) ≡ some w
unfolding cut_prefix
cut_time w = refl

module _ (parse_time : Bytes → Option ℤ) (now : ℤ) (tol : ℕ) where
  -- A line that is not the time's is passed over.
  other_line :
      (l rest : Bytes)
      → All IsPrint l
      → l ≢ []
      → cut_prefix (codes "time=") l ≡ none
      → verify_lines parse_time now tol (split_lines (l ++ (10 ∷ rest)))
        ≡ verify_lines parse_time now tol (split_lines rest)
  unfolding verify_lines first_time
  other_line l rest h ne other =
      rw (split_lines_line l rest h)
        (passed (cut_prefix (codes "time=") (trim_space l)) (rw (trim_space-word l h ne) other))
    where
      passed :
          (o : Option Bytes)
          → o ≡ none
          → first_time parse_time now tol o (verify_lines parse_time now tol (split_lines rest))
            ≡ verify_lines parse_time now tol (split_lines rest)
      passed none e = refl
      passed (some ts) e = cc

  time_line :
      (w rest : Bytes)
      → All IsPrint w
      → verify_lines parse_time now tol (split_lines ((codes "time=" ++ w) ++ (10 ∷ rest)))
        ≡ check_time parse_time now tol (parse_time w)
  unfolding verify_lines first_time
  time_line w rest h =
      let printed : All IsPrint (codes "time=" ++ w) =
        All-append IsPrint (codes "time=") w (omega arith) h in
      rw (split_lines_line (codes "time=" ++ w) rest printed) (
        decided (cut_prefix (codes "time=") (trim_space (codes "time=" ++ w))) (
          ap (cut_prefix (codes "time=")) (trim_space-word (codes "time=" ++ w) printed (λ e. cc))
          ∙ cut_time w))
    where
      decided :
          (o : Option Bytes)
          → o ≡ some w
          → first_time parse_time now tol o (verify_lines parse_time now tol (split_lines rest))
            ≡ check_time parse_time now tol (parse_time w)
      decided none e = cc
      decided (some ts) e = ap (λ (t : Bytes). check_time parse_time now tol (parse_time t)) (cc)

  provisioned_line :
      (b : Bool) (rest : Bytes)
      → verify_lines parse_time now tol
          (split_lines (codes "provisioned=" ++ (bool_text b ++ (10 ∷ rest))))
        ≡ verify_lines parse_time now tol (split_lines rest)
  unfolding cut_prefix
  provisioned_line true rest =
      other_line (codes "provisioned=true") rest (omega arith) (λ e. cc) refl
  provisioned_line false rest =
      other_line (codes "provisioned=false") rest (omega arith) (λ e. cc) refl

  verifier_lines :
      (v rest : Bytes)
      → All IsPrint v
      → verify_lines parse_time now tol (split_lines (verifier_line v ++ rest))
        ≡ verify_lines parse_time now tol (split_lines rest)
  unfolding cut_prefix
  verifier_lines [] rest h = refl
  verifier_lines (c ∷ v) rest h =
      ap
        (λ (t : Bytes).
          verify_lines parse_time now tol (split_lines (codes "verifier=" ++ (c ∷ t))))
        (append_assoc v (10 ∷ []) rest)
      ∙ other_line (codes "verifier=" ++ (c ∷ v)) rest
          (All-append IsPrint (codes "verifier=") (c ∷ v) (omega arith) h) (λ e. cc) refl

  module _ {S I C : Type 0} (g : Logic) (store : Store S I) (keys : Keys) (clock : Clock C) where
    -- What time.Parse reads of the device's own time is compared with the host's.
    pub verify_clock-status :
        (d : Device S C) (time : ℤ)
        → All IsPrint (clock.time_text (clock.now d.clock))
        → parse_time (clock.time_text (clock.now d.clock)) ≡ some time
        → All IsPrint (verifier store (verifier_of g store keys clock d) d.witness)
        → verify_clock parse_time now tol (some (status g store keys clock d))
          ≡ (if ltb tol (distance time now) then ClockCheck.off else ClockCheck.in_time)
    unfolding verify_clock status
    verify_clock-status d time prints reads h =
        provisioned_line (provisioned store d.witness) _
        ∙ verifier_lines (verifier store (verifier_of g store keys clock d) d.witness) _ h
        ∙ time_line (clock.time_text (clock.now d.clock)) _ prints
        ∙ ap (check_time parse_time now tol) reads
