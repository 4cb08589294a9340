-- ===== src/Firmware/LogRing/Recent.antt =====
-- fw/vitrum/logz.go: the ring holds the last 512 lines.
use vitrum.Base.{
  ℕ, zero, suc, ◌+◌, ◌-◌, ◌%◌, ◌^◌, ◌≤◌, ◌<◌, ◌≡◌, refl, sym, ap, subst, append_assoc, append-nil,
  ◌∙◌, List, [], ◌∷◌, ◌++◌, true, false, Option, none, some, ltb, ◌==◌, if◌then◌else◌, length, drop,
  length-append, ==-refl, ◌≢◌, ◌⊎◌, inl, inr, arith,
}
use vitrum.Base.Bytes.{Bytes}
use vitrum.Firmware.LogRing.{LogRing, log_ring_lines, new_ring, line_of, write, collect, recent}

-- The element at an index.
unfoldable pub nth {ℓ} : {A : Type ℓ} → ℕ → List A → Option A
nth n [] = none
nth zero (x ∷ l) = some x
nth (suc n) (x ∷ l) = nth n l

nth-append_before {ℓ} :
    {A : Type ℓ} (i : ℕ) (l m : List A) → i < length l → nth i (l ++ m) ≡ nth i l
unfolding nth
nth-append_before i [] m h = absurd (omega arith)
nth-append_before zero (x ∷ l) m h = refl
nth-append_before (suc i) (x ∷ l) m h = nth-append_before i l m (omega arith)

nth-append_at {ℓ} : {A : Type ℓ} (l : List A) (x : A) → nth (length l) (l ++ (x ∷ [])) ≡ some x
unfolding nth
nth-append_at [] x = refl
nth-append_at (y ∷ l) x = nth-append_at l x

drop-nth {ℓ} :
    {A : Type ℓ} (i : ℕ) (l : List A) (x : A) → nth i l ≡ some x → drop i l ≡ x ∷ drop (i + 1) l
unfolding nth
drop-nth i [] x h = cc
drop-nth zero (y ∷ l) x h = ground arith
drop-nth (suc i) (y ∷ l) x h =
    let e : suc (i + 1) ≡ suc i + 1 = omega arith in
    drop-nth i l x h ∙ ap (λ (n : ℕ). x ∷ drop n (y ∷ l)) e

drop-length {ℓ} : {A : Type ℓ} (l : List A) → drop (length l) l ≡ []
drop-length [] = refl
drop-length (x ∷ l) = drop-length l

-- The ring after the lines of a history, the oldest first.
pub record IsRing (r : LogRing) (history : List Bytes) : Type 0 where
  pub total : r.n ≡ length history
  pub at :
      (i : ℕ)
      → i < length history
      → length history ≤ i + log_ring_lines
      → nth i history ≡ some (r.lines (i % log_ring_lines))

new_ring-IsRing : IsRing new_ring []
new_ring-IsRing = record { total = refl; at = λ i h k. absurd (omega arith) }

ℕ-cases : (a b : ℕ) → (a < b) ⊎ (b ≤ a)
ℕ-cases a b = ground arith

-- Fewer than 512 lines apart, two lines stand in different places.
apart : (i n : ℕ) → i < n → n < i + 512 → ((i % 512) == (n % 512)) ≡ false
apart i n h k = lt_or (omega arith)
  where
    lt_or : i % 512 ≢ n % 512 → ((i % 512) == (n % 512)) ≡ false
    lt_or h = ground arith

write-IsRing :
    (r : LogRing) (history : List Bytes) (stamp p : Bytes)
    → IsRing r history
    → length history + 1 < 2 ^ 64
    → IsRing (write r stamp p) (history ++ (line_of stamp p ∷ []))
unfolding write
write-IsRing r history stamp p ring small = record {
  total = omega (arith, ring.total, length-append history (line_of stamp p ∷ []));
  at = λ i h k.
      at i
        (elim (ℕ-cases i (length history)) [
          | inl x ↦ inl x
          | inr x ↦ inr (omega (arith, h, x, length-append history (line_of stamp p ∷ [])))
        ])
        (omega (arith, k, length-append history (line_of stamp p ∷ [])));
}
  where
    at :
        (i : ℕ)
        → (i < length history) ⊎ (i ≡ length history)
        → length history < i + log_ring_lines
        → nth i (history ++ (line_of stamp p ∷ []))
          ≡ some (
              if i % log_ring_lines == r.n % log_ring_lines
              then line_of stamp p
              else r.lines (i % log_ring_lines))
    at i (inl h) k =
        let other : (i % log_ring_lines == r.n % log_ring_lines) ≡ false =
          apart i r.n (omega (arith, ring.total)) (omega (arith, ring.total)) in
        rw other (nth-append_before i history (line_of stamp p ∷ []) h ∙ ring.at i h (omega arith))
    at i (inr h) k =
        let own : (i % log_ring_lines == r.n % log_ring_lines) ≡ true =
          rw (h, ring.total) (==-refl (length history % log_ring_lines)) in
        rw own (
          ap (λ (n : ℕ). nth n (history ++ (line_of stamp p ∷ []))) h
          ∙ nth-append_at history (line_of stamp p))

collect-drop :
    (r : LogRing) (history : List Bytes) (start k : ℕ)
    → IsRing r history
    → start + k ≡ length history
    → k ≤ log_ring_lines
    → collect r start k ≡ drop start history
unfolding collect
collect-drop r history start zero ring h small =
    sym (ap (λ (n : ℕ). drop n history) (omega (arith, h)) ∙ drop-length history)
collect-drop r history start (suc k) ring h small =
    ap (λ l. r.lines (start % log_ring_lines) ∷ l)
      (collect-drop r history (start + 1) k ring (omega arith) (omega arith))
    ∙ sym (
        drop-nth start history (r.lines (start % log_ring_lines))
          (ring.at start (omega arith) (omega arith)))

-- The calls of Write, in their order, each with its stamp, and the lines that they add.
unfoldable pub write_all : LogRing → List (Bytes × Bytes) → LogRing
write_all r [] = r
write_all r ((stamp, p) ∷ ps) = write_all (write r stamp p) ps

unfoldable pub lines_of : List (Bytes × Bytes) → List Bytes
lines_of [] = []
lines_of ((stamp, p) ∷ ps) = line_of stamp p ∷ lines_of ps

write_all-IsRing :
    (r : LogRing) (history : List Bytes) (ps : List (Bytes × Bytes))
    → IsRing r history
    → length history + length ps < 2 ^ 64
    → IsRing (write_all r ps) (history ++ lines_of ps)
unfolding write_all lines_of
write_all-IsRing r history [] ring h = subst (IsRing r) (sym (append-nil history)) ring
write_all-IsRing r history ((stamp, p) ∷ ps) ring h =
    subst (IsRing (write_all (write r stamp p) ps))
      (append_assoc history (line_of stamp p ∷ []) (lines_of ps))
      (write_all-IsRing (write r stamp p) (history ++ (line_of stamp p ∷ [])) ps
        (write-IsRing r history stamp p ring (omega arith))
        (omega (arith, h, length-append history (line_of stamp p ∷ []))))

recent-IsRing :
    (r : LogRing) (history : List Bytes)
    → IsRing r history
    → recent r ≡ drop (length history - log_ring_lines) history
unfolding recent
recent-IsRing r history ring =
    let e : (if ltb log_ring_lines r.n then r.n - log_ring_lines else 0)
        ≡ length history - log_ring_lines =
      ground (arith, ring.total) in
    ap (λ (n : ℕ). collect r n (r.n - n)) e
    ∙ collect-drop r history (length history - log_ring_lines)
        (r.n - (length history - log_ring_lines)) ring (omega (arith, ring.total))
        (omega (arith, ring.total))

-- After any sequence of fewer than 2 ^ 64 writes, what ServeHTTP copies out of the ring are the
-- last 512 of the lines that were written, in their order, or all of them when there are fewer.
pub recent-write_all :
    (ps : List (Bytes × Bytes))
    → length ps < 2 ^ 64
    → recent (write_all new_ring ps) ≡ drop (length (lines_of ps) - log_ring_lines) (lines_of ps)
recent-write_all ps h =
    recent-IsRing (write_all new_ring ps) (lines_of ps)
      (write_all-IsRing new_ring [] ps new_ring-IsRing (omega arith))
