-- ===== src/Firmware/LogRing.antt =====
-- fw/vitrum/logz.go: the ring of recent log lines. The array is a function of the index; the stamp
-- of a line is the clock's and so an argument.
pub mod Recent
use vitrum.Base.{
  ℕ, zero, suc, ◌+◌, ◌-◌, ◌%◌, ◌^◌, List, [], ◌∷◌, ◌++◌, Bool, true, false, ◌&&◌, ltb, ◌==◌,
  if◌then◌else◌,
}
use vitrum.Base.Bytes.{Bytes, codes}
use vitrum.Witness.Pool.{null}

pub record LogRing : Type 0 where
  pub lines : ℕ → Bytes
  pub n : ℕ

abbrev pub log_ring_lines : ℕ
log_ring_lines = 512

-- The zero value.
abbrev pub new_ring : LogRing
new_ring = record { lines = λ i. []; n = 0 }

-- strings.TrimRight(s, "\n")
unfoldable pub trim_right : Bytes → Bytes
trim_right [] = []
trim_right (c ∷ r) = let rest = trim_right r in if c == 10 && null rest then [] else c ∷ rest

abbrev pub line_of : Bytes → Bytes → Bytes
line_of stamp p = stamp ++ (codes " " ++ trim_right p)

unfoldable pub write : LogRing → Bytes → Bytes → LogRing
write r stamp p = record {
  lines = λ i. if i == r.n % log_ring_lines then line_of stamp p else r.lines i;
  n = (r.n + 1) % 2 ^ 64;
}

-- The loop of ServeHTTP from a line on, for so many lines.
unfoldable pub collect : LogRing → ℕ → ℕ → List Bytes
collect r start zero = []
collect r start (suc k) = r.lines (start % log_ring_lines) ∷ collect r (start + 1) k

-- What ServeHTTP copies out of the ring.
unfoldable pub recent : LogRing → List Bytes
unfolding collect
recent r =
    let start = if ltb log_ring_lines r.n then r.n - log_ring_lines else 0 in
    collect r start (r.n - start)

unfoldable pub body_of : List Bytes → Bytes
body_of [] = []
body_of (line ∷ lines) = line ++ (10 ∷ body_of lines)

-- The body that ServeHTTP sends.
abbrev pub serve : LogRing → Bytes
serve r = body_of (recent r)
