-- ===== src/Client/Record/Replays.antt =====
-- internal/witness/fixtures_test.go: the fixtures of a recording, replayed against a fresh witness.
pub mod Written
pub mod Fixtures
pub mod Played
pub mod Recorded
pub mod Replayed
use vitrum.Base.{
  ℕ, ◌+◌, List, [], ◌∷◌, ◌++◌, Bool, true, false, ◌&&◌, Option, none, some, ◌==◌, ◌≡◌, arith,
}
use vitrum.Base.Bytes.{Bytes, codes, bytes_eq}
use vitrum.Base.Dict.{Dict, lookup, insert, lookup-insert}
use vitrum.Witness.Logs.{Store}
use vitrum.Witness.Pool.{Logic, Witness}
use vitrum.Witness.Round.{Turn, round}
use vitrum.Client.Record.{FixtureStep}

module _ {S I : Type 0} (g : Logic) (store : Store S I) (turns : ℕ → Turn I) where
  -- Whether every step has the status that the manifest lists, from the turn `k` on.
  unfoldable pub replay : Witness S → ℕ → Dict Bytes → List FixtureStep → Bool
  replay w k files [] = true
  replay w k files (s ∷ steps) = elim (lookup s.file files) [
    | none ↦ false
    | some content ↦
        let (v, r) = round g store (turns k) w content in
        r.code == s.status && replay v (k + 1) files steps
  ]

  pub replay-step :
      (w : Witness S) (k : ℕ) (files : Dict Bytes) (s : FixtureStep) (steps : List FixtureStep)
      (content : Bytes)
      → lookup s.file files ≡ some content
      → (round g store (turns k) w content).1.code ≡ s.status
      → replay (round g store (turns k) w content).0 (k + 1) files steps ≡ true
      → replay w k files (s ∷ steps) ≡ true
  unfolding replay
  replay-step w k files s steps content found status rest = ground arith
