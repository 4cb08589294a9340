-- ===== src/Witness/Round.antt =====
-- internal/witness/witness.go: AddCheckpoint to its end, with the run of the sequencer that answers
-- the submission. Nothing else happens to the witness in between.
pub mod Alone
pub mod Consistent
pub mod Encoded
pub mod Steps
pub mod Views
use vitrum.Base.{ℕ, List, [], ◌∷◌, Option, none, some}
use vitrum.Base.Bytes.{Bytes}
use vitrum.Base.Dict.{lookup}
use vitrum.Base.Int.{ℤ}
use vitrum.Witness.Logs.{Store}
use vitrum.Witness.Pool.{
  Reply, Pool, Witness, Outcome, answers, waits, Logic, reply, add_checkpoint,
}
use vitrum.Witness.Sequencer.{sequence}

-- What a run of the sequencer meets: note.Sign at that time, the time, and the outside's part.
pub record Turn (I : Type 0) : Type 0 where
  pub sign : ℕ → Bytes → Option Bytes
  pub now : ℤ
  pub outside : I

-- The result of an entry whose channel is closed: the newest pool that has the origin.
unfoldable pub result_of : Bytes → List Pool → Reply
result_of origin [] = reply 0 []
result_of origin (p ∷ closed) = elim (lookup origin p) [
  | none ↦ result_of origin closed
  | some e ↦ e.result
]

module _ {S I : Type 0} (g : Logic) (store : Store S I) (t : Turn I) where
  -- `<-entry.done`
  unfoldable pub await : Witness S → Outcome → Witness S × Reply
  unfolding result_of
  await w (answers r) = (w, r)
  await w (waits origin) =
      let v = sequence store w t.sign t.now t.outside in (v, result_of origin v.closed)

  unfoldable pub round : Witness S → Bytes → Witness S × Reply
  unfolding await
  round w body = let (v, o) = add_checkpoint g store w body in await v o
