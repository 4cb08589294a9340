-- ===== src/Witness/Pool.antt =====
-- internal/witness/witness.go: the Witness, its signer, AddCheckpoint, addToPool and matchPending.
pub mod Admit
pub mod Extends
use vitrum.Base.{
  ℕ, ◌+◌, ◌%◌, ◌^◌, List, [], ◌∷◌, ◌++◌, Bool, true, false, Option, none, some, not, ◌&&◌, ◌||◌,
  leb, ◌==◌, if◌then◌else◌, length, replicate,
}
use vitrum.Base.Bytes.{Bytes, codes, bytes_eq}
use vitrum.Base.Dict.{Dict, lookup, insert}
use vitrum.Base.Int.{ℤ, pos, negsuc, int_eq, int_lt}
use vitrum.Base.Decimal.{format_int}
use vitrum.Base.Result.{Result, ok, err, ◌>>=◌}
use vitrum.Witness.{Checkpoint, LogState}
use vitrum.Witness.Logs.{Store}
use vitrum.Witness.Note.{note_text}
use vitrum.Witness.Request.{Request, RequestError, parse_request}
use vitrum.Witness.Request.{
  missing_old_size, bad_first_line, invalid_old_size, missing_checkpoint, too_many_proof_lines,
  invalid_proof_hash, empty_checkpoint,
}

-- An HTTP status code and a body.
pub record Reply : Type 0 where
  pub code : ℕ
  pub resp : Bytes

-- `signer` stands for the pointer.
pub record Candidate : Type 0 where
  pub cp : Checkpoint
  pub text : Bytes
  pub signer : ℕ
  pub epoch : ℕ

pub record PoolEntry : Type 0 where
  pub candidate : Candidate
  pub result : Reply

abbrev pub Pool : Type 0
Pool = Dict PoolEntry

-- `in_sequencing` is the map of the pool that the sequencer holds, the same object as the pool's
-- own. `closed` has the pools whose `done` channels are closed.
pub record Witness (S : Type 0) : Type 0 where
  pub signer : Option ℕ
  pub epoch : ℕ
  pub store : S
  pub batches_committed : ℕ
  pub batches_failed : ℕ
  pub last_commit : ℤ
  pub current_pool : Pool
  pub in_sequencing : Pool
  pub running : Bool
  pub closed : List Pool

-- What add_checkpoint does at once: it answers, or it waits for the entry of the origin.
pub data Outcome : Type 0 where
  answers : Reply → Outcome
  waits : Bytes → Outcome

-- What the code reads of packages outside the repository: torchwood.ParseCheckpoint,
-- tlog.ParseHash, tlog.CheckTree (whether it returns no error) and sha256.Sum256(nil).
pub record Logic : Type 0 where
  pub parse_checkpoint : Bytes → Option Checkpoint
  pub parse_hash : Bytes → Option Bytes
  pub check_tree : List Bytes → ℤ → Bytes → ℤ → Bytes → Bool
  pub empty_tree_hash : Bytes

abbrev pub max_pool_size : ℕ
max_pool_size = 256

abbrev pub reply : ℕ → Bytes → Reply
reply code resp = record { code = code; resp = resp }

abbrev error_message : RequestError → Bytes
error_message missing_old_size = codes "malformed request: missing old size line"
error_message bad_first_line = codes "malformed request: first line must be \"old <size>\""
error_message invalid_old_size = codes "malformed request: invalid old size"
error_message missing_checkpoint = codes "malformed request: missing checkpoint"
error_message too_many_proof_lines = codes "malformed request: more than 63 proof lines"
error_message invalid_proof_hash = codes "malformed request: invalid proof hash"
error_message empty_checkpoint = codes "malformed request: empty checkpoint"

-- An atomic counter of 64 bits.
abbrev pub count : ℕ → ℕ
count n = (n + 1) % 2 ^ 64

-- The size and the hash that the source uses when there is no state: zero values.
abbrev pub latest_size : Option LogState → ℤ
latest_size none = pos 0
latest_size (some st) = st.size

abbrev pub latest_hash : Option LogState → Bytes
latest_hash none = replicate 32 0
latest_hash (some st) = st.hash

abbrev or_reply : {A : Type 0} → Reply → Option A → Result Reply A
or_reply r none = err r
or_reply r (some a) = ok a

abbrev of_request : {A : Type 0} → Result RequestError A → Result Reply A
of_request (err e) = err (reply 400 (error_message e ++ codes "\n"))
of_request (ok a) = ok a

abbrev check_halted : Bool → Result Reply (Unit {0})
check_halted true = err (reply 503 (codes "witness halted: storage rollback or tamper detected\n"))
check_halted false = ok tt

unfoldable pub conflict : Option LogState → Reply
conflict prev = reply 409 (format_int (latest_size prev) ++ codes "\n")

abbrev pub null {ℓ} : {A : Type ℓ} → List A → Bool
null [] = true
null (x ∷ l) = false

unfoldable pub same_candidate : Candidate → Candidate → Bool
same_candidate a c =
    a.signer == c.signer
    && a.epoch == c.epoch
    && int_eq a.cp.n c.cp.n
    && bytes_eq a.cp.hash c.cp.hash
    && bytes_eq a.text c.text

module _ (g : Logic) where
  -- The switch of addToPool: whether the checkpoint is taken, for a state of the log.
  unfoldable pub consistent : Option LogState → Request → Checkpoint → Bool
  consistent prev req cp =
      if int_eq cp.n (pos 0)
      then null req.proof && bytes_eq cp.hash g.empty_tree_hash
      else if int_eq req.old cp.n
      then null req.proof && bytes_eq cp.hash (latest_hash prev)
      else if int_eq req.old (pos 0)
      then null req.proof
      else g.check_tree req.proof cp.n cp.hash req.old (latest_hash prev)

  -- AddCheckpoint up to the pool, on what it reads of the witness: the signer, Halted and the epoch.
  unfoldable pub check_request : Option ℕ → Bool → ℕ → Bytes → Result Reply (Request × Candidate)
  check_request signer halted epoch body = do
    key ← or_reply (reply 503 (codes "witness key not provisioned\n")) signer
    proceed ← check_halted halted
    req ← of_request (parse_request g.parse_hash body)
    text ←
        or_reply (reply 400 (codes "malformed request: not a signed note\n")) (note_text req.note)
    cp ←
        or_reply (reply 400 (codes "malformed request: invalid checkpoint\n"))
          (g.parse_checkpoint text)
    (if int_lt cp.n req.old
        then err (reply 400 [])
        else ok (req, record { cp = cp; text = text; signer = key; epoch = epoch }))

  module _ {S I : Type 0} (store : Store S I) where
    unfoldable pub new_witness : S → Witness S
    new_witness s = record {
      signer = none;
      epoch = 0;
      store = s;
      batches_committed = 0;
      batches_failed = 0;
      last_commit = pos 0;
      current_pool = [];
      in_sequencing = [];
      running = false;
      closed = [];
    }

    unfoldable pub set_signer : Witness S → ℕ → Witness S
    set_signer w key = record w { signer = some key; epoch = count w.epoch }

    unfoldable pub clear_signer : Witness S → Witness S
    clear_signer w = record w { signer = none; epoch = count w.epoch }

    unfoldable pub match_pending : Witness S → PoolEntry → Candidate → Outcome
    unfolding same_candidate conflict
    match_pending w entry c =
        if same_candidate entry.candidate c
        then waits c.cp.origin
        else answers (conflict (store.get w.store c.cp.origin))

    unfoldable pub add_entry : Witness S → Candidate → Witness S
    add_entry w c = record w {
      current_pool =
          insert c.cp.origin (record { candidate = c; result = reply 0 [] }) w.current_pool;
    }

    -- addToPool on an origin that no pool has
    unfoldable pub admit : Witness S → Request → Candidate → Witness S × Outcome
    unfolding consistent conflict add_entry
    admit w req c =
        let prev = store.get w.store c.cp.origin in
        if leb max_pool_size (length w.current_pool)
        then (w, answers (reply 429 (codes "checkpoint pool full\n")))
        else if not (int_eq req.old (latest_size prev))
        then (w, answers (conflict prev))
        else if not (consistent prev req c.cp)
        then (w, answers (reply 422 []))
        else (add_entry w c, waits c.cp.origin)

    unfoldable pub add_to_pool : Witness S → Request → Candidate → Witness S × Outcome
    unfolding match_pending admit
    add_to_pool w req c = elim (lookup c.cp.origin w.current_pool) [
      | some entry ↦ (w, match_pending w entry c)
      | none ↦ elim (lookup c.cp.origin w.in_sequencing) [
        | some entry ↦ (w, match_pending w entry c)
        | none ↦ admit w req c
      ]
    ]

    abbrev add_checked : Witness S → Result Reply (Request × Candidate) → Witness S × Outcome
    add_checked w (err r) = (w, answers r)
    add_checked w (ok (req, c)) = add_to_pool w req c

    unfoldable pub add_checkpoint : Witness S → Bytes → Witness S × Outcome
    unfolding add_to_pool
    add_checkpoint w body =
        add_checked w (check_request w.signer (store.halted w.store) w.epoch body)
