-- ===== src/Witness/Round/Alone.antt =====
-- internal/witness: what one submission on its own comes to.
use vitrum.Base.{
  ℕ, ◌+◌, List, [], ◌∷◌, Bool, true, false, not, Option, none, some, ◌≡◌, refl, ap, ◌∙◌,
  if◌then◌else◌, length, drop, arith,
}
use vitrum.Base.Bytes.{Bytes, bytes_eq_refl}
use vitrum.Base.Dict.{lookup, insert, has, keys}
use vitrum.Base.Dict.Distinct.{Distinct, or_else}
use vitrum.Base.Int.{int_eq}
use vitrum.Base.Result.{ok}
use vitrum.Witness.{Checkpoint, LogState}
use vitrum.Witness.Logs.{Store, IsStore}
use vitrum.Witness.Request.{Request}
use vitrum.Witness.Pool.{
  Reply, Candidate, Witness, Logic, answers, waits, reply, latest_size, conflict, check_request,
  consistent, admit, add_entry, count, add_to_pool, add_checkpoint,
}
use vitrum.Witness.Sequencer.{
  next_state, sequence, sign_entries, signing, sign_entry, rotate, retire, sequence_pool,
  commit_batch, after_put,
}
use vitrum.Witness.Round.{Turn, await, round, result_of}

-- A store that neither halts nor refuses a commit.
pub record IsReliable {S I : Type 0} (store : Store S I) : Type 0 where
  pub runs : (s : S) → store.halted s ≡ false
  pub commits : (s : S) (i : I) (u : List (Bytes × LogState)) → (store.put_batch s i u).1 ≡ true

-- A witness with a key and nothing in its pools.
pub record IsIdle {S : Type 0} (w : Witness S) (key : ℕ) : Type 0 where
  pub signs : w.signer ≡ some key
  pub empty : w.current_pool ≡ []
  pub settled : w.in_sequencing ≡ []

-- The answer with a signed note's signatures.
abbrev pub cosignature : Candidate → Bytes → Reply
cosignature c s = reply 200 (drop (length c.text + 1) s)

-- What a submission that is committed leaves, and its answer.
pub record IsCommitted {S I : Type 0} (store : Store S I) (w : Witness S) (key : ℕ) (c : Candidate)
    (s : Bytes) (v : Witness S) (r : Reply) : Type 0 where
  pub idle_after : IsIdle v key
  pub epoch_kept : v.epoch ≡ w.epoch
  pub answered : r ≡ cosignature c s
  pub stored :
      (o : Bytes)
      → store.get v.store o
        ≡ or_else (lookup o ((c.cp.origin, next_state c s) ∷ [])) (store.get w.store o)

-- How a request is refused, for a state of its log.
abbrev pub refusal : Logic → Option LogState → Request → Checkpoint → Option Reply
refusal g prev req cp =
    if not (int_eq req.old (latest_size prev))
    then some (conflict prev)
    else if not (consistent g prev req cp)
    then some (reply 422 [])
    else none

module _ {S I : Type 0} (g : Logic) (store : Store S I) (good : IsStore store)
    (reliable : IsReliable store) (t : Turn I) (w : Witness S) (key : ℕ) (idle : IsIdle w key) where
  no_entry : (req : Request) (c : Candidate) → add_to_pool g store w req c ≡ admit g store w req c
  unfolding add_to_pool lookup
  no_entry req c =
      let free : lookup c.cp.origin w.current_pool ≡ none = rw idle.empty in
      let unheld : lookup c.cp.origin w.in_sequencing ≡ none = rw idle.settled in
      ground (arith, free, unheld)

  admit_refused :
      (req : Request) (c : Candidate) (r : Reply)
      → refusal g (store.get w.store c.cp.origin) req c.cp ≡ some r
      → admit g store w req c ≡ (w, answers r)
  unfolding admit
  admit_refused req c r e = rw idle.empty (ground arith)

  admit_taken :
      (req : Request) (c : Candidate)
      → refusal g (store.get w.store c.cp.origin) req c.cp ≡ none
      → admit g store w req c ≡ (add_entry g store w c, waits c.cp.origin)
  unfolding admit
  admit_taken req c e = rw idle.empty (ground arith)

  module _ (c : Candidate) (s : Bytes) (own : c.signer ≡ key) (present : c.epoch ≡ w.epoch)
      (signs : t.sign key c.text ≡ some s) where
    abbrev update : List (Bytes × LogState)
    update = (c.cp.origin, next_state c s) ∷ []

    one_key : Distinct update
    unfolding has keys
    one_key = (refl, tt)

    -- The witness after the commit.
    abbrev after : Witness S
    after = record w {
      store = (store.put_batch w.store t.outside update).0;
      current_pool = [];
      in_sequencing = [];
      batches_committed = count w.batches_committed;
      last_commit = t.now;
      closed = ((c.cp.origin, record { candidate = c; result = cosignature c s }) ∷ []) ∷ w.closed;
    }

    put_lem :
        store.put_batch w.store t.outside update
        ≡ ((store.put_batch w.store t.outside update).0, true)
    put_lem =
        ap (λ (b : Bool). ((store.put_batch w.store t.outside update).0, b))
          (reliable.commits w.store t.outside update)

    -- The witness with the entry in sequencing.
    abbrev held : Witness S
    held = record w {
      current_pool = [];
      in_sequencing = (c.cp.origin, record { candidate = c; result = reply 0 [] }) ∷ [];
    }

    rotate-add_entry : rotate store (add_entry g store w c) ≡ held
    unfolding rotate add_entry insert
    rotate-add_entry = rw idle.empty refl

    sign_entries-one : sign_entries t.sign key w.epoch held.in_sequencing ≡ record {
      entries = (c.cp.origin, record { candidate = c; result = cosignature c s }) ∷ [];
      states = update;
      sign_failed = false;
    }
    unfolding sign_entries signing sign_entry
    sign_entries-one = ground (arith, own, present, signs)

    sequence_pool-held : retire store (sequence_pool store held t.sign t.now t.outside) ≡ after
    unfolding sequence_pool retire commit_batch after_put
    sequence_pool-held =
        rw (idle.signs, reliable.runs w.store, sign_entries-one, put_lem)
          (ap (λ (k : Option ℕ). record after { signer = k }) idle.signs)

    sequence-after : sequence store (add_entry g store w c) t.sign t.now t.outside ≡ after
    unfolding sequence
    sequence-after =
        ap (λ v. retire store (sequence_pool store v t.sign t.now t.outside)) rotate-add_entry
        ∙ sequence_pool-held

    result_of-after : result_of c.cp.origin after.closed ≡ cosignature c s
    unfolding result_of lookup
    result_of-after = ground (arith, bytes_eq_refl c.cp.origin)

    await-IsCommitted :
        IsCommitted store w key c s
          (await g store t (add_entry g store w c) (waits c.cp.origin)).0
          (await g store t (add_entry g store w c) (waits c.cp.origin)).1
    unfolding await
    await-IsCommitted = rw sequence-after (record {
      idle_after = record { signs = idle.signs; empty = refl; settled = refl };
      epoch_kept = refl;
      answered = result_of-after;
      stored = good.committed w.store _ t.outside update one_key put_lem;
    })

  -- A lone submission that check_request lets through, to a witness with a key and empty pools, gets
  -- the refusal that the state of its log calls for, and leaves the witness as it was; or it is
  -- committed and cosigned.
  module _ (body : Bytes) (req : Request) (c : Candidate)
      (checked : check_request g w.signer (store.halted w.store) w.epoch body ≡ ok (req, c)) where
    add_checkpoint-admit : add_checkpoint g store w body ≡ admit g store w req c
    unfolding add_checkpoint
    add_checkpoint-admit = rw checked (no_entry req c)

    pub round-refused :
        (r : Reply)
        → refusal g (store.get w.store c.cp.origin) req c.cp ≡ some r
        → round g store t w body ≡ (w, r)
    unfolding round
    round-refused r e = rw (add_checkpoint-admit, admit_refused req c r e) refl

    pub round-IsCommitted :
        (s : Bytes)
        → c.signer ≡ key
        → c.epoch ≡ w.epoch
        → t.sign key c.text ≡ some s
        → refusal g (store.get w.store c.cp.origin) req c.cp ≡ none
        → IsCommitted store w key c s (round g store t w body).0 (round g store t w body).1
    unfolding round
    round-IsCommitted s own present signs e =
        rw (add_checkpoint-admit, admit_taken req c e) (await-IsCommitted c s own present signs)
