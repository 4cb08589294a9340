-- ===== src/Witness/Sequencer/Entries.antt =====
-- internal/witness: what the loop of sequencePool makes of a pool, entry by entry.
use vitrum.Base.{
  ℕ, ◌+◌, ◌≡◌, refl, ap, ◌∙◌, [], ◌∷◌, false, Option, none, some, ◌||◌, if◌then◌else◌, length, drop,
  arith,
}
use vitrum.Base.Bytes.{Bytes, codes, bytes_eq, bytes_eq_iff}
use vitrum.Base.Dict.{has, keys, lookup}
use vitrum.Base.Dict.Distinct.{or_else, or_else-none, Distinct, lookup-not-has}
use vitrum.Witness.{LogState}
use vitrum.Witness.Pool.{Reply, PoolEntry, Pool, reply}
use vitrum.Witness.Sequencer.{
  Batch, Signing, key_changed, failed, signed, with_result, set_pool_result, next_state, sign_entry,
  signing, sign_entries,
}

-- The answer that a way through the loop gives, and the state that it hands to the store.
unfoldable pub reply_of : PoolEntry → Signing → Reply
reply_of e key_changed = reply 503 (codes "witness key changed while checkpoint was pending\n")
reply_of e failed = reply 500 []
reply_of e (signed s) = reply 200 (drop (length e.candidate.text + 1) s)

unfoldable pub state_of : PoolEntry → Signing → Option LogState
state_of e key_changed = none
state_of e failed = none
state_of e (signed s) = some (next_state e.candidate s)

entries_entry :
    (o origin : Bytes) (e : PoolEntry) (g : Signing) (b : Batch)
    → lookup o (sign_entry origin e g b).entries
      ≡ (if bytes_eq origin o then some (with_result e (reply_of e g)) else lookup o b.entries)
unfolding lookup sign_entry reply_of
entries_entry o origin e key_changed b = refl
entries_entry o origin e failed b = refl
entries_entry o origin e (signed s) b = refl

states_entry :
    (o origin : Bytes) (e : PoolEntry) (g : Signing) (b : Batch)
    → lookup o (sign_entry origin e g b).states
      ≡ or_else (if bytes_eq origin o then state_of e g else none) (lookup o b.states)
unfolding lookup sign_entry state_of
states_entry o origin e key_changed b = ground arith
states_entry o origin e failed b = ground arith
states_entry o origin e (signed s) b = ground arith

keys_entry :
    (origin : Bytes) (e : PoolEntry) (g : Signing) (b : Batch)
    → keys (sign_entry origin e g b).entries ≡ origin ∷ keys b.entries
unfolding keys sign_entry
keys_entry origin e key_changed b = refl
keys_entry origin e failed b = refl
keys_entry origin e (signed s) b = refl

states_entry-Distinct :
    (origin : Bytes) (e : PoolEntry) (g : Signing) (b : Batch)
    → has origin (keys b.states) ≡ false
    → Distinct b.states
    → Distinct (sign_entry origin e g b).states
unfolding sign_entry
states_entry-Distinct origin e key_changed b h d = d
states_entry-Distinct origin e failed b h d = d
states_entry-Distinct origin e (signed s) b h d = (h, d)

has_states_entry :
    (o origin : Bytes) (e : PoolEntry) (g : Signing) (b : Batch)
    → (bytes_eq origin o || has o (keys b.states)) ≡ false
    → has o (keys (sign_entry origin e g b).states) ≡ false
unfolding sign_entry keys has
has_states_entry o origin e key_changed b h = ground arith
has_states_entry o origin e failed b h = ground arith
has_states_entry o origin e (signed s) b h = h

abbrev pub map_entry : {A : Type 0} → (PoolEntry → A) → Option PoolEntry → Option A
map_entry f none = none
map_entry f (some e) = some (f e)

abbrev pub bind_entry : {A : Type 0} → (PoolEntry → Option A) → Option PoolEntry → Option A
bind_entry f none = none
bind_entry f (some e) = f e

pub lookup-set_pool_result :
    (o : Bytes) (p : Pool) (r : Reply)
    → lookup o (set_pool_result p r) ≡ map_entry (λ e. with_result e r) (lookup o p)
unfolding lookup set_pool_result
lookup-set_pool_result o [] r = refl
lookup-set_pool_result o ((k, e) ∷ p) r = ground (arith, lookup-set_pool_result o p r)

pub keys-set_pool_result : (p : Pool) (r : Reply) → keys (set_pool_result p r) ≡ keys p
unfolding keys set_pool_result
keys-set_pool_result [] r = refl
keys-set_pool_result ((k, e) ∷ p) r = rw (keys-set_pool_result p r)

module _ (sign : ℕ → Bytes → Option Bytes) (key epoch : ℕ) where
  abbrev pub answered : PoolEntry → PoolEntry
  answered e = with_result e (reply_of e (signing sign key epoch e))

  pub keys-sign_entries : (p : Pool) → keys (sign_entries sign key epoch p).entries ≡ keys p
  unfolding keys sign_entries
  keys-sign_entries [] = refl
  keys-sign_entries ((k, e) ∷ p) =
      keys_entry k e (signing sign key epoch e) (sign_entries sign key epoch p)
      ∙ ap (λ l. k ∷ l) (keys-sign_entries p)

  pub lookup-entries :
      (o : Bytes) (p : Pool)
      → lookup o (sign_entries sign key epoch p).entries ≡ map_entry answered (lookup o p)
  unfolding lookup sign_entries
  lookup-entries o [] = refl
  lookup-entries o ((k, e) ∷ p) =
      entries_entry o k e (signing sign key epoch e) (sign_entries sign key epoch p)
      ∙ ground (arith, lookup-entries o p)

  has-states :
      (o : Bytes) (p : Pool)
      → has o (keys p) ≡ false
      → has o (keys (sign_entries sign key epoch p).states) ≡ false
  unfolding has keys sign_entries
  has-states o [] h = refl
  has-states o ((k, e) ∷ p) h =
      has_states_entry o k e (signing sign key epoch e) (sign_entries sign key epoch p)
        (ground (arith, has-states o p))

  pub states-Distinct : (p : Pool) → Distinct p → Distinct (sign_entries sign key epoch p).states
  unfolding sign_entries
  states-Distinct [] d = tt
  states-Distinct ((k, e) ∷ p) (h, d) =
      states_entry-Distinct k e (signing sign key epoch e) (sign_entries sign key epoch p)
        (has-states k p h) (states-Distinct p d)

  pub lookup-states :
      (o : Bytes) (p : Pool)
      → Distinct p
      → lookup o (sign_entries sign key epoch p).states
        ≡ bind_entry (λ e. state_of e (signing sign key epoch e)) (lookup o p)
  unfolding lookup sign_entries
  lookup-states o [] d = refl
  lookup-states o ((k, e) ∷ p) (h, d) =
      states_entry o k e (signing sign key epoch e) (sign_entries sign key epoch p)
      ∙ ground (
        arith,
        lookup-states o p d,
        lookup-not-has k p h,
        bytes_eq_iff k o,
        or_else-none (state_of e (signing sign key epoch e)),
      )

  -- A signed entry is for the key and the epoch of the batch.
  pub signing-signed :
      (e : PoolEntry) (s : Bytes)
      → signing sign key epoch e ≡ signed s
      → (e.candidate.signer ≡ key)
        × (e.candidate.epoch ≡ epoch)
        × (sign key e.candidate.text ≡ some s)
  unfolding signing
  signing-signed e s h = ground arith
