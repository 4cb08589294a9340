-- ===== src/Client/Pin/Agree.antt =====
-- cmd/vitrum/provision.go: the pin file over several dials.
use vitrum.Base.{
  List, [], ◌∷◌, Bool, true, not, ◌&&◌, Option, none, some, ◌≡◌, refl, subst, sym, ap, ◌∙◌, if-elim,
  All, arith, inl, inr, Option-cases,
}
use vitrum.Base.Bytes.{Bytes, bytes_eq_iff}
use vitrum.Base.Result.{Result, ok, err}
use vitrum.Client.Pin.{
  HostKeys, Attempt, DialError, Pin, Client, dial_callback, verify_host, fixed_host_key, found,
  write_pin, create_pin, pair, dial_tofu, dial_parsed, dial_pinned, dials,
}

-- ssh.MarshalAuthorizedKey is read back by ssh.ParseAuthorizedKey.
pub record IsHostKeys (keys : HostKeys) : Type 0 where
  pub parse-marshal : (key : Bytes) → keys.parse_key (keys.marshal_key key) ≡ some key

module _ (keys : HostKeys) (is_host_keys : IsHostKeys keys) where
  -- What one dial does: a pin stays, and a client's key is the one that is pinned afterwards.
  abbrev pub Pinned : Pin → Pin × Result DialError Client → Type 0
  Pinned pin (after, err e) = (b : Bytes) → pin ≡ some b → after ≡ some b
  Pinned pin (after, ok key) =
      (b : Bytes) × (after ≡ some b)
      × (keys.parse_key b ≡ some key)
      × ((p : Bytes) → pin ≡ some p → p ≡ b)

  write_pin-Pinned : (a : Attempt) (key : Client) → Pinned none (write_pin keys a key)
  unfolding write_pin
  write_pin-Pinned a key =
      if-elim (Pinned none) (not a.can_write) _ _ (λ e b same. cc)
        (λ e.
          if-elim (Pinned none) (not a.can_close) _ _ (λ f b same. cc)
            (λ f. (keys.marshal_key key, refl, is_host_keys.parse-marshal key, λ p same. cc)))

  create_pin-Pinned :
      (a : Attempt) (key : Client) (pin : Pin) → Pinned pin (create_pin keys a key pin)
  unfolding create_pin
  create_pin-Pinned a key (some b) = λ p same. same
  create_pin-Pinned a key none =
      if-elim (Pinned none) a.can_create _ _ (λ e. write_pin-Pinned a key) (λ e b same. cc)

  pair-Pinned :
      (a : Attempt) (pin : Pin) (o : Option Client) → Pinned (found a pin) (pair keys a pin o)
  unfolding pair
  pair-Pinned a pin none = λ b same. same
  pair-Pinned a pin (some key) =
      if-elim (Pinned (found a pin)) a.can_make_dir _ _ (λ e. create_pin-Pinned a key (found a pin))
        (λ e b same. same)

  verified :
      (a : Attempt) (key : Bytes) (o : Option Bytes) (c : Client)
      → verify_host a (fixed_host_key key) o ≡ some c
      → key ≡ c
  unfolding verify_host
  verified a key none c e = cc
  verified a key (some k) c e = ground (arith, (bytes_eq_iff key k).0)

  -- A pin file that is there, or that another process makes in between, is not written, and what
  -- is pinned after a successful dial is the key of the device.
  pub dial_pinned-Pinned :
      (tofu : Bool) (a : Attempt) (pin : Pin) → Pinned (found a pin) (dial_pinned keys tofu a pin)
  unfolding dial_pinned dial_tofu
  dial_pinned-Pinned tofu a none =
      if-elim (Pinned (found a none)) (a.can_read && tofu) _ _
        (λ e. pair-Pinned a none (dial_callback a (λ key. true))) (λ e b same. same)
  dial_pinned-Pinned tofu a (some b) =
      if-elim (Pinned (some b)) a.can_read _ _ (λ e. parsed (keys.parse_key b) refl)
        (λ e p same. same)
    where
      parsed :
          (o : Option Bytes) → keys.parse_key b ≡ o → Pinned (some b) (some b, dial_parsed keys a o)
      parsed none d = λ p same. same
      parsed (some key) d = elim (Option-cases (dial_callback a (fixed_host_key key))) [
        | inl f ↦ rw f (λ p same. same)
        | inr (c, f) ↦ rw f (b, refl, d ∙ ap some (verified a key a.presented c f), λ p same. cc)
      ]

  abbrev pub IsClientOf : Client → Result DialError Client → Type 0
  IsClientOf key (err e) = Unit {0}
  IsClientOf key (ok c) = c ≡ key

  -- With a pin, a dial leaves it and gives no client but of the pinned device.
  kept :
      (b key : Bytes) (r : Pin × Result DialError Client)
      → keys.parse_key b ≡ some key
      → Pinned (some b) r
      → (r.0 ≡ some b) × IsClientOf key r.1
  kept b key (after, err e) d h = (h b refl, tt)
  kept b key (after, ok c) d h = let same : b ≡ h.0 = h.3 b refl in (h.1 ∙ cc, cc)

  -- No other process deletes or replaces the file before any of the dials.
  abbrev pub IsLeft : List (Bool × Attempt) → Type 0
  IsLeft l = All (λ t. t.1.replaced ≡ none) l

  dials-IsClientOf :
      (b key : Bytes) (l : List (Bool × Attempt))
      → keys.parse_key b ≡ some key
      → IsLeft l
      → All (IsClientOf key) (dials keys (some b) l)
  unfolding dials
  dials-IsClientOf b key [] d left = tt
  dials-IsClientOf b key ((tofu, a) ∷ l) d (here, left) = rw here (
      let k : ((dial_pinned keys tofu a (some b)).0 ≡ some b)
          × IsClientOf key (dial_pinned keys tofu a (some b)).1 =
        kept b key (dial_pinned keys tofu a (some b)) d (dial_pinned-Pinned tofu a (some b)) in
      (
        k.1,
        subst (λ (p : Pin). All (IsClientOf key) (dials keys p l)) (sym k.0)
            (dials-IsClientOf b key l d left),
      ))

  paired :
      (pin : Pin) (r : Pin × Result DialError Client) (key : Client)
      → Pinned pin r
      → r.1 ≡ ok key
      → (b : Bytes) × (r.0 ≡ some b) × (keys.parse_key b ≡ some key)
  paired pin (after, err e) key h same = cc
  paired pin (after, ok c) key h same = (h.0, h.1, cc)

  -- After a dial that succeeds, whether it paired with the device or found a pin, every client
  -- that later dials get, with or without -tofu and whatever happens to their connections, is
  -- connected to a device with the same host key, as long as no other process deletes or
  -- replaces the pin file. The text of a host key parses back.
  pub dials-agree :
      (tofu : Bool) (a : Attempt) (pin : Pin) (key : Client) (l : List (Bool × Attempt))
      → (dial_pinned keys tofu a pin).1 ≡ ok key
      → IsLeft l
      → All (IsClientOf key) (dials keys (dial_pinned keys tofu a pin).0 l)
  dials-agree tofu a pin key l first left =
      let (b, e, d) =
        paired (found a pin) (dial_pinned keys tofu a pin) key (dial_pinned-Pinned tofu a pin)
          first in
      rw e (dials-IsClientOf b key l d left)
