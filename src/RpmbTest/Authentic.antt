-- ===== src/RpmbTest/Authentic.antt =====
-- internal/rpmbtest/fake.go: what changes a card.
use vitrum.Base.{
  ℕ, ◌+◌, ◌%◌, ◌^◌, ◌≡◌, ◌⊎◌, inl, inr, refl, Bool, true, false, not, Option, none, some, ◌==◌,
  if◌then◌else◌, if-elim, arith,
}
use vitrum.Base.Bytes.{Bytes, bytes_eq_iff}
use vitrum.Base.Word.{be_uint16}
use vitrum.Base.Result.{Result}
use vitrum.RpmbTest.{
  give, DataFrame, Library, FakeCard, CardError, covered, verify, stage_key_program,
  stage_counter_read, commit, stage_write, stage_read, dispatch, write_frame, write_rpmb, read_rpmb,
}

module _ (lib : Library) where
  -- What a card keeps, but for the staged response.
  abbrev pub IsSame : FakeCard → FakeCard → Type 0
  IsSame c v =
      (v.programmed ≡ c.programmed)
      × (v.key ≡ c.key)
      × (v.counter ≡ c.counter)
      × (v.sectors ≡ c.sectors)

  -- A card without a key got one.
  abbrev pub IsKeyed : FakeCard → DataFrame → FakeCard → Type 0
  IsKeyed c f v =
      (c.programmed ≡ false)
      × (v.programmed ≡ true)
      × (v.key ≡ f.key_mac)
      × (v.counter ≡ c.counter)
      × (v.sectors ≡ c.sectors)

  -- A frame with the card's key and counter was written.
  abbrev pub IsWritten : FakeCard → DataFrame → FakeCard → Type 0
  IsWritten c f v =
      (c.programmed ≡ true)
      × (f.key_mac ≡ lib.hmac c.key (covered lib f))
      × (lib.counter_of f ≡ c.counter)
      × (v.programmed ≡ true)
      × (v.key ≡ c.key)
      × (v.counter ≡ (c.counter + 1) % 2 ^ 32)
      × ((i : ℕ) → v.sectors i ≡ (if i == be_uint16 f.address then f.contents else c.sectors i))

  abbrev pub IsStep : FakeCard → DataFrame → FakeCard → Type 0
  IsStep c f v =
      IsSame c v
      ⊎ (((f.req ≡ lib.key_programming) × IsKeyed c f v)
          ⊎ ((f.req ≡ lib.data_write) × IsWritten c f v))

  same : (c : FakeCard) → IsSame c c
  same c = (refl, refl, refl, refl)

  stage_key_program-IsStep :
      (c : FakeCard) (f : DataFrame)
      → IsSame c (stage_key_program lib c f) ⊎ IsKeyed c f (stage_key_program lib c f)
  unfolding stage_key_program
  stage_key_program-IsStep c f =
      if-elim (λ (v : FakeCard). IsSame c v ⊎ IsKeyed c f v) c.programmed _ _ (λ e. inl (same c))
        (λ e. inr (e, refl, refl, refl, refl))

  stage_counter_read-IsSame : (c : FakeCard) (f : DataFrame) → IsSame c (stage_counter_read lib c f)
  unfolding stage_counter_read
  stage_counter_read-IsSame c f =
      if-elim (IsSame c) (not c.programmed) _ _ (λ e. same c) (λ e. same c)

  stage_read-IsSame : (c : FakeCard) (f : DataFrame) → IsSame c (stage_read lib c f)
  unfolding stage_read
  stage_read-IsSame c f = if-elim (IsSame c) (not c.programmed) _ _ (λ e. same c) (λ e. same c)

  stage_write-IsStep :
      (c : FakeCard) (f : DataFrame)
      → IsSame c (stage_write lib c f) ⊎ IsWritten c f (stage_write lib c f)
  unfolding stage_write commit verify
  stage_write-IsStep c f =
      if-elim (λ (v : FakeCard). IsSame c v ⊎ IsWritten c f v) (not c.programmed) _ _
        (λ e. inl (same c))
        (λ e.
          if-elim (λ (v : FakeCard). IsSame c v ⊎ IsWritten c f v) (not (verify lib c f)) _ _
            (λ unverified. inl (same c))
            (λ verified.
              if-elim (λ (v : FakeCard). IsSame c v ⊎ IsWritten c f v)
                (not (lib.counter_of f == c.counter)) _ _ (λ stale. inl (same c))
                (λ current. inr (
                  ground arith,
                  (bytes_eq_iff f.key_mac (lib.hmac c.key (covered lib f))).0 (ground arith),
                  ground arith,
                  ground arith,
                  refl,
                  refl,
                  λ i. refl,
                ))))

  dispatch-IsStep : (c : FakeCard) (f : DataFrame) → IsStep c f (dispatch lib c f)
  unfolding dispatch
  dispatch-IsStep c f =
      if-elim (IsStep c f) (f.req == lib.result_read) _ _ (λ e. inl (same c))
        (λ e.
          if-elim (IsStep c f) (f.req == lib.key_programming) _ _
            (λ programs. elim (stage_key_program-IsStep c f) [
              | inl s ↦ inl s
              | inr k ↦ inr (inl (ground arith, k))
            ])
            (λ e.
              if-elim (IsStep c f) (f.req == lib.counter_read) _ _
                (λ e. inl (stage_counter_read-IsSame c f))
                (λ e.
                  if-elim (IsStep c f) (f.req == lib.data_write) _ _
                    (λ written. elim (stage_write-IsStep c f) [
                      | inl s ↦ inl s
                      | inr w ↦ inr (inr (ground arith, w))
                    ])
                    (λ e.
                      if-elim (IsStep c f) (f.req == lib.data_read) _ _
                        (λ e. inl (stage_read-IsSame c f)) (λ e. inl (same c))))))

  -- A write to the card either changes nothing but the staged response, or it is the frame in the
  -- buffer that sets the key of a card without one, or that writes with the card's MAC and counter.
  abbrev pub IsAllowed : FakeCard → Bytes → FakeCard → Type 0
  IsAllowed c buf v =
      IsSame c v
      ⊎ ((f : DataFrame) × (lib.parse buf ≡ some f)
          × (((f.req ≡ lib.key_programming) × IsKeyed c f v)
              ⊎ ((f.req ≡ lib.data_write) × IsWritten c f v)))

  allowed :
      (c v : FakeCard) (buf : Bytes) (f : DataFrame)
      → lib.parse buf ≡ some f
      → IsStep c f v
      → IsAllowed c buf v
  allowed c v buf f e (inl s) = inl s
  allowed c v buf f e (inr s) = inr (f, e, s)

  write_frame-IsAllowed :
      (c : FakeCard) (buf : Bytes) (reliable : Bool) (o : Option DataFrame)
      → lib.parse buf ≡ o
      → IsAllowed c buf (write_frame lib c reliable o).0
  unfolding write_frame
  write_frame-IsAllowed c buf reliable none e = inl (same c)
  write_frame-IsAllowed c buf reliable (some f) e =
      if-elim (λ (r : FakeCard × Option CardError). IsAllowed c buf r.0) _ _ _
        (λ unreliable. inl (same c))
        (λ right. allowed c (dispatch lib c f) buf f e (dispatch-IsStep c f))

  -- A write to the card changes nothing but the staged response, or it sets the key of a card
  -- without one to the key of a programming frame, or it is a write frame with the MAC of the
  -- card's key and the card's counter, which then changes the frame's sector only and advances
  -- the counter by one.
  pub write_rpmb-IsAllowed :
      (c : FakeCard) (buf : Bytes) (reliable : Bool)
      → IsAllowed c buf (write_rpmb lib c buf reliable).0
  unfolding write_rpmb
  write_rpmb-IsAllowed c buf reliable =
      if-elim (λ (r : FakeCard × Option CardError). IsAllowed c buf r.0) _ _ _
        (λ short. inl (same c)) (λ full. write_frame-IsAllowed c buf reliable (lib.parse buf) refl)

  pub read_rpmb-IsSame : (c : FakeCard) (buf : Bytes) → IsSame c (read_rpmb lib c buf).0
  unfolding read_rpmb
  read_rpmb-IsSame c buf =
      if-elim (λ (r : FakeCard × Result CardError Bytes). IsSame c r.0) _ _ _ (λ short. same c)
        (λ full. given c.pending)
    where
      given : (o : Option Bytes) → IsSame c (give lib c buf o).0
      given none = same c
      given (some staged) = same c
