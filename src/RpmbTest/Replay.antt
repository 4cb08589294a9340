-- ===== src/RpmbTest/Replay.antt =====
-- internal/rpmbtest/fake.go: the counter over many calls, and what that means for a frame that is
-- sent again; the response to a read.
use vitrum.Base.{
  ℕ, ◌+◌, ◌%◌, ◌^◌, ◌<◌, ◌≤◌, List, [], ◌∷◌, ◌≡◌, ◌≢◌, inl, inr, refl, ◌∙◌, ap, Bool, true, some,
  length, arith,
}
use vitrum.Base.Bytes.{Bytes}
use vitrum.Base.Word.{IsU32}
use vitrum.RpmbTest.{DataFrame, Library, FakeCard, write_rpmb, Call, writes, reads, call, calls}
use vitrum.RpmbTest.Authentic.{IsSame, IsWritten, IsAllowed, write_rpmb-IsAllowed, read_rpmb-IsSame}

module _ (lib : Library) where
  -- A card after some calls: so many writes were accepted, none of them if the sectors are to be
  -- other than they were, and a key stays.
  pub record IsLater (c : FakeCard) (n : ℕ) (v : FakeCard) : Type 0 where
    pub accepted : ℕ
    pub few : accepted ≤ n
    pub count : v.counter ≡ (c.counter + accepted) % 2 ^ 32
    pub same_sectors : accepted ≡ 0 → v.sectors ≡ c.sectors
    pub same_key : c.programmed ≡ true → (v.programmed ≡ true) × (v.key ≡ c.key)

  same-IsLater : (c v : FakeCard) → IsU32 c.counter → IsSame lib c v → IsLater c 1 v
  same-IsLater c v h (p, k, n, s) = record {
    accepted = 0;
    few = omega arith;
    count = omega arith;
    same_sectors = λ e. s;
    same_key = λ e. (p ∙ e, k);
  }

  call-IsLater : (c : FakeCard) (x : Call) → IsU32 c.counter → IsLater c 1 (call lib c x)
  call-IsLater c (reads buf) h = same-IsLater c _ h (read_rpmb-IsSame lib c buf)
  call-IsLater c (writes buf reliable) h = elim (write_rpmb-IsAllowed lib c buf reliable) [
    | inl s ↦ same-IsLater c _ h s
    | inr (f, e, inl (q, k)) ↦ record {
      accepted = 0;
      few = omega arith;
      count = omega arith;
      same_sectors = λ e. k.4;
      same_key = λ e. absurd (cc);
    }
    | inr (f, e, inr (q, w)) ↦ record {
      accepted = 1;
      few = omega arith;
      count = w.5;
      same_sectors = λ e. absurd (omega arith);
      same_key = λ e. (w.3, w.4);
    }
  ]

  -- After any calls, the counter of a card is the one that it had, advanced modulo 2 ^ 32 by a
  -- number of accepted writes that is at most the number of calls; without an accepted write
  -- the sectors are as they were; and a card with a key keeps that key. The counter was a
  -- uint32.
  pub calls-IsLater :
      (c : FakeCard) (l : List Call) → IsU32 c.counter → IsLater c (length l) (calls lib c l)
  unfolding calls
  calls-IsLater c [] h = record {
    accepted = 0;
    few = omega arith;
    count = omega arith;
    same_sectors = λ e. refl;
    same_key = λ e. (e, refl);
  }
  calls-IsLater c (x ∷ l) h =
      let first : IsLater c 1 (call lib c x) = call-IsLater c x h in
      let then_all : IsLater (call lib c x) (length l) (calls lib (call lib c x) l) =
        calls-IsLater (call lib c x) l (omega (arith, first.count)) in
      record {
        accepted = first.accepted + then_all.accepted;
        few = omega (arith, first.few, then_all.few);
        count = omega (arith, first.count, then_all.count);
        same_sectors = λ e. then_all.same_sectors (omega arith) ∙ first.same_sectors (omega arith);
        same_key =
            λ e. let (p, q) = first.same_key e in let (r, s) = then_all.same_key p in (r, s ∙ q);
      }

  -- A write that advanced the counter was a frame with that counter.
  pub accepted_frame :
      (c v : FakeCard) (buf : Bytes)
      → IsAllowed lib c buf v
      → v.counter ≢ c.counter
      → (f : DataFrame) × (lib.parse buf ≡ some f) × IsWritten lib c f v
  accepted_frame c v buf (inl s) h = absurd (h s.2)
  accepted_frame c v buf (inr (f, e, inl (q, k))) h = absurd (h k.3)
  accepted_frame c v buf (inr (f, e, inr (q, w))) h = (f, e, w)

  -- A frame with another counter changes nothing in a card with a key.
  refused :
      (c v : FakeCard) (buf : Bytes) (f : DataFrame)
      → IsAllowed lib c buf v
      → lib.parse buf ≡ some f
      → c.programmed ≡ true
      → lib.counter_of f ≢ c.counter
      → IsSame lib c v
  refused c v buf f (inl s) e p h = s
  refused c v buf f (inr (g, d, inl (q, k))) e p h = absurd (cc)
  refused c v buf f (inr (g, d, inr (q, w))) e p h =
      let same : f ≡ g = cc in absurd (h (ap lib.counter_of same ∙ w.2))

  -- A frame whose write advanced the counter of a card changes neither key, counter nor sectors
  -- when it is sent again, after any calls, of which there are fewer than 2 ^ 32 - 1.
  pub replay-IsSame :
      (c : FakeCard) (buf : Bytes) (reliable again : Bool) (l : List Call)
      → IsU32 c.counter
      → (write_rpmb lib c buf reliable).0.counter ≢ c.counter
      → length l + 1 < 2 ^ 32
      → IsSame lib
          (calls lib (write_rpmb lib c buf reliable).0 l)
          (write_rpmb lib (calls lib (write_rpmb lib c buf reliable).0 l) buf again).0
  replay-IsSame c buf reliable again l h changed few =
      let v : FakeCard = (write_rpmb lib c buf reliable).0 in
      let (f, e, w) = accepted_frame c v buf (write_rpmb-IsAllowed lib c buf reliable) changed in
      let later : IsLater v (length l) (calls lib v l) = calls-IsLater v l (omega (arith, w.5)) in
      refused (calls lib v l) (write_rpmb lib (calls lib v l) buf again).0 buf f
        (write_rpmb-IsAllowed lib (calls lib v l) buf again) e (later.same_key w.3).0
        (λ same. omega (arith, w.5, w.2, later.few, later.count, same))
