-- ===== src/RpmbTest/Respond.antt =====
-- internal/rpmbtest/fake.go: the response to a read, as the holder of the key checks it.
use vitrum.Base.{
  ◌≡◌, ◌≢◌, refl, sym, ◌∙◌, ap, true, false, not, ◌||◌, some, ◌==◌, ==-refl, if-elim, length, arith,
}
use vitrum.Base.Bytes.{Bytes, bytes_eq_iff}
use vitrum.Base.Word.{be_uint16}
use vitrum.RpmbTest.{
  DataFrame, Library, FakeCard, covered, verify, signed, stage_read, dispatch, write_frame,
  write_rpmb,
}
use vitrum.RpmbTest.Authentic.{write_rpmb-IsAllowed}
use vitrum.RpmbTest.Replay.{accepted_frame}

-- What the code relies on in the package rpmb: a MAC covers what stands behind it in a frame, and a
-- read has a code of its own.
pub record IsLibrary (lib : Library) : Type 0 where
  pub covered_key_mac :
      (f : DataFrame) (mac : Bytes) → covered lib (record f { key_mac = mac }) ≡ covered lib f
  pub read_result : lib.data_read ≢ lib.result_read
  pub read_key : lib.data_read ≢ lib.key_programming
  pub read_counter : lib.data_read ≢ lib.counter_read
  pub read_write : lib.data_read ≢ lib.data_write

module _ (lib : Library) (is_library : IsLibrary lib) where
  signed-verify : (c : FakeCard) (f : DataFrame) → verify lib c (signed lib c f) ≡ true
  unfolding verify signed
  signed-verify c f =
      (bytes_eq_iff _ _).1 (ap (lib.hmac c.key) (sym (is_library.covered_key_mac f _)))

  -- A card's answer to a read of a sector: authentic, fresh, and with the sector's contents.
  abbrev pub Answers : FakeCard → DataFrame → Bytes → Type 0
  Answers v f contents =
      (res : DataFrame) × (v.pending ≡ some (lib.bytes res))
      × (verify lib v res ≡ true)
      × (res.nonce ≡ f.nonce)
      × (res.contents ≡ contents)
      × (res.address ≡ f.address)

  stage_read-Answers :
      (c : FakeCard) (f : DataFrame)
      → c.programmed ≡ true
      → Answers (stage_read lib c f) f (c.sectors (be_uint16 f.address))
  unfolding stage_read signed verify
  stage_read-Answers c f e =
      if-elim (λ (v : FakeCard). Answers v f (c.sectors (be_uint16 f.address))) (not c.programmed) _
        _ (λ unkeyed. absurd (ground arith))
        (λ keyed. (signed lib c _, refl, signed-verify c _, refl, refl, refl))

  dispatch-Answers :
      (c : FakeCard) (f : DataFrame)
      → c.programmed ≡ true
      → f.req ≡ lib.data_read
      → Answers (dispatch lib c f) f (c.sectors (be_uint16 f.address))
  unfolding dispatch
  dispatch-Answers c f e q =
      let P : FakeCard → Type 0 = λ v. Answers v f (c.sectors (be_uint16 f.address)) in
      if-elim P (f.req == lib.result_read) _ _ (λ r. absurd (is_library.read_result (ground arith)))
        (λ e1.
          if-elim P (f.req == lib.key_programming) _ _
            (λ r. absurd (is_library.read_key (ground arith)))
            (λ e2.
              if-elim P (f.req == lib.counter_read) _ _
                (λ r. absurd (is_library.read_counter (ground arith)))
                (λ e3.
                  if-elim P (f.req == lib.data_write) _ _
                    (λ r. absurd (is_library.read_write (ground arith)))
                    (λ e4.
                      if-elim P (f.req == lib.data_read) _ _ (λ r. stage_read-Answers c f e)
                        (λ r. absurd (ground arith))))))

  write_rpmb-Answers :
      (c : FakeCard) (buf : Bytes) (f : DataFrame)
      → length buf ≡ lib.frame_length
      → lib.parse buf ≡ some f
      → f.req ≡ lib.data_read
      → c.programmed ≡ true
      → Answers (write_rpmb lib c buf false).0 f (c.sectors (be_uint16 f.address))
  unfolding write_rpmb write_frame
  write_rpmb-Answers c buf f n d q e =
      let full : (length buf == lib.frame_length) ≡ true = ground arith in
      let unreliable : (f.req == lib.key_programming || f.req == lib.data_write) ≡ false =
        ground (arith, is_library.read_key, is_library.read_write) in
      rw (full, d, unreliable) (dispatch-Answers c f e q)

  -- After a write that advanced the counter, a read frame for the same sector makes the card
  -- stage a response with the contents that were written, the nonce and the address of the read
  -- frame, and a MAC that verifies under the card's key. A MAC covers what stands behind it in
  -- a frame, and the code of a read is no other request's.
  pub write-read-Answers :
      (c : FakeCard) (buf question : Bytes) (f r : DataFrame)
      → lib.parse buf ≡ some f
      → (write_rpmb lib c buf true).0.counter ≢ c.counter
      → length question ≡ lib.frame_length
      → lib.parse question ≡ some r
      → r.req ≡ lib.data_read
      → be_uint16 r.address ≡ be_uint16 f.address
      → Answers (write_rpmb lib (write_rpmb lib c buf true).0 question false).0 r f.contents
  write-read-Answers c buf question f r d changed n dr q same =
      let v : FakeCard = (write_rpmb lib c buf true).0 in
      let (g, e, w) = accepted_frame lib c v buf (write_rpmb-IsAllowed lib c buf true) changed in
      let same_frame : g ≡ f = cc in
      let stored : v.sectors (be_uint16 r.address) ≡ f.contents =
        rw (same, ← same_frame)
          (w.6 (be_uint16 g.address) ∙ rw (==-refl (be_uint16 g.address)) refl) in
      rw (← stored) (write_rpmb-Answers v question r n dr q w.3)
