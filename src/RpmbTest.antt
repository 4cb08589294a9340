-- ===== src/RpmbTest.antt =====
-- internal/rpmbtest/fake.go: an RPMB partition in memory, the card that the tests run against.
pub mod Authentic
pub mod Replay
pub mod Respond
use vitrum.Base.{
  ℕ, ◌+◌, ◌-◌, ◌/◌, ◌%◌, ◌^◌, List, [], ◌∷◌, ◌++◌, Bool, true, false, not, ◌||◌, Option, none, some,
  ◌==◌, if◌then◌else◌, length, take, drop, replicate,
}
use vitrum.Base.Bytes.{Bytes, bytes_eq}
use vitrum.Base.Word.{be_put_uint16, be_put_uint32, be_uint16}
use vitrum.Base.Result.{Result, ok, err}

-- rpmb.DataFrame: the fields that the source names, and the rest of a frame.
pub record DataFrame : Type 0 where
  pub key_mac : Bytes
  pub contents : Bytes
  pub nonce : Bytes
  pub write_counter : Bytes
  pub address : Bytes
  pub result : Bytes
  pub resp : ℕ
  pub req : ℕ
  pub rest : Bytes

-- The package rpmb, with the reader of binary.Read and HMAC-SHA256: the zero frame, a frame's bytes,
-- its counter, and the constants.
pub record Library : Type 0 where
  pub frame_length : ℕ
  pub zero_frame : DataFrame
  pub parse : Bytes → Option DataFrame
  pub bytes : DataFrame → Bytes
  pub counter_of : DataFrame → ℕ
  pub hmac : Bytes → Bytes → Bytes
  pub result_read : ℕ
  pub key_programming : ℕ
  pub counter_read : ℕ
  pub data_write : ℕ
  pub data_read : ℕ
  pub general_failure : ℕ
  pub authentication_failure : ℕ
  pub counter_failure : ℕ
  pub not_yet_programmed : ℕ

-- The errors of WriteRPMB and ReadRPMB.
pub data CardError : Type 0 where
  bad_length bad_frame bad_reliable no_response : CardError

-- A sector that was never written is zero.
pub record FakeCard : Type 0 where
  pub programmed : Bool
  pub key : Bytes
  pub counter : ℕ
  pub sectors : ℕ → Bytes
  pub pending : Option Bytes

abbrev pub key_len : ℕ
key_len = 32

abbrev pub mac_offset : ℕ
mac_offset = 284

module _ (lib : Library) where
  abbrev pub max_data : ℕ
  max_data = lib.frame_length / 2

  unfoldable pub new_fake_card : FakeCard
  new_fake_card = record {
    programmed = false;
    key = replicate key_len 0;
    counter = 0;
    sectors = λ i. replicate max_data 0;
    pending = none;
  }

  -- What the MAC covers.
  abbrev pub covered : DataFrame → Bytes
  covered f = drop (lib.frame_length - mac_offset) (lib.bytes f)

  unfoldable pub verify : FakeCard → DataFrame → Bool
  verify c f = bytes_eq f.key_mac (lib.hmac c.key (covered f))

  unfoldable pub signed : FakeCard → DataFrame → DataFrame
  signed c f = record f { key_mac = lib.hmac c.key (covered f) }

  abbrev pub sign : FakeCard → DataFrame → Bytes
  sign c f = lib.bytes (signed c f)

  unfoldable pub err_frame : FakeCard → DataFrame → ℕ → Bytes
  unfolding signed
  err_frame c f result =
      let res = record lib.zero_frame {
        resp = f.req;
        nonce = f.nonce;
        result = be_put_uint16 result;
      } in
      if c.programmed then sign c res else lib.bytes res

  abbrev pub stage : FakeCard → Bytes → FakeCard
  stage c b = record c { pending = some b }

  unfoldable pub stage_key_program : FakeCard → DataFrame → FakeCard
  unfolding err_frame
  stage_key_program c f =
      if c.programmed then stage c (err_frame c f lib.general_failure) else record c {
        key = f.key_mac;
        programmed = true;
        pending = some (lib.bytes (record lib.zero_frame { resp = f.req }));
      }

  unfoldable pub stage_counter_read : FakeCard → DataFrame → FakeCard
  unfolding err_frame signed
  stage_counter_read c f =
      if not c.programmed
      then stage c (err_frame c f lib.not_yet_programmed)
      else stage c (
          sign c (record lib.zero_frame {
            resp = f.req;
            nonce = f.nonce;
            write_counter = be_put_uint32 c.counter;
          }))

  -- The write itself; the counter is a uint32.
  unfoldable pub commit : FakeCard → DataFrame → FakeCard
  unfolding signed
  commit c f =
      let counter = (c.counter + 1) % 2 ^ 32 in
      let v = record c {
        sectors = λ i. if i == be_uint16 f.address then f.contents else c.sectors i;
        counter = counter;
      } in
      stage v (
        sign v (record lib.zero_frame {
          resp = f.req;
          write_counter = be_put_uint32 counter;
          address = f.address;
        }))

  unfoldable pub stage_write : FakeCard → DataFrame → FakeCard
  unfolding err_frame verify commit
  stage_write c f =
      if not c.programmed
      then stage c (err_frame c f lib.not_yet_programmed)
      else if not (verify c f)
      then stage c (err_frame c f lib.authentication_failure)
      else if not (lib.counter_of f == c.counter)
      then stage c (err_frame c f lib.counter_failure)
      else commit c f

  unfoldable pub stage_read : FakeCard → DataFrame → FakeCard
  unfolding err_frame signed
  stage_read c f =
      if not c.programmed
      then stage c (err_frame c f lib.not_yet_programmed)
      else stage c (
          sign c (record lib.zero_frame {
            resp = f.req;
            nonce = f.nonce;
            address = f.address;
            contents = c.sectors (be_uint16 f.address);
          }))

  -- The switch of WriteRPMB.
  unfoldable pub dispatch : FakeCard → DataFrame → FakeCard
  unfolding stage_key_program stage_counter_read stage_write stage_read err_frame
  dispatch c f =
      if f.req == lib.result_read
      then c
      else if f.req == lib.key_programming
      then stage_key_program c f
      else if f.req == lib.counter_read
      then stage_counter_read c f
      else if f.req == lib.data_write
      then stage_write c f
      else if f.req == lib.data_read
      then stage_read c f
      else stage c (err_frame c f lib.general_failure)

  abbrev pub same_bool : Bool → Bool → Bool
  same_bool true b = b
  same_bool false b = not b

  unfoldable pub write_frame : FakeCard → Bool → Option DataFrame → FakeCard × Option CardError
  unfolding dispatch
  write_frame c reliable none = (c, some bad_frame)
  write_frame c reliable (some f) =
      if not (same_bool reliable (f.req == lib.key_programming || f.req == lib.data_write))
      then (c, some bad_reliable)
      else (dispatch c f, none)

  unfoldable pub write_rpmb : FakeCard → Bytes → Bool → FakeCard × Option CardError
  unfolding write_frame
  write_rpmb c buf reliable =
      if not (length buf == lib.frame_length)
      then (c, some bad_length)
      else write_frame c reliable (lib.parse buf)

  -- The staged response over the front of the buffer.
  abbrev pub give : FakeCard → Bytes → Option Bytes → FakeCard × Result CardError Bytes
  give c buf none = (c, err no_response)
  give c buf (some staged) =
      (record c { pending = none }, ok (take (length buf) staged ++ drop (length staged) buf))

  unfoldable pub read_rpmb : FakeCard → Bytes → FakeCard × Result CardError Bytes
  read_rpmb c buf =
      if not (length buf == lib.frame_length) then (c, err bad_length) else give c buf c.pending

-- A call of the card: a write with its buffer and its reliable flag, or a read into a buffer.
pub data Call : Type 0 where
  writes : Bytes → Bool → Call
  reads : Bytes → Call

module _ (lib : Library) where
  abbrev pub call : FakeCard → Call → FakeCard
  call c (writes buf reliable) = (write_rpmb lib c buf reliable).0
  call c (reads buf) = (read_rpmb lib c buf).0

  unfoldable pub calls : FakeCard → List Call → FakeCard
  calls c [] = c
  calls c (x ∷ r) = calls (call c x) r
