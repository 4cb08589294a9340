-- ===== src/Tests/Cards.antt =====
-- internal/rpmbtest: a card with frames of three bytes: a MAC, a code and a counter.
use vitrum.Base.{ℕ, [], ◌∷◌, List, true, false, Option, none, some, ◌≡◌, ◌≢◌, refl, arith}
use vitrum.Base.Bytes.{Bytes, bytes_eq}
use vitrum.RpmbTest.{
  DataFrame, Library, FakeCard, new_fake_card, write_rpmb, Call, writes, reads, calls,
}
use vitrum.RpmbTest.Authentic.{IsSame, IsAllowed, write_rpmb-IsAllowed}
use vitrum.RpmbTest.Replay.{IsLater, calls-IsLater, replay-IsSame}
use vitrum.RpmbTest.Respond.{IsLibrary, Answers, write-read-Answers}

abbrev zero_frame : DataFrame
zero_frame = record {
  key_mac = [];
  contents = [];
  nonce = [];
  write_counter = [];
  address = 0 ∷ 0 ∷ [];
  result = [];
  resp = 0;
  req = 0;
  rest = [];
}

abbrev parse : Bytes → Option DataFrame
parse (mac ∷ code ∷ count ∷ []) = some (record zero_frame {
  key_mac = mac ∷ [];
  req = code;
  write_counter = count ∷ [];
  contents = count ∷ [];
})
parse _ = none

abbrev first : Bytes → ℕ
first [] = 0
first (x ∷ r) = x

abbrev lib : Library
lib = record {
  frame_length = 3;
  zero_frame = zero_frame;
  parse = parse;
  bytes = λ f. f.req ∷ f.resp ∷ first f.write_counter ∷ [];
  counter_of = λ f. first f.write_counter;
  hmac = λ key text. key;
  result_read = 5;
  key_programming = 1;
  counter_read = 2;
  data_write = 3;
  data_read = 4;
  general_failure = 1;
  authentication_failure = 2;
  counter_failure = 3;
  not_yet_programmed = 7;
}

lib-IsLibrary : IsLibrary lib
lib-IsLibrary = record {
  covered_key_mac = λ f mac. refl;
  read_result = omega arith;
  read_key = omega arith;
  read_counter = omega arith;
  read_write = omega arith;
}

abbrev keyed : FakeCard
keyed = (write_rpmb lib (new_fake_card lib) (9 ∷ 1 ∷ 0 ∷ []) true).0

abbrev write_zero : Bytes
write_zero = 9 ∷ 3 ∷ 0 ∷ []

write_rpmb-IsAllowed_example :
    IsAllowed lib keyed write_zero (write_rpmb lib keyed write_zero true).0
write_rpmb-IsAllowed_example = write_rpmb-IsAllowed lib keyed write_zero true

abbrev some_calls : List Call
some_calls = reads (0 ∷ 0 ∷ 0 ∷ []) ∷ writes (9 ∷ 3 ∷ 1 ∷ []) true ∷ writes write_zero true ∷ []

small : keyed.counter ≡ 0
unfolding new_fake_card write_rpmb
small = refl

calls-IsLater_example : IsLater lib keyed 3 (calls lib keyed some_calls)
calls-IsLater_example = calls-IsLater lib keyed some_calls (omega (arith, small))

changed : (write_rpmb lib keyed write_zero true).0.counter ≢ keyed.counter
unfolding new_fake_card write_rpmb bytes_eq
changed = omega arith

replay-IsSame_example :
    IsSame lib
      (calls lib (write_rpmb lib keyed write_zero true).0 some_calls)
      (write_rpmb lib
        (calls lib (write_rpmb lib keyed write_zero true).0 some_calls)
        write_zero
        true).0
replay-IsSame_example =
    replay-IsSame lib keyed write_zero true true some_calls (omega (arith, small)) changed
      (omega arith)

abbrev frame_of : ℕ → ℕ → ℕ → DataFrame
frame_of mac code count = record zero_frame {
  key_mac = mac ∷ [];
  req = code;
  write_counter = count ∷ [];
  contents = count ∷ [];
}

write-read-Answers_example :
    Answers lib lib-IsLibrary
      (write_rpmb lib (write_rpmb lib keyed write_zero true).0 (0 ∷ 4 ∷ 0 ∷ []) false).0
      (frame_of 0 4 0)
      (0 ∷ [])
write-read-Answers_example =
    write-read-Answers lib lib-IsLibrary keyed write_zero (0 ∷ 4 ∷ 0 ∷ []) (frame_of 9 3 0)
      (frame_of 0 4 0) refl changed refl refl refl refl
