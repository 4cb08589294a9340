-- ===== src/Client/Selftest/Served.antt =====
-- cmd/vitrum/selftest.go with internal/witness: the answers that selftest gets.
use vitrum.Base.{
  ◌^◌, ℕ, ◌+◌, ◌<◌, ◌≤◌, List, [], ◌∷◌, ◌++◌, Option, some, ◌≡◌, refl, ltb, false, length,
  length-append, arith,
}
use vitrum.Base.Bytes.{Bytes, bytes_eq_refl}
use vitrum.Base.Int.{ℤ, pos}
use vitrum.Base.Decimal.{format_int}
use vitrum.Base.Decimal.RoundTrip.{length-format_int}
use vitrum.Base.Text.Numbers.{format_int-IsPrint, format_int-ne-nil}
use vitrum.Base.Text.Words.{trim_space-line}
use vitrum.Base.Result.{ok}
use vitrum.Witness.Logs.{Store}
use vitrum.Witness.Pool.{Logic, Witness, latest_size, conflict}
use vitrum.Witness.Request.{encode_add_checkpoint}
use vitrum.Witness.Round.{Turn, round}
use vitrum.TestLog.{Library}
use vitrum.TestLog.SeedReader.{SeedReader}
use vitrum.Client.Feed.{Response, limited, max_witness_response}
use vitrum.Client.Feed.Command.{Cosigners}
use vitrum.Client.Selftest.{must, stale_replay}

-- A witness that is sent one request at a time, with the number of the turn.
module _ {S I : Type 0} (g : Logic) (store : Store S I) (turns : ℕ → Turn I) where
  abbrev pub serve_next : Witness S × ℕ → Bytes → (Witness S × ℕ) × Option Response
  serve_next (w, k) body =
      let (v, r) = round g store (turns k) w body in ((v, k + 1), some (r.code, r.resp))

  module _ {K V : Type 0} (b : Library K SeedReader) (cs : Cosigners V)
      (hash_string : Bytes → Bytes) (w : Witness S) (k : ℕ) where
    pub must-code :
        (old : ℤ) (proof : List Bytes) (note : Bytes) (expected : ℕ)
        → (round g store (turns k) w (encode_add_checkpoint hash_string old proof note)).1.code
          ≡ expected
        → length
            (round g store (turns k) w (encode_add_checkpoint hash_string old proof note)).1.resp
          ≤ max_witness_response
        → must b cs hash_string serve_next expected old proof note (w, k) ≡ (
          ((round g store (turns k) w (encode_add_checkpoint hash_string old proof note)).0, k + 1),
          ok (round g store (turns k) w (encode_add_checkpoint hash_string old proof note)).1.resp,
        )
    unfolding must limited
    must-code old proof note expected e short = ground arith

    pub stale_replay-conflict :
        (note origin : Bytes) (n : ℕ)
        → latest_size (store.get w.store origin) ≡ pos n
        → n < 2 ^ 63
        → round g store (turns k) w (encode_add_checkpoint hash_string (pos 0) [] note)
          ≡ (w, conflict (store.get w.store origin))
        → stale_replay b cs hash_string serve_next note (pos n) (w, k) ≡ ((w, k + 1), ok tt)
    unfolding stale_replay limited conflict
    stale_replay-conflict note origin n size bound e =
        let short : ltb 1048576 (length (format_int (pos n) ++ (10 ∷ []))) ≡ false =
          ground (arith, length-append (format_int (pos n)) (10 ∷ []), length-format_int n) in
        let trimmed =
          trim_space-line (format_int (pos n)) (format_int-IsPrint n) (format_int-ne-nil n bound) in
        rw (e, size, short, trimmed, bytes_eq_refl (format_int (pos n))) refl
