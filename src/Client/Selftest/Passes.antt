-- ===== src/Client/Selftest/Passes.antt =====
-- cmd/vitrum/selftest.go with internal/witness: a witness passes the selftest.
use vitrum.Base.{ℕ, [], Option, some, ◌≡◌, refl, sym, ap, ◌∙◌, subst, arith}
use vitrum.Base.Bytes.{Bytes}
use vitrum.Base.Int.{pos}
use vitrum.Base.Result.{ok}
use vitrum.Witness.Logs.{Store, IsStore}
use vitrum.Witness.Pool.{Logic, Witness, latest_size, latest_hash, reply}
use vitrum.Witness.Request.{encode_add_checkpoint}
use vitrum.Witness.Request.RoundTrip.{IsHashText}
use vitrum.Witness.Round.{Turn, round}
use vitrum.Witness.Round.Alone.{IsReliable}
use vitrum.Witness.Round.Encoded.{nil-IsProof}
use vitrum.Witness.Round.Steps.{IsAt, Signs}
use vitrum.Witness.Round.Views.{IsTaken, first-IsTaken, stale_lem, larger-IsTaken, unproved_lem}
use vitrum.TestLog.{Library, Log}
use vitrum.TestLog.SeedReader.{SeedReader}
use vitrum.Client.LogClient.{Fields, reported_key}
use vitrum.Client.Feed.{Response}
use vitrum.Client.Feed.Command.{Cosigners}
use vitrum.Client.Selftest.{
  must, stale_replay, new_selftest_log, fork_refused, run_selftest, cmd_selftest, replace_first,
  selftest_origin, unknown_origin,
}
use vitrum.Client.Selftest.Served.{serve_next, must-code, stale_replay-conflict}
use vitrum.Client.Selftest.Material.{
  IsVerifier, IsSelftestLog, cosigned_lines, sent, must-taken, first_sighting-taken,
}

module _ {S I K V : Type 0} (g : Logic) (hash_string : Bytes → Bytes)
    (texts : IsHashText g.parse_hash hash_string) (store : Store S I) (good : IsStore store)
    (reliable : IsReliable store) (turns : ℕ → Turn I) (key : ℕ)
    (signing : (k : ℕ) → Signs (turns k) key) (b : Library K SeedReader) (cs : Cosigners V)
    (v : V) where
  module _ (verifier : IsVerifier g hash_string texts store good reliable turns key signing b cs v)
      (seed : Bytes) (l0 : Log K)
      (log : IsSelftestLog g hash_string texts store good reliable turns key signing b cs v seed l0)
      (w : Witness S) (hash1 hash4 : Bytes) (new : IsAt store w key log.cp1.origin 0 hash1)
      (unknown : IsAt store w key log.cp4.origin 0 hash4) where
    abbrev w1 : Witness S
    w1 =
        sent g hash_string texts store good reliable turns key signing b cs v w 0 (pos 0) []
          log.note1

    abbrev w2 : Witness S
    w2 =
        sent g hash_string texts store good reliable turns key signing b cs v w1 2
          (pos log.view1.size) log.proof log.note2

    one :
        IsTaken g hash_string texts store good reliable
          (turns 0)
          key
          (signing 0)
          w
          log.cp1
          log.note1
          log.view1
          0
          []
    one =
        first-IsTaken g hash_string texts store good reliable (turns 0) key (signing 0) w log.cp1
          log.note1 log.view1 hash1 new

    stale :
        stale_replay b cs hash_string (serve_next g store turns) log.note1 log.cp1.n (w1, 1)
        ≡ ((w1, 2), ok tt)
    stale = rw log.view1.reads.sized (
        stale_replay-conflict g store turns b cs hash_string w1 1 log.note1 log.cp1.origin
          log.view1.size one.at_checkpoint.size_at log.view1.reads.in_range
          (stale_lem g hash_string texts store good reliable (turns 1) key (signing 1) w1 log.cp1
            log.note1 log.view1 log.view1.size log.cp1.hash one.at_checkpoint 0 [] nil-IsProof
            (omega arith) (omega (arith, log.view1.positive))))

    two :
        IsTaken g hash_string texts store good reliable
          (turns 2)
          key
          (signing 2)
          w1
          log.cp2
          log.note2
          log.view2
          log.view1.size
          log.proof
    two =
        larger-IsTaken g hash_string texts store good reliable (turns 2) key (signing 2) w1 log.cp2
          log.note2 log.view2 log.view1.size log.cp1.hash
          (subst (λ o. IsAt store w1 key o log.view1.size log.cp1.hash) log.same_log
            one.at_checkpoint)
          log.proof log.fits log.view1.positive log.grows log.holds

    unproved :
        round g store
          (turns 3)
          w2
          (encode_add_checkpoint hash_string (pos log.view2.size) log.fork_proof log.note3)
        ≡ (w2, reply 422 [])
    unproved =
        unproved_lem g hash_string texts store good reliable (turns 3) key (signing 3) w2 log.cp3
          log.note3 log.view3 log.view2.size log.cp2.hash
          (subst (λ o. IsAt store w2 key o log.view2.size log.cp2.hash) log.same_origin
            two.at_checkpoint)
          log.fork_proof log.fork_fits log.view2.positive log.larger log.fails

    must_refuse :
        must b cs hash_string
          (serve_next g store turns)
          422
          log.cp2.n
          log.fork_proof
          log.note3
          (w2, 3)
        ≡ ((w2, 4), ok [])
    must_refuse = rw log.view2.reads.sized (
        must-code g store turns b cs hash_string w2 3 (pos log.view2.size) log.fork_proof log.note3
          422 (ap (λ r. r.1.code) unproved) (rw unproved (omega arith))
        ∙ ap (λ r. ((r.0, 4), ok r.1.resp)) unproved)

    refused :
        fork_refused b cs hash_string (serve_next g store turns) log.l2 seed log.cp2.n (w2, 3)
        ≡ ((w2, 4), ok tt)
    unfolding fork_refused
    refused =
        rw (log.forked, log.fork_signed, log.fork_proved, log.fork_root, log.signed_as, must_refuse)
          refl

    must_grow :
        must b cs hash_string (serve_next g store turns) 200 log.cp1.n log.proof log.note2 (w1, 2)
        ≡ (
          (w2, 3),
          ok (
              cosigned_lines g hash_string texts store good reliable turns key signing b cs v 2
                log.view2.text),
        )
    must_grow = rw log.view1.reads.sized (
        must-taken g hash_string texts store good reliable turns key signing b cs v verifier w1 2
          log.cp2 log.note2 log.view2 log.view1.size log.proof two)

    unseen : store.get w2.store log.cp4.origin ≡ store.get w.store log.cp4.origin
    unseen =
        two.others log.cp4.origin log.other_origin
        ∙ one.others log.cp4.origin (λ e. log.other_origin (sym log.same_log ∙ e))

    still_unknown : IsAt store w2 key log.cp4.origin 0 hash4
    still_unknown = record {
      idle = two.at_checkpoint.idle;
      size_at = ap latest_size unseen ∙ unknown.size_at;
      hash_at = ap latest_hash unseen ∙ unknown.hash_at;
    }

    abbrev note4 : Bytes
    note4 = replace_first selftest_origin unknown_origin log.note1

    run_selftest-passes :
        (run_selftest b cs hash_string (serve_next g store turns) v seed l0 (w, 0)).1 ≡ ok tt
    unfolding run_selftest
    run_selftest-passes =
        let fresh =
          first_sighting-taken g hash_string texts store good reliable turns key signing b cs v
            verifier w2 4 log.cp4 note4 log.view4
            (first-IsTaken g hash_string texts store good reliable (turns 4) key (signing 4) w2
              log.cp4 note4 log.view4 hash4 still_unknown) in
        rw
          (
            log.first_records,
            log.first_checkpoint,
            first_sighting-taken g hash_string texts store good reliable turns key signing b cs v
                verifier w 0 log.cp1 log.note1 log.view1 one,
            stale,
            log.more_records,
            log.second_checkpoint,
            log.proved,
            must_grow,
            refused,
            fresh,
          )
          refl

    -- cmdSelftest ends without an error against a witness that has the selftest's log and the
    -- unknown origin at size 0 and gets no other requests, when /healthz reports a key whose
    -- verifier opens a note with the witness's signature behind it, to that signature and its
    -- time; the signatures are at most 2 ^ 20 bytes. The witness has a key that signs and a
    -- store that neither halts nor fails a commit, and reads the log's notes; the log can be
    -- made and signs a checkpoint, a larger one with a proof that holds, and one of a still
    -- larger fork whose proof does not; replacing the origin in the first note gives a note of
    -- another origin that the witness reads.
    pub cmd_selftest-passes :
        (decode : Bytes → Option Fields) (health : Option Response) (witness_key : Bytes)
        → new_selftest_log b seed selftest_origin ≡ some l0
        → reported_key decode health ≡ ok witness_key
        → cs.new_cosignature_verifier witness_key ≡ some v
        → (cmd_selftest b cs hash_string (serve_next g store turns) decode health seed (w, 0)).1
          ≡ ok tt
    unfolding cmd_selftest
    cmd_selftest-passes decode health witness_key made reported known =
        rw (made, reported, known) run_selftest-passes
