-- ===== src/Provisioning/Session/Guarded.antt =====
-- internal/provision/server.go: what holds after any connection, since each session runs one
-- command at most.
use vitrum.Base.{
  ℕ, List, [], ◌∷◌, Option, none, some, ◌≡◌, subst, if-elim, Option-cases, inl, inr, not, ◌==◌,
  length,
}
use vitrum.Base.Bytes.{Bytes, codes, bytes_eq}
use vitrum.Base.Result.{Result, ok, err}
use vitrum.Witness.Logs.{Store}
use vitrum.Witness.Pool.{Witness, Logic}
use vitrum.Provisioning.Clean.{IsHeld, Owns, exec-IsHeld}
use vitrum.Provisioning.Session.{
  Config, Server, ServerError, ChannelRequest, Channel, Handled, exec_request, other_request,
  new_server, handle_session, handle_channel, handle_channels, handle_conn,
}
use vitrum.Provisioning.{Keys, Clock, Device, exec, seed_size}

module _ {S I C : Type 0} (g : Logic) (store : Store S I) (keys : Keys) (clock : Clock C) where
  -- A property that every command keeps holds after a connection.
  module _ (P : Device S C → Type 0)
      (step : (d : Device S C) (stdin : List Bytes) (command : Bytes)
        → P d
        → P (exec g store keys clock d stdin command).0) where
    handle_session-keeps :
        (d : Device S C) (stdin : List Bytes) (reqs : List ChannelRequest)
        → P d
        → P (handle_session g store keys clock d stdin reqs).0
    unfolding handle_session
    handle_session-keeps d stdin [] h = h
    handle_session-keeps d stdin (exec_request none ∷ r) h = h
    handle_session-keeps d stdin (exec_request (some command) ∷ r) h = step d stdin command h
    handle_session-keeps d stdin (other_request ∷ r) h = handle_session-keeps d stdin r h

    handle_channel-keeps :
        (d : Device S C) (ch : Channel) → P d → P (handle_channel g store keys clock d ch).0
    unfolding handle_channel
    handle_channel-keeps d ch h =
        if-elim (λ (r : Device S C × Handled). P r.0) (not (bytes_eq ch.kind (codes "session"))) _ _
          (λ e. h)
          (λ e.
            if-elim (λ (r : Device S C × Handled). P r.0) (not ch.accepts) _ _ (λ e. h)
              (λ e. handle_session-keeps d ch.stdin ch.reqs h))

    handle_channels-keeps :
        (d : Device S C) (channels : List Channel)
        → P d
        → P (handle_channels g store keys clock d channels).0
    unfolding handle_channels
    handle_channels-keeps d [] h = h
    handle_channels-keeps d (ch ∷ r) h =
        handle_channels-keeps (handle_channel g store keys clock d ch).0 r
          (handle_channel-keeps d ch h)

    pub handle_conn-keeps :
        (d : Device S C) (conn : Option (List Channel))
        → P d
        → P (handle_conn g store keys clock d conn).0
    unfolding handle_conn
    handle_conn-keeps d none h = h
    handle_conn-keeps d (some channels) h = handle_channels-keeps d channels h

  -- All connections, one behind the other.
  unfoldable pub handle_conns : Device S C → List (Option (List Channel)) → Device S C
  handle_conns d [] = d
  handle_conns d (conn ∷ r) = handle_conns (handle_conn g store keys clock d conn).0 r

  handle_conns-IsHeld :
      (d : Device S C) (conns : List (Option (List Channel)))
      → IsHeld g store keys [] d
      → IsHeld g store keys [] (handle_conns d conns)
  unfolding handle_conns
  handle_conns-IsHeld d [] h = h
  handle_conns-IsHeld d (conn ∷ r) h =
      handle_conns-IsHeld (handle_conn g store keys clock d conn).0 r
        (handle_conn-keeps (IsHeld g store keys []) (exec-IsHeld g store keys clock) d conn h)

  abbrev OnServer : (Server S C → Type 0) → Result ServerError (Server S C) → Type 0
  OnServer P (err e) = Unit {0}
  OnServer P (ok s) = P s

  owned_none : (o : Option ℕ) → o ≡ none → Owns (λ k. none) o none
  owned_none none e = tt
  owned_none (some k) e = absurd (cc)

  -- A new server holds no secret.
  new_server-IsHeld :
      (host_signer : Bytes → Option Bytes) (cfg : Config S) (c : C)
      → ((w : Witness S) → cfg.witness ≡ some w → w.signer ≡ none)
      → OnServer
          (λ s. IsHeld g store keys [] s.device)
          (new_server g store keys clock host_signer cfg c)
  unfolding new_server
  new_server-IsHeld host_signer cfg c unsigned =
      if-elim (OnServer (λ s. IsHeld g store keys [] s.device)) (length cfg.host_seed == seed_size)
        _ _
        (λ e. elim (Option-cases cfg.witness) [
          | inl none_given ↦ rw none_given tt
          | inr (w, given) ↦ elim (Option-cases (host_signer (keys.new_key cfg.host_seed))) [
            | inl bad ↦ rw (given, bad) tt
            | inr (host, good) ↦
                rw (given, good)
                  (record {
                    clean = λ i apart. tt;
                    owned = owned_none w.signer (unsigned w given);
                    fresh = tt;
                  })
          ]
        ])
        (λ e. tt)

  on_ok :
      (P : Server S C → Type 0) (r : Result ServerError (Server S C)) (s : Server S C)
      → OnServer P r
      → r ≡ ok s
      → P s
  on_ok P (err e) s h same = absurd (cc)
  on_ok P (ok v) s h same = subst P (cc) h

  -- The device of a server that NewServer made over a witness without a signer is sound after
  -- any connections with any channels and requests, and so after any commands with any input:
  -- every slice of the commands' memory, where the slice of the host key is not, is zero but
  -- the one that the server keeps as the witness's key, the witness has a signer just when
  -- there is such a slice, the signer closes over that slice, and slices are made at unused
  -- addresses.
  pub server-IsHeld :
      (host_signer : Bytes → Option Bytes) (cfg : Config S) (c : C) (s : Server S C)
      (conns : List (Option (List Channel)))
      → new_server g store keys clock host_signer cfg c ≡ ok s
      → ((w : Witness S) → cfg.witness ≡ some w → w.signer ≡ none)
      → IsHeld g store keys [] (handle_conns s.device conns)
  server-IsHeld host_signer cfg c s conns made unsigned = handle_conns-IsHeld s.device conns (
      on_ok (λ t. IsHeld g store keys [] t.device) _ s
        (new_server-IsHeld host_signer cfg c unsigned) made)
