-- ===== src/Lib.antt =====
-- vitrum is a witness for transparency logs that runs as firmware. A log sends a checkpoint with a
-- proof that it extends the last one; the witness checks it, commits it and cosigns it. The state
-- of every log is kept in an encrypted blob on a microSD card, and a monotonic anchor in an RPMB
-- partition protects it against rollback (ROLLBACK.md).
--
-- State
--   State/Codec      internal/state/blob.go: encode and decode of the map of notes.
--   State/Blob       internal/state/blob.go: save, load, loadSlot, slotLBA, newAEAD. The state of
--                    the device is passed through; `nonce` is what rand.Read gave.
--   State/Anchor     internal/state/anchor.go and anchor_mem.go: the Anchor interface, its contract
--                    IsAnchor, and MemAnchor; Anchor/Rpmb: anchor_rpmb.go.
--   State/Store      internal/state/store.go: RollbackStore with Open (open_store, boot), admit
--                    (admit_notes, admit_into) and PutBatch (put_batch, after_save, after_anchor).
--                    Boot compares Open with ROLLBACK.md, Commit and Failure are about PutBatch,
--                    Recovery is about reboots and crashes, Serve makes it a witness's store.
-- Witness
--   Witness          internal/witness/witness.go: LogState, and the fields of a checkpoint.
--   Witness/Logs     the Store interfaces, their contract IsStore, and MemStore.
--   Witness/Note     RestoreNote.
--   Witness/Request  parseRequest, and EncodeAddCheckpoint of wire.go.
--   Witness/Pool     the Witness, SetSigner, ClearSigner, AddCheckpoint (check_request and
--                    add_to_pool), addToPool, matchPending.
--   Witness/Sequencer  RunSequencer, sequence (rotate, sequence_pool, retire), sequencePool,
--                    setPoolResult, stopPools. A method returns the new witness.
--   Witness/Protocol the critical sections of all of these as a step relation, in any order that
--                    the locks allow, and the states that a witness reaches.
--   Witness/Round    AddCheckpoint to its end with the run of the sequencer that answers it, for a
--                    submission on its own (round).
--   Witness/Status   Provisioned, Verifier, Logs and Status.
--   Witness/Http     internal/witness/http.go: the two endpoints, and the method Checkpoint.
-- Firmware
--   Firmware/Provision  fw/rpmb-provision/provision.go: provisionRPMB (provision_rpmb).
--   Firmware/ProvisionTool  fw/rpmb-provision/main.go: main (run_tool) and its LEDs (lights).
--   Firmware/LogRing    fw/vitrum/logz.go: the ring of recent log lines.
--   Firmware/DeviceKey  fw/internal/devicekey: Derive and stretchKey.
--   Firmware/Storage    fw/vitrum/target_usbarmory.go: newStorage and newRPMBAnchor; and the choice
--                       of the store in fw/vitrum/main.go (choose_store).
--   Firmware/StatusLed  fw/vitrum/main.go: statusLED (led_step, run_leds) and cosignLED.
--   Firmware/Hab        fw/internal/hab: readHABReport; Clean joins it with provisionRPMB's guard.
-- Provisioning
--   Provisioning     internal/provision/server.go: exec and its commands. Slices has the memory that
--                    a key and the buffers live in, by addresses; a torchwood signer is the address
--                    of its key's slice with the text of its verifier key.
--   Provisioning/Session  NewServer, handleSession, handleConn. The sessions come in the order in
--                    which their commands take the lock. The slice of the host's private key
--                    (host_private) stands apart from the memory of the commands.
-- Client
--   Client/Pin       cmd/vitrum/provision.go: dialPinned and dialTOFU over the pin file, which
--                    other processes may delete or replace before a dial (replaced), or make
--                    during one (appeared).
--   Client/Clock     verifyClock, joined by Clock/Status with the server's command status.
--   Client/Commands  settime, cmdProvision and cmdDeprovision over a device behind SSH (Link), which
--                    Commands/Installs makes of the model of the server.
--   Client/Logs      cmd/vitrum/logs.go: resolveLog.
--   Client/KeyFiles  cmd/vitrum/keygen.go and hostkey.go: the two files of a new key.
--   Client/LogClient cmd/vitrum/client.go: newLogClient, checkpoint, proveTree and healthz.
--   Client/Feed      cmd/vitrum/feed.go with post of client.go and verifyCosignature of cosig.go;
--                    Feed/Command is cmdFeed from its flags on.
--   Client/Record    cmd/vitrum/record.go: cmdRecord; Record/Replays replays its fixtures as
--                    internal/witness/fixtures_test.go does.
--   Client/Selftest  cmd/vitrum/selftest.go: cmdSelftest; Selftest/Passes runs it against a witness.
-- TestLog            internal/testlog: Log, and SeedReader in TestLog/SeedReader.
-- RpmbTest           internal/rpmbtest/fake.go: the card of the tests, WriteRPMB and ReadRPMB.
-- Base has the shared library: bytes, Go maps as association lists, integers, decimal numbers,
-- words, results, hex, and the white space of bytes.TrimSpace and strings.Fields. Tests runs the
-- theorems on small stand-ins.
--
-- Parameters are what the repository imports or the machine gives: torchwood.ParseCheckpoint,
-- tlog.ParseHash, tlog.CheckTree, note.Sign, AES-256-GCM, SHA-256, the block device, the RPMB
-- driver, the clock and the random source. What the proofs rely on is in the records IsCrypto,
-- IsDisk, IsRpmb, IsAnchor, IsStore, IsHashText, IsLibrary (RPMB frames) and IsHostKeys. Ed25519
-- keys, torchwood's signers, HMAC, the SoC with its key derivation, and SSH are parameters too. A
-- checkpoint's signer is a pointer, and so a number. A uint32 generation wraps in next_gen, a
-- uint64 counter in count; int64 values are the integers of Base/Int, and ParseInt has its bounds
-- in Base/Decimal. An offset of the state region is taken to be below 2 ^ 62, so that its sums do
-- not wrap.
--
-- Loops are structural, but for some with fuel: the loop of decode has as much fuel as the payload
-- has bytes, since each round takes some of them; format_int has room for 20 digits, and an int64
-- has 19; the loops that trim and split on white space have as much fuel as there are bytes, and
-- each round takes one at least. The loop of SeedReader.Read has a round for every byte that is asked
-- for, and a block has 32.
--
-- Not modelled: the text of errors inside the state package, log lines, the router and the JSON of
-- /healthz, the SSH transport, flags and printing of the command line, board support, network and
-- drivers. A wait on a channel is the outcome `waits`, and
-- `closed` has the pools whose waiters may read their results.
pub mod Base
pub mod Client
pub mod Firmware
pub mod Provisioning
pub mod RpmbTest
pub mod State
pub mod TestLog
pub mod Tests
pub mod Witness
