-- ===== src/Lib.antt =====
-- A model of the core of the Yummi LCU agent, the Rust program under agent-tauri/src-tauri/src: what it
-- accepts from its relay server, what it keeps for it, what it records, installs and shows.
--
-- The parts and how they interact. The agent holds a connection to a relay server
-- (relay/supervisor.rs). A message of the relay is decoded and checked (`IncomingMessage::parse` of
-- relay/protocol.rs). A command names an `Action`; it passes the session gate
-- (`command_is_authorized`) and the signature check (`verify_command` of relay/command_auth.rs), which
-- keeps a cache of the signing key and of used nonces. Events for the relay wait in a
-- `DurableReplayBuffer` until they are acknowledged; the relay may ask for a range of a live stream
-- again. A request to publish the game's picture goes to `control` of live_sfu.rs, which renews the
-- leases of recording.rs. recording.rs also keeps the rolling buffer that clips are cut from. The
-- updater (updater.rs) decides which signed release is installed. state.rs holds the snapshot that the
-- Game Bar overlay shows. While a game runs, lcu/events.rs sends its state as a stream of frames, the
-- first whole and each later one as the operations that change the last state; relay/app.py, the server
-- at the other end, applies them to its own copy.
--
-- The files.
-- - Common: tests, lists, results and texts that the parts share; Common/Pigeons counts distinct numbers.
-- - Json: serde_json's `Value` and the accessors that the program uses.
-- - CommandAuth: relay/command_auth.rs. Canonical is `canonical_json`; Envelope is `parse_envelope` and
--   `validate_time`; Nonces is `claim_nonce`, its children its lemmas; Verify is `fetch_key`,
--   `command_key` and `verify_command`, its children what an accepted command has passed (Outcome,
--   Sound) and what happens when it comes again (Replay). A call is a function of the state and of a
--   `Moment`, which holds the clocks and the network's answer.
-- - Relay/ReplayBuffer: `DurableReplayBuffer` of relay/supervisor.rs; Steps and Synced run sequences of
--   `track`, `ack` and `drop_live_stream` with any outcome of their writes; Range is the resend of a
--   range, whose sends may fail; Restart is `load_from_path` after a write.
-- - Relay/Resend: the arms `LiveDeltaResend` and `LiveDeltaResync` of the message loop.
-- - Relay/Protocol: `IncomingMessage` and `parse`; Safe states what an accepted message keeps to.
-- - Relay/Actions: `Action`; Names its names, Gate the gates of a command in `handle_incoming`.
-- - Relay/Watchdog: `NativeWatchdogObservation`, `backoff_delay` and the decisions beside them.
-- - Recording/Rolling: `RollingCapture`. Recording/Manager: `RecordingManager`, recordings and clips.
-- - Recording/Live: `LiveStreamConfig`, the leases, and `control` of live_sfu.rs.
-- - RecordingHttp: `allowed_origin` and `serve_video` of recording_http.rs; Ranges its lemmas.
-- - Updater: `is_newer_target`, `should_apply_target` and `next_update_check_delay`.
-- - Gamebar: `GameBarSnapshot` and the operations on it in state.rs.
-- - LiveGame: the live game stream. Items is `push_live_item_delta_ops` and Delta is `json_delta_ops` of
--   lcu/events.rs, Stream `live_game_delta_frame` and `push_live_game_changed`. Receiver is the part of
--   relay/app.py from `_live_delta_path` to `_apply_live_delta_ops`, Ingest its frame check and its
--   handler of `live_game_update`. Payload is `live_game_payload_at`, which builds a state. Values,
--   Dict, Arrays and Paths are JSON values compared, read and written at a place. Items/Rounds and Delta/Follows prove that the relay follows the agent,
--   Ingest/Mirror and Ingest/InStep state what its copy is under any deliveries and under prompt ones,
--   and Payload/Inventories that the states have the inventories which the relay accepts.
-- - GameResult: which report of a finished game counts as its result, and when it is asked for again;
--   Consistent is the check of the participants.
-- - ReplayUpload: the fields of `LcuEventPoller` about the replay of the last game and the operations on
--   them; Ops runs them in any order, Approved is what then holds.
-- Each part has a module Tests with runs and with its theorems at concrete values.
--
-- Conventions. Numbers are natural numbers; a saturating addition is `saturating_add` at the largest
-- `u64`, a subtraction stops at 0 as `saturating_sub` does, and an atomic counter wraps. Durations and
-- instants are milliseconds. A map is an association list. A text that the program walks is the list of
-- its bytes; one that it only compares is a String. Loops are structural recursion over the list that
-- the source iterates, so no bound or fuel is needed anywhere. A JSON object, also a Python dict, holds
-- its entries in the order of their keys; a Python exception is `none`, and a copy made by way of
-- `json.dumps` is the value itself.
--
-- Parameters. Code outside the repository is an argument: base64, SHA-256, Ed25519, serde_json's parser
-- and its quoting, uuid parsing, `str::trim`, the seed of the rollout, the
-- rounding of floats. The file system, the network, the capture library and the clocks are answers that
-- an operation takes.
--
-- Not modelled: the asynchronous loops and channels around these parts, the League client's requests,
-- the decoding of replay files, the plan of polling and its other payloads, the routing of
-- the recording HTTP server, diagnostics, configuration and login, the windows and the tray, the vendored discord-presence library, all
-- other messages of the Python relay server, and the frontends in TypeScript and C#.
pub mod Common
pub mod Json
pub mod CommandAuth
pub mod Relay
pub mod Gamebar
pub mod Recording
pub mod Updater
pub mod RecordingHttp
pub mod LiveGame
pub mod GameResult
pub mod ReplayUpload
