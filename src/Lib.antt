-- ===== src/Lib.antt =====
-- A verification library of opencrow, the bridge between chat backends and the coding agent pi.
--
-- opencrow keeps one persistent inbox in SQLite. Backends, the trigger pipe, the reminder
-- dispatcher and the heartbeat ticker insert rows and notify the worker; the one worker takes the
-- most urgent row, sends a prompt to the pi process and sends the reply through the backend. A row
-- of a more urgent kind that arrives meanwhile cancels the turn.
--
-- - Prelude: native numbers, lists, rows picked by an SQL condition, and texts as lists of code
--   points with the functions of Go's `strings` that the source calls.
-- - Database (sqlc_models.go, sqlc/schema.sql): the rows of the three tables in one record, and the
--   way a query returns. Any query may fail; which ones do is part of the state (`faults`), so a
--   theorem about all states covers every pattern of failures. A statement that fails changes
--   nothing.
-- - Inbox (inbox.go, queries.sql_sqlc.go): `InboxStore`. The rows stand in the order of their
--   AUTOINCREMENT ids. Rules gives one proof rule for each call, Ids and Heartbeats invariants along
--   histories of calls, Lanes the order within a priority, Batch the user batch. The order in which
--   DELETE ... RETURNING hands out rows is a parameter, a permutation.
-- - Outbox (outbox.go, queries.sql_sqlc.go): `outboxStore`, with its transaction.
-- - Heartbeat (heartbeat.go): `parseHeartbeatItems`, `buildHeartbeatPrompt`, `shouldSuppressReply`.
-- - Reminders (heartbeat.go, queries.sql_sqlc.go): `dispatchDueReminders`. SQLite's `datetime`
--   comparison and the order of the returned rows are parameters.
-- - Trigger (trigger_pipe.go): `buildTriggerPrompt`.
-- - Conversation (backend/util.go): `Claim`, `Reset`, `AttachmentText`, `IsAllowed`.
-- - Nostr (nostr/keys.go, nostr/publish_queue.go, nostr/lastseen.go, nostr/queries.sql_sqlc.go): Keys
--   reads the keys; LastSeen is the
--   record of the rumors that were received; Breaker is `relayBreaker`; PublishQueue has `enqueue`,
--   `recordReject`, `evictLocked` and the delivery of an event, Drain the pass `drainOnce`, Load the
--   start from disk. The answers of relays and the time that they take are a script in the state;
--   the order in which Go ranges over the map of batches is a parameter, and so are the JSON
--   functions of the event type. An `enqueue` happens between two passes.
-- - Nostr, the direct messages (nostr/backend.go, nostr/dm.go, nostr/crypto.go, nostr/media.go,
--   nostr/blossom.go, nostr/migrate_legacy.go): Rumors are the unsigned events and their tags, Backend sends and receives,
--   Crypto has the encrypted files, Media the texts for files and links, FileNames
--   `sanitizeFilename`, Blossom the uploads and `downloadURL`, Legacy `migrateLegacySeenRumors`,
--   Metadata what is published again when it changes or gets old, Relays those to
--   subscribe to. NIP-59, AES-GCM, HTTP and files are parameters. The reaction to a message, which
--   the source sends in the background, is sent at once.
-- - Worker (worker.go): State holds the fields of `Worker`, the database, what was done to the
--   outside and a script of what the outside does; Prompt is the turn of one item, Drain the loop
--   `drainOnce`. The loop runs on fuel, one more than the rows in the inbox and the rows still to
--   arrive (Size); Progress is about its end.
-- - Config (config.go): Types are the records, Reader is `envReader`, Load the parts of `loadConfig`,
--   Config itself `loadConfig` and `validateBackend`. The environment, files, paths and durations
--   are functions of a record `System`.
-- - Pi (pi_rpc.go, pi.go): Events are what pi writes, Process the drain `drainEvents` with its side
--   effects, Result `waitForResult` with the grace window after an error, and the compaction; Start
--   the arguments of pi. What the next read of pi's stdout gives, when the context ends and when the
--   window is over is a script of ticks. Where it is used up the call waits, as pi is alive and silent;
--   the loop of the wait runs on fuel, one more than the ticks (Progress).
-- - App (app.go): Files is `extractSendFiles`, ToolCalls the texts for tool calls, Messages
--   `HandleMessage`, Replies `sendReplyWithFiles`; what the backend returns is a script in the state.
-- - Signal (signal/decode.go, signal/rpc.go, signal/backend.go): Decode reads what signal-cli sends,
--   Backend is the receive loop and the sending, Rpc the client with its pending calls, whose
--   goroutines are one sequence of steps. Numbers of signal-cli are opaque.
-- - Matrix (matrix/backend.go): Chunks is `SendMessage`, Rooms the handlers of the sync loop on the
--   state of the backend, Files the downloads on a store of files, Login `ensurePasswordLogin`,
--   Crypto the start of the encryption, Upload `SendFile`. mautrix and the homeserver are
--   parameters: each event comes with what its calls return. The handlers run in goroutines of
--   their own: an invite is two steps, up to the call that joins the room and from its return on,
--   with any others between them; the other handlers are one step each. The loop of Chunks has as
--   many rounds as bytes, which is enough, as a chunk has a byte at least.
-- - Socket (socket/backend.go): Wire is the protocol, Socket itself the backend with its
--   connections, the commands of clients and the events that are pushed. Connections and commands
--   come as a list of steps; which writes fail is part of a connection. Several goroutines send: a
--   message takes its id in one step and is pushed in a later one. Ids are about the ids of messages.
-- - Tests: runs on concrete inputs, and each theorem at an input that meets its hypotheses.
--
-- Other goroutines act on the worker only while it waits for pi: the rows that they enqueue, an
-- abort and a shutdown stand in the script of the call (`Send`). A user row, a trigger and a
-- heartbeat are told apart by a data type in place of the strings of the column `source`.
--
-- JSON, `strconv`, paths and gonostr are parameters: records of functions, with what a theorem needs
-- of them as a hypothesis.
--
-- Not modelled: the start and the end of processes (pi.go, signal/daemon.go), the tickers and the idle
-- reaper, files and pipes, logging (pi_format.go), main.go, the protocols of matrix and
-- nostr themselves, listening on the socket. Of the publish queue, the test hook `Flush` and the loop
-- `run` around the passes. The removal of a temporary file never fails.
pub mod Prelude
pub mod Database
pub mod Inbox
pub mod Outbox
pub mod Heartbeat
pub mod Reminders
pub mod Trigger
pub mod Conversation
pub mod Config
pub mod Pi
pub mod Worker
pub mod App
pub mod Matrix
pub mod Signal
pub mod Socket
pub mod Nostr
pub mod Tests
