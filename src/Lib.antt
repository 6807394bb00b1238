-- ===== src/Lib.antt =====
-- The LightChain worker: verification of its intake, its responses, its transactions and its settlement.
--
-- The worker takes inference jobs from the chain, streams its answers, sends transactions, and is
-- paid on-chain. These files model the parts of it in which a mistake loses a job or costs money.
--
-- internal/chain stands between the worker's transactions and the chain:
--   * Chain/Nonce.antt, internal/chain/nonce.go: `NonceManager` (`NextNonce` is `next_nonce`,
--     `ReleaseNonce` is `release_nonce`, `ResetNonce` is `reset_nonce`). Nonce/Leases states what
--     senders may do as a step relation; Nonce/Invariant and Nonce/Safety prove what they get.
--   * Chain/StuckNonce.antt, internal/chain/stuck_nonce.go: `StuckNonceTracker`; `Record` is
--     `record_nonce`.
--   * Chain/Subpool.antt, internal/chain/subpool_coordinator.go: `SubpoolCoordinator`. One round of
--     the loop of `Enter` is `try_enter`; `Done` and `Abandon` are `done`. Subpool/Exclusion and
--     Subpool/Wakeup are about its moves in any order.
--   * Chain/SendErrors.antt, internal/chain/send_errors.go: when a failed send resets the nonce.
--   * Chain/Broadcast.antt, internal/chain/client.go: a transaction's way through the three of them.
--     `broadcastPreparedTx` is `broadcast_prepared_tx`; `send_in_slot`, `send_leased`, `after_send` and
--     `reject` are its parts, from its deferred releases inwards. Broadcast/Leases and Broadcast/Slots
--     follow the nonces and the slot, Broadcast/Balance has both, Broadcast/Resend the resend.
--   * Blob.antt, internal/blob/blob_tx.go: the same for a blob transaction, and the replacement of a
--     stuck one. `SubmitBlobTx` is `submit_blob_tx`; `submit_in_slot` and `send_with_nonce` are its
--     parts. Blob/Balance is like Broadcast/Balance; Blob/Fees and Blob/Replacement are about what a
--     replacement costs and how many there are.
--
-- internal/sortition finds the worker's jobs:
--   * Sortition/Cursor.antt, internal/sortition/cursor.go: the block that a watcher resumes after, in a
--     file (Cursor/Text has its decimal text). `CursorOps` is what a watcher asks of it.
--   * Sortition/Jobs.antt, internal/sortition/job_watcher.go: `runOnce` is `run_once`. Jobs/Events,
--     Jobs/Chunks and Jobs/Passes follow one event, one chunk and the pass; Jobs/Retries the bounded
--     retries.
--   * Sortition/Sessions.antt, internal/sortition/session_watcher.go: the pending requests and the
--     claims; Sessions/Rounds has `RunOnce`, which is `run_once`. Sessions/Pending has the vocabulary
--     of what a pass may do, Sessions/Evaluation and Sessions/Passes show it, Sessions/Ends is about
--     the fuel.
--
-- internal/pipeline answers them:
--   * Pipeline/Stream.antt, internal/pipeline/stream.go: `tokenCoalescer` and `chunkStreamer`, whose
--     calls are `add`, `publish_bytes` and `flush_all`. Stream/Buffers and Stream/Flushes have what is
--     buffered, Stream/Order and Stream/Runs what the consumer gets, Stream/Numbers the numbering.
--   * Pipeline/Deadline.antt, internal/pipeline/deadline.go: the guard of a job's window and its
--     verdicts. Deadline/Windows relates the gates of the stages to one another.
--   * Pipeline/Checkpoint.antt, internal/pipeline/checkpoint.go: the record of a job; Checkpoint/Store
--     has the calls of the store over the commands of Redis (a parameter, with `RedisLaws`),
--     Checkpoint/Records and Checkpoint/Canonical are about the ciphertext that all attempts share, and
--     Checkpoint/Tombstones about the time that a tombstoned record has left.
--   * Pipeline/Handler.antt, internal/pipeline/handler.go: the errors and the stages. Handler/Acks has
--     the stages 1 and 1b, Handler/Keys 3 and 4, Handler/Inference 4.5 to 6, Handler/Settlement 7 and 8,
--     Handler/Jobs `processJob` (which is `process_job`) and the entry points. A stage is a function of
--     the world to an answer and the world. Handler/Traces and Handler/Order note beside the world
--     which operations it was asked for; Handler/Beside has the operations that leave alone what stands
--     there. Handler/Silence, Handler/Attempts, Handler/Handovers (with a child for each stage),
--     Handler/Processing and Handler/Reports say what an attempt has done when it ends. Handler/Shared
--     is about attempts that share one checkpoint store, of which they rely on `OneAnswer`.
--
-- internal/release settles completed jobs:
--   * Release/Store.antt, internal/release/store.go and tracker.go: the state file. Store/File has the
--     document, the lock, the checks and the writing; Store/Calls the methods of `FileStore`;
--     Store/Atomic what a call may come to; Store/Spec the map that the file stands for; the others
--     have the invariant, the opening and the order of what is read.
--   * Release/Chain.antt, internal/chain/interfaces.go and the interfaces of store.go and scheduler.go:
--     `ChainOps` and `StoreOps`, the operations that the scheduler is given.
--   * Release/Backoff.antt, `computeBackoff` of internal/release/scheduler.go.
--   * Release/Scheduler.antt, the rest of internal/release/scheduler.go: the decisions about one job;
--     Scheduler/Cycle has `runReleaseCycle` and what it calls, Scheduler/Trigger `tick` and `RunOnce`.
--     Scheduler/Losses says when a job may leave the store, over any store that `Keeps` it.
--   * Release/Reconciler.antt, internal/release/reconciler.go: `Run` is `run_pass`, and one round of its
--     loop over chunks is `scan_chunk`. Reconciler/Passes and Reconciler/Progress follow the chunks,
--     Reconciler/Coverage notes what was read and stored where the cursor moves, Reconciler/Runs has
--     the whole pass.
--   * Release/FileOps.antt: the state file as the store of the scheduler; FileOps/Keeping shows that it
--     `Keeps` a job.
--
-- The scheduler calls the store and the chain through their interfaces; each call takes the state of
-- the store or the chain and returns it, so that another process may act in between. A mutex makes
-- the method that holds it one step. A sender of transactions (Chain/Broadcast.antt and Blob.antt) is
-- followed without other senders between its moves; Nonce/Leases and Subpool/Exclusion have the moves
-- of any number of senders in any order. Base.antt and its children hold what the parts share.
--
-- Numbers. uint64, int64, int and durations in nanoseconds keep their wrap-around
-- (Base/Words.antt: `add_u64`, `add_i64` and the like). The times and lifetimes that Go keeps in
-- `time.Time` are integers without a bound. A loop is structural recursion over its list or its
-- rounds; only the loops over chunks, of the reconciler and of the two watchers, run on fuel, two units
-- more than the number of their last block: a round that is not the last moves on by one block at
-- least. The text of a number of 64 bits has at most twenty digits, which is the fuel of
-- `digits_from`. The clock, the answers of the chain and of Redis, and the failures of the operating
-- system are arguments.
--
-- Not modelled: the bytes of the JSON document and of addresses (`AddressCodec` is a parameter, and
-- `Renders` says that an address is read back from its own text), contexts and their timeouts, logs,
-- goroutines and tickers. Encryption, signatures, the encoding of blobs and the node are parameters.
-- The rest of the worker is not modelled: the other calls of the chain client, the
-- model's call with its stream and the voice (`runInference` is an operation of the handler's world),
-- the JSON of the publisher, metrics, and the HTTP clients, which are input and output; registration,
-- heartbeat, configuration, the gateway and the command line, which stand apart from a job's life.
pub mod Base
pub mod Blob
pub mod Chain
pub mod Pipeline
pub mod Release
pub mod Sortition
pub mod Tests
