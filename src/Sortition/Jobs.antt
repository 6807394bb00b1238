-- ===== src/Sortition/Jobs.antt =====
-- internal/sortition/job_watcher.go: one pass over the chain's JobSubmitted events, over any chain
-- and any store of cursors. Serving a job is the start of its goroutine. `chunk_end` is the same
-- formula as the reconciler's. The ticker and the logs are left out.
pub mod Chunks
pub mod Events
pub mod Passes
pub mod Retries
use lightchain_worker.Base.{
  ℕ, zero, suc, ◌+◌, ◌-◌, ◌/◌, ◌%◌, Bool, true, false, not, Option, none, some, List, [], ◌∷◌, ◌++◌,
  Result, ok, err, ℤ, pos, add_i64, add_u64, sub_u64, ltb, leb, ltb_ℤ, leb_ℤ, ◌==◌, if◌then◌else◌,
}
use lightchain_worker.Base.Bytes.{Bytes}
use lightchain_worker.Release.Reconciler.{chunk_end}
use lightchain_worker.Sortition.Cursor.{CursorOps, get_or_seed}
use lightchain_worker.Sortition.Cursor.Text.{format_uint}

pub record JobSubmittedEvent : Type 0 where
  pub job_id : ℕ  -- uint64
  pub session_id : ℕ
  pub worker : ℕ
  pub block_number : ℕ

-- The fields of `chain.SessionInfo` that are read here. A model id is 32 bytes.
pub record SessionInfo : Type 0 where
  pub user : ℕ
  pub model_id : Bytes

pub record JobPayload : Type 0 where
  pub job_id : ℕ
  pub session_id : ℕ
  pub consumer : ℕ
  pub worker : ℕ
  pub model_id : Bytes
  pub prompt_blob_hash : ℕ
  pub block_number : ℕ
  pub timestamp : ℤ
  pub correlation_id : Bytes

-- An error is `chain.ErrSessionNotActive` or another one.
pub data KeyError (X : Type 0) : Type 0 where
  session_not_active : KeyError X
  rpc_failed : X → KeyError X

-- The chain, the check of the keys, the entry of the pipeline and the counter of running jobs.
pub record ServeClient (X W : Type 0) : Type 0 where
  pub head : W → Result X ℕ × W
  pub filter_job_submitted : (from_block to_block : ℕ) → W → Result X (List JobSubmittedEvent) × W
  pub get_job_blob_info : ℕ → W → Result X (ℕ × ℕ) × W
  pub get_session_info : ℕ → W → Result X SessionInfo × W
  pub get_session_enc_worker_key : ℕ → W → Result (KeyError X) Bytes × W
  pub can_decrypt_session_key : Bytes → Bool
  pub handle_job_payload : JobPayload → W → W
  pub job_counter : W → ℤ
  pub now : W → ℤ

pub record JobWatcher : Type 0 where
  pub worker : ℕ
  pub max_jobs : ℤ  -- int
  pub chunk : ℕ  -- uint64
  pub confs : ℕ
  pub session_retry_limit : ℤ
  pub lookback : ℕ

-- `NewJobWatcher`, of the options of the same names.
unfoldable pub new_job_watcher : JobWatcher → JobWatcher
new_job_watcher o = record o {
  chunk = if o.chunk == 0 then 5000 else o.chunk;
  session_retry_limit = elim o.session_retry_limit [ pos zero ↦ pos 10 | n ↦ n ];
}

-- `notActiveRetries`
unfoldable pub attempts_of : ℕ → List (ℕ × ℤ) → ℤ
attempts_of id [] = pos 0
attempts_of id ((i, n) ∷ rs) = let rest = attempts_of id rs in if i == id then n else rest

unfoldable pub forget : ℕ → List (ℕ × ℤ) → List (ℕ × ℤ)
forget id [] = []
forget id ((i, n) ∷ rs) = let rest = forget id rs in if i == id then rest else (i, n) ∷ rest

-- What a pass changes: the cursors, the chain with all that runs beside, and the retries.
pub record Watch (S W : Type 0) : Type 0 where
  pub cursor : S
  pub chain : W
  pub not_active_retries : List (ℕ × ℤ)

-- What an event comes to: the next one, or the end of the pass at this one.
pub data Turn : Type 0 where
  next stop : Turn

-- How the loop over a chunk's events ends: after the last event, or with the pass.
pub data Chunk (E : Type 0) : Type 0 where
  finished : Chunk E
  returned : Option E → Chunk E

pub data PassError (E X : Type 0) : Type 0 where
  cursor_failed : E → PassError E X
  chain_failed : X → PassError E X

-- How the loop over the chunks ends.
pub data PassEnd (E X : Type 0) : Type 0 where
  out_of_fuel : PassEnd E X
  ended : Option (PassError E X) → PassEnd E X

abbrev pub hex_digit : ℕ → ℕ
hex_digit n = if ltb n 10 then 48 + n else 87 + n

unfoldable pub model_id_string : Bytes → Bytes
model_id_string [] = []
model_id_string (b ∷ bs) = hex_digit (b / 16) ∷ (hex_digit (b % 16) ∷ model_id_string bs)

-- 45 is a hyphen.
unfoldable pub payload_of :
    JobWatcher → JobSubmittedEvent → SessionInfo → (prompt_hash submit_block : ℕ) → ℤ → JobPayload
payload_of cfg ev si prompt_hash submit_block timestamp = record {
  job_id = ev.job_id;
  session_id = ev.session_id;
  consumer = si.user;
  worker = cfg.worker;
  model_id = model_id_string si.model_id;
  prompt_blob_hash = prompt_hash;
  block_number = submit_block;
  timestamp = timestamp;
  correlation_id = format_uint ev.session_id ++ (45 ∷ format_uint ev.job_id);
}

module _ {X S W : Type 0} (c : ServeClient X W) (cfg : JobWatcher) where
  -- The key of a session that is not active is asked for again in a bounded number of passes.
  unfoldable pub key_failed : JobSubmittedEvent → KeyError X → Watch S W → Turn × Watch S W
  key_failed ev (rpc_failed e) w = (stop, w)
  key_failed ev session_not_active w =
      let attempts = add_i64 (attempts_of ev.job_id w.not_active_retries) (pos 1) in
      let others = forget ev.job_id w.not_active_retries in
      if ltb_ℤ attempts cfg.session_retry_limit
      then (stop, record w { not_active_retries = (ev.job_id, attempts) ∷ others })
      else (next, record w { not_active_retries = others })

  -- The session's key fits.
  unfoldable pub serve_decryptable : JobSubmittedEvent → Watch S W → Turn × Watch S W
  serve_decryptable ev w =
      let (blob, w1) = c.get_job_blob_info ev.job_id w.chain in
      elim blob [
        | err e ↦ (stop, record w { chain = w1 })
        | ok (prompt_hash, submit_block) ↦
            let (session, w2) = c.get_session_info ev.session_id w1 in
            elim session [
              | err e ↦ (stop, record w { chain = w2 })
              | ok si ↦
                  let payload = payload_of cfg ev si prompt_hash submit_block (c.now w2) in
                  (next, record w { chain = c.handle_job_payload payload w2 })
            ]
      ]

  -- The session's key is there.
  unfoldable pub key_known : JobSubmittedEvent → Bytes → Watch S W → Turn × Watch S W
  key_known ev enc w =
      let w' = record w { not_active_retries = forget ev.job_id w.not_active_retries } in
      if c.can_decrypt_session_key enc then serve_decryptable ev w' else (next, w')

  -- One event.
  unfoldable pub serve_event : JobSubmittedEvent → Watch S W → Turn × Watch S W
  serve_event ev w =
      if not (ev.worker == cfg.worker)
      then (next, w)
      else if leb_ℤ cfg.max_jobs (c.job_counter w.chain)
      then (stop, w)
      else (let (key, w1) = c.get_session_enc_worker_key ev.session_id w.chain in
          elim key [
            | err e ↦ key_failed ev e (record w { chain = w1 })
            | ok enc ↦ key_known ev enc (record w { chain = w1 })
          ])

abbrev pub safe_head_of : ℕ → ℕ → ℕ
safe_head_of head confs = if ltb confs head then head - confs else 0

abbrev pub stop_block : JobSubmittedEvent → ℕ → ℕ
stop_block ev lo = if ltb 0 ev.block_number then ev.block_number - 1 else sub_u64 lo 1

module _ {E X S W : Type 0} (cursors : CursorOps E S) (c : ServeClient X W) (cfg : JobWatcher) where
  unfoldable pub stop_and_retry : JobSubmittedEvent → ℕ → Watch S W → Option E × Watch S W
  stop_and_retry ev lo w =
      let (s, failure) = cursors.set (stop_block ev lo) w.cursor in
      (failure, record w { cursor = s })

  unfoldable pub serve_events : ℕ → List JobSubmittedEvent → Watch S W → Chunk E × Watch S W
  serve_events lo [] w = (finished, w)
  serve_events lo (ev ∷ evs) w =
      let (turn, w') = serve_event c cfg ev w in
      elim turn [
        | next ↦ serve_events lo evs w'
        | stop ↦ let (failure, w'') = stop_and_retry ev lo w' in (returned failure, w'')
      ]

  -- The end of a chunk: whether the pass goes on, or what it returns.
  unfoldable pub close_chunk : ℕ → Chunk E × Watch S W → Option (Option (PassError E X)) × Watch S W
  close_chunk hi (returned none, w) = (some none, w)
  close_chunk hi (returned (some e), w) = (some (some (cursor_failed e)), w)
  close_chunk hi (finished, w) =
      let (s, failure) = cursors.set hi w.cursor in
      elim failure [
        | none ↦ (none, record w { cursor = s })
        | some e ↦ (some (some (cursor_failed e)), record w { cursor = s })
      ]

  unfoldable pub serve_chunk : (lo hi : ℕ) → Watch S W → Option (Option (PassError E X)) × Watch S W
  serve_chunk lo hi w =
      let (answer, w1) = c.filter_job_submitted lo hi w.chain in
      elim answer [
        | err e ↦ (some (some (chain_failed e)), record w { chain = w1 })
        | ok evts ↦ close_chunk hi (serve_events lo evts (record w { chain = w1 }))
      ]

  unfoldable pub serve_chunks : (safe_head fuel lo : ℕ) → Watch S W → PassEnd E X × Watch S W
  serve_chunks safe_head zero lo w = (out_of_fuel, w)
  serve_chunks safe_head (suc fuel) lo w =
      if leb lo safe_head
      then (let (answer, w') = serve_chunk lo (chunk_end cfg.chunk lo safe_head) w in
          elim answer [
            | some e ↦ (ended e, w')
            | none ↦ serve_chunks safe_head fuel (add_u64 lo cfg.chunk) w'
          ])
      else (ended none, w)

  -- Once the cursor is known. The fuel is the number of blocks up to the safe head, and two more.
  unfoldable pub serve_from : (safe_head cursor : ℕ) → Watch S W → PassEnd E X × Watch S W
  serve_from safe_head cursor w =
      if leb safe_head cursor
      then (ended none, w)
      else serve_chunks safe_head (suc (suc safe_head)) (add_u64 cursor 1) w

  unfoldable pub run_once : Watch S W → PassEnd E X × Watch S W
  run_once w =
      let (answer, w1) = c.head w.chain in
      elim answer [
        | err e ↦ (ended (some (chain_failed e)), record w { chain = w1 })
        | ok head ↦
            let safe_head = safe_head_of head cfg.confs in
            let (start, s) = get_or_seed cursors safe_head cfg.lookback w.cursor in
            let w' = record w { cursor = s; chain = w1 } in
            elim start [
              | err e ↦ (ended (some (cursor_failed e)), w')
              | ok (cursor, fresh) ↦ serve_from safe_head cursor w'
            ]
      ]
