-- ===== src/Tests/Watches.antt =====
-- Runs of the job watcher and of the cursors.
use lightchain_worker.Release.Reconciler.{chunk_end}
use lightchain_worker.Base.{
  sub_u64, add_u64, ℕ, suc, ◌≡◌, ◌≢◌, refl, subst, ◌⊎◌, Bool, Option, none, some, List, [], ◌∷◌,
  arith, true, false, ◌&&◌, leb, if◌then◌else◌, Result, ok, err, pos,
}
use lightchain_worker.Sortition.Cursor.{CursorOps, Access, get_or_seed, read, get, set, read-set}
use lightchain_worker.Sortition.Sessions.Ends.{BlocksFit, run_round_ends}
use lightchain_worker.Sortition.Sessions.{
  out_of_fuel as session_fuel, ClaimClient, SessionConfig, SessionWatcher, mask_of,
}
use lightchain_worker.Sortition.Sessions.Pending.{Sound, Evaluated, recorded as recorded_claims}
use lightchain_worker.Sortition.Sessions.Rounds.{run_once as run_round}
use lightchain_worker.Sortition.Sessions.Passes.{run_once-Evaluated}
use lightchain_worker.Sortition.Jobs.{
  payload_of, serve_decryptable, key_known, serve_event, serve_events, close_chunk, serve_chunk,
  serve_chunks, serve_from, JobSubmittedEvent, JobWatcher, ServeClient, out_of_fuel, run_once,
}
use lightchain_worker.Sortition.Jobs.Events.{noted, recorded, State}
use lightchain_worker.Sortition.Jobs.Chunks.{InRange, InOrder, LogsInOrder}
use lightchain_worker.Sortition.Jobs.Passes.{HeadFits, Travelled, run_once-Trail, run_once_ends}

abbrev well : Access
well = record { read_fails = false; write_fails = false; rename_fails = false }

read-set_example :
    let (file, failure) = set well 90210 none in
    ((failure ≡ none) × (read well file ≡ ok (some 90210)) × (get well file ≡ ok 90210))
    ⊎ ((failure ≢ none) × (read well file ≡ read well none) × (get well file ≡ get well none))
read-set_example = read-set well well 90210 none (omega arith) refl

-- A store that keeps the cursor and never fails.
abbrev cursors : CursorOps ℕ (Option ℕ)
cursors = record { read = λ s. (ok s, s); set = λ b s. (some b, none) }

abbrev event : JobSubmittedEvent
event = record { job_id = 31; session_id = 6; worker = 9; block_number = 12 }

abbrev answer : Bool → List JobSubmittedEvent
answer true = event ∷ []
answer false = []

-- One job, in block 12; its session's key fits, and one job is running.
abbrev chain : ServeClient ℕ ℕ
chain = record {
  head = λ w. (ok 20, w);
  filter_job_submitted = λ lo hi w. (ok (answer (leb lo 12 && leb 12 hi)), w);
  get_job_blob_info = λ id w. (ok (77, 12), w);
  get_session_info = λ id w. (ok (record { user = 4; model_id = 171 ∷ [] }), w);
  get_session_enc_worker_key = λ id w. (ok (1 ∷ []), w);
  can_decrypt_session_key = λ enc. true;
  handle_job_payload = λ payload w. suc w;
  job_counter = λ w. pos 1;
  now = λ w. pos 50;
}

abbrev watcher : JobWatcher
watcher = record {
  worker = 9;
  max_jobs = pos 4;
  chunk = 5;
  confs = 2;
  session_retry_limit = pos 10;
  lookback = 100;
}

answers-InOrder :
    (lo hi : ℕ) (b : Bool)
    → (leb lo 12 && leb 12 hi) ≡ b
    → InRange lo hi (answer b) × InOrder (answer b)
answers-InOrder lo hi true inside = (((ground arith, ground arith), tt), (tt, tt))
answers-InOrder lo hi false outside = (tt, tt)

abbrev Ordered : ℕ → ℕ → Result ℕ (List JobSubmittedEvent) → Type 0
Ordered lo hi (ok evs) = InRange lo hi evs × InOrder evs
Ordered lo hi (err e) = Unit

logs : LogsInOrder chain
logs lo hi w evs h = subst (Ordered lo hi) h (answers-InOrder lo hi (leb lo 12 && leb 12 hi) refl)

abbrev start : State (Option ℕ) ℕ
start = record { cursor = (some 9, []); chain = (0, []); not_active_retries = [] }

fits : HeadFits cursors chain watcher 0
fits head known = ground arith

cursor_read : (get_or_seed (noted cursors) 18 100 (some 9, [])).0 ≡ ok (9, false)
unfolding get_or_seed noted
cursor_read = refl

run_once-Trail_example :
    Travelled cursors chain watcher 9
      (get_or_seed (noted cursors) 18 100 (some 9, [])).1.1
      (run_once (noted cursors) (recorded chain) watcher start).1
run_once-Trail_example =
    run_once-Trail cursors chain watcher logs start 20 9 false (omega arith) fits refl cursor_read

run_once_ends_example :
    (run_once cursors chain watcher
      (record { cursor = some 9; chain = 0; not_active_retries = [] })).0
    ≢ out_of_fuel
run_once_ends_example =
    run_once_ends cursors chain watcher
      (record { cursor = some 9; chain = 0; not_active_retries = [] }) (omega arith) fits

-- Request 3 is pending; request 5 is found in block 12. Both are open, and the worker is eligible.
abbrev claims : ClaimClient ℕ ℕ
claims = record {
  head = λ w. (ok 20, w);
  filter_session_requested = λ lo hi w. (ok (if leb lo 12 && leb 12 hi then 5 ∷ [] else []), w);
  get_request_info = λ id w. (ok (record { status = 0; expiry = 100 }), w);
  get_required_capabilities = λ id w. (ok 2, w);
  eligible_now = λ id worker w. (ok true, w);
  claim_session = λ id w. (none, suc w);
  job_counter = λ w. pos w;
  unix_now = λ w. 60;
}

abbrev session_config : SessionConfig
session_config = record {
  worker = 9;
  max_jobs = pos 4;
  chunk = 5;
  confs = 2;
  own_caps = 3;
  lookback = 100;
}

abbrev waiting : SessionWatcher (Option ℕ) (ℕ × List ℕ)
waiting = record {
  cursor = some 9;
  chain = (0, []);
  seeded = true;
  reseed_tries = pos 0;
  pending = (3, none) ∷ [];
}

waiting-Sound : Sound claims session_config waiting
unfolding mask_of
waiting-Sound = (tt, λ id caps h. absurd (ground arith))

run_once-Evaluated_example :
    Evaluated claims session_config waiting
      (run_round cursors (recorded_claims claims) session_config (λ ps. 3 ∷ (5 ∷ [])) waiting).1
run_once-Evaluated_example =
    run_once-Evaluated cursors claims session_config (λ ps. 3 ∷ (5 ∷ [])) waiting waiting-Sound

abbrev unseeded : SessionWatcher (Option ℕ) ℕ
unseeded = record { cursor = some 9; chain = 0; seeded = false; reseed_tries = pos 0; pending = [] }

blocks_fit : BlocksFit cursors claims session_config unseeded
unfolding get_or_seed
blocks_fit head known = (ground arith, λ cursor fresh read. ground arith)

run_round_ends_example :
    (run_round cursors claims session_config (λ ps. []) unseeded).0 ≢ session_fuel
run_round_ends_example =
    run_round_ends cursors claims session_config (λ ps. []) unseeded (omega arith) blocks_fit

-- The job in block 12 is served, and the cursor goes to the safe head in two steps.
pass_test :
    let (r, w) = run_once (noted cursors) (recorded chain) watcher start in
    (w.chain.1 ≡ 31 ∷ []) × (w.cursor.1 ≡ 18 ∷ (14 ∷ []))
unfolding run_once recorded get_or_seed noted serve_from serve_chunks add_u64 serve_chunk
    close_chunk serve_events chunk_end sub_u64 serve_event key_known serve_decryptable payload_of
pass_test = (refl, refl)
