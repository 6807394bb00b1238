-- ===== src/Tests/Cycles.antt =====
-- Runs of the scheduler over a scripted chain and over the state file.
use lightchain_worker.Base.{
  wrap, ◌+ℤ◌, ◌-ℤ◌, ◌*ℤ◌, quot, sub_i64, ℕ, ◌+◌, ◌*◌, ◌^◌, ◌<◌, ◌≡◌, refl, ◌⊎◌, Bool, true, false,
  Option, none, some, List, [], ◌∷◌, arith, ok, ℤ, pos, length, keep, take, add_i64, ◌==◌,
  if◌then◌else◌,
}
use lightchain_worker.Release.Store.File.{
  reading, lock_error, load_verified_locked, read_snapshot_locked, verify_identity_locked,
  addr_equal_hex, mutating, write_snapshot_locked, pinned, PendingJob, StoreError, document,
}
use lightchain_worker.Release.Store.Calls.{
  get_next_allowed_attempt, pending, sort_jobs, remove, set_last_release_ts,
  set_next_allowed_attempt, get_last_release_ts, record_failure, fresh_job,
}
use lightchain_worker.Release.Chain.{
  JobStateInfo, HeadInfo, ChainError, ChainOps, completed, timed_out,
}
use lightchain_worker.Release.Backoff.{compute_backoff}
use lightchain_worker.Release.Backoff.Bounds.{compute_backoff_wraps}
use lightchain_worker.Release.Scheduler.{
  verdict, is_pause_error, count_ready_for_state_check, Config, no_result, MetricsSink, seconds,
  collect_candidates,
}
use lightchain_worker.Release.Scheduler.Cycle.{
  send_batch, into_bins, drop_terminal_jobs, after_batch, after_revert, record_attempt,
  apply_pause_backoff, World, partition, run_release_cycle,
}
use lightchain_worker.Release.Scheduler.Trigger.{dispute_window, fires, tick, run_once}
use lightchain_worker.Release.Scheduler.Candidates.{is_ready, collect_candidates-take}
use lightchain_worker.Release.Scheduler.Pause.{Stopped, gate_noting, paused_cycle-gates_tick}
use lightchain_worker.Release.Scheduler.Account.{Reports, run_release_cycle-Reports}
use lightchain_worker.Release.Scheduler.Releases.{Sound, run_release_cycle-Sound}
use lightchain_worker.Release.Scheduler.Losses.{answering}
use lightchain_worker.Release.FileOps.{Disk, file_store_ops, file_store_ops-GateLaw}
use lightchain_worker.Tests.StateFile.{one_byte, two_jobs, store_at}

compute_backoff_wraps_example :
    (compute_backoff (pos (2 ^ 34 + 1)) (pos 3600000000000) (pos 31) ≡ pos (1 * 2 ^ 30))
    × (1 * 2 ^ 30 < 2 ^ 34 + 1)
compute_backoff_wraps_example =
    compute_backoff_wraps 1 3600000000000 30 (omega arith) (omega arith) (omega arith) (omega arith)
      (omega arith)

abbrev pub config : Config
config = record {
  interval = pos 3600000000000;
  batch_threshold = pos 2;
  max_batch_size = pos 10;
  backoff_base = pos 60000000000;
  backoff_max = pos 3600000000000;
  paused_cycle_backoff = pos 600000000000;
  stale_dispute_warn_after = pos 0;
  dispute_window_override = pos 50000000000;
}

-- The chain's state is whether the contract is paused.
abbrev pub info_of : ℕ → JobStateInfo
info_of id = record {
  state = if id == 3 then completed else timed_out;
  worker = 1;
  completed_at = pos 90;
  escrowed_fee = some (pos 7);
}

abbrev pub pause_error : ChainError
pause_error = record { contract_paused = true; lower_text = [] }

abbrev pub paid : Bool → Option ChainError
paid true = some pause_error
paid false = none

abbrev pub head_now : HeadInfo
head_now = record { number = 70; timestamp = pos 200 }

abbrev pub scripted : ChainOps Bool
scripted = record {
  head = λ paused. (ok head_now, paused);
  get_dispute_window = λ paused. (ok (pos 0), paused);
  get_job_state = λ id paused. (ok (info_of id), paused);
  release_job = λ id paused. (paid paused, paused);
  release_jobs = λ ids paused. (paid paused, paused);
  filter_job_completed = λ worker lo hi paused. (ok [], paused);
}

abbrev pub no_metrics : MetricsSink
no_metrics = record {
  pending_gauge = 0;
  released_count = 0;
  failed_count = 0;
  dropped_foreign = 0;
  dropped_zero_fee = 0;
  dropped_terminal = 0;
  pause_events = 0;
  last_success = pos 0;
}

abbrev world : {W : Type 0} → W → World Disk W
world c = record { store = (store_at (document two_jobs), []); chain = c; metrics = no_metrics }

abbrev pub window : ℤ
window = pos 50000000000

abbrev pub jobs : List PendingJob
jobs = fresh_job 3 (pos 90) ∷ fresh_job 8 (pos 100) ∷ []

collect_candidates-take_example :
    collect_candidates config jobs (pos 200) ≡ take 10 (keep (is_ready (pos 200)) jobs)
collect_candidates-take_example = collect_candidates-take config jobs (pos 200)

run_release_cycle-Reports_example :
    let (r, w) =
      run_release_cycle
        (file_store_ops one_byte)
        scripted
        config
        1
        head_now
        window
        jobs
        (world false) in
    let n = length (collect_candidates config jobs (pos 200)) in
    Reports config (pos 200) n (record no_result { candidates = n }) no_metrics r w.metrics
run_release_cycle-Reports_example =
    run_release_cycle-Reports (file_store_ops one_byte) scripted config 1 head_now window jobs
      (world false)

run_release_cycle-Sound_example :
    Sound 1
      (seconds window)
      (pos 200)
      (run_release_cycle
        (file_store_ops one_byte)
        (answering scripted)
        config
        1
        head_now
        window
        jobs
        (world (false, []))).1.chain.1
run_release_cycle-Sound_example =
    run_release_cycle-Sound (file_store_ops one_byte) scripted config 1 head_now window jobs
      (store_at (document two_jobs), []) false no_metrics

-- Job 3 is paid and job 8 is dropped.
cycle_test :
    let (r, w) = run_once (file_store_ops one_byte) scripted config 1 (world false) in
    (r ≡ ok (record no_result { candidates = 2; released_jobs = 1; dropped_jobs = 1 }))
    × (w.metrics
        ≡ record no_metrics { released_count = 1; dropped_terminal = 1; last_success = pos 200 })
    × (w.store.0.file ≡ document (record two_jobs { pending = []; last_release_ts = pos 200 }))
unfolding run_once file_store_ops dispute_window reading lock_error load_verified_locked
    read_snapshot_locked verify_identity_locked addr_equal_hex mutating write_snapshot_locked pinned
    get_next_allowed_attempt pending sort_jobs remove set_last_release_ts set_next_allowed_attempt
    get_last_release_ts record_failure send_batch partition into_bins run_release_cycle
    drop_terminal_jobs after_batch after_revert record_attempt apply_pause_backoff
    collect_candidates verdict is_pause_error count_ready_for_state_check wrap ◌+ℤ◌ ◌-ℤ◌ ◌*ℤ◌ quot
    add_i64 sub_i64
cycle_test = (refl, refl, refl)

tick_test :
    (tick (file_store_ops one_byte) scripted config 1 (world false)).metrics.released_count ≡ 1
unfolding tick fires file_store_ops dispute_window reading lock_error load_verified_locked
    read_snapshot_locked verify_identity_locked addr_equal_hex mutating write_snapshot_locked pinned
    get_next_allowed_attempt pending sort_jobs remove set_last_release_ts set_next_allowed_attempt
    get_last_release_ts record_failure send_batch partition into_bins run_release_cycle
    drop_terminal_jobs after_batch after_revert record_attempt apply_pause_backoff
    collect_candidates verdict is_pause_error count_ready_for_state_check wrap ◌+ℤ◌ ◌-ℤ◌ ◌*ℤ◌ quot
    add_i64 sub_i64
tick_test = refl

abbrev noted_world : World (Disk × List (ℤ × Option StoreError)) Bool
noted_world = record {
  store = ((store_at (document two_jobs), []), []);
  chain = true;
  metrics = no_metrics;
}

cycle_paused :
    (run_release_cycle
      (gate_noting (file_store_ops one_byte))
      scripted
      config
      1
      head_now
      window
      jobs
      noted_world).0.paused
    ≡ true
unfolding gate_noting file_store_ops reading lock_error load_verified_locked read_snapshot_locked
    verify_identity_locked addr_equal_hex mutating write_snapshot_locked pinned
    get_next_allowed_attempt pending sort_jobs remove set_last_release_ts set_next_allowed_attempt
    get_last_release_ts record_failure send_batch partition into_bins run_release_cycle
    drop_terminal_jobs after_batch after_revert record_attempt apply_pause_backoff
    collect_candidates verdict is_pause_error count_ready_for_state_check wrap ◌+ℤ◌ ◌-ℤ◌ ◌*ℤ◌ quot
    add_i64 sub_i64
cycle_paused = refl

paused_cycle-gates_tick_example :
    let noting = gate_noting (file_store_ops one_byte) in
    let w' = (run_release_cycle noting scripted config 1 head_now window jobs noted_world).1 in
    let probed = record w' { chain = false } in
    (outcome : Option StoreError) × (earlier : List (ℤ × Option StoreError)) × (w'.store.1
      ≡ (pos 800, outcome) ∷ earlier)
    × (((e : StoreError) × (outcome ≡ some e))
        ⊎ (tick noting scripted config 1 probed
            ≡ Stopped probed (noting.get_next_allowed_attempt w'.store).1 false))
unfolding add_i64 wrap ◌+ℤ◌ quot
paused_cycle-gates_tick_example =
    paused_cycle-gates_tick (file_store_ops one_byte) scripted (file_store_ops-GateLaw one_byte)
      config 1 head_now head_now window jobs (store_at (document two_jobs), []) true false
      no_metrics cycle_paused refl (unfold add_i64 wrap ◌+ℤ◌ quot in ground arith)
