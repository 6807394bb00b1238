-- ===== src/Release/Scheduler/Cycle.antt =====
-- internal/release/scheduler.go: a release cycle, over any chain and any store.
-- A step takes the scheduler's whole world and returns it: the store's state, the chain's, and the
-- metrics. Every call is made in the order of the source; contexts and logs are left out.
use lightchain_worker.Base.{
  ℕ, ◌+◌, true, false, Option, none, some, List, [], ◌∷◌, ok, err, ℤ, pos, add_i64, ◌==◌, length,
  if◌then◌else◌,
}
use lightchain_worker.Release.Store.File.{PendingJob}
use lightchain_worker.Release.Chain.{HeadInfo, ChainError, ChainOps, StoreOps}
use lightchain_worker.Release.Backoff.{compute_backoff}
use lightchain_worker.Release.Scheduler.{
  Config, CycleResult, no_result, MetricsSink, seconds, is_pause_error, collect_candidates, Verdict,
  to_release, stale_dispute, drop_foreign, drop_zero_fee, drop_terminal, verdict, Retry,
  try_release, defer, drop, retry_of,
}

pub record World (S W : Type 0) : Type 0 where
  pub store : S
  pub chain : W
  pub metrics : MetricsSink

-- The three lists that `partition` returns.
pub record Bins : Type 0 where
  pub release_batch : List ℕ
  pub drop_ids : List ℕ
  pub stale_disputed : List ℕ

abbrev pub no_bins : Bins
no_bins = record { release_batch = []; drop_ids = []; stale_disputed = [] }

-- One candidate's id in front of the bins of those behind it.
unfoldable pub into_bins : ℕ → Verdict → Bins → Bins
into_bins id to_release b = record b { release_batch = id ∷ b.release_batch }
into_bins id stale_dispute b = record b { stale_disputed = id ∷ b.stale_disputed }
into_bins id drop_foreign b = record b { drop_ids = id ∷ b.drop_ids }
into_bins id drop_zero_fee b = record b { drop_ids = id ∷ b.drop_ids }
into_bins id drop_terminal b = record b { drop_ids = id ∷ b.drop_ids }
into_bins id _ b = b

abbrev pub count_drop : Verdict → MetricsSink → MetricsSink
count_drop drop_foreign m = record m { dropped_foreign = m.dropped_foreign + 1 }
count_drop drop_zero_fee m = record m { dropped_zero_fee = m.dropped_zero_fee + 1 }
count_drop drop_terminal m = record m { dropped_terminal = m.dropped_terminal + 1 }
count_drop _ m = m

abbrev pub fail_count_of : ℕ → List PendingJob → ℤ
fail_count_of id [] = pos 0
fail_count_of id (p ∷ ps) = if p.job_id == id then p.fail_count else fail_count_of id ps

-- A round of the fallback's loop: it goes on, or returns.
pub data Turn (S W : Type 0) : Type 0 where
  going stopped : CycleResult → World S W → Turn S W

-- `IncFailed(1)`
abbrev pub failed_release : {S W : Type 0} → World S W → World S W
failed_release w = record w {
  metrics = record (w.metrics) { failed_count = w.metrics.failed_count + 1 };
}

module _ {E S W : Type 0} (store : StoreOps E S) (chain : ChainOps W) where
  -- A read of the chain, and a write to the store whose error is only logged.
  abbrev pub with_chain : World S W → W → World S W
  with_chain w c = record w { chain = c }

  abbrev pub with_store : World S W → S → World S W
  with_store w s = record w { store = s }

  unfoldable pub partition :
      Config → ℕ → (window now : ℤ) → List PendingJob → World S W → Bins × World S W
  partition cfg worker_addr window now [] w = (no_bins, w)
  partition cfg worker_addr window now (p ∷ ps) w =
      let (answer, c) = chain.get_job_state p.job_id w.chain in
      elim answer [
        | err e ↦ partition cfg worker_addr window now ps (with_chain w c)
        | ok info ↦
            let v = verdict cfg worker_addr (seconds window) now p info in
            let (bins, w') =
              partition cfg worker_addr window now ps
                (record w { chain = c; metrics = count_drop v w.metrics }) in
            (into_bins p.job_id v bins, w')
      ]

  unfoldable pub record_per_job_failure : Config → ℕ → ℤ → World S W → World S W
  record_per_job_failure cfg id now w =
      let (answer, s) = store.pending w.store in
      elim answer [
        | err e ↦ with_store w s
        | ok pending ↦
            let backoff =
              compute_backoff cfg.backoff_base cfg.backoff_max
                (add_i64 (fail_count_of id pending) (pos 1)) in
            with_store w (store.record_failure id (add_i64 now (seconds backoff)) s).0
      ]

  -- The store has dropped the job, or has reported an error, which is only logged.
  abbrev pub dropped_if : Option E → CycleResult → CycleResult
  dropped_if none r = record r { dropped_jobs = r.dropped_jobs + 1 }
  dropped_if (some e) r = r

  unfoldable pub after_release : ℕ → ℤ → World S W → World S W
  after_release id now w = record w {
    store = (store.remove (id ∷ []) w.store).0;
    metrics = record (w.metrics) {
      released_count = w.metrics.released_count + 1;
      last_success = now;
    };
  }

  -- `ReleaseJob` for one job of the fallback, and what its error means.
  unfoldable pub release_turn : Config → (now : ℤ) → ℕ → CycleResult → World S W → Turn S W
  release_turn cfg now id r w =
      let (failure, c) = chain.release_job id w.chain in
      elim failure [
        | none ↦
            going (record r { released_jobs = r.released_jobs + 1 })
              (after_release id now (with_chain w c))
        | some e ↦ elim (is_pause_error (some e)) [
          | true ↦ stopped (record r { paused = true }) (with_chain w c)
          | false ↦
              going (record r { failed_jobs = r.failed_jobs + 1 })
                (failed_release (record_per_job_failure cfg id now (with_chain w c)))
        ]
      ]

  -- The job's state read again, and what to do with the job.
  unfoldable pub retry_turn : Config → (now : ℤ) → ℕ → Retry → CycleResult → World S W → Turn S W
  retry_turn cfg now id drop r w =
      let (s, e) = store.remove (id ∷ []) w.store in going (dropped_if e r) (with_store w s)
  retry_turn cfg now id defer r w = going r w
  retry_turn cfg now id try_release r w = release_turn cfg now id r w

  -- One round of the loop of `perJobFallback`; `r` is `out`.
  unfoldable pub fallback_turn : Config → (window now : ℤ) → ℕ → CycleResult → World S W → Turn S W
  fallback_turn cfg window now id r w =
      let (answer, c) = chain.get_job_state id w.chain in
      elim answer [
        | err e ↦
            going (record r { failed_jobs = r.failed_jobs + 1 })
              (record_per_job_failure cfg id now (with_chain w c))
        | ok info ↦
            retry_turn cfg now id (retry_of (seconds window) now info info.state) r (with_chain w c)
      ]

  unfoldable pub per_job_fallback :
      Config → (window now : ℤ) → List ℕ → CycleResult → World S W → CycleResult × World S W
  per_job_fallback cfg window now [] r w = (r, w)
  per_job_fallback cfg window now (id ∷ ids) r w = elim (fallback_turn cfg window now id r w) [
    | stopped r' w' ↦ (r', w')
    | going r' w' ↦ per_job_fallback cfg window now ids r' w'
  ]

  unfoldable pub record_attempt : ℤ → World S W → World S W
  record_attempt now w = with_store w (store.set_last_release_ts now w.store).0

  -- `applyPauseBackoff`, with `recordAttemptWithBackoff`.
  unfoldable pub apply_pause_backoff :
      Config → ℤ → CycleResult → World S W → CycleResult × World S W
  apply_pause_backoff cfg now r w =
      let until = add_i64 now (seconds cfg.paused_cycle_backoff) in
      (
        record r { next_allowed_at = until },
        record w {
          store = (store.set_next_allowed_attempt until w.store).0;
          metrics = record (w.metrics) { pause_events = w.metrics.pause_events + 1 };
        },
      )

  -- The terminal jobs that `partition` found leave the store.
  unfoldable pub drop_terminal_jobs : List ℕ → CycleResult → World S W → CycleResult × World S W
  drop_terminal_jobs [] r w = (r, w)
  drop_terminal_jobs (id ∷ ids) r w =
      let (s, e) = store.remove (id ∷ ids) w.store in
      elim e [
        | none ↦ (record r { dropped_jobs = length (id ∷ ids) }, with_store w s)
        | some x ↦ (r, with_store w s)
      ]

  -- `runReleaseCycle` once the batch has been sent and has not landed.
  unfoldable pub after_revert :
      Config
      → (window now : ℤ) → List ℕ
      → ChainError
      → CycleResult
      → World S W
      → CycleResult × World S W
  after_revert cfg window now batch e r w =
      let reverted = record r { batch_reverted = true } in
      elim (is_pause_error (some e)) [
        | true ↦ apply_pause_backoff cfg now (record reverted { paused = true }) w
        | false ↦
            let (fallback, w') = per_job_fallback cfg window now batch no_result w in
            let merged = record reverted {
              released_jobs = reverted.released_jobs + fallback.released_jobs;
              failed_jobs = reverted.failed_jobs + fallback.failed_jobs;
              dropped_jobs = reverted.dropped_jobs + fallback.dropped_jobs;
            } in
            elim fallback.paused [
              | true ↦ apply_pause_backoff cfg now (record merged { paused = true }) w'
              | false ↦ (merged, record_attempt now w')
            ]
      ]

  -- `runReleaseCycle` once the batch has landed.
  unfoldable pub after_batch : ℤ → List ℕ → CycleResult → World S W → CycleResult × World S W
  after_batch now batch r w =
      let removed = (store.remove batch w.store).0 in
      (
        record r { released_jobs = length batch },
        record_attempt now (record w {
          store = removed;
          metrics = record (w.metrics) {
            released_count = w.metrics.released_count + length batch;
            last_success = now;
          };
        }),
      )

  -- The batch of `runReleaseCycle`, if it is not empty.
  unfoldable pub send_batch :
      Config → (window now : ℤ) → List ℕ → CycleResult → World S W → CycleResult × World S W
  send_batch cfg window now [] r w = (r, record_attempt now w)
  send_batch cfg window now (id ∷ ids) r w =
      let (failure, c) = chain.release_jobs (id ∷ ids) w.chain in
      elim failure [
        | none ↦ after_batch now (id ∷ ids) r (with_chain w c)
        | some e ↦ after_revert cfg window now (id ∷ ids) e r (with_chain w c)
      ]

  unfoldable pub run_release_cycle :
      Config → ℕ → HeadInfo → ℤ → List PendingJob → World S W → CycleResult × World S W
  run_release_cycle cfg worker_addr head window pending w =
      let now = head.timestamp in
      let candidates = collect_candidates cfg pending now in
      let result = record no_result { candidates = length candidates } in
      elim candidates [
        | [] ↦ (result, record_attempt now w)
        | p ∷ ps ↦
            let (bins, seen) = partition cfg worker_addr window now (p ∷ ps) w in
            let (result', cleared) = drop_terminal_jobs bins.drop_ids result seen in
            send_batch cfg window now bins.release_batch result' cleared
      ]
