-- ===== src/Release/Scheduler/Account.antt =====
-- The result of a cycle and its metrics agree.
use lightchain_worker.Base.{
  ℕ, ◌+◌, ◌≤◌, ◌≡◌, refl, ap, ◌∙◌, ◌⊎◌, inl, inr, true, false, some, List, [], ◌∷◌, arith, ℤ,
  add_i64, length, Bool-cases, Option-cases,
}
use lightchain_worker.Release.Store.File.{PendingJob}
use lightchain_worker.Release.Chain.{HeadInfo, ChainError, ChainOps, StoreOps}
use lightchain_worker.Release.Scheduler.{
  Config, CycleResult, no_result, MetricsSink, seconds, is_pause_error, collect_candidates,
}
use lightchain_worker.Release.Scheduler.Cycle.{
  World, partition, per_job_fallback, record_attempt, apply_pause_backoff, drop_terminal_jobs,
  after_revert, after_batch, send_batch, run_release_cycle,
}
use lightchain_worker.Release.Scheduler.Partition.{partition-Justified}
use lightchain_worker.Release.Scheduler.Counts.{
  handled, Counted, partition-Quiet, per_job_fallback-Counted,
}

-- What a cycle's result and metrics say, over `n` candidates. A pause is counted exactly once,
-- and only by a cycle that reports it, with the time of the next attempt.
abbrev pub Reports : Config → ℤ → ℕ → CycleResult → MetricsSink → CycleResult → MetricsSink → Type 0
Reports cfg now n r m r' m' =
    (m'.released_count + r.released_jobs ≡ m.released_count + r'.released_jobs)
    × (handled r' ≤ handled r + n)
    × (r'.candidates ≡ r.candidates)
    × (((r'.paused ≡ false) × (m'.pause_events ≡ m.pause_events))
        ⊎ ((r'.paused ≡ true)
            × (m'.pause_events ≡ m.pause_events + 1)
            × (r'.next_allowed_at ≡ add_i64 now (seconds cfg.paused_cycle_backoff))))

module _ {E S W : Type 0} (store : StoreOps E S) (chain : ChainOps W) where
  drop_terminal_jobs-Counted :
      (ids : List ℕ) (r : CycleResult) (w : World S W)
      → r.dropped_jobs ≡ 0
      → let (r', w') = drop_terminal_jobs store chain ids r w in
        Counted (length ids) r w.metrics r' w'.metrics
        × (r'.released_jobs ≡ r.released_jobs)
        × (r'.failed_jobs ≡ r.failed_jobs)
        × (r'.candidates ≡ r.candidates)
  unfolding drop_terminal_jobs
  drop_terminal_jobs-Counted [] r w none_yet = ((refl, refl, omega arith), refl, refl, refl)
  drop_terminal_jobs-Counted (id ∷ ids) r w none_yet =
      elim (Option-cases (store.remove (id ∷ ids) w.store).1) [
        | inl fine ↦ rw (fine, drop_terminal_jobs) ((refl, refl, omega arith), refl, refl, refl)
        | inr (e, failed) ↦
            rw (failed, drop_terminal_jobs) ((refl, refl, omega arith), refl, refl, refl)
      ]

  pub drop_terminal_jobs-paused :
      (ids : List ℕ) (r : CycleResult) (w : World S W)
      → r.paused ≡ false
      → (drop_terminal_jobs store chain ids r w).0.paused ≡ false
  unfolding drop_terminal_jobs
  drop_terminal_jobs-paused [] r w p = p
  drop_terminal_jobs-paused (id ∷ ids) r w p =
      elim (Option-cases (store.remove (id ∷ ids) w.store).1) [
        | inl fine ↦ rw (fine, drop_terminal_jobs) p
        | inr (e, failed) ↦ rw (failed, drop_terminal_jobs) p
      ]

  after_revert-Reports :
      (cfg : Config) (window now : ℤ) (batch : List ℕ) (e : ChainError) (r : CycleResult)
      (w : World S W)
      → r.paused ≡ false
      → let (r', w') = after_revert store chain cfg window now batch e r w in
        Reports cfg now (length batch) r w.metrics r' w'.metrics
  unfolding after_revert apply_pause_backoff record_attempt
  after_revert-Reports cfg window now batch e r w p = elim (Bool-cases (is_pause_error (some e))) [
    | inl paused ↦ rw (paused, after_revert) (refl, omega arith, refl, inr (refl, refl, refl))
    | inr other ↦
        let (a, b, c) = per_job_fallback-Counted store chain cfg window now batch no_result w in
        elim (Bool-cases (per_job_fallback store chain cfg window now batch no_result w).0.paused) [
          | inl late ↦
              rw (other, after_revert)
                (rw (late, after_revert)
                  (omega arith, omega arith, refl, inr (refl, omega arith, refl)))
          | inr never ↦
              rw (other, after_revert)
                (rw (never, after_revert) (omega arith, omega arith, refl, inl (p, b)))
        ]
  ]

  send_batch-Reports :
      (cfg : Config) (window now : ℤ) (batch : List ℕ) (r : CycleResult) (w : World S W)
      → r.paused ≡ false
      → r.released_jobs ≡ 0
      → let (r', w') = send_batch store chain cfg window now batch r w in
        Reports cfg now (length batch) r w.metrics r' w'.metrics
  unfolding send_batch after_batch record_attempt
  send_batch-Reports cfg window now [] r w p z = (refl, omega arith, refl, inl (p, refl))
  send_batch-Reports cfg window now (id ∷ ids) r w p z =
      elim (Option-cases (chain.release_jobs (id ∷ ids) w.chain).0) [
        | inl landed ↦ rw (landed, send_batch) (omega arith, omega arith, refl, inl (p, refl))
        | inr (e, failed) ↦
            rw (failed, send_batch) (after_revert-Reports cfg window now (id ∷ ids) e r _ p)
      ]

  -- A cycle's result is what happened: the released jobs are those that the metrics count; no more
  -- jobs are released, failed and dropped than were candidates; and a pause is counted once, and
  -- only with the time of the next attempt in the result.
  pub run_release_cycle-Reports :
      (cfg : Config) (worker_addr : ℕ) (head : HeadInfo) (window : ℤ) (ps : List PendingJob)
      (w : World S W)
      → let (r, w') = run_release_cycle store chain cfg worker_addr head window ps w in
        let n = length (collect_candidates cfg ps head.timestamp) in
        Reports cfg head.timestamp n (record no_result { candidates = n }) w.metrics r w'.metrics
  unfolding run_release_cycle record_attempt
  run_release_cycle-Reports cfg worker_addr head window ps w =
      go (collect_candidates cfg ps head.timestamp) refl
    where
      now : ℤ
      now = head.timestamp

      begin : CycleResult
      begin = record no_result { candidates = length (collect_candidates cfg ps now) }

      go :
          (c : List PendingJob)
          → collect_candidates cfg ps now ≡ c
          → let (r, w') = run_release_cycle store chain cfg worker_addr head window ps w in
            let n = length (collect_candidates cfg ps now) in
            Reports cfg now n (record no_result { candidates = n }) w.metrics r w'.metrics
      go [] e = rw (e, run_release_cycle) (omega arith, omega arith, ap length e, inl (refl, refl))
      go (p ∷ qs) e =
          let (bins, seen) = partition store chain cfg worker_addr window now (p ∷ qs) w in
          let (just, just', most) =
            partition-Justified store chain cfg worker_addr window now (p ∷ qs) w in
          let (quiet, quiet') = partition-Quiet store chain cfg worker_addr window now (p ∷ qs) w in
          let ((a, b, c), d, f, g) = drop_terminal_jobs-Counted bins.drop_ids begin seen refl in
          let (r, cleared) = drop_terminal_jobs store chain bins.drop_ids begin seen in
          let unpaused : r.paused ≡ false =
            drop_terminal_jobs-paused bins.drop_ids begin seen refl in
          let (h, i, j, k) =
            send_batch-Reports cfg window now bins.release_batch r cleared unpaused d in
          rw (e, run_release_cycle)
            (
              omega arith,
              omega arith,
              j ∙ g ∙ ap length e,
              elim k [
                | inl (x, y) ↦ inl (x, y ∙ b ∙ quiet')
                | inr (x, y, z) ↦ inr (x, omega arith, z)
              ],
            )
