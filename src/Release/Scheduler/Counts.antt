-- ===== src/Release/Scheduler/Counts.antt =====
-- The rounds of the fallback, and `partition`: what they count.
use lightchain_worker.Base.{
  ℕ, suc, ◌+◌, ◌≤◌, ◌≡◌, refl, ◌∙◌, inl, inr, Option, none, some, List, [], ◌∷◌, arith, ℤ, length,
  Bool-cases, Option-cases, Result-cases,
}
use lightchain_worker.Release.Store.File.{PendingJob}
use lightchain_worker.Release.Chain.{ChainOps, StoreOps}
use lightchain_worker.Release.Scheduler.{
  Config, CycleResult, MetricsSink, seconds, is_pause_error, verdict, Verdict, to_release, retry_of,
  Retry, try_release, defer, drop,
}
use lightchain_worker.Release.Scheduler.Cycle.{
  World, count_drop, partition, record_per_job_failure, after_release, per_job_fallback, Turn,
  going, stopped, release_turn, retry_turn, fallback_turn, dropped_if, with_chain,
}

-- How many jobs a result speaks of.
abbrev pub handled : CycleResult → ℕ
handled r = r.released_jobs + r.failed_jobs + r.dropped_jobs

-- From `m` to `m'` no release was counted and no pause.
abbrev pub Quiet : MetricsSink → MetricsSink → Type 0
Quiet m m' = (m'.released_count ≡ m.released_count) × (m'.pause_events ≡ m.pause_events)

-- From the result `r` and the metrics `m` to `r'` and `m'`, over `n` jobs, with no pause counted.
abbrev pub Counted : ℕ → CycleResult → MetricsSink → CycleResult → MetricsSink → Type 0
Counted n r m r' m' =
    (m'.released_count + r.released_jobs ≡ m.released_count + r'.released_jobs)
    × (m'.pause_events ≡ m.pause_events)
    × (handled r' ≤ handled r + n)

count_drop-Quiet : (v : Verdict) (m : MetricsSink) → Quiet m (count_drop v m)
count_drop-Quiet to_release m = (refl, refl)
count_drop-Quiet _ m = (refl, refl)

-- Of the result and the world of a round, whether it was the last or not.
abbrev pub Turned : {S W : Type 0} → (CycleResult → World S W → Type 0) → Turn S W → Type 0
Turned P (going r w) = P r w
Turned P (stopped r w) = P r w

module _ {E S W : Type 0} (store : StoreOps E S) (chain : ChainOps W) where
  pub partition-Quiet :
      (cfg : Config) (worker_addr : ℕ) (window now : ℤ) (ps : List PendingJob) (w : World S W)
      → Quiet w.metrics (partition store chain cfg worker_addr window now ps w).1.metrics
  unfolding partition
  partition-Quiet cfg worker_addr window now [] w = (refl, refl)
  partition-Quiet cfg worker_addr window now (p ∷ ps) w =
      elim (Result-cases (chain.get_job_state p.job_id w.chain).0) [
        | inr (e, failed) ↦ rw (failed, partition) (partition-Quiet cfg worker_addr window now ps _)
        | inl (info, answered) ↦
            rw (answered, partition)
              (let q =
                  count_drop-Quiet (verdict cfg worker_addr (seconds window) now p info)
                    w.metrics in
                let (r, e) = partition-Quiet cfg worker_addr window now ps _ in (r ∙ q.0, e ∙ q.1))
      ]

  record_per_job_failure_metrics :
      (cfg : Config) (id : ℕ) (now : ℤ) (w : World S W)
      → (record_per_job_failure store chain cfg id now w).metrics ≡ w.metrics
  unfolding record_per_job_failure
  record_per_job_failure_metrics cfg id now w = elim (Result-cases (store.pending w.store).0) [
    | inr (e, failed) ↦ rw (failed, record_per_job_failure) refl
    | inl (ps, read) ↦ rw (read, record_per_job_failure) refl
  ]

  release_turn-Counted :
      (cfg : Config) (now : ℤ) (id : ℕ) (r : CycleResult) (w : World S W)
      → Turned
          (λ r' w'. Counted 1 r w.metrics r' w'.metrics)
          (release_turn store chain cfg now id r w)
  unfolding release_turn after_release
  release_turn-Counted cfg now id r w = elim (Option-cases (chain.release_job id w.chain).0) [
    | inl paid ↦ rw (paid, release_turn) (omega arith, refl, omega arith)
    | inr (e, failed) ↦ elim (Bool-cases (is_pause_error (some e))) [
      | inl paused ↦ rw (failed, release_turn) (rw (paused, release_turn) (refl, refl, omega arith))
      | inr other ↦
          let same =
            record_per_job_failure_metrics cfg id now
              (with_chain store chain w (chain.release_job id w.chain).1) in
          rw (failed, release_turn)
            (rw (other, release_turn) (ground (arith, same), ground (arith, same), omega arith))
    ]
  ]

  dropped_if-Counted :
      (e : Option E) (r : CycleResult) (m : MetricsSink)
      → Counted 1 r m (dropped_if store chain e r) m
  dropped_if-Counted none r m = (refl, refl, omega arith)
  dropped_if-Counted (some e) r m = (refl, refl, omega arith)

  retry_turn-Counted :
      (cfg : Config) (now : ℤ) (id : ℕ) (a : Retry) (r : CycleResult) (w : World S W)
      → Turned
          (λ r' w'. Counted 1 r w.metrics r' w'.metrics)
          (retry_turn store chain cfg now id a r w)
  unfolding retry_turn
  retry_turn-Counted cfg now id drop r w =
      dropped_if-Counted (store.remove (id ∷ []) w.store).1 r w.metrics
  retry_turn-Counted cfg now id defer r w = (refl, refl, omega arith)
  retry_turn-Counted cfg now id try_release r w = release_turn-Counted cfg now id r w

  fallback_turn-Counted :
      (cfg : Config) (window now : ℤ) (id : ℕ) (r : CycleResult) (w : World S W)
      → Turned
          (λ r' w'. Counted 1 r w.metrics r' w'.metrics)
          (fallback_turn store chain cfg window now id r w)
  unfolding fallback_turn
  fallback_turn-Counted cfg window now id r w =
      elim (Result-cases (chain.get_job_state id w.chain).0) [
        | inr (e, failed) ↦
            let same =
              record_per_job_failure_metrics cfg id now
                (with_chain store chain w (chain.get_job_state id w.chain).1) in
            rw (failed, fallback_turn) (ground (arith, same), ground (arith, same), omega arith)
        | inl (info, answered) ↦
            rw (answered, fallback_turn)
              (retry_turn-Counted cfg now id (retry_of (seconds window) now info info.state) r
                (with_chain store chain w (chain.get_job_state id w.chain).1))
      ]

  pub per_job_fallback-Counted :
      (cfg : Config) (window now : ℤ) (ids : List ℕ) (r : CycleResult) (w : World S W)
      → let (r', w') = per_job_fallback store chain cfg window now ids r w in
        Counted (length ids) r w.metrics r' w'.metrics
  unfolding per_job_fallback
  per_job_fallback-Counted cfg window now [] r w = (refl, refl, omega arith)
  per_job_fallback-Counted cfg window now (id ∷ ids) r w =
      go (fallback_turn store chain cfg window now id r w) refl
        (fallback_turn-Counted cfg window now id r w)
        (λ r' w'. per_job_fallback-Counted cfg window now ids r' w')
    where
      go :
          (t : Turn S W)
          → fallback_turn store chain cfg window now id r w ≡ t
          → Turned (λ r' w'. Counted 1 r w.metrics r' w'.metrics) t
          → ((r' : CycleResult) (w' : World S W)
              → let (r'', w'') = per_job_fallback store chain cfg window now ids r' w' in
                Counted (length ids) r' w'.metrics r'' w''.metrics)
          → let (r'', w'') = per_job_fallback store chain cfg window now (id ∷ ids) r w in
            Counted (suc (length ids)) r w.metrics r'' w''.metrics
      go (stopped r' w') e h ih = rw (e, per_job_fallback) (h.0, h.1, omega arith)
      go (going r' w') e h ih =
          rw (e, per_job_fallback) (let (a, b, c) = ih r' w' in (omega arith, b ∙ h.1, omega arith))
