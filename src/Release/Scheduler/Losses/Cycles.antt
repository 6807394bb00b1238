-- ===== src/Release/Scheduler/Losses/Cycles.antt =====
-- A whole cycle takes no job out of the store that the chain has not answered to be gone.
use lightchain_worker.Base.{
  none, ok, In, ℕ, ◌≡◌, refl, ◌⊎◌, inl, inr, true, some, List, [], ◌∷◌, arith, ℤ, mem, length,
  Bool-cases, Option-cases, Result-cases,
}
use lightchain_worker.Release.Store.File.{PendingJob}
use lightchain_worker.Release.Chain.{HeadInfo, ChainError, ChainOps, StoreOps}
use lightchain_worker.Release.Scheduler.{
  Config, CycleResult, no_result, seconds, is_pause_error, collect_candidates, verdict, Verdict,
  to_release, to_keep, stale_dispute, unexpected_state, drop_foreign, drop_zero_fee, drop_terminal,
}
use lightchain_worker.Release.Scheduler.Cycle.{
  World, into_bins, Bins, partition, per_job_fallback, record_attempt, apply_pause_backoff,
  drop_terminal_jobs, after_revert, after_batch, send_batch, run_release_cycle,
}
use lightchain_worker.Release.Scheduler.Eligible.{is_drop, verdict-Hopeless}
use lightchain_worker.Release.Scheduler.Losses.{
  Answer, state_of, released_one, released_batch, answering, Gone, Keeps, Safe, Safe-heard,
  Safe-kept, remove-Safe,
}
use lightchain_worker.Release.Scheduler.Losses.Rounds.{SafeIn, per_job_fallback-Safe}

-- A job is among the dropped if it was before, or is the one that is dropped now.
dropped_now :
    (j id : ℕ) (v : Verdict) (b : Bins)
    → mem j (into_bins id v b).drop_ids ≡ true
    → ((is_drop v ≡ true) × (id ≡ j)) ⊎ (mem j b.drop_ids ≡ true)
unfolding into_bins
dropped_now j id to_release b h = inr h
dropped_now j id stale_dispute b h = inr h
dropped_now j id to_keep b h = inr h
dropped_now j id unexpected_state b h = inr h
dropped_now j id drop_foreign b h = ground arith
dropped_now j id drop_zero_fee b h = ground arith
dropped_now j id drop_terminal b h = ground arith

module _ {E S W : Type 0} (store : StoreOps E S) (chain : ChainOps W) (worker_addr : ℕ) where
  -- What the chain has answered stays noted.
  pub partition_heard :
      (cfg : Config) (window now : ℤ) (e : Answer) (ps : List PendingJob)
      (w : World S (W × List Answer))
      → In e w.chain.1
      → In e (partition store (answering chain) cfg worker_addr window now ps w).1.chain.1
  unfolding partition answering
  partition_heard cfg window now e [] w said = said
  partition_heard cfg window now e (p ∷ ps) w said =
      elim (Result-cases (chain.get_job_state p.job_id w.chain.0).0) [
        | inr (x, failed) ↦
            rw (failed, partition) (partition_heard cfg window now e ps _ (inr said))
        | inl (info, answered) ↦
            rw (answered, partition) (partition_heard cfg window now e ps _ (inr said))
      ]

  partition_store :
      (cfg : Config) (window now : ℤ) (ps : List PendingJob) (w : World S (W × List Answer))
      → (partition store (answering chain) cfg worker_addr window now ps w).1.store ≡ w.store
  unfolding partition answering
  partition_store cfg window now [] w = refl
  partition_store cfg window now (p ∷ ps) w =
      elim (Result-cases (chain.get_job_state p.job_id w.chain.0).0) [
        | inr (x, failed) ↦ rw (failed, partition) (partition_store cfg window now ps _)
        | inl (info, answered) ↦ rw (answered, partition) (partition_store cfg window now ps _)
      ]

module _ {E S W : Type 0} (store : StoreOps E S) (chain : ChainOps W) (worker_addr j : ℕ) where
  partition-Gone :
      (cfg : Config) (window now : ℤ) (ps : List PendingJob) (w : World S (W × List Answer))
      → Gone worker_addr j w.chain.1
      → Gone worker_addr j
          (partition store (answering chain) cfg worker_addr window now ps w).1.chain.1
  partition-Gone cfg window now ps w (inl (info, said, x)) = inl (
    info,
    partition_heard store chain worker_addr cfg window now (state_of j (ok info)) ps w said,
    x,
  )
  partition-Gone cfg window now ps w (inr (inl paid)) =
      inr (
        inl
          (partition_heard store chain worker_addr cfg window now (released_one j none) ps w paid))
  partition-Gone cfg window now ps w (inr (inr (ids, paid, x))) = inr (
      inr (
        ids,
        partition_heard store chain worker_addr cfg window now (released_batch ids none) ps w paid,
        x,
      ))

  -- The dropped jobs are gone.
  abbrev Justly : Bins × World S (W × List Answer) → Type 0
  Justly r = mem j r.0.drop_ids ≡ true → Gone worker_addr j r.1.chain.1

  partition-Justly :
      (cfg : Config) (window now : ℤ) (ps : List PendingJob) (w : World S (W × List Answer))
      → Justly (partition store (answering chain) cfg worker_addr window now ps w)
  unfolding partition answering
  partition-Justly cfg window now [] w = λ h. cc
  partition-Justly cfg window now (p ∷ ps) w =
      elim (Result-cases (chain.get_job_state p.job_id w.chain.0).0) [
        | inr (x, failed) ↦ rw (failed, partition) (partition-Justly cfg window now ps _)
        | inl (info, answered) ↦
            rw (answered, partition)
              (λ h.
                elim (dropped_now j p.job_id (verdict cfg worker_addr (seconds window) now p info) _
                  h) [
                    | inr before ↦ partition-Justly cfg window now ps _ before
                    | inl (dropped, same) ↦ partition-Gone cfg window now ps _ (
                        inl (
                          info,
                          inl (cc (same, answered)),
                          verdict-Hopeless cfg worker_addr (seconds window) now p info dropped,
                        ))
                  ])
      ]

module _ {E S W : Type 0} (store : StoreOps E S) (chain : ChainOps W) (worker_addr j : ℕ)
    (P : S → Type 0) (keeps : Keeps store j P) where
  abbrev SafeWorld : World S (W × List Answer) → Type 0
  SafeWorld w = SafeIn store chain worker_addr j P keeps w

  partition-Safe :
      (cfg : Config) (window now : ℤ) (ps : List PendingJob) (w : World S (W × List Answer))
      → SafeWorld w
      → SafeWorld (partition store (answering chain) cfg worker_addr window now ps w).1
  partition-Safe cfg window now ps w (inl has) =
      inl (rw (partition_store store chain worker_addr cfg window now ps w) has)
  partition-Safe cfg window now ps w (inr gone) =
      inr (partition-Gone store chain worker_addr j cfg window now ps w gone)

  drop_terminal_jobs-Safe :
      (ids : List ℕ) (r : CycleResult) (w : World S (W × List Answer))
      → (mem j ids ≡ true → Gone worker_addr j w.chain.1)
      → SafeWorld w
      → SafeWorld (drop_terminal_jobs store (answering chain) ids r w).1
  unfolding drop_terminal_jobs
  drop_terminal_jobs-Safe [] r w why safe = safe
  drop_terminal_jobs-Safe (id ∷ ids) r w why safe =
      let removed = remove-Safe store worker_addr j P keeps (id ∷ ids) w.store w.chain.1 why safe in
      elim (Option-cases (store.remove (id ∷ ids) w.store).1) [
        | inl fine ↦ rw (fine, drop_terminal_jobs) removed
        | inr (e, failed) ↦ rw (failed, drop_terminal_jobs) removed
      ]

  record_attempt-Safe :
      (now : ℤ) (w : World S (W × List Answer))
      → SafeWorld w
      → SafeWorld (record_attempt store (answering chain) now w)
  unfolding record_attempt
  record_attempt-Safe now w safe =
      Safe-kept worker_addr j P w.store (store.set_last_release_ts now w.store).0 w.chain.1
        (keeps.after_release w.store now) safe

  apply_pause_backoff-Safe :
      (cfg : Config) (now : ℤ) (r : CycleResult) (w : World S (W × List Answer))
      → SafeWorld w
      → SafeWorld (apply_pause_backoff store (answering chain) cfg now r w).1
  unfolding apply_pause_backoff
  apply_pause_backoff-Safe cfg now r w safe =
      Safe-kept worker_addr j P w.store _ w.chain.1 (keeps.after_gate w.store _) safe

  after_revert-Safe :
      (cfg : Config) (window now : ℤ) (batch : List ℕ) (e : ChainError) (r : CycleResult)
      (w : World S (W × List Answer))
      → SafeWorld w
      → SafeWorld (after_revert store (answering chain) cfg window now batch e r w).1
  unfolding after_revert
  after_revert-Safe cfg window now batch e r w safe = elim (Bool-cases (is_pause_error (some e))) [
    | inl paused ↦ rw (paused, after_revert) (apply_pause_backoff-Safe cfg now _ w safe)
    | inr other ↦
        let after = per_job_fallback store (answering chain) cfg window now batch no_result w in
        let safe' : SafeWorld after.1 =
          per_job_fallback-Safe store chain worker_addr j P keeps cfg window now batch no_result w
            safe in
        elim (Bool-cases after.0.paused) [
          | inl late ↦
              rw (other, after_revert)
                (rw (late, after_revert) (apply_pause_backoff-Safe cfg now _ after.1 safe'))
          | inr never ↦
              rw (other, after_revert)
                (rw (never, after_revert) (record_attempt-Safe now after.1 safe'))
        ]
  ]

  send_batch-Safe :
      (cfg : Config) (window now : ℤ) (batch : List ℕ) (r : CycleResult)
      (w : World S (W × List Answer))
      → SafeWorld w
      → SafeWorld (send_batch store (answering chain) cfg window now batch r w).1
  unfolding send_batch after_batch answering
  send_batch-Safe cfg window now [] r w safe = record_attempt-Safe now w safe
  send_batch-Safe cfg window now (id ∷ ids) r w safe =
      let e : Answer = released_batch (id ∷ ids) (chain.release_jobs (id ∷ ids) w.chain.0).0 in
      let heard : Safe worker_addr j P w.store (e ∷ w.chain.1) =
        Safe-heard worker_addr j P w.store e w.chain.1 safe in
      elim (Option-cases (chain.release_jobs (id ∷ ids) w.chain.0).0) [
        | inl landed ↦
            rw (landed, send_batch)
              (record_attempt-Safe now _ (
                remove-Safe store worker_addr j P keeps (id ∷ ids) w.store (e ∷ w.chain.1)
                  (λ h. inr (inr (id ∷ ids, inl (cc (landed)), h))) heard))
        | inr (x, failed) ↦
            rw (failed, send_batch) (after_revert-Safe cfg window now (id ∷ ids) x r _ heard)
      ]

  -- No cycle loses a job. If the store has a job when a cycle begins, it has the job when the cycle
  -- ends, or the chain has answered during the cycle that it has paid the job out, alone or in a
  -- batch, or that it never will pay it to this worker, whichever calls fail and wherever the cycle
  -- stops. It is so for any store whose other calls keep the job.
  pub run_release_cycle-Safe :
      (cfg : Config) (head : HeadInfo) (window : ℤ) (ps : List PendingJob)
      (w : World S (W × List Answer))
      → P w.store
      → let w' = (run_release_cycle store (answering chain) cfg worker_addr head window ps w).1 in
        P w'.store ⊎ Gone worker_addr j w'.chain.1
  unfolding run_release_cycle
  run_release_cycle-Safe cfg head window ps w has =
      go (collect_candidates cfg ps head.timestamp) refl
    where
      now : ℤ
      now = head.timestamp

      go :
          (c : List PendingJob)
          → collect_candidates cfg ps head.timestamp ≡ c
          → SafeWorld (run_release_cycle store (answering chain) cfg worker_addr head window ps w).1
      go [] e = rw (e, run_release_cycle) (record_attempt-Safe now w (inl has))
      go (p ∷ qs) e =
          let begin = record no_result { candidates = length (collect_candidates cfg ps now) } in
          let seen = partition store (answering chain) cfg worker_addr window now (p ∷ qs) w in
          let cleared =
            drop_terminal_jobs-Safe seen.0.drop_ids begin seen.1
              (partition-Justly store chain worker_addr j cfg window now (p ∷ qs) w)
              (partition-Safe cfg window now (p ∷ qs) w (inl has)) in
          rw (e, run_release_cycle)
            (send_batch-Safe cfg window now seen.0.release_batch _ _ cleared)
