-- ===== src/Release/Scheduler/Trigger.antt =====
-- internal/release/scheduler.go: when a cycle runs. `tick` is the periodic probe, `run_once` the
-- command line's `release`.
use lightchain_worker.Base.{
  ℕ, Bool, true, false, not, ◌&&◌, List, Result, ok, err, ℤ, pos, sub_i64, ltb_ℤ, leb_ℤ, length,
  if◌then◌else◌,
}
use lightchain_worker.Release.Store.File.{PendingJob}
use lightchain_worker.Release.Chain.{HeadInfo, ChainError, ChainOps, StoreOps}
use lightchain_worker.Release.Scheduler.{
  Config, CycleResult, no_result, seconds, count_ready_for_state_check,
}
use lightchain_worker.Release.Scheduler.Cycle.{World, run_release_cycle}

-- Why a cycle did not run: the read that failed.
pub data Unread (E : Type 0) : Type 0 where
  no_head no_window : ChainError → Unread E
  no_gate no_pending : E → Unread E

-- `dueByTime`
unfoldable pub due_by_time : Config → (now last_release_ts : ℤ) → Bool
due_by_time cfg now last_release_ts = leb_ℤ (seconds cfg.interval) (sub_i64 now last_release_ts)

-- `!(readyNow < s.cfg.BatchThreshold && !dueByTime)`
unfoldable pub fires : Config → (now last_release_ts : ℤ) → List PendingJob → Bool
unfolding due_by_time
fires cfg now last_release_ts pending = not (
    ltb_ℤ (pos (count_ready_for_state_check pending now)) cfg.batch_threshold
    && not (due_by_time cfg now last_release_ts))

module _ {E S W : Type 0} (store : StoreOps E S) (chain : ChainOps W) where
  -- The override is meant for development.
  unfoldable pub dispute_window : Config → W → Result ChainError ℤ × W
  dispute_window cfg c =
      if ltb_ℤ (pos 0) cfg.dispute_window_override
      then (ok cfg.dispute_window_override, c)
      else chain.get_dispute_window c

  -- The last reads of `tick`, and the decision.
  unfoldable pub decide : Config → ℕ → HeadInfo → ℤ → List PendingJob → World S W → World S W
  decide cfg worker_addr head window pending w =
      let w' = record w { metrics = record (w.metrics) { pending_gauge = length pending } } in
      let (last, s) = store.get_last_release_ts w'.store in
      elim last [
        | err e ↦ record w' { store = s }
        | ok last_release_ts ↦ elim (fires cfg head.timestamp last_release_ts pending) [
          | false ↦ record w' { store = s }
          | true ↦
              (run_release_cycle store chain cfg worker_addr head window pending
                (record w' { store = s })).1
        ]
      ]

  unfoldable pub tick : Config → ℕ → World S W → World S W
  unfolding decide
  tick cfg worker_addr w =
      let (answer, c) = chain.head w.chain in
      elim answer [
        | err e ↦ record w { chain = c }
        | ok head ↦
            let (gate, s) = store.get_next_allowed_attempt w.store in
            elim gate [
              | err e ↦ record w { chain = c; store = s }
              | ok next_allowed ↦ elim (ltb_ℤ head.timestamp next_allowed) [
                | true ↦ record w { chain = c; store = s }
                | false ↦
                    let (window, c') = dispute_window cfg c in
                    elim window [
                      | err e ↦ record w { chain = c'; store = s }
                      | ok window ↦
                          let (jobs, s') = store.pending s in
                          elim jobs [
                            | err e ↦ record w { chain = c'; store = s' }
                            | ok pending ↦
                                decide cfg worker_addr head window pending
                                  (record w { chain = c'; store = s' })
                          ]
                    ]
              ]
            ]
      ]

  unfoldable pub run_once : Config → ℕ → World S W → Result (Unread E) CycleResult × World S W
  run_once cfg worker_addr w =
      let (answer, c) = chain.head w.chain in
      elim answer [
        | err e ↦ (err (no_head e), record w { chain = c })
        | ok head ↦
            let (gate, s) = store.get_next_allowed_attempt w.store in
            elim gate [
              | err e ↦ (err (no_gate e), record w { chain = c; store = s })
              | ok next_allowed ↦ elim (ltb_ℤ head.timestamp next_allowed) [
                | true ↦ (
                  ok (record no_result { backoff_active = true; next_allowed_at = next_allowed }),
                  record w { chain = c; store = s },
                )
                | false ↦
                    let (window, c') = dispute_window cfg c in
                    elim window [
                      | err e ↦ (err (no_window e), record w { chain = c'; store = s })
                      | ok window ↦
                          let (jobs, s') = store.pending s in
                          elim jobs [
                            | err e ↦ (err (no_pending e), record w { chain = c'; store = s' })
                            | ok pending ↦
                                let (result, w') =
                                  run_release_cycle store chain cfg worker_addr head window pending
                                    (record w { chain = c'; store = s' }) in
                                (ok result, w')
                          ]
                    ]
              ]
            ]
      ]
