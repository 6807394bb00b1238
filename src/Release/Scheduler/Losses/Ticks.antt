-- ===== src/Release/Scheduler/Losses/Ticks.antt =====
-- The periodic probe takes no job out of the store that the chain has not answered to be gone.
use lightchain_worker.Base.{ℕ, ◌⊎◌, inl, inr, List, Result, ℤ, ltb_ℤ, Bool-cases, Result-cases}
use lightchain_worker.Release.Store.File.{PendingJob}
use lightchain_worker.Release.Chain.{HeadInfo, ChainError, ChainOps, StoreOps}
use lightchain_worker.Release.Scheduler.{Config}
use lightchain_worker.Release.Scheduler.Cycle.{World}
use lightchain_worker.Release.Scheduler.Trigger.{dispute_window, fires, decide, tick}
use lightchain_worker.Release.Scheduler.Losses.{Answer, answering, Gone, Keeps}
use lightchain_worker.Release.Scheduler.Losses.Cycles.{run_release_cycle-Safe}

module _ {E S W : Type 0} (store : StoreOps E S) (chain : ChainOps W) (worker_addr j : ℕ)
    (P : S → Type 0) (keeps : Keeps store j P) where
  -- As in a cycle.
  abbrev Spared : World S (W × List Answer) → Type 0
  Spared w = P w.store ⊎ Gone worker_addr j w.chain.1

  decide-Spared :
      (cfg : Config) (head : HeadInfo) (window : ℤ) (ps : List PendingJob)
      (w : World S (W × List Answer))
      → P w.store
      → Spared (decide store (answering chain) cfg worker_addr head window ps w)
  unfolding decide
  decide-Spared cfg head window ps w has =
      let read : P (store.get_last_release_ts w.store).1 = keeps.after_release_read w.store has in
      elim (Result-cases (store.get_last_release_ts w.store).0) [
        | inr (e, failed) ↦ rw (failed, decide) (inl read)
        | inl (last, answered) ↦ elim (Bool-cases (fires cfg head.timestamp last ps)) [
          | inr idle ↦ rw (answered, decide) (rw (idle, decide) (inl read))
          | inl due ↦
              rw (answered, decide)
                (rw (due, decide)
                  (run_release_cycle-Safe store chain worker_addr j P keeps cfg head window ps _
                    read))
        ]
      ]

  -- No probe loses a job that the store has: it is still there, or the chain has answered that it is
  -- gone.
  pub tick-Safe :
      (cfg : Config) (w : World S (W × List Answer))
      → P w.store
      → let w' = tick store (answering chain) cfg worker_addr w in
        P w'.store ⊎ Gone worker_addr j w'.chain.1
  unfolding tick
  tick-Safe cfg w has =
      let gated : P (store.get_next_allowed_attempt w.store).1 =
        keeps.after_gate_read w.store has in
      let looked : P (store.pending (store.get_next_allowed_attempt w.store).1).1 =
        keeps.after_pending (store.get_next_allowed_attempt w.store).1 gated in
      let heard : W × List Answer = ((answering chain).head w.chain).1 in
      let window_read : Result ChainError ℤ × (W × List Answer) =
        dispute_window store (answering chain) cfg heard in
      let jobs_read : Result E (List PendingJob) × S =
        store.pending (store.get_next_allowed_attempt w.store).1 in
      elim (Result-cases ((answering chain).head w.chain).0) [
        | inr (e, failed) ↦ rw (failed, tick) (inl has)
        | inl (head, seen) ↦ elim (Result-cases (store.get_next_allowed_attempt w.store).0) [
          | inr (e, failed) ↦ rw (seen, tick) (rw (failed, tick) (inl gated))
          | inl (next, read) ↦ elim (Bool-cases (ltb_ℤ head.timestamp next)) [
            | inl early ↦ rw (seen, tick) (rw (read, tick) (rw (early, tick) (inl gated)))
            | inr due ↦ elim (Result-cases window_read.0) [
              | inr (e, failed) ↦
                  rw (seen, tick) (rw (read, tick) (rw (due, tick) (rw (failed, tick) (inl gated))))
              | inl (window, open') ↦
                  elim (Result-cases (store.pending (store.get_next_allowed_attempt w.store).1).0) [
                    | inr (e, failed) ↦
                        rw (seen, tick)
                          (rw (read, tick)
                            (rw (due, tick) (rw (open', tick) (rw (failed, tick) (inl looked)))))
                    | inl (ps, listed) ↦
                        rw (seen, tick)
                          (rw (read, tick)
                            (rw (due, tick)
                              (rw (open', tick)
                                (rw (listed, tick)
                                  (decide-Spared cfg head window ps
                                    (record w { chain = window_read.1; store = jobs_read.1 })
                                    looked)))))
                  ]
            ]
          ]
        ]
      ]
