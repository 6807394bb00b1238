-- ===== src/Release/Scheduler/Partition.antt =====
-- The bins of `partition` are justified by what the chain has answered.
use lightchain_worker.Base.{
  ℕ, suc, ◌+◌, ◌≤◌, ◌≡◌, refl, inl, inr, List, [], ◌∷◌, arith, ok, ℤ, length, All, Result-cases,
}
use lightchain_worker.Release.Store.File.{PendingJob}
use lightchain_worker.Release.Chain.{JobStateInfo, ChainOps, StoreOps}
use lightchain_worker.Release.Scheduler.{
  Config, seconds, verdict, Verdict, to_release, to_keep, stale_dispute, unexpected_state,
  drop_foreign, drop_zero_fee, drop_terminal,
}
use lightchain_worker.Release.Scheduler.Cycle.{World, Bins, into_bins, partition}
use lightchain_worker.Release.Scheduler.Eligible.{
  Payable, Hopeless, Reported, verdict-Payable, verdict-Hopeless,
}

-- What the bins of a list of `n` candidates must satisfy.
abbrev pub Justified : {W : Type 0} → ChainOps W → ℕ → (window_sec now : ℤ) → ℕ → Bins → Type 0
Justified chain worker_addr window_sec now n b =
    All (Reported chain (λ info. (info.worker ≡ worker_addr) × Payable window_sec now info))
      b.release_batch
    × All (Reported chain (Hopeless worker_addr)) b.drop_ids
    × (length b.release_batch + length b.drop_ids + length b.stale_disputed ≤ n)

module _ {W : Type 0} (chain : ChainOps W) (cfg : Config) (worker_addr : ℕ)
    (window_sec now : ℤ) where
  into_bins-Justified :
      (p : PendingJob) (n : ℕ) (b : Bins) (c : W) (info : JobStateInfo) (v : Verdict)
      → (chain.get_job_state p.job_id c).0 ≡ ok info
      → verdict cfg worker_addr window_sec now p info ≡ v
      → Justified chain worker_addr window_sec now n b
      → Justified chain worker_addr window_sec now (suc n) (into_bins p.job_id v b)
  unfolding into_bins
  into_bins-Justified p n b c info to_release e h (r, d, k) =
      (((c, info, e, verdict-Payable cfg worker_addr window_sec now p info h), r), d, omega arith)
  into_bins-Justified p n b c info drop_foreign e h (r, d, k) = (
    r,
    ((c, info, e, verdict-Hopeless cfg worker_addr window_sec now p info (ground arith)), d),
    omega arith,
  )
  into_bins-Justified p n b c info drop_zero_fee e h (r, d, k) = (
    r,
    ((c, info, e, verdict-Hopeless cfg worker_addr window_sec now p info (ground arith)), d),
    omega arith,
  )
  into_bins-Justified p n b c info drop_terminal e h (r, d, k) = (
    r,
    ((c, info, e, verdict-Hopeless cfg worker_addr window_sec now p info (ground arith)), d),
    omega arith,
  )
  into_bins-Justified p n b c info stale_dispute e h (r, d, k) = (r, d, omega arith)
  into_bins-Justified p n b c info to_keep e h (r, d, k) = (r, d, omega arith)
  into_bins-Justified p n b c info unexpected_state e h (r, d, k) = (r, d, omega arith)

module _ {E S W : Type 0} (store : StoreOps E S) (chain : ChainOps W) where
  -- Each job of the batch is one that the chain has reported as this worker's and payable; each job
  -- dropped is one that it has reported as hopeless; and the bins hold no more jobs than there
  -- were candidates.
  pub partition-Justified :
      (cfg : Config) (worker_addr : ℕ) (window now : ℤ) (ps : List PendingJob) (w : World S W)
      → Justified chain worker_addr
          (seconds window)
          now
          (length ps)
          (partition store chain cfg worker_addr window now ps w).0
  unfolding partition
  partition-Justified cfg worker_addr window now [] w = (tt, tt, omega arith)
  partition-Justified cfg worker_addr window now (p ∷ ps) w =
      elim (Result-cases (chain.get_job_state p.job_id w.chain).0) [
        | inr (e, failed) ↦
            rw (failed, partition)
              (let (r, d, k) = partition-Justified cfg worker_addr window now ps _ in
                (r, d, omega arith))
        | inl (info, answered) ↦
            rw (answered, partition)
              (into_bins-Justified chain cfg worker_addr (seconds window) now p (length ps) _
                w.chain info (verdict cfg worker_addr (seconds window) now p info) answered refl
                (partition-Justified cfg worker_addr window now ps _))
      ]
