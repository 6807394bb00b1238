-- ===== src/Release/Scheduler/Releases.antt =====
-- Every release that a cycle asks the chain for. What the chain answers is noted beside its state.
use lightchain_worker.Base.{
  In, ℕ, ◌≡◌, refl, inl, inr, some, List, [], ◌∷◌, ℤ, ok, All, Bool-cases, Option-cases,
  Result-cases, length,
}
use lightchain_worker.Release.Store.File.{PendingJob}
use lightchain_worker.Release.Chain.{JobStateInfo, HeadInfo, ChainError, ChainOps, StoreOps}
use lightchain_worker.Release.Scheduler.{
  Config, CycleResult, no_result, seconds, is_pause_error, collect_candidates, retry_of, Retry,
  try_release, defer, drop, verdict, Verdict, to_release, to_keep, stale_dispute, unexpected_state,
  drop_foreign, drop_zero_fee, drop_terminal, MetricsSink,
}
use lightchain_worker.Release.Scheduler.Cycle.{
  World, Bins, into_bins, Turn, going, stopped, partition, record_per_job_failure, after_release,
  release_turn, retry_turn, fallback_turn, per_job_fallback, record_attempt, apply_pause_backoff,
  drop_terminal_jobs, after_revert, after_batch, send_batch, run_release_cycle,
}
use lightchain_worker.Release.Scheduler.Eligible.{Payable, verdict-Payable, retry_of-Payable}
use lightchain_worker.Release.Scheduler.Counts.{Turned}
use lightchain_worker.Release.Scheduler.Losses.{
  Answer, state_of, released_one, released_batch, answering,
}
use lightchain_worker.Release.Scheduler.Losses.Cycles.{partition_heard}

-- The chain has said this of the job.
abbrev pub Said : (JobStateInfo → Type 0) → ℕ → List Answer → Type 0
Said P id log = (info : JobStateInfo) × In (state_of id (ok info)) log × P info

-- The last thing that the chain has said is this of the job.
abbrev pub SaidLast : (JobStateInfo → Type 0) → ℕ → List Answer → Type 0
SaidLast P id log =
    (info : JobStateInfo) × (before : List Answer) × (log ≡ state_of id (ok info) ∷ before) × P info

-- This worker's, and payable.
abbrev pub Due : ℕ → (window_sec now : ℤ) → JobStateInfo → Type 0
Due worker_addr window_sec now info = (info.worker ≡ worker_addr) × Payable window_sec now info

-- Whenever a batch was released, the chain had said before that each of its jobs is payable and
-- this worker's; and whenever a job was released alone, the answer right before was that it is
-- payable.
unfoldable pub Sound : ℕ → (window_sec now : ℤ) → List Answer → Type 0
Sound worker_addr window_sec now [] = Unit
Sound worker_addr window_sec now (state_of id answer ∷ log) = Sound worker_addr window_sec now log
Sound worker_addr window_sec now (released_one id failure ∷ log) =
    SaidLast (Payable window_sec now) id log × Sound worker_addr window_sec now log
Sound worker_addr window_sec now (released_batch ids failure ∷ log) =
    All (λ id. Said (Due worker_addr window_sec now) id log) ids
    × Sound worker_addr window_sec now log

batched :
    (P : ℕ → Type 0) (id : ℕ) (v : Verdict) (b : Bins)
    → (v ≡ to_release → P id)
    → All P b.release_batch
    → All P (into_bins id v b).release_batch
unfolding into_bins
batched P id to_release b new rest = (new refl, rest)
batched P id stale_dispute b new rest = rest
batched P id to_keep b new rest = rest
batched P id unexpected_state b new rest = rest
batched P id drop_foreign b new rest = rest
batched P id drop_zero_fee b new rest = rest
batched P id drop_terminal b new rest = rest

module _ {E S W : Type 0} (store : StoreOps E S) (chain : ChainOps W) (worker_addr : ℕ)
    (window now : ℤ) where
  abbrev SoundIn : World S (W × List Answer) → Type 0
  SoundIn w = Sound worker_addr (seconds window) now w.chain.1

  record_per_job_failure_chain :
      (cfg : Config) (id : ℕ) (w : World S (W × List Answer))
      → (record_per_job_failure store (answering chain) cfg id now w).chain ≡ w.chain
  unfolding record_per_job_failure
  record_per_job_failure_chain cfg id w = elim (Result-cases (store.pending w.store).0) [
    | inr (e, failed) ↦ rw (failed, record_per_job_failure) refl
    | inl (ps, read) ↦ rw (read, record_per_job_failure) refl
  ]

  release_turn-Sound :
      (cfg : Config) (id : ℕ) (r : CycleResult) (w : World S (W × List Answer))
      → SaidLast (Payable (seconds window) now) id w.chain.1
      → SoundIn w
      → Turned (λ r' w'. SoundIn w') (release_turn store (answering chain) cfg now id r w)
  unfolding release_turn after_release answering Sound
  release_turn-Sound cfg id r w said s = elim (Option-cases (chain.release_job id w.chain.0).0) [
    | inl paid ↦ rw (paid, release_turn) (said, s)
    | inr (e, failed) ↦ elim (Bool-cases (is_pause_error (some e))) [
      | inl paused ↦ rw (failed, release_turn) (rw (paused, release_turn) (said, s))
      | inr other ↦
          rw (failed, release_turn)
            (rw (other, release_turn) (rw (record_per_job_failure_chain cfg id _) (said, s)))
    ]
  ]

  retry_turn-Sound :
      (cfg : Config) (id : ℕ) (a : Retry) (r : CycleResult) (w : World S (W × List Answer))
      → (a ≡ try_release → SaidLast (Payable (seconds window) now) id w.chain.1)
      → SoundIn w
      → Turned (λ r' w'. SoundIn w') (retry_turn store (answering chain) cfg now id a r w)
  unfolding retry_turn
  retry_turn-Sound cfg id drop r w said s = s
  retry_turn-Sound cfg id defer r w said s = s
  retry_turn-Sound cfg id try_release r w said s = release_turn-Sound cfg id r w (said refl) s

  fallback_turn-Sound :
      (cfg : Config) (id : ℕ) (r : CycleResult) (w : World S (W × List Answer))
      → SoundIn w
      → Turned (λ r' w'. SoundIn w') (fallback_turn store (answering chain) cfg window now id r w)
  unfolding fallback_turn answering Sound
  fallback_turn-Sound cfg id r w s = elim (Result-cases (chain.get_job_state id w.chain.0).0) [
    | inr (e, failed) ↦ rw (failed, fallback_turn) (rw (record_per_job_failure_chain cfg id _) s)
    | inl (info, answered) ↦
        rw (answered, fallback_turn)
          (retry_turn-Sound cfg id (retry_of (seconds window) now info info.state) r _
            (λ h. (
              info,
              w.chain.1,
              cc (answered),
              retry_of-Payable (seconds window) now info info.state refl h,
            ))
            s)
  ]

  per_job_fallback-Sound :
      (cfg : Config) (ids : List ℕ) (r : CycleResult) (w : World S (W × List Answer))
      → SoundIn w
      → SoundIn (per_job_fallback store (answering chain) cfg window now ids r w).1
  unfolding per_job_fallback
  per_job_fallback-Sound cfg [] r w s = s
  per_job_fallback-Sound cfg (id ∷ ids) r w s =
      go (fallback_turn store (answering chain) cfg window now id r w) refl
        (fallback_turn-Sound cfg id r w s) (λ r' w' s'. per_job_fallback-Sound cfg ids r' w' s')
    where
      go :
          (t : Turn S (W × List Answer))
          → fallback_turn store (answering chain) cfg window now id r w ≡ t
          → Turned (λ r' w'. SoundIn w') t
          → ((r' : CycleResult) (w' : World S (W × List Answer))
              → SoundIn w'
              → SoundIn (per_job_fallback store (answering chain) cfg window now ids r' w').1)
          → SoundIn (per_job_fallback store (answering chain) cfg window now (id ∷ ids) r w).1
      go (stopped r' w') e s' rest = rw (e, per_job_fallback) s'
      go (going r' w') e s' rest = rw (e, per_job_fallback) (rest r' w' s')

  -- The jobs of the batch are due by what the chain has said.
  abbrev Prepared : Bins × World S (W × List Answer) → Type 0
  Prepared (bins, w) =
      All (λ id. Said (Due worker_addr (seconds window) now) id w.chain.1) bins.release_batch
      × SoundIn w

  partition-Prepared :
      (cfg : Config) (ps : List PendingJob) (w : World S (W × List Answer))
      → SoundIn w
      → Prepared (partition store (answering chain) cfg worker_addr window now ps w)
  unfolding partition answering Sound
  partition-Prepared cfg [] w s = (tt, s)
  partition-Prepared cfg (p ∷ ps) w s =
      elim (Result-cases (chain.get_job_state p.job_id w.chain.0).0) [
        | inr (e, failed) ↦ rw (failed, partition) (partition-Prepared cfg ps _ s)
        | inl (info, answered) ↦
            rw (answered, partition)
              (let (batch, sound) = partition-Prepared cfg ps _ s in
                (
                  batched _ p.job_id (verdict cfg worker_addr (seconds window) now p info) _
                      (λ h. (
                        info,
                        partition_heard store chain worker_addr cfg window now _ ps _
                            (inl (cc (answered))),
                        verdict-Payable cfg worker_addr (seconds window) now p info h,
                      ))
                      batch,
                  sound,
                ))
      ]

  -- Nothing is asked of the chain while jobs are dropped.
  dropped_chain :
      (Q : W × List Answer → Type 0) (ids : List ℕ) (r : CycleResult)
      (w : World S (W × List Answer))
      → Q w.chain
      → Q (drop_terminal_jobs store (answering chain) ids r w).1.chain
  unfolding drop_terminal_jobs
  dropped_chain Q [] r w s = s
  dropped_chain Q (id ∷ ids) r w s = elim (Option-cases (store.remove (id ∷ ids) w.store).1) [
    | inl fine ↦ rw (fine, drop_terminal_jobs) s
    | inr (e, failed) ↦ rw (failed, drop_terminal_jobs) s
  ]

  after_revert-Sound :
      (cfg : Config) (batch : List ℕ) (e : ChainError) (r : CycleResult)
      (w : World S (W × List Answer))
      → SoundIn w
      → SoundIn (after_revert store (answering chain) cfg window now batch e r w).1
  unfolding after_revert apply_pause_backoff record_attempt
  after_revert-Sound cfg batch e r w s = elim (Bool-cases (is_pause_error (some e))) [
    | inl paused ↦ rw (paused, after_revert) s
    | inr other ↦
        let after = per_job_fallback store (answering chain) cfg window now batch no_result w in
        let s' = per_job_fallback-Sound cfg batch no_result w s in
        elim (Bool-cases after.0.paused) [
          | inl late ↦ rw (other, after_revert) (rw (late, after_revert) s')
          | inr never ↦ rw (other, after_revert) (rw (never, after_revert) s')
        ]
  ]

  send_batch-Sound :
      (cfg : Config) (batch : List ℕ) (r : CycleResult) (w : World S (W × List Answer))
      → All (λ id. Said (Due worker_addr (seconds window) now) id w.chain.1) batch
      → SoundIn w
      → SoundIn (send_batch store (answering chain) cfg window now batch r w).1
  unfolding send_batch after_batch record_attempt answering Sound
  send_batch-Sound cfg [] r w due s = s
  send_batch-Sound cfg (id ∷ ids) r w due s =
      elim (Option-cases (chain.release_jobs (id ∷ ids) w.chain.0).0) [
        | inl landed ↦ rw (landed, send_batch) (due, s)
        | inr (e, failed) ↦
            rw (failed, send_batch) (after_revert-Sound cfg (id ∷ ids) e r _ (due, s))
      ]

module _ {E S W : Type 0} (store : StoreOps E S) (chain : ChainOps W) where
  -- A cycle sends a release transaction only for jobs that the chain has answered to be payable at
  -- the time of the cycle's head: in the batch those of which it has answered earlier in the cycle
  -- that they are payable and this worker's, and in the fallback only a job whose state was read
  -- again right before, as the chain's last answer ahead of the transaction, and is payable by it.
  pub run_release_cycle-Sound :
      (cfg : Config) (worker_addr : ℕ) (head : HeadInfo) (window : ℤ) (ps : List PendingJob) (s : S)
      (c : W) (m : MetricsSink)
      → let w' =
          (run_release_cycle store
            (answering chain)
            cfg
            worker_addr
            head
            window
            ps
            (record { store = s; chain = (c, []); metrics = m })).1 in
        Sound worker_addr (seconds window) head.timestamp w'.chain.1
  unfolding run_release_cycle record_attempt Sound
  run_release_cycle-Sound cfg worker_addr head window ps s c m =
      go (collect_candidates cfg ps head.timestamp) refl
    where
      now : ℤ
      now = head.timestamp

      w : World S (W × List Answer)
      w = record { store = s; chain = (c, []); metrics = m }

      go :
          (qs : List PendingJob)
          → collect_candidates cfg ps head.timestamp ≡ qs
          → Sound worker_addr
              (seconds window)
              head.timestamp
              (run_release_cycle store (answering chain) cfg worker_addr head window ps w).1.chain.1
      go [] e = rw (e, run_release_cycle) tt
      go (p ∷ qs) e =
          let begin = record no_result { candidates = length (collect_candidates cfg ps now) } in
          let seen = partition store (answering chain) cfg worker_addr window now (p ∷ qs) w in
          let (due, sound) =
            partition-Prepared store chain worker_addr window now cfg (p ∷ qs) w tt in
          rw (e, run_release_cycle)
            (send_batch-Sound store chain worker_addr window now cfg seen.0.release_batch _ _
              (dropped_chain store chain worker_addr window now
                (λ k.
                  All (λ id. Said (Due worker_addr (seconds window) now) id k.1)
                    seen.0.release_batch)
                seen.0.drop_ids begin seen.1 due)
              (dropped_chain store chain worker_addr window now
                (λ k. Sound worker_addr (seconds window) now k.1) seen.0.drop_ids begin seen.1
                sound))
