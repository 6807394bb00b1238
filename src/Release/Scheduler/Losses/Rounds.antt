-- ===== src/Release/Scheduler/Losses/Rounds.antt =====
-- The rounds of the fallback.
use lightchain_worker.Base.{
  ℕ, ◌≡◌, refl, inl, inr, true, some, List, [], ◌∷◌, arith, ℤ, mem, Bool-cases, Option-cases,
  Result-cases,
}
use lightchain_worker.Release.Chain.{
  JobState, JobStateInfo, ChainOps, StoreOps, released, timed_out, completed, resolved,
}
use lightchain_worker.Release.Scheduler.{
  Config, CycleResult, seconds, is_pause_error, retry_of, Retry, try_release, defer, drop,
}
use lightchain_worker.Release.Scheduler.Cycle.{
  World, Turn, going, stopped, record_per_job_failure, after_release, release_turn, retry_turn,
  fallback_turn, per_job_fallback,
}
use lightchain_worker.Release.Scheduler.Eligible.{Hopeless}
use lightchain_worker.Release.Scheduler.Counts.{Turned}
use lightchain_worker.Release.Scheduler.Losses.{
  Answer, state_of, released_one, answering, Gone, Keeps, Safe, Safe-heard, Safe-kept, remove-Safe,
}

-- The fallback drops a job only if it is settled or timed out by the state read again.
retry_of-Hopeless :
    (worker_addr : ℕ) (window_sec now : ℤ) (info : JobStateInfo) (s : JobState)
    → info.state ≡ s
    → retry_of window_sec now info s ≡ drop
    → Hopeless worker_addr info
unfolding retry_of
retry_of-Hopeless worker_addr window_sec now info released e h = inr (inl e)
retry_of-Hopeless worker_addr window_sec now info timed_out e h = inr (inr (inl e))
retry_of-Hopeless worker_addr window_sec now info completed e h = absurd (ground arith)
retry_of-Hopeless worker_addr window_sec now info resolved e h = absurd (ground arith)
retry_of-Hopeless worker_addr window_sec now info s e h = absurd (ground arith)

mem_only : (j id : ℕ) → mem j (id ∷ []) ≡ true → id ≡ j
mem_only j id h = ground arith

module _ {E S W : Type 0} (store : StoreOps E S) (chain : ChainOps W) (worker_addr j : ℕ)
    (P : S → Type 0) (keeps : Keeps store j P) where
  -- The store of a world has the job, or the job is gone.
  abbrev pub SafeIn : World S (W × List Answer) → Type 0
  SafeIn w = Safe worker_addr j P w.store w.chain.1

  record_per_job_failure-Safe :
      (cfg : Config) (id : ℕ) (now : ℤ) (w : World S (W × List Answer))
      → SafeIn w
      → SafeIn (record_per_job_failure store (answering chain) cfg id now w)
  unfolding record_per_job_failure
  record_per_job_failure-Safe cfg id now w safe =
      let read : Safe worker_addr j P (store.pending w.store).1 w.chain.1 =
        Safe-kept worker_addr j P w.store (store.pending w.store).1 w.chain.1
          (keeps.after_pending w.store) safe in
      elim (Result-cases (store.pending w.store).0) [
        | inr (e, failed) ↦ rw (failed, record_per_job_failure) read
        | inl (ps, answered) ↦
            rw (answered, record_per_job_failure)
              (Safe-kept worker_addr j P (store.pending w.store).1 _ w.chain.1
                (keeps.after_failure (store.pending w.store).1 id _) read)
      ]

  release_turn-Safe :
      (cfg : Config) (now : ℤ) (id : ℕ) (r : CycleResult) (w : World S (W × List Answer))
      → SafeIn w
      → Turned (λ r' w'. SafeIn w') (release_turn store (answering chain) cfg now id r w)
  unfolding release_turn after_release answering
  release_turn-Safe cfg now id r w safe =
      let e : Answer = released_one id (chain.release_job id w.chain.0).0 in
      let heard : Safe worker_addr j P w.store (e ∷ w.chain.1) =
        Safe-heard worker_addr j P w.store e w.chain.1 safe in
      elim (Option-cases (chain.release_job id w.chain.0).0) [
        | inl paid ↦
            rw (paid, release_turn)
              (remove-Safe store worker_addr j P keeps (id ∷ []) w.store (e ∷ w.chain.1)
                (λ h. inr (inl (inl (cc (mem_only j id h, paid))))) heard)
        | inr (x, failed) ↦ elim (Bool-cases (is_pause_error (some x))) [
          | inl paused ↦ rw (failed, release_turn) (rw (paused, release_turn) heard)
          | inr other ↦
              rw (failed, release_turn)
                (rw (other, release_turn) (record_per_job_failure-Safe cfg id now _ heard))
        ]
      ]

  retry_turn-Safe :
      (cfg : Config) (now : ℤ) (id : ℕ) (a : Retry) (r : CycleResult)
      (w : World S (W × List Answer))
      → (a ≡ drop → id ≡ j → Gone worker_addr j w.chain.1)
      → SafeIn w
      → Turned (λ r' w'. SafeIn w') (retry_turn store (answering chain) cfg now id a r w)
  unfolding retry_turn
  retry_turn-Safe cfg now id drop r w why safe =
      remove-Safe store worker_addr j P keeps (id ∷ []) w.store w.chain.1
        (λ h. why refl (mem_only j id h)) safe
  retry_turn-Safe cfg now id defer r w why safe = safe
  retry_turn-Safe cfg now id try_release r w why safe = release_turn-Safe cfg now id r w safe

  fallback_turn-Safe :
      (cfg : Config) (window now : ℤ) (id : ℕ) (r : CycleResult) (w : World S (W × List Answer))
      → SafeIn w
      → Turned (λ r' w'. SafeIn w') (fallback_turn store (answering chain) cfg window now id r w)
  unfolding fallback_turn answering
  fallback_turn-Safe cfg window now id r w safe =
      let e : Answer = state_of id (chain.get_job_state id w.chain.0).0 in
      let heard : Safe worker_addr j P w.store (e ∷ w.chain.1) =
        Safe-heard worker_addr j P w.store e w.chain.1 safe in
      elim (Result-cases (chain.get_job_state id w.chain.0).0) [
        | inr (x, failed) ↦
            rw (failed, fallback_turn) (record_per_job_failure-Safe cfg id now _ heard)
        | inl (info, answered) ↦
            rw (answered, fallback_turn)
              (retry_turn-Safe cfg now id (retry_of (seconds window) now info info.state) r _
                (λ h same. inl (
                  info,
                  inl (cc (same, answered)),
                  retry_of-Hopeless worker_addr (seconds window) now info info.state refl h,
                ))
                heard)
      ]

  pub per_job_fallback-Safe :
      (cfg : Config) (window now : ℤ) (ids : List ℕ) (r : CycleResult)
      (w : World S (W × List Answer))
      → SafeIn w
      → SafeIn (per_job_fallback store (answering chain) cfg window now ids r w).1
  unfolding per_job_fallback
  per_job_fallback-Safe cfg window now [] r w safe = safe
  per_job_fallback-Safe cfg window now (id ∷ ids) r w safe =
      go (fallback_turn store (answering chain) cfg window now id r w) refl
        (fallback_turn-Safe cfg window now id r w safe)
        (λ r' w' safe'. per_job_fallback-Safe cfg window now ids r' w' safe')
    where
      go :
          (t : Turn S (W × List Answer))
          → fallback_turn store (answering chain) cfg window now id r w ≡ t
          → Turned (λ r' w'. SafeIn w') t
          → ((r' : CycleResult) (w' : World S (W × List Answer))
              → SafeIn w'
              → SafeIn (per_job_fallback store (answering chain) cfg window now ids r' w').1)
          → SafeIn (per_job_fallback store (answering chain) cfg window now (id ∷ ids) r w).1
      go (stopped r' w') e safe' rest = rw (e, per_job_fallback) safe'
      go (going r' w') e safe' rest = rw (e, per_job_fallback) (rest r' w' safe')
