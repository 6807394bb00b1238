-- ===== src/Release/Scheduler/Eligible.antt =====
-- What the chain must have said of a job before it is released, or forgotten.
use lightchain_worker.Base.{
  ℕ, ◌≡◌, ◌≢◌, refl, ◌⊎◌, inl, inr, Bool, true, false, arith, ok, ℤ, add_i64, ◌≤ℤ◌, ◌==◌,
  Bool-cases,
}
use lightchain_worker.Release.Store.File.{PendingJob}
use lightchain_worker.Release.Chain.{
  JobState, JobStateInfo, ChainOps, completed, timed_out, resolved, released,
}
use lightchain_worker.Release.Scheduler.{
  Config, has_escrow, verdict, state_verdict, Verdict, to_release, drop_foreign, drop_zero_fee,
  drop_terminal, retry_of, try_release,
}

-- Completed with the dispute window over, or resolved with the fee still in escrow.
abbrev pub Payable : (window_sec now : ℤ) → JobStateInfo → Type 0
Payable window_sec now info =
    ((info.state ≡ completed) × (add_i64 info.completed_at window_sec ≤ℤ now))
    ⊎ ((info.state ≡ resolved) × (has_escrow info.escrowed_fee ≡ true))

-- Another worker's, settled, timed out, or resolved with nothing in escrow.
abbrev pub Hopeless : ℕ → JobStateInfo → Type 0
Hopeless worker_addr info =
    (info.worker ≢ worker_addr)
    ⊎ (info.state ≡ released)
    ⊎ (info.state ≡ timed_out)
    ⊎ ((info.state ≡ resolved) × (has_escrow info.escrowed_fee ≡ false))

abbrev pub is_drop : Verdict → Bool
is_drop drop_foreign = true
is_drop drop_zero_fee = true
is_drop drop_terminal = true
is_drop _ = false

state_verdict-Payable :
    (cfg : Config) (window_sec now : ℤ) (p : PendingJob) (info : JobStateInfo) (s : JobState)
    → info.state ≡ s
    → state_verdict cfg window_sec now p info s ≡ to_release
    → Payable window_sec now info
unfolding state_verdict
state_verdict-Payable cfg window_sec now p info completed e h = inl (e, ground arith)
state_verdict-Payable cfg window_sec now p info resolved e h = inr (e, ground arith)
state_verdict-Payable cfg window_sec now p info s e h = absurd (ground arith)

state_verdict-Hopeless :
    (cfg : Config) (window_sec now : ℤ) (worker_addr : ℕ) (p : PendingJob) (info : JobStateInfo)
    (s : JobState)
    → info.state ≡ s
    → is_drop (state_verdict cfg window_sec now p info s) ≡ true
    → Hopeless worker_addr info
unfolding state_verdict
state_verdict-Hopeless cfg window_sec now worker_addr p info resolved e h = ground arith
state_verdict-Hopeless cfg window_sec now worker_addr p info s e h = ground arith

-- `partition` puts a job into the batch only if it is this worker's and payable.
pub verdict-Payable :
    (cfg : Config) (worker_addr : ℕ) (window_sec now : ℤ) (p : PendingJob) (info : JobStateInfo)
    → verdict cfg worker_addr window_sec now p info ≡ to_release
    → (info.worker ≡ worker_addr) × Payable window_sec now info
unfolding verdict
verdict-Payable cfg worker_addr window_sec now p info h =
    elim (Bool-cases (info.worker == worker_addr)) [
      | inl mine ↦ (
        ground arith,
        state_verdict-Payable cfg window_sec now p info info.state refl (ground arith),
      )
      | inr foreign ↦ absurd (ground arith)
    ]

pub verdict-Hopeless :
    (cfg : Config) (worker_addr : ℕ) (window_sec now : ℤ) (p : PendingJob) (info : JobStateInfo)
    → is_drop (verdict cfg worker_addr window_sec now p info) ≡ true
    → Hopeless worker_addr info
unfolding verdict
verdict-Hopeless cfg worker_addr window_sec now p info h =
    elim (Bool-cases (info.worker == worker_addr)) [
      | inl mine ↦
          state_verdict-Hopeless cfg window_sec now worker_addr p info info.state refl
            (ground arith)
      | inr foreign ↦ inl (ground arith)
    ]

-- The fallback retries a job only if it is payable by the state read again.
pub retry_of-Payable :
    (window_sec now : ℤ) (info : JobStateInfo) (s : JobState)
    → info.state ≡ s
    → retry_of window_sec now info s ≡ try_release
    → Payable window_sec now info
unfolding retry_of
retry_of-Payable window_sec now info completed e h = inl (e, ground arith)
retry_of-Payable window_sec now info resolved e h = inr (e, ground arith)
retry_of-Payable window_sec now info s e h = absurd (ground arith)

-- The chain has said this of a job, in some state of it.
abbrev pub Reported : {W : Type 0} → ChainOps W → (JobStateInfo → Type 0) → ℕ → Type 0
Reported {W} chain P id =
    (c : W) × (info : JobStateInfo) × ((chain.get_job_state id c).0 ≡ ok info) × P info
