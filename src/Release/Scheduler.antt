-- ===== src/Release/Scheduler.antt =====
-- internal/release/scheduler.go, its pure parts: the outcome of a cycle, the metrics, which
-- pending jobs are looked at, and what an on-chain state means for a job.
pub mod Cycle
pub mod Candidates
pub mod Eligible
pub mod Partition
pub mod Trigger
pub mod Pause
pub mod Counts
pub mod Account
pub mod Releases
pub mod Losses
use lightchain_worker.Base.{
  ℕ, zero, suc, ◌+◌, Bool, true, false, ◌||◌, Option, none, some, List, [], ◌∷◌, ℤ, pos, add_i64,
  add_u64, sub_i64, mul_i64, quot, ltb, ltb_ℤ, leb_ℤ, ◌==◌, length, if◌then◌else◌,
}
use lightchain_worker.Base.Bytes.{Bytes, codes, contains}
use lightchain_worker.Release.Store.File.{PendingJob}
use lightchain_worker.Release.Chain.{
  JobState, JobStateInfo, ChainError, submitted, acknowledged, completed, timed_out, disputed,
  resolved, released, unknown_state,
}

-- The fields of release.Config that the scheduler reads. Durations are int64 nanoseconds.
pub record Config : Type 0 where
  pub interval : ℤ
  pub batch_threshold : ℤ  -- int
  pub max_batch_size : ℤ  -- int
  pub backoff_base : ℤ
  pub backoff_max : ℤ
  pub paused_cycle_backoff : ℤ
  pub stale_dispute_warn_after : ℤ
  pub dispute_window_override : ℤ

-- Counts are of jobs of one batch or one file.
pub record CycleResult : Type 0 where
  pub candidates : ℕ
  pub released_jobs : ℕ
  pub failed_jobs : ℕ
  pub dropped_jobs : ℕ
  pub paused : Bool
  pub batch_reverted : Bool
  pub backoff_active : Bool
  pub next_allowed_at : ℤ

abbrev pub no_result : CycleResult
no_result = record {
  candidates = 0;
  released_jobs = 0;
  failed_jobs = 0;
  dropped_jobs = 0;
  paused = false;
  batch_reverted = false;
  backoff_active = false;
  next_allowed_at = pos 0;
}

-- What the metrics sink has been told.
pub record MetricsSink : Type 0 where
  pub pending_gauge : ℕ
  pub released_count : ℕ
  pub failed_count : ℕ
  pub dropped_foreign : ℕ
  pub dropped_zero_fee : ℕ
  pub dropped_terminal : ℕ
  pub pause_events : ℕ
  pub last_success : ℤ

-- `int64(d / time.Second)`
abbrev pub seconds : ℤ → ℤ
seconds d = quot d 1000000000

unfoldable pub is_pause_error : Option ChainError → Bool
is_pause_error none = false
is_pause_error (some e) =
    if e.contract_paused then true else contains e.lower_text (codes "pausable: paused")

unfoldable pub count_ready_for_state_check : List PendingJob → ℤ → ℕ
count_ready_for_state_check [] now = 0
count_ready_for_state_check (p ∷ ps) now =
    let n = count_ready_for_state_check ps now in if ltb_ℤ now p.backoff_until then n else suc n

-- The loop of `collectCandidates`; `taken` is the length of `out`.
unfoldable pub collect_from : (max_batch_size now : ℤ) → ℕ → List PendingJob → List PendingJob
collect_from max_batch_size now taken [] = []
collect_from max_batch_size now taken (p ∷ ps) = elim (ltb_ℤ now p.backoff_until) [
  | true ↦ collect_from max_batch_size now taken ps
  | false ↦ elim (leb_ℤ max_batch_size (pos (suc taken))) [
    | true ↦ p ∷ []
    | false ↦ p ∷ collect_from max_batch_size now (suc taken) ps
  ]
]

unfoldable pub collect_candidates : Config → List PendingJob → ℤ → List PendingJob
unfolding collect_from
collect_candidates cfg pending now = collect_from cfg.max_batch_size now 0 pending

-- `info.EscrowedFee != nil && info.EscrowedFee.Sign() > 0`
abbrev pub has_escrow : Option ℤ → Bool
has_escrow none = false
has_escrow (some fee) = ltb_ℤ (pos 0) fee

-- `info.CompletedAt + windowSec <= chainNow`
unfoldable pub window_elapsed : (window_sec now : ℤ) → JobStateInfo → Bool
window_elapsed window_sec now info = leb_ℤ (add_i64 info.completed_at window_sec) now

-- What one candidate of `partition` comes to.
pub data Verdict : Type 0 where
  to_release to_keep stale_dispute unexpected_state : Verdict
  drop_foreign drop_zero_fee drop_terminal : Verdict

unfoldable pub is_stale_dispute : Config → ℤ → PendingJob → Bool
is_stale_dispute cfg now p =
    if ltb_ℤ (pos 0) cfg.stale_dispute_warn_after
    then ltb_ℤ cfg.stale_dispute_warn_after (mul_i64 (sub_i64 now p.completed_at) (pos 1000000000))
    else false

-- The `switch` of `partition`.
unfoldable pub state_verdict :
    Config → (window_sec now : ℤ) → PendingJob → JobStateInfo → JobState → Verdict
unfolding window_elapsed is_stale_dispute
state_verdict cfg window_sec now p info completed =
    if window_elapsed window_sec now info then to_release else to_keep
state_verdict cfg window_sec now p info resolved =
    if has_escrow info.escrowed_fee then to_release else drop_zero_fee
state_verdict cfg window_sec now p info released = drop_terminal
state_verdict cfg window_sec now p info timed_out = drop_terminal
state_verdict cfg window_sec now p info disputed =
    if is_stale_dispute cfg now p then stale_dispute else to_keep
state_verdict cfg window_sec now p info _ = unexpected_state

unfoldable pub verdict : Config → ℕ → (window_sec now : ℤ) → PendingJob → JobStateInfo → Verdict
unfolding state_verdict
verdict cfg worker_addr window_sec now p info =
    if info.worker == worker_addr
    then state_verdict cfg window_sec now p info info.state
    else drop_foreign

-- The `switch` of `perJobFallback`, on the state read again.
pub data Retry : Type 0 where
  try_release defer drop : Retry

unfoldable pub retry_of : (window_sec now : ℤ) → JobStateInfo → JobState → Retry
unfolding window_elapsed
retry_of window_sec now info completed =
    if window_elapsed window_sec now info then try_release else defer
retry_of window_sec now info resolved = if has_escrow info.escrowed_fee then try_release else defer
retry_of window_sec now info released = drop
retry_of window_sec now info timed_out = drop
retry_of window_sec now info _ = defer
