-- ===== src/Release/Chain.antt =====
-- What the scheduler and the reconciler are given: the chain (`schedulerChain` and
-- `reconcilerChain`, implemented over RPC by internal/chain), and the store's interface. Both
-- keep a state of their own, passed through every call: another process may act in between.
use lightchain_worker.Base.{ℕ, Bool, Option, List, Result, ℤ}
use lightchain_worker.Base.Bytes.{Bytes}
use lightchain_worker.Release.Store.File.{PendingJob}

-- internal/chain/interfaces.go. A state beyond the enum's is `unknown_state`.
pub data JobState : Type 0 where
  submitted acknowledged completed timed_out disputed resolved released unknown_state : JobState

-- An escrow that is nil is `none`.
pub record JobStateInfo : Type 0 where
  pub state : JobState
  pub worker : ℕ
  pub completed_at : ℤ  -- int64
  pub escrowed_fee : Option ℤ

pub record HeadInfo : Type 0 where
  pub number : ℕ  -- uint64
  pub timestamp : ℤ  -- int64

-- An error of a chain call: whether `errors.Is` finds ErrContractPaused in it, and its text in
-- lower case.
pub record ChainError : Type 0 where
  pub contract_paused : Bool
  pub lower_text : Bytes

pub record JobCompletedEvent : Type 0 where
  pub job_id : ℕ

pub record ChainOps (W : Type 0) : Type 0 where
  pub head : W → Result ChainError HeadInfo × W
  pub get_dispute_window : W → Result ChainError ℤ × W
  pub get_job_state : ℕ → W → Result ChainError JobStateInfo × W
  pub release_job : ℕ → W → Option ChainError × W
  pub release_jobs : List ℕ → W → Option ChainError × W
  pub filter_job_completed :
      (worker from_block to_block : ℕ) → W → Result ChainError (List JobCompletedEvent) × W

-- The methods of `Store` that the scheduler and the reconciler call. `E` is its errors.
pub record StoreOps (E S : Type 0) : Type 0 where
  pub add_eligible : ℕ → ℤ → S → S × Option E
  pub pending : S → Result E (List PendingJob) × S
  pub remove : List ℕ → S → S × Option E
  pub record_failure : ℕ → ℤ → S → S × Option E
  pub get_reconcile_block : S → Result E ℕ × S
  pub set_reconcile_block : ℕ → S → S × Option E
  pub get_last_release_ts : S → Result E ℤ × S
  pub set_last_release_ts : ℤ → S → S × Option E
  pub get_next_allowed_attempt : S → Result E ℤ × S
  pub set_next_allowed_attempt : ℤ → S → S × Option E
