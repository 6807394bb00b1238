-- ===== src/Pipeline/Handler.antt =====
-- internal/pipeline/handler.go: what the stages of a job share. A stage is a function on the world
-- (the chain, the stores, the clock and all that runs beside) that may fail. Of an error are kept
-- what it is about and what `errors.Is` finds in it: `asynq.SkipRetry` and `errAnswerDelivered`.
-- Logs, metrics and timeouts are left out.
pub mod Acks
pub mod Attempts
pub mod Beside
pub mod Handovers
pub mod Inference
pub mod Jobs
pub mod Keys
pub mod Order
pub mod Processing
pub mod Reports
pub mod Settlement
pub mod Shared
pub mod Silence
pub mod Traces
use lightchain_worker.Base.{ℕ, Bool, true, false, Option, none, some, List, Result, ok, err, ℤ}
use lightchain_worker.Base.Bytes.{Bytes}
use lightchain_worker.Sortition.Jobs.{JobPayload}
use lightchain_worker.Pipeline.Checkpoint.{CheckpointOps}
use lightchain_worker.Pipeline.Deadline.{GuardConfig, JobDeadlineClient}

pub data JobFault (X : Type 0) : Type 0 where
  doomed_job unknown_model zero_blob_hash speech_of_conversation : JobFault X
  call_failed : X → JobFault X
  recheck_failed : X → X → JobFault X
  blob_count : List ℕ → JobFault X

pub record JobError (X : Type 0) : Type 0 where
  pub fault : JobFault X
  pub no_retry : Bool
  pub delivered : Bool

abbrev pub retryable : {X : Type 0} → JobFault X → JobError X
retryable f = record { fault = f; no_retry = false; delivered = false }

-- `noRetry`
abbrev pub final : {X : Type 0} → JobFault X → JobError X
final f = record { fault = f; no_retry = true; delivered = false }

abbrev pub Stage : Type 0 → Type 0 → Type 0 → Type 0
Stage X W A = W → Result (JobError X) A × W

abbrev pub resume :
    {X W A B : Type 0} → (A → Stage X W B) → Result (JobError X) A × W → Result (JobError X) B × W
resume f (ok a, w) = f a w
resume f (err e, w) = (err e, w)

infixl 5 ◌>>=◌ ◌>>◌
unfoldable pub ◌>>=◌ : {X W A B : Type 0} → Stage X W A → (A → Stage X W B) → Stage X W B
◌>>=◌ m f w = resume f (m w)

abbrev pub ◌>>◌ : {X W B : Type 0} → Stage X W (Unit {0}) → Stage X W B → Stage X W B
m >> k = m >>= λ _. k

abbrev pub done : {X W A : Type 0} → A → Stage X W A
done a w = (ok a, w)

abbrev pub fail : {X W A : Type 0} → JobError X → Stage X W A
fail e w = (err e, w)

-- A call whose error ends the attempt.
abbrev pub call : {X W A : Type 0} → (W → Result X A × W) → Stage X W A
call m w =
    let (answer, w') = m w in
    (elim answer [ err e ↦ err (retryable (call_failed e)) | ok a ↦ ok a ], w')

-- A call whose failure is only logged.
abbrev pub best_effort : {X W : Type 0} → (W → Option X × W) → Stage X W (Unit {0})
best_effort m w = (ok tt, (m w).1)

abbrev pub update : {X W : Type 0} → (W → W) → Stage X W (Unit {0})
update f w = (ok tt, f w)

pub record HandlerConfig : Type 0 where
  pub guard : GuardConfig
  pub reports_deadlines : Bool
  pub ack_overlap_enabled : Bool
  pub has_publisher : Bool
  pub model_id_to_name : List (Bytes × Bytes)
  pub speech_model_name : Bytes
  pub search_max_results : ℤ
  -- Whether asynq counts a retry of this task.
  pub is_retry : Bool

-- `JobExecutionClient` and `AsyncAckClient`, where the client has it. The join of an overlapped
-- acknowledgement, which another goroutine makes, is the operation `await_confirmed`, with its
-- timeouts.
pub record AckClient (X W : Type 0) : Type 0 where
  pub has_job_acknowledged : ℕ → W → Result X Bool × W
  pub acknowledge_job : ℕ → W → Option X × W
  pub acknowledge_job_async : Option (ℕ → W → Result X ℕ × W)
  pub await_confirmed : ℕ → W → Option X × W

pub record SettleClient (X W : Type 0) : Type 0 where
  pub submit_blob_tx : Bytes → W → Result X (List ℕ) × W
  pub complete_job : (id blob_hash ciphertext_hash : ℕ) → W → Option X × W
  pub has_job_completed : ℕ → W → Result X Bool × W
  pub mark_eligible : ℕ → W → Option X × W
  pub keccak : Bytes → ℕ

-- `signMismatchEvidence` and the `ResponsePublisher`.
pub record PublishOps (X W : Type 0) : Type 0 where
  pub sign : JobPayload → Bytes → Result X Bytes
  pub publish_response : JobPayload → (signature ciphertext : Bytes) → (total_frames : ℕ) → W → W
  pub publish_error : JobPayload → W → W
