-- ===== src/Pipeline/Handler/Handovers.antt =====
-- Stages 7 and 8: what each of them leaves behind. The children follow them through their events.
pub mod Blobs
pub mod Completion
pub mod Delivery
use lightchain_worker.Base.{
  In, ℕ, ◌+◌, ◌%◌, ◌≡◌, refl, sym, ap, subst, ◌⊎◌, inl, inr, Bool, true, false, Option, none, some,
  List, [], ◌∷◌, arith, Bool-cases, Option-cases, Result-cases, if◌then◌else◌,
}
use lightchain_worker.Base.Bytes.{Bytes}
use lightchain_worker.Sortition.Jobs.{JobPayload}
use lightchain_worker.Pipeline.Checkpoint.{JobCheckpoint, has_versioned_hash, CheckpointOps}
use lightchain_worker.Pipeline.Deadline.{DeadlineGuard, Verdict, proceed, doomed, gate_blob_submit}
use lightchain_worker.Pipeline.Handler.{JobError, done, call, HandlerConfig}
use lightchain_worker.Pipeline.Handler.Settlement.{
  publish_signed, mark_delivered, deliver_unless, deliver, remember_hash, single_hash, submit_blob,
  submit_if, gated_submit, ensure_blob_submitted, classify, recheck_completion, ask_and_complete,
  send_completion, complete_job, wind_up,
}
use lightchain_worker.Pipeline.Handler.Jobs.{JobHandler}
use lightchain_worker.Pipeline.Handler.Silence.{gate_blob_submit-Quiet, is_doomed_now-Quiet}
use lightchain_worker.Pipeline.Handler.Beside.{quiet_deadlines}
use lightchain_worker.Pipeline.Handler.Traces.{
  Event, published, anchored, completing, found_completed, Log, if_true, is_none, answer_cases,
  recorded_publisher, recorded_store, recorded_settlement, Outcome, then_stage,
}
use lightchain_worker.Pipeline.Handler.Order.{
  Acked, Acked-later, Known, Known-later, Handed, Handed-later, Anchored, Anchored-later, Orderly,
}

module _ {X V W : Type 0} (h : JobHandler X V W) (cfg : HandlerConfig) (p : JobPayload)
    (c : Bytes) where
  abbrev pub Failed : JobError X → W × Log → Type 0
  Failed e s = Orderly h cfg p c s.1

  -- The answer is there, on a job that is acknowledged.
  abbrev pub Answered : JobCheckpoint → W × Log → Type 0
  Answered k s = Orderly h cfg p c s.1 × Acked p.job_id s.1 × Known p.job_id k s.1

  -- It is also with the consumer.
  abbrev pub Delivered : JobCheckpoint → W × Log → Type 0
  Delivered k s =
      Orderly h cfg p c s.1 × Acked p.job_id s.1 × Handed h cfg p c s.1 × Known p.job_id k s.1

  -- Its blob is also taken.
  abbrev pub Settling : ℕ → W × Log → Type 0
  Settling hash s =
      Orderly h cfg p c s.1
      × Acked p.job_id s.1
      × Handed h cfg p c s.1
      × Anchored h cfg p c hash s.1

  abbrev pub Settled : W × Log → Type 0
  Settled s =
      Orderly h cfg p c s.1
      × Acked p.job_id s.1
      × Handed h cfg p c s.1
      × (((hash : ℕ) × In (completing p.job_id hash (h.settlement.keccak c) true) s.1)
          ⊎ In (found_completed p.job_id) s.1)
