-- ===== src/Pipeline/Handler/Jobs.antt =====
-- `processJob` of internal/pipeline/handler.go, and its entry points.
use lightchain_worker.Base.{
  ℕ, Bool, true, false, not, ◌||◌, Option, none, some, Result, ok, err, ℤ, pos, negsuc, ltb_ℤ,
  leb_ℤ, ◌==◌, if◌then◌else◌,
}
use lightchain_worker.Base.Bytes.{Bytes}
use lightchain_worker.Sortition.Jobs.{JobPayload}
use lightchain_worker.Pipeline.Checkpoint.{
  JobCheckpoint, empty_checkpoint, has_ciphertext, CheckpointOps,
}
use lightchain_worker.Pipeline.Deadline.{
  JobDeadlineClient, DeadlineGuard, proceed, doomed, new_deadline_guard, check_pickup,
}
use lightchain_worker.Pipeline.Handler.{
  JobError, doomed_job, zero_blob_hash, retryable, final, Stage, ◌>>=◌, ◌>>◌, done, fail, call,
  HandlerConfig, AckClient, SettleClient, PublishOps,
}
use lightchain_worker.Pipeline.Handler.Acks.{ensure_acknowledged, await_acknowledged}
use lightchain_worker.Pipeline.Handler.Keys.{KeyClient}
use lightchain_worker.Pipeline.Handler.Inference.{ModelClient, run_inference_pipeline}
use lightchain_worker.Pipeline.Handler.Settlement.{
  deliver, ensure_blob_submitted, complete_job, wind_up,
}

pub record JobHandler (X V W : Type 0) : Type 0 where
  pub chain : AckClient X W
  pub deadlines : JobDeadlineClient X W
  pub fetch_blob : (hash block : ℕ) → W → Result X Bytes × W
  pub keys : KeyClient X W
  pub model : ModelClient X V W
  pub checkpoints : Option (CheckpointOps X W)
  pub publisher : PublishOps X W
  pub settlement : SettleClient X W
  pub add_to_counter : ℤ → W → W

unfoldable pub read_store :
    {X W : Type 0} → Option (CheckpointOps X W) → ℕ → Stage X W JobCheckpoint
read_store none id w = (ok empty_checkpoint, w)
read_store (some s) id w =
    let (answer, w') = s.get id w in
    (elim answer [ err e ↦ ok empty_checkpoint | ok ckpt ↦ ok ckpt ], w')

module _ {X V W : Type 0} (h : JobHandler X V W) (cfg : HandlerConfig) where
  unfoldable pub pickup : Option DeadlineGuard → Stage X W (Unit {0})
  pickup guard w =
      let (verdict, w') = check_pickup h.deadlines guard w in
      (elim verdict [ doomed ↦ err (final doomed_job) | proceed ↦ ok tt ], w')

  -- A checkpoint that cannot be read counts as missing.
  abbrev pub read_checkpoint : ℕ → Stage X W JobCheckpoint
  read_checkpoint id = read_store h.checkpoints id

  -- The ciphertext that another attempt has stored first is the canonical one.
  unfoldable pub persist : ℕ → Bytes × ℕ → Stage X W (Bytes × ℕ)
  persist id (ciphertext, frames) w = elim h.checkpoints [
    | none ↦ (ok (ciphertext, frames), w)
    | some s ↦
        let (answer, w') = s.set_ciphertext_if_absent id ciphertext w in
        (
          elim answer [
            | err e ↦ ok (ciphertext, frames)
            | ok (canonical, true) ↦ ok (ciphertext, frames)
            | ok (canonical, false) ↦ ok (canonical, frames)
          ],
          w',
        )
  ]

  -- Stages 2 to 6.
  unfoldable pub run_stages :
      Option DeadlineGuard → JobPayload → JobCheckpoint → Stage X W (Bytes × ℕ)
  run_stages guard p ckpt = do
    blob ← call (h.fetch_blob p.prompt_blob_hash p.block_number)
    made ← run_inference_pipeline h.keys h.deadlines h.model cfg guard p (not ckpt.delivered) blob
    persist p.job_id made

  unfoldable pub produce : Option DeadlineGuard → JobPayload → JobCheckpoint → Stage X W (Bytes × ℕ)
  produce guard p ckpt =
      if has_ciphertext ckpt
      then done (ckpt.ciphertext, 0)
      else if p.prompt_blob_hash == 0
      then fail (retryable zero_blob_hash)
      else run_stages guard p ckpt

  -- Stages 7 and 8.
  unfoldable pub hand_over :
      Option DeadlineGuard → JobPayload → JobCheckpoint → Bytes × ℕ → Stage X W (Unit {0})
  hand_over guard p ckpt (ciphertext, frames) = do
    deliver h.checkpoints h.publisher cfg p ckpt ciphertext frames
    hash ←
        ensure_blob_submitted h.checkpoints h.deadlines h.settlement guard p.job_id ckpt ciphertext
    complete_job h.deadlines h.settlement cfg guard p.job_id hash (h.settlement.keccak ciphertext)
    wind_up h.checkpoints h.settlement p.job_id

  -- From stage 7 on a failure is marked: the consumer has the answer.
  abbrev pub once_delivered : {A : Type 0} → Stage X W A → Stage X W A
  once_delivered m w =
      (elim (m w).0 [ ok a ↦ ok a | err e ↦ err (record e { delivered = true }) ], (m w).1)

  unfoldable pub process_with : Option DeadlineGuard → JobPayload → Stage X W (Unit {0})
  process_with guard p = do
    pickup guard
    ack ← ensure_acknowledged h.chain cfg p.job_id
    ckpt ← read_checkpoint p.job_id
    made ← produce guard p ckpt
    await_acknowledged h.chain p.job_id ack
    once_delivered (hand_over guard p ckpt made)

  unfoldable pub process_job : JobPayload → Stage X W (Unit {0})
  process_job p = process_with (new_deadline_guard cfg.guard cfg.reports_deadlines) p

  unfoldable pub report_unless : Bool → JobPayload → W → W
  report_unless true p w = w
  report_unless false p w = h.publisher.publish_error p w

  -- No error frame where the consumer has the answer.
  abbrev pub report_failure : JobPayload → JobError X → W → W
  report_failure p e w = report_unless (not cfg.has_publisher || e.delivered) p w

  -- A job that the worker has found itself is not tried again.
  unfoldable pub report_payload : JobPayload → Result (JobError X) (Unit {0}) × W → W
  report_payload p (ok u, w) = w
  report_payload p (err e, w) = report_failure p e w

  -- asynq's retry count and, where it has one, the maximum. Only the last attempt speaks for the job.
  abbrev pub is_last : (retry_count : ℤ) → Option ℤ → JobError X → Bool
  is_last retry_count max_retry e =
      e.no_retry || elim max_retry [ none ↦ false | some max ↦ leb_ℤ max retry_count ]

  unfoldable pub report_task :
      (retry_count : ℤ) → Option ℤ → JobPayload → Result (JobError X) (Unit {0}) × W → W
  report_task retry_count max_retry p (ok u, w) = w
  report_task retry_count max_retry p (err e, w) =
      if is_last retry_count max_retry e then report_failure p e w else w

module _ {X V W : Type 0} (h : JobHandler X V W) (cfg : HandlerConfig) where
  -- The counter is up while a job runs.
  unfoldable pub handle_job_payload : JobPayload → Stage X W (Unit {0})
  handle_job_payload p w =
      let r : Result (JobError X) (Unit {0}) × W =
        process_job h (record cfg { is_retry = false }) p (h.add_to_counter (pos 1) w) in
      (r.0, h.add_to_counter (negsuc 0) (report_payload h cfg p r))

  unfoldable pub handle_task : (retry_count : ℤ) → Option ℤ → JobPayload → Stage X W (Unit {0})
  handle_task retry_count max_retry p w =
      let r : Result (JobError X) (Unit {0}) × W =
        process_job h (record cfg { is_retry = ltb_ℤ (pos 0) retry_count }) p
          (h.add_to_counter (pos 1) w) in
      (r.0, h.add_to_counter (negsuc 0) (report_task h cfg retry_count max_retry p r))
