-- ===== src/Pipeline/Handler/Settlement.antt =====
-- Stages 7 and 8 of internal/pipeline/handler.go: the terminal frame, the blob and the completion.
use lightchain_worker.Base.{
  ℕ, ◌+◌, ◌%◌, Bool, true, false, Option, none, some, List, [], ◌∷◌, ok, err, if◌then◌else◌,
}
use lightchain_worker.Base.Bytes.{Bytes}
use lightchain_worker.Sortition.Jobs.{JobPayload}
use lightchain_worker.Pipeline.Checkpoint.{JobCheckpoint, has_versioned_hash, CheckpointOps}
use lightchain_worker.Pipeline.Deadline.{
  JobDeadlineClient, DeadlineGuard, Verdict, proceed, doomed, gate_blob_submit, is_doomed_now,
}
use lightchain_worker.Pipeline.Handler.{
  doomed_job, call_failed, recheck_failed, blob_count, retryable, final, Stage, ◌>>=◌, ◌>>◌, done,
  fail, call, HandlerConfig, SettleClient, PublishOps,
}

module _ {X W : Type 0} (checkpoints : Option (CheckpointOps X W)) (pub_ops : PublishOps X W) where
  -- An answer that cannot be signed is not published.
  unfoldable pub publish_signed : JobPayload → Bytes → (total_frames : ℕ) → Stage X W (Unit {0})
  publish_signed p ciphertext total_frames w = elim (pub_ops.sign p ciphertext) [
    | err e ↦ (ok tt, w)
    | ok signature ↦ (ok tt, pub_ops.publish_response p signature ciphertext total_frames w)
  ]

  abbrev pub publish_to_redis :
      HandlerConfig → JobPayload → Bytes → (total_frames : ℕ) → Stage X W (Unit {0})
  publish_to_redis cfg p ciphertext total_frames =
      if cfg.has_publisher then publish_signed p ciphertext total_frames else done tt

  unfoldable pub mark_delivered : ℕ → Stage X W (Unit {0})
  mark_delivered id w = elim checkpoints [
    | none ↦ (ok tt, w)
    | some s ↦ (ok tt, (s.mark_delivered id w).1)
  ]

  -- Stage 7, unless it has run before. A frame's number is a uint32.
  unfoldable pub deliver_unless :
      Bool → HandlerConfig → JobPayload → Bytes → (chunk_frames : ℕ) → Stage X W (Unit {0})
  deliver_unless true cfg p ciphertext chunk_frames = done tt
  deliver_unless false cfg p ciphertext chunk_frames = do
    publish_to_redis cfg p ciphertext ((chunk_frames + 1) % 4294967296)
    mark_delivered p.job_id

  abbrev pub deliver :
      HandlerConfig → JobPayload → JobCheckpoint → Bytes → (chunk_frames : ℕ) → Stage X W (Unit {0})
  deliver cfg p ckpt ciphertext chunk_frames =
      deliver_unless ckpt.delivered cfg p ciphertext chunk_frames

module _ {X W : Type 0} (checkpoints : Option (CheckpointOps X W)) (clock : JobDeadlineClient X W)
    (c : SettleClient X W) where
  unfoldable pub remember_hash : ℕ → ℕ → Stage X W (Unit {0})
  remember_hash id hash w = elim checkpoints [
    | none ↦ (ok tt, w)
    | some s ↦ (ok tt, (s.set_versioned_hash id hash w).1)
  ]

  -- A blob transaction carries one blob.
  unfoldable pub single_hash : List ℕ → Stage X W ℕ
  single_hash [] = fail (retryable (blob_count []))
  single_hash (hash ∷ []) = done hash
  single_hash (hash ∷ (other ∷ hashes)) = fail (retryable (blob_count (hash ∷ (other ∷ hashes))))

  unfoldable pub submit_blob : ℕ → Bytes → Stage X W ℕ
  submit_blob id ciphertext = do
    hashes ← call (c.submit_blob_tx ciphertext)
    hash ← single_hash hashes
    remember_hash id hash
    done hash

  unfoldable pub submit_if : Verdict → ℕ → Bytes → Stage X W ℕ
  submit_if doomed id ciphertext = fail (final doomed_job)
  submit_if proceed id ciphertext = submit_blob id ciphertext

  unfoldable pub gated_submit : Option DeadlineGuard → ℕ → Bytes → Stage X W ℕ
  gated_submit guard id ciphertext w =
      let (verdict, w') = gate_blob_submit clock guard w in submit_if verdict id ciphertext w'

  -- Stage 8a.
  unfoldable pub ensure_blob_submitted :
      Option DeadlineGuard → ℕ → JobCheckpoint → Bytes → Stage X W ℕ
  ensure_blob_submitted guard id ckpt ciphertext =
      if has_versioned_hash ckpt then done ckpt.versioned_hash else gated_submit guard id ciphertext

module _ {X W : Type 0} (clock : JobDeadlineClient X W) (c : SettleClient X W) where
  -- After a completion that failed.
  unfoldable pub classify : Option DeadlineGuard → X → Stage X W (Unit {0})
  classify guard e w =
      let (past, w') = is_doomed_now clock guard w in
      (err (if past then final doomed_job else retryable (call_failed e)), w')

  unfoldable pub recheck_completion : Option DeadlineGuard → ℕ → X → Stage X W (Unit {0})
  recheck_completion guard id e w =
      let (answer, w') = c.has_job_completed id w in
      elim answer [
        | err checked ↦ (err (retryable (recheck_failed e checked)), w')
        | ok true ↦ (ok tt, w')
        | ok false ↦ classify guard e w'
      ]

  unfoldable pub send_completion :
      Option DeadlineGuard → (id blob_hash ciphertext_hash : ℕ) → Stage X W (Unit {0})
  send_completion guard id blob_hash ciphertext_hash w =
      let (failure, w') = c.complete_job id blob_hash ciphertext_hash w in
      elim failure [ none ↦ (ok tt, w') | some e ↦ recheck_completion guard id e w' ]

  unfoldable pub ask_and_complete :
      Option DeadlineGuard → (id blob_hash ciphertext_hash : ℕ) → Stage X W (Unit {0})
  ask_and_complete guard id blob_hash ciphertext_hash w =
      let (answer, w') = c.has_job_completed id w in
      elim answer [
        | err e ↦ send_completion guard id blob_hash ciphertext_hash w'
        | ok true ↦ (ok tt, w')
        | ok false ↦ send_completion guard id blob_hash ciphertext_hash w'
      ]

  -- Stage 8b. A retry asks first whether the job is completed.
  abbrev pub complete_job :
      HandlerConfig
      → Option DeadlineGuard
      → (id blob_hash ciphertext_hash : ℕ) → Stage X W (Unit {0})
  complete_job cfg guard id blob_hash ciphertext_hash =
      if cfg.is_retry
      then ask_and_complete guard id blob_hash ciphertext_hash
      else send_completion guard id blob_hash ciphertext_hash

module _ {X W : Type 0} (checkpoints : Option (CheckpointOps X W)) (c : SettleClient X W) where
  -- The release tracker and the checkpoint, which cannot fail a completed job.
  unfoldable pub wind_up : ℕ → Stage X W (Unit {0})
  wind_up id w =
      let w1 = (c.mark_eligible id w).1 in
      elim checkpoints [ none ↦ (ok tt, w1) | some s ↦ (ok tt, (s.tombstone id w1).1) ]
