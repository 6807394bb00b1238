-- ===== src/Pipeline/Handler/Reports.antt =====
-- The entry points of internal/pipeline/handler.go: when an error frame goes out, and what an attempt
-- does with a checkpoint that has a hash and no ciphertext.
use lightchain_worker.Base.{
  In, ℕ, ◌≡◌, refl, sym, ap, ◌∙◌, inl, inr, Bool, true, false, not, ◌||◌, Option, none, some, ◌==◌,
  [], Result, ok, err, ℤ, pos, negsuc, ltb_ℤ, arith, if◌then◌else◌,
}
use lightchain_worker.Base.Bytes.{Bytes}
use lightchain_worker.Sortition.Jobs.{JobPayload}
use lightchain_worker.Pipeline.Checkpoint.{
  JobCheckpoint, CheckpointOps, has_ciphertext, has_versioned_hash,
}
use lightchain_worker.Pipeline.Deadline.{DeadlineGuard, doomed, check_pickup, new_deadline_guard}
use lightchain_worker.Pipeline.Handler.{
  JobError, JobFault, doomed_job, final, call, resume, ◌>>=◌, HandlerConfig,
}
use lightchain_worker.Pipeline.Handler.Inference.{run_inference_pipeline}
use lightchain_worker.Pipeline.Handler.Jobs.{
  JobHandler, pickup, produce, run_stages, persist, hand_over, process_with, process_job,
  report_unless, report_payload, report_task, handle_job_payload, is_last, handle_task,
}
use lightchain_worker.Pipeline.Handler.Settlement.{
  deliver_unless, ensure_blob_submitted, ask_and_complete, send_completion, wind_up,
}
use lightchain_worker.Pipeline.Handler.Traces.{published, errored, Log, recorded, Outcome}
use lightchain_worker.Pipeline.Handler.Order.{no_error}
use lightchain_worker.Pipeline.Handler.Processing.{Success, Failure, process_job-Success}

module _ {X V W : Type 0} (h : JobHandler X V W) (p : JobPayload) where
  -- No answer goes out beside an error frame.
  abbrev pub Exclusive : Log → Type 0
  Exclusive log = In errored log → (x : Bytes) → In (published x) log → ⊥

  reported :
      (cfg cfg' : HandlerConfig) (b : Bool) (e : JobError X) (s : W × Log)
      → Failure h cfg' p e s
      → (b ≡ false → e.delivered ≡ false)
      → Exclusive (report_unless (recorded h) cfg b p s).1
  unfolding report_unless recorded
  reported cfg cfg' true e s ((c, due), before) why frame x out =
      absurd (no_error h cfg' p c s.1 due frame)
  reported cfg cfg' false e s known why frame x (inl now) = absurd (cc)
  reported cfg cfg' false e s known why frame x (inr out) = elim known.1 [
    | inl marked ↦ absurd (cc (sym marked ∙ why refl))
    | inr unseen ↦ unseen x out
  ]

  reported_if :
      (cfg cfg' : HandlerConfig) (last b : Bool) (e : JobError X) (s : W × Log)
      → Failure h cfg' p e s
      → (b ≡ false → e.delivered ≡ false)
      → Exclusive (if last then report_unless (recorded h) cfg b p s else s).1
  reported_if cfg cfg' true b e s known why = reported cfg cfg' b e s known why
  reported_if cfg cfg' false b e s ((c, due), before) why =
      λ frame. absurd (no_error h cfg' p c s.1 due frame)

  payload_end :
      (cfg cfg' : HandlerConfig) (r : Result (JobError X) (Unit {0}) × (W × Log))
      → Outcome (λ u. Success h cfg' p) (Failure h cfg' p) r
      → Exclusive (report_payload (recorded h) cfg p r).1
  unfolding report_payload
  payload_end cfg cfg' (ok u, s) (c, settled) =
      λ frame. absurd (no_error h cfg' p c s.1 settled.0 frame)
  payload_end cfg cfg' (err e, s) known =
      reported cfg cfg' (not cfg.has_publisher || e.delivered) e s known (λ q. ground arith)

  task_end :
      (cfg cfg' : HandlerConfig) (count : ℤ) (max : Option ℤ)
      (r : Result (JobError X) (Unit {0}) × (W × Log))
      → Outcome (λ u. Success h cfg' p) (Failure h cfg' p) r
      → Exclusive (report_task (recorded h) cfg count max p r).1
  unfolding report_task
  task_end cfg cfg' count max (ok u, s) (c, settled) =
      λ frame. absurd (no_error h cfg' p c s.1 settled.0 frame)
  task_end cfg cfg' count max (err e, s) known =
      reported_if cfg cfg' (is_last (recorded h) cfg count max e)
        (not cfg.has_publisher || e.delivered) e s known (λ q. ground arith)

  -- An attempt that publishes the answer of a job publishes no error frame for it, and the other way
  -- round, wherever the job comes from, whether it fails or not.
  pub attempts-Exclusive :
      (cfg : HandlerConfig) (count : ℤ) (max : Option ℤ) (w : W)
      → Exclusive (handle_task (recorded h) cfg count max p (w, [])).1.1
        × Exclusive (handle_job_payload (recorded h) cfg p (w, [])).1.1
  unfolding handle_task handle_job_payload recorded
  attempts-Exclusive cfg count max w = (
    task_end cfg (record cfg { is_retry = ltb_ℤ (pos 0) count }) count max
        (process_job (recorded h) (record cfg { is_retry = ltb_ℤ (pos 0) count }) p
          (h.add_to_counter (pos 1) w, []))
        (process_job-Success h (record cfg { is_retry = ltb_ℤ (pos 0) count }) p
          (h.add_to_counter (pos 1) w)),
    payload_end cfg (record cfg { is_retry = false })
        (process_job (recorded h) (record cfg { is_retry = false }) p
          (h.add_to_counter (pos 1) w, []))
        (process_job-Success h (record cfg { is_retry = false }) p (h.add_to_counter (pos 1) w)),
  )

  refused_at_once :
      (cfg : HandlerConfig) (guard : Option DeadlineGuard) (w : W)
      → (check_pickup h.deadlines guard w).0 ≡ doomed
      → process_with h cfg guard p w
        ≡ (err (final doomed_job), (check_pickup h.deadlines guard w).1)
  unfolding process_with ◌>>=◌ pickup
  refused_at_once cfg guard w refused = rw (refused, resume) refl

  final_report :
      (cfg : HandlerConfig) (count : ℤ) (max : Option ℤ) (fault : JobFault X) (w : W)
      → cfg.has_publisher ≡ true
      → report_task h cfg count max p (err (final fault), w) ≡ h.publisher.publish_error p w
  unfolding report_task report_unless
  final_report cfg count max fault w publishes = rw (publishes, report_unless) refl

  -- A job that is refused at pickup, as a retry is whose deadline has passed, has an error frame
  -- published whether or not its checkpoint says that the answer was delivered: the checkpoint is not
  -- even read.
  pub refused_pickup_reports :
      (cfg : HandlerConfig) (count : ℤ) (max : Option ℤ) (w : W)
      → cfg.has_publisher ≡ true
      → (check_pickup h.deadlines
          (new_deadline_guard cfg.guard cfg.reports_deadlines)
          (h.add_to_counter (pos 1) w)).0
        ≡ doomed
      → (handle_task h cfg count max p w).1
        ≡ h.add_to_counter (negsuc 0) (
            h.publisher.publish_error p
              (check_pickup h.deadlines
                (new_deadline_guard cfg.guard cfg.reports_deadlines)
                (h.add_to_counter (pos 1) w)).1)
  unfolding handle_task process_job
  refused_pickup_reports cfg count max w publishes refused =
      let guard : Option DeadlineGuard = new_deadline_guard cfg.guard cfg.reports_deadlines in
      let w1 : W = h.add_to_counter (pos 1) w in
      ap (λ r. h.add_to_counter (negsuc 0) (report_task h cfg count max p r))
        (refused_at_once (record cfg { is_retry = ltb_ℤ (pos 0) count }) guard w1 refused)
      ∙ ap (h.add_to_counter (negsuc 0))
          (final_report cfg count max doomed_job (check_pickup h.deadlines guard w1).1 publishes)

  -- A checkpoint that has no ciphertext makes the attempt produce one.
  produce_anew :
      (cfg : HandlerConfig) (guard : Option DeadlineGuard) (k : JobCheckpoint)
      (s : CheckpointOps X W) (blob ciphertext : Bytes) (frames : ℕ) (e : X) (w w0 w1 w2 : W)
      → has_ciphertext k ≡ false
      → k.delivered ≡ true
      → (p.prompt_blob_hash == 0) ≡ false
      → h.checkpoints ≡ some s
      → h.fetch_blob p.prompt_blob_hash p.block_number w ≡ (ok blob, w0)
      → run_inference_pipeline h.keys h.deadlines h.model cfg guard p false blob w0
        ≡ (ok (ciphertext, frames), w1)
      → s.set_ciphertext_if_absent p.job_id ciphertext w1 ≡ (err e, w2)
      → produce h cfg guard p k w ≡ (ok (ciphertext, frames), w2)
  unfolding produce run_stages persist ◌>>=◌
  produce_anew cfg guard k s blob ciphertext frames e w w0 w1 w2 none_yet delivered prompt store
        fetched made unstored =
      rw (none_yet, produce)
        (rw (prompt, produce)
          (rw (fetched, call)
            (rw (delivered, produce)
              (rw (made, resume) (rw (store, persist) (rw (unstored, persist) refl))))))

  completed_on_retry :
      (guard : Option DeadlineGuard) (hash digest : ℕ) (w : W)
      → (h.settlement.has_job_completed p.job_id w).0 ≡ ok false
      → let completion =
          h.settlement.complete_job p.job_id hash digest
            (h.settlement.has_job_completed p.job_id w).1 in
        completion.0 ≡ none
        → ask_and_complete h.deadlines h.settlement guard p.job_id hash digest w
          ≡ (ok tt, completion.1)
  unfolding ask_and_complete send_completion
  completed_on_retry guard hash digest w asked taken =
      rw (asked, ask_and_complete) (rw (taken, send_completion) refl)

  -- A retry that works from a checkpoint with a hash and the mark of delivery but no ciphertext, and
  -- whose new ciphertext cannot be stored either, completes the job under the hash of the checkpoint
  -- with the digest of the new ciphertext, and submits no blob that holds it, if the chain takes the
  -- completion.
  pub old_hash_new_digest :
      (cfg : HandlerConfig) (guard : Option DeadlineGuard) (k : JobCheckpoint)
      (s : CheckpointOps X W) (blob ciphertext : Bytes) (frames : ℕ) (e : X) (w w0 w1 w2 : W)
      → cfg.is_retry ≡ true
      → has_ciphertext k ≡ false
      → has_versioned_hash k ≡ true
      → k.delivered ≡ true
      → (p.prompt_blob_hash == 0) ≡ false
      → h.checkpoints ≡ some s
      → h.fetch_blob p.prompt_blob_hash p.block_number w ≡ (ok blob, w0)
      → run_inference_pipeline h.keys h.deadlines h.model cfg guard p false blob w0
        ≡ (ok (ciphertext, frames), w1)
      → s.set_ciphertext_if_absent p.job_id ciphertext w1 ≡ (err e, w2)
      → (h.settlement.has_job_completed p.job_id w2).0 ≡ ok false
      → let completion =
          h.settlement.complete_job p.job_id k.versioned_hash
            (h.settlement.keccak ciphertext)
            (h.settlement.has_job_completed p.job_id w2).1 in
        completion.0 ≡ none
        → (produce h cfg guard p k >>= hand_over h cfg guard p k) w
          ≡ (ok tt, (s.tombstone p.job_id (h.settlement.mark_eligible p.job_id completion.1).1).1)
  unfolding hand_over ◌>>=◌ deliver_unless ensure_blob_submitted wind_up
  old_hash_new_digest cfg guard k s blob ciphertext frames e w w0 w1 w2 retry none_yet has delivered
        prompt store fetched made unstored asked taken =
      let produced =
        produce_anew cfg guard k s blob ciphertext frames e w w0 w1 w2 none_yet delivered prompt
          store fetched made unstored in
      let completed =
        completed_on_retry guard k.versioned_hash (h.settlement.keccak ciphertext) w2 asked taken in
      ap (resume (hand_over h cfg guard p k)) produced
      ∙ rw (delivered, hand_over)
          (rw (has, hand_over)
            (rw (retry, hand_over) (rw (completed, resume) (rw (store, wind_up) refl))))
