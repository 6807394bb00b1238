-- ===== src/Pipeline/Handler/Handovers/Delivery.antt =====
-- Stage 7: the answer is handed over.
use lightchain_worker.Base.{
  ℕ, ◌+◌, ◌%◌, ◌≡◌, refl, ap, inl, inr, Bool, true, false, Option, none, some, arith, Result-cases,
  if◌then◌else◌,
}
use lightchain_worker.Base.Bytes.{Bytes}
use lightchain_worker.Sortition.Jobs.{JobPayload}
use lightchain_worker.Pipeline.Checkpoint.{JobCheckpoint, CheckpointOps}
use lightchain_worker.Pipeline.Handler.{done, HandlerConfig}
use lightchain_worker.Pipeline.Handler.Settlement.{
  publish_signed, mark_delivered, deliver_unless, deliver,
}
use lightchain_worker.Pipeline.Handler.Jobs.{JobHandler}
use lightchain_worker.Pipeline.Handler.Traces.{
  published, Log, recorded_publisher, recorded_store, Outcome, then_stage,
}
use lightchain_worker.Pipeline.Handler.Order.{Acked-later, Known, Known-later, Handed}
use lightchain_worker.Pipeline.Handler.Handovers.{Failed, Answered, Delivered}

module _ {X V W : Type 0} (h : JobHandler X V W) (cfg : HandlerConfig) (p : JobPayload)
    (c : Bytes) where
  was_delivered :
      (k : JobCheckpoint) (log : Log)
      → Known p.job_id k log
      → k.delivered ≡ true
      → Handed h cfg p c log
  was_delivered k log (inl empty) yes' =
      absurd (ground (arith, ap (λ (j : JobCheckpoint). j.delivered) empty))
  was_delivered k log (inr read) yes' = inr (inl (k, read, yes'))

  publish_signed-Delivered :
      (n : ℕ) (k : JobCheckpoint) (s : W × Log)
      → Answered h cfg p c k s
      → Outcome
          (λ u. Delivered h cfg p c k)
          (Failed h cfg p c)
          (publish_signed (recorded_store h.checkpoints) (recorded_publisher h.publisher) p c n s)
  unfolding publish_signed
  publish_signed-Delivered n k s (due, ack, known) = elim (Result-cases (h.publisher.sign p c)) [
    | inl (signature, f) ↦
        rw (f, publish_signed)
          (
            ((refl, ack), due),
            Acked-later p.job_id (published c) s.1 ack,
            inl (inl refl),
            Known-later p.job_id k (published c) s.1 known,
          )
    | inr (x, f) ↦ rw (f, publish_signed) (due, ack, inr (inr (inr (x, f))), known)
  ]

  publish-Delivered :
      (b : Bool)
      → cfg.has_publisher ≡ b
      → (n : ℕ) (k : JobCheckpoint) (s : W × Log) → Answered h cfg p c k s
      → Outcome
          (λ u. Delivered h cfg p c k)
          (Failed h cfg p c)
          ((if b
              then publish_signed
                  (recorded_store h.checkpoints)
                  (recorded_publisher h.publisher)
                  p
                  c
                  n
              else done tt)
            s)
  publish-Delivered true e n k s answered = publish_signed-Delivered n k s answered
  publish-Delivered false e n k s (due, ack, known) = (due, ack, inr (inr (inl e)), known)

  mark-Delivered :
      (o : Option (CheckpointOps X W)) (k : JobCheckpoint) (s : W × Log)
      → Delivered h cfg p c k s
      → Outcome
          (λ u. Delivered h cfg p c k)
          (Failed h cfg p c)
          (mark_delivered (recorded_store o) (recorded_publisher h.publisher) p.job_id s)
  unfolding mark_delivered
  mark-Delivered none k s out = out
  mark-Delivered (some ops) k s out = out

  deliver_unless-Delivered :
      (b : Bool) (n : ℕ) (k : JobCheckpoint) (s : W × Log)
      → k.delivered ≡ b
      → Answered h cfg p c k s
      → Outcome
          (λ u. Delivered h cfg p c k)
          (Failed h cfg p c)
          (deliver_unless
            (recorded_store h.checkpoints)
            (recorded_publisher h.publisher)
            b
            cfg
            p
            c
            n
            s)
  unfolding deliver_unless
  deliver_unless-Delivered true n k s e (due, ack, known) =
      (due, ack, was_delivered k s.1 known e, known)
  deliver_unless-Delivered false n k s e answered =
      then_stage (λ u. Delivered h cfg p c k) (λ u. Delivered h cfg p c k) (Failed h cfg p c) _ _ s
        (publish-Delivered cfg.has_publisher refl ((n + 1) % 4294967296) k s answered)
        (λ u s'. mark-Delivered h.checkpoints k s')

  pub deliver-Delivered :
      (n : ℕ) (k : JobCheckpoint) (s : W × Log)
      → Answered h cfg p c k s
      → Outcome
          (λ u. Delivered h cfg p c k)
          (Failed h cfg p c)
          (deliver (recorded_store h.checkpoints) (recorded_publisher h.publisher) cfg p k c n s)
  deliver-Delivered n k s answered = deliver_unless-Delivered k.delivered n k s refl answered
