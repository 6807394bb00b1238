-- ===== src/Pipeline/Handler/Handovers/Blobs.antt =====
-- Stage 8a: the blob of the answer.
use lightchain_worker.Base.{
  In, ℕ, ◌≡◌, refl, sym, ap, subst, inl, inr, true, Option, none, some, List, [], ◌∷◌, arith,
  Bool-cases, Result-cases,
}
use lightchain_worker.Base.Bytes.{Bytes}
use lightchain_worker.Sortition.Jobs.{JobPayload}
use lightchain_worker.Pipeline.Checkpoint.{JobCheckpoint, has_versioned_hash, CheckpointOps}
use lightchain_worker.Pipeline.Deadline.{DeadlineGuard, Verdict, proceed, doomed, gate_blob_submit}
use lightchain_worker.Pipeline.Handler.{call, HandlerConfig}
use lightchain_worker.Pipeline.Handler.Settlement.{
  remember_hash, single_hash, submit_blob, submit_if, gated_submit, ensure_blob_submitted,
}
use lightchain_worker.Pipeline.Handler.Jobs.{JobHandler}
use lightchain_worker.Pipeline.Handler.Silence.{gate_blob_submit-Quiet}
use lightchain_worker.Pipeline.Handler.Beside.{quiet_deadlines}
use lightchain_worker.Pipeline.Handler.Traces.{
  anchored, Log, recorded_store, recorded_settlement, Outcome, then_stage,
}
use lightchain_worker.Pipeline.Handler.Order.{
  Acked, Acked-later, Known, Handed, Handed-later, Anchored, Orderly,
}
use lightchain_worker.Pipeline.Handler.Handovers.{Failed, Delivered, Settling}

module _ {X V W : Type 0} (h : JobHandler X V W) (cfg : HandlerConfig) (p : JobPayload)
    (c : Bytes) where
  earlier_hash :
      (k : JobCheckpoint) (log : Log)
      → Known p.job_id k log
      → has_versioned_hash k ≡ true
      → Anchored h cfg p c k.versioned_hash log
  earlier_hash k log (inl empty) has =
      absurd (ground (arith, ap (λ (j : JobCheckpoint). j.versioned_hash) empty))
  earlier_hash k log (inr read) has = inr (k, read, has, refl)

  abbrev Submitted : List ℕ → W × Log → Type 0
  Submitted hashes s =
      Orderly h cfg p c s.1 × Acked p.job_id s.1 × Handed h cfg p c s.1 × In (anchored c hashes) s.1

  submit-Submitted :
      (k : JobCheckpoint) (s : W × Log)
      → Delivered h cfg p c k s
      → Outcome Submitted
          (Failed h cfg p c)
          (call ((recorded_settlement h.settlement).submit_blob_tx c) s)
  submit-Submitted k s (due, ack, out, read) =
      elim (Result-cases (h.settlement.submit_blob_tx c s.0).0) [
        | inl (hashes, f) ↦
            rw (f, call)
              (
                ((refl, ack, out), due),
                Acked-later p.job_id (anchored c hashes) s.1 ack,
                Handed-later h cfg p c (anchored c hashes) s.1 out,
                inl refl,
              )
        | inr (x, f) ↦ rw (f, call) due
      ]

  single-Settling :
      (hashes : List ℕ) (s : W × Log)
      → Submitted hashes s
      → Outcome (Settling h cfg p c) (Failed h cfg p c) (
          single_hash
            (recorded_store h.checkpoints)
            (quiet_deadlines h.deadlines)
            (recorded_settlement h.settlement)
            hashes
            s)
  unfolding single_hash
  single-Settling [] s (due, ack, out, taken) = due
  single-Settling (hash ∷ []) s (due, ack, out, taken) = (due, ack, out, inl taken)
  single-Settling (hash ∷ (other ∷ hashes)) s (due, ack, out, taken) = due

  remember-Settling :
      (o : Option (CheckpointOps X W)) (hash : ℕ) (s : W × Log)
      → Settling h cfg p c hash s
      → Outcome
          (λ u. Settling h cfg p c hash)
          (Failed h cfg p c)
          (remember_hash
            (recorded_store o)
            (quiet_deadlines h.deadlines)
            (recorded_settlement h.settlement)
            p.job_id
            hash
            s)
  unfolding remember_hash
  remember-Settling none hash s known = known
  remember-Settling (some ops) hash s known = known

  submit_blob-Settling :
      (k : JobCheckpoint) (s : W × Log)
      → Delivered h cfg p c k s
      → Outcome (Settling h cfg p c) (Failed h cfg p c) (
          submit_blob
            (recorded_store h.checkpoints)
            (quiet_deadlines h.deadlines)
            (recorded_settlement h.settlement)
            p.job_id
            c
            s)
  unfolding submit_blob
  submit_blob-Settling k s known =
      then_stage Submitted (Settling h cfg p c) (Failed h cfg p c) _ _ s
        (submit-Submitted k s known)
        λ hashes s1 sent.
          then_stage (Settling h cfg p c) (Settling h cfg p c) (Failed h cfg p c) _ _ s1
            (single-Settling hashes s1 sent)
            λ hash s2 one.
              then_stage (λ u. Settling h cfg p c hash) (Settling h cfg p c) (Failed h cfg p c) _ _
                s2 (remember-Settling h.checkpoints hash s2 one) λ u s3 kept. kept

  submit_if-Settling :
      (v : Verdict) (k : JobCheckpoint) (s : W × Log)
      → Delivered h cfg p c k s
      → Outcome (Settling h cfg p c) (Failed h cfg p c) (
          submit_if
            (recorded_store h.checkpoints)
            (quiet_deadlines h.deadlines)
            (recorded_settlement h.settlement)
            v
            p.job_id
            c
            s)
  unfolding submit_if
  submit_if-Settling doomed k s known = known.0
  submit_if-Settling proceed k s known = submit_blob-Settling k s known

  gated_submit-Settling :
      (guard : Option DeadlineGuard) (k : JobCheckpoint) (s : W × Log)
      → Delivered h cfg p c k s
      → Outcome (Settling h cfg p c) (Failed h cfg p c) (
          gated_submit
            (recorded_store h.checkpoints)
            (quiet_deadlines h.deadlines)
            (recorded_settlement h.settlement)
            guard
            p.job_id
            c
            s)
  unfolding gated_submit
  gated_submit-Settling guard k s known =
      let (verdict, after) = gate_blob_submit (quiet_deadlines h.deadlines) guard s in
      submit_if-Settling verdict k after (
        subst
          (λ log.
            Orderly h cfg p c log
            × Acked p.job_id log
            × Handed h cfg p c log
            × Known p.job_id k log)
          (sym (gate_blob_submit-Quiet h.deadlines guard s)) known)

  pub ensure_blob_submitted-Settling :
      (guard : Option DeadlineGuard) (k : JobCheckpoint) (s : W × Log)
      → Delivered h cfg p c k s
      → Outcome (Settling h cfg p c) (Failed h cfg p c) (
          ensure_blob_submitted
            (recorded_store h.checkpoints)
            (quiet_deadlines h.deadlines)
            (recorded_settlement h.settlement)
            guard
            p.job_id
            k
            c
            s)
  unfolding ensure_blob_submitted
  ensure_blob_submitted-Settling guard k s (due, ack, out, known) =
      elim (Bool-cases (has_versioned_hash k)) [
        | inl e ↦ rw (e, ensure_blob_submitted) (due, ack, out, earlier_hash k s.1 known e)
        | inr e ↦
            rw (e, ensure_blob_submitted) (gated_submit-Settling guard k s (due, ack, out, known))
      ]
