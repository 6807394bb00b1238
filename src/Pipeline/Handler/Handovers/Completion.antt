-- ===== src/Pipeline/Handler/Handovers/Completion.antt =====
-- Stage 8b and the end: the completion of the job.
use lightchain_worker.Base.{
  ℕ, refl, sym, ap, subst, inl, inr, Bool, true, false, Option, none, some, Option-cases,
  if◌then◌else◌,
}
use lightchain_worker.Base.Bytes.{Bytes}
use lightchain_worker.Sortition.Jobs.{JobPayload}
use lightchain_worker.Pipeline.Checkpoint.{CheckpointOps}
use lightchain_worker.Pipeline.Deadline.{DeadlineGuard}
use lightchain_worker.Pipeline.Handler.{HandlerConfig}
use lightchain_worker.Pipeline.Handler.Settlement.{
  classify, recheck_completion, ask_and_complete, send_completion, complete_job, wind_up,
}
use lightchain_worker.Pipeline.Handler.Jobs.{JobHandler}
use lightchain_worker.Pipeline.Handler.Silence.{is_doomed_now-Quiet}
use lightchain_worker.Pipeline.Handler.Beside.{quiet_deadlines}
use lightchain_worker.Pipeline.Handler.Traces.{
  Event, completing, found_completed, Log, if_true, is_none, answer_cases, recorded_store,
  recorded_settlement, Outcome,
}
use lightchain_worker.Pipeline.Handler.Order.{Acked-later, Handed-later, Anchored-later, Orderly}
use lightchain_worker.Pipeline.Handler.Handovers.{Failed, Settling, Settled}

module _ {X V W : Type 0} (h : JobHandler X V W) (cfg : HandlerConfig) (p : JobPayload)
    (c : Bytes) where
  classify-Settled :
      (guard : Option DeadlineGuard) (e : X) (s : W × Log)
      → Orderly h cfg p c s.1
      → Outcome
          (λ u. Settled h cfg p c)
          (Failed h cfg p c)
          (classify (quiet_deadlines h.deadlines) (recorded_settlement h.settlement) guard e s)
  unfolding classify
  classify-Settled guard e s due =
      subst (Orderly h cfg p c) (sym (is_doomed_now-Quiet h.deadlines guard s)) due

  recheck-Settled :
      (guard : Option DeadlineGuard) (hash : ℕ) (e : X) (s : W × Log)
      → Settling h cfg p c hash s
      → Outcome
          (λ u. Settled h cfg p c)
          (Failed h cfg p c)
          (recheck_completion
            (quiet_deadlines h.deadlines)
            (recorded_settlement h.settlement)
            guard
            p.job_id
            e
            s)
  unfolding recheck_completion
  recheck-Settled guard hash e s (due, ack, out, blob) =
      elim (answer_cases (h.settlement.has_job_completed p.job_id s.0).0) [
        | inl f ↦
            rw (f, recheck_completion)
              (rw (f, if_true)
                (
                  (tt, due),
                  Acked-later p.job_id (found_completed p.job_id) s.1 ack,
                  Handed-later h cfg p c (found_completed p.job_id) s.1 out,
                  inr (inl refl),
                ))
        | inr (inl f) ↦
            rw (f, recheck_completion)
              (classify-Settled guard e
                ((recorded_settlement h.settlement).has_job_completed p.job_id s).1
                (rw (f, if_true) due))
        | inr (inr (x, f)) ↦ rw (f, recheck_completion) (rw (f, if_true) due)
      ]

  send-Settled :
      (guard : Option DeadlineGuard) (hash : ℕ) (s : W × Log)
      → Settling h cfg p c hash s
      → Outcome
          (λ u. Settled h cfg p c)
          (Failed h cfg p c)
          (send_completion
            (quiet_deadlines h.deadlines)
            (recorded_settlement h.settlement)
            guard
            p.job_id
            hash
            (h.settlement.keccak c)
            s)
  unfolding send_completion
  send-Settled guard hash s (due, ack, out, blob) =
      let sent : Option X × (W × Log) =
        (recorded_settlement h.settlement).complete_job p.job_id hash (h.settlement.keccak c) s in
      let e : Event = completing p.job_id hash (h.settlement.keccak c) (is_none sent.0) in
      let next : Settling h cfg p c hash sent.1 = (
        ((refl, refl, ack, out, blob), due),
        Acked-later p.job_id e s.1 ack,
        Handed-later h cfg p c e s.1 out,
        Anchored-later h cfg p c hash e s.1 blob,
      ) in
      elim (Option-cases (h.settlement.complete_job p.job_id hash (h.settlement.keccak c) s.0).0) [
        | inl f ↦
            rw (f, send_completion)
              (
                next.0,
                next.1,
                next.2,
                inl (
                  hash,
                  inl (
                      ap (λ r. completing p.job_id hash (h.settlement.keccak c) (is_none r))
                        (sym f)),
                ),
              )
        | inr (x, f) ↦ rw (f, send_completion) (recheck-Settled guard hash x sent.1 next)
      ]

  ask-Settled :
      (guard : Option DeadlineGuard) (hash : ℕ) (s : W × Log)
      → Settling h cfg p c hash s
      → Outcome
          (λ u. Settled h cfg p c)
          (Failed h cfg p c)
          (ask_and_complete
            (quiet_deadlines h.deadlines)
            (recorded_settlement h.settlement)
            guard
            p.job_id
            hash
            (h.settlement.keccak c)
            s)
  unfolding ask_and_complete
  ask-Settled guard hash s (due, ack, out, blob) =
      elim (answer_cases (h.settlement.has_job_completed p.job_id s.0).0) [
        | inl f ↦
            rw (f, ask_and_complete)
              (rw (f, if_true)
                (
                  (tt, due),
                  Acked-later p.job_id (found_completed p.job_id) s.1 ack,
                  Handed-later h cfg p c (found_completed p.job_id) s.1 out,
                  inr (inl refl),
                ))
        | inr (inl f) ↦
            rw (f, ask_and_complete)
              (send-Settled guard hash
                ((recorded_settlement h.settlement).has_job_completed p.job_id s).1
                (rw (f, if_true) (due, ack, out, blob)))
        | inr (inr (x, f)) ↦
            rw (f, ask_and_complete)
              (send-Settled guard hash
                ((recorded_settlement h.settlement).has_job_completed p.job_id s).1
                (rw (f, if_true) (due, ack, out, blob)))
      ]

  complete_if :
      (b : Bool) (guard : Option DeadlineGuard) (hash : ℕ) (s : W × Log)
      → Settling h cfg p c hash s
      → Outcome
          (λ u. Settled h cfg p c)
          (Failed h cfg p c)
          ((if b
              then ask_and_complete
                  (quiet_deadlines h.deadlines)
                  (recorded_settlement h.settlement)
                  guard
                  p.job_id
                  hash
                  (h.settlement.keccak c)
              else send_completion
                  (quiet_deadlines h.deadlines)
                  (recorded_settlement h.settlement)
                  guard
                  p.job_id
                  hash
                  (h.settlement.keccak c))
            s)
  complete_if true guard hash s known = ask-Settled guard hash s known
  complete_if false guard hash s known = send-Settled guard hash s known

  pub complete_job-Settled :
      (guard : Option DeadlineGuard) (hash : ℕ) (s : W × Log)
      → Settling h cfg p c hash s
      → Outcome
          (λ u. Settled h cfg p c)
          (Failed h cfg p c)
          (complete_job
            (quiet_deadlines h.deadlines)
            (recorded_settlement h.settlement)
            cfg
            guard
            p.job_id
            hash
            (h.settlement.keccak c)
            s)
  complete_job-Settled guard hash s known = complete_if cfg.is_retry guard hash s known

  pub wind_up-Settled :
      (o : Option (CheckpointOps X W)) (s : W × Log)
      → Settled h cfg p c s
      → Outcome
          (λ u. Settled h cfg p c)
          (Failed h cfg p c)
          (wind_up (recorded_store o) (recorded_settlement h.settlement) p.job_id s)
  unfolding wind_up
  wind_up-Settled none s known = known
  wind_up-Settled (some ops) s known = known
