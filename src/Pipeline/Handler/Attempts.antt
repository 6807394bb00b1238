-- ===== src/Pipeline/Handler/Attempts.antt =====
-- Stages 1 and 1b, and the reading of the checkpoint, followed through their events.
use lightchain_worker.Base.{
  In, ℕ, ◌≡◌, refl, inl, inr, Bool, true, false, Option, none, some, Result, Option-cases,
  Result-cases, if◌then◌else◌,
}
use lightchain_worker.Sortition.Jobs.{JobPayload}
use lightchain_worker.Pipeline.Checkpoint.{JobCheckpoint}
use lightchain_worker.Pipeline.Handler.{JobError, done, call, HandlerConfig}
use lightchain_worker.Pipeline.Handler.Acks.{
  reconcile_ack_error, broadcast_ack, acknowledge, start_with, start_ack, ensure_acknowledged,
  recheck_ack, await_acknowledged,
}
use lightchain_worker.Pipeline.Handler.Jobs.{JobHandler}
use lightchain_worker.Pipeline.Handler.Traces.{
  acked, broadcast, confirmed, Log, if_ok, if_none, noted, recorded_acks, recorded_async,
  answer_cases, Outcome, then_stage,
}
use lightchain_worker.Pipeline.Handler.Order.{Acked, Joinable, Known, Known-later, Before}

module _ {X V W : Type 0} (h : JobHandler X V W) (cfg : HandlerConfig) (p : JobPayload) where
  -- Nothing is out yet, and the acknowledgement is known, or can be joined.
  abbrev pub Started : Option ℕ → W × Log → Type 0
  Started tx s = Before h cfg p s.1 × Joinable p.job_id tx s.1

  abbrev pub Stopped : JobError X → W × Log → Type 0
  Stopped e s = Before h cfg p s.1

  reconcile-Started :
      (e : X) (s : W × Log)
      → Before h cfg p s.1
      → Outcome Started Stopped (reconcile_ack_error (recorded_acks h.chain) p.job_id e s)
  unfolding reconcile_ack_error
  reconcile-Started e s before = elim (answer_cases (h.chain.has_job_acknowledged p.job_id s.0).0) [
    | inl f ↦ rw (f, reconcile_ack_error) (λ c. (tt, before c), inl (inl refl))
    | inr (inl f) ↦ rw (f, reconcile_ack_error) before
    | inr (inr (x, f)) ↦ rw (f, reconcile_ack_error) before
  ]

  broadcast-Started :
      (async : ℕ → W → Result X ℕ × W) (s : W × Log)
      → Before h cfg p s.1
      → Outcome Started Stopped (
          broadcast_ack
            (recorded_acks h.chain)
            (λ id. noted (if_ok (broadcast id)) (async id))
            p.job_id
            s)
  unfolding broadcast_ack
  broadcast-Started async s before = elim (Result-cases (async p.job_id s.0).0) [
    | inl (tx, f) ↦ rw (f, broadcast_ack) (rw (f, if_ok) (λ c. (tt, before c), inl refl))
    | inr (x, f) ↦
        rw (f, broadcast_ack)
          (reconcile-Started x (noted (if_ok (broadcast p.job_id)) (async p.job_id) s).1
            (rw (f, if_ok) before))
  ]

  acknowledge-Started :
      (s : W × Log)
      → Before h cfg p s.1
      → Outcome Started Stopped (acknowledge (recorded_acks h.chain) p.job_id s)
  unfolding acknowledge
  acknowledge-Started s before = elim (Option-cases (h.chain.acknowledge_job p.job_id s.0).0) [
    | inl f ↦ rw (f, acknowledge) (rw (f, if_none) (λ c. (tt, before c), inl (inl refl)))
    | inr (x, f) ↦
        rw (f, acknowledge)
          (reconcile-Started x ((recorded_acks h.chain).acknowledge_job p.job_id s).1
            (rw (f, if_none) before))
  ]

  start_with-Started :
      (async : Option (ℕ → W → Result X ℕ × W)) (overlap : Bool) (s : W × Log)
      → Before h cfg p s.1
      → Outcome Started Stopped (
          start_with
            (recorded_acks h.chain)
            (if overlap then recorded_async async else none)
            p.job_id
            s)
  unfolding start_with
  start_with-Started async false s before = acknowledge-Started s before
  start_with-Started none true s before = acknowledge-Started s before
  start_with-Started (some f) true s before = broadcast-Started f s before

  -- Where the job is said to be acknowledged, that is in the log.
  abbrev Asked : Bool → W × Log → Type 0
  Asked b s = Before h cfg p s.1 × (b ≡ true → In (acked p.job_id) s.1)

  asked :
      (s : W × Log)
      → Before h cfg p s.1
      → Outcome Asked Stopped (call ((recorded_acks h.chain).has_job_acknowledged p.job_id) s)
  asked s before = elim (answer_cases (h.chain.has_job_acknowledged p.job_id s.0).0) [
    | inl f ↦ rw (f, call) (λ c. (tt, before c), λ yes'. inl refl)
    | inr (inl f) ↦ rw (f, call) (before, λ e. absurd (cc))
    | inr (inr (x, f)) ↦ rw (f, call) before
  ]

  after_asking :
      (b : Bool) (s : W × Log)
      → Asked b s
      → Outcome Started Stopped
          ((if b then done none else start_ack (recorded_acks h.chain) cfg p.job_id) s)
  after_asking true s (before, known) = (before, inl (known refl))
  after_asking false s (before, known) =
      start_with-Started h.chain.acknowledge_job_async cfg.ack_overlap_enabled s before

  pub ensure_acknowledged-Started :
      (s : W × Log)
      → Before h cfg p s.1
      → Outcome Started Stopped (ensure_acknowledged (recorded_acks h.chain) cfg p.job_id s)
  unfolding ensure_acknowledged
  ensure_acknowledged-Started s before =
      then_stage Asked Started Stopped
        (call ((recorded_acks h.chain).has_job_acknowledged p.job_id))
        (λ b. if b then done none else start_ack (recorded_acks h.chain) cfg p.job_id) s
        (asked s before) after_asking

  -- Stage 1b, with the checkpoint that was read before it.
  abbrev pub Joined : JobCheckpoint → W × Log → Type 0
  Joined k s = Before h cfg p s.1 × Acked p.job_id s.1 × Known p.job_id k s.1

  recheck-Joined :
      (k : JobCheckpoint) (e : X) (s : W × Log)
      → Before h cfg p s.1
      → Known p.job_id k s.1
      → Outcome (λ u. Joined k) Stopped (recheck_ack (recorded_acks h.chain) p.job_id e s)
  unfolding recheck_ack
  recheck-Joined k e s before known =
      elim (answer_cases (h.chain.has_job_acknowledged p.job_id s.0).0) [
        | inl f ↦
            rw (f, recheck_ack)
              (
                λ c. (tt, before c),
                inl (inl refl),
                Known-later p.job_id k (acked p.job_id) s.1 known,
              )
        | inr (inl f) ↦ rw (f, recheck_ack) before
        | inr (inr (x, f)) ↦ rw (f, recheck_ack) before
      ]

  pub await_acknowledged-Joined :
      (k : JobCheckpoint) (tx : Option ℕ) (s : W × Log)
      → Started tx s
      → Known p.job_id k s.1
      → Outcome (λ u. Joined k) Stopped (await_acknowledged (recorded_acks h.chain) p.job_id tx s)
  unfolding await_acknowledged
  await_acknowledged-Joined k none s (before, ack) known = (before, ack, known)
  await_acknowledged-Joined k (some tx) s (before, sent) known =
      elim (Option-cases (h.chain.await_confirmed tx s.0).0) [
        | inl f ↦
            rw (f, await_acknowledged)
              (rw (f, if_none)
                (
                  λ c. (tt, before c),
                  inr (tx, inr sent, inl refl),
                  Known-later p.job_id k (confirmed tx) s.1 known,
                ))
        | inr (x, f) ↦
            rw (f, await_acknowledged)
              (recheck-Joined k x ((recorded_acks h.chain).await_confirmed tx s).1
                (rw (f, if_none) before) (rw (f, if_none) known))
      ]
