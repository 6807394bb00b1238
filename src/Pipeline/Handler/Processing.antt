-- ===== src/Pipeline/Handler/Processing.antt =====
-- `processJob` of internal/pipeline/handler.go as a whole, followed through its events.
use lightchain_worker.Base.{
  ℕ, ◌≡◌, refl, sym, subst, ◌⊎◌, inl, inr, true, not, Option, none, some, [], Result, ok, err,
  Bool-cases, Option-cases, Result-cases, ◌==◌,
}
use lightchain_worker.Base.Bytes.{Bytes}
use lightchain_worker.Sortition.Jobs.{JobPayload}
use lightchain_worker.Pipeline.Checkpoint.{JobCheckpoint, has_ciphertext, CheckpointOps}
use lightchain_worker.Pipeline.Deadline.{DeadlineGuard, new_deadline_guard}
use lightchain_worker.Pipeline.Handler.{JobError, HandlerConfig}
use lightchain_worker.Pipeline.Handler.Jobs.{
  JobHandler, pickup, read_store, persist, run_stages, produce, hand_over, once_delivered,
  process_with, process_job,
}
use lightchain_worker.Pipeline.Handler.Silence.{check_pickup-Quiet}
use lightchain_worker.Pipeline.Handler.Silence.Answering.{run_inference_pipeline-IsQuiet}
use lightchain_worker.Pipeline.Handler.Beside.{Quiet, IsQuiet, quietly, IsQuiet-then}
use lightchain_worker.Pipeline.Handler.Traces.{
  restored, Log, recorded, recorded_store, Outcome, then_stage,
}
use lightchain_worker.Pipeline.Handler.Order.{
  Joinable, Joinable-later, Known, Orderly, Before, Before-Unpublished, Unpublished,
}
use lightchain_worker.Pipeline.Handler.Attempts.{
  Started, Stopped, Joined, ensure_acknowledged-Started, await_acknowledged-Joined,
}
use lightchain_worker.Pipeline.Handler.Handovers.{Failed, Answered, Delivered, Settling, Settled}
use lightchain_worker.Pipeline.Handler.Handovers.Delivery.{deliver-Delivered}
use lightchain_worker.Pipeline.Handler.Handovers.Blobs.{ensure_blob_submitted-Settling}
use lightchain_worker.Pipeline.Handler.Handovers.Completion.{complete_job-Settled, wind_up-Settled}

unseen_end :
    {X W A : Type 0} (P : Log → Type 0) (log : Log) (r : Result (JobError X) A × (W × Log))
    → r.1.1 ≡ log
    → P log
    → Outcome (λ a s. P s.1) (λ e s. P s.1) r
unseen_end P log (ok a, s) same known = subst P (sym same) known
unseen_end P log (err e, s) same known = subst P (sym same) known

module _ {X V W : Type 0} (h : JobHandler X V W) (cfg : HandlerConfig) (p : JobPayload) where
  hand_over-Settled :
      (guard : Option DeadlineGuard) (k : JobCheckpoint) (c : Bytes) (n : ℕ) (s : W × Log)
      → Answered h cfg p c k s
      → Outcome
          (λ u. Settled h cfg p c)
          (Failed h cfg p c)
          (hand_over (recorded h) cfg guard p k (c, n) s)
  unfolding hand_over recorded
  hand_over-Settled guard k c n s known =
      then_stage (λ u. Delivered h cfg p c k) (λ u. Settled h cfg p c) (Failed h cfg p c) _ _ s
        (deliver-Delivered h cfg p c n k s known)
        λ u s1 out.
          then_stage (Settling h cfg p c) (λ u. Settled h cfg p c) (Failed h cfg p c) _ _ s1
            (ensure_blob_submitted-Settling h cfg p c guard k s1 out)
            λ hash s2 blob.
              then_stage (λ u. Settled h cfg p c) (λ u. Settled h cfg p c) (Failed h cfg p c) _ _ s2
                (complete_job-Settled h cfg p c guard hash s2 blob)
                λ u s3 settled. wind_up-Settled h cfg p c h.checkpoints s3 settled

  persist-Quiet : (id : ℕ) (made : Bytes × ℕ) → Quiet (persist (recorded h) cfg id made)
  unfolding persist recorded
  persist-Quiet id (ciphertext, n) s = elim (Option-cases h.checkpoints) [
    | inl e ↦ rw (e, persist, recorded_store) refl
    | inr (ops, e) ↦ rw (e, persist, recorded_store) refl
  ]

  run_stages-IsQuiet :
      (guard : Option DeadlineGuard) (k : JobCheckpoint)
      → IsQuiet (run_stages (recorded h) cfg guard p k)
  unfolding run_stages recorded
  run_stages-IsQuiet guard k = IsQuiet-then (quietly (λ s. refl)) λ blob.
      IsQuiet-then
        (run_inference_pipeline-IsQuiet h.keys h.deadlines h.model cfg guard p (not k.delivered)
          blob)
        λ made. quietly (persist-Quiet p.job_id made)

  produce-Quiet :
      (guard : Option DeadlineGuard) (k : JobCheckpoint)
      → Quiet (produce (recorded h) cfg guard p k)
  unfolding produce
  produce-Quiet guard k s = elim (Bool-cases (has_ciphertext k)) [
    | inl e ↦ rw (e, produce) refl
    | inr e ↦ elim (Bool-cases (p.prompt_blob_hash == 0)) [
      | inl f ↦ rw (e, f, produce) refl
      | inr f ↦ rw (e, f, produce) ((run_stages-IsQuiet guard k).kept s)
    ]
  ]

  pickup-Quiet : (guard : Option DeadlineGuard) → Quiet (pickup (recorded h) cfg guard)
  unfolding pickup recorded
  pickup-Quiet guard s = check_pickup-Quiet h.deadlines guard s

  -- With the checkpoint that is read after stage 1.
  abbrev LoadedLog : Option ℕ → JobCheckpoint → Log → Type 0
  LoadedLog tx k log = Before h cfg p log × Joinable p.job_id tx log × Known p.job_id k log

  abbrev Loaded : Option ℕ → JobCheckpoint → W × Log → Type 0
  Loaded tx k s = LoadedLog tx k s.1

  read_store-Loaded :
      (o : Option (CheckpointOps X W)) (tx : Option ℕ) (s : W × Log)
      → Started h cfg p tx s
      → Outcome (Loaded tx) (Stopped h cfg p) (read_store (recorded_store o) p.job_id s)
  unfolding read_store
  read_store-Loaded none tx s (before, ack) = (before, ack, inl refl)
  read_store-Loaded (some ops) tx s (before, ack) = elim (Result-cases (ops.get p.job_id s.0).0) [
    | inl (k, f) ↦
        rw (f, read_store)
          (
            (λ c. (tt, before c)),
            Joinable-later p.job_id tx (restored p.job_id k) s.1 ack,
            inr (inl refl),
          )
    | inr (x, f) ↦ rw (f, read_store) (before, ack, inl refl)
  ]

  -- How an attempt ends: in order, and where the answer may be out, an error says so.
  abbrev pub Failure : JobError X → W × Log → Type 0
  Failure e s =
      ((c : Bytes) × Orderly h cfg p c s.1) × ((e.delivered ≡ true) ⊎ Unpublished h cfg p s.1)

  abbrev pub Success : W × Log → Type 0
  Success s = (c : Bytes) × Settled h cfg p c s

  stopped :
      (r : Result (JobError X) (Unit {0}) × (W × Log)) (c : Bytes)
      → Outcome (λ u. Settled h cfg p c) (Failed h cfg p c) r
      → Outcome
          (λ u. Success)
          Failure
          (elim r.0 [ ok a ↦ ok a | err e ↦ err (record e { delivered = true }) ], r.1)
  stopped (ok u, s) c settled = (c, settled)
  stopped (err e, s) c due = ((c, due), inl refl)

  before_out :
      {A : Type 0} (Q : A → W × Log → Type 0) (r : Result (JobError X) A × (W × Log))
      → Outcome Q (Stopped h cfg p) r
      → Outcome Q Failure r
  before_out Q (ok a, s) known = known
  before_out Q (err e, s) before = (([], before []), inr (Before-Unpublished h cfg p s.1 before))

  produced_out :
      {A : Type 0} (tx : Option ℕ) (k : JobCheckpoint) (r : Result (JobError X) A × (W × Log))
      → Outcome (λ a. Loaded tx k) (λ e. Loaded tx k) r
      → Outcome (λ a. Loaded tx k) Failure r
  produced_out tx k (ok a, s) known = known
  produced_out tx k (err e, s) known =
      (([], known.0 []), inr (Before-Unpublished h cfg p s.1 known.0))

  once-Success :
      (guard : Option DeadlineGuard) (k : JobCheckpoint) (made : Bytes × ℕ) (s : W × Log)
      → Joined h cfg p k s
      → Outcome
          (λ u. Success)
          Failure
          (once_delivered (recorded h) cfg (hand_over (recorded h) cfg guard p k made) s)
  once-Success guard k (c, n) s (before, ack, known) =
      stopped (hand_over (recorded h) cfg guard p k (c, n) s) c
        (hand_over-Settled guard k c n s (before c, ack, known))

  process_with-Success :
      (guard : Option DeadlineGuard) (s : W × Log)
      → Before h cfg p s.1
      → Outcome (λ u. Success) Failure (process_with (recorded h) cfg guard p s)
  unfolding process_with recorded
  process_with-Success guard s before =
      then_stage (λ u s1. Before h cfg p s1.1) (λ u. Success) Failure _ _ s
        (before_out (λ u s1. Before h cfg p s1.1) _
          (unseen_end (Before h cfg p) s.1 _ (pickup-Quiet guard s) before))
        λ u s1 before1.
          then_stage (Started h cfg p) (λ u. Success) Failure _ _ s1
            (before_out (Started h cfg p) _ (ensure_acknowledged-Started h cfg p s1 before1))
            λ tx s2 started.
              then_stage (Loaded tx) (λ u. Success) Failure _ _ s2
                (before_out (Loaded tx) _ (read_store-Loaded h.checkpoints tx s2 started))
                λ k s3 read.
                  then_stage (λ made. Loaded tx k) (λ u. Success) Failure _ _ s3
                    (produced_out tx k _
                      (unseen_end (LoadedLog tx k) s3.1 _ (produce-Quiet guard k s3) read))
                    λ made s4 read4.
                      then_stage (λ u. Joined h cfg p k) (λ u. Success) Failure _ _ s4
                        (before_out (λ u. Joined h cfg p k) _
                          (await_acknowledged-Joined h cfg p k tx s4 (read4.0, read4.1) read4.2))
                        λ u s5 joined. once-Success guard k made s5 joined

  -- However an attempt ends, its events are in order. No terminal frame goes out, no blob is taken
  -- and no completion is sent before the chain has the job's acknowledgement. All frames published and
  -- blobs taken are of one ciphertext, and all completions carry its digest. No blob is taken and no
  -- completion is sent before the ciphertext was published in this attempt, unless the checkpoint read says that an answer was
  -- delivered, or no publisher is set, or the ciphertext cannot be signed. No completion is
  -- sent before the blob of the ciphertext was taken under its hash in this attempt, unless its hash is
  -- the one of the checkpoint read, whose blob need not be of this ciphertext. An attempt that
  -- succeeds has had the job's completion taken, or was told that it is completed; one that fails with
  -- no mark of delivery has published no answer. Nothing is assumed of the chain, the stores, the
  -- model and the clock.
  pub process_job-Success :
      (w : W) → Outcome (λ u. Success) Failure (process_job (recorded h) cfg p (w, []))
  unfolding process_job
  process_job-Success w =
      process_with-Success (new_deadline_guard cfg.guard cfg.reports_deadlines) (w, []) (λ c. tt)
