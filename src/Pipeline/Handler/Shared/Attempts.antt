-- ===== src/Pipeline/Handler/Shared/Attempts.antt =====
-- An attempt beside a store that has the job's ciphertext hands that ciphertext over.
use lightchain_worker.Base.{
  ℕ, ◌≡◌, refl, ap, subst, sym, ◌⊎◌, inl, inr, Option, Result, ok, err, Result-cases,
}
use lightchain_worker.Base.Bytes.{Bytes}
use lightchain_worker.Sortition.Jobs.{JobPayload}
use lightchain_worker.Pipeline.Checkpoint.{JobCheckpoint, empty_checkpoint, CheckpointOps}
use lightchain_worker.Pipeline.Deadline.{DeadlineGuard}
use lightchain_worker.Pipeline.Handler.{JobError, Stage, ◌>>=◌, ◌>>◌, HandlerConfig}
use lightchain_worker.Pipeline.Handler.Acks.{ensure_acknowledged, await_acknowledged}
use lightchain_worker.Pipeline.Handler.Jobs.{
  JobHandler, pickup, read_store, read_checkpoint, produce, hand_over, once_delivered, process_with,
}
use lightchain_worker.Pipeline.Handler.Silence.{check_pickup-Quiet}
use lightchain_worker.Pipeline.Handler.Shared.{beside, OneAnswer, Ended, then_same}
use lightchain_worker.Pipeline.Handler.Shared.Acks.{ensure_acknowledged-IsQuiet}
use lightchain_worker.Pipeline.Handler.Shared.Answers.{produce-Answers}

kept_end :
    {X W R A : Type 0} (P : R → Type 0) (l : R) (r : Result (JobError X) A × (W × R))
    → r.1.1 ≡ l
    → P l
    → Ended (λ a s. P s.1) r
kept_end P l (ok a, s) same known = subst P (sym same) known
kept_end P l (err e, s) same known = tt

module _ {X V W : Type 0} (h : JobHandler X V W) (cfg : HandlerConfig) (c : Bytes) where
  -- `processJob`, but for the ciphertext that is handed over.
  unfoldable pub attempt_with : Option DeadlineGuard → JobPayload → Stage X W (Unit {0})
  attempt_with guard p = do
    pickup h cfg guard
    ack ← ensure_acknowledged h.chain cfg p.job_id
    ckpt ← read_checkpoint h cfg p.job_id
    made ← produce h cfg guard p ckpt
    await_acknowledged h.chain p.job_id ack
    once_delivered h cfg (hand_over h cfg guard p ckpt (c, made.1))

module _ {X V W R : Type 0} (h : JobHandler X V W) (ops : CheckpointOps X R) (cfg : HandlerConfig)
    (p : JobPayload) (Fits : Bytes → Type 0) (c : Bytes) (P : R → Type 0)
    (one : OneAnswer ops Fits p.job_id c P)
    (sealed_fits : (key text : Bytes) (w : W) (x : Bytes)
      → (h.keys.encrypt key text w).0 ≡ ok x
      → Fits x) where
  abbrev Restored : JobCheckpoint → W × R → Type 0
  Restored k s = P s.1 × ((k.ciphertext ≡ c) ⊎ (k ≡ empty_checkpoint))

  picked_up :
      (guard : Option DeadlineGuard) (s : W × R)
      → P s.1
      → Ended (λ u s1. P s1.1) (pickup (beside h ops) cfg guard s)
  unfolding pickup beside
  picked_up guard s known = kept_end P s.1 _ (check_pickup-Quiet h.deadlines guard s) known

  acked :
      (s : W × R)
      → P s.1
      → Ended (λ ack s1. P s1.1) (ensure_acknowledged (beside h ops).chain cfg p.job_id s)
  unfolding beside
  acked s known = kept_end P s.1 _ ((ensure_acknowledged-IsQuiet h.chain cfg p.job_id).kept s) known

  read-Restored :
      (s : W × R) → P s.1 → Ended Restored (read_checkpoint (beside h ops) cfg p.job_id s)
  unfolding beside read_store
  read-Restored s known = elim (Result-cases (ops.get p.job_id s.1).0) [
    | inl (k, e) ↦ rw (e, read_store) (one.after_get s.1 known, inl (one.get_answers s.1 k known e))
    | inr (x, e) ↦ rw (e, read_store) (one.after_get s.1 known, inr refl)
  ]

  handed_over :
      (guard : Option DeadlineGuard) (ack : Option ℕ) (k : JobCheckpoint) (made : Bytes × ℕ)
      (s : W × R)
      → made.0 ≡ c
      → (await_acknowledged (beside h ops).chain p.job_id ack
            >> once_delivered (beside h ops) cfg (hand_over (beside h ops) cfg guard p k made))
          s
        ≡ (await_acknowledged (beside h ops).chain p.job_id ack
              >> once_delivered
                  (beside h ops)
                  cfg
                  (hand_over (beside h ops) cfg guard p k (c, made.1)))
            s
  handed_over guard ack k (x, n) s same =
      ap
        (λ (y : Bytes).
          (await_acknowledged (beside h ops).chain p.job_id ack
              >> once_delivered (beside h ops) cfg (hand_over (beside h ops) cfg guard p k (y, n)))
            s)
        same

  pub process_with-attempt_with :
      (guard : Option DeadlineGuard) (s : W × R)
      → P s.1
      → process_with (beside h ops) cfg guard p s ≡ attempt_with (beside h ops) cfg c guard p s
  unfolding process_with attempt_with
  process_with-attempt_with guard s known =
      then_same (λ u s1. P s1.1) (pickup (beside h ops) cfg guard) _ _ s (picked_up guard s known)
        λ u s1 known1.
          then_same (λ ack s2. P s2.1) (ensure_acknowledged (beside h ops).chain cfg p.job_id) _ _
            s1 (acked s1 known1)
            λ ack s2 known2.
              then_same Restored (read_checkpoint (beside h ops) cfg p.job_id) _ _ s2
                (read-Restored s2 known2)
                λ k s3 restored.
                  then_same (λ made s4. made.0 ≡ c) (produce (beside h ops) cfg guard p k) _ _ s3
                    (produce-Answers h ops cfg p Fits c P one sealed_fits guard k s3 restored.0
                      restored.1)
                    λ made s4 same. handed_over guard ack k made s4 same
