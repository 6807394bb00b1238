-- ===== src/Pipeline/Handler/Shared/Stored.antt =====
-- The checkpoint store as the store that all attempts at a job share.
use lightchain_worker.Base.{
  ℕ, ◌≡◌, ◌≢◌, refl, Bool, false, List, [], ◌∷◌, ok, ℤ, pos, ltb_ℤ, length,
}
use lightchain_worker.Base.Bytes.{Bytes}
use lightchain_worker.Base.Hex.{encode}
use lightchain_worker.Sortition.Jobs.{JobPayload}
use lightchain_worker.Pipeline.Checkpoint.{JobCheckpoint}
use lightchain_worker.Pipeline.Checkpoint.Store.{
  Reply, reached, refused, lost, Redis, RedisLaws, HashCodec, StoreError, CheckpointStore, job_key,
  run_with, set_if_absent, decoded_reply, offer_unless, set_ciphertext_if_absent, get,
  checkpoint_ops,
}
use lightchain_worker.Pipeline.Checkpoint.Records.{Holds, sent-Holds, offered-Holds}
use lightchain_worker.Pipeline.Checkpoint.Canonical.{
  Call, reading, perform, perform_all, perform-Holds, perform_all-Holds, first-Holds, read_back,
}
use lightchain_worker.Pipeline.Deadline.{new_deadline_guard}
use lightchain_worker.Pipeline.Handler.{HandlerConfig}
use lightchain_worker.Pipeline.Handler.Jobs.{JobHandler, process_job}
use lightchain_worker.Pipeline.Handler.Shared.{beside, OneAnswer}
use lightchain_worker.Pipeline.Handler.Shared.Attempts.{attempt_with, process_with-attempt_with}

module _ {X R : Type 0} (r : Redis X R) (laws : RedisLaws r) (codec : HashCodec) (seconds : ℤ → ℤ)
    (s : CheckpointStore) (id : ℕ) where
  -- A ciphertext that the store takes.
  abbrev pub Storable : Bytes → Type 0
  Storable x = (x ≢ []) × (ltb_ℤ s.max_ciphertext (pos (length x)) ≡ false)

  offer_reached :
      (q : Reply X) (y c : Bytes) (t : ℤ) (w : R)
      → q ≡ reached
      → Holds r (job_key id) c w
      → decoded_reply (run_with r q (set_if_absent r (job_key id) (encode y) t) w).0 ≡ ok (c, false)
  unfolding run_with
  offer_reached reached y c t w e held = (offered-Holds r laws _ (job_key id) y c t w refl held).0
  offer_reached (refused x) y c t w e held = absurd (cc)
  offer_reached (lost x) y c t w e held = absurd (cc)

  offer_answered :
      (y c : Bytes) (w : R)
      → (r.send w).0 ≡ reached
      → Holds r (job_key id) c w
      → Storable y
      → (set_ciphertext_if_absent r codec seconds s id y w).0 ≡ ok (c, false)
  unfolding set_ciphertext_if_absent offer_unless
  offer_answered [] c w e held (some', fits) = absurd (some' refl)
  offer_answered (b ∷ y) c w e held (some', fits) =
      rw (fits, offer_unless)
        (offer_reached (r.send w).0 (b ∷ y) c (seconds s.ttl) (r.send w).1 e
          (sent-Holds r laws (job_key id) c w held))

  get_answered :
      (c : Bytes) (w : R) (k : JobCheckpoint)
      → Holds r (job_key id) c w
      → (get r codec seconds s id w).0 ≡ ok k
      → k.ciphertext ≡ c
  unfolding get
  get_answered c w k held read =
      read_back r laws codec seconds s id (r.send w).0 c k (r.send w).1
        (sent-Holds r laws (job_key id) c w held) read

  get-Holds :
      (c : Bytes) (w : R)
      → Holds r (job_key id) c w
      → Holds r (job_key id) c (get r codec seconds s id w).1
  unfolding perform
  get-Holds c w held = perform-Holds r laws codec seconds s id reading c w held

  checkpoint_ops-OneAnswer :
      (c : Bytes)
      → ((w : R) → (r.send w).0 ≡ reached)
      → OneAnswer (checkpoint_ops r codec seconds s) Storable id c (Holds r (job_key id) c)
  unfolding checkpoint_ops
  checkpoint_ops-OneAnswer c answers = record {
    after_get = get-Holds c;
    get_answers = get_answered c;
    offer_answers = λ w x held fits. offer_answered x c w (answers w) held fits;
  }

module _ {X V W R : Type 0} (r : Redis X R) (laws : RedisLaws r) (codec : HashCodec)
    (seconds : ℤ → ℤ) (s : CheckpointStore) (h : JobHandler (StoreError X) V W)
    (cfg : HandlerConfig) (p : JobPayload) where
  -- Once a ciphertext is stored for a job and an answer says which, an attempt at the job after any
  -- calls of other attempts, by any handler that shares the Redis, hands that ciphertext over, or
  -- ends before: it runs as `processJob` does with this ciphertext in place of its own. So it is while
  -- the record lives and Redis answers, if what the handler encrypts is not empty nor too large.
  pub attempts_share_answer :
      (x c : Bytes) (b : Bool) (w : R) (calls : List Call) (v : W)
      → (set_ciphertext_if_absent r codec seconds s p.job_id x w).0 ≡ ok (c, b)
      → ((w : R) → (r.send w).0 ≡ reached)
      → ((key text : Bytes) (w : W) (y : Bytes)
          → (h.keys.encrypt key text w).0 ≡ ok y
          → Storable r laws codec seconds s p.job_id y)
      → process_job (beside h (checkpoint_ops r codec seconds s)) cfg p (
        v,
        perform_all r laws codec seconds s p.job_id calls
            (set_ciphertext_if_absent r codec seconds s p.job_id x w).1,
      )
        ≡ attempt_with
            (beside h (checkpoint_ops r codec seconds s))
            cfg
            c
            (new_deadline_guard cfg.guard cfg.reports_deadlines)
            p
            (
              v,
              perform_all r laws codec seconds s p.job_id calls
                  (set_ciphertext_if_absent r codec seconds s p.job_id x w).1,
            )
  unfolding process_job
  attempts_share_answer x c b w calls v stored answers fits =
      process_with-attempt_with h (checkpoint_ops r codec seconds s) cfg p
        (Storable r laws codec seconds s p.job_id) c (Holds r (job_key p.job_id) c)
        (checkpoint_ops-OneAnswer r laws codec seconds s p.job_id c answers) fits
        (new_deadline_guard cfg.guard cfg.reports_deadlines) _
        (perform_all-Holds r laws codec seconds s p.job_id calls c
          (set_ciphertext_if_absent r codec seconds s p.job_id x w).1
          (first-Holds r laws codec seconds s p.job_id x c b w stored))
