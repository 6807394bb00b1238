-- ===== src/Pipeline/Handler/Shared.antt =====
-- An attempt at a job beside the store that all attempts share, and what the handler relies on of it.
pub mod Acks
pub mod Answers
pub mod Attempts
pub mod Stored
use lightchain_worker.Base.{ℕ, ◌≡◌, refl, Option, none, some, Result, ok, err, false}
use lightchain_worker.Base.Bytes.{Bytes}
use lightchain_worker.Pipeline.Checkpoint.{JobCheckpoint, CheckpointOps}
use lightchain_worker.Pipeline.Handler.{
  JobError, Stage, resume, ◌>>=◌, AckClient, SettleClient, PublishOps,
}
use lightchain_worker.Pipeline.Handler.Jobs.{JobHandler}
use lightchain_worker.Pipeline.Handler.Beside.{quiet, quiet_keys, quiet_deadlines, quiet_model}
use lightchain_worker.Pipeline.Handler.Traces.{Outcome}

abbrev pub quiet_async :
    {X W L : Type 0} → Option (ℕ → W → Result X ℕ × W) → Option (ℕ → W × L → Result X ℕ × (W × L))
quiet_async none = none
quiet_async (some async) = some (λ id. quiet (async id))

abbrev pub quiet_acks : {X W L : Type 0} → AckClient X W → AckClient X (W × L)
quiet_acks c = record {
  has_job_acknowledged = λ id. quiet (c.has_job_acknowledged id);
  acknowledge_job = λ id. quiet (c.acknowledge_job id);
  acknowledge_job_async = quiet_async c.acknowledge_job_async;
  await_confirmed = λ tx. quiet (c.await_confirmed tx);
}

abbrev quiet_publisher : {X W L : Type 0} → PublishOps X W → PublishOps X (W × L)
quiet_publisher c = record {
  sign = c.sign;
  publish_response =
      λ p signature ciphertext n s. (c.publish_response p signature ciphertext n s.0, s.1);
  publish_error = λ p s. (c.publish_error p s.0, s.1);
}

abbrev quiet_settlement : {X W L : Type 0} → SettleClient X W → SettleClient X (W × L)
quiet_settlement c = record {
  submit_blob_tx = λ ciphertext. quiet (c.submit_blob_tx ciphertext);
  complete_job = λ id hash digest. quiet (c.complete_job id hash digest);
  has_job_completed = λ id. quiet (c.has_job_completed id);
  mark_eligible = λ id. quiet (c.mark_eligible id);
  keccak = c.keccak;
}

abbrev on_second : {A W R : Type 0} → (R → A × R) → W × R → A × (W × R)
on_second m s = ((m s.1).0, (s.0, (m s.1).1))

abbrev pub second_ops : {X W R : Type 0} → CheckpointOps X R → CheckpointOps X (W × R)
second_ops c = record {
  get = λ id. on_second (c.get id);
  set_ciphertext_if_absent = λ id ciphertext. on_second (c.set_ciphertext_if_absent id ciphertext);
  set_versioned_hash = λ id hash. on_second (c.set_versioned_hash id hash);
  mark_delivered = λ id. on_second (c.mark_delivered id);
  tombstone = λ id. on_second (c.tombstone id);
}

-- The handler's own world, and the store's beside it.
unfoldable pub beside :
    {X V W R : Type 0} → JobHandler X V W → CheckpointOps X R → JobHandler X V (W × R)
beside h ops = record {
  chain = quiet_acks h.chain;
  deadlines = quiet_deadlines h.deadlines;
  fetch_blob = λ hash block. quiet (h.fetch_blob hash block);
  keys = quiet_keys h.keys;
  model = quiet_model h.model;
  checkpoints = some (second_ops ops);
  publisher = quiet_publisher h.publisher;
  settlement = quiet_settlement h.settlement;
  add_to_counter = λ n s. (h.add_to_counter n s.0, s.1);
}

-- The store has this ciphertext of the job while P holds: what it answers says so.
pub record OneAnswer {X R : Type 0} (ops : CheckpointOps X R) (Fits : Bytes → Type 0) (id : ℕ)
    (c : Bytes) (P : R → Type 0) : Type 0 where
  pub after_get : (w : R) → P w → P (ops.get id w).1
  pub get_answers : (w : R) (k : JobCheckpoint) → P w → (ops.get id w).0 ≡ ok k → k.ciphertext ≡ c
  pub offer_answers :
      (w : R) (x : Bytes) → P w → Fits x → (ops.set_ciphertext_if_absent id x w).0 ≡ ok (c, false)

-- Where nothing is said of a failure.
abbrev pub Ended : {X W A : Type 0} → (A → W → Type 0) → Result (JobError X) A × W → Type 0
Ended Q r = Outcome Q (λ e w. Unit {0}) r

same_end :
    {X W A B : Type 0} (Q : A → W → Type 0) (f g : A → Stage X W B) (r : Result (JobError X) A × W)
    → Ended Q r
    → ((a : A) (w : W) → Q a w → f a w ≡ g a w)
    → resume f r ≡ resume g r
same_end Q f g (ok a, w) now next = next a w now
same_end Q f g (err e, w) now next = refl

-- Two stages go on alike where they do at every end that the first may have.
pub then_same :
    {X W A B : Type 0} (Q : A → W → Type 0) (m : Stage X W A) (f g : A → Stage X W B) (w : W)
    → Ended Q (m w)
    → ((a : A) (w : W) → Q a w → f a w ≡ g a w)
    → (m >>= f) w ≡ (m >>= g) w
unfolding ◌>>=◌
then_same Q m f g w now next = same_end Q f g (m w) now next
