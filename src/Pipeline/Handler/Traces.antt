-- ===== src/Pipeline/Handler/Traces.antt =====
-- What a job's attempt does that others can see, noted beside its world.
use lightchain_worker.Base.{
  ℕ, ◌≡◌, refl, ◌⊎◌, inl, inr, Bool, true, false, Option, none, some, List, ◌∷◌, Result, ok, err,
}
use lightchain_worker.Base.Bytes.{Bytes}
use lightchain_worker.Pipeline.Checkpoint.{JobCheckpoint, CheckpointOps}
use lightchain_worker.Pipeline.Handler.{
  JobError, Stage, resume, ◌>>=◌, AckClient, SettleClient, PublishOps,
}
use lightchain_worker.Pipeline.Handler.Jobs.{JobHandler}
use lightchain_worker.Pipeline.Handler.Beside.{quiet, quiet_keys, quiet_deadlines, quiet_model}

-- The chain said that the job is acknowledged, or took the acknowledgement; it was only broadcast;
-- that transaction was confirmed; the checkpoint was read; the terminal frame went out, or an error
-- frame; the blob was taken; the completion was sent, and taken or not; the chain said that the job
-- is completed.
pub data Event : Type 0 where
  acked : (id : ℕ) → Event
  broadcast : (id tx : ℕ) → Event
  confirmed : (tx : ℕ) → Event
  restored : (id : ℕ) → JobCheckpoint → Event
  published : (ciphertext : Bytes) → Event
  errored : Event
  anchored : (ciphertext : Bytes) → (hashes : List ℕ) → Event
  completing : (id blob_hash ciphertext_hash : ℕ) → (taken : Bool) → Event
  found_completed : (id : ℕ) → Event

-- The latest event stands first.
abbrev pub Log : Type 0
Log = List Event

abbrev pub noted : {A W : Type 0} → (A → Log → Log) → (W → A × W) → W × Log → A × (W × Log)
noted note m s = ((m s.0).0, ((m s.0).1, note (m s.0).0 s.1))

-- An answer `true`, the absence of an error, and what was answered, noted.
abbrev pub if_true : {X : Type 0} → Event → Result X Bool → Log → Log
if_true e (ok true) log = e ∷ log
if_true e (ok false) log = log
if_true e (err x) log = log

abbrev pub if_none : {X : Type 0} → Event → Option X → Log → Log
if_none e none log = e ∷ log
if_none e (some x) log = log

abbrev pub if_ok : {X A : Type 0} → (A → Event) → Result X A → Log → Log
if_ok e (ok a) log = e a ∷ log
if_ok e (err x) log = log

abbrev pub is_none : {X : Type 0} → Option X → Bool
is_none none = true
is_none (some x) = false

abbrev pub recorded_async :
    {X W : Type 0} → Option (ℕ → W → Result X ℕ × W) → Option (ℕ → W × Log → Result X ℕ × (W × Log))
recorded_async none = none
recorded_async (some async) = some (λ id. noted (if_ok (broadcast id)) (async id))

abbrev pub recorded_acks : {X W : Type 0} → AckClient X W → AckClient X (W × Log)
recorded_acks c = record {
  has_job_acknowledged = λ id. noted (if_true (acked id)) (c.has_job_acknowledged id);
  acknowledge_job = λ id. noted (if_none (acked id)) (c.acknowledge_job id);
  acknowledge_job_async = recorded_async c.acknowledge_job_async;
  await_confirmed = λ tx. noted (if_none (confirmed tx)) (c.await_confirmed tx);
}

abbrev pub recorded_checkpoints : {X W : Type 0} → CheckpointOps X W → CheckpointOps X (W × Log)
recorded_checkpoints c = record {
  get = λ id. noted (if_ok (restored id)) (c.get id);
  set_ciphertext_if_absent = λ id ciphertext. quiet (c.set_ciphertext_if_absent id ciphertext);
  set_versioned_hash = λ id hash. quiet (c.set_versioned_hash id hash);
  mark_delivered = λ id. quiet (c.mark_delivered id);
  tombstone = λ id. quiet (c.tombstone id);
}

abbrev pub recorded_store :
    {X W : Type 0} → Option (CheckpointOps X W) → Option (CheckpointOps X (W × Log))
recorded_store none = none
recorded_store (some c) = some (recorded_checkpoints c)

abbrev pub recorded_publisher : {X W : Type 0} → PublishOps X W → PublishOps X (W × Log)
recorded_publisher c = record {
  sign = c.sign;
  publish_response = λ p signature ciphertext n s.
      (c.publish_response p signature ciphertext n s.0, published ciphertext ∷ s.1);
  publish_error = λ p s. (c.publish_error p s.0, errored ∷ s.1);
}

abbrev pub recorded_settlement : {X W : Type 0} → SettleClient X W → SettleClient X (W × Log)
recorded_settlement c = record {
  submit_blob_tx = λ ciphertext. noted (if_ok (anchored ciphertext)) (c.submit_blob_tx ciphertext);
  complete_job = λ id hash digest.
      noted (λ failure log. completing id hash digest (is_none failure) ∷ log)
        (c.complete_job id hash digest);
  has_job_completed = λ id. noted (if_true (found_completed id)) (c.has_job_completed id);
  mark_eligible = λ id. quiet (c.mark_eligible id);
  keccak = c.keccak;
}

unfoldable pub recorded : {X V W : Type 0} → JobHandler X V W → JobHandler X V (W × Log)
recorded h = record {
  chain = recorded_acks h.chain;
  deadlines = quiet_deadlines h.deadlines;
  fetch_blob = λ hash block. quiet (h.fetch_blob hash block);
  keys = quiet_keys h.keys;
  model = quiet_model h.model;
  checkpoints = recorded_store h.checkpoints;
  publisher = recorded_publisher h.publisher;
  settlement = recorded_settlement h.settlement;
  add_to_counter = λ n s. (h.add_to_counter n s.0, s.1);
}

pub answer_cases :
    {X : Type 0} (r : Result X Bool) → (r ≡ ok true) ⊎ (r ≡ ok false) ⊎ ((e : X) × (r ≡ err e))
answer_cases (ok true) = inl refl
answer_cases (ok false) = inr (inl refl)
answer_cases (err e) = inr (inr (e, refl))

-- What is known of a stage's end, for each way to end.
abbrev pub Outcome :
    {X W A : Type 0}
    → (A → W → Type 0)
    → (JobError X → W → Type 0)
    → Result (JobError X) A × W
    → Type 0
Outcome Q R (ok a, w) = Q a w
Outcome Q R (err e, w) = R e w

continued :
    {X W A B : Type 0} (Q : A → W → Type 0) (Q' : B → W → Type 0) (R : JobError X → W → Type 0)
    (f : A → Stage X W B) (r : Result (JobError X) A × W)
    → Outcome Q R r
    → ((a : A) (w : W) → Q a w → Outcome Q' R (f a w))
    → Outcome Q' R (resume f r)
continued Q Q' R f (ok a, w) now next = next a w now
continued Q Q' R f (err e, w) now next = now

-- The rule for two stages, one after the other.
pub then_stage :
    {X W A B : Type 0} (Q : A → W → Type 0) (Q' : B → W → Type 0) (R : JobError X → W → Type 0)
    (m : Stage X W A) (f : A → Stage X W B) (w : W)
    → Outcome Q R (m w)
    → ((a : A) (w : W) → Q a w → Outcome Q' R (f a w))
    → Outcome Q' R ((m >>= f) w)
unfolding ◌>>=◌
then_stage Q Q' R m f w now next = continued Q Q' R f (m w) now next
