-- ===== src/Tests/Attempts.antt =====
-- A handler over a small chain, on which the theorems on the deadline guard and on a job's attempts
-- are applied.
use lightchain_worker.Base.{
  ℕ, ◌+◌, ◌*◌, ◌≡◌, refl, true, false, none, some, [], ◌∷◌, ok, err, pos, arith, ◌+ℤ◌, ◌-ℤ◌, wrap,
  add_i64, sub_i64, length,
}
use lightchain_worker.Base.Bytes.{Bytes}
use lightchain_worker.Sortition.Jobs.{JobPayload}
use lightchain_worker.Pipeline.Checkpoint.{JobCheckpoint, empty_checkpoint, CheckpointOps}
use lightchain_worker.Pipeline.Deadline.{
  JobDeadlineClient, DeadlineGuard, until, read_deadline, new_deadline_guard, proceed, doomed,
  clamped, pickup_verdict, inference_verdict, check_pickup, gate_inference, gate_blob_submit,
}
use lightchain_worker.Pipeline.Deadline.Windows.{Reserves, clamped_inference_can_submit}
use lightchain_worker.Pipeline.Handler.{◌>>=◌, HandlerConfig, AckClient}
use lightchain_worker.Pipeline.Handler.Keys.{
  KeyClient, decrypt_prompt, decrypt_with, get_or_derive_session_key, fetch_key,
  derive_and_store_session_key, keep_key,
}
use lightchain_worker.Pipeline.Handler.Inference.{
  ModelClient, run_inference_pipeline, augment, answer, gated, history_of, infer, publish_sources,
  seal, resolve_model_name, looks_like_hex_model_id, all_hex, model_name_of,
}
use lightchain_worker.Pipeline.Handler.Jobs.{
  JobHandler, produce, hand_over, process_job, handle_task, handle_job_payload,
}
use lightchain_worker.Pipeline.Handler.Traces.{recorded, Outcome}
use lightchain_worker.Pipeline.Handler.Processing.{Success, Failure, process_job-Success}
use lightchain_worker.Pipeline.Handler.Reports.{
  Exclusive, attempts-Exclusive, refused_pickup_reports, old_hash_new_digest,
}

-- The world is the clock in seconds. The job is due at second 100 and acknowledged.
abbrev chain_clock : JobDeadlineClient ℕ ℕ
chain_clock = record {
  get_job_deadline = λ w. (ok (pos 100000000000, true), w);
  now = λ w. pos (w * 1000000000);
}

abbrev guard : DeadlineGuard
guard = record {
  settle_reserve = pos 25000000000;
  completion_reserve = pos 12000000000;
  min_inference_budget = pos 10000000000;
}

guard-Reserves : Reserves guard
unfolding ◌+ℤ◌
guard-Reserves = (omega arith, omega arith, omega arith, ground arith)

clamped_at_20 : (gate_inference chain_clock (some guard) 20).0 ≡ clamped (pos 75000000000)
unfolding gate_inference inference_verdict read_deadline until ◌-ℤ◌ add_i64 wrap ◌+ℤ◌ sub_i64
clamped_at_20 = refl

clamped_inference_can_submit_example : (gate_blob_submit chain_clock (some guard) 75).0 ≡ proceed
clamped_inference_can_submit_example =
    clamped_inference_can_submit chain_clock guard 20 75 (pos 75000000000) (pos 100000000000)
      (pos 100000000000) true guard-Reserves refl clamped_at_20 refl (omega arith) (omega arith)

-- Every call takes a second. The completion is refused once.
abbrev acks : AckClient ℕ ℕ
acks = record {
  has_job_acknowledged = λ id w. (ok false, w + 1);
  acknowledge_job = λ id w. (none, w + 1);
  acknowledge_job_async = some (λ id w. (ok 900, w + 1));
  await_confirmed = λ tx w. (none, w + 1);
}

abbrev key_client : KeyClient ℕ ℕ
key_client = record {
  get_key = λ id w. (none, w);
  store_key = λ id key w. w;
  get_session_enc_worker_key = λ id w. (ok (7 ∷ []), w + 1);
  decrypt_session_key = λ sealed. ok sealed;
  decrypt = λ key sealed. ok sealed;
  encrypt = λ key text w. (ok (w ∷ text), w + 1);
}

abbrev model_client : ModelClient ℕ Bytes ℕ
model_client = record {
  unwrap_search = λ text. ok (text, false);
  search = none;
  build_augmented_prompt = λ text sources. text;
  decode = λ text. ok text;
  self_contained = λ v. false;
  transcribe = λ v w. (ok v, w);
  conversation_history = λ p key w. (ok [], w);
  infer = λ moment model v history deltas w. (ok (1 ∷ (2 ∷ [])), w + 5);
  frames = λ w. 3;
  encode_response = λ text sources. ok text;
  sources_metadata = λ sources. [];
  publish_metadata = λ p sealed w. w;
  deliver_audio = λ v text w. w;
}

abbrev checkpoint_ops : CheckpointOps ℕ ℕ
checkpoint_ops = record {
  get = λ id w. (ok empty_checkpoint, w + 1);
  set_ciphertext_if_absent = λ id ciphertext w. (ok (ciphertext, true), w + 1);
  set_versioned_hash = λ id hash w. (none, w + 1);
  mark_delivered = λ id w. (none, w + 1);
  tombstone = λ id w. (none, w + 1);
}

abbrev handler : JobHandler ℕ Bytes ℕ
handler = record {
  chain = acks;
  deadlines = chain_clock;
  fetch_blob = λ hash block w. (ok (4 ∷ []), w + 1);
  keys = key_client;
  model = model_client;
  checkpoints = some checkpoint_ops;
  publisher = record {
    sign = λ p ciphertext. ok (1 ∷ []);
    publish_response = λ p signature ciphertext n w. w + 1;
    publish_error = λ p w. w + 1;
  };
  settlement = record {
    submit_blob_tx = λ ciphertext w. (ok (55 ∷ []), w + 2);
    complete_job = λ id hash digest w. (some 9, w + 2);
    has_job_completed = λ id w. (ok true, w + 1);
    mark_eligible = λ id w. (none, w);
    keccak = λ ciphertext. length ciphertext;
  };
  add_to_counter = λ n w. w;
}

abbrev settings : HandlerConfig
settings = record {
  guard = record {
    deadline_guard_enabled = true;
    settle = pos 0;
    completion = pos 0;
    min_inference = pos 0;
  };
  reports_deadlines = true;
  ack_overlap_enabled = true;
  has_publisher = true;
  model_id_to_name = [];
  speech_model_name = [];
  search_max_results = pos 5;
  is_retry = false;
}

abbrev pub payload : JobPayload
payload = record {
  job_id = 3;
  session_id = 8;
  consumer = 1;
  worker = 2;
  model_id = 65 ∷ [];
  prompt_blob_hash = 6;
  block_number = 12;
  timestamp = pos 0;
  correlation_id = [];
}

process_job-Success_example :
    Outcome
      (λ u. Success handler settings payload)
      (Failure handler settings payload)
      (process_job (recorded handler) settings payload (5, []))
process_job-Success_example = process_job-Success handler settings payload 5

attempts-Exclusive_example :
    Exclusive handler payload
      (handle_task (recorded handler) settings (pos 0) (some (pos 3)) payload (5, [])).1.1
    × Exclusive handler payload (handle_job_payload (recorded handler) settings payload (5, [])).1.1
attempts-Exclusive_example = attempts-Exclusive handler payload settings (pos 0) (some (pos 3)) 5

late_pickup :
    (check_pickup handler.deadlines
      (new_deadline_guard settings.guard settings.reports_deadlines)
      200).0
    ≡ doomed
unfolding check_pickup new_deadline_guard pickup_verdict read_deadline until ◌-ℤ◌
late_pickup = refl

refused_pickup_reports_example :
    (handle_task handler settings (pos 1) (some (pos 3)) payload 200).1
    ≡ (check_pickup handler.deadlines
        (new_deadline_guard settings.guard settings.reports_deadlines)
        200).1
      + 1
refused_pickup_reports_example =
    refused_pickup_reports handler payload settings (pos 1) (some (pos 3)) 200 refl late_pickup

-- The checkpoint of a job whose answer was delivered and is in a blob, but could not be stored.
abbrev half_checkpoint : JobCheckpoint
half_checkpoint = record { ciphertext = []; versioned_hash = 55; delivered = true }

-- A store that takes no ciphertext, and a chain that takes the completion.
abbrev full_store : CheckpointOps ℕ ℕ
full_store = record checkpoint_ops {
  set_ciphertext_if_absent = λ id ciphertext w. (err 413, w + 1);
}

abbrev retrying : JobHandler ℕ Bytes ℕ
retrying = record handler {
  checkpoints = some full_store;
  settlement = record handler.settlement {
    complete_job = λ id hash digest w. (none, w + hash * 1000 + digest);
    has_job_completed = λ id w. (ok false, w + 1);
  };
}

abbrev retry_settings : HandlerConfig
retry_settings = record settings {
  is_retry = true;
  guard = record settings.guard { deadline_guard_enabled = false };
}

inference_anew :
    run_inference_pipeline retrying.keys retrying.deadlines retrying.model retry_settings none
      payload false
      (4 ∷ [])
      6
    ≡ (ok (12 ∷ 1 ∷ 2 ∷ [], 3), 13)
unfolding run_inference_pipeline ◌>>=◌ decrypt_prompt decrypt_with get_or_derive_session_key
    fetch_key derive_and_store_session_key keep_key augment answer gated history_of infer
    publish_sources seal resolve_model_name looks_like_hex_model_id all_hex model_name_of
    gate_inference
inference_anew = refl

-- Inference makes a ciphertext of three bytes, and the job is completed with its digest under hash 55.
old_hash_new_digest_example :
    (produce retrying retry_settings none payload half_checkpoint
        >>= hand_over retrying retry_settings none payload half_checkpoint)
      5
    ≡ (ok tt, 55019)
old_hash_new_digest_example =
    old_hash_new_digest retrying payload retry_settings none half_checkpoint full_store (4 ∷ [])
      (12 ∷ 1 ∷ 2 ∷ []) 3 413 5 6 13 14 refl refl refl refl refl refl refl inference_anew refl refl
      refl
