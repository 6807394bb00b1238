-- ===== src/Tests/Shared.antt =====
-- A handler beside the Redis of functions, on which the theorem on attempts that share it is applied.
use lightchain_worker.Base.{ℕ, ◌+◌, ◌≡◌, refl, true, false, none, some, [], ◌∷◌, ok, pos, length}
use lightchain_worker.Base.Bytes.{Bytes}
use lightchain_worker.Pipeline.Checkpoint.Store.{
  StoreError, checkpoint_ops, set_ciphertext_if_absent,
}
use lightchain_worker.Pipeline.Checkpoint.Canonical.{perform_all}
use lightchain_worker.Pipeline.Deadline.{new_deadline_guard}
use lightchain_worker.Pipeline.Handler.{HandlerConfig}
use lightchain_worker.Pipeline.Handler.Jobs.{JobHandler, process_job}
use lightchain_worker.Pipeline.Handler.Shared.{beside}
use lightchain_worker.Pipeline.Handler.Shared.Attempts.{attempt_with}
use lightchain_worker.Pipeline.Handler.Shared.Stored.{Storable, attempts_share_answer}
use lightchain_worker.Tests.Attempts.{payload}
use lightchain_worker.Tests.Checkpoints.{
  table, table_laws, codec, seconds_of, settings, blank, calls, first_offer,
}

-- The world counts the calls. The model answers with the count, so that no two attempts agree.
abbrev worker : JobHandler (StoreError ℕ) Bytes ℕ
worker = record {
  chain = record {
    has_job_acknowledged = λ id w. (ok true, w + 1);
    acknowledge_job = λ id w. (none, w + 1);
    acknowledge_job_async = none;
    await_confirmed = λ tx w. (none, w + 1);
  };
  deadlines = record { get_job_deadline = λ w. (ok (pos 100, true), w); now = λ w. pos w };
  fetch_blob = λ hash block w. (ok (4 ∷ []), w + 1);
  keys = record {
    get_key = λ id w. (some (7 ∷ []), w + 1);
    store_key = λ id key w. w;
    get_session_enc_worker_key = λ id w. (ok (7 ∷ []), w + 1);
    decrypt_session_key = λ sealed. ok sealed;
    decrypt = λ key sealed. ok sealed;
    encrypt = λ key text w. (ok (w ∷ []), w + 1);
  };
  model = record {
    unwrap_search = λ text. ok (text, false);
    search = none;
    build_augmented_prompt = λ text sources. text;
    decode = λ text. ok text;
    self_contained = λ v. false;
    transcribe = λ v w. (ok v, w);
    conversation_history = λ p key w. (ok [], w);
    infer = λ moment model v history deltas w. (ok (w ∷ []), w + 1);
    frames = λ w. 0;
    encode_response = λ text sources. ok text;
    sources_metadata = λ sources. [];
    publish_metadata = λ p sealed w. w;
    deliver_audio = λ v text w. w;
  };
  checkpoints = none;
  publisher = record {
    sign = λ p ciphertext. ok (1 ∷ []);
    publish_response = λ p signature ciphertext n w. w + 1;
    publish_error = λ p w. w + 1;
  };
  settlement = record {
    submit_blob_tx = λ ciphertext w. (ok (55 ∷ []), w + 1);
    complete_job = λ id hash digest w. (none, w + 1);
    has_job_completed = λ id w. (ok false, w + 1);
    mark_eligible = λ id w. (none, w + 1);
    keccak = λ ciphertext. length ciphertext;
  };
  add_to_counter = λ n w. w;
}

abbrev config : HandlerConfig
config = record {
  guard = record {
    deadline_guard_enabled = true;
    settle = pos 0;
    completion = pos 0;
    min_inference = pos 0;
  };
  reports_deadlines = false;
  ack_overlap_enabled = false;
  has_publisher = true;
  model_id_to_name = [];
  speech_model_name = [];
  search_max_results = pos 5;
  is_retry = true;
}

-- What the worker encrypts has one byte.
one_byte :
    (key text : Bytes) (w : ℕ) (y : Bytes)
    → (worker.keys.encrypt key text w).0 ≡ ok y
    → Storable table table_laws codec seconds_of settings 3 y
one_byte key text w [] e = absurd (cc)
one_byte key text w (a ∷ []) e = (λ f. cc, refl)
one_byte key text w (a ∷ (b ∷ y)) e = absurd (cc)

attempts_share_answer_example :
    process_job (beside worker (checkpoint_ops table codec seconds_of settings)) config payload (
      0,
      perform_all table table_laws codec seconds_of settings 3 calls
          (set_ciphertext_if_absent table codec seconds_of settings 3 (17 ∷ (255 ∷ [])) blank).1,
    )
    ≡ attempt_with
        (beside worker (checkpoint_ops table codec seconds_of settings))
        config
        (17 ∷ (255 ∷ []))
        (new_deadline_guard config.guard config.reports_deadlines)
        payload
        (
          0,
          perform_all table table_laws codec seconds_of settings 3 calls
              (set_ciphertext_if_absent table codec seconds_of settings 3
                (17 ∷ (255 ∷ []))
                blank).1,
        )
attempts_share_answer_example =
    attempts_share_answer table table_laws codec seconds_of settings worker config payload
      (17 ∷ (255 ∷ [])) (17 ∷ (255 ∷ [])) true blank calls 0 first_offer (λ w. refl) one_byte
