-- ===== src/Pipeline/Handler/Inference.antt =====
-- Stages 3 to 6 of internal/pipeline/handler.go: from the prompt's blob to the ciphertext of the
-- answer. The envelope of a prompt, the search, the model's call with its stream (`runInference`), the
-- history and the voice are operations of `ModelClient`.
use lightchain_worker.Base.{
  ℕ, ◌+◌, Bool, true, not, ◌&&◌, ◌||◌, Option, none, some, List, [], ◌∷◌, Result, ok, err, ℤ, pos,
  leb, leb_ℤ, length, ◌==◌, if◌then◌else◌,
}
use lightchain_worker.Base.Bytes.{Bytes, same_text}
use lightchain_worker.Sortition.Jobs.{JobPayload}
use lightchain_worker.Pipeline.Deadline.{
  JobDeadlineClient, DeadlineGuard, refused, unclamped, clamped, gate_inference, is_doomed_now,
}
use lightchain_worker.Pipeline.Handler.{
  JobError, doomed_job, unknown_model, speech_of_conversation, call_failed, retryable, final, Stage,
  ◌>>=◌, ◌>>◌, done, fail, call, update, HandlerConfig,
}
use lightchain_worker.Pipeline.Handler.Keys.{KeyClient, decrypt_prompt}

pub record Source : Type 0 where
  pub position : ℤ
  pub title : Bytes
  pub url : Bytes
  pub snippet : Bytes

-- V is the type of decoded prompts. The flag of an error of `unwrap_search` and of `decode` is
-- `ErrInvalidSelfContained`, that of `infer` is `ErrEmptyGeneration`.
pub record ModelClient (X V W : Type 0) : Type 0 where
  pub unwrap_search : Bytes → Result (Bool × X) (Bytes × Bool)
  pub search : Option (Bytes → ℤ → W → Result X (List Source) × W)
  pub build_augmented_prompt : Bytes → List Source → Bytes
  pub decode : Bytes → Result (Bool × X) V
  pub self_contained : V → Bool
  pub transcribe : V → W → Result (JobError X) V × W
  pub conversation_history : JobPayload → Bytes → W → Result X (List Bytes) × W
  pub infer :
      Option ℤ
      → (model : Bytes) → V
      → List Bytes
      → (stream_deltas : Bool) → W
      → Result (Bool × X) Bytes × W
  pub frames : W → ℕ
  pub encode_response : Bytes → List Source → Result X Bytes
  pub sources_metadata : List Source → Bytes
  pub publish_metadata : JobPayload → Bytes → W → W
  pub deliver_audio : V → Bytes → W → W

-- The prefixes `0x` and `0X`, each taken off once.
unfoldable pub trim_x : ℕ → Bytes → Bytes
trim_x x [] = []
trim_x x (a ∷ []) = a ∷ []
trim_x x (a ∷ (b ∷ s)) = if a == 48 && b == x then s else a ∷ (b ∷ s)

unfoldable pub to_lower : Bytes → Bytes
to_lower [] = []
to_lower (c ∷ s) = (if leb 65 c && leb c 90 then c + 32 else c) ∷ to_lower s

-- Model ids are ASCII.
unfoldable pub normalize_model_lookup_key : Bytes → Bytes
normalize_model_lookup_key id = to_lower (trim_x 88 (trim_x 120 id))

unfoldable pub all_hex : Bytes → Bool
all_hex [] = true
all_hex (c ∷ s) = (leb 48 c && leb c 57 || leb 97 c && leb c 102) && all_hex s

unfoldable pub looks_like_hex_model_id : Bytes → Bool
looks_like_hex_model_id id =
    let normalized = normalize_model_lookup_key id in length normalized == 64 && all_hex normalized

-- The table's keys are normalized when the handler is made.
unfoldable pub model_name_of : Bytes → List (Bytes × Bytes) → Option Bytes
model_name_of key [] = none
model_name_of key ((k, name) ∷ rows) =
    let rest = model_name_of key rows in
    if same_text (normalize_model_lookup_key k) key then some name else rest

-- `none` where no model is configured for the id.
unfoldable pub resolve_model_name : List (Bytes × Bytes) → Bytes → Option Bytes
resolve_model_name [] id = some id
resolve_model_name (row ∷ rows) id =
    elim (model_name_of (normalize_model_lookup_key id) (row ∷ rows)) [
      | some name ↦ some name
      | none ↦ if looks_like_hex_model_id id then none else some id
    ]

module _ {X V W : Type 0} (keys : KeyClient X W) (clock : JobDeadlineClient X W)
    (c : ModelClient X V W) where
  -- A prompt that cannot be decoded, which is final where the job is self-contained.
  abbrev pub decoded : {A : Type 0} → Result (Bool × X) A → Stage X W A
  decoded answer w = elim answer [
    | ok a ↦ (ok a, w)
    | err (invalid, e) ↦
        (err (if invalid then final (call_failed e) else retryable (call_failed e)), w)
  ]

  -- Stage 4.5. A search that fails leaves the prompt as it is.
  unfoldable pub augment : HandlerConfig → Bytes → Bool → Stage X W (Bytes × List Source)
  augment cfg text enabled w = elim c.search [
    | none ↦ (ok (text, []), w)
    | some search ↦
        if enabled
        then (let max =
              if leb_ℤ cfg.search_max_results (pos 0) then pos 5 else cfg.search_max_results in
            let (answer, w') = search text max w in
            (
              elim answer [
                | err e ↦ ok (text, [])
                | ok [] ↦ ok (text, [])
                | ok (s ∷ ss) ↦ ok (c.build_augmented_prompt text (s ∷ ss), s ∷ ss)
              ],
              w',
            ))
        else (ok (text, []), w)
  ]

  abbrev pub resolved : HandlerConfig → JobPayload → Stage X W Bytes
  resolved cfg p w = (
    elim (resolve_model_name cfg.model_id_to_name p.model_id) [
      | none ↦ err (retryable unknown_model)
      | some model ↦ ok model
    ],
    w,
  )

  abbrev pub speaks : HandlerConfig → Bytes → Bool
  speaks cfg model =
      not (same_text cfg.speech_model_name []) && same_text model cfg.speech_model_name

  -- The speech model takes no conversation.
  abbrev pub check_speech : HandlerConfig → Bytes → V → Stage X W (Unit {0})
  check_speech cfg model envelope =
      if c.self_contained envelope && speaks cfg model
      then fail (final speech_of_conversation)
      else done tt

  -- The moment at which the inference is cut off, if any.
  unfoldable pub gated : Option DeadlineGuard → Stage X W (Option ℤ)
  gated guard w =
      let (gate, w') = gate_inference clock guard w in
      (
        elim gate [
          | refused ↦ err (final doomed_job)
          | unclamped ↦ ok none
          | clamped moment ↦ ok (some moment)
        ],
        w',
      )

  unfoldable pub history_of : JobPayload → Bytes → V → Stage X W (List Bytes)
  history_of p key envelope =
      if c.self_contained envelope then done [] else call (c.conversation_history p key)

  -- A generation that is empty, or fails past the deadline, is not tried again.
  unfoldable pub failed_inference : Option DeadlineGuard → Bool → X → Stage X W Bytes
  failed_inference guard empty e w =
      if empty
      then (err (final (call_failed e)), w)
      else (let (past, w') = is_doomed_now clock guard w in
          (err (if past then final doomed_job else retryable (call_failed e)), w'))

  unfoldable pub infer :
      Option DeadlineGuard → Option ℤ → Bytes → V → List Bytes → Bool → Stage X W Bytes
  infer guard moment model envelope history stream_deltas w =
      let (answer, w') = c.infer moment model envelope history stream_deltas w in
      elim answer [ ok text ↦ (ok text, w') | err (empty, e) ↦ failed_inference guard empty e w' ]

  unfoldable pub publish_sources :
      HandlerConfig → JobPayload → Bytes → List Source → Stage X W (Unit {0})
  publish_sources cfg p key [] w = (ok tt, w)
  publish_sources cfg p key (s ∷ ss) w =
      if cfg.has_publisher
      then (let (answer, w') = keys.encrypt key (c.sources_metadata (s ∷ ss)) w in
          elim answer [ err e ↦ (ok tt, w') | ok sealed ↦ (ok tt, c.publish_metadata p sealed w') ])
      else (ok tt, w)

  abbrev pub encoded : Bytes → List Source → Stage X W Bytes
  encoded response sources = call (λ w. (c.encode_response response sources, w))

  abbrev pub counted : Bytes → Stage X W (Bytes × ℕ)
  counted ciphertext w = (ok (ciphertext, c.frames w), w)

  -- Stage 6, with the sources and the voice after the answer.
  unfoldable pub seal :
      HandlerConfig → JobPayload → Bytes → V → List Source → Bytes → Stage X W (Bytes × ℕ)
  seal cfg p key envelope sources response = do
    text ← encoded response sources
    ciphertext ← call (keys.encrypt key text)
    publish_sources cfg p key sources
    update (c.deliver_audio envelope response)
    counted ciphertext

  -- Stage 5.
  unfoldable pub answer :
      HandlerConfig
      → Option DeadlineGuard
      → JobPayload
      → (stream_deltas : Bool) → Bytes
      → Bytes
      → List Source
      → Stage X W (Bytes × ℕ)
  answer cfg guard p stream_deltas key text sources = do
    model ← resolved cfg p
    envelope ← decoded (c.decode text)
    check_speech cfg model envelope
    moment ← gated guard
    heard ← c.transcribe envelope
    history ← history_of p key heard
    response ← infer guard moment model heard history stream_deltas
    seal cfg p key heard sources response

  unfoldable pub run_inference_pipeline :
      HandlerConfig
      → Option DeadlineGuard
      → JobPayload
      → (stream_deltas : Bool) → Bytes
      → Stage X W (Bytes × ℕ)
  run_inference_pipeline cfg guard p stream_deltas blob = do
    opened ← decrypt_prompt keys p.session_id blob
    unwrapped ← decoded (c.unwrap_search opened.1)
    augmented ← augment cfg unwrapped.0 unwrapped.1
    answer cfg guard p stream_deltas opened.0 augmented.0 augmented.1
