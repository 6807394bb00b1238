-- ===== src/Pipeline/Handler/Silence/Answering.antt =====
-- The stages from the prompt's blob to the ciphertext, which nobody sees.
use lightchain_worker.Base.{
  refl, inl, inr, Bool, true, false, Option, List, [], ◌∷◌, Result, ok, err, ℤ, ◌&&◌, Bool-cases,
  Option-cases, Result-cases,
}
use lightchain_worker.Base.Bytes.{Bytes}
use lightchain_worker.Sortition.Jobs.{JobPayload}
use lightchain_worker.Pipeline.Deadline.{JobDeadlineClient, DeadlineGuard}
use lightchain_worker.Pipeline.Handler.{HandlerConfig}
use lightchain_worker.Pipeline.Handler.Keys.{KeyClient}
use lightchain_worker.Pipeline.Handler.Inference.{
  ModelClient, Source, decoded, check_speech, speaks, augment, gated, history_of, failed_inference,
  infer, publish_sources, seal, answer, run_inference_pipeline,
}
use lightchain_worker.Pipeline.Handler.Beside.{
  quiet_keys, quiet_deadlines, quiet_model, Quiet, IsQuiet, quietly, IsQuiet-then,
}
use lightchain_worker.Pipeline.Handler.Silence.{
  decrypt_prompt-IsQuiet, is_doomed_now-Quiet, gate_inference-Quiet,
}

module _ {X V W L : Type 0} (k : KeyClient X W) (d : JobDeadlineClient X W)
    (c : ModelClient X V W) where
  decoded-Quiet :
      {A : Type 0} (r : Result (Bool × X) A)
      → Quiet (decoded (quiet_keys {L = L} k) (quiet_deadlines {L = L} d) (quiet_model {L = L} c) r)
  decoded-Quiet (ok a) s = refl
  decoded-Quiet (err e) s = refl

  augment-Quiet :
      (cfg : HandlerConfig) (text : Bytes) (enabled : Bool)
      → Quiet (
          augment
            (quiet_keys {L = L} k)
            (quiet_deadlines {L = L} d)
            (quiet_model {L = L} c)
            cfg
            text
            enabled)
  unfolding augment
  augment-Quiet cfg text true s = elim (Option-cases c.search) [
    | inl e ↦ rw (e, augment) refl
    | inr (find, e) ↦ rw (e, augment) refl
  ]
  augment-Quiet cfg text false s = elim (Option-cases c.search) [
    | inl e ↦ rw (e, augment) refl
    | inr (find, e) ↦ rw (e, augment) refl
  ]

  gated-Quiet :
      (guard : Option DeadlineGuard)
      → Quiet
          (gated (quiet_keys {L = L} k) (quiet_deadlines {L = L} d) (quiet_model {L = L} c) guard)
  unfolding gated
  gated-Quiet guard s = gate_inference-Quiet d guard s

  history_of-Quiet :
      (p : JobPayload) (key : Bytes) (v : V)
      → Quiet (
          history_of
            (quiet_keys {L = L} k)
            (quiet_deadlines {L = L} d)
            (quiet_model {L = L} c)
            p
            key
            v)
  unfolding history_of
  history_of-Quiet p key v s = elim (Bool-cases (c.self_contained v)) [
    | inl e ↦ rw (e, history_of) refl
    | inr e ↦ rw (e, history_of) refl
  ]

  failed_inference-Quiet :
      (guard : Option DeadlineGuard) (empty : Bool) (e : X)
      → Quiet (
          failed_inference
            (quiet_keys {L = L} k)
            (quiet_deadlines {L = L} d)
            (quiet_model {L = L} c)
            guard
            empty
            e)
  unfolding failed_inference
  failed_inference-Quiet guard true e s = refl
  failed_inference-Quiet guard false e s = is_doomed_now-Quiet d guard s

  infer-Quiet :
      (guard : Option DeadlineGuard) (moment : Option ℤ) (model : Bytes) (v : V)
      (history : List Bytes) (deltas : Bool)
      → Quiet (
          infer
            (quiet_keys {L = L} k)
            (quiet_deadlines {L = L} d)
            (quiet_model {L = L} c)
            guard
            moment
            model
            v
            history
            deltas)
  unfolding infer
  infer-Quiet guard moment model v history deltas s =
      elim (Result-cases (c.infer moment model v history deltas s.0).0) [
        | inl (text, e) ↦ rw (e, infer) refl
        | inr ((empty, x), e) ↦
            rw (e, infer)
              (failed_inference-Quiet guard empty x
                ((c.infer moment model v history deltas s.0).1, s.1))
      ]

  publish_sources-Quiet :
      (cfg : HandlerConfig) (p : JobPayload) (key : Bytes) (sources : List Source)
      → Quiet (
          publish_sources
            (quiet_keys {L = L} k)
            (quiet_deadlines {L = L} d)
            (quiet_model {L = L} c)
            cfg
            p
            key
            sources)
  unfolding publish_sources
  publish_sources-Quiet cfg p key [] s = refl
  publish_sources-Quiet cfg p key (a ∷ rest) s = elim (Bool-cases cfg.has_publisher) [
    | inr e ↦ rw (e, publish_sources) refl
    | inl e ↦ elim (Result-cases (k.encrypt key (c.sources_metadata (a ∷ rest)) s.0).0) [
      | inl (sealed, f) ↦ rw (e, f, publish_sources) refl
      | inr (x, f) ↦ rw (e, f, publish_sources) refl
    ]
  ]

  check_speech-Quiet :
      (cfg : HandlerConfig) (model : Bytes) (v : V)
      → Quiet (
          check_speech
            (quiet_keys {L = L} k)
            (quiet_deadlines {L = L} d)
            (quiet_model {L = L} c)
            cfg
            model
            v)
  check_speech-Quiet cfg model v s =
      elim (Bool-cases (
        c.self_contained v
        && speaks (quiet_keys {L = L} k) (quiet_deadlines {L = L} d) (quiet_model {L = L} c) cfg
            model)) [ inl e ↦ rw (e, check_speech) refl | inr e ↦ rw (e, check_speech) refl ]

  seal-IsQuiet :
      (cfg : HandlerConfig) (p : JobPayload) (key : Bytes) (v : V) (sources : List Source)
      (response : Bytes)
      → IsQuiet (
          seal
            (quiet_keys {L = L} k)
            (quiet_deadlines {L = L} d)
            (quiet_model {L = L} c)
            cfg
            p
            key
            v
            sources
            response)
  unfolding seal
  seal-IsQuiet cfg p key v sources response = IsQuiet-then (quietly (λ s. refl)) λ text.
      IsQuiet-then (quietly (λ s. refl)) λ ciphertext.
        IsQuiet-then (quietly (publish_sources-Quiet cfg p key sources))
          λ u. IsQuiet-then (quietly (λ s. refl)) λ u'. quietly (λ s. refl)

  answer-IsQuiet :
      (cfg : HandlerConfig) (guard : Option DeadlineGuard) (p : JobPayload) (deltas : Bool)
      (key text : Bytes) (sources : List Source)
      → IsQuiet (
          answer
            (quiet_keys {L = L} k)
            (quiet_deadlines {L = L} d)
            (quiet_model {L = L} c)
            cfg
            guard
            p
            deltas
            key
            text
            sources)
  unfolding answer
  answer-IsQuiet cfg guard p deltas key text sources = IsQuiet-then (quietly (λ s. refl)) λ model.
      IsQuiet-then (quietly (decoded-Quiet (c.decode text))) λ envelope.
        IsQuiet-then (quietly (check_speech-Quiet cfg model envelope)) λ u.
          IsQuiet-then (quietly (gated-Quiet guard)) λ moment.
            IsQuiet-then (quietly (λ s. refl)) λ heard.
              IsQuiet-then (quietly (history_of-Quiet p key heard)) λ history.
                IsQuiet-then (quietly (infer-Quiet guard moment model heard history deltas))
                  λ response. seal-IsQuiet cfg p key heard sources response

  pub run_inference_pipeline-IsQuiet :
      (cfg : HandlerConfig) (guard : Option DeadlineGuard) (p : JobPayload) (deltas : Bool)
      (blob : Bytes)
      → IsQuiet (
          run_inference_pipeline
            (quiet_keys {L = L} k)
            (quiet_deadlines {L = L} d)
            (quiet_model {L = L} c)
            cfg
            guard
            p
            deltas
            blob)
  unfolding run_inference_pipeline
  run_inference_pipeline-IsQuiet cfg guard p deltas blob =
      IsQuiet-then (decrypt_prompt-IsQuiet k p.session_id blob) λ opened.
        IsQuiet-then (quietly (decoded-Quiet (c.unwrap_search opened.1))) λ unwrapped.
          IsQuiet-then (quietly (augment-Quiet cfg unwrapped.0 unwrapped.1))
            λ augmented. answer-IsQuiet cfg guard p deltas opened.0 augmented.0 augmented.1
