-- ===== src/Pipeline/Handler/Silence.antt =====
-- The keys of a session and the deadline's gates, which nobody sees.
pub mod Answering
use lightchain_worker.Base.{
  ℕ, refl, inl, inr, Bool, true, false, Option, none, some, List, [], ◌∷◌, Result, ok, err, ℤ, ◌&&◌,
  Bool-cases, Option-cases, Result-cases,
}
use lightchain_worker.Base.Bytes.{Bytes}
use lightchain_worker.Sortition.Jobs.{JobPayload}
use lightchain_worker.Pipeline.Deadline.{
  JobDeadlineClient, DeadlineGuard, read_deadline, gate_inference, is_doomed_now, check_pickup,
  gate_blob_submit,
}
use lightchain_worker.Pipeline.Handler.{HandlerConfig}
use lightchain_worker.Pipeline.Handler.Keys.{
  KeyClient, keep_key, derive_and_store_session_key, fetch_key, get_or_derive_session_key,
  decrypt_refreshed, decrypt_with, decrypt_prompt,
}
use lightchain_worker.Pipeline.Handler.Inference.{
  ModelClient, Source, decoded, check_speech, speaks, augment, gated, history_of, failed_inference,
  infer, publish_sources, seal, answer, run_inference_pipeline,
}
use lightchain_worker.Pipeline.Handler.Beside.{
  quiet_keys, quiet_deadlines, quiet_model, Quiet, IsQuiet, quietly, IsQuiet-then,
}

module _ {X W L : Type 0} (k : KeyClient X W) where
  keep_key-Quiet :
      (session : ℕ) (sealed : Bytes) → Quiet (keep_key (quiet_keys {L = L} k) session sealed)
  unfolding keep_key
  keep_key-Quiet session sealed s = elim (Result-cases (k.decrypt_session_key sealed)) [
    | inl (key, e) ↦ rw (e, keep_key) refl
    | inr (x, e) ↦ rw (e, keep_key) refl
  ]

  derive-Quiet : (session : ℕ) → Quiet (derive_and_store_session_key (quiet_keys {L = L} k) session)
  unfolding derive_and_store_session_key
  derive-Quiet session s = elim (Result-cases (k.get_session_enc_worker_key session s.0).0) [
    | inl (sealed, e) ↦
        rw (e, derive_and_store_session_key)
          (keep_key-Quiet session sealed ((k.get_session_enc_worker_key session s.0).1, s.1))
    | inr (x, e) ↦ rw (e, derive_and_store_session_key) refl
  ]

  fetch_key-Quiet : (session : ℕ) → Quiet (fetch_key (quiet_keys {L = L} k) session)
  unfolding fetch_key
  fetch_key-Quiet session s = elim (Option-cases (k.get_key session s.0).0) [
    | inl e ↦ rw (e, fetch_key) (derive-Quiet session ((k.get_key session s.0).1, s.1))
    | inr (key, e) ↦ rw (e, fetch_key) refl
  ]

  get_or_derive-Quiet :
      (session : ℕ) → Quiet (get_or_derive_session_key (quiet_keys {L = L} k) session)
  unfolding get_or_derive_session_key
  get_or_derive-Quiet session s = elim (Option-cases (k.get_key session s.0).0) [
    | inl e ↦
        rw (e, get_or_derive_session_key) (fetch_key-Quiet session ((k.get_key session s.0).1, s.1))
    | inr (key, e) ↦ rw (e, get_or_derive_session_key) refl
  ]

  decrypt_refreshed-Quiet :
      (session : ℕ) (sealed : Bytes) (first : X)
      → Quiet (decrypt_refreshed (quiet_keys {L = L} k) session sealed first)
  unfolding decrypt_refreshed
  decrypt_refreshed-Quiet session sealed first s = derive-Quiet session s

  decrypt_with-Quiet :
      (session : ℕ) (sealed key : Bytes)
      → Quiet (decrypt_with (quiet_keys {L = L} k) session sealed key)
  unfolding decrypt_with
  decrypt_with-Quiet session sealed key s = elim (Result-cases (k.decrypt key sealed)) [
    | inl (prompt, e) ↦ rw (e, decrypt_with) refl
    | inr (x, e) ↦ rw (e, decrypt_with) (decrypt_refreshed-Quiet session sealed x s)
  ]

  pub decrypt_prompt-IsQuiet :
      (session : ℕ) (sealed : Bytes)
      → IsQuiet (decrypt_prompt (quiet_keys {L = L} k) session sealed)
  unfolding decrypt_prompt
  decrypt_prompt-IsQuiet session sealed =
      IsQuiet-then (quietly (get_or_derive-Quiet session))
        (λ key. quietly (decrypt_with-Quiet session sealed key))

module _ {X W L : Type 0} (d : JobDeadlineClient X W) where
  pub check_pickup-Quiet :
      (guard : Option DeadlineGuard) → Quiet (check_pickup (quiet_deadlines {L = L} d) guard)
  unfolding check_pickup read_deadline
  check_pickup-Quiet none s = refl
  check_pickup-Quiet (some g) s = refl

  pub gate_blob_submit-Quiet :
      (guard : Option DeadlineGuard) → Quiet (gate_blob_submit (quiet_deadlines {L = L} d) guard)
  unfolding gate_blob_submit read_deadline
  gate_blob_submit-Quiet none s = refl
  gate_blob_submit-Quiet (some g) s = refl

  pub is_doomed_now-Quiet :
      (guard : Option DeadlineGuard) → Quiet (is_doomed_now (quiet_deadlines {L = L} d) guard)
  unfolding is_doomed_now read_deadline
  is_doomed_now-Quiet none s = refl
  is_doomed_now-Quiet (some g) s = refl

  pub gate_inference-Quiet :
      (guard : Option DeadlineGuard) → Quiet (gate_inference (quiet_deadlines {L = L} d) guard)
  unfolding gate_inference read_deadline
  gate_inference-Quiet none s = refl
  gate_inference-Quiet (some g) s = refl
