-- ===== src/Pipeline/Handler/Shared/Acks.antt =====
-- The acknowledgement leaves what stands beside the chain as it is.
use lightchain_worker.Base.{
  ℕ, refl, inl, inr, Bool, true, false, Option, none, some, Result, Option-cases, Result-cases,
  if◌then◌else◌,
}
use lightchain_worker.Pipeline.Handler.{done, HandlerConfig, AckClient}
use lightchain_worker.Pipeline.Handler.Acks.{
  reconcile_ack_error, broadcast_ack, acknowledge, start_with, start_ack, ensure_acknowledged,
}
use lightchain_worker.Pipeline.Handler.Beside.{quiet, Quiet, IsQuiet, quietly, IsQuiet-then}
use lightchain_worker.Pipeline.Handler.Shared.{quiet_async, quiet_acks}

module _ {X W L : Type 0} (c : AckClient X W) where
  broadcast_ack-Quiet :
      (async : ℕ → W → Result X ℕ × W) (id : ℕ)
      → Quiet (broadcast_ack (quiet_acks {L = L} c) (λ i. quiet (async i)) id)
  unfolding broadcast_ack reconcile_ack_error
  broadcast_ack-Quiet async id s = elim (Result-cases (async id s.0).0) [
    | inl (tx, e) ↦ rw (e, broadcast_ack) refl
    | inr (x, e) ↦ rw (e, broadcast_ack) refl
  ]

  acknowledge-Quiet : (id : ℕ) → Quiet (acknowledge (quiet_acks {L = L} c) id)
  unfolding acknowledge reconcile_ack_error
  acknowledge-Quiet id s = elim (Option-cases (c.acknowledge_job id s.0).0) [
    | inl e ↦ rw (e, acknowledge) refl
    | inr (x, e) ↦ rw (e, acknowledge) refl
  ]

  start_if-Quiet :
      (b : Bool) (o : Option (ℕ → W → Result X ℕ × W)) (id : ℕ)
      → Quiet (start_with (quiet_acks {L = L} c) (if b then quiet_async o else none) id)
  unfolding start_with
  start_if-Quiet true none id s = acknowledge-Quiet id s
  start_if-Quiet true (some async) id s = broadcast_ack-Quiet async id s
  start_if-Quiet false o id s = acknowledge-Quiet id s

  acknowledge_unless-Quiet :
      (cfg : HandlerConfig) (id : ℕ) (acknowledged : Bool)
      → Quiet (if acknowledged then done none else start_ack (quiet_acks {L = L} c) cfg id)
  acknowledge_unless-Quiet cfg id true s = refl
  acknowledge_unless-Quiet cfg id false s =
      start_if-Quiet cfg.ack_overlap_enabled c.acknowledge_job_async id s

  pub ensure_acknowledged-IsQuiet :
      (cfg : HandlerConfig) (id : ℕ) → IsQuiet (ensure_acknowledged (quiet_acks {L = L} c) cfg id)
  unfolding ensure_acknowledged
  ensure_acknowledged-IsQuiet cfg id =
      IsQuiet-then (quietly (λ s. refl))
        (λ acknowledged. quietly (acknowledge_unless-Quiet cfg id acknowledged))
