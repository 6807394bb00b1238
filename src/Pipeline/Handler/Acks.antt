-- ===== src/Pipeline/Handler/Acks.antt =====
-- Stages 1 and 1b of internal/pipeline/handler.go: the acknowledgement of a job, and the join of one
-- that was only broadcast.
use lightchain_worker.Base.{ℕ, true, false, Option, none, some, Result, ok, err, if◌then◌else◌}
use lightchain_worker.Pipeline.Handler.{
  call_failed, recheck_failed, retryable, Stage, ◌>>=◌, done, call, HandlerConfig, AckClient,
}

module _ {X W : Type 0} (c : AckClient X W) where
  -- A failed attempt may have landed all the same.
  unfoldable pub reconcile_ack_error : ℕ → X → Stage X W (Option ℕ)
  reconcile_ack_error id e w =
      let (answer, w') = c.has_job_acknowledged id w in
      (
        elim answer [
          | err checked ↦ err (retryable (recheck_failed e checked))
          | ok true ↦ ok none
          | ok false ↦ err (retryable (call_failed e))
        ],
        w',
      )

  unfoldable pub broadcast_ack : (ℕ → W → Result X ℕ × W) → ℕ → Stage X W (Option ℕ)
  broadcast_ack async id w =
      let (answer, w') = async id w in
      elim answer [ err e ↦ reconcile_ack_error id e w' | ok tx ↦ (ok (some tx), w') ]

  unfoldable pub acknowledge : ℕ → Stage X W (Option ℕ)
  acknowledge id w =
      let (failure, w') = c.acknowledge_job id w in
      elim failure [ some e ↦ reconcile_ack_error id e w' | none ↦ (ok none, w') ]

  abbrev pub async_ack_client : HandlerConfig → Option (ℕ → W → Result X ℕ × W)
  async_ack_client cfg = if cfg.ack_overlap_enabled then c.acknowledge_job_async else none

  -- Once it is known that the job is not acknowledged.
  unfoldable pub start_with : Option (ℕ → W → Result X ℕ × W) → ℕ → Stage X W (Option ℕ)
  start_with none id = acknowledge id
  start_with (some async) id = broadcast_ack async id

  abbrev pub start_ack : HandlerConfig → ℕ → Stage X W (Option ℕ)
  start_ack cfg id = start_with (async_ack_client cfg) id

  -- The transaction that stage 1b is to join, or `none` where the job is known to be acknowledged.
  unfoldable pub ensure_acknowledged : HandlerConfig → ℕ → Stage X W (Option ℕ)
  ensure_acknowledged cfg id = do
    acknowledged ← call (c.has_job_acknowledged id)
    if acknowledged then done none else start_ack cfg id

  -- After a join that failed.
  unfoldable pub recheck_ack : ℕ → X → Stage X W (Unit {0})
  recheck_ack id e w =
      let (answer, w') = c.has_job_acknowledged id w in
      (
        elim answer [
          | err checked ↦ err (retryable (recheck_failed e checked))
          | ok true ↦ ok tt
          | ok false ↦ err (retryable (call_failed e))
        ],
        w',
      )

  unfoldable pub await_acknowledged : ℕ → Option ℕ → Stage X W (Unit {0})
  await_acknowledged id none w = (ok tt, w)
  await_acknowledged id (some tx) w =
      let (failure, w') = c.await_confirmed tx w in
      elim failure [ none ↦ (ok tt, w') | some e ↦ recheck_ack id e w' ]
