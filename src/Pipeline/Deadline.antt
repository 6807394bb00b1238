-- ===== src/Pipeline/Deadline.antt =====
-- internal/pipeline/deadline.go: the guard that refuses work on a job which cannot settle in time,
-- over any chain and any clock. Times are integers without a bound, in nanoseconds as durations are;
-- `time.Until` saturates. An error of a gate is always `ErrJobDoomed` with no retry, so it is the
-- answer `doomed`; its text and the logs are left out.
pub mod Windows
use lightchain_worker.Base.{
  Bool, true, false, not, ◌&&◌, Option, none, some, Result, ok, err, ℤ, pos, negsuc, ◌+ℤ◌, ◌-ℤ◌,
  ltb_ℤ, leb_ℤ, add_i64, sub_i64, i64_half, ◌-◌, if◌then◌else◌,
}

-- `time.Until`, of a deadline and the present moment.
unfoldable pub until : (deadline now : ℤ) → ℤ
until deadline now =
    let gap = deadline -ℤ now in
    if leb_ℤ (pos i64_half) gap
    then pos (i64_half - 1)
    else if ltb_ℤ gap (negsuc (i64_half - 1))
    then negsuc (i64_half - 1)
    else gap

-- The chain's answer about one job, the deadline and whether the job is acknowledged, and the clock.
pub record JobDeadlineClient (X W : Type 0) : Type 0 where
  pub get_job_deadline : W → Result X (ℤ × Bool) × W
  pub now : W → ℤ

-- The reserves are `time.Duration`s. The job and the client are the arguments of the gates.
pub record DeadlineGuard : Type 0 where
  pub settle_reserve : ℤ
  pub completion_reserve : ℤ
  pub min_inference_budget : ℤ

-- The fields of `HandlerConfig` that are read here.
pub record GuardConfig : Type 0 where
  pub deadline_guard_enabled : Bool
  pub settle : ℤ
  pub completion : ℤ
  pub min_inference : ℤ

abbrev pub default_settle_reserve : ℤ
default_settle_reserve = pos 25000000000

abbrev pub default_completion_reserve : ℤ
default_completion_reserve = pos 12000000000

abbrev pub default_min_inference_budget : ℤ
default_min_inference_budget = pos 10000000000

unfoldable pub or_default : (configured otherwise : ℤ) → ℤ
or_default configured otherwise = if leb_ℤ configured (pos 0) then otherwise else configured

-- `none` where the guard is disabled or the chain client cannot report deadlines.
unfoldable pub new_deadline_guard : GuardConfig → (reports_deadlines : Bool) → Option DeadlineGuard
new_deadline_guard cfg reports_deadlines =
    if not cfg.deadline_guard_enabled
    then none
    else if not reports_deadlines
    then none
    else some (record {
      settle_reserve = or_default cfg.settle default_settle_reserve;
      completion_reserve = or_default cfg.completion default_completion_reserve;
      min_inference_budget = or_default cfg.min_inference default_min_inference_budget;
    })

pub data Verdict : Type 0 where
  proceed doomed : Verdict

-- The gate before inference: refused, or under the caller's context, or clamped to a moment.
pub data InferenceGate : Type 0 where
  refused unclamped : InferenceGate
  clamped : ℤ → InferenceGate

-- The gates, of what was read of the deadline and the moment.
unfoldable pub pickup_verdict : DeadlineGuard → Option (ℤ × Bool) → ℤ → Verdict
pickup_verdict g none now = proceed
pickup_verdict g (some (deadline, acknowledged)) now =
    let remaining = until deadline now in
    if leb_ℤ remaining (pos 0)
    then doomed
    else if acknowledged && leb_ℤ remaining (add_i64 g.settle_reserve g.min_inference_budget)
    then doomed
    else proceed

unfoldable pub inference_verdict : DeadlineGuard → Option (ℤ × Bool) → ℤ → InferenceGate
inference_verdict g none now = unclamped
inference_verdict g (some (deadline, false)) now = unclamped
inference_verdict g (some (deadline, true)) now =
    if leb_ℤ (until deadline now) (add_i64 g.settle_reserve g.min_inference_budget)
    then refused
    else clamped (deadline +ℤ sub_i64 (pos 0) g.settle_reserve)

unfoldable pub blob_verdict : DeadlineGuard → Option (ℤ × Bool) → ℤ → Verdict
blob_verdict g none now = proceed
blob_verdict g (some (deadline, acknowledged)) now =
    if leb_ℤ (until deadline now) g.completion_reserve then doomed else proceed

unfoldable pub is_past : Option (ℤ × Bool) → ℤ → Bool
is_past none now = false
is_past (some (deadline, acknowledged)) now = ltb_ℤ deadline now

module _ {X W : Type 0} (c : JobDeadlineClient X W) where
  -- `none` where the deadline cannot be read.
  unfoldable pub read_deadline : W → Option (ℤ × Bool) × W
  read_deadline w =
      let (answer, w') = c.get_job_deadline w in
      (elim answer [ err e ↦ none | ok read ↦ some read ], w')

  unfoldable pub check_pickup : Option DeadlineGuard → W → Verdict × W
  check_pickup none w = (proceed, w)
  check_pickup (some g) w =
      let (read, w') = read_deadline w in (pickup_verdict g read (c.now w'), w')

  unfoldable pub gate_inference : Option DeadlineGuard → W → InferenceGate × W
  gate_inference none w = (unclamped, w)
  gate_inference (some g) w =
      let (read, w') = read_deadline w in (inference_verdict g read (c.now w'), w')

  unfoldable pub gate_blob_submit : Option DeadlineGuard → W → Verdict × W
  gate_blob_submit none w = (proceed, w)
  gate_blob_submit (some g) w =
      let (read, w') = read_deadline w in (blob_verdict g read (c.now w'), w')

  unfoldable pub is_doomed_now : Option DeadlineGuard → W → Bool × W
  is_doomed_now none w = (false, w)
  is_doomed_now (some g) w = let (read, w') = read_deadline w in (is_past read (c.now w'), w')
