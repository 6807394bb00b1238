-- ===== src/Pipeline/Deadline/Windows.antt =====
-- What the gates of the deadline guard leave to the stages behind them.
use lightchain_worker.Base.{
  ◌≡◌, sym, ap, refl, subst, +ℤ_parts, -ℤ_parts, if◌then◌else◌, ◌∙◌, Bool, true, false, some, ok, ℤ,
  pos, arith, ◌≤ℤ◌, ◌<ℤ◌, ◌+ℤ◌, ◌-ℤ◌, leb_ℤ, IsInt64, add_i64, sub_i64, add_i64_exact,
  sub_i64_exact, pos_part, neg_part, ◌+◌,
}
use lightchain_worker.Pipeline.Deadline.{
  JobDeadlineClient, inference_verdict, blob_verdict, DeadlineGuard, until, read_deadline, proceed,
  refused, clamped, gate_inference, gate_blob_submit,
}

-- What the reserves of a guard have to be.
abbrev pub Reserves : DeadlineGuard → Type 0
Reserves g =
    (pos 0 <ℤ g.settle_reserve)
    × (pos 0 <ℤ g.min_inference_budget)
    × (g.completion_reserve <ℤ g.settle_reserve)
    × IsInt64 (g.settle_reserve +ℤ g.min_inference_budget)

until_exceeds :
    (deadline now reserve longer : ℤ)
    → now +ℤ longer ≤ℤ deadline
    → reserve <ℤ longer
    → IsInt64 longer
    → leb_ℤ (until deadline now) reserve ≡ false
unfolding until
until_exceeds deadline now reserve longer room less fits =
    ground (arith, +ℤ_parts now longer, -ℤ_parts deadline now)

-- The moment to which the inference is clamped lies the reserve before the deadline, where the reserves do not overflow.
settled_by :
    (deadline settle : ℤ)
    → pos 0 <ℤ settle
    → IsInt64 settle
    → pos_part ((deadline +ℤ sub_i64 (pos 0) settle) +ℤ settle) + neg_part deadline
      ≡ pos_part deadline + neg_part ((deadline +ℤ sub_i64 (pos 0) settle) +ℤ settle)
settled_by deadline settle positive fits =
    let less : sub_i64 (pos 0) settle ≡ pos 0 -ℤ settle =
      sub_i64_exact (pos 0) settle (ground (arith, -ℤ_parts (pos 0) settle)) in
    ground (
      arith,
      -ℤ_parts (pos 0) settle,
      +ℤ_parts deadline (sub_i64 (pos 0) settle),
      +ℤ_parts (deadline +ℤ sub_i64 (pos 0) settle) settle,
      less,
    )

-- What is known where the test of a gate fails.
until_late :
    (deadline now need : ℤ)
    → leb_ℤ (until deadline now) need ≡ false
    → pos 0 ≤ℤ need
    → now +ℤ need <ℤ deadline
unfolding until
until_late deadline now need late positive =
    ground (arith, +ℤ_parts now need, -ℤ_parts deadline now)

settle_fits : (g : DeadlineGuard) → Reserves g → IsInt64 g.settle_reserve
settle_fits g (settle, min, less, fits) =
    ground (arith, +ℤ_parts g.settle_reserve g.min_inference_budget)

pick_clamped :
    (late : Bool) (m moment : ℤ)
    → (if late then refused else clamped m) ≡ clamped moment
    → (moment ≡ m) × (late ≡ false)
pick_clamped true m moment gate = absurd (cc)
pick_clamped false m moment gate = (cc, refl)

inference_verdict-clamped :
    (g : DeadlineGuard) (deadline now moment : ℤ)
    → inference_verdict g (some (deadline, true)) now ≡ clamped moment
    → (moment ≡ deadline +ℤ sub_i64 (pos 0) g.settle_reserve)
      × (leb_ℤ (until deadline now) (add_i64 g.settle_reserve g.min_inference_budget) ≡ false)
unfolding inference_verdict
inference_verdict-clamped g deadline now moment gate =
    pick_clamped (leb_ℤ (until deadline now) (add_i64 g.settle_reserve g.min_inference_budget))
      (deadline +ℤ sub_i64 (pos 0) g.settle_reserve) moment gate

blob_verdict-early :
    (g : DeadlineGuard) (deadline now : ℤ) (acknowledged : Bool)
    → leb_ℤ (until deadline now) g.completion_reserve ≡ false
    → blob_verdict g (some (deadline, acknowledged)) now ≡ proceed
unfolding blob_verdict
blob_verdict-early g deadline now acknowledged early = rw early refl

-- A moment before the clamp lies the settle reserve before the deadline.
before_clamp :
    (g : DeadlineGuard) (deadline next now moment : ℤ)
    → Reserves g
    → moment ≡ deadline +ℤ sub_i64 (pos 0) g.settle_reserve
    → deadline ≤ℤ next
    → now ≤ℤ moment
    → now +ℤ g.settle_reserve ≤ℤ next
before_clamp g deadline next now moment reserves at kept in_time =
    let after : pos_part ((deadline +ℤ sub_i64 (pos 0) g.settle_reserve) +ℤ g.settle_reserve)
          + neg_part deadline
        ≡ pos_part deadline
          + neg_part ((deadline +ℤ sub_i64 (pos 0) g.settle_reserve) +ℤ g.settle_reserve) =
      settled_by deadline g.settle_reserve reserves.0 (settle_fits g reserves) in
    let by : now ≤ℤ deadline +ℤ sub_i64 (pos 0) g.settle_reserve =
      subst (λ m. now ≤ℤ m) at in_time in
    omega (
      arith,
      +ℤ_parts now g.settle_reserve,
      +ℤ_parts (deadline +ℤ sub_i64 (pos 0) g.settle_reserve) g.settle_reserve,
    )

clamp_after :
    (g : DeadlineGuard) (deadline now moment : ℤ)
    → Reserves g
    → (moment ≡ deadline +ℤ sub_i64 (pos 0) g.settle_reserve)
      × (leb_ℤ (until deadline now) (add_i64 g.settle_reserve g.min_inference_budget) ≡ false)
    → now +ℤ g.min_inference_budget <ℤ moment
clamp_after g deadline now moment (settle, min, less, fits) (at, late) =
    let sum : add_i64 g.settle_reserve g.min_inference_budget
        ≡ g.settle_reserve +ℤ g.min_inference_budget =
      add_i64_exact g.settle_reserve g.min_inference_budget fits in
    let room : now +ℤ (g.settle_reserve +ℤ g.min_inference_budget) <ℤ deadline =
      until_late deadline now (g.settle_reserve +ℤ g.min_inference_budget)
        (subst (λ n. leb_ℤ (until deadline now) n ≡ false) sum late)
        (omega (arith, +ℤ_parts g.settle_reserve g.min_inference_budget)) in
    let after : pos_part ((deadline +ℤ sub_i64 (pos 0) g.settle_reserve) +ℤ g.settle_reserve)
          + neg_part deadline
        ≡ pos_part deadline
          + neg_part ((deadline +ℤ sub_i64 (pos 0) g.settle_reserve) +ℤ g.settle_reserve) =
      settled_by deadline g.settle_reserve settle (settle_fits g (settle, min, less, fits)) in
    subst (λ m. now +ℤ g.min_inference_budget <ℤ m) (sym at)
      (omega (
        arith,
        +ℤ_parts now (g.settle_reserve +ℤ g.min_inference_budget),
        +ℤ_parts now g.min_inference_budget,
        +ℤ_parts g.settle_reserve g.min_inference_budget,
        +ℤ_parts (deadline +ℤ sub_i64 (pos 0) g.settle_reserve) g.settle_reserve,
      ))

module _ {X W : Type 0} (c : JobDeadlineClient X W) (g : DeadlineGuard) where
  read_deadline-known :
      (w : W) (read : ℤ × Bool)
      → (c.get_job_deadline w).0 ≡ ok read
      → (read_deadline c w).0 ≡ some read
  unfolding read_deadline
  read_deadline-known w read known = rw known refl

  -- The gate before the blob transaction lets a job through whose inference was clamped, at any
  -- reading of the clock by that gate up to the moment of the clamp, if the deadline that it reads is
  -- not earlier, and the reserves are positive, do not overflow, and leave more for settling than for
  -- completing.
  pub clamped_inference_can_submit :
      (w later : W) (moment deadline next : ℤ) (acknowledged : Bool)
      → Reserves g
      → (c.get_job_deadline w).0 ≡ ok (deadline, true)
      → (gate_inference c (some g) w).0 ≡ clamped moment
      → (c.get_job_deadline later).0 ≡ ok (next, acknowledged)
      → deadline ≤ℤ next
      → c.now (c.get_job_deadline later).1 ≤ℤ moment
      → (gate_blob_submit c (some g) later).0 ≡ proceed
  unfolding gate_inference gate_blob_submit read_deadline
  clamped_inference_can_submit w later moment deadline next acknowledged reserves known gate read
        kept in_time =
      let before : inference_verdict g (some (deadline, true)) (c.now (c.get_job_deadline w).1)
          ≡ clamped moment =
        ap (λ r. inference_verdict g r (c.now (c.get_job_deadline w).1))
          (sym (read_deadline-known w (deadline, true) known))
        ∙ gate in
      let at : moment ≡ deadline +ℤ sub_i64 (pos 0) g.settle_reserve =
        (inference_verdict-clamped g deadline (c.now (c.get_job_deadline w).1) moment before).0 in
      let room : c.now (c.get_job_deadline later).1 +ℤ g.settle_reserve ≤ℤ next =
        before_clamp g deadline next (c.now (c.get_job_deadline later).1) moment reserves at kept
          in_time in
      let early : leb_ℤ (until next (c.now (c.get_job_deadline later).1)) g.completion_reserve
          ≡ false =
        until_exceeds next (c.now (c.get_job_deadline later).1) g.completion_reserve
          g.settle_reserve room reserves.2 (settle_fits g reserves) in
      ap (λ r. blob_verdict g r (c.now (c.get_job_deadline later).1))
        (read_deadline-known later (next, acknowledged) read)
      ∙ blob_verdict-early g next (c.now (c.get_job_deadline later).1) acknowledged early

  -- Inference that is clamped has more than its least budget before the moment, if the reserves are
  -- positive and do not overflow.
  pub clamped_inference_has_budget :
      (w : W) (moment deadline : ℤ)
      → Reserves g
      → (c.get_job_deadline w).0 ≡ ok (deadline, true)
      → (gate_inference c (some g) w).0 ≡ clamped moment
      → c.now (c.get_job_deadline w).1 +ℤ g.min_inference_budget <ℤ moment
  unfolding gate_inference read_deadline
  clamped_inference_has_budget w moment deadline reserves known gate =
      let before : inference_verdict g (some (deadline, true)) (c.now (c.get_job_deadline w).1)
          ≡ clamped moment =
        ap (λ r. inference_verdict g r (c.now (c.get_job_deadline w).1))
          (sym (read_deadline-known w (deadline, true) known))
        ∙ gate in
      clamp_after g deadline (c.now (c.get_job_deadline w).1) moment reserves
        (inference_verdict-clamped g deadline (c.now (c.get_job_deadline w).1) moment before)
