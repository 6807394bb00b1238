-- ===== src/Release/Scheduler/Pause.antt =====
-- A paused contract: the gate that a cycle sets, and that the next probes honour.
use lightchain_worker.Base.{
  ap, Option, ℕ, ◌≡◌, refl, ◌⊎◌, inl, inr, true, false, none, some, List, [], ◌∷◌, ok, err, ℤ, ◌<ℤ◌,
  ltb_ℤ-complete, add_i64, Bool-cases, Option-cases,
}
use lightchain_worker.Release.Store.File.{PendingJob}
use lightchain_worker.Release.Chain.{HeadInfo, ChainError, ChainOps, StoreOps}
use lightchain_worker.Release.Scheduler.{
  MetricsSink, Config, CycleResult, no_result, seconds, is_pause_error, collect_candidates,
}
use lightchain_worker.Release.Scheduler.Cycle.{
  World, per_job_fallback, record_attempt, apply_pause_backoff, after_revert, after_batch,
  send_batch, run_release_cycle,
}
use lightchain_worker.Release.Scheduler.Account.{drop_terminal_jobs-paused}
use lightchain_worker.Release.Scheduler.Trigger.{tick}

-- The world of a probe that stops at the gate: nothing was sent, nothing was written.
abbrev pub Stopped : {S W : Type 0} → World S W → S → W → World S W
Stopped w s c = record w { chain = c; store = s }

-- What a store answers when the gate is read behind a write of it that succeeded.
abbrev pub GateLaw : {E S : Type 0} → StoreOps E S → Type 0
GateLaw {E} {S} store =
    (t : ℤ) (s : S)
    → (store.set_next_allowed_attempt t s).1 ≡ none
    → let answer = (store.get_next_allowed_attempt (store.set_next_allowed_attempt t s).0).0 in
      (answer ≡ ok t) ⊎ ((e : E) × (answer ≡ err e))

-- A store that notes each write of the gate beside its state, the latest first: the value, and
-- what came of it.
unfoldable pub gate_noting : {E S : Type 0} → StoreOps E S → StoreOps E (S × List (ℤ × Option E))
gate_noting store = record {
  add_eligible = λ id t s. let (t', e) = store.add_eligible id t s.0 in ((t', s.1), e);
  pending = λ s. let (r, t) = store.pending s.0 in (r, (t, s.1));
  remove = λ ids s. let (t, e) = store.remove ids s.0 in ((t, s.1), e);
  record_failure = λ id t s. let (t', e) = store.record_failure id t s.0 in ((t', s.1), e);
  get_reconcile_block = λ s. let (r, t) = store.get_reconcile_block s.0 in (r, (t, s.1));
  set_reconcile_block = λ n s. let (t, e) = store.set_reconcile_block n s.0 in ((t, s.1), e);
  get_last_release_ts = λ s. let (r, t) = store.get_last_release_ts s.0 in (r, (t, s.1));
  set_last_release_ts = λ ts s. let (t, e) = store.set_last_release_ts ts s.0 in ((t, s.1), e);
  get_next_allowed_attempt = λ s. let (r, t) = store.get_next_allowed_attempt s.0 in (r, (t, s.1));
  set_next_allowed_attempt =
      λ ts s. let (t, e) = store.set_next_allowed_attempt ts s.0 in ((t, (ts, e) ∷ s.1), e);
}

gate_noting-GateLaw :
    {E S : Type 0} (store : StoreOps E S) → GateLaw store → GateLaw (gate_noting store)
unfolding gate_noting
gate_noting-GateLaw store law t s written = law t s.0 written

module _ {E S W : Type 0} (store : StoreOps E S) (chain : ChainOps W) where
  -- While the chain's time is before the gate, or the gate cannot be read, a probe reads the head
  -- and the gate and does nothing else.
  tick_gated :
      (cfg : Config) (worker_addr : ℕ) (w : World S W) (head : HeadInfo) (gate : ℤ)
      → (chain.head w.chain).0 ≡ ok head
      → ((store.get_next_allowed_attempt w.store).0 ≡ ok gate)
        ⊎ ((e : E) × ((store.get_next_allowed_attempt w.store).0 ≡ err e))
      → head.timestamp <ℤ gate
      → tick store chain cfg worker_addr w
        ≡ Stopped w (store.get_next_allowed_attempt w.store).1 (chain.head w.chain).1
  unfolding tick
  tick_gated cfg worker_addr w head gate h (inl g) before =
      rw (h, tick) (rw (g, tick) (rw (ltb_ℤ-complete head.timestamp gate before, tick) refl))
  tick_gated cfg worker_addr w head gate h (inr (e, g)) before = rw (h, tick) (rw (g, tick) refl)

  -- The store behind a pause: the gate was the last thing written.
  abbrev Gates : Config → ℤ → CycleResult → World S W → Type 0
  Gates cfg now r w =
      r.paused ≡ true
      → (s : S) × (w.store
          ≡ (store.set_next_allowed_attempt (add_i64 now (seconds cfg.paused_cycle_backoff)) s).0)

  after_revert-Gates :
      (cfg : Config) (window now : ℤ) (batch : List ℕ) (e : ChainError) (r : CycleResult)
      (w : World S W)
      → r.paused ≡ false
      → let (r', w') = after_revert store chain cfg window now batch e r w in Gates cfg now r' w'
  unfolding after_revert apply_pause_backoff record_attempt
  after_revert-Gates cfg window now batch e r w p = elim (Bool-cases (is_pause_error (some e))) [
    | inl paused ↦ rw (paused, after_revert) (λ _. (w.store, refl))
    | inr other ↦
        elim (Bool-cases (per_job_fallback store chain cfg window now batch no_result w).0.paused) [
          | inl late ↦
              rw (other, after_revert)
                (rw (late, after_revert)
                  (λ _. (
                    (per_job_fallback store chain cfg window now batch no_result w).1.store,
                    refl,
                  )))
          | inr never ↦ rw (other, after_revert) (rw (never, after_revert) (λ q. cc))
        ]
  ]

  send_batch-Gates :
      (cfg : Config) (window now : ℤ) (batch : List ℕ) (r : CycleResult) (w : World S W)
      → r.paused ≡ false
      → let (r', w') = send_batch store chain cfg window now batch r w in Gates cfg now r' w'
  unfolding send_batch after_batch record_attempt
  send_batch-Gates cfg window now [] r w p = λ q. cc
  send_batch-Gates cfg window now (id ∷ ids) r w p =
      elim (Option-cases (chain.release_jobs (id ∷ ids) w.chain).0) [
        | inl landed ↦ rw (landed, send_batch) (λ q. cc)
        | inr (e, failed) ↦
            rw (failed, send_batch) (after_revert-Gates cfg window now (id ∷ ids) e r _ p)
      ]

  run_release_cycle-Gates :
      (cfg : Config) (worker_addr : ℕ) (head : HeadInfo) (window : ℤ) (ps : List PendingJob)
      (w : World S W)
      → let (r, w') = run_release_cycle store chain cfg worker_addr head window ps w in
        Gates cfg head.timestamp r w'
  unfolding run_release_cycle
  run_release_cycle-Gates cfg worker_addr head window ps w =
      go (collect_candidates cfg ps head.timestamp) refl
    where
      go :
          (c : List PendingJob)
          → collect_candidates cfg ps head.timestamp ≡ c
          → let (r, w') = run_release_cycle store chain cfg worker_addr head window ps w in
            Gates cfg head.timestamp r w'
      go [] e = rw (e, run_release_cycle) (λ q. cc)
      go (p ∷ qs) e =
          rw (e, run_release_cycle)
            (send_batch-Gates cfg window head.timestamp _ _ _
              (drop_terminal_jobs-paused store chain _ _ _ refl))

module _ {E S W : Type 0} (store : StoreOps E S) (chain : ChainOps W) where
  -- A pause cannot be bypassed, over a store that answers a gate it has written, or an error. The
  -- last write of the gate that a cycle makes, when it met a paused contract in the batch or in the
  -- middle of the fallback, is of the time of its head plus the configured backoff. Either this
  -- write was refused, or the next probe, on any chain state whose time has not reached the gate, has
  -- no effect but to read the head and the gate: neither the threshold nor the time trigger runs a
  -- cycle.
  pub paused_cycle-gates_tick :
      GateLaw store
      → (cfg : Config) (worker_addr : ℕ) (head later : HeadInfo) (window : ℤ) (ps : List PendingJob)
        (s : S) (chain_now c : W) (m : MetricsSink)
      → let w : World (S × List (ℤ × Option E)) W = record {
        store = (s, []);
        chain = chain_now;
        metrics = m;
      } in
        let (r, w') =
          run_release_cycle (gate_noting store) chain cfg worker_addr head window ps w in
        let until = add_i64 head.timestamp (seconds cfg.paused_cycle_backoff) in
        r.paused ≡ true
        → (chain.head c).0 ≡ ok later
        → later.timestamp <ℤ until
        → let probed = record w' { chain = c } in
          (outcome : Option E) × (earlier : List (ℤ × Option E)) × (w'.store.1
            ≡ (until, outcome) ∷ earlier)
          × (((e : E) × (outcome ≡ some e))
              ⊎ (tick (gate_noting store) chain cfg worker_addr probed
                  ≡ Stopped probed
                      ((gate_noting store).get_next_allowed_attempt w'.store).1
                      (chain.head c).1))
  unfolding gate_noting
  paused_cycle-gates_tick law cfg worker_addr head later window ps s chain_now c m paused h before =
      let noting = gate_noting store in
      let w : World (S × List (ℤ × Option E)) W = record {
        store = (s, []);
        chain = chain_now;
        metrics = m;
      } in
      let (t, e) = run_release_cycle-Gates noting chain cfg worker_addr head window ps w paused in
      let until = add_i64 head.timestamp (seconds cfg.paused_cycle_backoff) in
      let outcome = (store.set_next_allowed_attempt until t.0).1 in
      (
        outcome,
        t.1,
        ap (λ p. p.1) e,
        elim (Option-cases outcome) [
          | inr (x, refused) ↦ inl (x, refused)
          | inl written ↦ inr (
              tick_gated noting chain cfg worker_addr _ later until h
                (rw e (gate_noting-GateLaw store law until t written)) before)
        ],
      )
