-- ===== src/Release/Reconciler/Runs.antt =====
-- The pass as a whole.
use lightchain_worker.Base.{
  ℕ, ◌+◌, ◌-◌, ◌<◌, ◌≡◌, ◌≢◌, inl, inr, [], arith, ok, ltb, ◌==◌, if◌then◌else◌, add_u64, u64_mod,
  Bool-cases, Result-cases,
}
use lightchain_worker.Release.Chain.{HeadInfo, ChainOps, StoreOps}
use lightchain_worker.Release.Reconciler.{
  ReconcilerConfig, Pass, out_of_fuel, first_block, chunk_size_of, run_pass,
}
use lightchain_worker.Base.Trails.{here}
use lightchain_worker.Release.Reconciler.Passes.{noted, scan_ends}
use lightchain_worker.Release.Reconciler.Coverage.{
  taking, listening, Noted, Travelled, scan-Travelled,
}

-- The head is so far below 2 ^ 64 that a chunk added to it does not wrap around.
abbrev pub HeadFits : {W : Type 0} → ChainOps W → ReconcilerConfig → W → Type 0
HeadFits chain cfg c =
    (head : HeadInfo) → (chain.head c).0 ≡ ok head → head.number + chunk_size_of cfg < u64_mod

module _ {E S W : Type 0} (store : StoreOps E S) (chain : ChainOps W) where
  -- A pass ends, whatever the store and the chain answer and whatever chunk size is configured,
  -- if the head lies a chunk below 2 ^ 64.
  pub run_pass_ends :
      (cfg : ReconcilerConfig) (worker_addr : ℕ) (w : Pass S W)
      → HeadFits chain cfg w.chain
      → (run_pass store chain cfg worker_addr w).0 ≢ out_of_fuel
  unfolding run_pass
  run_pass_ends cfg worker_addr w fits = elim (Result-cases (store.get_reconcile_block w.store).0) [
    | inr (x, unread) ↦ rw (unread, run_pass) (ground arith)
    | inl (cursor, read) ↦ elim (Result-cases (chain.head w.chain).0) [
      | inr (e, failed) ↦ rw (read, run_pass) (rw (failed, run_pass) (ground arith))
      | inl (head, known) ↦ elim (Bool-cases (ltb head.number cfg.confirmations)) [
        | inl shallow ↦
            rw (read, run_pass) (rw (known, run_pass) (rw (shallow, run_pass) (ground arith)))
        | inr deep ↦
            let bound = fits head known in
            rw (read, run_pass)
              (rw (known, run_pass)
                (rw (deep, run_pass)
                  (scan_ends store chain worker_addr (chunk_size_of cfg)
                    (head.number - cfg.confirmations) _ (first_block cfg cursor) _ (ground arith)
                    (omega arith) (omega arith) (omega arith))))
      ]
    ]
  ]

  -- Where a pass begins, as the last block behind it: the cursor, or if there is none, the block
  -- before the configured start.
  abbrev pub begins_behind : ReconcilerConfig → ℕ → ℕ
  begins_behind cfg cursor = if cursor == 0 then cfg.start_block - 1 else cursor

  first_block-begins_behind :
      (cfg : ReconcilerConfig) (cursor : ℕ)
      → cursor + 1 < u64_mod
      → first_block cfg cursor ≡ begins_behind cfg cursor + 1
  unfolding first_block add_u64
  first_block-begins_behind cfg cursor small = ground arith

  -- A pass moves the cursor without a gap, from the cursor that it found or the configured start:
  -- each block that it writes ends a range that begins right behind the block written before, whose
  -- events the chain has answered in this pass, and of each of these events the job's state was
  -- answered and, if the job is this worker's, neither released nor timed out, and where resolved has
  -- a fee in escrow, the store has taken it with its time of completion. The head lies a chunk below
  -- 2^64, and the cursor below 2^64 - 1.
  pub run_pass-Covered :
      (cfg : ReconcilerConfig) (worker_addr : ℕ) (s : S) (c : W) (gauge cursor : ℕ)
      → HeadFits chain cfg c
      → (store.get_reconcile_block s).0 ≡ ok cursor
      → cursor + 1 < u64_mod
      → let w : Noted E S W = record {
        store = ((s, []), []);
        chain = (c, []);
        last_block = gauge;
      } in
        Travelled worker_addr
          (begins_behind cfg cursor)
          (run_pass (noted (taking store)) (listening chain) cfg worker_addr w).1
  unfolding run_pass noted taking listening
  run_pass-Covered cfg worker_addr s c gauge cursor fits read small =
      let start = begins_behind cfg cursor in
      elim (Result-cases (chain.head c).0) [
        | inr (e, failed) ↦ rw (read, run_pass) (rw (failed, run_pass) (start, here))
        | inl (head, known) ↦ elim (Bool-cases (ltb head.number cfg.confirmations)) [
          | inl shallow ↦
              rw (read, run_pass) (rw (known, run_pass) (rw (shallow, run_pass) (start, here)))
          | inr deep ↦
              let bound = fits head known in
              rw (read, run_pass)
                (rw (known, run_pass)
                  (rw (deep, run_pass)
                    (scan-Travelled store chain worker_addr (chunk_size_of cfg)
                      (head.number - cfg.confirmations) _ start start (first_block cfg cursor) _
                      (ground arith) (omega arith) (first_block-begins_behind cfg cursor small)
                      here)))
        ]
      ]
