-- ===== src/Release/Reconciler.antt =====
-- internal/release/reconciler.go: one pass over the chain's JobCompleted events, over any chain and
-- any store. Contexts, logs and the periodic goroutine are left out.
pub mod Passes
pub mod Coverage
pub mod Runs
pub mod Progress
use lightchain_worker.Base.{
  ℕ, zero, suc, ◌-◌, Bool, true, false, not, ◌&&◌, Option, none, some, List, [], ◌∷◌, Result, ok,
  err, ℤ, pos, add_u64, sub_u64, ltb, leb, ◌==◌, if◌then◌else◌,
}
use lightchain_worker.Release.Chain.{
  JobState, JobStateInfo, HeadInfo, ChainError, JobCompletedEvent, ChainOps, StoreOps, timed_out,
  resolved, released,
}

-- The fields of release.Config that a pass reads.
pub record ReconcilerConfig : Type 0 where
  pub start_block : ℕ  -- uint64
  pub chunk_size : ℕ  -- uint64
  pub confirmations : ℕ  -- uint64

-- The store, the chain, and the gauge `SetReconcileLastBlock`.
pub record Pass (S W : Type 0) : Type 0 where
  pub store : S
  pub chain : W
  pub last_block : ℕ

-- What `Run` returns an error for.
pub data Failure (E : Type 0) : Type 0 where
  store_failed : E → Failure E
  chain_failed state_failed : ChainError → Failure E

-- How the loop over the chunks ends.
pub data Ended (E : Type 0) : Type 0 where
  out_of_fuel : Ended E
  ended : Option (Failure E) → Ended E

-- `info.EscrowedFee == nil || info.EscrowedFee.Sign() == 0`, negated.
abbrev pub has_fee : Option ℤ → Bool
has_fee none = false
has_fee (some (pos zero)) = false
has_fee (some fee) = true

abbrev pub is_open : JobStateInfo → JobState → Bool
is_open info released = false
is_open info timed_out = false
is_open info resolved = has_fee info.escrowed_fee
is_open info s = true

-- The job of an event is recorded if it is this worker's and not settled.
unfoldable pub wanted : ℕ → JobStateInfo → Bool
wanted worker_addr info = info.worker == worker_addr && is_open info info.state

-- `hi` of the chunk that begins at `lo`.
unfoldable pub chunk_end : (chunk_size lo safe_head : ℕ) → ℕ
chunk_end chunk_size lo safe_head =
    let hi = sub_u64 (add_u64 lo chunk_size) 1 in if ltb safe_head hi then safe_head else hi

unfoldable pub first_block : ReconcilerConfig → ℕ → ℕ
first_block cfg cursor =
    if cursor == 0 && ltb 0 cfg.start_block then cfg.start_block else add_u64 cursor 1

-- A chunk size of 0 stands for 5000.
abbrev pub chunk_size_of : ReconcilerConfig → ℕ
chunk_size_of cfg = if cfg.chunk_size == 0 then 5000 else cfg.chunk_size

-- `firstStateErr` keeps the first error.
abbrev pub or_first : Option ChainError → ChainError → Option ChainError
or_first none e = some e
or_first (some d) e = some d

module _ {E S W : Type 0} (store : StoreOps E S) (chain : ChainOps W) where
  -- The loop over the events of a chunk. An error of the store ends the pass.
  unfoldable pub scan_events :
      ℕ
      → List JobCompletedEvent
      → Option ChainError
      → Pass S W
      → Result E (Option ChainError) × Pass S W
  scan_events worker_addr [] first_err w = (ok first_err, w)
  scan_events worker_addr (ev ∷ evs) first_err w =
      let (answer, c) = chain.get_job_state ev.job_id w.chain in
      elim answer [
        | err e ↦ scan_events worker_addr evs (or_first first_err e) (record w { chain = c })
        | ok info ↦ elim (wanted worker_addr info) [
          | false ↦ scan_events worker_addr evs first_err (record w { chain = c })
          | true ↦
              let (s, failure) = store.add_eligible ev.job_id info.completed_at w.store in
              elim failure [
                | some x ↦ (err x, record w { chain = c; store = s })
                | none ↦ scan_events worker_addr evs first_err (record w { chain = c; store = s })
              ]
        ]
      ]

  -- The cursor moves only if every lookup of the chunk was answered.
  unfoldable pub settle_chunk :
      ℕ → Result E (Option ChainError) → Pass S W → Option (Failure E) × Pass S W
  settle_chunk hi (err x) w = (some (store_failed x), w)
  settle_chunk hi (ok (some e)) w = (some (state_failed e), w)
  settle_chunk hi (ok none) w =
      let (s, failure) = store.set_reconcile_block hi w.store in
      elim failure [
        | some x ↦ (some (store_failed x), record w { store = s })
        | none ↦ (none, record w { store = s; last_block = hi })
      ]

  -- One round of the loop over the chunks, up to its last test.
  unfoldable pub scan_chunk : ℕ → (lo hi : ℕ) → Pass S W → Option (Failure E) × Pass S W
  scan_chunk worker_addr lo hi w =
      let (answer, c) = chain.filter_job_completed worker_addr lo hi w.chain in
      elim answer [
        | err e ↦ (some (chain_failed e), record w { chain = c })
        | ok events ↦
            let (r, w') = scan_events worker_addr events none (record w { chain = c }) in
            settle_chunk hi r w'
      ]

  unfoldable pub scan : ℕ → (chunk_size safe_head fuel lo : ℕ) → Pass S W → Ended E × Pass S W
  scan worker_addr chunk_size safe_head zero lo w = (out_of_fuel, w)
  scan worker_addr chunk_size safe_head (suc fuel) lo w = elim (leb lo safe_head) [
    | false ↦ (ended none, w)
    | true ↦
        let hi = chunk_end chunk_size lo safe_head in
        let (failure, w') = scan_chunk worker_addr lo hi w in
        elim failure [
          | some f ↦ (ended (some f), w')
          | none ↦ elim (hi == safe_head) [
            | true ↦ (ended none, w')
            | false ↦ scan worker_addr chunk_size safe_head fuel (add_u64 hi 1) w'
          ]
        ]
  ]

  -- `Run`. The fuel is the number of blocks up to the safe head, block 0 included, and one more.
  unfoldable pub run_pass : ReconcilerConfig → ℕ → Pass S W → Ended E × Pass S W
  run_pass cfg worker_addr w =
      let (cursor, s) = store.get_reconcile_block w.store in
      elim cursor [
        | err x ↦ (ended (some (store_failed x)), record w { store = s })
        | ok cursor ↦
            let (answer, c) = chain.head w.chain in
            let read = record w { store = s; chain = c } in
            elim answer [
              | err e ↦ (ended (some (chain_failed e)), read)
              | ok head ↦ elim (ltb head.number cfg.confirmations) [
                | true ↦ (ended none, read)
                | false ↦
                    let safe_head = head.number - cfg.confirmations in
                    scan worker_addr (chunk_size_of cfg) safe_head (suc (suc safe_head))
                      (first_block cfg cursor) read
              ]
            ]
      ]
