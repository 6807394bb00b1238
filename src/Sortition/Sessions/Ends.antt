-- ===== src/Sortition/Sessions/Ends.antt =====
-- A pass of the session watcher ends.
use lightchain_worker.Base.{
  ℕ, zero, suc, ◌+◌, ◌<◌, ◌≡◌, ◌≢◌, refl, inl, inr, Bool, true, false, none, some, List, arith, ok,
  add_u64, add_u64_exact, leb, ltb, ◌==◌, ◌||◌, u64_mod, Bool-cases, Option-cases, Result-cases,
}
use lightchain_worker.Release.Reconciler.{chunk_end}
use lightchain_worker.Sortition.Cursor.{CursorOps, get_or_seed}
use lightchain_worker.Sortition.Sessions.{
  ClaimClient, SessionConfig, Pending, SessionWatcher, RoundEnd, out_of_fuel, ended, reseed_from,
  reseed_chunks, reseed, look_back_unless,
}
use lightchain_worker.Sortition.Jobs.{safe_head_of}
use lightchain_worker.Sortition.Sessions.Rounds.{
  discover, discover_from, evaluate_after, round_from, run_once,
}

module _ {X S W : Type 0} (c : ClaimClient X W) (cfg : SessionConfig) where
  reseed_chunks_end :
      (cursor fuel from_block : ℕ) (w : SessionWatcher S W)
      → 0 < cfg.chunk
      → cursor + cfg.chunk < u64_mod
      → 0 < fuel
      → cursor + 1 < fuel + from_block
      → (reseed_chunks c cfg cursor fuel from_block w).0 ≢ none
  unfolding reseed_chunks
  reseed_chunks_end cursor zero from_block w p fits some_fuel enough = absurd (omega arith)
  reseed_chunks_end cursor (suc fuel) from_block w p fits some_fuel enough =
      elim (Bool-cases (leb from_block cursor)) [
        | inr past ↦ rw (past, reseed_chunks) (ground arith)
        | inl inside ↦
            let hi = chunk_end cfg.chunk from_block cursor in
            let exact = add_u64_exact from_block cfg.chunk (ground arith) in
            elim (Result-cases (c.filter_session_requested from_block hi w.chain).0) [
              | inr (e, failed) ↦
                  rw (inside, reseed_chunks) (rw (failed, reseed_chunks) (ground arith))
              | inl (reqs, read) ↦
                  rw (inside, reseed_chunks)
                    (rw (read, reseed_chunks)
                      (rw exact (
                        reseed_chunks_end cursor fuel (from_block + cfg.chunk) _ p fits
                          (ground arith) (omega arith))))
            ]
      ]

  reseed_ends :
      (cursor : ℕ) (w : SessionWatcher S W)
      → 0 < cfg.chunk
      → cursor + cfg.chunk < u64_mod
      → (reseed c cfg cursor w).0 ≢ none
  unfolding reseed
  reseed_ends cursor w p fits = elim (Bool-cases (cfg.lookback == 0 || cursor == 0)) [
    | inl idle ↦ rw (idle, reseed) (ground arith)
    | inr active ↦
        rw (active, reseed)
          (reseed_chunks_end cursor (suc (suc cursor)) (reseed_from cfg.lookback cursor) w p fits
            (omega arith) (ground arith))
  ]

  look_back_ends :
      (seeded : Bool) (cursor : ℕ) (w : SessionWatcher S W)
      → 0 < cfg.chunk
      → cursor + cfg.chunk < u64_mod
      → (look_back_unless c cfg seeded cursor w).0 ≡ true
  unfolding look_back_unless
  look_back_ends true cursor w p fits = refl
  look_back_ends false cursor w p fits = elim (Option-cases (reseed c cfg cursor w).0) [
    | inl out ↦ absurd (reseed_ends cursor w p fits out)
    | inr (none, fine) ↦ rw (fine, look_back_unless) refl
    | inr (some e, failed) ↦ rw (failed, look_back_unless) refl
  ]

module _ {E X S W : Type 0} (cursors : CursorOps E S) (c : ClaimClient X W)
    (cfg : SessionConfig) where
  discover_ends :
      (safe_head fuel lo : ℕ) (w : SessionWatcher S W)
      → 0 < cfg.chunk
      → safe_head + cfg.chunk < u64_mod
      → 0 < fuel
      → safe_head + 1 < fuel + lo
      → (discover cursors c cfg safe_head fuel lo w).0 ≢ out_of_fuel
  unfolding discover
  discover_ends safe_head zero lo w p fits some_fuel enough = absurd (omega arith)
  discover_ends safe_head (suc fuel) lo w p fits some_fuel enough =
      elim (Bool-cases (leb lo safe_head)) [
        | inr past ↦ rw (past, discover) (ground arith)
        | inl inside ↦
            let hi = chunk_end cfg.chunk lo safe_head in
            let exact = add_u64_exact lo cfg.chunk (ground arith) in
            elim (Result-cases (c.filter_session_requested lo hi w.chain).0) [
              | inr (e, failed) ↦ rw (inside, discover) (rw (failed, discover) (ground arith))
              | inl (reqs, read) ↦ elim (Option-cases (cursors.set hi w.cursor).1) [
                | inr (e, unwritten) ↦
                    rw (inside, discover)
                      (rw (read, discover) (rw (unwritten, discover) (ground arith)))
                | inl written ↦
                    rw (inside, discover)
                      (rw (read, discover)
                        (rw (written, discover)
                          (rw exact (
                            discover_ends safe_head fuel (lo + cfg.chunk) _ p fits (ground arith)
                              (omega arith)))))
              ]
            ]
      ]

  evaluate_after_ends :
      (order : Pending → List ℕ) (r : RoundEnd E X × SessionWatcher S W)
      → r.0 ≢ out_of_fuel
      → (evaluate_after cursors c cfg order r).0 ≢ out_of_fuel
  unfolding evaluate_after
  evaluate_after_ends order (out_of_fuel, w) h = absurd (h refl)
  evaluate_after_ends order (ended (some e), w) h = h
  evaluate_after_ends order (ended none, w) h = h

  discover_from_ends :
      (safe_head cursor : ℕ) (w : SessionWatcher S W)
      → 0 < cfg.chunk
      → safe_head + cfg.chunk < u64_mod
      → (discover_from cursors c cfg safe_head cursor w).0 ≢ out_of_fuel
  discover_from_ends safe_head cursor w p fits = elim (Bool-cases (ltb cursor safe_head)) [
    | inr nothing_new ↦ rw nothing_new (ground arith)
    | inl more ↦ rw more (
        discover_ends safe_head (suc (suc safe_head)) (add_u64 cursor 1) w p fits (omega arith)
          (omega arith))
  ]

  round_from_ends :
      (order : Pending → List ℕ) (safe_head cursor : ℕ) (w : SessionWatcher S W)
      → 0 < cfg.chunk
      → safe_head + cfg.chunk < u64_mod
      → cursor + cfg.chunk < u64_mod
      → (round_from cursors c cfg order safe_head cursor w).0 ≢ out_of_fuel
  unfolding round_from
  round_from_ends order safe_head cursor w p fits low =
      rw (look_back_ends c cfg w.seeded cursor w p low)
        (evaluate_after_ends order _ (discover_from_ends safe_head cursor _ p fits))

  -- The head that the chain answers lies a chunk below 2 ^ 64, and so does the cursor that is read.
  abbrev pub BlocksFit : SessionWatcher S W → Type 0
  BlocksFit w =
      (head : ℕ)
      → (c.head w.chain).0 ≡ ok head
      → (head + cfg.chunk < u64_mod)
        × ((cursor : ℕ) (fresh : Bool)
            → (get_or_seed cursors (safe_head_of head cfg.confs) cfg.lookback w.cursor).0
              ≡ ok (cursor, fresh)
            → cursor + cfg.chunk < u64_mod)

  -- A pass of the session watcher ends, with its look-back and its discovery, whatever the chain and
  -- the cursor's file do, if the chunk size is not zero and the head and the cursor lie a chunk
  -- below 2^64.
  pub run_round_ends :
      (order : Pending → List ℕ) (w : SessionWatcher S W)
      → 0 < cfg.chunk
      → BlocksFit w
      → (run_once cursors c cfg order w).0 ≢ out_of_fuel
  unfolding run_once
  run_round_ends order w p fit = elim (Result-cases (c.head w.chain).0) [
    | inr (e, failed) ↦ rw (failed, run_once) (ground arith)
    | inl (head, known) ↦
        let safe_head : ℕ = safe_head_of head cfg.confs in
        let bound = (fit head known).0 in
        elim (Result-cases (get_or_seed cursors safe_head cfg.lookback w.cursor).0) [
          | inr (e, failed) ↦ rw (known, run_once) (rw (failed, run_once) (ground arith))
          | inl ((cursor, fresh), read) ↦
              rw (known, run_once)
                (rw (read, run_once)
                  (round_from_ends order safe_head cursor _ p (ground arith)
                    ((fit head known).1 cursor fresh read)))
        ]
  ]
