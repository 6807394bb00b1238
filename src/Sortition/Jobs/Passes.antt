-- ===== src/Sortition/Jobs/Passes.antt =====
-- What a pass does to the cursor, and that it ends.
use lightchain_worker.Base.{
  ℕ, zero, suc, ◌+◌, ◌≤◌, ◌<◌, ◌≡◌, ◌≢◌, refl, sym, subst, inl, inr, Bool, Option, none, List,
  arith, ok, All-map, add_u64, sub_u64, add_u64_exact, leb, u64_mod, Bool-cases, Option-cases,
  Result-cases,
}
use lightchain_worker.Base.Trails.{Trail, here, moved, Trail-map}
use lightchain_worker.Release.Reconciler.{chunk_end}
use lightchain_worker.Release.Reconciler.Passes.{chunk_end_bounds}
use lightchain_worker.Sortition.Cursor.{CursorOps, get_or_seed}
use lightchain_worker.Sortition.Jobs.{
  JobSubmittedEvent, JobWatcher, ServeClient, Watch, PassError, out_of_fuel, serve_chunk,
  serve_chunks, serve_from, safe_head_of, run_once,
}
use lightchain_worker.Sortition.Jobs.Events.{noted, recorded, Grew, Dealt, Dealt-Grew, State}
use lightchain_worker.Sortition.Jobs.Chunks.{
  LogsInOrder, DealtTo, Passed, Stepped, serve_chunk-Stepped,
}

next_chunk :
    (chunk lo safe_head : ℕ)
    → 0 < chunk
    → lo ≤ safe_head
    → safe_head + chunk < u64_mod
    → add_u64 lo chunk ≤ safe_head
    → add_u64 lo chunk ≡ chunk_end chunk lo safe_head + 1
unfolding chunk_end add_u64 sub_u64
next_chunk chunk lo safe_head p le fits below = ground arith

module _ {X W : Type 0} (c : ServeClient X W) (cfg : JobWatcher) where
  DealtTo-Grew :
      (old new : List ℕ) (b : ℕ) (evs : List JobSubmittedEvent)
      → Grew old new
      → DealtTo c cfg old b evs
      → DealtTo c cfg new b evs
  DealtTo-Grew old new b evs g =
      All-map (λ (ev : JobSubmittedEvent). ev.block_number ≤ b → Dealt c cfg old ev)
        (λ (ev : JobSubmittedEvent). ev.block_number ≤ b → Dealt c cfg new ev)
        (λ ev dealt low. Dealt-Grew c cfg old new ev g (dealt low)) evs

  Passed-Grew :
      (old new : List ℕ) → Grew old new → (a b : ℕ) → Passed c cfg old a b → Passed c cfg new a b
  Passed-Grew old new g a b (hi, w, evs, up, low, read, dealt) =
      (hi, w, evs, up, low, read, DealtTo-Grew old new b evs g dealt)

module _ {E X S W : Type 0} (cursors : CursorOps E S) (c : ServeClient X W) (cfg : JobWatcher) where
  -- The cursor has come this way, and all jobs that it has passed are dealt with.
  abbrev pub Travelled : ℕ → List ℕ → State S W → Type 0
  Travelled start before w = (b : ℕ) × Trail (Passed c cfg w.chain.1) start before b w.cursor.1

  Stepped-Travelled :
      (logs : LogsInOrder c) (start : ℕ) (before : List ℕ) (a hi : ℕ) (w w' : State S W)
      (outcome : Option (Option (PassError E X)))
      → Stepped cursors c cfg logs a hi w (outcome, w')
      → Trail (Passed c cfg w.chain.1) start before a w.cursor.1
      → Travelled start before w'
  Stepped-Travelled logs start before a hi w w' outcome (grew, moves) t =
      let t' = Trail-map (Passed-Grew c cfg w.chain.1 w'.chain.1 grew) t in
      elim moves [
        | inl (_, same) ↦ (a, subst (Trail (Passed c cfg w'.chain.1) start before a) (sym same) t')
        | inr (b, wrote, passed, _) ↦ (
          b,
          subst (Trail (Passed c cfg w'.chain.1) start before b) (sym wrote) (moved t' passed),
        )
      ]

  went_on :
      (logs : LogsInOrder c) (start : ℕ) (before : List ℕ) (a hi : ℕ) (w w' : State S W)
      (outcome : Option (Option (PassError E X)))
      → Stepped cursors c cfg logs a hi w (outcome, w')
      → outcome ≡ none
      → Trail (Passed c cfg w.chain.1) start before a w.cursor.1
      → Trail (Passed c cfg w'.chain.1) start before hi w'.cursor.1
  went_on logs start before a hi w w' outcome (grew, inl (stopped, _)) on t = absurd (stopped on)
  went_on logs start before a hi w w' outcome (grew, inr (b, wrote, passed, full)) on t =
      let t' = Trail-map (Passed-Grew c cfg w.chain.1 w'.chain.1 grew) t in
      subst (λ x. Trail (Passed c cfg w'.chain.1) start before x w'.cursor.1) (full on)
        (subst (Trail (Passed c cfg w'.chain.1) start before b) (sym wrote) (moved t' passed))

  serve_chunks-Travelled :
      (logs : LogsInOrder c) (start : ℕ) (before : List ℕ) (safe_head fuel lo a : ℕ) (w : State S W)
      → 0 < cfg.chunk
      → safe_head + cfg.chunk < u64_mod
      → (lo ≤ safe_head → lo ≡ a + 1)
      → Trail (Passed c cfg w.chain.1) start before a w.cursor.1
      → Travelled start before (serve_chunks (noted cursors) (recorded c) cfg safe_head fuel lo w).1
  unfolding serve_chunks
  serve_chunks-Travelled logs start before safe_head zero lo a w p fits at t = (a, t)
  serve_chunks-Travelled logs start before safe_head (suc fuel) lo a w p fits at t =
      elim (Bool-cases (leb lo safe_head)) [
        | inr over ↦ rw (over, serve_chunks) (a, t)
        | inl inside ↦
            let le : lo ≤ safe_head = ground arith in
            let hi : ℕ = chunk_end cfg.chunk lo safe_head in
            let (above, below, _) = chunk_end_bounds cfg.chunk lo safe_head p le fits in
            let (outcome, w') = serve_chunk (noted cursors) (recorded c) cfg lo hi w in
            let step : Stepped cursors c cfg logs a hi w (outcome, w') =
              subst
                (λ l.
                  Stepped cursors c cfg logs a hi w
                    (serve_chunk (noted cursors) (recorded c) cfg l hi w))
                (sym (at le)) (serve_chunk-Stepped cursors c cfg logs a hi w (omega arith)) in
            elim (Option-cases outcome) [
              | inr (e, over) ↦
                  let same : w'
                      ≡ (serve_chunks (noted cursors) (recorded c) cfg safe_head (suc fuel) lo
                          w).1 =
                    rw (inside, serve_chunks) (rw (over, serve_chunks) refl) in
                  subst (Travelled start before) same
                    (Stepped-Travelled logs start before a hi w w' outcome step t)
              | inl on ↦
                  let same : (serve_chunks (noted cursors) (recorded c) cfg safe_head fuel
                        (add_u64 lo cfg.chunk) w').1
                      ≡ (serve_chunks (noted cursors) (recorded c) cfg safe_head (suc fuel) lo
                          w).1 =
                    rw (inside, serve_chunks) (rw (on, serve_chunks) refl) in
                  subst (Travelled start before) same (
                    serve_chunks-Travelled logs start before safe_head fuel (add_u64 lo cfg.chunk)
                      hi w' p fits (next_chunk cfg.chunk lo safe_head p le fits)
                      (went_on logs start before a hi w w' outcome step on t))
            ]
      ]

  serve_from-Travelled :
      (logs : LogsInOrder c) (safe_head cursor : ℕ) (w : State S W)
      → 0 < cfg.chunk
      → safe_head + cfg.chunk < u64_mod
      → Travelled cursor w.cursor.1
          (serve_from (noted cursors) (recorded c) cfg safe_head cursor w).1
  unfolding serve_from
  serve_from-Travelled logs safe_head cursor w p fits = elim (Bool-cases (leb safe_head cursor)) [
    | inl nothing_new ↦ rw (nothing_new, serve_from) (cursor, here)
    | inr more ↦
        let same : (serve_chunks (noted cursors) (recorded c) cfg safe_head (suc (suc safe_head))
              (add_u64 cursor 1) w).1
            ≡ (serve_from (noted cursors) (recorded c) cfg safe_head cursor w).1 =
          rw (more, serve_from) refl in
        subst (Travelled cursor w.cursor.1) same (
          serve_chunks-Travelled logs cursor w.cursor.1 safe_head (suc (suc safe_head))
            (add_u64 cursor 1) cursor w p fits (λ _. add_u64_exact cursor 1 (ground arith)) here)
  ]

  -- The head is so far below 2 ^ 64 that a chunk added to it does not wrap around.
  abbrev pub HeadFits : W → Type 0
  HeadFits w = (head : ℕ) → (c.head w).0 ≡ ok head → head + cfg.chunk < u64_mod

  -- A pass moves the cursor without a gap: each block that it writes follows on the block written
  -- before, or on the cursor that it found, in that the chain has answered the events from the next
  -- block on, and every job of this worker up to the block written was given to the pipeline, or its
  -- session's key was answered and did not fit, or its session answered as not active.
  pub run_once-Trail :
      (logs : LogsInOrder c) (w : State S W) (head cursor : ℕ) (fresh : Bool)
      → 0 < cfg.chunk
      → HeadFits w.chain.0
      → (c.head w.chain.0).0 ≡ ok head
      → let found =
          get_or_seed (noted cursors) (safe_head_of head cfg.confs) cfg.lookback w.cursor in
        found.0 ≡ ok (cursor, fresh)
        → Travelled cursor found.1.1 (run_once (noted cursors) (recorded c) cfg w).1
  unfolding run_once recorded
  run_once-Trail logs w head cursor fresh p fits known read =
      let bound = fits head known in
      let found = get_or_seed (noted cursors) (safe_head_of head cfg.confs) cfg.lookback w.cursor in
      let w1 : State S W = record w {
        cursor = found.1;
        chain = ((c.head w.chain.0).1, w.chain.1);
      } in
      let same : (serve_from (noted cursors) (recorded c) cfg (safe_head_of head cfg.confs) cursor
            w1).1
          ≡ (run_once (noted cursors) (recorded c) cfg w).1 =
        rw (known, run_once) (rw (read, run_once) refl) in
      subst (Travelled cursor found.1.1) same
        (serve_from-Travelled logs (safe_head_of head cfg.confs) cursor w1 p (ground arith))

  serve_chunks_end :
      (safe_head fuel lo : ℕ) (w : Watch S W)
      → 0 < cfg.chunk
      → safe_head + cfg.chunk < u64_mod
      → 0 < fuel
      → safe_head + 1 < fuel + lo
      → (serve_chunks cursors c cfg safe_head fuel lo w).0 ≢ out_of_fuel
  unfolding serve_chunks
  serve_chunks_end safe_head zero lo w p fits some_fuel enough = absurd (omega arith)
  serve_chunks_end safe_head (suc fuel) lo w p fits some_fuel enough =
      elim (Bool-cases (leb lo safe_head)) [
        | inr over ↦ rw (over, serve_chunks) (ground arith)
        | inl inside ↦
            let hi : ℕ = chunk_end cfg.chunk lo safe_head in
            let exact = add_u64_exact lo cfg.chunk (ground arith) in
            elim (Option-cases (serve_chunk cursors c cfg lo hi w).0) [
              | inr (e, stopped) ↦
                  rw (inside, serve_chunks) (rw (stopped, serve_chunks) (ground arith))
              | inl on ↦
                  rw (inside, serve_chunks)
                    (rw (on, serve_chunks)
                      (rw exact (
                        serve_chunks_end safe_head fuel (lo + cfg.chunk) _ p fits (ground arith)
                          (omega arith))))
            ]
      ]

  -- A pass ends, whatever the cursor's file, the chain and the pipeline do, if the chunk size is not
  -- zero and the head lies a chunk below 2^64.
  pub run_once_ends :
      (w : Watch S W)
      → 0 < cfg.chunk
      → HeadFits w.chain
      → (run_once cursors c cfg w).0 ≢ out_of_fuel
  unfolding run_once serve_from
  run_once_ends w p fits = elim (Result-cases (c.head w.chain).0) [
    | inr (e, failed) ↦ rw (failed, run_once) (ground arith)
    | inl (head, known) ↦
        let bound = fits head known in
        let safe_head : ℕ = safe_head_of head cfg.confs in
        elim (Result-cases (get_or_seed cursors safe_head cfg.lookback w.cursor).0) [
          | inr (e, unread) ↦ rw (known, run_once) (rw (unread, run_once) (ground arith))
          | inl ((cursor, fresh), read) ↦ elim (Bool-cases (leb safe_head cursor)) [
            | inl old ↦
                rw (known, run_once) (rw (read, run_once) (rw (old, serve_from) (ground arith)))
            | inr more ↦
                rw (known, run_once)
                  (rw (read, run_once)
                    (rw (more, serve_from)
                      (serve_chunks_end safe_head (suc (suc safe_head)) (add_u64 cursor 1) _ p
                        (ground arith) (omega arith) (omega arith))))
          ]
        ]
  ]
