-- ===== src/Sortition/Sessions/Rounds.antt =====
-- `RunOnce` of internal/sortition/session_watcher.go as a whole: look-back, discovery, evaluation.
use lightchain_worker.Base.{
  ℕ, zero, suc, true, none, some, List, ok, err, add_u64, leb, ltb, if◌then◌else◌,
}
use lightchain_worker.Release.Reconciler.{chunk_end}
use lightchain_worker.Sortition.Cursor.{CursorOps, get_or_seed}
use lightchain_worker.Sortition.Sessions.{
  ClaimClient, SessionConfig, Pending, SessionWatcher, discovered, cursor_failed, chain_failed,
  RoundEnd, out_of_fuel, ended, evaluate, look_back,
}
use lightchain_worker.Sortition.Jobs.{safe_head_of}

module _ {E X S W : Type 0} (cursors : CursorOps E S) (c : ClaimClient X W)
    (cfg : SessionConfig) where
  -- Phase 1. The fuel is the number of blocks up to the safe head, and two more.
  unfoldable pub discover :
      (safe_head fuel lo : ℕ) → SessionWatcher S W → RoundEnd E X × SessionWatcher S W
  discover safe_head zero lo w = (out_of_fuel, w)
  discover safe_head (suc fuel) lo w =
      if leb lo safe_head
      then (let hi = chunk_end cfg.chunk lo safe_head in
          let (answer, w1) = c.filter_session_requested lo hi w.chain in
          elim answer [
            | err e ↦ (ended (some (chain_failed e)), record w { chain = w1 })
            | ok reqs ↦
                let (s, failure) = cursors.set hi w.cursor in
                let w' = record w { cursor = s; chain = w1; pending = discovered reqs w.pending } in
                elim failure [
                  | some e ↦ (ended (some (cursor_failed e)), w')
                  | none ↦ discover safe_head fuel (add_u64 lo cfg.chunk) w'
                ]
          ])
      else (ended none, w)

  -- Phase 2, unless phase 1 has failed. `order` is the order in which the requests are visited.
  unfoldable pub evaluate_after :
      (Pending → List ℕ) → RoundEnd E X × SessionWatcher S W → RoundEnd E X × SessionWatcher S W
  evaluate_after order (out_of_fuel, w) = (out_of_fuel, w)
  evaluate_after order (ended (some e), w) = (ended (some e), w)
  evaluate_after order (ended none, w) = (ended none, evaluate c cfg (order w.pending) w)

  abbrev pub discover_from :
      (safe_head cursor : ℕ) → SessionWatcher S W → RoundEnd E X × SessionWatcher S W
  discover_from safe_head cursor w =
      if ltb cursor safe_head
      then discover safe_head (suc (suc safe_head)) (add_u64 cursor 1) w
      else (ended none, w)

  -- Once the cursor is known.
  unfoldable pub round_from :
      (Pending → List ℕ)
      → (safe_head cursor : ℕ) → SessionWatcher S W
      → RoundEnd E X × SessionWatcher S W
  round_from order safe_head cursor w =
      let (in_time, w') = look_back c cfg cursor w in
      if in_time
      then evaluate_after order (discover_from safe_head cursor w')
      else (out_of_fuel, w')

  unfoldable pub run_once :
      (Pending → List ℕ) → SessionWatcher S W → RoundEnd E X × SessionWatcher S W
  run_once order w =
      let (answer, w1) = c.head w.chain in
      elim answer [
        | err e ↦ (ended (some (chain_failed e)), record w { chain = w1 })
        | ok head ↦
            let (start, s) =
              get_or_seed cursors (safe_head_of head cfg.confs) cfg.lookback w.cursor in
            elim start [
              | err e ↦ (ended (some (cursor_failed e)), record w { cursor = s; chain = w1 })
              | ok (cursor, fresh) ↦
                  round_from order (safe_head_of head cfg.confs) cursor
                    (record w { cursor = s; chain = w1; seeded = if fresh then true else w.seeded })
            ]
      ]
