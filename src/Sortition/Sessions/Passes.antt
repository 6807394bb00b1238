-- ===== src/Sortition/Sessions/Passes.antt =====
-- A whole pass of the session watcher.
use lightchain_worker.Base.{
  ℕ, zero, suc, ◌≡◌, refl, subst, inl, inr, Bool, true, false, none, some, List, [], ◌∷◌, arith,
  add_u64, leb, ltb, ◌==◌, ◌||◌, if◌then◌else◌, Bool-cases, Option-cases, Result-cases,
}
use lightchain_worker.Release.Reconciler.{chunk_end}
use lightchain_worker.Sortition.Cursor.{CursorOps, get_or_seed}
use lightchain_worker.Sortition.Sessions.{
  ClaimClient, SessionConfig, Pending, SessionWatcher, put_request, discovered, RoundEnd,
  out_of_fuel, ended, evaluate, reseed_chunks, reseed, look_back_unless,
}
use lightchain_worker.Sortition.Sessions.Pending.{
  recorded, has_request, has-put, Cached, Sound, Evaluated, mask_of-put,
}
use lightchain_worker.Sortition.Sessions.Evaluation.{
  unchanged-Evaluated, Evaluated-then, evaluate-Evaluated,
}
use lightchain_worker.Sortition.Sessions.Rounds.{
  discover, discover_from, evaluate_after, round_from, run_once,
}
use lightchain_worker.Sortition.Jobs.{safe_head_of}

has_request-discovered :
    (j : ℕ) (ids : List ℕ) (ps : Pending)
    → has_request j ps ≡ true
    → has_request j (discovered ids ps) ≡ true
unfolding discovered
has_request-discovered j [] ps there = there
has_request-discovered j (id ∷ ids) ps there =
    has_request-discovered j ids (put_request id none ps) (has-put j id none ps there)

module _ {X W : Type 0} (c : ClaimClient X W) (cfg : SessionConfig) where
  Cached-discovered :
      (ids : List ℕ) (ps : Pending) → Cached c cfg ps → Cached c cfg (discovered ids ps)
  unfolding discovered
  Cached-discovered [] ps cached = cached
  Cached-discovered (id ∷ ids) ps cached =
      Cached-discovered ids (put_request id none ps)
        (λ j caps h. cached j caps (ground (arith, mask_of-put j id none ps)))

module _ {X S W : Type 0} (c : ClaimClient X W) (cfg : SessionConfig) where
  -- Events that are found, whatever else the look at the chain changes.
  found-Evaluated :
      (ids : List ℕ) (w w' : SessionWatcher S (W × List ℕ))
      → w'.pending ≡ discovered ids w.pending
      → w'.chain.1 ≡ w.chain.1
      → Sound c cfg w
      → Evaluated c cfg w w'
  found-Evaluated ids w w' pending same (claims, cached) = (
    (rw same claims, rw pending (Cached-discovered c cfg ids w.pending cached)),
    (λ j there. inl (rw pending (has_request-discovered j ids w.pending there))),
    (λ j h. rw same h),
  )

  -- The look at the chain alone.
  moved-Evaluated :
      (w w' : SessionWatcher S (W × List ℕ))
      → w'.pending ≡ w.pending
      → w'.chain.1 ≡ w.chain.1
      → Sound c cfg w
      → Evaluated c cfg w w'
  unfolding discovered
  moved-Evaluated w w' = found-Evaluated [] w w'

  reseed_chunks-Evaluated :
      (cursor fuel from_block : ℕ) (w : SessionWatcher S (W × List ℕ))
      → Sound c cfg w
      → Evaluated c cfg w (reseed_chunks (recorded c) cfg cursor fuel from_block w).1
  unfolding reseed_chunks recorded
  reseed_chunks-Evaluated cursor zero from_block w sound = unchanged-Evaluated c cfg w sound
  reseed_chunks-Evaluated cursor (suc fuel) from_block w sound =
      elim (Bool-cases (leb from_block cursor)) [
        | inr past ↦ rw (past, reseed_chunks) (unchanged-Evaluated c cfg w sound)
        | inl inside ↦
            let hi = chunk_end cfg.chunk from_block cursor in
            let v = (c.filter_session_requested from_block hi w.chain.0).1 in
            elim (Result-cases (c.filter_session_requested from_block hi w.chain.0).0) [
              | inr (e, failed) ↦
                  rw (inside, reseed_chunks)
                    (rw (failed, reseed_chunks)
                      (moved-Evaluated w (record w { chain = (v, w.chain.1) }) refl refl sound))
              | inl (reqs, read) ↦
                  let w1 : SessionWatcher S (W × List ℕ) = record w {
                    chain = (v, w.chain.1);
                    pending = discovered reqs w.pending;
                  } in
                  let first = found-Evaluated reqs w w1 refl refl sound in
                  let rest =
                    reseed_chunks-Evaluated cursor fuel (add_u64 from_block cfg.chunk) w1 first.0 in
                  let same : (reseed_chunks (recorded c) cfg cursor fuel
                        (add_u64 from_block cfg.chunk) w1).1
                      ≡ (reseed_chunks (recorded c) cfg cursor (suc fuel) from_block w).1 =
                    rw (inside, reseed_chunks) (rw (read, reseed_chunks) refl) in
                  subst (Evaluated c cfg w) same (
                    Evaluated-then c cfg w w1
                      (reseed_chunks (recorded c) cfg cursor fuel (add_u64 from_block cfg.chunk)
                        w1).1
                      first rest)
            ]
      ]

  reseed-Evaluated :
      (cursor : ℕ) (w : SessionWatcher S (W × List ℕ))
      → Sound c cfg w
      → Evaluated c cfg w (reseed (recorded c) cfg cursor w).1
  unfolding reseed
  reseed-Evaluated cursor w sound = elim (Bool-cases (cfg.lookback == 0 || cursor == 0)) [
    | inl idle ↦ rw (idle, reseed) (unchanged-Evaluated c cfg w sound)
    | inr active ↦ rw (active, reseed) (reseed_chunks-Evaluated cursor _ _ w sound)
  ]

  look_back-Evaluated :
      (seeded : Bool) (cursor : ℕ) (w : SessionWatcher S (W × List ℕ))
      → Sound c cfg w
      → Evaluated c cfg w (look_back_unless (recorded c) cfg seeded cursor w).1
  unfolding look_back_unless
  look_back-Evaluated true cursor w sound = unchanged-Evaluated c cfg w sound
  look_back-Evaluated false cursor w sound =
      let looked = reseed-Evaluated cursor w sound in
      elim (Option-cases (reseed (recorded c) cfg cursor w).0) [
        | inl out ↦ rw (out, look_back_unless) looked
        | inr (none, fine) ↦ rw (fine, look_back_unless) looked
        | inr (some e, failed) ↦ rw (failed, look_back_unless) looked
      ]

module _ {E X S W : Type 0} (cursors : CursorOps E S) (c : ClaimClient X W)
    (cfg : SessionConfig) where
  discover-Evaluated :
      (safe_head fuel lo : ℕ) (w : SessionWatcher S (W × List ℕ))
      → Sound c cfg w
      → Evaluated c cfg w (discover cursors (recorded c) cfg safe_head fuel lo w).1
  unfolding discover recorded
  discover-Evaluated safe_head zero lo w sound = unchanged-Evaluated c cfg w sound
  discover-Evaluated safe_head (suc fuel) lo w sound = elim (Bool-cases (leb lo safe_head)) [
    | inr past ↦ rw (past, discover) (unchanged-Evaluated c cfg w sound)
    | inl inside ↦
        let hi = chunk_end cfg.chunk lo safe_head in
        let v = (c.filter_session_requested lo hi w.chain.0).1 in
        elim (Result-cases (c.filter_session_requested lo hi w.chain.0).0) [
          | inr (e, failed) ↦
              rw (inside, discover)
                (rw (failed, discover)
                  (moved-Evaluated c cfg w (record w { chain = (v, w.chain.1) }) refl refl sound))
          | inl (reqs, read) ↦
              let s = (cursors.set hi w.cursor).0 in
              let w1 : SessionWatcher S (W × List ℕ) = record w {
                cursor = s;
                chain = (v, w.chain.1);
                pending = discovered reqs w.pending;
              } in
              let first = found-Evaluated c cfg reqs w w1 refl refl sound in
              elim (Option-cases (cursors.set hi w.cursor).1) [
                | inr (e, unwritten) ↦
                    rw (inside, discover) (rw (read, discover) (rw (unwritten, discover) first))
                | inl written ↦
                    let next = add_u64 lo cfg.chunk in
                    let rest = discover-Evaluated safe_head fuel next w1 first.0 in
                    let same : (discover cursors (recorded c) cfg safe_head fuel next w1).1
                        ≡ (discover cursors (recorded c) cfg safe_head (suc fuel) lo w).1 =
                      rw (inside, discover) (rw (read, discover) (rw (written, discover) refl)) in
                    subst (Evaluated c cfg w) same (
                      Evaluated-then c cfg w w1
                        (discover cursors (recorded c) cfg safe_head fuel next w1).1 first rest)
              ]
        ]
  ]

  evaluate_after-Evaluated :
      (order : Pending → List ℕ) (w : SessionWatcher S (W × List ℕ))
      (r : RoundEnd E X × SessionWatcher S (W × List ℕ))
      → Evaluated c cfg w r.1
      → Evaluated c cfg w (evaluate_after cursors (recorded c) cfg order r).1
  unfolding evaluate_after
  evaluate_after-Evaluated order w (out_of_fuel, w') h = h
  evaluate_after-Evaluated order w (ended (some e), w') h = h
  evaluate_after-Evaluated order w (ended none, w') h =
      Evaluated-then c cfg w w' (evaluate (recorded c) cfg (order w'.pending) w') h
        (evaluate-Evaluated c cfg (order w'.pending) w' h.0)

  round_from-Evaluated :
      (order : Pending → List ℕ) (safe_head cursor : ℕ) (w : SessionWatcher S (W × List ℕ))
      → Sound c cfg w
      → Evaluated c cfg w (round_from cursors (recorded c) cfg order safe_head cursor w).1
  unfolding round_from
  round_from-Evaluated order safe_head cursor w sound =
      let w1 = (look_back_unless (recorded c) cfg w.seeded cursor w).1 in
      let looked = look_back-Evaluated c cfg w.seeded cursor w sound in
      let found = discover_from cursors (recorded c) cfg safe_head cursor w1 in
      let after : Evaluated c cfg w found.1 = elim (Bool-cases (ltb cursor safe_head)) [
        | inr nothing_new ↦ rw nothing_new looked
        | inl more ↦
            let fuel = suc (suc safe_head) in
            rw more (
              Evaluated-then c cfg w w1
                (discover cursors (recorded c) cfg safe_head fuel (add_u64 cursor 1) w1).1 looked
                (discover-Evaluated safe_head fuel (add_u64 cursor 1) w1 looked.0))
      ] in
      elim (Bool-cases (look_back_unless (recorded c) cfg w.seeded cursor w).0) [
        | inr out ↦
            let same : w1 ≡ (round_from cursors (recorded c) cfg order safe_head cursor w).1 =
              rw (out, round_from) refl in
            subst (Evaluated c cfg w) same looked
        | inl in_time ↦
            let same : (evaluate_after cursors (recorded c) cfg order found).1
                ≡ (round_from cursors (recorded c) cfg order safe_head cursor w).1 =
              rw (in_time, round_from) refl in
            subst (Evaluated c cfg w) same (evaluate_after-Evaluated order w found after)
      ]

  -- A whole pass, whatever it finds and however it ends, tries to claim a request only if the chain
  -- has answered that it is open, not expired and the worker eligible, with fewer jobs running than
  -- the maximum, and its mask was answered and is covered, or could not be read. A request that was
  -- pending still is, unless a claim of it was tried, or the chain has answered that it is not open,
  -- or expired, or requires capabilities that the worker lacks. This holds in whatever order the
  -- requests are visited, if the claims and the masks that were there before are in order.
  pub run_once-Evaluated :
      (order : Pending → List ℕ) (w : SessionWatcher S (W × List ℕ))
      → Sound c cfg w
      → Evaluated c cfg w (run_once cursors (recorded c) cfg order w).1
  unfolding run_once recorded
  run_once-Evaluated order w sound =
      let v = (c.head w.chain.0).1 in
      elim (Result-cases (c.head w.chain.0).0) [
        | inr (e, failed) ↦
            rw (failed, run_once)
              (moved-Evaluated c cfg w (record w { chain = (v, w.chain.1) }) refl refl sound)
        | inl (head, known) ↦
            let safe_head = safe_head_of head cfg.confs in
            let found = get_or_seed cursors safe_head cfg.lookback w.cursor in
            elim (Result-cases found.0) [
              | inr (e, failed) ↦
                  rw (known, run_once)
                    (rw (failed, run_once)
                      (moved-Evaluated c cfg w
                        (record w { cursor = found.1; chain = (v, w.chain.1) }) refl refl sound))
              | inl ((cursor, fresh), read) ↦
                  let w1 : SessionWatcher S (W × List ℕ) = record w {
                    cursor = found.1;
                    chain = (v, w.chain.1);
                    seeded = if fresh then true else w.seeded;
                  } in
                  let rest = round_from-Evaluated order safe_head cursor w1 sound in
                  let same : (round_from cursors (recorded c) cfg order safe_head cursor w1).1
                      ≡ (run_once cursors (recorded c) cfg order w).1 =
                    rw (known, run_once) (rw (read, run_once) refl) in
                  subst (Evaluated c cfg w) same rest
            ]
      ]
