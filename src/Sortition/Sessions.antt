-- ===== src/Sortition/Sessions.antt =====
-- internal/sortition/session_watcher.go: one pass over the chain's SessionRequested events and over
-- the requests that are pending, over any chain and any store of cursors. The pending set is an
-- association list; the order in which Go's `range` visits it is an argument. A capability mask is a
-- number. `chunk_end` is the same formula as the reconciler's. The ticker and the logs are left out.
pub mod Ends
pub mod Evaluation
pub mod Pending
pub mod Rounds
pub mod Passes
use Prim.Native.Nat.{bit_and}
use lightchain_worker.Base.{
  ℕ, zero, suc, ◌+◌, ◌-◌, Bool, true, false, not, ◌&&◌, ◌||◌, Option, none, some, List, [], ◌∷◌,
  Result, ok, err, ℤ, pos, add_i64, add_u64, ltb, leb, leb_ℤ, ◌==◌, if◌then◌else◌,
}
use lightchain_worker.Release.Reconciler.{chunk_end}
use lightchain_worker.Sortition.Cursor.{CursorOps, get_or_seed}

-- The fields of `chain.RequestInfo` that are read here. An open request has status 0.
pub record RequestInfo : Type 0 where
  pub status : ℕ
  pub expiry : ℕ  -- uint64

-- The chain, the counter of running jobs, and the clock in seconds.
pub record ClaimClient (X W : Type 0) : Type 0 where
  pub head : W → Result X ℕ × W
  pub filter_session_requested : (from_block to_block : ℕ) → W → Result X (List ℕ) × W
  pub get_request_info : ℕ → W → Result X RequestInfo × W
  pub get_required_capabilities : ℕ → W → Result X ℕ × W
  pub eligible_now : (id worker : ℕ) → W → Result X Bool × W
  pub claim_session : ℕ → W → Option X × W
  pub job_counter : W → ℤ
  pub unix_now : W → ℕ

pub record SessionConfig : Type 0 where
  pub worker : ℕ
  pub max_jobs : ℤ  -- int
  pub chunk : ℕ  -- uint64
  pub confs : ℕ
  pub own_caps : ℕ
  pub lookback : ℕ

abbrev pub Pending : Type 0
Pending = List (ℕ × Option ℕ)

pub record SessionWatcher (S W : Type 0) : Type 0 where
  pub cursor : S
  pub chain : W
  pub seeded : Bool
  pub reseed_tries : ℤ  -- int
  pub pending : Pending

-- `NewSessionWatcher`, of the options of the same names, over what a fresh worker holds.
unfoldable pub new_session_watcher :
    {S W : Type 0} → SessionConfig → S → W → SessionConfig × SessionWatcher S W
new_session_watcher o cursor chain = (
  record o { chunk = if o.chunk == 0 then 5000 else o.chunk },
  record { cursor = cursor; chain = chain; seeded = false; reseed_tries = pos 0; pending = [] },
)

abbrev pub reseed_max_attempts : ℤ
reseed_max_attempts = pos 10

-- The mask of a request, where it is known.
unfoldable pub mask_of : ℕ → Pending → Option ℕ
mask_of id [] = none
mask_of id ((i, m) ∷ ps) = let rest = mask_of id ps in if i == id then m else rest

unfoldable pub drop_request : ℕ → Pending → Pending
drop_request id [] = []
drop_request id ((i, m) ∷ ps) =
    let rest = drop_request id ps in if i == id then rest else (i, m) ∷ rest

-- `w.pending[id] = mask`
unfoldable pub put_request : ℕ → Option ℕ → Pending → Pending
put_request id mask [] = (id, mask) ∷ []
put_request id mask ((i, m) ∷ ps) =
    let rest = put_request id mask ps in if i == id then (id, mask) ∷ ps else (i, m) ∷ rest

unfoldable pub discovered : List ℕ → Pending → Pending
discovered [] ps = ps
discovered (id ∷ ids) ps = discovered ids (put_request id none ps)

-- What an evaluated request comes to: the next one, or the end of the evaluation.
pub data Look : Type 0 where
  on over : Look

pub data RoundError (E X : Type 0) : Type 0 where
  cursor_failed : E → RoundError E X
  chain_failed : X → RoundError E X

pub data RoundEnd (E X : Type 0) : Type 0 where
  out_of_fuel : RoundEnd E X
  ended : Option (RoundError E X) → RoundEnd E X

abbrev pub covers : (own caps : ℕ) → Bool
covers own caps = caps == 0 || bit_and caps own == caps

-- The block from which the look-back reads.
abbrev pub reseed_from : (lookback cursor : ℕ) → ℕ
reseed_from lookback cursor = if ltb lookback cursor then cursor - lookback + 1 else 1

module _ {X S W : Type 0} (c : ClaimClient X W) (cfg : SessionConfig) where
  abbrev pub forget_request : ℕ → SessionWatcher S W → SessionWatcher S W
  forget_request id w = record w { pending = drop_request id w.pending }

  -- A claim's error is not fatal, and the request is removed all the same.
  unfoldable pub try_claim : ℕ → SessionWatcher S W → Look × SessionWatcher S W
  try_claim id w =
      let (answer, w1) = c.eligible_now id cfg.worker w.chain in
      elim answer [
        | err e ↦ (on, record w { chain = w1 })
        | ok eligible ↦
            if eligible
            then (on, forget_request id (record w { chain = (c.claim_session id w1).1 }))
            else (on, record w { chain = w1 })
      ]

  unfoldable pub with_capabilities : ℕ → ℕ → SessionWatcher S W → Look × SessionWatcher S W
  with_capabilities id caps w =
      if not (covers cfg.own_caps caps)
      then (on, forget_request id w)
      else if leb_ℤ cfg.max_jobs (c.job_counter w.chain)
      then (over, w)
      else try_claim id w

  -- A mask that cannot be read counts as zero, and is not kept.
  unfoldable pub check_capabilities : ℕ → SessionWatcher S W → Look × SessionWatcher S W
  check_capabilities id w = elim (mask_of id w.pending) [
    | some caps ↦ with_capabilities id caps w
    | none ↦
        let (answer, w1) = c.get_required_capabilities id w.chain in
        elim answer [
          | err e ↦ with_capabilities id 0 (record w { chain = w1 })
          | ok caps ↦
              with_capabilities id caps
                (record w { chain = w1; pending = put_request id (some caps) w.pending })
        ]
  ]

  unfoldable pub evaluate_request : ℕ → SessionWatcher S W → Look × SessionWatcher S W
  evaluate_request id w =
      let (answer, w1) = c.get_request_info id w.chain in
      let w' = record w { chain = w1 } in
      elim answer [
        | err e ↦ (on, w')
        | ok ri ↦
            if not (ri.status == 0)
            then (on, forget_request id w')
            else if ltb ri.expiry (c.unix_now w1)
            then (on, forget_request id w')
            else check_capabilities id w'
      ]

  -- Phase 2, over the pending requests in some order.
  unfoldable pub evaluate : List ℕ → SessionWatcher S W → SessionWatcher S W
  evaluate [] w = w
  evaluate (id ∷ ids) w =
      let (look, w') = evaluate_request id w in elim look [ over ↦ w' | on ↦ evaluate ids w' ]

  -- The loop of `reseed`.
  unfoldable pub reseed_chunks :
      (cursor fuel from_block : ℕ) → SessionWatcher S W → Option (Option X) × SessionWatcher S W
  reseed_chunks cursor zero from_block w = (none, w)
  reseed_chunks cursor (suc fuel) from_block w =
      if leb from_block cursor
      then (let (answer, w1) =
            c.filter_session_requested from_block (chunk_end cfg.chunk from_block cursor) w.chain in
          elim answer [
            | err e ↦ (some (some e), record w { chain = w1 })
            | ok reqs ↦
                reseed_chunks cursor fuel (add_u64 from_block cfg.chunk)
                  (record w { chain = w1; pending = discovered reqs w.pending })
          ])
      else (some none, w)

  -- The fuel is the number of blocks up to the cursor, and two more. The first answer is `none` where
  -- it runs out.
  unfoldable pub reseed : ℕ → SessionWatcher S W → Option (Option X) × SessionWatcher S W
  reseed cursor w =
      if cfg.lookback == 0 || cursor == 0
      then (some none, w)
      else reseed_chunks cursor (suc (suc cursor)) (reseed_from cfg.lookback cursor) w

  -- `false` where the fuel runs out.
  unfoldable pub look_back_unless : Bool → ℕ → SessionWatcher S W → Bool × SessionWatcher S W
  look_back_unless true cursor w = (true, w)
  look_back_unless false cursor w =
      let (answer, w') = reseed cursor w in
      elim answer [
        | none ↦ (false, w')
        | some none ↦ (true, record w' { seeded = true })
        | some (some e) ↦
            let tries = add_i64 w'.reseed_tries (pos 1) in
            (true, record w' { reseed_tries = tries; seeded = leb_ℤ reseed_max_attempts tries })
      ]

  -- Phase 0, once per process.
  abbrev pub look_back : ℕ → SessionWatcher S W → Bool × SessionWatcher S W
  look_back cursor w = look_back_unless w.seeded cursor w
