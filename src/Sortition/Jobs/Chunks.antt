-- ===== src/Sortition/Jobs/Chunks.antt =====
-- What a chunk does to the cursor.
use lightchain_worker.Base.{
  ℕ, ◌+◌, ◌-◌, ◌≤◌, ◌<◌, ◌≡◌, ◌≢◌, refl, ap, subst, ◌∙◌, ◌⊎◌, inl, inr, Option, none, some, List,
  [], ◌∷◌, arith, ok, All, All-map, Option-cases, Result-cases,
}
use lightchain_worker.Sortition.Cursor.{CursorOps}
use lightchain_worker.Sortition.Jobs.{
  JobSubmittedEvent, JobWatcher, ServeClient, stop_block, Turn, next, stop, Chunk, finished,
  returned, PassError, close_chunk, serve_chunk, serve_event, stop_and_retry, serve_events,
}
use lightchain_worker.Sortition.Jobs.Events.{
  noted, recorded, Grew, Dealt, Dealt-Grew, State, serve_event-Turned,
}

abbrev pub InRange : ℕ → ℕ → List JobSubmittedEvent → Type 0
InRange lo hi = All (λ (ev : JobSubmittedEvent). (lo ≤ ev.block_number) × (ev.block_number ≤ hi))

abbrev pub InOrder : List JobSubmittedEvent → Type 0
InOrder [] = Unit
InOrder (ev ∷ evs) =
    All (λ (later : JobSubmittedEvent). ev.block_number ≤ later.block_number) evs × InOrder evs

stop_block_below :
    (lo hi : ℕ) (ev : JobSubmittedEvent)
    → 0 < lo
    → lo ≤ ev.block_number
    → ev.block_number ≤ hi
    → (stop_block ev lo ≡ ev.block_number - 1)
      × (lo ≤ stop_block ev lo + 1)
      × (stop_block ev lo < hi)
      × (stop_block ev lo < ev.block_number)
stop_block_below lo hi ev p a b = ground arith

Turn-cases : (t : Turn) → (t ≡ next) ⊎ (t ≡ stop)
Turn-cases next = inl refl
Turn-cases stop = inr refl

module _ {X W : Type 0} (c : ServeClient X W) (cfg : JobWatcher) where
  -- The events at blocks up to this one are dealt with.
  abbrev pub DealtTo : List ℕ → ℕ → List JobSubmittedEvent → Type 0
  DealtTo served b = All (λ (ev : JobSubmittedEvent). ev.block_number ≤ b → Dealt c cfg served ev)

  later_undealt :
      (served : List ℕ) (b k : ℕ) (evs : List JobSubmittedEvent)
      → b < k
      → All (λ (later : JobSubmittedEvent). k ≤ later.block_number) evs
      → DealtTo served b evs
  later_undealt served b k [] h above = tt
  later_undealt served b k (ev ∷ evs) h (a, above) =
      ((λ low. absurd (omega arith)), later_undealt served b k evs h above)

module _ {E X S W : Type 0} (cursors : CursorOps E S) (c : ServeClient X W) (cfg : JobWatcher) where
  -- All events are dealt with, or the cursor is set below the first that is not.
  abbrev pub Settled :
      (lo hi : ℕ) → List JobSubmittedEvent → State S W → Chunk E × State S W → Type 0
  Settled lo hi evs w (end, w') =
      Grew w.chain.1 w'.chain.1
      × (((end ≡ finished) × (w'.cursor ≡ w.cursor) × All (Dealt c cfg w'.chain.1) evs)
          ⊎ ((failure : Option E) × (end ≡ returned failure)
              × (b : ℕ) × (w'.cursor.1 ≡ b ∷ w.cursor.1)
              × (lo ≤ b + 1)
              × (b ≤ hi)
              × DealtTo c cfg w'.chain.1 b evs))

  serve_events-Settled :
      (lo hi : ℕ) (evs : List JobSubmittedEvent) (w : State S W)
      → 0 < lo
      → InRange lo hi evs
      → InOrder evs
      → Settled lo hi evs w (serve_events (noted cursors) (recorded c) cfg lo evs w)
  unfolding serve_events stop_and_retry noted
  serve_events-Settled lo hi [] w p range order = ((λ id h. h), inl (refl, refl, tt))
  serve_events-Settled lo hi (ev ∷ evs) w p (here, range) (above, order) =
      let (grew, kept, dealt) = serve_event-Turned c cfg ev w in
      let w1 = (serve_event (recorded c) cfg ev w).1 in
      elim (Turn-cases (serve_event (recorded c) cfg ev w).0) [
        | inr stopped ↦
            let (at, enough, below, before) = stop_block_below lo hi ev p here.0 here.1 in
            let (failure, w') = stop_and_retry (noted cursors) (recorded c) cfg ev lo w1 in
            let step : (returned failure, w')
                ≡ serve_events (noted cursors) (recorded c) cfg lo (ev ∷ evs) w =
              rw (stopped, serve_events) refl in
            let later =
              later_undealt c cfg w1.chain.1 (stop_block ev lo) ev.block_number evs before above in
            subst (Settled lo hi (ev ∷ evs) w) step (
              grew,
              inr (
                failure,
                refl,
                stop_block ev lo,
                ap (λ (s : S × List ℕ). stop_block ev lo ∷ s.1) kept,
                enough,
                omega arith,
                ((λ low. absurd (omega arith)), later),
              ),
            )
        | inl went ↦
            let (grew', ends) = serve_events-Settled lo hi evs w1 p range order in
            let w' = (serve_events (noted cursors) (recorded c) cfg lo evs w1).1 in
            let known : Dealt c cfg w'.chain.1 ev =
              Dealt-Grew c cfg w1.chain.1 w'.chain.1 ev grew' (dealt went) in
            let step : serve_events (noted cursors) (recorded c) cfg lo evs w1
                ≡ serve_events (noted cursors) (recorded c) cfg lo (ev ∷ evs) w =
              rw (went, serve_events) refl in
            subst (Settled lo hi (ev ∷ evs) w) step (
              (λ id h. grew' id (grew id h)),
              elim ends [
                | inl (fin, same, all) ↦ inl (fin, same ∙ kept, (known, all))
                | inr (failure, ret, b, wrote, low, high, some_of) ↦ inr (
                  failure,
                  ret,
                  b,
                  wrote ∙ ap (λ (s : S × List ℕ). b ∷ s.1) kept,
                  low,
                  high,
                  ((λ _. known), some_of),
                )
              ],
            )
      ]

-- The chain answers the events of the blocks that are asked for, in the order of the blocks.
abbrev pub LogsInOrder : {X W : Type 0} → ServeClient X W → Type 0
LogsInOrder {X} {W} c =
    (lo hi : ℕ) (w : W) (evs : List JobSubmittedEvent)
    → (c.filter_job_submitted lo hi w).0 ≡ ok evs
    → InRange lo hi evs × InOrder evs

-- The cursor moves from `a` to `b`: the chain has answered all events from block a + 1 on to some
-- block from b on, and those up to block b are dealt with.
abbrev pub Passed : {X W : Type 0} → ServeClient X W → JobWatcher → List ℕ → ℕ → ℕ → Type 0
Passed {X} {W} c cfg served a b =
    (hi : ℕ) × (w : W) × (evs : List JobSubmittedEvent) × (a ≤ b)
    × (b ≤ hi)
    × ((c.filter_job_submitted (a + 1) hi w).0 ≡ ok evs)
    × DealtTo c cfg served b evs

module _ {E X S W : Type 0} (cursors : CursorOps E S) (c : ServeClient X W) (cfg : JobWatcher)
    (logs : LogsInOrder c) where
  -- A chunk that ends with the pass sets the cursor once or not at all; one that does not sets it
  -- to the chunk's last block.
  abbrev pub Stepped : (a hi : ℕ) → State S W → Option (Option (PassError E X)) × State S W → Type 0
  Stepped a hi w (end, w') =
      Grew w.chain.1 w'.chain.1
      × (((end ≢ none) × (w'.cursor.1 ≡ w.cursor.1))
          ⊎ ((b : ℕ) × (w'.cursor.1 ≡ b ∷ w.cursor.1)
              × Passed c cfg w'.chain.1 a b
              × (end ≡ none → b ≡ hi)))

  All-Dealt :
      (served : List ℕ) (b : ℕ) (evs : List JobSubmittedEvent)
      → All (Dealt c cfg served) evs
      → DealtTo c cfg served b evs
  All-Dealt served b evs =
      All-map (Dealt c cfg served)
        (λ (ev : JobSubmittedEvent). ev.block_number ≤ b → Dealt c cfg served ev) (λ ev h _. h) evs

  close_chunk-Stepped :
      (a hi : ℕ) (w : State S W) (v : W) (evs : List JobSubmittedEvent) (r : Chunk E × State S W)
      → a < hi
      → (c.filter_job_submitted (a + 1) hi v).0 ≡ ok evs
      → Settled cursors c cfg (a + 1) hi evs w r
      → Stepped a hi w (close_chunk (noted cursors) (recorded c) cfg hi r)
  unfolding close_chunk noted
  close_chunk-Stepped a hi w v evs (finished, w') less read (grew, inr (f, wrong, _, _, _, _, _)) =
      absurd (ground arith)
  close_chunk-Stepped a hi w v evs (finished, w') less read (grew, inl (_, same, dealt)) =
      let stepped : Passed c cfg w'.chain.1 a hi =
        (hi, v, evs, omega arith, omega arith, read, All-Dealt w'.chain.1 hi evs dealt) in
      let wrote = ap (λ (s : S × List ℕ). hi ∷ s.1) same in
      elim (Option-cases (cursors.set hi w'.cursor.0).1) [
        | inl fine ↦ rw (fine, close_chunk) (grew, inr (hi, wrote, stepped, (λ _. refl)))
        | inr (e, failed) ↦ rw (failed, close_chunk) (grew, inr (hi, wrote, stepped, (λ _. refl)))
      ]
  close_chunk-Stepped a hi w v evs (returned f, w') less read (grew, inl (wrong, _, _)) =
      absurd (ground arith)
  close_chunk-Stepped a hi w v evs (returned none, w') less read
        (grew, inr (f, _, b, wrote, low, high, dealt)) =
      (
        grew,
        inr (b, wrote, (hi, v, evs, omega arith, high, read, dealt), (λ e. absurd (ground arith))),
      )
  close_chunk-Stepped a hi w v evs (returned (some e), w') less read
        (grew, inr (f, _, b, wrote, low, high, dealt)) =
      (
        grew,
        inr (b, wrote, (hi, v, evs, omega arith, high, read, dealt), (λ e. absurd (ground arith))),
      )

  pub serve_chunk-Stepped :
      (a hi : ℕ) (w : State S W)
      → a < hi
      → Stepped a hi w (serve_chunk (noted cursors) (recorded c) cfg (a + 1) hi w)
  unfolding serve_chunk recorded
  serve_chunk-Stepped a hi w less =
      let v = (c.filter_job_submitted (a + 1) hi w.chain.0).1 in
      let w1 = record w { chain = (v, w.chain.1) } in
      elim (Result-cases (c.filter_job_submitted (a + 1) hi w.chain.0).0) [
        | inr (e, failed) ↦ rw (failed, serve_chunk) ((λ id h. h), inl (ground arith, refl))
        | inl (evs, read) ↦
            let (range, order) = logs (a + 1) hi w.chain.0 evs read in
            let r = serve_events (noted cursors) (recorded c) cfg (a + 1) evs w1 in
            let step : close_chunk (noted cursors) (recorded c) cfg hi r
                ≡ serve_chunk (noted cursors) (recorded c) cfg (a + 1) hi w =
              rw (read, serve_chunk) refl in
            subst (Stepped a hi w) step (
              close_chunk-Stepped a hi w w.chain.0 evs r less read
                (serve_events-Settled cursors c cfg (a + 1) hi evs w1 (omega arith) range order))
      ]
