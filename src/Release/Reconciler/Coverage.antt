-- ===== src/Release/Reconciler/Coverage.antt =====
-- What a pass of the reconciler has read and recorded where it moves the cursor. The chain's answers
-- and the jobs given to the store are noted beside the states of both.
use lightchain_worker.Base.{
  ℕ, zero, suc, ◌+◌, ◌<◌, ◌≡◌, ◌≢◌, refl, sym, ap, ◌∙◌, subst, ◌⊎◌, inl, inr, true, Option, none,
  some, List, [], ◌∷◌, arith, Result, ok, err, ℤ, pos, negsuc, leb, ◌==◌, All, All-map, In, u64_mod,
  add_u64_exact, add_u64, Bool-cases, Option-cases, Result-cases,
}
use lightchain_worker.Base.Trails.{Trail, moved, Trail-map}
use lightchain_worker.Release.Chain.{
  ChainError, JobState, JobStateInfo, JobCompletedEvent, ChainOps, StoreOps, submitted,
  acknowledged, completed, timed_out, disputed, resolved, released, unknown_state,
}
use lightchain_worker.Release.Reconciler.{
  has_fee, is_open, Pass, Failure, wanted, chunk_end, or_first, scan_events, settle_chunk,
  scan_chunk, scan,
}
use lightchain_worker.Release.Reconciler.Passes.{noted, chunk_end_bounds}

-- What a pass asked the chain, and the answer.
pub data Heard : Type 0 where
  filtered : (worker lo hi : ℕ) → Result ChainError (List JobCompletedEvent) → Heard
  looked_up : ℕ → Result ChainError JobStateInfo → Heard

unfoldable pub listening : {W : Type 0} → ChainOps W → ChainOps (W × List Heard)
listening chain = record {
  head = λ (c, log). let (a, c') = chain.head c in (a, (c', log));
  get_dispute_window = λ (c, log). let (a, c') = chain.get_dispute_window c in (a, (c', log));
  get_job_state =
      λ id (c, log). let (a, c') = chain.get_job_state id c in (a, (c', looked_up id a ∷ log));
  release_job = λ id (c, log). let (a, c') = chain.release_job id c in (a, (c', log));
  release_jobs = λ ids (c, log). let (a, c') = chain.release_jobs ids c in (a, (c', log));
  filter_job_completed = λ worker lo hi (c, log).
      let (a, c') = chain.filter_job_completed worker lo hi c in
      (a, (c', filtered worker lo hi a ∷ log));
}

-- A job that the store was given, and what came of it.
pub record Given (E : Type 0) : Type 0 where
  pub id : ℕ
  pub completed_at : ℤ
  pub failure : Option E

-- The same store, with the jobs that it was given noted beside its state.
unfoldable pub taking : {E S : Type 0} → StoreOps E S → StoreOps E (S × List (Given E))
taking store = record {
  add_eligible = λ id t (s, log).
      let (s', e) = store.add_eligible id t s in
      ((s', record { id = id; completed_at = t; failure = e } ∷ log), e);
  pending = λ (s, log). let (a, s') = store.pending s in (a, (s', log));
  remove = λ ids (s, log). let (s', e) = store.remove ids s in ((s', log), e);
  record_failure = λ id t (s, log). let (s', e) = store.record_failure id t s in ((s', log), e);
  get_reconcile_block = λ (s, log). let (a, s') = store.get_reconcile_block s in (a, (s', log));
  set_reconcile_block = λ b (s, log). let (s', e) = store.set_reconcile_block b s in ((s', log), e);
  get_last_release_ts = λ (s, log). let (a, s') = store.get_last_release_ts s in (a, (s', log));
  set_last_release_ts = λ t (s, log). let (s', e) = store.set_last_release_ts t s in ((s', log), e);
  get_next_allowed_attempt =
      λ (s, log). let (a, s') = store.get_next_allowed_attempt s in (a, (s', log));
  set_next_allowed_attempt =
      λ t (s, log). let (s', e) = store.set_next_allowed_attempt t s in ((s', log), e);
}

-- A pass with the jobs given, the cursors written and the answers heard.
abbrev pub Noted : (E S W : Type 0) → Type 0
Noted E S W = Pass ((S × List (Given E)) × List ℕ) (W × List Heard)

-- The job is this worker's, neither released nor timed out, and if a dispute over it was resolved, a
-- fee is left in escrow.
abbrev pub Owed : ℕ → JobStateInfo → Type 0
Owed worker_addr info =
    (info.worker ≡ worker_addr)
    × (info.state ≢ released)
    × (info.state ≢ timed_out)
    × (info.state ≡ resolved → (fee : ℤ) × (info.escrowed_fee ≡ some fee) × (fee ≢ pos 0))

has_fee-some :
    (escrow : Option ℤ) (fee : ℤ) → escrow ≡ some fee → fee ≢ pos 0 → has_fee escrow ≡ true
has_fee-some none fee e apart = absurd (cc)
has_fee-some (some (pos zero)) fee e apart = absurd (apart (cc))
has_fee-some (some (pos (suc n))) fee e apart = refl
has_fee-some (some (negsuc n)) fee e apart = refl

Owed-is_open :
    (worker_addr : ℕ) (info : JobStateInfo) (s : JobState)
    → info.state ≡ s
    → Owed worker_addr info
    → is_open info s ≡ true
Owed-is_open worker_addr info submitted e owed = refl
Owed-is_open worker_addr info acknowledged e owed = refl
Owed-is_open worker_addr info completed e owed = refl
Owed-is_open worker_addr info timed_out e (_, _, late, _) = absurd (late e)
Owed-is_open worker_addr info disputed e owed = refl
Owed-is_open worker_addr info resolved e (_, _, _, left) =
    let (fee, has, apart) = left e in has_fee-some info.escrowed_fee fee has apart
Owed-is_open worker_addr info released e (_, unpaid, _, _) = absurd (unpaid e)
Owed-is_open worker_addr info unknown_state e owed = refl

Owed-wanted :
    (worker_addr : ℕ) (info : JobStateInfo) → Owed worker_addr info → wanted worker_addr info ≡ true
unfolding wanted
Owed-wanted worker_addr info owed =
    let mine = owed.0 in
    let unsettled = Owed-is_open worker_addr info info.state refl owed in ground arith

-- The chain has answered with the state of the event's job, and if this worker is owed for it, the
-- store has taken it with the time of its completion.
abbrev pub Recorded : {E S W : Type 0} → ℕ → Noted E S W → JobCompletedEvent → Type 0
Recorded worker_addr w ev =
    (info : JobStateInfo) × In (looked_up ev.job_id (ok info)) w.chain.1
    × (Owed worker_addr info
        → In (record { id = ev.job_id; completed_at = info.completed_at; failure = none })
            w.store.0.1)

-- The events of the blocks behind `a` up to `b` were read, and each was recorded.
abbrev pub Passed : {E S W : Type 0} → ℕ → Noted E S W → ℕ → ℕ → Type 0
Passed worker_addr w a b =
    (evs : List JobCompletedEvent) × (a < b)
    × In (filtered worker_addr (a + 1) b (ok evs)) w.chain.1
    × All (Recorded worker_addr w) evs

-- Nothing that was noted is lost.
abbrev Grew : {E S W : Type 0} → Noted E S W → Noted E S W → Type 0
Grew {E} w w' =
    ((x : Heard) → In x w.chain.1 → In x w'.chain.1)
    × ((g : Given E) → In g w.store.0.1 → In g w'.store.0.1)

or_first_some : (first_err : Option ChainError) (e : ChainError) → or_first first_err e ≢ none
or_first_some none e h = absurd (ground arith)
or_first_some (some d) e h = absurd (ground arith)

module _ {E S W : Type 0} (worker_addr : ℕ) where
  Recorded-Grew :
      (w w' : Noted E S W) (ev : JobCompletedEvent)
      → Grew w w'
      → Recorded worker_addr w ev
      → Recorded worker_addr w' ev
  Recorded-Grew w w' ev (heard, given) (info, said, stored) =
      (info, heard _ said, λ owed. given _ (stored owed))

  Passed-Grew :
      (w w' : Noted E S W)
      → Grew w w'
      → (a b : ℕ) → Passed worker_addr w a b
      → Passed worker_addr w' a b
  Passed-Grew w w' g a b (evs, up, read, all) = (
    evs,
    up,
    g.0 _ read,
    All-map (Recorded worker_addr w) (Recorded worker_addr w') (λ ev. Recorded-Grew w w' ev g) evs
        all,
  )

  -- The cursor has come this way.
  abbrev pub Travelled : ℕ → Noted E S W → Type 0
  Travelled start w = (b : ℕ) × Trail (Passed worker_addr w) start [] b w.store.1

module _ {E S W : Type 0} (store : StoreOps E S) (chain : ChainOps W) (worker_addr : ℕ) where
  -- The events were gone through from `w`, and if no lookup and no write failed, each was recorded.
  abbrev Gone :
      List JobCompletedEvent
      → Option ChainError
      → Noted E S W
      → Result E (Option ChainError) × Noted E S W
      → Type 0
  Gone evs first_err w (r, w') =
      Grew w w'
      × (w'.store.1 ≡ w.store.1)
      × (r ≡ ok none → (first_err ≡ none) × All (Recorded worker_addr w') evs)

  abbrev gone_through :
      List JobCompletedEvent
      → Option ChainError
      → Noted E S W
      → Result E (Option ChainError) × Noted E S W
  gone_through = scan_events (noted (taking store)) (listening chain) worker_addr

  -- One event more, whose turn led from `w` to `v`.
  Gone-before :
      (ev : JobCompletedEvent) (evs : List JobCompletedEvent)
      (first_err next_err : Option ChainError) (w v : Noted E S W)
      (r : Result E (Option ChainError) × Noted E S W)
      → Grew w v
      → v.store.1 ≡ w.store.1
      → (next_err ≡ none → (first_err ≡ none) × Recorded worker_addr v ev)
      → Gone evs next_err v r
      → Gone (ev ∷ evs) first_err w r
  Gone-before ev evs first_err next_err w v r (heard, given) same turn (grew, same', done) = (
    (λ x h. grew.0 x (heard x h), λ g h. grew.1 g (given g h)),
    same' ∙ same,
    λ h.
        let (fine, all) = done h in
        let (fine', known) = turn fine in
        (fine', (Recorded-Grew worker_addr v r.1 ev grew known, all)),
  )

  abbrev looked : ℕ → Result ChainError JobStateInfo → Noted E S W → Noted E S W
  looked id answer w = record w {
    chain = ((chain.get_job_state id w.chain.0).1, looked_up id answer ∷ w.chain.1);
  }

  abbrev took : ℕ → ℤ → Option E → Noted E S W → Noted E S W
  took id t failure w = record w {
    store = (
      (
        (store.add_eligible id t w.store.0.0).0,
        record { id = id; completed_at = t; failure = failure } ∷ w.store.0.1,
      ),
      w.store.1,
    );
  }

  -- The pass behind an event whose job the store was given.
  given_to :
      (id : ℕ) (t : ℤ) (answer : Result ChainError JobStateInfo) (failure : Option E)
      (w : Noted E S W)
      → (chain.get_job_state id w.chain.0).0 ≡ answer
      → (store.add_eligible id t w.store.0.0).1 ≡ failure
      → took id t failure (looked id answer w)
        ≡ took id t
            (store.add_eligible id t w.store.0.0).1
            (looked id (chain.get_job_state id w.chain.0).0 w)
  given_to id t answer failure w answered given =
      ap (λ x. took id t x (looked id answer w)) (sym given)
      ∙ ap (λ x. took id t (store.add_eligible id t w.store.0.0).1 (looked id x w)) (sym answered)

  scan_events-Gone :
      (evs : List JobCompletedEvent) (first_err : Option ChainError) (w : Noted E S W)
      → Gone evs first_err w (gone_through evs first_err w)
  unfolding scan_events noted taking listening
  scan_events-Gone [] first_err w = ((λ x h. h, λ g h. h), refl, λ h. (ground arith, tt))
  scan_events-Gone (ev ∷ evs) first_err w =
      elim (Result-cases (chain.get_job_state ev.job_id w.chain.0).0) [
        | inr (e, failed) ↦
            let v = looked ev.job_id (err e) w in
            let same : gone_through evs (or_first first_err e) v
                ≡ gone_through (ev ∷ evs) first_err w =
              rw (failed, scan_events)
                (ap (λ x. gone_through evs (or_first first_err e) (looked ev.job_id x w))
                  (sym failed)) in
            subst (Gone (ev ∷ evs) first_err w) same (
              Gone-before ev evs first_err (or_first first_err e) w v
                (gone_through evs (or_first first_err e) v) (λ x h. inr h, λ g h. h) refl
                (λ h. absurd (or_first_some first_err e h))
                (scan_events-Gone evs (or_first first_err e) v))
        | inl (info, answered) ↦
            let v = looked ev.job_id (ok info) w in
            elim (Bool-cases (wanted worker_addr info)) [
              | inr other ↦
                  let same : gone_through evs first_err v ≡ gone_through (ev ∷ evs) first_err w =
                    rw (answered, scan_events)
                      (rw (other, scan_events)
                        (ap (λ x. gone_through evs first_err (looked ev.job_id x w))
                          (sym answered))) in
                  subst (Gone (ev ∷ evs) first_err w) same (
                    Gone-before ev evs first_err first_err w v (gone_through evs first_err v)
                      (λ x h. inr h, λ g h. h) refl
                      (λ h. (
                        h,
                        (
                          info,
                          inl refl,
                          λ owed. absurd (cc (other, Owed-wanted worker_addr info owed)),
                        ),
                      ))
                      (scan_events-Gone evs first_err v))
              | inl mine ↦
                  let added_at = info.completed_at in
                  elim (Option-cases (store.add_eligible ev.job_id added_at w.store.0.0).1) [
                    | inr (x, full) ↦
                        let same : (err x, took ev.job_id added_at (some x) v)
                            ≡ gone_through (ev ∷ evs) first_err w =
                          rw (answered, scan_events)
                            (rw (mine, scan_events)
                              (rw (full, scan_events)
                                (ap (λ u. (err x, u))
                                  (given_to ev.job_id added_at (ok info) (some x) w answered
                                    full)))) in
                        subst (Gone (ev ∷ evs) first_err w) same
                          ((λ y h. inr h, λ g h. inr h), refl, λ h. absurd (ground arith))
                    | inl added ↦
                        let u = took ev.job_id added_at none v in
                        let same : gone_through evs first_err u
                            ≡ gone_through (ev ∷ evs) first_err w =
                          rw (answered, scan_events)
                            (rw (mine, scan_events)
                              (rw (added, scan_events)
                                (ap (gone_through evs first_err) (
                                  given_to ev.job_id added_at (ok info) none w answered added)))) in
                        subst (Gone (ev ∷ evs) first_err w) same (
                          Gone-before ev evs first_err first_err w u (gone_through evs first_err u)
                            (λ x h. inr h, λ g h. inr h) refl
                            (λ h. (h, (info, inl refl, λ _. inl refl)))
                            (scan_events-Gone evs first_err u))
                  ]
            ]
      ]

  abbrev over : StoreOps E ((S × List (Given E)) × List ℕ)
  over = noted (taking store)

  -- What a round over the blocks behind `a` up to `b` may come to: it failed before the cursor, or
  -- it wrote the cursor, when all of its events were recorded.
  abbrev Stepped : (a b : ℕ) → Noted E S W → Option (Failure E) × Noted E S W → Type 0
  Stepped a b w (failure, w') =
      Grew w w'
      × (((failure ≢ none) × (w'.store.1 ≡ w.store.1))
          ⊎ ((w'.store.1 ≡ b ∷ w.store.1) × Passed worker_addr w' a b))

  settle_chunk-Stepped :
      (a b : ℕ) (evs : List JobCompletedEvent) (w : Noted E S W) (r : Result E (Option ChainError))
      (w' : Noted E S W)
      → a < b
      → In (filtered worker_addr (a + 1) b (ok evs)) w'.chain.1
      → Gone evs none w (r, w')
      → Stepped a b w (settle_chunk over (listening chain) b r w')
  unfolding settle_chunk noted taking
  settle_chunk-Stepped a b evs w (err x) w' up read (grew, same, done) =
      (grew, inl (λ h. absurd (ground arith), same))
  settle_chunk-Stepped a b evs w (ok (some e)) w' up read (grew, same, done) =
      (grew, inl (λ h. absurd (ground arith), same))
  settle_chunk-Stepped a b evs w (ok none) w' up read (grew, same, done) =
      let wrote = ap (λ (l : List ℕ). b ∷ l) same in
      let all = (done refl).1 in
      elim (Option-cases (store.set_reconcile_block b w'.store.0.0).1) [
        | inr (x, refused) ↦ rw (refused, settle_chunk) (grew, inr (wrote, (evs, up, read, all)))
        | inl stored ↦ rw (stored, settle_chunk) (grew, inr (wrote, (evs, up, read, all)))
      ]

  abbrev filtering :
      (lo hi : ℕ) → Result ChainError (List JobCompletedEvent) → Noted E S W → Noted E S W
  filtering lo hi answer w = record w {
    chain = (
      (chain.filter_job_completed worker_addr lo hi w.chain.0).1,
      filtered worker_addr lo hi answer ∷ w.chain.1,
    );
  }

  scan_chunk-Stepped :
      (a b : ℕ) (w : Noted E S W)
      → a < b
      → Stepped a b w (scan_chunk over (listening chain) worker_addr (a + 1) b w)
  unfolding scan_chunk listening
  scan_chunk-Stepped a b w up =
      elim (Result-cases (chain.filter_job_completed worker_addr (a + 1) b w.chain.0).0) [
        | inr (e, failed) ↦
            rw (failed, scan_chunk)
              ((λ x h. inr h, λ g h. h), inl (λ h. absurd (ground arith), refl))
        | inl (evs, read) ↦
            let v = filtering (a + 1) b (ok evs) w in
            let (r, w') = gone_through evs none v in
            let ((heard, given), same, done) = scan_events-Gone evs none v in
            let whole : settle_chunk over (listening chain) b r w'
                ≡ scan_chunk over (listening chain) worker_addr (a + 1) b w =
              rw (read, scan_chunk)
                (ap
                  (λ x.
                    let (r, w') = gone_through evs none (filtering (a + 1) b x w) in
                    settle_chunk over (listening chain) b r w')
                  (sym read)) in
            subst (Stepped a b w) whole (
              settle_chunk-Stepped a b evs w r w' up (heard _ (inl refl))
                ((λ x h. heard x (inr h), given), same, done))
      ]

  Stepped-Travelled :
      (start a b : ℕ) (w w' : Noted E S W) (failure : Option (Failure E))
      → Stepped a b w (failure, w')
      → Trail (Passed worker_addr w) start [] a w.store.1
      → Travelled worker_addr start w'
        × (failure ≡ none → Trail (Passed worker_addr w') start [] b w'.store.1)
  Stepped-Travelled start a b w w' failure (grew, moves) t =
      let t' = Trail-map (Passed-Grew worker_addr w w' grew) t in
      elim moves [
        | inl (failed, same) ↦ (
          (a, subst (Trail (Passed worker_addr w') start [] a) (sym same) t'),
          λ fine. absurd (failed fine),
        )
        | inr (wrote, passed) ↦
            let u =
              subst (Trail (Passed worker_addr w') start [] b) (sym wrote) (moved t' passed) in
            ((b, u), λ _. u)
      ]

  pub scan-Travelled :
      (chunk_size safe_head fuel start a lo : ℕ) (w : Noted E S W)
      → 0 < chunk_size
      → safe_head + chunk_size < u64_mod
      → lo ≡ a + 1
      → Trail (Passed worker_addr w) start [] a w.store.1
      → Travelled worker_addr start
          (scan over (listening chain) worker_addr chunk_size safe_head fuel lo w).1
  unfolding scan
  scan-Travelled chunk_size safe_head zero start a lo w p fits at t = (a, t)
  scan-Travelled chunk_size safe_head (suc fuel) start a lo w p fits at t =
      elim (Bool-cases (leb lo safe_head)) [
        | inr over_it ↦ rw (over_it, scan) (a, t)
        | inl inside ↦
            let hi : ℕ = chunk_end chunk_size lo safe_head in
            let (above, below, _) =
              chunk_end_bounds chunk_size lo safe_head p (ground arith) fits in
            let (failure, w') = scan_chunk over (listening chain) worker_addr lo hi w in
            let step : Stepped a hi w (failure, w') =
              subst (λ l. Stepped a hi w (scan_chunk over (listening chain) worker_addr l hi w))
                (sym at) (scan_chunk-Stepped a hi w (omega arith)) in
            let (stopped, on) = Stepped-Travelled start a hi w w' failure step t in
            elim (Option-cases failure) [
              | inr (f, failed) ↦ rw (inside, scan) (rw (failed, scan) stopped)
              | inl fine ↦ elim (Bool-cases (hi == safe_head)) [
                | inl last ↦ rw (inside, scan) (rw (fine, scan) (rw (last, scan) stopped))
                | inr more ↦
                    rw (inside, scan)
                      (rw (fine, scan)
                        (rw (more, scan)
                          (scan-Travelled chunk_size safe_head fuel start hi (add_u64 hi 1) w' p
                            fits (add_u64_exact hi 1 (omega arith)) (on fine))))
              ]
            ]
      ]
