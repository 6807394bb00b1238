-- ===== src/Sortition/Sessions/Pending.antt =====
-- What it takes to claim a request, and to give one up.
use lightchain_worker.Base.{
  ℕ, ◌≡◌, ◌≢◌, ◌≤◌, ◌<◌, refl, ap, subst, ◌∙◌, ◌⊎◌, inl, inr, Bool, true, false, Option, none, some,
  List, [], ◌∷◌, arith, ok, err, All, mem, leb_ℤ, ◌==◌, ◌||◌, if◌then◌else◌, Bool-cases,
}
use lightchain_worker.Sortition.Sessions.{
  RequestInfo, ClaimClient, SessionConfig, Pending, SessionWatcher, mask_of, drop_request,
  put_request, covers,
}

-- The same chain, with the requests whose claim was tried noted beside it.
unfoldable pub recorded : {X W : Type 0} → ClaimClient X W → ClaimClient X (W × List ℕ)
recorded c = record {
  head = λ (w, log). let (a, w') = c.head w in (a, (w', log));
  filter_session_requested =
      λ lo hi (w, log). let (a, w') = c.filter_session_requested lo hi w in (a, (w', log));
  get_request_info = λ id (w, log). let (a, w') = c.get_request_info id w in (a, (w', log));
  get_required_capabilities =
      λ id (w, log). let (a, w') = c.get_required_capabilities id w in (a, (w', log));
  eligible_now = λ id worker (w, log). let (a, w') = c.eligible_now id worker w in (a, (w', log));
  claim_session = λ id (w, log). let (a, w') = c.claim_session id w in (a, (w', id ∷ log));
  job_counter = λ (w, log). c.job_counter w;
  unix_now = λ (w, log). c.unix_now w;
}

-- Whether a request is pending.
unfoldable pub has_request : ℕ → Pending → Bool
has_request id [] = false
has_request id ((i, m) ∷ ps) = i == id || has_request id ps

mask_of-drop :
    (j id : ℕ) (ps : Pending)
    → mask_of j (drop_request id ps) ≡ (if id == j then none else mask_of j ps)
unfolding mask_of drop_request
mask_of-drop j id [] = ground arith
mask_of-drop j id ((i, m) ∷ ps) = ground (arith, mask_of-drop j id ps)

pub mask_of-put :
    (j id : ℕ) (mask : Option ℕ) (ps : Pending)
    → mask_of j (put_request id mask ps) ≡ (if id == j then mask else mask_of j ps)
unfolding mask_of put_request
mask_of-put j id mask [] = ground arith
mask_of-put j id mask ((i, m) ∷ ps) = ground (arith, mask_of-put j id mask ps)

pub has-drop :
    (j id : ℕ) (ps : Pending) → j ≢ id → has_request j (drop_request id ps) ≡ has_request j ps
unfolding has_request drop_request
has-drop j id [] apart = refl
has-drop j id ((i, m) ∷ ps) apart = ground (arith, has-drop j id ps apart)

pub has-put :
    (j id : ℕ) (mask : Option ℕ) (ps : Pending)
    → has_request j ps ≡ true
    → has_request j (put_request id mask ps) ≡ true
unfolding has_request put_request
has-put j id mask [] there = absurd (ground arith)
has-put j id mask ((i, m) ∷ ps) there = ground (arith, has-put j id mask ps)

module _ {X W : Type 0} (c : ClaimClient X W) (cfg : SessionConfig) where
  -- The chain has answered that the request is open and not expired.
  abbrev pub Open : ℕ → Type 0
  Open id =
      (w : W) × (ri : RequestInfo) × ((c.get_request_info id w).0 ≡ ok ri)
      × (ri.status ≡ 0)
      × (c.unix_now (c.get_request_info id w).1 ≤ ri.expiry)

  -- It has answered a mask that the worker's own covers, or failed to answer.
  abbrev pub Fits : ℕ → Type 0
  Fits id =
      ((w : W) × (caps : ℕ) × ((c.get_required_capabilities id w).0 ≡ ok caps)
        × (covers cfg.own_caps caps ≡ true))
      ⊎ ((w : W) × (e : X) × ((c.get_required_capabilities id w).0 ≡ err e))

  -- It has answered that the worker is eligible, with fewer jobs running than the maximum.
  abbrev pub Eligible : ℕ → Type 0
  Eligible id =
      (w : W) × (leb_ℤ cfg.max_jobs (c.job_counter w) ≡ false)
      × ((c.eligible_now id cfg.worker w).0 ≡ ok true)

  abbrev pub Claimable : ℕ → Type 0
  Claimable id = Open id × (Fits id × Eligible id)

  -- A claim of a request was tried, or the chain has answered that it is not open, or expired, or that it
  -- requires capabilities that the worker lacks.
  abbrev pub Settled : List ℕ → ℕ → Type 0
  Settled claimed id =
      (mem id claimed ≡ true)
      ⊎ ((w : W) × (ri : RequestInfo) × ((c.get_request_info id w).0 ≡ ok ri)
          × ((ri.status ≢ 0) ⊎ (ri.expiry < c.unix_now (c.get_request_info id w).1)))
      ⊎ ((w : W) × (caps : ℕ) × ((c.get_required_capabilities id w).0 ≡ ok caps)
          × (covers cfg.own_caps caps ≡ false))

  -- A mask that is kept was answered.
  abbrev pub Cached : Pending → Type 0
  Cached ps =
      (id caps : ℕ)
      → mask_of id ps ≡ some caps
      → (w : W) × ((c.get_required_capabilities id w).0 ≡ ok caps)

  -- From one pending set to the next, with these claims: no request is lost.
  abbrev pub Kept : Pending → List ℕ → Pending → Type 0
  Kept ps claimed qs =
      (id : ℕ) → has_request id ps ≡ true → (has_request id qs ≡ true) ⊎ Settled claimed id

  pub Cached-drop : (id : ℕ) (ps : Pending) → Cached ps → Cached (drop_request id ps)
  Cached-drop id ps cached j caps h = cached j caps (ground (arith, mask_of-drop j id ps))

  pub Cached-put :
      (id caps : ℕ) (w : W) (ps : Pending)
      → (c.get_required_capabilities id w).0 ≡ ok caps
      → Cached ps
      → Cached (put_request id (some caps) ps)
  Cached-put id caps w ps read cached j caps' h = elim (Bool-cases (id == j)) [
    | inl same ↦
        let at : id ≡ j = ground arith in
        let mask : caps ≡ caps' = ground (arith, mask_of-put j id (some caps) ps) in
        (w, subst (λ x. (c.get_required_capabilities x w).0 ≡ ok caps') at (read ∙ ap ok mask))
    | inr apart ↦ cached j caps' (ground (arith, mask_of-put j id (some caps) ps))
  ]

  pub Kept-drop :
      (id : ℕ) (ps : Pending) (claimed : List ℕ)
      → Settled claimed id
      → Kept ps claimed (drop_request id ps)
  Kept-drop id ps claimed settled j there = elim (Bool-cases (j == id)) [
    | inl same ↦ let at : id ≡ j = ground arith in inr (subst (Settled claimed) at settled)
    | inr other ↦ inl (has-drop j id ps (ground arith) ∙ there)
  ]

  -- What the watcher has claimed and what it holds are in order.
  abbrev pub Sound : {S : Type 0} → SessionWatcher S (W × List ℕ) → Type 0
  Sound w = All Claimable w.chain.1 × Cached w.pending

  -- A round of the evaluation.
  abbrev pub Evaluated :
      {S : Type 0} → SessionWatcher S (W × List ℕ) → SessionWatcher S (W × List ℕ) → Type 0
  Evaluated w w' =
      Sound w'
      × Kept w.pending w'.chain.1 w'.pending
      × ((id : ℕ) → mem id w.chain.1 ≡ true → mem id w'.chain.1 ≡ true)

  pub Evaluated-forgotten :
      {S : Type 0} (id : ℕ) (w : SessionWatcher S (W × List ℕ))
      → Sound w
      → Settled w.chain.1 id
      → Evaluated w (record w { pending = drop_request id w.pending })
  Evaluated-forgotten id w (claims, cached) settled = (
    (claims, Cached-drop id w.pending cached),
    Kept-drop id w.pending w.chain.1 settled,
    λ j h. h,
  )
