-- ===== src/Sortition/Sessions/Evaluation.antt =====
-- What an evaluation claims, and what it gives up.
use lightchain_worker.Base.{
  ℕ, ◌≡◌, refl, subst, ◌⊎◌, inl, inr, true, false, some, List, [], ◌∷◌, arith, ok, err, All, mem,
  ltb, leb_ℤ, ◌==◌, Bool-cases, Option-cases, Result-cases,
}
use lightchain_worker.Sortition.Sessions.{
  ClaimClient, SessionConfig, SessionWatcher, mask_of, put_request, Look, on, over, covers,
  try_claim, with_capabilities, check_capabilities, evaluate_request, evaluate,
}
use lightchain_worker.Sortition.Sessions.Pending.{
  recorded, has-put, Open, Fits, Claimable, Settled, Cached-drop, Cached-put, Kept, Kept-drop,
  Sound, Evaluated, Evaluated-forgotten,
}

Look-cases : (l : Look) → (l ≡ on) ⊎ (l ≡ over)
Look-cases on = inl refl
Look-cases over = inr refl

-- A mask that is in use: it was answered, or the answer failed and it is zero.
abbrev Known : {X W : Type 0} → ClaimClient X W → ℕ → ℕ → Type 0
Known {X} {W} c id caps =
    ((v : W) × ((c.get_required_capabilities id v).0 ≡ ok caps))
    ⊎ ((v : W) × (e : X) × ((c.get_required_capabilities id v).0 ≡ err e) × (caps ≡ 0))

module _ {X W : Type 0} (c : ClaimClient X W) (cfg : SessionConfig) where
  Settled-mono :
      (old new : List ℕ) (id : ℕ)
      → ((j : ℕ) → mem j old ≡ true → mem j new ≡ true)
      → Settled c cfg old id
      → Settled c cfg new id
  Settled-mono old new id grew (inl claimed) = inl (grew id claimed)
  Settled-mono old new id grew (inr h) = inr h

module _ {X S W : Type 0} (c : ClaimClient X W) (cfg : SessionConfig) where
  pub unchanged-Evaluated :
      (w : SessionWatcher S (W × List ℕ)) → Sound c cfg w → Evaluated c cfg w w
  unchanged-Evaluated w sound = (sound, (λ id there. inl there), (λ id h. h))

  try_claim-Evaluated :
      (id : ℕ) (w : SessionWatcher S (W × List ℕ))
      → Sound c cfg w
      → Open c cfg id
      → Fits c cfg id
      → leb_ℤ cfg.max_jobs (c.job_counter w.chain.0) ≡ false
      → Evaluated c cfg w (try_claim (recorded c) cfg id w).1
  unfolding try_claim recorded
  try_claim-Evaluated id w (claims, cached) live fit room =
      elim (Result-cases (c.eligible_now id cfg.worker w.chain.0).0) [
        | inr (e, failed) ↦ rw (failed, try_claim) (unchanged-Evaluated w (claims, cached))
        | inl (false, may_not) ↦ rw (may_not, try_claim) (unchanged-Evaluated w (claims, cached))
        | inl (true, may) ↦
            let claimed : All (Claimable c cfg) (id ∷ w.chain.1) =
              ((live, (fit, (w.chain.0, room, may))), claims) in
            rw (may, try_claim)
              (
                (claimed, Cached-drop c cfg id w.pending cached),
                Kept-drop c cfg id w.pending (id ∷ w.chain.1) (inl (ground arith)),
                (λ j h. ground arith),
              )
      ]

  with_capabilities-Evaluated :
      (id caps : ℕ) (w : SessionWatcher S (W × List ℕ))
      → Sound c cfg w
      → Open c cfg id
      → Known c id caps
      → Evaluated c cfg w (with_capabilities (recorded c) cfg id caps w).1
  unfolding with_capabilities recorded
  with_capabilities-Evaluated id caps w sound live known =
      elim (Bool-cases (covers cfg.own_caps caps)) [
        | inr lacking ↦
            rw (lacking, with_capabilities)
              (Evaluated-forgotten c cfg id w sound (lacks known lacking))
        | inl covered ↦ elim (Bool-cases (leb_ℤ cfg.max_jobs (c.job_counter w.chain.0))) [
          | inl full ↦
              rw (covered, with_capabilities)
                (rw (full, with_capabilities) (unchanged-Evaluated w sound))
          | inr room ↦
              rw (covered, with_capabilities)
                (rw (room, with_capabilities)
                  (try_claim-Evaluated id w sound live (fits known covered) room))
        ]
      ]
    where
      fits : Known c id caps → covers cfg.own_caps caps ≡ true → Fits c cfg id
      fits (inl (v, read)) covered = inl (v, caps, read, covered)
      fits (inr (v, e, failed, _)) covered = inr (v, e, failed)

      lacks : Known c id caps → covers cfg.own_caps caps ≡ false → Settled c cfg w.chain.1 id
      lacks (inl (v, read)) lacking = inr (inr (v, caps, read, lacking))
      lacks (inr (v, e, failed, zero_mask)) lacking = absurd (ground arith)

  check_capabilities-Evaluated :
      (id : ℕ) (w : SessionWatcher S (W × List ℕ))
      → Sound c cfg w
      → Open c cfg id
      → Evaluated c cfg w (check_capabilities (recorded c) cfg id w).1
  unfolding check_capabilities recorded
  check_capabilities-Evaluated id w (claims, cached) live =
      elim (Option-cases (mask_of id w.pending)) [
        | inr (caps, there) ↦
            rw (there, check_capabilities)
              (with_capabilities-Evaluated id caps w (claims, cached) live
                (inl (cached id caps there)))
        | inl unknown ↦ elim (Result-cases (c.get_required_capabilities id w.chain.0).0) [
          | inr (e, failed) ↦
              let w1 = record w {
                chain = ((c.get_required_capabilities id w.chain.0).1, w.chain.1);
              } in
              rw (unknown, check_capabilities)
                (rw (failed, check_capabilities)
                  (with_capabilities-Evaluated id 0 w1 (claims, cached) live
                    (inr (w.chain.0, e, failed, refl))))
          | inl (caps, read) ↦
              let w1 = record w {
                chain = ((c.get_required_capabilities id w.chain.0).1, w.chain.1);
                pending = put_request id (some caps) w.pending;
              } in
              let (sound, kept, grew) =
                with_capabilities-Evaluated id caps w1
                  (claims, Cached-put c cfg id caps w.chain.0 w.pending read cached) live
                  (inl (w.chain.0, read)) in
              rw (unknown, check_capabilities)
                (rw (read, check_capabilities)
                  (sound, (λ j there. kept j (has-put j id (some caps) w.pending there)), grew))
        ]
      ]

  evaluate_request-Evaluated :
      (id : ℕ) (w : SessionWatcher S (W × List ℕ))
      → Sound c cfg w
      → Evaluated c cfg w (evaluate_request (recorded c) cfg id w).1
  unfolding evaluate_request recorded
  evaluate_request-Evaluated id w sound =
      let v = (c.get_request_info id w.chain.0).1 in
      let w1 : SessionWatcher S (W × List ℕ) = record w { chain = (v, w.chain.1) } in
      elim (Result-cases (c.get_request_info id w.chain.0).0) [
        | inr (e, failed) ↦ rw (failed, evaluate_request) (unchanged-Evaluated w1 sound)
        | inl (ri, read) ↦ elim (Bool-cases (ri.status == 0)) [
          | inr taken ↦
              rw (read, evaluate_request)
                (rw (taken, evaluate_request)
                  (Evaluated-forgotten c cfg id w1 sound
                    (inr (inl (w.chain.0, ri, read, inl (ground arith))))))
          | inl open_one ↦ elim (Bool-cases (ltb ri.expiry (c.unix_now v))) [
            | inl expired ↦
                rw (read, evaluate_request)
                  (rw (open_one, evaluate_request)
                    (rw (expired, evaluate_request)
                      (Evaluated-forgotten c cfg id w1 sound
                        (inr (inl (w.chain.0, ri, read, inr (ground arith)))))))
            | inr alive ↦
                rw (read, evaluate_request)
                  (rw (open_one, evaluate_request)
                    (rw (alive, evaluate_request)
                      (check_capabilities-Evaluated id w1 sound
                        (w.chain.0, ri, read, ground arith, ground arith))))
          ]
        ]
      ]

  pub Evaluated-then :
      (w w' w'' : SessionWatcher S (W × List ℕ))
      → Evaluated c cfg w w'
      → Evaluated c cfg w' w''
      → Evaluated c cfg w w''
  Evaluated-then w w' w'' (_, kept, grew) (sound, kept', grew') =
      (sound, both, (λ j h. grew' j (grew j h)))
    where
      both : Kept c cfg w.pending w''.chain.1 w''.pending
      both id there = elim (kept id there) [
        | inl still ↦ kept' id still
        | inr settled ↦ inr (Settled-mono c cfg w'.chain.1 w''.chain.1 id grew' settled)
      ]

  -- An evaluation in whatever order. `Passes` has the pass around it.
  pub evaluate-Evaluated :
      (ids : List ℕ) (w : SessionWatcher S (W × List ℕ))
      → Sound c cfg w
      → Evaluated c cfg w (evaluate (recorded c) cfg ids w)
  unfolding evaluate
  evaluate-Evaluated [] w sound = unchanged-Evaluated w sound
  evaluate-Evaluated (id ∷ ids) w sound =
      let once = evaluate_request-Evaluated id w sound in
      let w' = (evaluate_request (recorded c) cfg id w).1 in
      elim (Look-cases (evaluate_request (recorded c) cfg id w).0) [
        | inr ended_here ↦ rw (ended_here, evaluate) once
        | inl more ↦
            let rest = evaluate-Evaluated ids w' once.0 in
            let same : evaluate (recorded c) cfg ids w' ≡ evaluate (recorded c) cfg (id ∷ ids) w =
              rw (more, evaluate) refl in
            subst (Evaluated c cfg w) same
              (Evaluated-then w w' (evaluate (recorded c) cfg ids w') once rest)
      ]
