-- ===== src/Blob/Replacement.antt =====
-- The budget of the transactions that replace a stuck one.
use lightchain_worker.Base.{
  ℕ, suc, ◌+◌, ◌≤◌, ◌<◌, ◌≡◌, refl, ap, subst, ◌∙◌, ◌⊎◌, inl, inr, some, List, [], ◌∷◌, arith, ℤ,
  pos, add_i64, ◌≤ℤ◌, ◌<ℤ◌, Result-cases, Option-cases, Bool-cases,
}
use lightchain_worker.Chain.Nonce.Invariant.{one_more}
use lightchain_worker.Chain.StuckNonce.{
  record_nonce, reap_stale_locked, bump_attempts_used_for, increment_bump_attempts_for,
}
use lightchain_worker.Chain.StuckNonce.Counts.{bump_attempts_used_for-increment}
use lightchain_worker.Chain.SendErrors.{
  SendError, is_already_reserved_error, should_reset_nonce_on_send_error,
}
use lightchain_worker.Chain.Broadcast.{Sender}
use lightchain_worker.Blob.{
  Backend, BlobTxPayload, BlobTxSubmitter, SignedTx, replacement_tx, send_replacement, sign_blob_tx,
  build_replacement, handle_send_error, encode_blob_tx_payload, replacement_blob_payload,
  submit_replacement_blob_tx, maybe_submit_replacement_blob_tx, max_allowed_bump_number,
}

-- So much is sent, for what is counted.
module _ {X B W : Type 0} (backend : Backend X B W) (sends : W → ℕ)
    (asking_sends_nothing : (w : W) → sends (backend.suggest_gas_tip_cap w).1 ≡ sends w)
    (one_is_sent : (t : SignedTx B) (w : W)
      → sends (backend.send_transaction t w).1 ≡ suc (sends w)) where
  -- One replacement was sent and counted, or none.
  abbrev pub Counted : ℕ → Sender W → Sender W → Type 0
  Counted nonce s s' =
      ((sends s'.node ≡ sends s.node) × (s'.tracker ≡ s.tracker))
      ⊎ ((sends s'.node ≡ suc (sends s.node))
          × (s'.tracker ≡ increment_bump_attempts_for nonce s.tracker))

  send_replacement-Counted :
      (signed : SignedTx B) (nonce : ℕ) (s : Sender W)
      → let s' = (send_replacement backend signed nonce s).1 in
        (sends s'.node ≡ suc (sends s.node))
        × (s'.tracker ≡ increment_bump_attempts_for nonce s.tracker)
  unfolding send_replacement
  send_replacement-Counted signed nonce s =
      elim (Option-cases (backend.send_transaction signed s.node).0) [
        | inl sent ↦ rw (sent, send_replacement) (one_is_sent signed s.node, refl)
        | inr (e, failed) ↦ rw (failed, send_replacement) (one_is_sent signed s.node, refl)
      ]

  build_replacement-Counted :
      (sub : BlobTxSubmitter) (nonce : ℕ) (bump : ℤ) (payload : BlobTxPayload B) (s : Sender W)
      → Counted nonce s (build_replacement backend sub nonce bump payload s).1
  unfolding build_replacement
  build_replacement-Counted sub nonce bump payload s =
      let quiet = asking_sends_nothing s.node in
      let w = (backend.suggest_gas_tip_cap s.node).1 in
      elim (Result-cases (backend.suggest_gas_tip_cap s.node).0) [
        | inr (e, failed) ↦ rw (failed, build_replacement) (inl (quiet, refl))
        | inl (tip, told) ↦
            elim (Result-cases (sign_blob_tx backend (replacement_tx sub payload nonce tip bump))) [
              | inr (e, unsigned) ↦
                  rw (told, build_replacement)
                    (rw (unsigned, build_replacement) (inl (quiet, refl)))
              | inl (signed, made) ↦ elim (Bool-cases (backend.is_done w)) [
                | inl over ↦
                    rw (told, build_replacement)
                      (rw (made, build_replacement)
                        (rw (over, build_replacement) (inl (quiet, refl))))
                | inr live ↦
                    let (one, counted) =
                      send_replacement-Counted signed nonce (record s { node = w }) in
                    rw (told, build_replacement)
                      (rw (made, build_replacement)
                        (rw (live, build_replacement) (inr (one ∙ ap suc quiet, counted))))
              ]
            ]
      ]

  submit_replacement-Counted :
      (sub : BlobTxSubmitter) (nonce : ℕ) (bump : ℤ) (s : Sender W)
      → ((sends (submit_replacement_blob_tx backend sub nonce bump s).1.node ≡ sends s.node)
          × ((submit_replacement_blob_tx backend sub nonce bump s).1.tracker ≡ s.tracker))
        ⊎ ((bump ≤ℤ max_allowed_bump_number)
            × Counted nonce s (submit_replacement_blob_tx backend sub nonce bump s).1)
  unfolding submit_replacement_blob_tx
  submit_replacement-Counted sub nonce bump s =
      elim (Result-cases (encode_blob_tx_payload backend replacement_blob_payload)) [
        | inr (e, failed) ↦ rw (failed, submit_replacement_blob_tx) (ground arith)
        | inl (payload, made) ↦
            rw (made, submit_replacement_blob_tx)
              (ground (arith, build_replacement-Counted sub nonce bump payload s))
      ]

  -- The replacements sent at a nonce, since so many had been sent, are those that are counted.
  abbrev pub Spent : BlobTxSubmitter → ℕ → ℕ → Sender W → Type 0
  Spent sub nonce start s =
      (u : ℕ) × (bump_attempts_used_for nonce s.tracker ≡ pos u)
      × (sends s.node ≡ start + u)
      × (u ≤ 8)
      × ((u ≡ 0) ⊎ (pos u ≤ℤ sub.stuck_cfg.max_bumps))

  unsent-Spent :
      (sub : BlobTxSubmitter) (nonce start : ℕ) (s s' : Sender W)
      → Spent sub nonce start s
      → sends s'.node ≡ sends s.node
      → s'.tracker ≡ s.tracker
      → Spent sub nonce start s'
  unsent-Spent sub nonce start s s' (u, used, sent, few, within) quiet same =
      (u, ap (bump_attempts_used_for nonce) same ∙ used, quiet ∙ sent, few, within)

  sent-Spent :
      (sub : BlobTxSubmitter) (nonce start u : ℕ) (s s' : Sender W)
      → bump_attempts_used_for nonce s.tracker ≡ pos u
      → sends s.node ≡ start + u
      → u < 8
      → pos u <ℤ sub.stuck_cfg.max_bumps
      → sends s'.node ≡ suc (sends s.node)
      → s'.tracker ≡ increment_bump_attempts_for nonce s.tracker
      → Spent sub nonce start s'
  sent-Spent sub nonce start u s s' used sent few within one counted =
      let after = bump_attempts_used_for-increment nonce nonce s.tracker in
      (
        suc u,
        ap (bump_attempts_used_for nonce) counted ∙ ground (arith, after, one_more u),
        omega arith,
        omega arith,
        inr (omega arith),
      )

  maybe_submit_cases :
      (sub : BlobTxSubmitter) (nonce : ℕ) (hits : ℤ) (s : Sender W)
      → let used = bump_attempts_used_for nonce s.tracker in
        let s' = maybe_submit_replacement_blob_tx backend sub nonce hits s in
        (s' ≡ s)
        ⊎ ((used <ℤ sub.stuck_cfg.max_bumps)
            × (s' ≡ (submit_replacement_blob_tx backend sub nonce (add_i64 used (pos 1)) s).1))
  unfolding maybe_submit_replacement_blob_tx
  maybe_submit_cases sub nonce hits s = ground arith

  maybe_submit-Spent :
      (sub : BlobTxSubmitter) (nonce start : ℕ) (hits : ℤ) (s : Sender W)
      → Spent sub nonce start s
      → Spent sub nonce start (maybe_submit_replacement_blob_tx backend sub nonce hits s)
  maybe_submit-Spent sub nonce start hits s spent =
      let (u, used, sent, few, within) = spent in
      let bump = add_i64 (bump_attempts_used_for nonce s.tracker) (pos 1) in
      let t = (submit_replacement_blob_tx backend sub nonce bump s).1 in
      elim (maybe_submit_cases sub nonce hits s) [
        | inl same ↦ rw same spent
        | inr (room, made) ↦ rw made (elim (submit_replacement-Counted sub nonce bump s) [
          | inl (quiet, same) ↦ unsent-Spent sub nonce start s t spent quiet same
          | inr (_, inl (quiet, same)) ↦ unsent-Spent sub nonce start s t spent quiet same
          | inr (low, inr (one, counted)) ↦
              sent-Spent sub nonce start u s t used sent (ground (arith, one_more u))
                (subst (λ x. x <ℤ sub.stuck_cfg.max_bumps) used room) one counted
        ])
      ]

  handle_send_error-Spent :
      (sub : BlobTxSubmitter) (nonce start : ℕ) (e : SendError) (s : Sender W)
      → Spent sub nonce start s
      → Spent sub nonce start (handle_send_error backend sub e nonce s)
  unfolding handle_send_error record_nonce reap_stale_locked bump_attempts_used_for
  handle_send_error-Spent sub nonce start e s spent =
      elim (Bool-cases (is_already_reserved_error (some e))) [
        | inl stuck ↦ elim (Bool-cases (should_reset_nonce_on_send_error (some e))) [
          | inl definite ↦
              rw (stuck, handle_send_error)
                (rw (definite, handle_send_error) (maybe_submit-Spent sub nonce start _ _ spent))
          | inr unclear ↦
              rw (stuck, handle_send_error)
                (rw (unclear, handle_send_error) (maybe_submit-Spent sub nonce start _ _ spent))
        ]
        | inr other ↦ rw (other, handle_send_error) (ground arith)
      ]

  -- The send errors of one nonce, in the order of the attempts.
  unfoldable pub handle_all : BlobTxSubmitter → ℕ → List SendError → Sender W → Sender W
  handle_all sub nonce [] s = s
  handle_all sub nonce (e ∷ es) s =
      handle_all sub nonce es (handle_send_error backend sub e nonce s)

  handle_all-Spent :
      (sub : BlobTxSubmitter) (nonce start : ℕ) (es : List SendError) (s : Sender W)
      → Spent sub nonce start s
      → Spent sub nonce start (handle_all sub nonce es s)
  unfolding handle_all
  handle_all-Spent sub nonce start [] s h = h
  handle_all-Spent sub nonce start (e ∷ es) s h =
      handle_all-Spent sub nonce start es _ (handle_send_error-Spent sub nonce start e s h)

  -- In an unbroken run of failures at one nonce, with no failure of another nonce handled in
  -- between, a nonce that no bump was used for yet gets at most MaxBumps replacements, and at most
  -- eight, however long the run and whatever its errors, and the tracker's count of them is exact.
  -- It is assumed of the node only that asking for a tip sends nothing.
  pub replacements_are_bounded :
      (sub : BlobTxSubmitter) (nonce : ℕ) (es : List SendError) (s : Sender W)
      → bump_attempts_used_for nonce s.tracker ≡ pos 0
      → let s' = handle_all sub nonce es s in
        (u : ℕ) × (sends s'.node ≡ sends s.node + u)
        × (bump_attempts_used_for nonce s'.tracker ≡ pos u)
        × (u ≤ 8)
        × ((u ≡ 0) ⊎ (pos u ≤ℤ sub.stuck_cfg.max_bumps))
  replacements_are_bounded sub nonce es s none_yet =
      let (u, used, sent, few, within) =
        handle_all-Spent sub nonce (sends s.node) es s
          (0, none_yet, omega arith, omega arith, inl refl) in
      (u, sent, used, few, within)
