-- ===== src/Sortition/Jobs/Events.antt =====
-- What becomes of the events of a chunk.
use lightchain_worker.Base.{
  ℕ, ◌≡◌, ◌≢◌, refl, ◌⊎◌, inl, inr, true, false, pos, ltb_ℤ, add_i64, List, ◌∷◌, arith, ok, err,
  mem, leb_ℤ, ◌==◌, Bool-cases, Result-cases,
}
use lightchain_worker.Base.Bytes.{Bytes}
use lightchain_worker.Sortition.Cursor.{CursorOps}
use lightchain_worker.Sortition.Jobs.{
  JobSubmittedEvent, JobWatcher, KeyError, session_not_active, rpc_failed, ServeClient, Watch, Turn,
  next, attempts_of, payload_of, key_failed, serve_decryptable, key_known, serve_event,
}

-- The same store and the same chain, with the blocks given to `Set` and the jobs given to the
-- pipeline noted beside them.
unfoldable pub noted : {E S : Type 0} → CursorOps E S → CursorOps E (S × List ℕ)
noted ops = record {
  read = λ (s, log). let (a, s') = ops.read s in (a, (s', log));
  set = λ b (s, log). let (s', e) = ops.set b s in ((s', b ∷ log), e);
}

unfoldable pub recorded : {X W : Type 0} → ServeClient X W → ServeClient X (W × List ℕ)
recorded c = record {
  head = λ (w, log). let (a, w') = c.head w in (a, (w', log));
  filter_job_submitted =
      λ lo hi (w, log). let (a, w') = c.filter_job_submitted lo hi w in (a, (w', log));
  get_job_blob_info = λ id (w, log). let (a, w') = c.get_job_blob_info id w in (a, (w', log));
  get_session_info = λ id (w, log). let (a, w') = c.get_session_info id w in (a, (w', log));
  get_session_enc_worker_key =
      λ id (w, log). let (a, w') = c.get_session_enc_worker_key id w in (a, (w', log));
  can_decrypt_session_key = c.can_decrypt_session_key;
  handle_job_payload = λ p (w, log). (c.handle_job_payload p w, p.job_id ∷ log);
  job_counter = λ (w, log). c.job_counter w;
  now = λ (w, log). c.now w;
}

abbrev pub Grew : List ℕ → List ℕ → Type 0
Grew old new = (id : ℕ) → mem id old ≡ true → mem id new ≡ true

pub Grew-cons : (id : ℕ) (log : List ℕ) → Grew log (id ∷ log)
Grew-cons id log n h = ground arith

abbrev pub State : Type 0 → Type 0 → Type 0
State S W = Watch (S × List ℕ) (W × List ℕ)

module _ {X W : Type 0} (c : ServeClient X W) (cfg : JobWatcher) where
  -- An event is another worker's, or its job was given to the pipeline, or the chain has answered
  -- a key of its session that does not fit, or that the session is not active.
  abbrev pub Dealt : List ℕ → JobSubmittedEvent → Type 0
  Dealt served ev =
      (ev.worker ≢ cfg.worker)
      ⊎ (mem ev.job_id served ≡ true)
      ⊎ ((w : W) × (enc : Bytes) × ((c.get_session_enc_worker_key ev.session_id w).0 ≡ ok enc)
          × (c.can_decrypt_session_key enc ≡ false))
      ⊎ ((w : W) × ((c.get_session_enc_worker_key ev.session_id w).0 ≡ err session_not_active))

  pub Dealt-Grew :
      (old new : List ℕ) (ev : JobSubmittedEvent) → Grew old new → Dealt old ev → Dealt new ev
  Dealt-Grew old new ev g (inl other) = inl other
  Dealt-Grew old new ev g (inr (inl served)) = inr (inl (g ev.job_id served))
  Dealt-Grew old new ev g (inr (inr h)) = inr (inr h)

module _ {X S W : Type 0} (c : ServeClient X W) (cfg : JobWatcher) where
  -- What is served is noted, and an event that the pass goes on after is dealt with.
  abbrev Turned : JobSubmittedEvent → State S W → Turn × State S W → Type 0
  Turned ev w (turn, w') =
      Grew w.chain.1 w'.chain.1 × (w'.cursor ≡ w.cursor) × (turn ≡ next → Dealt c cfg w'.chain.1 ev)

  serve_decryptable-Turned :
      (ev : JobSubmittedEvent) (w : State S W)
      → Turned ev w (serve_decryptable (recorded c) cfg ev w)
  unfolding serve_decryptable recorded payload_of
  serve_decryptable-Turned ev w =
      let w1 = (c.get_job_blob_info ev.job_id w.chain.0).1 in
      elim (Result-cases (c.get_job_blob_info ev.job_id w.chain.0).0) [
        | inr (e, failed) ↦
            rw (failed, serve_decryptable) ((λ id h. h), refl, (λ h. absurd (ground arith)))
        | inl ((prompt_hash, block), known) ↦
            elim (Result-cases (c.get_session_info ev.session_id w1).0) [
              | inr (e, failed) ↦
                  rw (known, serve_decryptable)
                    (rw (failed, serve_decryptable)
                      ((λ id h. h), refl, (λ h. absurd (ground arith))))
              | inl (si, told) ↦
                  rw (known, serve_decryptable)
                    (rw (told, serve_decryptable)
                      (Grew-cons ev.job_id w.chain.1, refl, (λ h. inr (inl (ground arith)))))
            ]
      ]

  key_known-Turned :
      (ev : JobSubmittedEvent) (enc : Bytes) (v : W) (w : State S W)
      → (c.get_session_enc_worker_key ev.session_id v).0 ≡ ok enc
      → Turned ev w (key_known (recorded c) cfg ev enc w)
  unfolding key_known recorded
  key_known-Turned ev enc v w told = elim (Bool-cases (c.can_decrypt_session_key enc)) [
    | inl fits ↦ rw (fits, key_known) (serve_decryptable-Turned ev _)
    | inr unfit ↦
        rw (unfit, key_known) ((λ id h. h), refl, (λ h. inr (inr (inl (v, enc, told, unfit)))))
  ]

  key_failed-Turned :
      (ev : JobSubmittedEvent) (e : KeyError X) (v : W) (w : State S W)
      → (c.get_session_enc_worker_key ev.session_id v).0 ≡ err e
      → Turned ev w (key_failed (recorded c) cfg ev e w)
  unfolding key_failed
  key_failed-Turned ev (rpc_failed x) v w told = ((λ id h. h), refl, (λ h. absurd (ground arith)))
  key_failed-Turned ev session_not_active v w told =
      let attempts = add_i64 (attempts_of ev.job_id w.not_active_retries) (pos 1) in
      elim (Bool-cases (ltb_ℤ attempts cfg.session_retry_limit)) [
        | inl again ↦ rw (again, key_failed) ((λ id h. h), refl, (λ h. absurd (ground arith)))
        | inr given_up ↦
            rw (given_up, key_failed) ((λ id h. h), refl, (λ h. inr (inr (inr (v, told)))))
      ]

  pub serve_event-Turned :
      (ev : JobSubmittedEvent) (w : State S W) → Turned ev w (serve_event (recorded c) cfg ev w)
  unfolding serve_event recorded
  serve_event-Turned ev w =
      let w1 = record w {
        chain = ((c.get_session_enc_worker_key ev.session_id w.chain.0).1, w.chain.1);
      } in
      elim (Bool-cases (ev.worker == cfg.worker)) [
        | inr other ↦
            let apart : ev.worker ≢ cfg.worker = ground arith in
            rw (other, serve_event) ((λ id h. h), refl, (λ h. inl apart))
        | inl mine ↦ elim (Bool-cases (leb_ℤ cfg.max_jobs (c.job_counter w.chain.0))) [
          | inl full ↦
              rw (mine, serve_event)
                (rw (full, serve_event) ((λ id h. h), refl, (λ h. absurd (ground arith))))
          | inr free ↦
              elim (Result-cases (c.get_session_enc_worker_key ev.session_id w.chain.0).0) [
                | inr (e, failed) ↦
                    rw (mine, serve_event)
                      (rw (free, serve_event)
                        (rw (failed, serve_event) (key_failed-Turned ev e w.chain.0 w1 failed)))
                | inl (enc, told) ↦
                    rw (mine, serve_event)
                      (rw (free, serve_event)
                        (rw (told, serve_event) (key_known-Turned ev enc w.chain.0 w1 told)))
              ]
        ]
      ]
