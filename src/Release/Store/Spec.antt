-- ===== src/Release/Store/Spec.antt =====
-- What the state file promises: a map of pending jobs by id, a cursor and two timestamps. The
-- list, its order and the document's layout are forgotten.
use lightchain_worker.Base.{
  ℕ, ◌≤◌, ◌≡◌, refl, ap, sym, ◌∙◌, inl, inr, true, false, Option, none, some, List, [], ◌∷◌, ◌++◌,
  arith, ok, ℤ, ◌==◌, if◌then◌else◌, mem,
}
use lightchain_worker.Release.Store.File.{
  PendingJob, Snapshot, AddressCodec, FileStore, Io, document, pinned,
}
use lightchain_worker.Release.Store.Calls.{has_job, fresh_job, failed_job, mark_failure, without}
use lightchain_worker.Release.Store.Atomic.{
  Call, adding, removing, failing, advancing, seeding, releasing, gating, closing, call, edit,
  call-Outcome, Unlocked,
}

abbrev pub find_job : ℕ → List PendingJob → Option PendingJob
find_job id [] = none
find_job id (p ∷ ps) = if p.job_id == id then some p else find_job id ps

pub record View : Type 0 where
  pub job : ℕ → Option PendingJob
  pub cursor : ℕ
  pub last_release : ℤ
  pub gate : ℤ

abbrev pub view : Snapshot → View
view snap = record {
  job = λ id. find_job id snap.pending;
  cursor = snap.last_reconciled_block;
  last_release = snap.last_release_ts;
  gate = snap.next_allowed_attempt;
}

-- A new job, unless it is known: then it keeps its timestamp and its failures.
abbrev pub or_fresh : ℕ → ℤ → Option PendingJob → Option PendingJob
or_fresh id completed_at none = some (fresh_job id completed_at)
or_fresh id completed_at (some p) = some p

abbrev pub failed_again : ℤ → Option PendingJob → Option PendingJob
failed_again backoff_until none = none
failed_again backoff_until (some p) = some (failed_job backoff_until p)

-- What each call means for the map.
abbrev pub meaning : Call → View → View
meaning (adding id completed_at) v = record v {
  job = λ j. if id == j then or_fresh id completed_at (v.job j) else v.job j;
}
meaning (removing ids) v = record v { job = λ j. if mem j ids then none else v.job j }
meaning (failing id backoff_until) v = record v {
  job = λ j. if id == j then failed_again backoff_until (v.job j) else v.job j;
}
meaning (advancing block) v = record v { cursor = block }
meaning (seeding block) v = record v { cursor = if v.cursor == 0 then block else v.cursor }
meaning (releasing ts) v = record v { last_release = ts }
meaning (gating ts) v = record v { gate = ts }
meaning closing v = v

find_job-append_fresh :
    (id j : ℕ) (t : ℤ) (ps : List PendingJob)
    → has_job id ps ≡ false
    → find_job j (ps ++ fresh_job id t ∷ [])
      ≡ (if id == j then or_fresh id t (find_job j ps) else find_job j ps)
unfolding has_job
find_job-append_fresh id j t [] h = ground arith
find_job-append_fresh id j t (p ∷ ps) h = ground (arith, find_job-append_fresh id j t ps)

find_job_known :
    (id j : ℕ) (t : ℤ) (ps : List PendingJob)
    → has_job id ps ≡ true
    → find_job j ps ≡ (if id == j then or_fresh id t (find_job j ps) else find_job j ps)
unfolding has_job
find_job_known id j t [] h = absurd (ground arith)
find_job_known id j t (p ∷ ps) h = ground (arith, find_job_known id j t ps)

find_job-without :
    (ids : List ℕ) (j : ℕ) (ps : List PendingJob)
    → find_job j (without ids ps) ≡ (if mem j ids then none else find_job j ps)
find_job-without ids j [] = ground arith
find_job-without ids j (p ∷ ps) =
    ground (arith, find_job-without ids j ps, ap (λ (i : ℕ). mem i ids))

find_job-mark_failure :
    (id j : ℕ) (u : ℤ) (ps : List PendingJob)
    → find_job j (mark_failure id u ps)
      ≡ (if id == j then failed_again u (find_job j ps) else find_job j ps)
unfolding mark_failure
find_job-mark_failure id j u [] = ground arith
find_job-mark_failure id j u (p ∷ ps) = ground (arith, find_job-mark_failure id j u ps)

find_job_absent : (id : ℕ) (ps : List PendingJob) → has_job id ps ≡ false → find_job id ps ≡ none
unfolding has_job
find_job_absent id [] h = refl
find_job_absent id (p ∷ ps) h = ground (arith, find_job_absent id ps)

View_ext :
    (v w : View)
    → ((j : ℕ) → v.job j ≡ w.job j)
    → v.cursor ≡ w.cursor
    → v.last_release ≡ w.last_release
    → v.gate ≡ w.gate
    → v ≡ w
View_ext v w h c l g =
    λ i. record { job = λ j. h j i; cursor = c i; last_release = l i; gate = g i }

edit-meaning :
    (a : AddressCodec) (c : Call) (snap new : Snapshot)
    → edit a c snap ≡ ok (some new)
    → view new ≡ meaning c (view snap)
edit-meaning a (adding id t) snap new h =
    View_ext _ _ (λ j. ground (arith, find_job-append_fresh id j t snap.pending)) (ground arith)
      (ground arith) (ground arith)
edit-meaning a (removing ids) snap new h =
    View_ext _ _ (λ j. ground (arith, find_job-without ids j snap.pending)) (ground arith)
      (ground arith) (ground arith)
edit-meaning a (failing id u) snap new h =
    View_ext _ _ (λ j. ground (arith, find_job-mark_failure id j u snap.pending)) (ground arith)
      (ground arith) (ground arith)
edit-meaning a (advancing block) snap new h = ground arith
edit-meaning a (seeding block) snap new h = ground arith
edit-meaning a (releasing ts) snap new h = ground arith
edit-meaning a (gating ts) snap new h = ground arith
edit-meaning a closing snap new h = cc

edit_untouched-meaning :
    (a : AddressCodec) (c : Call) (snap : Snapshot)
    → edit a c snap ≡ ok none
    → view snap ≡ meaning c (view snap)
edit_untouched-meaning a (adding id t) snap h =
    View_ext _ _ (λ j. ground (arith, find_job_known id j t snap.pending)) refl refl refl
edit_untouched-meaning a (removing ids) snap h = cc
edit_untouched-meaning a (failing id u) snap h =
    View_ext _ _
      (λ j.
        ground (arith, find_job_absent id snap.pending, ap (λ (i : ℕ). find_job i snap.pending)))
      refl refl refl
edit_untouched-meaning a (advancing block) snap h = ground arith
edit_untouched-meaning a (seeding block) snap h = ground arith
edit_untouched-meaning a (releasing ts) snap h = cc
edit_untouched-meaning a (gating ts) snap h = cc
edit_untouched-meaning a closing snap h = refl

edit-cursor_le :
    (a : AddressCodec) (c : Call) (snap new : Snapshot)
    → edit a c snap ≡ ok (some new)
    → snap.last_reconciled_block ≤ new.last_reconciled_block
edit-cursor_le a (adding id t) snap new h = ground arith
edit-cursor_le a (removing ids) snap new h = ground arith
edit-cursor_le a (failing id u) snap new h = ground arith
edit-cursor_le a (advancing block) snap new h = ground arith
edit-cursor_le a (seeding block) snap new h = ground arith
edit-cursor_le a (releasing ts) snap new h = ground arith
edit-cursor_le a (gating ts) snap new h = ground arith
edit-cursor_le a closing snap new h = cc

module _ (a : AddressCodec) where
  Unlocked-meaning : (c : Call) (v : View) → Unlocked a c → meaning c v ≡ v
  Unlocked-meaning (removing []) v h = refl
  Unlocked-meaning closing v h = refl
  Unlocked-meaning (removing (id ∷ ids)) v h = absurd h
  Unlocked-meaning (adding id t) v h = absurd h
  Unlocked-meaning (failing id u) v h = absurd h
  Unlocked-meaning (advancing block) v h = absurd h
  Unlocked-meaning (seeding block) v h = absurd h
  Unlocked-meaning (releasing ts) v h = absurd h
  Unlocked-meaning (gating ts) v h = absurd h

  -- Every call that succeeds does to the file what it means for the map: an idempotent add, a
  -- removal, a failure count with a backoff, the cursor, the timestamps. Nothing else changes.
  pub call-meaning :
      (io : Io) (c : Call) (s : FileStore) (snap : Snapshot)
      → s.file ≡ document snap
      → (call a io c s).1 ≡ none
      → (new : Snapshot) × ((call a io c s).0.file ≡ document new)
        × (view new ≡ meaning c (view snap))
  unfolding pinned
  call-meaning io c s snap doc fine = elim (call-Outcome a io c s) [
    | inl (free, same, _) ↦ (snap, same ∙ doc, sym (Unlocked-meaning c (view snap) free))
    | inr (inl (e, bad)) ↦ absurd (ground arith)
    | inr (inr (inl (old, d, v, nothing, r))) ↦
        let same : snap ≡ old = ground arith in
        (snap, ground arith, rw same (edit_untouched-meaning a c old nothing))
    | inr (inr (inr (old, new, d, v, change, r))) ↦
        let same : snap ≡ old = ground arith in
        (pinned a s.identity new, ground arith, rw same (edit-meaning a c old new change))
  ]

  -- The calls of one process after another, each with what the system does to it.
  unfoldable pub run : List (Io × Call) → FileStore → FileStore
  run [] s = s
  run ((io, c) ∷ cs) s = run cs (call a io c s).0

  call-cursor_le :
      (io : Io) (c : Call) (s : FileStore) (snap : Snapshot)
      → s.file ≡ document snap
      → (new : Snapshot) × ((call a io c s).0.file ≡ document new)
        × (snap.last_reconciled_block ≤ new.last_reconciled_block)
  unfolding pinned
  call-cursor_le io c s snap doc = elim (call-Outcome a io c s) [
    | inl (free, same, _) ↦ (snap, same ∙ doc, omega arith)
    | inr (inl (e, bad)) ↦ (snap, ground arith, omega arith)
    | inr (inr (inl (old, d, v, nothing, r))) ↦ (snap, ground arith, omega arith)
    | inr (inr (inr (old, new, d, v, change, r))) ↦
        let same : snap ≡ old = ground arith in
        (pinned a s.identity new, ground arith, rw same (edit-cursor_le a c old new change))
  ]

  -- The cursor of the reconciler never moves back, whatever is called, in any order, by whichever
  -- process, and whichever calls fail.
  pub run-cursor_le :
      (cs : List (Io × Call)) (s : FileStore) (snap : Snapshot)
      → s.file ≡ document snap
      → (new : Snapshot) × ((run cs s).file ≡ document new)
        × (snap.last_reconciled_block ≤ new.last_reconciled_block)
  unfolding run
  run-cursor_le [] s snap doc = (snap, doc, omega arith)
  run-cursor_le ((io, c) ∷ cs) s snap doc =
      let (mid, doc', le) = call-cursor_le io c s snap doc in
      let (new, doc'', le') = run-cursor_le cs (call a io c s).0 mid doc' in
      (new, doc'', omega arith)
