-- ===== src/Release/Store/Invariant.antt =====
-- What holds of the state file between calls, and what a reopening finds.
use lightchain_worker.Base.{
  ℕ, ◌≡◌, refl, ◌∙◌, inl, inr, false, ◌||◌, none, some, List, [], ◌∷◌, ◌++◌, arith, ok, ℤ, ◌==◌,
  Bool-cases,
}
use lightchain_worker.Release.Store.File.{
  PendingJob, Snapshot, StoreIdentity, AddressCodec, Renders, FileData, FileStore, Io, document,
  verify_identity_locked, pinned,
}
use lightchain_worker.Release.Store.Calls.{remove, close, has_job, fresh_job, mark_failure, without}
use lightchain_worker.Release.Store.Atomic.{
  Call, adding, removing, failing, advancing, seeding, releasing, gating, closing, call, edit,
  call-Outcome,
}
use lightchain_worker.Release.Store.Spec.{run}

-- No job twice.
abbrev pub DistinctJobs : List PendingJob → Type 0
DistinctJobs [] = Unit
DistinctJobs (p ∷ ps) = (has_job p.job_id ps ≡ false) × DistinctJobs ps

has_job-append :
    (id : ℕ) (ps : List PendingJob) (q : PendingJob)
    → has_job id (ps ++ q ∷ []) ≡ (has_job id ps || q.job_id == id)
unfolding has_job
has_job-append id [] q = ground arith
has_job-append id (p ∷ ps) q = ground (arith, has_job-append id ps q)

append-DistinctJobs :
    (ps : List PendingJob) (q : PendingJob)
    → has_job q.job_id ps ≡ false
    → DistinctJobs ps
    → DistinctJobs (ps ++ q ∷ [])
unfolding has_job
append-DistinctJobs [] q h d = (refl, tt)
append-DistinctJobs (p ∷ ps) q h d =
    ground (arith, has_job-append p.job_id ps q, append-DistinctJobs ps q)

has_job-without :
    (id : ℕ) (ids : List ℕ) (ps : List PendingJob)
    → has_job id ps ≡ false
    → has_job id (without ids ps) ≡ false
unfolding has_job
has_job-without id ids [] h = refl
has_job-without id ids (p ∷ ps) h = ground (arith, has_job-without id ids ps)

without-DistinctJobs :
    (ids : List ℕ) (ps : List PendingJob) → DistinctJobs ps → DistinctJobs (without ids ps)
without-DistinctJobs ids [] d = tt
without-DistinctJobs ids (p ∷ ps) d =
    ground (arith, has_job-without p.job_id ids ps, without-DistinctJobs ids ps)

has_job-mark_failure :
    (id j : ℕ) (u : ℤ) (ps : List PendingJob) → has_job j (mark_failure id u ps) ≡ has_job j ps
unfolding has_job mark_failure
has_job-mark_failure id j u [] = refl
has_job-mark_failure id j u (p ∷ ps) = ground (arith, has_job-mark_failure id j u ps)

mark_failure-DistinctJobs :
    (id : ℕ) (u : ℤ) (ps : List PendingJob) → DistinctJobs ps → DistinctJobs (mark_failure id u ps)
unfolding mark_failure
mark_failure-DistinctJobs id u [] d = tt
mark_failure-DistinctJobs id u (p ∷ ps) d =
    ground (arith, has_job-mark_failure id p.job_id u ps, mark_failure-DistinctJobs id u ps)

edit-DistinctJobs :
    (a : AddressCodec) (c : Call) (snap new : Snapshot)
    → edit a c snap ≡ ok (some new)
    → DistinctJobs snap.pending
    → DistinctJobs new.pending
edit-DistinctJobs a (adding id t) snap new h d =
    ground (arith, append-DistinctJobs snap.pending (fresh_job id t))
edit-DistinctJobs a (removing ids) snap new h d =
    ground (arith, without-DistinctJobs ids snap.pending)
edit-DistinctJobs a (failing id u) snap new h d =
    ground (arith, mark_failure-DistinctJobs id u snap.pending)
edit-DistinctJobs a (advancing block) snap new h d = ground arith
edit-DistinctJobs a (seeding block) snap new h d = ground arith
edit-DistinctJobs a (releasing ts) snap new h d = ground arith
edit-DistinctJobs a (gating ts) snap new h d = ground arith
edit-DistinctJobs a closing snap new h d = cc

module _ (a : AddressCodec) where
  -- The file holds a document of this identity in which no job stands twice.
  abbrev pub IsGood : StoreIdentity → FileData → Type 0
  IsGood identity file =
      (snap : Snapshot) × (file ≡ document snap)
      × (verify_identity_locked a identity snap ≡ none)
      × DistinctJobs snap.pending

  -- go-ethereum renders the addresses of the identity so that it reads them back.
  abbrev pub RendersIdentity : StoreIdentity → Type 0
  RendersIdentity i = Renders a i.job_registry × Renders a i.worker_address

  pub verify-pinned :
      (i : StoreIdentity) (snap : Snapshot)
      → RendersIdentity i
      → verify_identity_locked a i (pinned a i snap) ≡ none
  unfolding verify_identity_locked pinned
  verify-pinned i snap r = ground arith

  pub call-identity : (io : Io) (c : Call) (s : FileStore) → (call a io c s).0.identity ≡ s.identity
  unfolding call remove close
  call-identity io (removing []) s = refl
  call-identity io closing s = elim (Bool-cases s.closed) [
    | inl shut ↦ ground arith
    | inr still ↦ ground arith
  ]
  call-identity io c s = ground (arith, call-Outcome a io c s)

  pub call-IsGood :
      (io : Io) (c : Call) (s : FileStore)
      → RendersIdentity s.identity
      → IsGood s.identity s.file
      → IsGood s.identity (call a io c s).0.file
  call-IsGood io c s r (snap, doc, v, d) = elim (call-Outcome a io c s) [
    | inl (free, same, _) ↦ (snap, same ∙ doc, v, d)
    | inr (inl (e, bad)) ↦ (snap, ground arith, v, d)
    | inr (inr (inl (old, d', v', nothing, eq))) ↦ (snap, ground arith, v, d)
    | inr (inr (inr (old, new, doc', v', change, eq))) ↦
        let same : old ≡ snap = ground arith in
        let fresh : DistinctJobs new.pending = edit-DistinctJobs a c old new change (rw same d) in
        (
          pinned a s.identity new,
          ground arith,
          verify-pinned s.identity new r,
          unfold pinned in fresh,
        )
  ]

  pub run-IsGood :
      (i : StoreIdentity) (cs : List (Io × Call)) (s : FileStore)
      → RendersIdentity i
      → s.identity ≡ i
      → IsGood i s.file
      → IsGood i (run a cs s).file
  unfolding run
  run-IsGood i [] s r e g = g
  run-IsGood i ((io, c) ∷ cs) s r e g =
      run-IsGood i cs (call a io c s).0 r (call-identity io c s ∙ e)
        (rw (← e) (call-IsGood io c s (rw e r) (rw e g)))
