-- ===== src/Release/Store/Order.antt =====
-- What `Pending` hands to the scheduler.
use lightchain_worker.Base.{
  ℕ, ◌<◌, ◌≡◌, refl, inl, inr, false, ◌||◌, some, List, [], ◌∷◌, arith, ok, ◌==◌, if◌then◌else◌,
  All, Option-cases, Result-cases,
}
use lightchain_worker.Release.Store.File.{
  PendingJob, Snapshot, AddressCodec, FileStore, Io, document, reading, lock_error,
  load_verified_locked,
}
use lightchain_worker.Release.Store.Calls.{has_job, insert_job, sort_jobs, pending}
use lightchain_worker.Release.Store.Atomic.{load_verified_locked_inv}
use lightchain_worker.Release.Store.Spec.{find_job}
use lightchain_worker.Release.Store.Invariant.{DistinctJobs}

-- Each id is below all that follow.
abbrev pub Above : ℕ → List PendingJob → Type 0
Above id = All (λ p. id < p.job_id)

abbrev pub Ascending : List PendingJob → Type 0
Ascending [] = Unit
Ascending (p ∷ ps) = Above p.job_id ps × Ascending ps

find_job-insert_job :
    (p : PendingJob) (j : ℕ) (ps : List PendingJob)
    → has_job p.job_id ps ≡ false
    → find_job j (insert_job p ps) ≡ (if p.job_id == j then some p else find_job j ps)
unfolding insert_job has_job
find_job-insert_job p j [] h = refl
find_job-insert_job p j (q ∷ qs) h = ground (arith, find_job-insert_job p j qs)

has_job-insert_job :
    (p : PendingJob) (j : ℕ) (ps : List PendingJob)
    → has_job j (insert_job p ps) ≡ (p.job_id == j || has_job j ps)
unfolding insert_job has_job
has_job-insert_job p j [] = refl
has_job-insert_job p j (q ∷ qs) = ground (arith, has_job-insert_job p j qs)

has_job-sort_jobs : (j : ℕ) (ps : List PendingJob) → has_job j (sort_jobs ps) ≡ has_job j ps
unfolding sort_jobs has_job
has_job-sort_jobs j [] = refl
has_job-sort_jobs j (p ∷ ps) =
    ground (arith, has_job-insert_job p j (sort_jobs ps), has_job-sort_jobs j ps)

find_job-sort_jobs :
    (j : ℕ) (ps : List PendingJob) → DistinctJobs ps → find_job j (sort_jobs ps) ≡ find_job j ps
unfolding sort_jobs
find_job-sort_jobs j [] d = refl
find_job-sort_jobs j (p ∷ ps) d = ground (
  arith,
  has_job-sort_jobs p.job_id ps,
  find_job-insert_job p j (sort_jobs ps),
  find_job-sort_jobs j ps d.1,
)

insert_job-Above :
    (n : ℕ) (p : PendingJob) (ps : List PendingJob)
    → n < p.job_id
    → Above n ps
    → Above n (insert_job p ps)
unfolding insert_job
insert_job-Above n p [] h b = (h, tt)
insert_job-Above n p (q ∷ qs) h b = ground (arith, insert_job-Above n p qs)

Above-mono : (m n : ℕ) (ps : List PendingJob) → m < n → Above n ps → Above m ps
Above-mono m n [] h b = tt
Above-mono m n (p ∷ ps) h b = (omega arith, Above-mono m n ps h b.1)

insert_job-Ascending :
    (p : PendingJob) (ps : List PendingJob)
    → has_job p.job_id ps ≡ false
    → Ascending ps
    → Ascending (insert_job p ps)
unfolding insert_job has_job
insert_job-Ascending p [] h s = (tt, tt)
insert_job-Ascending p (q ∷ qs) h s = ground (
  arith,
  insert_job-Ascending p qs,
  insert_job-Above q.job_id p qs,
  Above-mono p.job_id q.job_id qs,
)

sort_jobs-Ascending : (ps : List PendingJob) → DistinctJobs ps → Ascending (sort_jobs ps)
unfolding sort_jobs
sort_jobs-Ascending [] d = tt
sort_jobs-Ascending (p ∷ ps) d =
    insert_job-Ascending p (sort_jobs ps) (ground (arith, has_job-sort_jobs p.job_id ps))
      (sort_jobs-Ascending ps d.1)

pub reading_inv {ℓ} :
    {A : Type ℓ} (a : AddressCodec) (f : Snapshot → A) (io : Io) (s : FileStore) (x : A)
    → reading a f io s ≡ ok x
    → (snap : Snapshot) × (s.file ≡ document snap) × (x ≡ f snap)
unfolding reading
reading_inv a f io s x h = elim (Option-cases (lock_error a io s)) [
  | inr (e, locked) ↦ absurd (ground arith)
  | inl free ↦ elim (Result-cases (load_verified_locked a io s)) [
    | inr (e, bad) ↦ absurd (ground arith)
    | inl (snap, loaded) ↦ (snap, (load_verified_locked_inv a io s snap loaded).0, ground arith)
  ]
]

-- What `Pending` returns is sorted by id, strictly, so that batches are deterministic, and holds
-- each job of the file with its timestamps and failures, and no other job.
pub pending-Ascending :
    (a : AddressCodec) (io : Io) (s : FileStore) (snap : Snapshot) (ps : List PendingJob)
    → s.file ≡ document snap
    → DistinctJobs snap.pending
    → pending a io s ≡ ok ps
    → Ascending ps × ((j : ℕ) → find_job j ps ≡ find_job j snap.pending)
unfolding pending
pending-Ascending a io s snap ps doc d h =
    let (old, doc', e) = reading_inv a (λ t. sort_jobs t.pending) io s ps h in
    let same : old ≡ snap = ground arith in
    let eq : ps ≡ sort_jobs snap.pending = ground arith in
    rw eq (sort_jobs-Ascending snap.pending d, λ j. find_job-sort_jobs j snap.pending d)
