-- ===== src/Release/Scheduler/Losses.antt =====
-- When a cycle may take a job out of the store. What the chain answers is noted beside its state.
pub mod Cycles
pub mod Rounds
pub mod Ticks
use lightchain_worker.Base.{
  In, ℕ, ◌≡◌, refl, ◌⊎◌, inl, inr, Bool, true, false, Option, none, some, List, [], ◌∷◌, arith,
  Result, ok, err, ℤ, mem, Bool-cases, Result-cases,
}
use lightchain_worker.Release.Chain.{JobStateInfo, ChainError, ChainOps, StoreOps}
use lightchain_worker.Release.Scheduler.{Config}
use lightchain_worker.Release.Scheduler.Cycle.{World, record_per_job_failure}
use lightchain_worker.Release.Scheduler.Eligible.{Hopeless}

-- What the chain answered to a read of a job's state, to the release of one job, and of a batch.
pub data Answer : Type 0 where
  state_of : ℕ → Result ChainError JobStateInfo → Answer
  released_one : ℕ → Option ChainError → Answer
  released_batch : List ℕ → Option ChainError → Answer

unfoldable pub answering : {W : Type 0} → ChainOps W → ChainOps (W × List Answer)
answering chain = record {
  head = λ (c, log). let (a, c') = chain.head c in (a, (c', log));
  get_dispute_window = λ (c, log). let (a, c') = chain.get_dispute_window c in (a, (c', log));
  get_job_state =
      λ id (c, log). let (a, c') = chain.get_job_state id c in (a, (c', state_of id a ∷ log));
  release_job =
      λ id (c, log). let (a, c') = chain.release_job id c in (a, (c', released_one id a ∷ log));
  release_jobs = λ ids (c, log).
      let (a, c') = chain.release_jobs ids c in (a, (c', released_batch ids a ∷ log));
  filter_job_completed = λ worker lo hi (c, log).
      let (a, c') = chain.filter_job_completed worker lo hi c in (a, (c', log));
}

-- The chain has paid the job out, or has said that it will never pay it to this worker.
abbrev pub Gone : (worker_addr j : ℕ) → List Answer → Type 0
Gone worker_addr j log =
    ((info : JobStateInfo) × In (state_of j (ok info)) log × Hopeless worker_addr info)
    ⊎ In (released_one j none) log
    ⊎ ((ids : List ℕ) × In (released_batch ids none) log × (mem j ids ≡ true))

pub Gone-later :
    (worker_addr j : ℕ) (e : Answer) (log : List Answer)
    → Gone worker_addr j log
    → Gone worker_addr j (e ∷ log)
Gone-later worker_addr j e log (inl (info, said, x)) = inl (info, inr said, x)
Gone-later worker_addr j e log (inr (inl paid)) = inr (inl (inr paid))
Gone-later worker_addr j e log (inr (inr (ids, paid, x))) = inr (inr (ids, inr paid, x))

-- What every call of the scheduler keeps, but for the removal of the job.
pub record Keeps {E S : Type 0} (store : StoreOps E S) (j : ℕ) (P : S → Type 0) : Type 0 where
  pub after_pending : (s : S) → P s → P (store.pending s).1
  pub after_remove : (s : S) (ids : List ℕ) → mem j ids ≡ false → P s → P (store.remove ids s).0
  pub after_failure : (s : S) (id : ℕ) (t : ℤ) → P s → P (store.record_failure id t s).0
  pub after_release : (s : S) (t : ℤ) → P s → P (store.set_last_release_ts t s).0
  pub after_gate_read : (s : S) → P s → P (store.get_next_allowed_attempt s).1
  pub after_release_read : (s : S) → P s → P (store.get_last_release_ts s).1
  pub after_gate : (s : S) (t : ℤ) → P s → P (store.set_next_allowed_attempt t s).0

-- The store has the job, or the chain has answered that it is gone.
abbrev pub Safe : {S : Type 0} → (worker_addr j : ℕ) → (S → Type 0) → S → List Answer → Type 0
Safe worker_addr j P s log = P s ⊎ Gone worker_addr j log

module _ {S : Type 0} (worker_addr j : ℕ) (P : S → Type 0) where
  pub Safe-heard :
      (s : S) (e : Answer) (log : List Answer)
      → Safe worker_addr j P s log
      → Safe worker_addr j P s (e ∷ log)
  Safe-heard s e log (inl has) = inl has
  Safe-heard s e log (inr gone) = inr (Gone-later worker_addr j e log gone)

  pub Safe-kept :
      (s s' : S) (log : List Answer)
      → (P s → P s')
      → Safe worker_addr j P s log
      → Safe worker_addr j P s' log
  Safe-kept s s' log keep (inl has) = inl (keep has)
  Safe-kept s s' log keep (inr gone) = inr gone

module _ {E S : Type 0} (store : StoreOps E S) (worker_addr j : ℕ) (P : S → Type 0)
    (keeps : Keeps store j P) where
  -- A removal is safe if the job is gone where it is among the removed.
  pub remove-Safe :
      (ids : List ℕ) (s : S) (log : List Answer)
      → (mem j ids ≡ true → Gone worker_addr j log)
      → Safe worker_addr j P s log
      → Safe worker_addr j P (store.remove ids s).0 log
  remove-Safe ids s log why safe = elim (Bool-cases (mem j ids)) [
    | inl among ↦ inr (why among)
    | inr apart ↦
        Safe-kept worker_addr j P s (store.remove ids s).0 log (keeps.after_remove s ids apart) safe
  ]
