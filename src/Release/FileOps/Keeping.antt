-- ===== src/Release/FileOps/Keeping.antt =====
-- The state file keeps a job through every call of the scheduler but its removal.
use lightchain_worker.Base.{
  ℕ, ◌≡◌, ap, ◌∙◌, ◌⊎◌, inl, inr, false, some, List, [], ℤ, mem, ◌==◌, Bool-cases, Option-cases,
}
use lightchain_worker.Release.Store.File.{
  AddressCodec, PendingJob, Snapshot, FileStore, Io, document,
}
use lightchain_worker.Release.Store.Atomic.{
  Call, removing, failing, releasing, gating, call, failed_call_file,
}
use lightchain_worker.Release.Store.Calls.{failed_job}
use lightchain_worker.Release.Store.Spec.{View, view, find_job, failed_again, meaning, call-meaning}
use lightchain_worker.Release.Chain.{ChainOps}
use lightchain_worker.Release.Scheduler.{Config, MetricsSink}
use lightchain_worker.Release.Scheduler.Trigger.{tick}
use lightchain_worker.Release.Scheduler.Losses.{answering, Gone, Keeps}
use lightchain_worker.Release.Scheduler.Losses.Ticks.{tick-Safe}
use lightchain_worker.Release.FileOps.{Disk, next_io, file_store_ops}

-- The document of the file has the job.
abbrev pub OnFile : ℕ → FileStore → Type 0
OnFile j s =
    (snap : Snapshot) × (s.file ≡ document snap)
    × ((q : PendingJob) × (find_job j snap.pending ≡ some q))

module _ (a : AddressCodec) (j : ℕ) where
  -- Of a call that leaves a job in the map.
  abbrev Spares : Call → Type 0
  Spares c =
      (v : View) (q : PendingJob)
      → v.job j ≡ some q
      → (q' : PendingJob) × ((meaning c v).job j ≡ some q')

  call-OnFile :
      (io : Io) (c : Call) (s : FileStore) → Spares c → OnFile j s → OnFile j (call a io c s).0
  call-OnFile io c s spares (snap, doc, (q, has)) = elim (Option-cases (call a io c s).1) [
    | inr (e, failed) ↦ (snap, failed_call_file a io c s e failed ∙ doc, (q, has))
    | inl fine ↦
        let (new, doc', same) = call-meaning a io c s snap doc fine in
        let (q', has') = spares (view snap) q has in
        (new, doc', (q', ap (λ (v : View). v.job j) same ∙ has'))
  ]

  removing-Spares : (ids : List ℕ) → mem j ids ≡ false → Spares (removing ids)
  removing-Spares ids apart v q has = (q, rw apart has)

  failing-Spares : (id : ℕ) (t : ℤ) → Spares (failing id t)
  failing-Spares id t v q has = elim (Bool-cases (id == j)) [
    | inl same ↦ (failed_job t q, rw same (ap (failed_again t) has))
    | inr other ↦ (q, rw other has)
  ]

  -- The disk has the job's document.
  abbrev pub OnDisk : Disk → Type 0
  OnDisk d = OnFile j d.0

  pub file_store_ops-Keeps : Keeps (file_store_ops a) j OnDisk
  unfolding file_store_ops call
  file_store_ops-Keeps = record {
    after_pending = λ d has. has;
    after_gate_read = λ d has. has;
    after_release_read = λ d has. has;
    after_remove = λ d ids apart has.
        call-OnFile (next_io d.1).0 (removing ids) d.0 (removing-Spares ids apart) has;
    after_failure =
        λ d id t has. call-OnFile (next_io d.1).0 (failing id t) d.0 (failing-Spares id t) has;
    after_release =
        λ d t has. call-OnFile (next_io d.1).0 (releasing t) d.0 (λ v q at. (q, at)) has;
    after_gate = λ d t has. call-OnFile (next_io d.1).0 (gating t) d.0 (λ v q at. (q, at)) has;
  }

-- No probe over the state file loses a job. If the file has a job before a tick, then it has the job
-- after it, or the chain has answered during the tick that it has paid the job out, alone or in a
-- batch, or that it never will pay it to this worker. It is so whatever the operating system does to
-- the calls on the file, and whichever calls of the chain fail.
pub tick-OnFile :
    {W : Type 0} (a : AddressCodec) (chain : ChainOps W) (worker_addr j : ℕ) (cfg : Config)
    (d : Disk) (c : W) (m : MetricsSink)
    → OnFile j d.0
    → let w' =
        tick
          (file_store_ops a)
          (answering chain)
          cfg
          worker_addr
          (record { store = d; chain = (c, []); metrics = m }) in
      OnFile j w'.store.0 ⊎ Gone worker_addr j w'.chain.1
tick-OnFile a chain worker_addr j cfg d c m has =
    tick-Safe (file_store_ops a) chain worker_addr j (OnDisk a j) (file_store_ops-Keeps a j) cfg
      (record { store = d; chain = (c, []); metrics = m }) has
