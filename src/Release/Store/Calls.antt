-- ===== src/Release/Store/Calls.antt =====
-- The methods of `FileStore`, and `Tracker.MarkEligible` of tracker.go.
use lightchain_worker.Base.{
  ℕ, Bool, true, false, not, ◌&&◌, ◌||◌, Option, none, some, List, [], ◌∷◌, ◌++◌, Result, ok, err,
  ℤ, pos, add_i64, ltb, ◌==◌, if◌then◌else◌, keep, mem,
}
use lightchain_worker.Release.Store.File.{
  PendingJob, Snapshot, StoreIdentity, AddressCodec, StoreError, FileData, FileStore, Io, bad_path,
  bad_identity, mkdir_failed, open_failed, close_failed, not_exist, cursor_backward,
  empty_snapshot_of, read_snapshot_locked, verify_identity_locked, write_snapshot_locked,
  lock_error, reading, mutating,
}
use lightchain_worker.Base.Bytes.{Bytes}

unfoldable pub has_job : ℕ → List PendingJob → Bool
has_job id [] = false
has_job id (p ∷ ps) = p.job_id == id || has_job id ps

abbrev pub fresh_job : ℕ → ℤ → PendingJob
fresh_job id completed_at = record {
  job_id = id;
  completed_at = completed_at;
  fail_count = pos 0;
  backoff_until = pos 0;
}

abbrev pub failed_job : ℤ → PendingJob → PendingJob
failed_job backoff_until p = record p {
  fail_count = add_i64 p.fail_count (pos 1);
  backoff_until = backoff_until;
}

-- The loop of `RecordFailure`: the first entry of the job.
unfoldable pub mark_failure : ℕ → ℤ → List PendingJob → List PendingJob
mark_failure id backoff_until [] = []
mark_failure id backoff_until (p ∷ ps) =
    if p.job_id == id then failed_job backoff_until p ∷ ps else p ∷ mark_failure id backoff_until ps

-- `sort.Slice` by job id.
unfoldable pub insert_job : PendingJob → List PendingJob → List PendingJob
insert_job p [] = p ∷ []
insert_job p (q ∷ qs) = if ltb q.job_id p.job_id then q ∷ insert_job p qs else p ∷ q ∷ qs

unfoldable pub sort_jobs : List PendingJob → List PendingJob
unfolding insert_job
sort_jobs [] = []
sort_jobs (p ∷ ps) = insert_job p (sort_jobs ps)

abbrev pub seed_if_unset : ℕ → Snapshot → Result StoreError (Option Snapshot)
seed_if_unset block snap =
    if not (snap.last_reconciled_block == 0)
    then ok none
    else ok (some (record snap { last_reconciled_block = block }))

abbrev pub is_fine : Option StoreError → Bool
is_fine none = true
is_fine (some e) = false

abbrev pub without : List ℕ → List PendingJob → List PendingJob
without ids = keep (λ (p : PendingJob). not (mem p.job_id ids))

abbrev pub is_nil : Bytes → Bool
is_nil [] = true
is_nil (x ∷ xs) = false

abbrev pub opened :
    FileStore → FileStore × Option StoreError → FileData × Result StoreError FileStore
opened s (t, none) = (t.file, ok t)
opened s (t, some e) = (t.file, err e)

-- The first `Close` gives the lock file up, also where closing it fails; any other does nothing.
unfoldable pub close : Io → FileStore → FileStore × Option StoreError
close io s =
    if s.closed
    then (s, none)
    else (record s { closed = true }, if io.close_fails then some close_failed else none)

-- The checks of `NewFileStore` before it takes the lock. `mkdir_fails` and `open_fails` tell of
-- the directory and of the lock file.
unfoldable pub arguments_error :
    Bytes → StoreIdentity → (mkdir_fails open_fails : Bool) → Option StoreError
arguments_error path identity mkdir_fails open_fails =
    if is_nil path
    then some bad_path
    else if identity.chain_id == 0
    then some bad_identity
    else if identity.worker_address == 0
    then some bad_identity
    else if identity.job_registry == 0
    then some bad_identity
    else if mkdir_fails
    then some mkdir_failed
    else if open_fails
    then some open_failed
    else none

module _ (a : AddressCodec) where
  unfoldable pub add_eligible : ℕ → ℤ → Io → FileStore → FileStore × Option StoreError
  unfolding has_job
  add_eligible id completed_at = mutating a λ snap.
      if has_job id snap.pending
      then ok none
      else ok (some (record snap { pending = snap.pending ++ fresh_job id completed_at ∷ [] }))

  unfoldable pub mark_eligible : ℕ → ℤ → Io → FileStore → FileStore × Option StoreError
  mark_eligible = add_eligible

  unfoldable pub pending : Io → FileStore → Result StoreError (List PendingJob)
  pending = reading a λ snap. sort_jobs snap.pending

  unfoldable pub remove : List ℕ → Io → FileStore → FileStore × Option StoreError
  remove [] io s = (s, none)
  remove (id ∷ ids) io s =
      mutating a (λ snap. ok (some (record snap { pending = without (id ∷ ids) snap.pending }))) io
        s

  unfoldable pub record_failure : ℕ → ℤ → Io → FileStore → FileStore × Option StoreError
  unfolding mark_failure has_job
  record_failure id backoff_until = mutating a λ snap.
      if has_job id snap.pending
      then ok (some (record snap { pending = mark_failure id backoff_until snap.pending }))
      else ok none

  unfoldable pub get_reconcile_block : Io → FileStore → Result StoreError ℕ
  get_reconcile_block = reading a λ snap. snap.last_reconciled_block

  unfoldable pub set_reconcile_block : ℕ → Io → FileStore → FileStore × Option StoreError
  set_reconcile_block block = mutating a λ snap.
      if ltb block snap.last_reconciled_block
      then err cursor_backward
      else ok (some (record snap { last_reconciled_block = block }))

  -- The flag tells whether the cursor was stored: it is not where one is stored already.
  unfoldable pub seed_reconcile_block : ℕ → Io → FileStore → (FileStore × Option StoreError) × Bool
  seed_reconcile_block block io s =
      let r = mutating a (seed_if_unset block) io s in
      let unset = reading a (λ snap. snap.last_reconciled_block == 0) io s in
      (r, elim unset [ ok b ↦ b && is_fine r.1 | err e ↦ false ])

  unfoldable pub get_last_release_ts : Io → FileStore → Result StoreError ℤ
  get_last_release_ts = reading a λ snap. snap.last_release_ts

  unfoldable pub set_last_release_ts : ℤ → Io → FileStore → FileStore × Option StoreError
  set_last_release_ts ts = mutating a λ snap. ok (some (record snap { last_release_ts = ts }))

  unfoldable pub get_next_allowed_attempt : Io → FileStore → Result StoreError ℤ
  get_next_allowed_attempt = reading a λ snap. snap.next_allowed_attempt

  unfoldable pub set_next_allowed_attempt : ℤ → Io → FileStore → FileStore × Option StoreError
  set_next_allowed_attempt ts =
      mutating a λ snap. ok (some (record snap { next_allowed_attempt = ts }))

  -- The first run creates the file; any other opens what is there, if it is this identity's.
  unfoldable pub initialise : Io → FileStore → FileStore × Option StoreError
  initialise io s = elim (lock_error a io s) [
    | some e ↦ (s, some e)
    | none ↦ elim (read_snapshot_locked io s.file) [
      | err not_exist ↦ write_snapshot_locked a io (empty_snapshot_of a s.identity) s
      | err e ↦ (s, some e)
      | ok snap ↦ (s, verify_identity_locked a s.identity snap)
    ]
  ]

  -- `NewFileStore` on the file at its path.
  unfoldable pub new_file_store :
      Bytes
      → StoreIdentity
      → (mkdir_fails open_fails : Bool) → Io
      → FileData
      → FileData × Result StoreError FileStore
  new_file_store path identity mkdir_fails open_fails io file =
      elim (arguments_error path identity mkdir_fails open_fails) [
        | some e ↦ (file, err e)
        | none ↦
            let s : FileStore = record { identity = identity; file = file; closed = false } in
            opened s (initialise io s)
      ]
