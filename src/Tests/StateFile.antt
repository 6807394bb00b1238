-- ===== src/Tests/StateFile.antt =====
-- Runs of the release store, with addresses written in hexadecimal digits 0x1 and 0x2.
use lightchain_worker.Base.{
  ℕ, ◌≤◌, ◌≡◌, ◌⊎◌, refl, true, false, none, some, List, [], ◌∷◌, ok, err, pos,
}
use lightchain_worker.Base.Bytes.{Bytes, codes}
use lightchain_worker.Release.Store.File.{
  reading, empty_snapshot_of, pinned, write_snapshot_locked, read_snapshot_locked,
  load_verified_locked, lock_error, mutating, PendingJob, Snapshot, StoreIdentity, AddressCodec,
  FileData, FileStore, Io, all_well, document, missing, corrupt, write_failed, rename_temp,
  unmarshal_failed, verify_identity_locked,
}
use lightchain_worker.Release.Store.Calls.{
  add_eligible, sort_jobs, initialise, arguments_error, record_failure, fresh_job, new_file_store,
  pending, get_last_release_ts, get_reconcile_block, seed_reconcile_block, mark_eligible, has_job,
}
use lightchain_worker.Release.Store.Atomic.{
  Call, adding, failing, advancing, closing, call, failed_call_unchanged,
}
use lightchain_worker.Release.Store.Spec.{view, meaning, call-meaning, run, run-cursor_le, find_job}
use lightchain_worker.Release.Store.Invariant.{IsGood}
use lightchain_worker.Release.Store.Opening.{open-run-IsGood}
use lightchain_worker.Release.Store.Order.{Ascending, pending-Ascending}

abbrev number_of : Bytes → ℕ
number_of [] = 0
number_of (n ∷ ns) = n

-- An address is its number, as one byte.
abbrev pub one_byte : AddressCodec
one_byte = record { is_hex_address = λ s. true; hex_to_address = number_of; hex = λ n. n ∷ [] }

abbrev worker_one : StoreIdentity
worker_one = record { chain_id = 9200; job_registry = 5; worker_address = 1 }

abbrev worker_two : StoreIdentity
worker_two = record { chain_id = 9200; job_registry = 5; worker_address = 2 }

abbrev pub two_jobs : Snapshot
two_jobs = record {
  schema = 2;
  chain_id = 9200;
  job_registry = 5 ∷ [];
  worker_address = 1 ∷ [];
  pending = fresh_job 8 (pos 100) ∷ fresh_job 3 (pos 90) ∷ [];
  last_reconciled_block = 50;
  last_release_ts = pos 0;
  next_allowed_attempt = pos 0;
}

abbrev pub store_at : FileData → FileStore
store_at file = record { identity = worker_one; file = file; closed = false }

abbrev rename_fails : Io
rename_fails = record all_well { write_fault = some rename_temp }

failing_rename :
    (call one_byte rename_fails (adding 4 (pos 95)) (store_at (document two_jobs))).1
    ≡ some (write_failed rename_temp)
unfolding call add_eligible mutating lock_error load_verified_locked read_snapshot_locked
    verify_identity_locked write_snapshot_locked
failing_rename = refl

failed_call_unchanged_example :
    ((call one_byte rename_fails (adding 4 (pos 95)) (store_at (document two_jobs))).0
      ≡ store_at (document two_jobs))
    ⊎ ((adding 4 (pos 95) ≡ closing)
        × ((call one_byte rename_fails (adding 4 (pos 95)) (store_at (document two_jobs))).0
            ≡ record (store_at (document two_jobs)) { closed = true }))
failed_call_unchanged_example =
    failed_call_unchanged one_byte rename_fails (adding 4 (pos 95)) (store_at (document two_jobs))
      (write_failed rename_temp) failing_rename

fine_failure :
    (call one_byte all_well (failing 3 (pos 200)) (store_at (document two_jobs))).1 ≡ none
unfolding call record_failure mutating lock_error load_verified_locked read_snapshot_locked
    verify_identity_locked write_snapshot_locked
fine_failure = refl

call-meaning_example :
    (new : Snapshot) × ((call one_byte all_well
        (failing 3 (pos 200))
        (store_at (document two_jobs))).0.file
      ≡ document new)
    × (view new ≡ meaning (failing 3 (pos 200)) (view two_jobs))
call-meaning_example =
    call-meaning one_byte all_well (failing 3 (pos 200)) (store_at (document two_jobs)) two_jobs
      refl fine_failure

abbrev calls : List (Io × Call)
calls = (all_well, advancing 60) ∷ (all_well, advancing 40) ∷ (rename_fails, adding 4 (pos 95)) ∷ []

run-cursor_le_example :
    (new : Snapshot) × ((run one_byte calls (store_at (document two_jobs))).file ≡ document new)
    × (50 ≤ new.last_reconciled_block)
run-cursor_le_example = run-cursor_le one_byte calls (store_at (document two_jobs)) two_jobs refl

abbrev first_run : FileStore
first_run = store_at (document (record two_jobs { pending = []; last_reconciled_block = 0 }))

first_run_opens :
    (new_file_store one_byte (codes "release.json") worker_one false false all_well missing).1
    ≡ ok first_run
unfolding new_file_store arguments_error initialise lock_error read_snapshot_locked
    write_snapshot_locked pinned empty_snapshot_of
first_run_opens = refl

open-run-IsGood_example : IsGood one_byte worker_one (run one_byte calls first_run).file
open-run-IsGood_example =
    open-run-IsGood one_byte (codes "release.json") worker_one false false all_well first_run
      (record { is_hex = refl; reads_back = refl }, record { is_hex = refl; reads_back = refl })
      first_run_opens calls

two_jobs_verified : verify_identity_locked one_byte worker_one two_jobs ≡ none
unfolding verify_identity_locked
two_jobs_verified = refl

two_jobs-IsGood : IsGood one_byte worker_one (document two_jobs)
two_jobs-IsGood = (two_jobs, refl, two_jobs_verified, unfold has_job in (refl, (refl, tt)))

abbrev by_id : List PendingJob
by_id = fresh_job 3 (pos 90) ∷ fresh_job 8 (pos 100) ∷ []

pending_by_id : pending one_byte all_well (store_at (document two_jobs)) ≡ ok by_id
unfolding pending reading lock_error load_verified_locked read_snapshot_locked
    verify_identity_locked sort_jobs
pending_by_id = refl

pending-Ascending_example :
    Ascending by_id × ((j : ℕ) → find_job j by_id ≡ find_job j two_jobs.pending)
pending-Ascending_example =
    pending-Ascending one_byte all_well (store_at (document two_jobs)) two_jobs by_id refl
      (unfold has_job in (refl, (refl, tt))) pending_by_id

-- The readers, a seeding after the cursor is stored, and the handler's `MarkEligible`.
readers_test :
    (get_reconcile_block one_byte all_well (store_at (document two_jobs)) ≡ ok 50)
    × (get_last_release_ts one_byte all_well (store_at corrupt) ≡ err unmarshal_failed)
    × (seed_reconcile_block one_byte 9 all_well (store_at (document two_jobs))
        ≡ ((store_at (document two_jobs), none), false))
    × (mark_eligible one_byte 3 (pos 99) all_well (store_at (document two_jobs))
        ≡ (store_at (document two_jobs), none))
unfolding get_reconcile_block reading lock_error load_verified_locked read_snapshot_locked
    verify_identity_locked get_last_release_ts seed_reconcile_block mutating mark_eligible
    add_eligible
readers_test = (refl, refl, refl, refl)
