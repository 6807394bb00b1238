-- ===== src/Tests/Passes.antt =====
-- Runs of the reconciler over a scripted chain and over the state file.
use lightchain_worker.Base.{
  ℕ, ◌≡◌, ◌≢◌, refl, none, List, [], ◌∷◌, arith, ok, pos, add_u64, sub_u64, leb, ◌&&◌,
  if◌then◌else◌,
}
use lightchain_worker.Release.Store.File.{
  StoreError, document, reading, lock_error, load_verified_locked, read_snapshot_locked,
  verify_identity_locked, addr_equal_hex, mutating, write_snapshot_locked, pinned,
}
use lightchain_worker.Release.Store.Calls.{
  fresh_job, has_job, add_eligible, get_reconcile_block, set_reconcile_block,
}
use lightchain_worker.Release.Chain.{ChainOps, JobCompletedEvent, completed}
use lightchain_worker.Release.Reconciler.{
  Ended, ReconcilerConfig, Pass, out_of_fuel, ended, run_pass, scan, scan_chunk, scan_events,
  settle_chunk, wanted, chunk_end, first_block,
}
use lightchain_worker.Release.Reconciler.Passes.{noted}
use lightchain_worker.Release.Reconciler.Coverage.{taking, listening, Noted, Travelled}
use lightchain_worker.Release.Reconciler.Runs.{HeadFits, run_pass_ends, run_pass-Covered}
use lightchain_worker.Release.Reconciler.Progress.{LastWritten, run_pass-LastWritten}
use lightchain_worker.Release.FileOps.{Disk, file_store_ops}
use lightchain_worker.Tests.StateFile.{one_byte, two_jobs, store_at}

abbrev config : ReconcilerConfig
config = record { start_block = 0; chunk_size = 30; confirmations = 5 }

-- Job 4 was completed in block 60; the head is block 100.
abbrev events_in : ℕ → ℕ → List JobCompletedEvent
events_in lo hi = if leb lo 60 && leb 60 hi then record { job_id = 4 } ∷ [] else []

abbrev eventful : ChainOps Unit
eventful = record {
  head = λ c. (ok (record { number = 100; timestamp = pos 200 }), c);
  get_dispute_window = λ c. (ok (pos 0), c);
  get_job_state = λ id c. (
    ok (record { state = completed; worker = 1; completed_at = pos 95; escrowed_fee = none }),
    c,
  );
  release_job = λ id c. (none, c);
  release_jobs = λ ids c. (none, c);
  filter_job_completed = λ worker lo hi c. (ok (events_in lo hi), c);
}

abbrev before : Pass Disk Unit
before = record { store = (store_at (document two_jobs), []); chain = tt; last_block = 0 }

eventful_fits : HeadFits eventful config tt
eventful_fits head e = ground arith

run_pass_ends_example :
    (run_pass (file_store_ops one_byte) eventful config 1 before).0 ≢ out_of_fuel
run_pass_ends_example =
    run_pass_ends (file_store_ops one_byte) eventful config 1 before eventful_fits

abbrev noted_before : Noted StoreError Disk Unit
noted_before = record { store = ((before.store, []), []); chain = (tt, []); last_block = 0 }

abbrev noted_run : Ended StoreError × Noted StoreError Disk Unit
noted_run =
    run_pass (noted (taking (file_store_ops one_byte))) (listening eventful) config 1 noted_before

cursor_read : ((file_store_ops one_byte).get_reconcile_block before.store).0 ≡ ok 50
unfolding file_store_ops get_reconcile_block reading lock_error load_verified_locked
    read_snapshot_locked verify_identity_locked addr_equal_hex
cursor_read = refl

run_pass-Covered_example : Travelled 1 50 noted_run.1
run_pass-Covered_example =
    run_pass-Covered (file_store_ops one_byte) eventful config 1 before.store tt 0 50 eventful_fits
      cursor_read (omega arith)

-- Two chunks: the cursor is written at block 80 and at block 95.
noted_run_cursors : (noted_run.0 ≡ ended none) × (noted_run.1.store.1 ≡ 95 ∷ 80 ∷ [])
unfolding file_store_ops noted taking listening run_pass scan scan_chunk scan_events settle_chunk
    wanted chunk_end first_block add_u64 sub_u64 get_reconcile_block set_reconcile_block
    add_eligible has_job reading lock_error load_verified_locked read_snapshot_locked
    verify_identity_locked addr_equal_hex mutating write_snapshot_locked pinned
noted_run_cursors = (refl, refl)

-- From block 51 to block 95, in two chunks.
pass_test :
    let (r, w) = run_pass (file_store_ops one_byte) eventful config 1 before in
    (r ≡ ended none)
    × (w.last_block ≡ 95)
    × (w.store.0.file
        ≡ document (record two_jobs {
          pending = fresh_job 8 (pos 100) ∷ fresh_job 3 (pos 90) ∷ fresh_job 4 (pos 95) ∷ [];
          last_reconciled_block = 95;
        }))
unfolding file_store_ops run_pass scan scan_chunk scan_events settle_chunk wanted chunk_end
    first_block add_u64 sub_u64 get_reconcile_block set_reconcile_block add_eligible has_job reading
    lock_error load_verified_locked read_snapshot_locked verify_identity_locked addr_equal_hex
    mutating write_snapshot_locked pinned
pass_test = (refl, refl, refl)

abbrev marked_before : Pass (Disk × List ℕ) Unit
marked_before = record { store = (before.store, []); chain = tt; last_block = 0 }

marked_run_fine :
    (run_pass (noted (file_store_ops one_byte)) eventful config 1 marked_before).0 ≡ ended none
unfolding file_store_ops noted run_pass scan scan_chunk scan_events settle_chunk wanted chunk_end
    first_block add_u64 sub_u64 get_reconcile_block set_reconcile_block add_eligible has_job reading
    lock_error load_verified_locked read_snapshot_locked verify_identity_locked addr_equal_hex
    mutating write_snapshot_locked pinned
marked_run_fine = refl

run_pass-LastWritten_example :
    LastWritten 95 (run_pass (noted (file_store_ops one_byte)) eventful config 1 marked_before).1
run_pass-LastWritten_example =
    run_pass-LastWritten (file_store_ops one_byte) eventful 1 config marked_before 50
      (record { number = 100; timestamp = pos 200 }) cursor_read refl
      (unfold first_block add_u64 in ground arith) (omega arith) marked_run_fine
