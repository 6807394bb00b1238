-- ===== src/Release/Store/Opening.antt =====
-- Opening the state file: the first run, and any later one.
use lightchain_worker.Base.{
  ◌≡◌, ◌≢◌, refl, ◌⊎◌, inl, inr, Bool, false, Option, none, some, List, arith, ok, err,
  if◌then◌else◌, Bool-cases, Option-cases,
}
use lightchain_worker.Base.Bytes.{Bytes}
use lightchain_worker.Release.Store.File.{
  Snapshot, StoreIdentity, AddressCodec, StoreError, FileData, FileStore, Io, document,
  verify_identity_locked, pinned, empty_snapshot_of, missing, read_snapshot_locked,
  write_snapshot_locked, lock_error, empty, corrupt, read_failed, empty_snapshot, unmarshal_failed,
  write_failed,
}
use lightchain_worker.Release.Store.Calls.{arguments_error, opened, initialise, new_file_store}
use lightchain_worker.Release.Store.Atomic.{Call}
use lightchain_worker.Release.Store.Spec.{run}
use lightchain_worker.Release.Store.Invariant.{IsGood, RendersIdentity, run-IsGood, verify-pinned}

module _ (a : AddressCodec) where
  -- What a first look at the file comes to.
  abbrev pub Initialised : FileStore → FileStore × Option StoreError → Type 0
  Initialised s r =
      ((e : StoreError) × (r ≡ (s, some e)))
      ⊎ ((s.file ≡ missing)
          × (r ≡ (
            record s { file = document (pinned a s.identity (empty_snapshot_of a s.identity)) },
            none,
          )))
      ⊎ ((snap : Snapshot) × (s.file ≡ document snap)
          × (verify_identity_locked a s.identity snap ≡ none)
          × (r ≡ (s, none)))

  initialise_on :
      (file : FileData) (io : Io) (s : FileStore)
      → s.file ≡ file
      → lock_error a io s ≡ none
      → Initialised s (initialise a io s)
  unfolding initialise write_snapshot_locked read_snapshot_locked
  initialise_on missing io s e free = elim (Option-cases io.write_fault) [
    | inl fine ↦ inr (inl (e, ground arith))
    | inr (stage, fault) ↦ inl (write_failed stage, ground arith)
  ]
  initialise_on empty io s e free =
      inl (if io.read_fails then read_failed else empty_snapshot, ground arith)
  initialise_on corrupt io s e free =
      inl (if io.read_fails then read_failed else unmarshal_failed, ground arith)
  initialise_on (document snap) io s e free = elim (Bool-cases io.read_fails) [
    | inl bad ↦ inl (read_failed, ground arith)
    | inr fine ↦ elim (Option-cases (verify_identity_locked a s.identity snap)) [
      | inl v ↦ inr (inr (snap, e, v, ground arith))
      | inr (x, v) ↦ inl (x, ground arith)
    ]
  ]

  initialise-Initialised : (io : Io) (s : FileStore) → Initialised s (initialise a io s)
  unfolding initialise
  initialise-Initialised io s = elim (Option-cases (lock_error a io s)) [
    | inl free ↦ initialise_on s.file io s refl free
    | inr (e, locked) ↦ inl (e, ground arith)
  ]

  abbrev pub unopened : StoreIdentity → FileData → FileStore
  unopened i file = record { identity = i; file = file; closed = false }

  -- Opening fails before it looks at the file, or comes to what the look comes to.
  new_file_store_cases :
      (path : Bytes) (i : StoreIdentity) (m o : Bool) (io : Io) (file : FileData)
      → ((e : StoreError) × (new_file_store a path i m o io file ≡ (file, err e)))
        ⊎ (new_file_store a path i m o io file
            ≡ opened (unopened i file) (initialise a io (unopened i file)))
  unfolding new_file_store
  new_file_store_cases path i m o io file = elim (Option-cases (arguments_error path i m o)) [
    | inl good ↦ inr (ground arith)
    | inr (e, bad) ↦ inl (e, ground arith)
  ]

  opened_file : (s : FileStore) (r : FileStore × Option StoreError) → (opened s r).0 ≡ r.0.file
  opened_file s (t, none) = refl
  opened_file s (t, some e) = refl

  empty-IsGood :
      (i : StoreIdentity)
      → RendersIdentity a i
      → IsGood a i (document (pinned a i (empty_snapshot_of a i)))
  empty-IsGood i r = (
    pinned a i (empty_snapshot_of a i),
    refl,
    verify-pinned a i (empty_snapshot_of a i) r,
    unfold pinned empty_snapshot_of in tt,
  )

  open-IsGood :
      (path : Bytes) (i : StoreIdentity) (m o : Bool) (io : Io) (s : FileStore)
      → RendersIdentity a i
      → (new_file_store a path i m o io missing).1 ≡ ok s
      → (s.identity ≡ i) × IsGood a i s.file
  open-IsGood path i m o io s r h = elim (new_file_store_cases path i m o io missing) [
    | inl (e, bad) ↦ absurd (ground arith)
    | inr looked ↦ elim (initialise-Initialised io (unopened i missing)) [
      | inl (e, bad) ↦ absurd (ground arith)
      | inr (inr (snap, doc, _, _)) ↦ absurd (ground arith)
      | inr (inl (_, made)) ↦
          let same : s ≡ record (unopened i missing) {
            file = document (pinned a i (empty_snapshot_of a i));
          } =
            ground arith in
          rw same (refl, empty-IsGood i r)
    ]
  ]

  -- From a successful first opening on, where there was no file, after any calls, failed ones
  -- included, the file holds a document of this schema, chain, contract and worker, in which no job
  -- stands twice, if the addresses of the identity are read back from their own text.
  pub open-run-IsGood :
      (path : Bytes) (i : StoreIdentity) (m o : Bool) (io : Io) (s : FileStore)
      → RendersIdentity a i
      → (new_file_store a path i m o io missing).1 ≡ ok s
      → (cs : List (Io × Call)) → IsGood a i (run a cs s).file
  open-run-IsGood path i m o io s r h cs =
      let (e, g) = open-IsGood path i m o io s r h in run-IsGood a i cs s r e g

  verify_identity_locked_inv :
      (i : StoreIdentity) (snap : Snapshot)
      → verify_identity_locked a i snap ≡ none
      → (snap.chain_id ≡ i.chain_id)
        × (a.hex_to_address snap.job_registry ≡ i.job_registry)
        × (a.hex_to_address snap.worker_address ≡ i.worker_address)
  unfolding verify_identity_locked
  verify_identity_locked_inv i snap h = ground arith

  -- Two identities whose documents agree are one.
  verified_once :
      (i j : StoreIdentity) (snap : Snapshot)
      → verify_identity_locked a i snap ≡ none
      → verify_identity_locked a j snap ≡ none
      → i ≡ j
  verified_once i j snap v w =
      ground (arith, verify_identity_locked_inv i snap v, verify_identity_locked_inv j snap w)

  -- A worker never settles from the file of another chain, contract or worker: opening the file of
  -- one identity for another is refused, and leaves the file as it is.
  pub other_identity_refused :
      (path : Bytes) (i j : StoreIdentity) (m o : Bool) (io : Io) (file : FileData)
      → IsGood a i file
      → i ≢ j
      → (e : StoreError) × (new_file_store a path j m o io file ≡ (file, err e))
  other_identity_refused path i j m o io file (snap, doc, v, d) differ =
      elim (new_file_store_cases path j m o io file) [
        | inl found ↦ found
        | inr looked ↦ elim (initialise-Initialised io (unopened j file)) [
          | inl (e, bad) ↦ (e, ground arith)
          | inr (inl (gone, made)) ↦ absurd (ground arith)
          | inr (inr (snap', doc', w, same)) ↦
              let eq : snap' ≡ snap = ground arith in
              absurd (differ (verified_once i j snap v (rw eq at w)))
        ]
      ]
