-- ===== src/Release/Store/Atomic.antt =====
-- Every call on the state file, and what may have happened to the file behind it.
use lightchain_worker.Base.{
  ℕ, ◌≡◌, ◌≢◌, refl, ap, ◌⊎◌, inl, inr, true, Option, none, some, List, [], ◌∷◌, ◌++◌, arith,
  Result, ok, err, ℤ, ltb, if◌then◌else◌, Bool-cases, Option-cases, Result-cases,
}
use lightchain_worker.Release.Store.File.{
  Snapshot, AddressCodec, StoreError, FileData, FileStore, Io, document, missing, not_exist,
  read_failed, empty_snapshot, unmarshal_failed, empty, corrupt, write_failed, read_snapshot_locked,
  verify_identity_locked, write_snapshot_locked, load_verified_locked, lock_error, mutating, pinned,
  cursor_backward,
}
use lightchain_worker.Release.Store.Calls.{
  has_job, fresh_job, mark_failure, without, seed_if_unset, add_eligible, remove, record_failure,
  set_reconcile_block, seed_reconcile_block, set_last_release_ts, set_next_allowed_attempt, close,
}

-- The calls of the store that may write.
pub data Call : Type 0 where
  adding : ℕ → ℤ → Call
  removing : List ℕ → Call
  failing : ℕ → ℤ → Call
  advancing seeding : ℕ → Call
  releasing gating : ℤ → Call
  closing : Call

read_snapshot_locked_inv :
    (io : Io) (file : FileData)
    → ((e : StoreError) × (read_snapshot_locked io file ≡ err e))
      ⊎ ((snap : Snapshot) × (read_snapshot_locked io file ≡ ok snap) × (file ≡ document snap))
unfolding read_snapshot_locked
read_snapshot_locked_inv io missing = inl (not_exist, refl)
read_snapshot_locked_inv io empty =
    inl (if io.read_fails then read_failed else empty_snapshot, ground arith)
read_snapshot_locked_inv io corrupt =
    inl (if io.read_fails then read_failed else unmarshal_failed, ground arith)
read_snapshot_locked_inv io (document snap) = elim (Bool-cases io.read_fails) [
  | inl bad ↦ inl (read_failed, rw bad)
  | inr fine ↦ inr (snap, rw fine, refl)
]

module _ (a : AddressCodec) where
  unfoldable pub call : Io → Call → FileStore → FileStore × Option StoreError
  call io (adding id completed_at) s = add_eligible a id completed_at io s
  call io (removing ids) s = remove a ids io s
  call io (failing id backoff_until) s = record_failure a id backoff_until io s
  call io (advancing block) s = set_reconcile_block a block io s
  call io (seeding block) s = (seed_reconcile_block a block io s).0
  call io (releasing ts) s = set_last_release_ts a ts io s
  call io (gating ts) s = set_next_allowed_attempt a ts io s
  call io closing s = close io s

  -- What a call under the lock may come to: an error and no change; nothing to write; or the
  -- document of the loaded one's edit.
  abbrev pub Outcome :
      (Snapshot → Result StoreError (Option Snapshot))
      → FileStore
      → FileStore × Option StoreError
      → Type 0
  Outcome f s r =
      ((e : StoreError) × (r ≡ (s, some e)))
      ⊎ ((snap : Snapshot) × (s.file ≡ document snap)
          × (verify_identity_locked a s.identity snap ≡ none)
          × (f snap ≡ ok none)
          × (r ≡ (s, none)))
      ⊎ ((snap : Snapshot) × (new : Snapshot) × (s.file ≡ document snap)
          × (verify_identity_locked a s.identity snap ≡ none)
          × (f snap ≡ ok (some new))
          × (r ≡ (record s { file = document (pinned a s.identity new) }, none)))

  pub load_verified_locked_inv :
      (io : Io) (s : FileStore) (snap : Snapshot)
      → load_verified_locked a io s ≡ ok snap
      → (s.file ≡ document snap) × (verify_identity_locked a s.identity snap ≡ none)
  unfolding load_verified_locked
  load_verified_locked_inv io s snap h = ground (arith, read_snapshot_locked_inv io s.file)

  mutating-Outcome :
      (f : Snapshot → Result StoreError (Option Snapshot)) (io : Io) (s : FileStore)
      → Outcome f s (mutating a f io s)
  unfolding mutating write_snapshot_locked
  mutating-Outcome f io s = elim (Option-cases (lock_error a io s)) [
    | inr (e, locked) ↦ rw (locked, mutating) (inl (e, refl))
    | inl free ↦ elim (Result-cases (load_verified_locked a io s)) [
      | inr (e, bad) ↦ inl (e, ground arith)
      | inl (snap, loaded) ↦
          let (doc, verified) = load_verified_locked_inv io s snap loaded in
          elim (Result-cases (f snap)) [
            | inr (e, refused) ↦ inl (e, ground arith)
            | inl (none, same) ↦ inr (inl (snap, doc, verified, same, ground arith))
            | inl (some new, edit) ↦ elim (Option-cases io.write_fault) [
              | inl fine ↦ inr (inr (snap, new, doc, verified, edit, ground arith))
              | inr (stage, fault) ↦ inl (write_failed stage, ground arith)
            ]
          ]
    ]
  ]

  -- The edit that each call makes to the document it has loaded.
  abbrev pub edit : Call → Snapshot → Result StoreError (Option Snapshot)
  edit (adding id completed_at) snap =
      if has_job id snap.pending
      then ok none
      else ok (some (record snap { pending = snap.pending ++ fresh_job id completed_at ∷ [] }))
  edit (removing ids) snap = ok (some (record snap { pending = without ids snap.pending }))
  edit (failing id backoff_until) snap =
      if has_job id snap.pending
      then ok (some (record snap { pending = mark_failure id backoff_until snap.pending }))
      else ok none
  edit (advancing block) snap =
      if ltb block snap.last_reconciled_block
      then err cursor_backward
      else ok (some (record snap { last_reconciled_block = block }))
  edit (seeding block) snap = seed_if_unset block snap
  edit (releasing ts) snap = ok (some (record snap { last_release_ts = ts }))
  edit (gating ts) snap = ok (some (record snap { next_allowed_attempt = ts }))
  edit closing snap = ok none

  -- The calls that return before they take the lock.
  abbrev pub Unlocked : Call → Type 0
  Unlocked (removing []) = Unit
  Unlocked closing = Unit
  Unlocked _ = ⊥

  -- Of a call that does nothing, or closes the store.
  abbrev pub Spared : Io → Call → FileStore → Type 0
  Spared io c s =
      (call io c s ≡ (s, none)) ⊎ ((c ≡ closing) × ((call io c s).0 ≡ record s { closed = true }))

  pub call-Outcome :
      (io : Io) (c : Call) (s : FileStore)
      → (Unlocked c × ((call io c s).0.file ≡ s.file) × Spared io c s)
        ⊎ Outcome (edit c) s (call io c s)
  unfolding call add_eligible remove record_failure set_reconcile_block seed_reconcile_block
      set_last_release_ts set_next_allowed_attempt close
  call-Outcome io (removing []) s = inl (tt, refl, inl refl)
  call-Outcome io closing s = elim (Bool-cases s.closed) [
    | inl shut ↦ inl (tt, ground arith, inl (ground arith))
    | inr still ↦ inl (tt, ground arith, inr (refl, ground arith))
  ]
  call-Outcome io (removing (id ∷ ids)) s = inr (mutating-Outcome _ io s)
  call-Outcome io (adding id t) s = inr (mutating-Outcome _ io s)
  call-Outcome io (failing id u) s = inr (mutating-Outcome _ io s)
  call-Outcome io (advancing block) s = inr (mutating-Outcome _ io s)
  call-Outcome io (seeding block) s = inr (mutating-Outcome _ io s)
  call-Outcome io (releasing ts) s = inr (mutating-Outcome _ io s)
  call-Outcome io (gating ts) s = inr (mutating-Outcome _ io s)

  -- A call that reports an error has changed nothing, at whichever step it failed: not the file,
  -- and not the open store, unless it is `Close`, which has closed the store and done nothing else.
  pub failed_call_unchanged :
      (io : Io) (c : Call) (s : FileStore) (e : StoreError)
      → (call io c s).1 ≡ some e
      → ((call io c s).0 ≡ s) ⊎ ((c ≡ closing) × ((call io c s).0 ≡ record s { closed = true }))
  failed_call_unchanged io c s e h = elim (call-Outcome io c s) [
    | inl (_, _, inl idle) ↦ inl (ap (λ r. r.0) idle)
    | inl (_, _, inr shut) ↦ inr shut
    | inr (inl (_, same)) ↦ inl (ap (λ r. r.0) same)
    | inr (inr (inl (_, _, _, _, same))) ↦ inl (ap (λ r. r.0) same)
    | inr (inr (inr (_, _, _, _, _, wrote))) ↦ absurd (ground arith)
  ]

  -- Nor has it changed the file.
  pub failed_call_file :
      (io : Io) (c : Call) (s : FileStore) (e : StoreError)
      → (call io c s).1 ≡ some e
      → (call io c s).0.file ≡ s.file
  failed_call_file io c s e h = elim (failed_call_unchanged io c s e h) [
    | inl same ↦ ap (λ (t : FileStore). t.file) same
    | inr (_, shut) ↦ ap (λ (t : FileStore). t.file) shut
  ]

  -- A state file that is gone, truncated to nothing or no JSON is never taken for a fresh one:
  -- every call that takes the lock reports an error and leaves the file as it is.
  pub damaged_file_refused :
      (io : Io) (c : Call) (s : FileStore)
      → ((snap : Snapshot) → s.file ≢ document snap)
      → ¬ Unlocked c
      → (e : StoreError) × (call io c s ≡ (s, some e))
  damaged_file_refused io c s damaged locked = elim (call-Outcome io c s) [
    | inl (free, _, _) ↦ absurd (locked free)
    | inr (inl found) ↦ found
    | inr (inr (inl (snap, doc, _, _, _))) ↦ absurd (damaged snap doc)
    | inr (inr (inr (snap, new, doc, _, _, _))) ↦ absurd (damaged snap doc)
  ]
