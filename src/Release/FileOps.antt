-- ===== src/Release/FileOps.antt =====
-- internal/release/store.go as the store of the scheduler: the file, and what the operating system
-- does during the calls to come. Where that list has run out all is well.
pub mod Keeping
use lightchain_worker.Base.{
  ◌≡◌, ap, ◌∙◌, ◌⊎◌, inl, inr, Option, none, List, [], ◌∷◌, arith, Result, ok, err, ℤ, Result-cases,
}
use lightchain_worker.Release.Store.File.{
  AddressCodec, Snapshot, StoreError, FileStore, Io, all_well, document, pinned,
}
use lightchain_worker.Release.Store.Calls
use lightchain_worker.Release.Store.Atomic.{gating, call, call-Outcome}
use lightchain_worker.Release.Store.Order.{reading_inv}
use lightchain_worker.Release.Chain.{StoreOps}
use lightchain_worker.Release.Scheduler.Pause.{GateLaw}

abbrev pub Disk : Type 0
Disk = FileStore × List Io

abbrev pub next_io : List Io → Io × List Io
next_io [] = (all_well, [])
next_io (io ∷ ios) = (io, ios)

abbrev pub writing :
    (Io → FileStore → FileStore × Option StoreError) → Disk → Disk × Option StoreError
writing f (s, ios) = let (io, rest) = next_io ios in let (t, e) = f io s in ((t, rest), e)

abbrev pub looking {ℓ} :
    {A : Type ℓ} → (Io → FileStore → Result StoreError A) → Disk → Result StoreError A × Disk
looking f (s, ios) = let (io, rest) = next_io ios in (f io s, (s, rest))

module _ (a : AddressCodec) where
  unfoldable pub file_store_ops : StoreOps StoreError Disk
  file_store_ops = record {
    add_eligible = λ id t. writing (Calls.add_eligible a id t);
    pending = looking (Calls.pending a);
    remove = λ ids. writing (Calls.remove a ids);
    record_failure = λ id t. writing (Calls.record_failure a id t);
    get_reconcile_block = looking (Calls.get_reconcile_block a);
    set_reconcile_block = λ b. writing (Calls.set_reconcile_block a b);
    get_last_release_ts = looking (Calls.get_last_release_ts a);
    set_last_release_ts = λ t. writing (Calls.set_last_release_ts a t);
    get_next_allowed_attempt = looking (Calls.get_next_allowed_attempt a);
    set_next_allowed_attempt = λ t. writing (Calls.set_next_allowed_attempt a t);
  }

  gate_written :
      (io : Io) (s : FileStore) (t : ℤ) (snap : Snapshot)
      → (Calls.set_next_allowed_attempt a t io s).1 ≡ none
      → (Calls.set_next_allowed_attempt a t io s).0.file ≡ document snap
      → snap.next_allowed_attempt ≡ t
  unfolding call pinned
  gate_written io s t snap h doc = ground (arith, call-Outcome a io (gating t) s)

  gate_of_disk :
      (io io' : Io) (s : FileStore) (t : ℤ)
      → (Calls.set_next_allowed_attempt a t io s).1 ≡ none
      → let s' = (Calls.set_next_allowed_attempt a t io s).0 in
        let answer = Calls.get_next_allowed_attempt a io' s' in
        (answer ≡ ok t) ⊎ ((e : StoreError) × (answer ≡ err e))
  unfolding Calls.get_next_allowed_attempt
  gate_of_disk io io' s t h =
      let s' = (Calls.set_next_allowed_attempt a t io s).0 in
      elim (Result-cases (Calls.get_next_allowed_attempt a io' s')) [
        | inr (e, bad) ↦ inr (e, bad)
        | inl (u, read) ↦
            let (old, doc, value) =
              reading_inv a (λ snap. snap.next_allowed_attempt) io' s' u read in
            inl (rw read (ap ok (value ∙ gate_written io s t old h doc)))
      ]

  -- The file keeps the gate: what is read behind a write that succeeded is what was written, or an
  -- error.
  pub file_store_ops-GateLaw : GateLaw file_store_ops
  unfolding file_store_ops
  file_store_ops-GateLaw t (s, ios) h =
      gate_of_disk (next_io ios).0 (next_io (next_io ios).1).0 s t h
