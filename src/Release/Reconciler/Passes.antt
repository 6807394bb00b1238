-- ===== src/Release/Reconciler/Passes.antt =====
-- The chunks of a pass, and that the loop over them ends.
use lightchain_worker.Base.{
  ℕ, zero, suc, ◌+◌, ◌≤◌, ◌<◌, ◌≢◌, inl, inr, List, ◌∷◌, arith, add_u64, sub_u64, leb, ◌==◌,
  u64_mod, add_u64_exact, Bool-cases, Option-cases,
}
use lightchain_worker.Release.Chain.{ChainOps, StoreOps}
use lightchain_worker.Release.Reconciler.{Pass, out_of_fuel, chunk_end, scan_chunk, scan}

-- A chunk begins at `lo`, holds at most `chunk_size` blocks, and ends at the safe head at the
-- latest; where it ends before, it is full.
pub chunk_end_bounds :
    (chunk_size lo safe_head : ℕ)
    → 0 < chunk_size
    → lo ≤ safe_head
    → safe_head + chunk_size < u64_mod
    → (lo ≤ chunk_end chunk_size lo safe_head)
      × (chunk_end chunk_size lo safe_head ≤ safe_head)
      × (chunk_end chunk_size lo safe_head < lo + chunk_size)
unfolding chunk_end add_u64 sub_u64
chunk_end_bounds chunk_size lo safe_head p le fits = ground arith

-- The same store, with the arguments of all cursor writes noted beside its state.
unfoldable pub noted : {E S : Type 0} → StoreOps E S → StoreOps E (S × List ℕ)
noted store = record {
  add_eligible = λ id t (s, log). let (s', e) = store.add_eligible id t s in ((s', log), e);
  pending = λ (s, log). let (a, s') = store.pending s in (a, (s', log));
  remove = λ ids (s, log). let (s', e) = store.remove ids s in ((s', log), e);
  record_failure = λ id t (s, log). let (s', e) = store.record_failure id t s in ((s', log), e);
  get_reconcile_block = λ (s, log). let (a, s') = store.get_reconcile_block s in (a, (s', log));
  set_reconcile_block =
      λ b (s, log). let (s', e) = store.set_reconcile_block b s in ((s', b ∷ log), e);
  get_last_release_ts = λ (s, log). let (a, s') = store.get_last_release_ts s in (a, (s', log));
  set_last_release_ts = λ t (s, log). let (s', e) = store.set_last_release_ts t s in ((s', log), e);
  get_next_allowed_attempt =
      λ (s, log). let (a, s') = store.get_next_allowed_attempt s in (a, (s', log));
  set_next_allowed_attempt =
      λ t (s, log). let (s', e) = store.set_next_allowed_attempt t s in ((s', log), e);
}

module _ {E S W : Type 0} (store : StoreOps E S) (chain : ChainOps W) (worker_addr : ℕ) where
  -- The loop over the chunks does not run out of fuel on one unit more than the blocks left.
  pub scan_ends :
      (chunk_size safe_head fuel lo : ℕ) (w : Pass S W)
      → 0 < chunk_size
      → safe_head + chunk_size < u64_mod
      → 0 < fuel
      → safe_head + 1 < fuel + lo
      → (scan store chain worker_addr chunk_size safe_head fuel lo w).0 ≢ out_of_fuel
  unfolding scan
  scan_ends chunk_size safe_head zero lo w p fits some_fuel enough = absurd (omega arith)
  scan_ends chunk_size safe_head (suc fuel) lo w p fits some_fuel enough =
      elim (Bool-cases (leb lo safe_head)) [
        | inr over ↦ rw (over, scan) (ground arith)
        | inl inside ↦
            let hi : ℕ = chunk_end chunk_size lo safe_head in
            let (above, below, _) =
              chunk_end_bounds chunk_size lo safe_head p (ground arith) fits in
            elim (Option-cases (scan_chunk store chain worker_addr lo hi w).0) [
              | inr (f, failed) ↦ rw (inside, scan) (rw (failed, scan) (ground arith))
              | inl fine ↦ elim (Bool-cases (hi == safe_head)) [
                | inl last ↦ rw (inside, scan) (rw (fine, scan) (rw (last, scan) (ground arith)))
                | inr more ↦
                    rw (inside, scan)
                      (rw (fine, scan)
                        (rw (more, scan)
                          (rw (add_u64_exact hi 1 (omega arith)) (
                            scan_ends chunk_size safe_head fuel (hi + 1) _ p fits (ground arith)
                              (omega arith)))))
              ]
            ]
      ]
