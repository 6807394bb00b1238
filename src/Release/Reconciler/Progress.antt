-- ===== src/Release/Reconciler/Progress.antt =====
-- A pass without an error has caught up with the safe head.
use lightchain_worker.Base.{
  ℕ, zero, suc, ◌+◌, ◌-◌, ◌≤◌, ◌<◌, ◌≡◌, refl, ap, ◌∙◌, inl, inr, true, false, Option, none, some,
  List, ◌∷◌, arith, Result, ok, err, ltb, leb, ◌==◌, u64_mod, add_u64_exact, Bool-cases,
  Option-cases, Result-cases,
}
use lightchain_worker.Release.Chain.{ChainError, HeadInfo, ChainOps, StoreOps}
use lightchain_worker.Release.Reconciler.{
  ReconcilerConfig, Pass, ended, chunk_end, first_block, chunk_size_of, settle_chunk, scan_chunk,
  scan, run_pass,
}
use lightchain_worker.Release.Reconciler.Passes.{noted, chunk_end_bounds}

-- The last cursor that was written.
abbrev pub LastWritten : {S W : Type 0} → ℕ → Pass (S × List ℕ) W → Type 0
LastWritten hi w = (log : List ℕ) × (w.store.1 ≡ hi ∷ log)

module _ {E S W : Type 0} (store : StoreOps E S) (chain : ChainOps W) (worker_addr : ℕ) where
  settle_chunk-LastWritten :
      (hi : ℕ) (r : Result E (Option ChainError)) (w : Pass (S × List ℕ) W)
      → (settle_chunk (noted store) chain hi r w).0 ≡ none
      → LastWritten hi (settle_chunk (noted store) chain hi r w).1
  unfolding settle_chunk noted
  settle_chunk-LastWritten hi (err x) w = λ h. absurd (ground arith)
  settle_chunk-LastWritten hi (ok (some e)) w = λ h. absurd (ground arith)
  settle_chunk-LastWritten hi (ok none) w =
      elim (Option-cases (store.set_reconcile_block hi w.store.0).1) [
        | inr (x, refused) ↦ rw (refused, settle_chunk) (λ h. absurd (ground arith))
        | inl stored ↦ rw (stored, settle_chunk) (λ h. (w.store.1, refl))
      ]

  scan_chunk-LastWritten :
      (lo hi : ℕ) (w : Pass (S × List ℕ) W)
      → (scan_chunk (noted store) chain worker_addr lo hi w).0 ≡ none
      → LastWritten hi (scan_chunk (noted store) chain worker_addr lo hi w).1
  unfolding scan_chunk
  scan_chunk-LastWritten lo hi w =
      elim (Result-cases (chain.filter_job_completed worker_addr lo hi w.chain).0) [
        | inr (e, failed) ↦ rw (failed, scan_chunk) (λ h. absurd (ground arith))
        | inl (evs, read) ↦ rw (read, scan_chunk) (settle_chunk-LastWritten hi _ _)
      ]

  scan-LastWritten :
      (chunk_size safe_head fuel lo : ℕ) (w : Pass (S × List ℕ) W)
      → 0 < chunk_size
      → safe_head + chunk_size < u64_mod
      → lo ≤ safe_head
      → (scan (noted store) chain worker_addr chunk_size safe_head fuel lo w).0 ≡ ended none
      → LastWritten safe_head
          (scan (noted store) chain worker_addr chunk_size safe_head fuel lo w).1
  unfolding scan
  scan-LastWritten chunk_size safe_head zero lo w p fits le = λ h. absurd (ground arith)
  scan-LastWritten chunk_size safe_head (suc fuel) lo w p fits le =
      let inside : leb lo safe_head ≡ true = ground arith in
      let hi : ℕ = chunk_end chunk_size lo safe_head in
      let (above, below, _) = chunk_end_bounds chunk_size lo safe_head p le fits in
      elim (Option-cases (scan_chunk (noted store) chain worker_addr lo hi w).0) [
        | inr (f, failed) ↦ rw (inside, scan) (rw (failed, scan) (λ h. absurd (ground arith)))
        | inl fine ↦
            let (log, written) = scan_chunk-LastWritten lo hi w fine in
            elim (Bool-cases (hi == safe_head)) [
              | inl last ↦
                  let same : hi ≡ safe_head = ground arith in
                  rw (inside, scan)
                    (rw (fine, scan)
                      (rw (last, scan) (λ h. (log, written ∙ ap (λ (b : ℕ). b ∷ log) same))))
              | inr more ↦
                  rw (inside, scan)
                    (rw (fine, scan)
                      (rw (more, scan)
                        (rw (add_u64_exact hi 1 (omega arith)) (
                          scan-LastWritten chunk_size safe_head fuel (hi + 1) _ p fits
                            (ground arith)))))
            ]
      ]

  -- If there is a block to scan up to the safe head, and the head lies a chunk below 2 ^ 64, then a
  -- pass that reports no error has written the safe head as the last cursor.
  pub run_pass-LastWritten :
      (cfg : ReconcilerConfig) (w : Pass (S × List ℕ) W) (cursor : ℕ) (head : HeadInfo)
      → (store.get_reconcile_block w.store.0).0 ≡ ok cursor
      → (chain.head w.chain).0 ≡ ok head
      → first_block cfg cursor + cfg.confirmations ≤ head.number
      → head.number + chunk_size_of cfg < u64_mod
      → (run_pass (noted store) chain cfg worker_addr w).0 ≡ ended none
      → LastWritten
          (head.number - cfg.confirmations)
          (run_pass (noted store) chain cfg worker_addr w).1
  unfolding run_pass noted
  run_pass-LastWritten cfg w cursor head read known le fits =
      let deep : ltb head.number cfg.confirmations ≡ false = ground arith in
      rw (read, run_pass)
        (rw (known, run_pass)
          (rw (deep, run_pass)
            (scan-LastWritten (chunk_size_of cfg) (head.number - cfg.confirmations) _
              (first_block cfg cursor) _ (ground arith) (omega arith) (omega arith))))
