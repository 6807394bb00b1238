-- ===== src/Chain/Nonce/Safety.antt =====
-- What the leases of nonce.go guarantee to concurrent senders.
use lightchain_worker.Base.{
  ℕ, ◌+◌, ◌<◌, ◌≡◌, inl, inr, true, false, Result, ok, arith, length, mem, u64_mod, i64_half,
  add_u64_exact,
}
use lightchain_worker.Chain.Nonce.{NonceManager, next_nonce, release_nonce}
use lightchain_worker.Chain.Nonce.Leases.{
  Distinct, not-mem-Below, length-zero-Below, System, start, Reach, here, next, Inv,
}
use lightchain_worker.Chain.Nonce.Invariant.{
  start-Inv, Step-Inv, next_nonce_granted, one_more, one_less,
}

Reach-Inv {ℓ} : {E : Type ℓ} {s t : System} → Reach E s t → Inv s → Inv t
Reach-Inv here v = v
Reach-Inv (next r st) v = Step-Inv st (Reach-Inv r v)

-- After any history of leases, releases of what is held and resets, from a new manager, with each
-- leased nonce below 2 ^ 64 - 1 and fewer than 2 ^ 63 leases out at once: the leases that are out
-- carry different nonces, and the next nonce handed out is none of them.
pub next_nonce_fresh {ℓ} :
    {E : Type ℓ} (account : ℕ) {s : System}
    → Reach E (start account) s
    → (fetch : ℕ → Result E ℕ) (n : ℕ) (m : NonceManager) → next_nonce fetch s.manager ≡ (ok n, m)
    → Distinct s.held × (mem n s.held ≡ false)
next_nonce_fresh account {s} r fetch n m e =
    let v = Reach-Inv r (start-Inv account) in
    let g = next_nonce_granted fetch s.manager n m e in
    (
      v.distinct,
      elim g.1 [
        | inl idle ↦ not-mem-Below n s.held (length-zero-Below n s.held (λ p. cc (v.live p)))
        | inr eq ↦ not-mem-Below n s.held (rw (← eq) v.below)
      ],
    )

-- A state on the way from `s` to `t` in which the counter is dropped, so that the next lease
-- reads the chain again.
abbrev pub Reseeds {ℓ} : Type ℓ → System → System → Type ℓ
Reseeds E s t = (u : System) × Reach E s u × Reach E u t × (u.manager.initialized ≡ false)

-- A nonce that is leased and handed back unsent before any other lease leaves no trace in the
-- sequence: the manager is as it was, if the counter was seeded and no reset was waiting, in such a
-- history and below its bounds.
pub release_nonce-next_nonce {ℓ} :
    {E : Type ℓ} (account : ℕ) {s : System}
    → Reach E (start account) s
    → (fetch : ℕ → Result E ℕ) (n : ℕ) (m : NonceManager) → next_nonce fetch s.manager ≡ (ok n, m)
    → n + 1 < u64_mod
    → length s.held + 1 < i64_half
    → s.manager.initialized ≡ true
    → s.manager.reset_pending ≡ false
    → release_nonce n false m ≡ s.manager
unfolding release_nonce
release_nonce-next_nonce account {s} r fetch n m e w l i p =
    let v = Reach-Inv r (start-Inv account) in
    ground (
      arith,
      v,
      next_nonce_granted fetch s.manager n m e,
      add_u64_exact n 1 w,
      one_more (length s.held) l,
      one_less (length s.held + 1) l,
    )
