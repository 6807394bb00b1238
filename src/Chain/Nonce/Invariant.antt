-- ===== src/Chain/Nonce/Invariant.antt =====
-- Every lease, release and reset of nonce.go keeps the invariant of the leases.
use lightchain_worker.Base.{
  ℕ, ◌+◌, ◌-◌, ◌<◌, ◌≡◌, ◌⊎◌, inl, inr, Bool, true, false, Result, ok, err, ◌∷◌, arith, pos, length,
  mem, u64_mod, i64_half, add_i64, sub_i64, add_u64, add_u64_exact, wrap, ◌+ℤ◌, ◌-ℤ◌,
}
use lightchain_worker.Chain.Nonce.{
  NonceManager, new_nonce_manager, next_nonce, release_nonce, reset_nonce,
}
use lightchain_worker.Chain.Nonce.Leases.{
  remove_one, Below, length-remove_one, remove_one-Distinct, remove_one-Below, Below-mono,
  Below-pred, not-mem-Below, not-mem-remove_one, length-zero-Below, System, start, Step, lease,
  refused, release, reset, Inv,
}

pub start-Inv : (account : ℕ) → Inv (start account)
unfolding start new_nonce_manager
start-Inv account = ground arith

pub one_more : (k : ℕ) → k + 1 < i64_half → add_i64 (pos k) (pos 1) ≡ pos (k + 1)
unfolding add_i64 wrap ◌+ℤ◌
one_more k h = ground arith

pub one_less : (k : ℕ) → k < i64_half → 0 < k → sub_i64 (pos k) (pos 1) ≡ pos (k - 1)
unfolding sub_i64 wrap ◌-ℤ◌
one_less k h p = ground arith

-- What a lease that is granted does to the manager.
pub next_nonce_granted {ℓ} :
    {E : Type ℓ} (fetch : ℕ → Result E ℕ) (nm : NonceManager) (n : ℕ) (m : NonceManager)
    → next_nonce fetch nm ≡ (ok n, m)
    → (m ≡ record nm {
      pending_nonce = add_u64 n 1;
      initialized = true;
      outstanding = add_i64 nm.outstanding (pos 1);
    })
      × ((nm.initialized ≡ false) ⊎ (nm.pending_nonce ≡ n))
unfolding next_nonce
next_nonce_granted fetch nm n m e = ground arith

pub next_nonce_refused {ℓ} :
    {E : Type ℓ} (fetch : ℕ → Result E ℕ) (nm : NonceManager) (x : E) (m : NonceManager)
    → next_nonce fetch nm ≡ (err x, m)
    → m ≡ nm
unfolding next_nonce
next_nonce_refused fetch nm x m e = ground arith

lease-Inv {ℓ} :
    {E : Type ℓ} (s : System) (fetch : ℕ → Result E ℕ) (n : ℕ) (m : NonceManager)
    → next_nonce fetch s.manager ≡ (ok n, m)
    → n + 1 < u64_mod
    → length s.held + 1 < i64_half
    → Inv s
    → Inv (record { manager = m; held = n ∷ s.held })
lease-Inv s fetch n m e w l v =
    let g = next_nonce_granted fetch s.manager n m e in
    let b : Below n s.held = elim g.1 [
      | inl idle ↦ length-zero-Below n s.held (λ p. cc (v.live p))
      | inr eq ↦ rw (← eq) v.below
    ] in
    ground (
      arith,
      g,
      b,
      Below-mono n (n + 1) s.held,
      not-mem-Below n s.held b,
      add_u64_exact n 1 w,
      one_more (length s.held) l,
    )

pub release-Inv :
    (s : System) (n : ℕ) (consumed : Bool)
    → mem n s.held ≡ true
    → Inv s
    → Inv (record { manager = release_nonce n consumed s.manager; held = remove_one n s.held })
unfolding release_nonce
release-Inv s n consumed h v = ground (
  arith,
  length-remove_one n s.held h,
  one_less (length s.held) v.few,
  remove_one-Distinct n s.held v.distinct,
  remove_one-Below s.manager.pending_nonce n s.held v.below,
  not-mem-remove_one n s.held v.distinct,
  Below-pred s.manager.pending_nonce (remove_one n s.held),
  length-zero-Below 0 (remove_one n s.held),
)

reset-Inv : (s : System) → Inv s → Inv (record s { manager = reset_nonce s.manager })
unfolding reset_nonce
reset-Inv s v = ground (arith, length-zero-Below 0 s.held)

pub Step-Inv {ℓ} : {E : Type ℓ} {s t : System} → Step E s t → Inv s → Inv t
Step-Inv (lease s fetch n m e w l) v = lease-Inv s fetch n m e w l v
Step-Inv (refused s fetch x m e) v = rw (next_nonce_refused fetch s.manager x m e) v
Step-Inv (release s n consumed h) v = release-Inv s n consumed h v
Step-Inv (reset s) v = reset-Inv s v
