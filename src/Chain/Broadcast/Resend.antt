-- ===== src/Chain/Broadcast/Resend.antt =====
-- What a resend after a stale nonce is sent with.
use lightchain_worker.Base.{ℕ, suc, ◌<◌, ◌≡◌, ap, true, arith, Result, ok, i64_half}
use lightchain_worker.Chain.Nonce.{NonceManager, next_nonce, reset_nonce}
use lightchain_worker.Chain.Nonce.Invariant.{next_nonce_granted}
use lightchain_worker.Chain.Broadcast.{
  Sender, TransactOpts, Node, resend, resend_leased, resend_with_fresh_nonce,
}
use lightchain_worker.Chain.Broadcast.Leases.{Out, next_nonce-Out}

-- A manager whose counter is seeded and that has leases out does not ask after a reset.
reset_is_put_off {ℓ} :
    {E : Type ℓ} (f g : ℕ → Result E ℕ) (nm : NonceManager) (k : ℕ)
    → nm.initialized ≡ true
    → Out (suc k) nm
    → next_nonce f (reset_nonce nm) ≡ next_nonce g (reset_nonce nm)
unfolding next_nonce reset_nonce
reset_is_put_off f g nm k h out = ground arith

module _ {X W : Type 0} (node : Node X W) where
  -- While a sender has its nonce on lease, what the chain says of the account's nonce does not
  -- matter for a resend: with any other answers of the chain, its result is the same.
  pub resend_asks_nothing :
      (answers : W → ℕ → Result X ℕ) (opts : TransactOpts) (s : Sender W) (stale k : ℕ)
      → suc k < i64_half
      → Out k s.nonces
      → (next_nonce (node.pending_nonce_at s.node) s.nonces).0 ≡ ok stale
      → let t = record s { nonces = (next_nonce (node.pending_nonce_at s.node) s.nonces).1 } in
        resend_with_fresh_nonce (record node { pending_nonce_at = answers }) opts stale t
        ≡ resend_with_fresh_nonce node opts stale t
  unfolding resend_with_fresh_nonce resend_leased resend
  resend_asks_nothing answers opts s stale k few out granted =
      let fetch = node.pending_nonce_at s.node in
      let m = (next_nonce fetch s.nonces).1 in
      let live : m.initialized ≡ true =
        ap (λ (x : NonceManager). x.initialized)
          (next_nonce_granted fetch s.nonces stale m (ap (λ r. (r, m)) granted)).0 in
      ap (resend_leased node opts stale (record s { nonces = m })) (
        reset_is_put_off (answers s.node) fetch m k live
          (next_nonce-Out fetch s.nonces stale k few granted out))
