-- ===== src/Chain/Nonce.antt =====
-- internal/chain/nonce.go: the nonces of one account, handed out to concurrent senders.
-- The mutex makes each method one step. What `PendingNonceAt` answers is an argument.
pub mod Leases
pub mod Invariant
pub mod Safety
use lightchain_worker.Base.{
  ℕ, ◌-◌, ◌<◌, Bool, true, false, not, ◌&&◌, ◌||◌, Result, ok, err, ℤ, pos, add_i64, sub_i64,
  add_u64, ltb, ltb_ℤ, ◌==◌, if◌then◌else◌,
}

pub record NonceManager : Type 0 where
  pub account : ℕ
  pub pending_nonce : ℕ  -- uint64
  pub initialized : Bool
  pub outstanding : ℤ  -- int
  pub reset_pending : Bool

unfoldable pub new_nonce_manager : ℕ → NonceManager
new_nonce_manager account = record {
  account = account;
  pending_nonce = 0;
  initialized = false;
  outstanding = pos 0;
  reset_pending = false;
}

-- The last lines of `NextNonce`, once the counter is seeded.
unfoldable pub allocate {ℓ} : {E : Type ℓ} → NonceManager → Result E ℕ × NonceManager
allocate nm = (
  ok nm.pending_nonce,
  record nm {
    pending_nonce = add_u64 nm.pending_nonce 1;
    outstanding = add_i64 nm.outstanding (pos 1);
  },
)

unfoldable pub next_nonce {ℓ} :
    {E : Type ℓ} → (ℕ → Result E ℕ) → NonceManager → Result E ℕ × NonceManager
unfolding allocate
next_nonce pending_nonce_at nm =
    if nm.initialized then allocate nm else elim (pending_nonce_at nm.account) [
      | ok nonce ↦ allocate (record nm { pending_nonce = nonce; initialized = true })
      | err e ↦ (err e, nm)
    ]

unfoldable pub apply_pending_reset_locked : NonceManager → NonceManager
apply_pending_reset_locked nm =
    if not nm.reset_pending || ltb_ℤ (pos 0) nm.outstanding
    then nm
    else record nm { initialized = false; pending_nonce = 0; reset_pending = false }

-- An unused nonce goes back to the counter if it is the newest one; otherwise it leaves a gap.
unfoldable pub return_unused : ℕ → NonceManager → NonceManager
return_unused nonce nm =
    if nm.initialized && ltb 0 nm.pending_nonce && nonce == nm.pending_nonce - 1
    then record nm { pending_nonce = nm.pending_nonce - 1 }
    else record nm { reset_pending = true }

unfoldable pub release_nonce : ℕ → Bool → NonceManager → NonceManager
unfolding return_unused apply_pending_reset_locked
release_nonce nonce consumed nm =
    let settled =
      if ltb_ℤ (pos 0) nm.outstanding
      then record nm { outstanding = sub_i64 nm.outstanding (pos 1) }
      else nm in
    apply_pending_reset_locked (if consumed then settled else return_unused nonce settled)

unfoldable pub reset_nonce : NonceManager → NonceManager
unfolding apply_pending_reset_locked
reset_nonce nm = apply_pending_reset_locked (record nm { reset_pending = true })
