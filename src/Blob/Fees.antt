-- ===== src/Blob/Fees.antt =====
-- The fees of the transactions that replace a stuck one.
use native.Mathlib.Nat.{two-pow-succ, pow-le-pow_right, mul-le-mul_right, mul-le-mul_left}
use lightchain_worker.Base.{ℕ, suc, ◌*◌, ◌^◌, ◌≤◌, arith, pos, ◌≤ℤ◌}
use lightchain_worker.Blob.{
  default_blob_fee_cap_wei, BlobTx, BlobTxPayload, BlobTxSubmitter, replacement_tx,
  max_allowed_bump_number,
}

-- Geth replaces a blob transaction if all three fees are at least doubled.
abbrev pub Doubles : {B : Type 0} → BlobTx B → BlobTx B → Type 0
Doubles a b =
    (2 * a.gas_tip_cap ≤ b.gas_tip_cap)
    × (2 * a.gas_fee_cap ≤ b.gas_fee_cap)
    × (2 * a.blob_fee_cap ≤ b.blob_fee_cap)

double_fee : (a b k : ℕ) → a ≤ b → 2 * (a * 2 ^ k) ≤ b * 2 ^ suc k
double_fee a b k h = rw (two-pow-succ k) (omega (arith, mul-le-mul_right (2 ^ k) h))

capped_fee : (a k : ℕ) → k ≤ 8 → a * 2 ^ k ≤ 256 * a
capped_fee a k h =
    let power : 2 ^ k ≤ 256 = pow-le-pow_right (omega arith) h in
    omega (arith, mul-le-mul_left a power)

-- A replacement under the ceiling of the bumps doubles every fee of the one before it, if the
-- suggested tip has not dropped since, and its fees are at most 256 times the baseline.
pub replacement_fees :
    {B : Type 0} (sub : BlobTxSubmitter) (p q : BlobTxPayload B) (nonce tip tip' k : ℕ)
    → tip ≤ tip'
    → pos (suc k) ≤ℤ max_allowed_bump_number
    → let b = replacement_tx sub q nonce tip' (pos (suc k)) in
      Doubles (replacement_tx sub p nonce tip (pos k)) b
      × (b.gas_tip_cap ≤ 256 * tip')
      × (b.gas_fee_cap ≤ 256 * sub.max_gas_price)
      × (b.blob_fee_cap ≤ 256 * default_blob_fee_cap_wei)
unfolding replacement_tx
replacement_fees sub p q nonce tip tip' k h few =
    let few' : suc k ≤ 8 = omega arith in
    let price = sub.max_gas_price in
    let wei = default_blob_fee_cap_wei in
    (
      (
        double_fee tip tip' k h,
        double_fee price price k (omega arith),
        double_fee wei wei k (omega arith),
      ),
      capped_fee tip' (suc k) few',
      capped_fee price (suc k) few',
      capped_fee wei (suc k) few',
    )
