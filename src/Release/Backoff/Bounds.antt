-- ===== src/Release/Backoff/Bounds.antt =====
-- How long a failed job waits.
use Prim.Native.Nat.{min}
use native.Mathlib.Nat.{pow-le-pow_right, one-le-pow, mul-le-mul_left, mul-pos}
use lightchain_worker.Base.{
  ℕ, suc, ◌+◌, ◌-◌, ◌*◌, ◌^◌, ◌≤◌, ◌<◌, ◌≡◌, arith, ℤ, pos, ◌≤ℤ◌, ◌<ℤ◌, ◌-ℤ◌, ◌*ℤ◌, sub_i64,
  shl_i64, wrap, i64_half,
}
use lightchain_worker.Release.Backoff.{shift_of, compute_backoff}

-- Whatever the base and the attempt, overflow included: a backoff is at most the maximum, and
-- positive if the maximum is.
pub compute_backoff_bounds :
    (base max_backoff attempt : ℤ)
    → pos 0 <ℤ max_backoff
    → (pos 0 <ℤ compute_backoff base max_backoff attempt)
      × (compute_backoff base max_backoff attempt ≤ℤ max_backoff)
unfolding compute_backoff
compute_backoff_bounds base max_backoff attempt h = ground arith

shift_of_attempt : (k : ℕ) → k < i64_half - 1 → shift_of (pos (suc k)) ≡ min k 30
unfolding shift_of sub_i64 wrap ◌-ℤ◌
shift_of_attempt k h = ground arith

shl_i64_exact : (b k : ℕ) → b * 2 ^ k < i64_half → shl_i64 (pos b) k ≡ pos (b * 2 ^ k)
unfolding shl_i64 wrap ◌*ℤ◌
shl_i64_exact b k h = ground arith

-- Where the largest shift of the base fits an int64, the k-th failure doubles the base k - 1
-- times, up to the maximum.
pub compute_backoff_doubles :
    (base limit k : ℕ)
    → 0 < base
    → base * 2 ^ 30 < i64_half
    → k < i64_half - 1
    → compute_backoff (pos base) (pos limit) (pos (suc k)) ≡ pos (min (base * 2 ^ min k 30) limit)
unfolding compute_backoff
compute_backoff_doubles base limit k p fits small =
    let j : ℕ = min k 30 in
    let below : base * 2 ^ j ≤ base * 2 ^ 30 =
      mul-le-mul_left base
        (pow-le-pow_right {n = 2} (omega arith) {i = j} {j = 30} (omega arith)) in
    let above : 0 < base * 2 ^ j = mul-pos p (one-le-pow j 2 (omega arith)) in
    ground (arith, shift_of_attempt k small, shl_i64_exact base j (omega arith), below, above)

-- Beyond that the overflow check (`d <= 0`) is not complete: at the base 2 ^ 34 + m nanoseconds
-- the shift by 30 wraps around to m * 2 ^ 30, which passes both tests. From the 31st failure on
-- the job then waits m * 2 ^ 30 nanoseconds, less than the base, and not the maximum.
pub compute_backoff_wraps :
    (m limit k : ℕ)
    → 0 < m
    → m < 16
    → m * 2 ^ 30 ≤ limit
    → 30 ≤ k
    → k < i64_half - 1
    → (compute_backoff (pos (2 ^ 34 + m)) (pos limit) (pos (suc k)) ≡ pos (m * 2 ^ 30))
      × (m * 2 ^ 30 < 2 ^ 34 + m)
unfolding compute_backoff shl_i64 wrap ◌*ℤ◌
compute_backoff_wraps m limit k p lt fits many small =
    let s : shift_of (pos (suc k)) ≡ 30 = omega (arith, shift_of_attempt k small) in
    rw s (ground arith, omega arith)
