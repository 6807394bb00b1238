-- ===== src/Release/Backoff.antt =====
-- internal/release/scheduler.go: `computeBackoff`.
pub mod Bounds
use lightchain_worker.Base.{
  ℕ, ◌-◌, Bool, ◌||◌, ℤ, pos, pos_part, sub_i64, shl_i64, ltb_ℤ, leb_ℤ, if◌then◌else◌,
}

-- `attempt` raised to 1, `attempt - 1` lowered to `maxShift`: between 0 and 30.
unfoldable pub shift_of : ℤ → ℕ
shift_of attempt =
    let a = if ltb_ℤ attempt (pos 1) then pos 1 else attempt in
    let shift = sub_i64 a (pos 1) in pos_part (if ltb_ℤ (pos 30) shift then pos 30 else shift)

unfoldable pub compute_backoff : (base max_backoff attempt : ℤ) → ℤ
compute_backoff base max_backoff attempt =
    let d = shl_i64 base (shift_of attempt) in
    if ltb_ℤ max_backoff d || leb_ℤ d (pos 0) then max_backoff else d
