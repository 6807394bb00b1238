-- ===== src/Release/Scheduler/Candidates.antt =====
-- Which pending jobs a cycle looks at.
use Prim.Native.Nat.{max}
use lightchain_worker.Base.{
  ℕ, zero, suc, ◌+◌, ◌-◌, ◌≡◌, refl, Bool, not, List, [], ◌∷◌, arith, ℤ, pos_part, ltb_ℤ, length,
  take, keep,
}
use lightchain_worker.Release.Store.File.{PendingJob}
use lightchain_worker.Release.Scheduler.{
  Config, count_ready_for_state_check, collect_from, collect_candidates,
}

-- Out of its backoff.
abbrev pub is_ready : ℤ → PendingJob → Bool
is_ready now p = not (ltb_ℤ now p.backoff_until)

-- The cap of a batch. At least one job is taken, also where the configured cap is not positive.
abbrev pub cap_of : ℤ → ℕ
cap_of max_batch_size = max 1 (pos_part max_batch_size)

collect_from-take :
    (m now : ℤ) (taken left : ℕ) (ps : List PendingJob)
    → cap_of m ≡ taken + suc left
    → collect_from m now taken ps ≡ take (suc left) (keep (is_ready now) ps)
unfolding collect_from
collect_from-take m now taken left [] e = refl
collect_from-take m now taken zero (p ∷ ps) e =
    ground (arith, collect_from-take m now taken zero ps)
collect_from-take m now taken (suc left) (p ∷ ps) e = ground (
  arith,
  collect_from-take m now taken (suc left) ps,
  collect_from-take m now (suc taken) left ps,
)

-- The candidates of a cycle are the first jobs, in the given order, that are out of their backoff,
-- as many as the cap allows; none is left out for its dispute window.
pub collect_candidates-take :
    (cfg : Config) (ps : List PendingJob) (now : ℤ)
    → collect_candidates cfg ps now ≡ take (cap_of cfg.max_batch_size) (keep (is_ready now) ps)
unfolding collect_candidates
collect_candidates-take cfg ps now =
    let left : ℕ = cap_of cfg.max_batch_size - 1 in
    let e : cap_of cfg.max_batch_size ≡ suc left = omega arith in
    rw e (collect_from-take cfg.max_batch_size now 0 left ps (omega arith))

-- The count that the threshold trigger reads is the number of jobs out of their backoff.
pub count_ready_length :
    (ps : List PendingJob) (now : ℤ)
    → count_ready_for_state_check ps now ≡ length (keep (is_ready now) ps)
unfolding count_ready_for_state_check
count_ready_length [] now = refl
count_ready_length (p ∷ ps) now = ground (arith, count_ready_length ps now)
