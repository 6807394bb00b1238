-- ===== src/Base/Trails.antt =====
-- The way of a cursor, block by block written.
use lightchain_worker.Base.{ℕ, List, ◌∷◌}

-- The cursor's way from `start` over the blocks that were written, the last one first.
pub data Trail (P : ℕ → ℕ → Type 0) (start : ℕ) (before : List ℕ) : ℕ → List ℕ → Type 0 where
  here : Trail P start before start before
  moved :
      {a b : ℕ} {written : List ℕ}
      → Trail P start before a written
      → P a b
      → Trail P start before b (b ∷ written)

pub Trail-map :
    {P Q : ℕ → ℕ → Type 0} {start : ℕ} {before : List ℕ} {b : ℕ} {written : List ℕ}
    → ((a b : ℕ) → P a b → Q a b)
    → Trail P start before b written
    → Trail Q start before b written
Trail-map f here = here
Trail-map f (moved t p) = moved (Trail-map f t) (f _ _ p)
