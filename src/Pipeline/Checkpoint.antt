-- ===== src/Pipeline/Checkpoint.antt =====
-- internal/pipeline/checkpoint.go: what is kept of a job between its attempts.
pub mod Canonical
pub mod Records
pub mod Store
pub mod Tombstones
use lightchain_worker.Base.{ℕ, Bool, true, false, not, ◌&&◌, List, [], ◌∷◌, Option, Result, ◌==◌}
use lightchain_worker.Base.Bytes.{Bytes}

-- The zero hash is 0, and stands for none.
pub record JobCheckpoint : Type 0 where
  pub ciphertext : Bytes
  pub versioned_hash : ℕ
  pub delivered : Bool

abbrev pub empty_checkpoint : JobCheckpoint
empty_checkpoint = record { ciphertext = []; versioned_hash = 0; delivered = false }

abbrev pub has_ciphertext : JobCheckpoint → Bool
has_ciphertext c = elim c.ciphertext [ [] ↦ false | b ∷ bs ↦ true ]

abbrev pub has_versioned_hash : JobCheckpoint → Bool
has_versioned_hash c = not (c.versioned_hash == 0)

-- What the handler asks of the store. A `Get` that finds nothing answers the empty checkpoint.
pub record CheckpointOps (X W : Type 0) : Type 0 where
  pub get : ℕ → W → Result X JobCheckpoint × W
  pub set_ciphertext_if_absent : ℕ → Bytes → W → Result X (Bytes × Bool) × W
  pub set_versioned_hash : ℕ → ℕ → W → Option X × W
  pub mark_delivered : ℕ → W → Option X × W
  pub tombstone : ℕ → W → Option X × W
