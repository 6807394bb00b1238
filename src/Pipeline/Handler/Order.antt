-- ===== src/Pipeline/Handler/Order.antt =====
-- In which order an attempt's events stand, and what each of them takes.
use lightchain_worker.Base.{
  In, ℕ, ◌≡◌, sym, subst, ◌⊎◌, inl, inr, true, false, Option, none, some, [], ◌∷◌, err,
}
use lightchain_worker.Base.Bytes.{Bytes}
use lightchain_worker.Sortition.Jobs.{JobPayload}
use lightchain_worker.Pipeline.Checkpoint.{JobCheckpoint, empty_checkpoint, has_versioned_hash}
use lightchain_worker.Pipeline.Handler.{HandlerConfig}
use lightchain_worker.Pipeline.Handler.Jobs.{JobHandler}
use lightchain_worker.Pipeline.Handler.Traces.{
  Event, acked, broadcast, confirmed, restored, published, errored, anchored, completing,
  found_completed, Log,
}

-- The chain has the job's acknowledgement.
abbrev pub Acked : ℕ → Log → Type 0
Acked id log = In (acked id) log ⊎ ((tx : ℕ) × In (broadcast id tx) log × In (confirmed tx) log)

pub Acked-later : (id : ℕ) (e : Event) (log : Log) → Acked id log → Acked id (e ∷ log)
Acked-later id e log (inl now) = inl (inr now)
Acked-later id e log (inr (tx, sent, mined)) = inr (tx, inr sent, inr mined)

-- What is known of the transaction that is to be joined.
abbrev pub Joinable : ℕ → Option ℕ → Log → Type 0
Joinable id none log = Acked id log
Joinable id (some tx) log = In (broadcast id tx) log

pub Joinable-later :
    (id : ℕ) (tx : Option ℕ) (e : Event) (log : Log) → Joinable id tx log → Joinable id tx (e ∷ log)
Joinable-later id none e log known = Acked-later id e log known
Joinable-later id (some tx) e log known = inr known

-- The checkpoint that an attempt works from.
abbrev pub Known : ℕ → JobCheckpoint → Log → Type 0
Known id k log = (k ≡ empty_checkpoint) ⊎ In (restored id k) log

pub Known-later :
    (id : ℕ) (k : JobCheckpoint) (e : Event) (log : Log) → Known id k log → Known id k (e ∷ log)
Known-later id k e log (inl empty) = inl empty
Known-later id k e log (inr read) = inr (inr read)

module _ {X V W : Type 0} (h : JobHandler X V W) (cfg : HandlerConfig) (p : JobPayload) where
  -- The answer cannot be published.
  abbrev pub Mute : Bytes → Type 0
  Mute c = (cfg.has_publisher ≡ false) ⊎ ((e : X) × (h.publisher.sign p c ≡ err e))

  -- The ciphertext was published, or the checkpoint read says that an answer was delivered, or it
  -- cannot be published.
  abbrev pub Handed : Bytes → Log → Type 0
  Handed c log =
      In (published c) log
      ⊎ ((k : JobCheckpoint) × In (restored p.job_id k) log × (k.delivered ≡ true))
      ⊎ Mute c

  -- The blob of the ciphertext was taken under this hash, or the checkpoint read has the hash, of
  -- whichever blob.
  abbrev pub Anchored : Bytes → ℕ → Log → Type 0
  Anchored c hash log =
      In (anchored c (hash ∷ [])) log
      ⊎ ((k : JobCheckpoint) × In (restored p.job_id k) log
          × (has_versioned_hash k ≡ true)
          × (k.versioned_hash ≡ hash))

  abbrev pub Justified : Bytes → Event → Log → Type 0
  Justified c (published x) log = (x ≡ c) × Acked p.job_id log
  Justified c (anchored x hashes) log = (x ≡ c) × Acked p.job_id log × Handed c log
  Justified c (completing id hash digest taken) log =
      (id ≡ p.job_id)
      × (digest ≡ h.settlement.keccak c)
      × Acked p.job_id log
      × Handed c log
      × Anchored c hash log
  Justified c errored log = ⊥
  Justified c (acked id) log = Unit
  Justified c (broadcast id tx) log = Unit
  Justified c (confirmed tx) log = Unit
  Justified c (restored id k) log = Unit
  Justified c (found_completed id) log = Unit

  -- Every event of the log was due; the frames, the blobs and the digests are of one ciphertext.
  abbrev pub Orderly : Bytes → Log → Type 0
  Orderly c [] = Unit
  Orderly c (e ∷ log) = Justified c e log × Orderly c log

  -- Nothing is out yet.
  abbrev pub Before : Log → Type 0
  Before log = (c : Bytes) → Orderly c log

  pub Handed-later : (c : Bytes) (e : Event) (log : Log) → Handed c log → Handed c (e ∷ log)
  Handed-later c e log (inl out) = inl (inr out)
  Handed-later c e log (inr (inl (k, read, done))) = inr (inl (k, inr read, done))
  Handed-later c e log (inr (inr mute)) = inr (inr mute)

  pub Anchored-later :
      (c : Bytes) (hash : ℕ) (e : Event) (log : Log)
      → Anchored c hash log
      → Anchored c hash (e ∷ log)
  Anchored-later c hash e log (inl out) = inl (inr out)
  Anchored-later c hash e log (inr (k, read, has, same)) = inr (k, inr read, has, same)

  -- No answer is out.
  abbrev pub Unpublished : Log → Type 0
  Unpublished log = (x : Bytes) → In (published x) log → ⊥

  one_answer : (c x : Bytes) (log : Log) → Orderly c log → In (published x) log → x ≡ c
  one_answer c x [] due out = absurd out
  one_answer c x (e ∷ log) (due, rest) (inr out) = one_answer c x log rest out
  one_answer c x (e ∷ log) (due, rest) (inl now) = (subst (λ d. Justified c d log) (sym now) due).0

  pub Before-Unpublished : (log : Log) → Before log → Unpublished log
  Before-Unpublished log before x out =
      cc (one_answer [] x log (before []) out, one_answer (0 ∷ []) x log (before (0 ∷ [])) out)

  -- No error frame is out.
  pub no_error : (c : Bytes) (log : Log) → Orderly c log → In errored log → ⊥
  no_error c [] due out = out
  no_error c (e ∷ log) (due, rest) (inr out) = no_error c log rest out
  no_error c (e ∷ log) (due, rest) (inl now) = subst (λ d. Justified c d log) (sym now) due
