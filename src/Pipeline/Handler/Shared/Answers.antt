-- ===== src/Pipeline/Handler/Shared/Answers.antt =====
-- What the stages 2 to 6 give beside a store that has the job's ciphertext.
use lightchain_worker.Base.{
  ℕ, ◌≡◌, refl, sym, ap, subst, ◌∙◌, ◌⊎◌, inl, inr, Bool, not, Option, List, Result, ok, err,
  Bool-cases, ◌==◌,
}
use lightchain_worker.Base.Bytes.{Bytes}
use lightchain_worker.Sortition.Jobs.{JobPayload}
use lightchain_worker.Pipeline.Checkpoint.{
  JobCheckpoint, empty_checkpoint, has_ciphertext, CheckpointOps,
}
use lightchain_worker.Pipeline.Deadline.{JobDeadlineClient, DeadlineGuard}
use lightchain_worker.Pipeline.Handler.{JobError, Stage, resume, ◌>>=◌, call, HandlerConfig}
use lightchain_worker.Pipeline.Handler.Keys.{KeyClient}
use lightchain_worker.Pipeline.Handler.Inference.{
  ModelClient, Source, seal, answer, run_inference_pipeline,
}
use lightchain_worker.Pipeline.Handler.Jobs.{JobHandler, persist, run_stages, produce}
use lightchain_worker.Pipeline.Handler.Silence.Answering.{run_inference_pipeline-IsQuiet}
use lightchain_worker.Pipeline.Handler.Beside.{quiet_keys, quiet_deadlines, quiet_model}
use lightchain_worker.Pipeline.Handler.Traces.{then_stage}
use lightchain_worker.Pipeline.Handler.Shared.{beside, OneAnswer, Ended}

-- What a stage gives has the property Q.
record Gives {X W A : Type 0} (Q : A → Type 0) (m : Stage X W A) : Type 0 where
  given : (w : W) → Ended (λ a w'. Q a) (m w)

any_end :
    {X W A B : Type 0} (Q : B → Type 0) (f : A → Stage X W B) (r : Result (JobError X) A × W)
    → ((a : A) → Gives Q (f a))
    → Ended (λ b w'. Q b) (resume f r)
any_end Q f (ok a, w) next = (next a).given w
any_end Q f (err e, w) next = tt

-- Whatever the first of two stages gives.
Gives-after :
    {X W A B : Type 0} {Q : B → Type 0} (m : Stage X W A) {f : A → Stage X W B}
    → ((a : A) → Gives Q (f a))
    → Gives Q (m >>= f)
unfolding ◌>>=◌
Gives-after {X} {W} {A} {B} {Q} m {f} next = record { given = λ w. any_end Q f (m w) next }

kept_end :
    {X W A B : Type 0} (P : A → Type 0) (Q : B → Type 0) (f : A → Stage X W B)
    (r : Result (JobError X) A × W)
    → Ended (λ a w'. P a) r
    → ((a : A) → P a → Gives Q (f a))
    → Ended (λ b w'. Q b) (resume f r)
kept_end P Q f (ok a, w) now next = (next a now).given w
kept_end P Q f (err e, w) now next = tt

Gives-then :
    {X W A B : Type 0} {P : A → Type 0} {Q : B → Type 0} {m : Stage X W A} {f : A → Stage X W B}
    → Gives P m
    → ((a : A) → P a → Gives Q (f a))
    → Gives Q (m >>= f)
unfolding ◌>>=◌
Gives-then {X} {W} {A} {B} {P} {Q} {m} {f} now next = record {
  given = λ w. kept_end P Q f (m w) (now.given w) next;
}

module _ {X V W : Type 0} (k : KeyClient X W) (d : JobDeadlineClient X W) (c : ModelClient X V W)
    (Fits : Bytes → Type 0)
    (sealed_fits : (key text : Bytes) (w : W) (x : Bytes)
      → (k.encrypt key text w).0 ≡ ok x
      → Fits x) where
  call_end :
      (key text : Bytes) (r : Result X Bytes × W)
      → ((x : Bytes) → r.0 ≡ ok x → Fits x)
      → Ended (λ x w'. Fits x) (call (λ w. r) r.1)
  call_end key text (ok x, w) fits = fits x refl
  call_end key text (err e, w) fits = tt

  seal-Gives :
      (cfg : HandlerConfig) (p : JobPayload) (key : Bytes) (v : V) (sources : List Source)
      (response : Bytes)
      → Gives (λ made. Fits made.0) (seal k d c cfg p key v sources response)
  unfolding seal
  seal-Gives cfg p key v sources response = Gives-after _ λ text.
      Gives-then
        (record { given = λ w. call_end key text (k.encrypt key text w) (sealed_fits key text w) })
        λ x fits. Gives-after _ λ u. Gives-after _ λ u'. record { given = λ w. fits }

  run_inference_pipeline-Gives :
      (cfg : HandlerConfig) (guard : Option DeadlineGuard) (p : JobPayload) (deltas : Bool)
      (blob : Bytes)
      → Gives (λ made. Fits made.0) (run_inference_pipeline k d c cfg guard p deltas blob)
  unfolding run_inference_pipeline answer
  run_inference_pipeline-Gives cfg guard p deltas blob = Gives-after _ λ opened.
      Gives-after _ λ unwrapped. Gives-after _ λ augmented. Gives-after _ λ model.
        Gives-after _ λ envelope. Gives-after _ λ u. Gives-after _ λ moment. Gives-after _ λ heard.
          Gives-after _ λ history.
            Gives-after _ λ response. seal-Gives cfg p opened.0 heard augmented.1 response

quiet_end :
    {X W R A : Type 0} (P : R → Type 0) (Q : A → Type 0) (l : R)
    (r : Result (JobError X) A × (W × R))
    → r.1.1 ≡ l
    → P l
    → Ended (λ a w. Q a) r
    → Ended (λ a s. P s.1 × Q a) r
quiet_end P Q l (ok a, s) same known given = (subst P (sym same) known, given)
quiet_end P Q l (err e, s) same known given = tt

said : {X W A : Type 0} (r : Result (JobError X) A × W) → Ended (λ a w. Unit {0}) r
said (ok a, w) = tt
said (err e, w) = tt

module _ {X V W R : Type 0} (h : JobHandler X V W) (ops : CheckpointOps X R) (cfg : HandlerConfig)
    (p : JobPayload) (Fits : Bytes → Type 0) (c : Bytes) (P : R → Type 0)
    (one : OneAnswer ops Fits p.job_id c P)
    (sealed_fits : (key text : Bytes) (w : W) (x : Bytes)
      → (h.keys.encrypt key text w).0 ≡ ok x
      → Fits x) where
  abbrev pub Answers : Bytes × ℕ → W × R → Type 0
  Answers made s = made.0 ≡ c

  persist-Answers :
      (x : Bytes) (n : ℕ) (s : W × R)
      → P s.1
      → Fits x
      → Ended Answers (persist (beside h ops) cfg p.job_id (x, n) s)
  unfolding persist beside
  persist-Answers x n s known fits = rw (one.offer_answers s.1 x known fits, persist) refl

  run_stages-Answers :
      (guard : Option DeadlineGuard) (k : JobCheckpoint) (s : W × R)
      → P s.1
      → Ended Answers (run_stages (beside h ops) cfg guard p k s)
  unfolding run_stages beside
  run_stages-Answers guard k s known =
      then_stage (λ blob s1. P s1.1 × Unit {0}) Answers (λ e w. Unit {0}) _ _ s
        (quiet_end P (λ blob. Unit {0}) s.1 _ refl known (said _))
        λ blob s1 known1.
          then_stage (λ made s2. P s2.1 × Fits made.0) Answers (λ e w. Unit {0}) _ _ s1
            (quiet_end P (λ made. Fits made.0) s1.1 _
              ((run_inference_pipeline-IsQuiet h.keys h.deadlines h.model cfg guard p
                  (not k.delivered) blob).kept
                s1)
              known1.0
              ((run_inference_pipeline-Gives (quiet_keys {L = R} h.keys)
                  (quiet_deadlines h.deadlines) (quiet_model h.model) Fits
                  (λ key text w x e. sealed_fits key text w.0 x e) cfg guard p (not k.delivered)
                  blob).given
                s1))
            λ made s2 known2. persist-Answers made.0 made.1 s2 known2.0 known2.1

  pub produce-Answers :
      (guard : Option DeadlineGuard) (k : JobCheckpoint) (s : W × R)
      → P s.1
      → (k.ciphertext ≡ c) ⊎ (k ≡ empty_checkpoint)
      → Ended Answers (produce (beside h ops) cfg guard p k s)
  unfolding produce
  produce-Answers guard k s known read = elim (Bool-cases (has_ciphertext k)) [
    | inl e ↦
        rw (e, produce)
          (elim read [
            | inl same ↦ same
            | inr empty ↦ absurd (cc (sym (ap (λ (j : JobCheckpoint). has_ciphertext j) empty) ∙ e))
          ])
    | inr e ↦ elim (Bool-cases (p.prompt_blob_hash == 0)) [
      | inl f ↦ rw (e, f, produce) tt
      | inr f ↦ rw (e, f, produce) (run_stages-Answers guard k s known)
    ]
  ]
