-- ===== src/Pipeline/Handler/Beside.antt =====
-- Operations on a world that leave what stands beside it as it is.
use lightchain_worker.Base.{◌≡◌, ◌∙◌, none, some, Result, ok, err}
use lightchain_worker.Pipeline.Deadline.{JobDeadlineClient}
use lightchain_worker.Pipeline.Handler.{JobError, Stage, resume, ◌>>=◌}
use lightchain_worker.Pipeline.Handler.Keys.{KeyClient}
use lightchain_worker.Pipeline.Handler.Inference.{ModelClient}

abbrev pub quiet : {A W L : Type 0} → (W → A × W) → W × L → A × (W × L)
quiet m s = ((m s.0).0, ((m s.0).1, s.1))

abbrev pub quiet_deadlines : {X W L : Type 0} → JobDeadlineClient X W → JobDeadlineClient X (W × L)
quiet_deadlines c = record { get_job_deadline = quiet c.get_job_deadline; now = λ s. c.now s.0 }

abbrev pub quiet_keys : {X W L : Type 0} → KeyClient X W → KeyClient X (W × L)
quiet_keys c = record {
  get_key = λ id. quiet (c.get_key id);
  store_key = λ id key s. (c.store_key id key s.0, s.1);
  get_session_enc_worker_key = λ id. quiet (c.get_session_enc_worker_key id);
  decrypt_session_key = c.decrypt_session_key;
  decrypt = c.decrypt;
  encrypt = λ key text. quiet (c.encrypt key text);
}

abbrev pub quiet_model : {X V W L : Type 0} → ModelClient X V W → ModelClient X V (W × L)
quiet_model c = record {
  unwrap_search = c.unwrap_search;
  search = elim c.search [ none ↦ none | some search ↦ some (λ text max. quiet (search text max)) ];
  build_augmented_prompt = c.build_augmented_prompt;
  decode = c.decode;
  self_contained = c.self_contained;
  transcribe = λ v. quiet (c.transcribe v);
  conversation_history = λ p key. quiet (c.conversation_history p key);
  infer = λ moment model v history deltas. quiet (c.infer moment model v history deltas);
  frames = λ s. c.frames s.0;
  encode_response = c.encode_response;
  sources_metadata = c.sources_metadata;
  publish_metadata = λ p sealed s. (c.publish_metadata p sealed s.0, s.1);
  deliver_audio = λ v text s. (c.deliver_audio v text s.0, s.1);
}

-- An operation that nobody sees.
abbrev pub Quiet : {W L A : Type 0} → (W × L → A × (W × L)) → Type 0
Quiet {W} {L} m = (s : W × L) → (m s).1.1 ≡ s.1

unchanged_then :
    {X W L A B : Type 0} (f : A → Stage X (W × L) B) (l : L) (r : Result (JobError X) A × (W × L))
    → r.1.1 ≡ l
    → ((a : A) → Quiet (f a))
    → (resume f r).1.1 ≡ l
unchanged_then f l (ok a, s) same next = next a s ∙ same
unchanged_then f l (err e, s) same next = same

-- The same as a record, which `>>=` is read off.
pub record IsQuiet {W L A : Type 0} (m : W × L → A × (W × L)) : Type 0 where
  pub kept : Quiet m

pub quietly : {W L A : Type 0} {m : W × L → A × (W × L)} → Quiet m → IsQuiet m
quietly same = record { kept = same }

pub IsQuiet-then :
    {X W L A B : Type 0} {m : Stage X (W × L) A} {f : A → Stage X (W × L) B}
    → IsQuiet m
    → ((a : A) → IsQuiet (f a))
    → IsQuiet (m >>= f)
unfolding ◌>>=◌
IsQuiet-then {X} {W} {L} {A} {B} {m} {f} now next = record {
  kept = λ s. unchanged_then f s.1 (m s) (now.kept s) (λ a. (next a).kept);
}
