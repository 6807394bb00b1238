-- ===== src/Pipeline/Handler/Keys.antt =====
-- Stages 3 and 4 of internal/pipeline/handler.go: the session's key, from the store or from the
-- chain, and the prompt, with one refresh of the key where it does not decrypt. The sharing of one
-- fetch among concurrent jobs is left out: this is the caller that makes the fetch.
use lightchain_worker.Base.{ℕ, Option, none, some, Result, ok, err}
use lightchain_worker.Base.Bytes.{Bytes}
use lightchain_worker.Pipeline.Handler.{call_failed, recheck_failed, retryable, Stage, ◌>>=◌, call}

-- The key store (whose failed writes are only logged), the chain and the library's cryptography.
pub record KeyClient (X W : Type 0) : Type 0 where
  pub get_key : ℕ → W → Option Bytes × W
  pub store_key : ℕ → Bytes → W → W
  pub get_session_enc_worker_key : ℕ → W → Result X Bytes × W
  pub decrypt_session_key : Bytes → Result X Bytes
  pub decrypt : (key sealed : Bytes) → Result X Bytes
  pub encrypt : (key text : Bytes) → W → Result X Bytes × W

module _ {X W : Type 0} (c : KeyClient X W) where
  unfoldable pub keep_key : ℕ → Bytes → W → Result X Bytes × W
  keep_key session encrypted w = elim (c.decrypt_session_key encrypted) [
    | err e ↦ (err e, w)
    | ok key ↦ (ok key, c.store_key session key w)
  ]

  unfoldable pub derive_and_store_session_key : ℕ → W → Result X Bytes × W
  derive_and_store_session_key session w =
      let (answer, w') = c.get_session_enc_worker_key session w in
      elim answer [ err e ↦ (err e, w') | ok encrypted ↦ keep_key session encrypted w' ]

  unfoldable pub fetch_key : ℕ → W → Result X Bytes × W
  fetch_key session w =
      let (cached, w') = c.get_key session w in
      elim cached [ some key ↦ (ok key, w') | none ↦ derive_and_store_session_key session w' ]

  -- The store is asked once more inside the flight.
  unfoldable pub get_or_derive_session_key : ℕ → W → Result X Bytes × W
  get_or_derive_session_key session w =
      let (cached, w') = c.get_key session w in
      elim cached [ some key ↦ (ok key, w') | none ↦ fetch_key session w' ]

  -- The key that decrypts the prompt, and the prompt.
  unfoldable pub decrypt_refreshed : ℕ → Bytes → X → Stage X W (Bytes × Bytes)
  decrypt_refreshed session sealed first w =
      let (answer, w') = derive_and_store_session_key session w in
      (
        elim answer [
          | err e ↦ err (retryable (recheck_failed first e))
          | ok key ↦ elim (c.decrypt key sealed) [
            | err e ↦ err (retryable (call_failed e))
            | ok prompt ↦ ok (key, prompt)
          ]
        ],
        w',
      )

  unfoldable pub decrypt_with : ℕ → Bytes → Bytes → Stage X W (Bytes × Bytes)
  decrypt_with session sealed key w = elim (c.decrypt key sealed) [
    | ok prompt ↦ (ok (key, prompt), w)
    | err e ↦ decrypt_refreshed session sealed e w
  ]

  unfoldable pub decrypt_prompt : ℕ → Bytes → Stage X W (Bytes × Bytes)
  decrypt_prompt session sealed = do
    key ← call (get_or_derive_session_key session)
    decrypt_with session sealed key
