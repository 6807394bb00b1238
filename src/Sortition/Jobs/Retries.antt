-- ===== src/Sortition/Jobs/Retries.antt =====
-- How long a session that is not active holds a pass up.
use lightchain_worker.Base.{ℕ, zero, suc, ◌+◌, ◌<◌, ◌≡◌, ◌↔◌, arith, pos, i64_half}
use lightchain_worker.Chain.Nonce.Invariant.{one_more}
use lightchain_worker.Sortition.Jobs.{
  JobSubmittedEvent, JobWatcher, session_not_active, ServeClient, Watch, next, attempts_of,
  key_failed,
}

module _ {X S W : Type 0} (c : ServeClient X W) (cfg : JobWatcher) (ev : JobSubmittedEvent) where
  -- So many passes have found the event's session not active.
  unfoldable after_passes : ℕ → Watch S W → Watch S W
  after_passes zero w = w
  after_passes (suc n) w = (key_failed c cfg ev session_not_active (after_passes n w)).1

  counted_attempts :
      (n limit : ℕ) (w : Watch S W)
      → cfg.session_retry_limit ≡ pos limit
      → limit < i64_half
      → n < limit
      → attempts_of ev.job_id w.not_active_retries ≡ pos 0
      → attempts_of ev.job_id (after_passes n w).not_active_retries ≡ pos n
  unfolding after_passes key_failed attempts_of
  counted_attempts zero limit w bound small less fresh = fresh
  counted_attempts (suc n) limit w bound small less fresh =
      ground (arith, one_more n, counted_attempts n limit w bound small (omega arith) fresh)

  -- With a limit of so many attempts, none of them made yet, attempt n + 1 in a row lets the pass go on
  -- if and only if it is the last one.
  not_active_is_given_up :
      (n limit : ℕ) (w : Watch S W)
      → cfg.session_retry_limit ≡ pos limit
      → limit < i64_half
      → n < limit
      → attempts_of ev.job_id w.not_active_retries ≡ pos 0
      → ((key_failed c cfg ev session_not_active (after_passes n w)).0 ≡ next) ↔ (n + 1 ≡ limit)
  unfolding key_failed
  not_active_is_given_up n limit w bound small less fresh =
      ground (arith, one_more n, counted_attempts n limit w bound small less fresh)
