-- ===== src/Chain/StuckNonce.antt =====
-- internal/chain/stuck_nonce.go: rejections counted for each nonce, and the budget of replacement
-- transactions. The map is an association list; a time is an integer of nanoseconds, and the
-- clock's readings are arguments. The mutex makes each method one step.
pub mod Counts
use lightchain_worker.Base.{
  ℕ, Bool, true, false, not, ◌&&◌, ◌||◌, Option, none, some, List, [], ◌∷◌, ℤ, pos, ◌-ℤ◌, add_i64,
  ltb_ℤ, ◌==◌, if◌then◌else◌, length, keep,
}

pub record NonceState : Type 0 where
  pub hits : ℤ  -- int
  pub last_seen : ℤ

abbrev pub Entries : Type 0
Entries = List (ℕ × NonceState)

pub record StuckNonceTracker : Type 0 where
  pub entries : Entries
  pub bump_attempts : ℤ  -- int
  pub last_bump_nonce : ℕ
  pub has_last_bump_nonce : Bool
  pub entry_ttl : ℤ

-- Ten minutes.
abbrev pub default_entry_ttl : ℤ
default_entry_ttl = pos 600000000000

unfoldable pub new_stuck_nonce_tracker : StuckNonceTracker
new_stuck_nonce_tracker = record {
  entries = [];
  bump_attempts = pos 0;
  last_bump_nonce = 0;
  has_last_bump_nonce = false;
  entry_ttl = default_entry_ttl;
}

-- `t.entries[n]`
unfoldable pub find : ℕ → Entries → Option NonceState
find n [] = none
find n ((m, s) ∷ es) = if m == n then some s else find n es

-- `t.entries[n] = s`
unfoldable pub put : ℕ → NonceState → Entries → Entries
put n s [] = (n, s) ∷ []
put n s ((m, r) ∷ es) = if m == n then (n, s) ∷ es else (m, r) ∷ put n s es

unfoldable pub reap_stale_locked : ℤ → StuckNonceTracker → StuckNonceTracker
reap_stale_locked now t =
    let cutoff = now -ℤ t.entry_ttl in
    record t { entries = keep (λ (e : ℕ × NonceState). not (ltb_ℤ e.1.last_seen cutoff)) t.entries }

-- A nonce that is not tracked yet starts with no hits.
abbrev pub hits_of : Option NonceState → ℤ
hits_of none = pos 0
hits_of (some s) = s.hits

-- `Record`. The clock is read twice: for the reaping, and for `lastSeen`.
unfoldable pub record_nonce : ℕ → ℤ → ℤ → StuckNonceTracker → StuckNonceTracker × ℤ
record_nonce n reaped_at seen_at t =
    let r = reap_stale_locked reaped_at t in
    let hits = add_i64 (hits_of (find n r.entries)) (pos 1) in
    (record r { entries = put n (record { hits = hits; last_seen = seen_at }) r.entries }, hits)

unfoldable pub hits_at : ℕ → StuckNonceTracker → ℤ
hits_at n t = hits_of (find n t.entries)

unfoldable pub max_hits_from : ℤ → Entries → ℤ
max_hits_from acc [] = acc
max_hits_from acc ((_, s) ∷ es) = max_hits_from (if ltb_ℤ acc s.hits then s.hits else acc) es

unfoldable pub max_consecutive_hits : StuckNonceTracker → ℤ
unfolding max_hits_from
max_consecutive_hits t = max_hits_from (pos 0) t.entries

-- The loop of `LastNonce`; the accumulator is the latest entry so far.
unfoldable pub latest_from : Option (ℕ × ℤ) → Entries → Option (ℕ × ℤ)
latest_from acc [] = acc
latest_from none ((n, s) ∷ es) = latest_from (some (n, s.last_seen)) es
latest_from (some (m, latest)) ((n, s) ∷ es) =
    latest_from (some (if ltb_ℤ latest s.last_seen then (n, s.last_seen) else (m, latest))) es

unfoldable pub last_nonce : StuckNonceTracker → Option ℕ
unfolding latest_from
last_nonce t = elim (latest_from none t.entries) [ none ↦ none | some (n, _) ↦ some n ]

unfoldable pub bump_attempts_used_for : ℕ → StuckNonceTracker → ℤ
bump_attempts_used_for n t =
    if not t.has_last_bump_nonce || not (t.last_bump_nonce == n) then pos 0 else t.bump_attempts

unfoldable pub increment_bump_attempts_for : ℕ → StuckNonceTracker → StuckNonceTracker
increment_bump_attempts_for n t =
    let u =
      if not t.has_last_bump_nonce || not (t.last_bump_nonce == n)
      then record t { bump_attempts = pos 0; last_bump_nonce = n; has_last_bump_nonce = true }
      else t in
    record u { bump_attempts = add_i64 u.bump_attempts (pos 1) }

unfoldable pub clear : StuckNonceTracker → StuckNonceTracker
clear t = record t {
  entries = [];
  bump_attempts = pos 0;
  has_last_bump_nonce = false;
  last_bump_nonce = 0;
}

unfoldable pub size : StuckNonceTracker → ℕ
size t = length t.entries
