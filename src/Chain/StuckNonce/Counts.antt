-- ===== src/Chain/StuckNonce/Counts.antt =====
-- What the counters of stuck_nonce.go count.
use lightchain_worker.Base.{
  ℕ, suc, ◌+◌, ◌<◌, ◌≡◌, refl, ◌⊎◌, inl, inr, not, some, List, [], ◌∷◌, arith, ℤ, pos, ◌-ℤ◌, ◌≤ℤ◌,
  add_i64, wrap, ◌+ℤ◌, ltb_ℤ, ◌==◌, if◌then◌else◌, length, keep, All, i64_half, Bool-cases,
}
use mathlib.Core.List.{Memᴰ}
use mathlib.Core.Path.{sym}
use lightchain_worker.Chain.StuckNonce.{
  NonceState, Entries, StuckNonceTracker, new_stuck_nonce_tracker, find, put, reap_stale_locked,
  hits_of, record_nonce, hits_at, max_hits_from, max_consecutive_hits, bump_attempts_used_for,
  increment_bump_attempts_for,
}

find-put :
    (n m : ℕ) (s : NonceState) (es : Entries)
    → find m (put n s es) ≡ (if n == m then some s else find m es)
unfolding find put
find-put n m s [] = refl
find-put n m s ((k, r) ∷ es) = ground (arith, find-put n m s es)

-- A recorded rejection adds one to the count of its nonce, which is what the call returns, and
-- leaves the count of every other nonce as the reaping left it.
pub hits_at-record_nonce :
    (n m : ℕ) (reaped_at seen_at : ℤ) (t : StuckNonceTracker)
    → let kept = reap_stale_locked reaped_at t in
      let (u, hits) = record_nonce n reaped_at seen_at t in
      (hits ≡ add_i64 (hits_at n kept) (pos 1))
      × (hits_at m u ≡ (if n == m then hits else hits_at m kept))
unfolding record_nonce hits_at
hits_at-record_nonce n m reaped_at seen_at t = (
  refl,
  ground (
    arith,
    find-put n m
        (record {
          hits = add_i64 (hits_of (find n (reap_stale_locked reaped_at t).entries)) (pos 1);
          last_seen = seen_at;
        })
        (reap_stale_locked reaped_at t).entries,
  ),
)

-- One rejection: the nonce, and the two readings of the clock.
pub record Rejection : Type 0 where
  pub nonce : ℕ
  pub reaped_at : ℤ
  pub seen_at : ℤ

unfoldable pub record_all : List Rejection → StuckNonceTracker → StuckNonceTracker
record_all [] t = t
record_all (r ∷ rs) t = record_all rs (record_nonce r.nonce r.reaped_at r.seen_at t).0

abbrev pub count : ℕ → List Rejection → ℕ
count n [] = 0
count n (r ∷ rs) = if r.nonce == n then suc (count n rs) else count n rs

-- The readings lie within one time-to-live of each other.
abbrev pub Within : ℤ → ℤ → Rejection → Type 0
Within from ttl r = (from ≤ℤ r.seen_at) × (r.reaped_at -ℤ ttl ≤ℤ from)

abbrev Fresh : ℤ → Entries → Type 0
Fresh from = All (λ e. from ≤ℤ e.1.last_seen)

keep-Fresh :
    (from cutoff : ℤ) (es : Entries)
    → cutoff ≤ℤ from
    → Fresh from es
    → keep (λ (e : ℕ × NonceState). not (ltb_ℤ e.1.last_seen cutoff)) es ≡ es
keep-Fresh from cutoff [] h f = refl
keep-Fresh from cutoff (e ∷ es) h f = ground (arith, keep-Fresh from cutoff es h f.1)

put-Fresh :
    (from : ℤ) (n : ℕ) (s : NonceState) (es : Entries)
    → from ≤ℤ s.last_seen
    → Fresh from es
    → Fresh from (put n s es)
unfolding put
put-Fresh from n s [] h f = (h, tt)
put-Fresh from n s ((m, r) ∷ es) h f = ground (arith, put-Fresh from n s es h f.1)

reap_Fresh :
    (from now : ℤ) (t : StuckNonceTracker)
    → now -ℤ t.entry_ttl ≤ℤ from
    → Fresh from t.entries
    → reap_stale_locked now t ≡ t
unfolding reap_stale_locked
reap_Fresh from now t h f = ground (arith, keep-Fresh from (now -ℤ t.entry_ttl) t.entries h f)

one_more_hit : (k : ℕ) → k + 1 < i64_half → add_i64 (pos k) (pos 1) ≡ pos (k + 1)
unfolding add_i64 wrap ◌+ℤ◌
one_more_hit k h = ground arith

record_nonce-Fresh :
    (from : ℤ) (r : Rejection) (t : StuckNonceTracker)
    → Within from t.entry_ttl r
    → Fresh from t.entries
    → let u = (record_nonce r.nonce r.reaped_at r.seen_at t).0 in
      Fresh from u.entries × (u.entry_ttl ≡ t.entry_ttl)
unfolding record_nonce
record_nonce-Fresh from r t w f =
    rw (reap_Fresh from r.reaped_at t w.1 f) (put-Fresh from r.nonce _ t.entries w.0 f, refl)

record_all_from :
    (from : ℤ) (n k : ℕ) (rs : List Rejection) (t : StuckNonceTracker)
    → All (Within from t.entry_ttl) rs
    → Fresh from t.entries
    → hits_at n t ≡ pos k
    → k + length rs < i64_half
    → hits_at n (record_all rs t) ≡ pos (k + count n rs)
unfolding record_all
record_all_from from n k [] t w f h b = ground arith
record_all_from from n k (r ∷ rs) t w f h b =
    let u : StuckNonceTracker = (record_nonce r.nonce r.reaped_at r.seen_at t).0 in
    let (fresh, same) = record_nonce-Fresh from r t w.0 f in
    let within : All (Within from u.entry_ttl) rs = rw same w.1 in
    let counts = hits_at-record_nonce r.nonce n r.reaped_at r.seen_at t in
    let kept = reap_Fresh from r.reaped_at t w.0.1 f in
    elim (Bool-cases (r.nonce == n)) [
      | inl hit ↦
          let now : hits_at n u ≡ pos (suc k) =
            ground (arith, counts, kept, h, hit, one_more_hit k) in
          ground (arith, record_all_from from n (suc k) rs u within fresh now)
      | inr miss ↦
          let now : hits_at n u ≡ pos k = ground (arith, counts, kept, h, miss) in
          ground (arith, record_all_from from n k rs u within fresh now)
    ]

-- Interleaved rejections accumulate independently: in a new tracker, after fewer than 2 ^ 63
-- rejections within one time-to-live, at any nonces in any order, the count at a nonce is the
-- number of its rejections.
pub hits_at-record_all :
    (from : ℤ) (n : ℕ) (rs : List Rejection)
    → All (Within from (pos 600000000000)) rs
    → length rs < i64_half
    → hits_at n (record_all rs new_stuck_nonce_tracker) ≡ pos (count n rs)
unfolding new_stuck_nonce_tracker hits_at find
hits_at-record_all from n rs w b =
    ground (arith, record_all_from from n 0 rs new_stuck_nonce_tracker w tt refl)

max_hits_from_mono : (acc : ℤ) (es : Entries) → acc ≤ℤ max_hits_from acc es
unfolding max_hits_from
max_hits_from_mono acc [] = omega arith
max_hits_from_mono acc ((n, s) ∷ es) =
    ground (arith, max_hits_from_mono acc es, max_hits_from_mono s.hits es)

find-le-max_hits_from :
    (n : ℕ) (acc : ℤ) (es : Entries) → pos 0 ≤ℤ acc → hits_of (find n es) ≤ℤ max_hits_from acc es
unfolding max_hits_from find
find-le-max_hits_from n acc [] h = h
find-le-max_hits_from n acc ((m, s) ∷ es) h = ground (
  arith,
  max_hits_from_mono acc es,
  max_hits_from_mono s.hits es,
  find-le-max_hits_from n acc es,
  find-le-max_hits_from n s.hits es,
)

-- Either the accumulator stays the largest, or some entry of the list has the result.
max_hits_from_attained :
    (acc : ℤ) (es : Entries)
    → (max_hits_from acc es ≡ acc)
      ⊎ ((n : ℕ) × (s : NonceState) × Memᴰ (n, s) es × (s.hits ≡ max_hits_from acc es))
unfolding max_hits_from
max_hits_from_attained acc [] = inl refl
max_hits_from_attained acc ((n, s) ∷ es) = elim (Bool-cases (ltb_ℤ acc s.hits)) [
  | inl up ↦ rw up (elim (max_hits_from_attained s.hits es) [
    | inl same ↦ inr (n, s, Memᴰ.head refl, sym same)
    | inr (m, r, found, top) ↦ inr (m, r, Memᴰ.tail found, top)
  ])
  | inr stay ↦ rw stay (elim (max_hits_from_attained acc es) [
    | inl same ↦ inl same
    | inr (m, r, found, top) ↦ inr (m, r, Memᴰ.tail found, top)
  ])
]

-- `MaxConsecutiveHits` is the largest count: no nonce has a larger one, and it is 0 or the count
-- of an entry that is tracked.
pub max_consecutive_hits_largest :
    (t : StuckNonceTracker)
    → ((n : ℕ) → hits_at n t ≤ℤ max_consecutive_hits t)
      × ((max_consecutive_hits t ≡ pos 0)
          ⊎ ((n : ℕ) × (s : NonceState) × Memᴰ (n, s) t.entries
              × (s.hits ≡ max_consecutive_hits t)))
unfolding max_consecutive_hits hits_at
max_consecutive_hits_largest t = (
  λ n. find-le-max_hits_from n (pos 0) t.entries (omega arith),
  max_hits_from_attained (pos 0) t.entries,
)

-- Each stuck nonce has its own budget of replacements: an attempt at `n` adds one to what `n` has
-- used, and every other nonce then counts as not having used any.
pub bump_attempts_used_for-increment :
    (n m : ℕ) (t : StuckNonceTracker)
    → bump_attempts_used_for m (increment_bump_attempts_for n t)
      ≡ (if n == m then add_i64 (bump_attempts_used_for n t) (pos 1) else pos 0)
unfolding bump_attempts_used_for increment_bump_attempts_for
bump_attempts_used_for-increment n m t = ground arith
