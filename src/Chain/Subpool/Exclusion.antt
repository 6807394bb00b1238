-- ===== src/Chain/Subpool/Exclusion.antt =====
-- The two subpools are never in use together.
use lightchain_worker.Base.{
  ℕ, zero, suc, ◌+◌, ◌-◌, ◌≡◌, refl, ap, ◌⊎◌, inl, inr, Bool, not, Option, none, some, List, [],
  ◌∷◌, arith, ℤ, ◌-ℤ◌, ◌<ℤ◌, ltb_ℤ, ◌==◌, length, keep, All,
}
use lightchain_worker.Chain.Subpool.{
  TxClass, class_blob, class_legacy, other, InflightEntry, SubpoolCoordinator,
  new_subpool_coordinator, inflight, BroadcastToken, admitted, waiting, try_enter, set_hash,
  registered, done, seed_entry, seed_entries, seed, Entered, young, reap_stale, Step, entering,
  registering, settling, reaping, seeding, Reach, here, next,
}

-- At most one class has broadcasts in flight.
abbrev pub IsExclusive : SubpoolCoordinator → Type 0
IsExclusive c = (c.blob ≡ []) ⊎ (c.legacy ≡ [])

set_hash-nil : (id hash : ℕ) (es : List InflightEntry) → es ≡ [] → set_hash id hash es ≡ []
set_hash-nil id hash [] e = refl
set_hash-nil id hash (x ∷ es) e = cc

keep-nil : (p : InflightEntry → Bool) (es : List InflightEntry) → es ≡ [] → keep p es ≡ []
keep-nil p [] e = refl
keep-nil p (x ∷ es) e = cc

registered-IsExclusive :
    (c : SubpoolCoordinator) (hash : ℕ) (t : Option BroadcastToken)
    → IsExclusive c
    → IsExclusive (registered hash t c)
unfolding registered
registered-IsExclusive c hash none v = v
registered-IsExclusive c hash (some t) v =
    ground (arith, set_hash-nil t.entry_id hash c.blob, set_hash-nil t.entry_id hash c.legacy)

done-IsExclusive :
    (c : SubpoolCoordinator) (t : Option BroadcastToken) → IsExclusive c → IsExclusive (done t c).1
unfolding done
done-IsExclusive c none v = v
done-IsExclusive c (some t) v = ground (
  arith,
  keep-nil (λ (e : InflightEntry). not (e.id == t.entry_id)) c.blob,
  keep-nil (λ (e : InflightEntry). not (e.id == t.entry_id)) c.legacy,
)

reap_stale-IsExclusive :
    (c : SubpoolCoordinator) (now : ℤ) → IsExclusive c → IsExclusive (reap_stale now c)
unfolding reap_stale
reap_stale-IsExclusive c now v =
    let cutoff = now -ℤ c.max_token_lifetime in
    ground (
      arith,
      keep-nil (λ (e : InflightEntry). not (ltb_ℤ e.entered_at cutoff)) c.blob,
      keep-nil (λ (e : InflightEntry). not (ltb_ℤ e.entered_at cutoff)) c.legacy,
    )

legacy-seed_entries :
    (rounds : ℕ) (now : ℤ) (c : SubpoolCoordinator) → (seed_entries rounds now c).legacy ≡ c.legacy
unfolding seed_entries
legacy-seed_entries zero now c = refl
legacy-seed_entries (suc rounds) now c = legacy-seed_entries rounds now (seed_entry now c)

Step-IsExclusive : {c d : SubpoolCoordinator} → Step c d → IsExclusive c → IsExclusive d
unfolding try_enter seed
Step-IsExclusive (entering c d class_blob now t e) v = ground arith
Step-IsExclusive (entering c d class_legacy now t e) v = ground arith
Step-IsExclusive (registering c hash t) v = registered-IsExclusive c hash t v
Step-IsExclusive (settling c t) v = done-IsExclusive c t v
Step-IsExclusive (reaping c now) v = reap_stale-IsExclusive c now v
Step-IsExclusive (seeding c p l now e) v = ground (arith, legacy-seed_entries (p - l) now c)

Reach-IsExclusive : {c d : SubpoolCoordinator} → Reach c d → IsExclusive c → IsExclusive d
Reach-IsExclusive here v = v
Reach-IsExclusive (next r st) v = Step-IsExclusive st (Reach-IsExclusive r v)

-- Whatever callers enter, settle or abandon, in any order, whenever the janitor runs, and with
-- `Seed` only while no legacy broadcast is in flight: from a new coordinator on, its entries are
-- never of both classes at once.
pub never_both_classes :
    (max_token_lifetime : ℤ) {c : SubpoolCoordinator}
    → Reach (new_subpool_coordinator max_token_lifetime) c
    → IsExclusive c
unfolding new_subpool_coordinator
never_both_classes max_token_lifetime r = Reach-IsExclusive r (inl refl)

young-nil :
    (cutoff : ℤ) (es : List InflightEntry)
    → All (λ e. e.entered_at <ℤ cutoff) es
    → young cutoff es ≡ []
young-nil cutoff [] h = refl
young-nil cutoff (e ∷ es) h = ground (arith, young-nil cutoff es h.1)

Entered-cases :
    (r : Entered)
    → ((t : BroadcastToken) × (d : SubpoolCoordinator) × (r ≡ admitted t d))
      ⊎ ((ch : ℕ) × (r ≡ waiting ch))
Entered-cases (admitted t d) = inl (t, d, refl)
Entered-cases (waiting ch) = inr (ch, refl)

-- A caller gets its slot as soon as the other class is empty.
pub try_enter_free :
    (class : TxClass) (now : ℤ) (c : SubpoolCoordinator)
    → inflight (other class) c ≡ []
    → (t : BroadcastToken) × (d : SubpoolCoordinator) × (try_enter class now c ≡ admitted t d)
unfolding try_enter
try_enter_free class now c free = elim (Entered-cases (try_enter class now c)) [
  | inl found ↦ found
  | inr (ch, e) ↦ absurd (ground (arith, e))
]

try_enter_class :
    (class : TxClass) (now : ℤ) (c d : SubpoolCoordinator) (t : BroadcastToken)
    → try_enter class now c ≡ admitted t d
    → (t.class ≡ class) × (length (inflight class d) ≡ length (inflight class c) + 1)
unfolding try_enter
try_enter_class class_blob now c d t e = ground arith
try_enter_class class_legacy now c d t e = ground arith

try_enter_idle :
    (class : TxClass) (now : ℤ) (c : SubpoolCoordinator)
    → c.blob ≡ []
    → c.legacy ≡ []
    → (t : BroadcastToken) × (d : SubpoolCoordinator) × (try_enter class now c ≡ admitted t d)
      × (t.class ≡ class)
      × (length (inflight class d) ≡ 1)
try_enter_idle class_blob now c b l =
    let (t, d, e) = try_enter_free class_blob now c l in
    let same = try_enter_class class_blob now c d t e in
    (t, d, e, same.0, omega (arith, same.1, ap length b))
try_enter_idle class_legacy now c b l =
    let (t, d, e) = try_enter_free class_legacy now c b in
    let same = try_enter_class class_legacy now c d t e in
    (t, d, e, same.0, omega (arith, same.1, ap length l))

-- A leaked token cannot wedge the coordinator: once every entry is older than the lifetime, one
-- janitor pass empties both classes, and a caller of either class gets its slot at once.
pub reap_stale_drains :
    (c : SubpoolCoordinator) (now later : ℤ) (class : TxClass)
    → All (λ e. e.entered_at <ℤ now -ℤ c.max_token_lifetime) c.blob
    → All (λ e. e.entered_at <ℤ now -ℤ c.max_token_lifetime) c.legacy
    → let d = reap_stale now c in
      (d.blob ≡ [])
      × (d.legacy ≡ [])
      × ((t : BroadcastToken) × (e : SubpoolCoordinator) × (try_enter class later d ≡ admitted t e)
          × (t.class ≡ class)
          × (length (inflight class e) ≡ 1))
unfolding reap_stale
reap_stale_drains c now later class hb hl =
    let cutoff = now -ℤ c.max_token_lifetime in
    let no_blob : (reap_stale now c).blob ≡ [] = ground (arith, young-nil cutoff c.blob hb) in
    let no_legacy : (reap_stale now c).legacy ≡ [] = ground (arith, young-nil cutoff c.legacy hl) in
    (no_blob, no_legacy, try_enter_idle class later (reap_stale now c) no_blob no_legacy)

-- A token settles once: settling it again changes nothing.
pub done-done :
    (t : Option BroadcastToken) (c : SubpoolCoordinator)
    → let (u, d) = done t c in done u d ≡ (u, d)
unfolding done
done-done none c = refl
done-done (some t) c = ground arith
