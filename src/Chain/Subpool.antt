-- ===== src/Chain/Subpool.antt =====
-- internal/chain/subpool_coordinator.go: which broadcasts of one key may be in flight together.
-- The mutex makes each critical section one step. The notify channel is the number of channels
-- closed so far: a waiter's snapshot `ch` is closed once that number is larger. Map entries are a
-- list, a time is an integer of nanoseconds, and the clock's readings are arguments.
pub mod Exclusion
pub mod Wakeup
use lightchain_worker.Base.{
  ℕ, zero, suc, ◌+◌, ◌-◌, Bool, true, false, not, ◌||◌, Option, none, some, List, [], ◌∷◌, ◌++◌, ℤ,
  pos, ◌-ℤ◌, add_i64, add_u64, ltb, leb, ltb_ℤ, leb_ℤ, ◌==◌, if◌then◌else◌, length, keep, ◌≡◌,
}

pub data TxClass : Type 0 where
  class_blob class_legacy : TxClass

abbrev pub other : TxClass → TxClass
other class_blob = class_legacy
other class_legacy = class_blob

pub record InflightEntry : Type 0 where
  pub id : ℕ  -- uint64
  pub class : TxClass
  pub hash : ℕ  -- zero until it is registered
  pub entered_at : ℤ

pub record SubpoolCoordinator : Type 0 where
  pub max_token_lifetime : ℤ
  pub blob : List InflightEntry  -- inflight[ClassBlob]
  pub legacy : List InflightEntry  -- inflight[ClassLegacy]
  pub notify : ℕ
  pub next_id : ℕ  -- uint64
  pub orphan_count : ℤ  -- int64

-- Three minutes.
abbrev pub default_max_token_lifetime : ℤ
default_max_token_lifetime = pos 180000000000

unfoldable pub new_subpool_coordinator : ℤ → SubpoolCoordinator
new_subpool_coordinator max_token_lifetime = record {
  max_token_lifetime =
      if leb_ℤ max_token_lifetime (pos 0) then default_max_token_lifetime else max_token_lifetime;
  blob = [];
  legacy = [];
  notify = 0;
  next_id = 0;
  orphan_count = pos 0;
}

abbrev pub inflight : TxClass → SubpoolCoordinator → List InflightEntry
inflight class_blob c = c.blob
inflight class_legacy c = c.legacy

abbrev pub set_inflight : TxClass → List InflightEntry → SubpoolCoordinator → SubpoolCoordinator
set_inflight class_blob es c = record c { blob = es }
set_inflight class_legacy es c = record c { legacy = es }

abbrev pub is_empty : List InflightEntry → Bool
is_empty [] = true
is_empty (e ∷ es) = false

pub record BroadcastToken : Type 0 where
  pub entry_id : ℕ
  pub class : TxClass
  pub settled : Bool

-- One round of the loop of `Enter`: the slot, or the channel to wait on.
pub data Entered : Type 0 where
  admitted : BroadcastToken → SubpoolCoordinator → Entered
  waiting : ℕ → Entered

unfoldable pub try_enter : TxClass → ℤ → SubpoolCoordinator → Entered
try_enter class now c =
    if is_empty (inflight (other class) c)
    then (let id = add_u64 c.next_id 1 in
        let entry : InflightEntry = record { id = id; class = class; hash = 0; entered_at = now } in
        admitted (record { entry_id = id; class = class; settled = false })
          (set_inflight class (entry ∷ inflight class c) (record c { next_id = id })))
    else waiting c.notify

abbrev pub set_hash : ℕ → ℕ → List InflightEntry → List InflightEntry
set_hash id hash [] = []
set_hash id hash (e ∷ es) =
    (if e.id == id then record e { hash = hash } else e) ∷ set_hash id hash es

-- A nil token is `none`.
unfoldable pub registered : ℕ → Option BroadcastToken → SubpoolCoordinator → SubpoolCoordinator
registered hash none c = c
registered hash (some t) c =
    if t.settled then c else set_inflight t.class (set_hash t.entry_id hash (inflight t.class c)) c

abbrev pub delete_entry : ℕ → List InflightEntry → List InflightEntry
delete_entry id = keep (λ (e : InflightEntry). not (e.id == id))

-- `close(c.notify); c.notify = make(chan struct{})`
abbrev pub close_notify : SubpoolCoordinator → SubpoolCoordinator
close_notify c = record c { notify = suc c.notify }

unfoldable pub release : TxClass → ℕ → SubpoolCoordinator → SubpoolCoordinator
release class id c =
    let d = set_inflight class (delete_entry id (inflight class c)) c in
    if is_empty (inflight class d) then close_notify d else d

-- `Done`, and `Abandon`, which is the same.
unfoldable pub done :
    Option BroadcastToken → SubpoolCoordinator → Option BroadcastToken × SubpoolCoordinator
unfolding release
done none c = (none, c)
done (some t) c =
    if t.settled
    then (some t, c)
    else (some (record t { settled = true }), release t.class t.entry_id c)

-- One round of the loop of `Seed`.
unfoldable pub seed_entry : ℤ → SubpoolCoordinator → SubpoolCoordinator
seed_entry now c =
    let id = add_u64 c.next_id 1 in
    let entry : InflightEntry = record {
      id = id;
      class = class_blob;
      hash = 0;
      entered_at = now;
    } in
    record c { next_id = id; blob = entry ∷ c.blob }

-- The loop of `Seed`, over the rounds left.
unfoldable pub seed_entries : ℕ → ℤ → SubpoolCoordinator → SubpoolCoordinator
unfolding seed_entry
seed_entries zero now c = c
seed_entries (suc rounds) now c = seed_entries rounds now (seed_entry now c)

unfoldable pub seed : ℕ → ℕ → ℤ → SubpoolCoordinator → SubpoolCoordinator
unfolding seed_entries
seed pending_nonce latest_nonce now c =
    if leb pending_nonce latest_nonce then c else seed_entries (pending_nonce - latest_nonce) now c

-- Entries that stay, and entries that are evicted, at a cutoff.
abbrev pub young : ℤ → List InflightEntry → List InflightEntry
young cutoff = keep (λ (e : InflightEntry). not (ltb_ℤ e.entered_at cutoff))

abbrev pub stale : ℤ → List InflightEntry → List InflightEntry
stale cutoff = keep (λ (e : InflightEntry). ltb_ℤ e.entered_at cutoff)

-- `orphanCount.Add(1)` for each entry evicted.
unfoldable pub count_orphans : List InflightEntry → ℤ → ℤ
count_orphans [] n = n
count_orphans (e ∷ es) n = count_orphans es (add_i64 n (pos 1))

-- A class has been emptied by the eviction: something was evicted, and nothing is left.
abbrev pub emptied : ℤ → List InflightEntry → Bool
emptied cutoff es = if is_empty (stale cutoff es) then false else is_empty (young cutoff es)

unfoldable pub reap_stale : ℤ → SubpoolCoordinator → SubpoolCoordinator
unfolding count_orphans
reap_stale now c =
    let cutoff = now -ℤ c.max_token_lifetime in
    let d = record c {
      blob = young cutoff c.blob;
      legacy = young cutoff c.legacy;
      orphan_count = count_orphans (stale cutoff c.blob ++ stale cutoff c.legacy) c.orphan_count;
    } in
    if emptied cutoff c.blob || emptied cutoff c.legacy then close_notify d else d

-- Every move of a coordinator, with any arguments: entering callers, tokens settled once, twice
-- or out of order, the janitor at any time. `Seed` runs at startup, before any legacy broadcast.
pub data Step : SubpoolCoordinator → SubpoolCoordinator → Type 0 where
  entering :
      (c d : SubpoolCoordinator) (class : TxClass) (now : ℤ) (t : BroadcastToken)
      → try_enter class now c ≡ admitted t d
      → Step c d
  registering :
      (c : SubpoolCoordinator) (hash : ℕ) (t : Option BroadcastToken) → Step c (registered hash t c)
  settling : (c : SubpoolCoordinator) (t : Option BroadcastToken) → Step c (done t c).1
  reaping : (c : SubpoolCoordinator) (now : ℤ) → Step c (reap_stale now c)
  seeding :
      (c : SubpoolCoordinator) (pending_nonce latest_nonce : ℕ) (now : ℤ)
      → c.legacy ≡ []
      → Step c (seed pending_nonce latest_nonce now c)

pub data Reach (c : SubpoolCoordinator) : SubpoolCoordinator → Type 0 where
  here : Reach c c
  next : {d e : SubpoolCoordinator} → Reach c d → Step d e → Reach c e
