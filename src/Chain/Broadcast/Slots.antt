-- ===== src/Chain/Broadcast/Slots.antt =====
-- A slot that is entered and released leaves the coordinator's entries as they were.
use lightchain_worker.Base.{
  ℕ, ◌+◌, ◌≤◌, ◌<◌, ◌≡◌, refl, ap, ◌⊎◌, inl, inr, false, some, List, [], ◌∷◌, arith, ℤ, All,
  u64_mod, add_u64_exact,
}
use lightchain_worker.Chain.Subpool.{
  TxClass, class_blob, class_legacy, other, InflightEntry, SubpoolCoordinator, inflight,
  BroadcastToken, Entered, admitted, waiting, try_enter, set_hash, registered, delete_entry, done,
}

abbrev pub IdsBelow : ℕ → List InflightEntry → Type 0
IdsBelow n = All (λ (e : InflightEntry). e.id ≤ n)

-- Ids are handed out in order, and are not used up.
abbrev pub IdsAreFresh : SubpoolCoordinator → Type 0
IdsAreFresh c = IdsBelow c.next_id c.blob × IdsBelow c.next_id c.legacy × (c.next_id + 1 < u64_mod)

-- The same entries are in flight.
abbrev pub SameEntries : SubpoolCoordinator → SubpoolCoordinator → Type 0
SameEntries c d = (d.blob ≡ c.blob) × (d.legacy ≡ c.legacy)

delete_entry-IdsBelow :
    (n : ℕ) (es : List InflightEntry) → IdsBelow n es → delete_entry (n + 1) es ≡ es
delete_entry-IdsBelow n [] h = refl
delete_entry-IdsBelow n (e ∷ es) h = ground (arith, delete_entry-IdsBelow n es h.1)

set_hash-IdsBelow :
    (n hash : ℕ) (es : List InflightEntry) → IdsBelow n es → set_hash (n + 1) hash es ≡ es
set_hash-IdsBelow n hash [] h = refl
set_hash-IdsBelow n hash (e ∷ es) h = ground (arith, set_hash-IdsBelow n hash es h.1)

abbrev pub entry_of : TxClass → ℤ → ℕ → ℕ → InflightEntry
entry_of class now hash id = record { id = id; class = class; hash = hash; entered_at = now }

-- What a caller has got whose transaction, if any, is registered.
abbrev pub Carrying :
    TxClass → ℤ → ℕ → SubpoolCoordinator → BroadcastToken → SubpoolCoordinator → Type 0
Carrying class now hash c t d =
    (t ≡ record { entry_id = c.next_id + 1; class = class; settled = false })
    × (inflight class d ≡ entry_of class now hash (c.next_id + 1) ∷ inflight class c)
    × (inflight (other class) d ≡ inflight (other class) c)

-- What an admitted caller has got.
abbrev pub Admitted :
    TxClass → ℤ → SubpoolCoordinator → BroadcastToken → SubpoolCoordinator → Type 0
Admitted class now = Carrying class now 0

pub try_enter-Admitted :
    (class : TxClass) (now : ℤ) (c d : SubpoolCoordinator) (t : BroadcastToken)
    → IdsAreFresh c
    → try_enter class now c ≡ admitted t d
    → Admitted class now c t d
unfolding try_enter
try_enter-Admitted class_blob now c d t f e = ground (arith, add_u64_exact c.next_id 1)
try_enter-Admitted class_legacy now c d t f e = ground (arith, add_u64_exact c.next_id 1)

pub registered-Carrying :
    (class : TxClass) (now : ℤ) (hash : ℕ) (c d : SubpoolCoordinator) (t : BroadcastToken)
    → IdsAreFresh c
    → Admitted class now c t d
    → Carrying class now hash c t (registered hash (some t) d)
unfolding registered
registered-Carrying class_blob now hash c d t f a =
    ground
      (arith, set_hash-IdsBelow c.next_id hash c.blob f.0, ap (set_hash (c.next_id + 1) hash) a.1)
registered-Carrying class_legacy now hash c d t f a =
    ground
      (arith, set_hash-IdsBelow c.next_id hash c.legacy f.1, ap (set_hash (c.next_id + 1) hash) a.1)

pub done-Carrying :
    (class : TxClass) (now : ℤ) (hash : ℕ) (c d : SubpoolCoordinator) (t : BroadcastToken)
    → IdsAreFresh c
    → Carrying class now hash c t d
    → SameEntries c (done (some t) d).1
unfolding done
done-Carrying class_blob now hash c d t f a =
    ground
      (arith, delete_entry-IdsBelow c.next_id c.blob f.0, ap (delete_entry (c.next_id + 1)) a.1)
done-Carrying class_legacy now hash c d t f a =
    ground
      (arith, delete_entry-IdsBelow c.next_id c.legacy f.1, ap (delete_entry (c.next_id + 1)) a.1)

-- To split on an answer of `try_enter`.
pub Entered-cases :
    (x : Entered)
    → ((t : BroadcastToken) × (d : SubpoolCoordinator) × (x ≡ admitted t d))
      ⊎ ((ch : ℕ) × (x ≡ waiting ch))
Entered-cases (admitted t d) = inl (t, d, refl)
Entered-cases (waiting ch) = inr (ch, refl)
