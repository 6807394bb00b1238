-- ===== src/Chain/Subpool/Wakeup.antt =====
-- A caller that waits in `Enter` is woken.
use lightchain_worker.Base.{
  ℕ, zero, suc, ◌-◌, ◌<◌, ◌≡◌, refl, ◌⊎◌, inr, true, false, Option, none, some, List, [], ◌∷◌,
  arith, ℤ, ◌-ℤ◌,
}
use lightchain_worker.Chain.Subpool.{
  TxClass, class_blob, class_legacy, other, InflightEntry, SubpoolCoordinator, inflight, is_empty,
  BroadcastToken, admitted, waiting, try_enter, set_hash, registered, done, seed_entry,
  seed_entries, seed, young, stale, reap_stale, Step, entering, registering, settling, reaping,
  seeding, Reach, here, next,
}
use lightchain_worker.Chain.Subpool.Exclusion.{try_enter_free}

-- From `c` to `d` the channel was closed, or it was not and what was in use still is.
abbrev Notified : SubpoolCoordinator → SubpoolCoordinator → Type 0
Notified c d =
    (c.notify < d.notify)
    ⊎ ((c.notify ≡ d.notify)
        × (is_empty c.blob ≡ false → is_empty d.blob ≡ false)
        × (is_empty c.legacy ≡ false → is_empty d.legacy ≡ false))

is_empty-set_hash :
    (id hash : ℕ) (es : List InflightEntry) → is_empty (set_hash id hash es) ≡ is_empty es
is_empty-set_hash id hash [] = refl
is_empty-set_hash id hash (e ∷ es) = refl

registered-Notified :
    (c : SubpoolCoordinator) (hash : ℕ) (t : Option BroadcastToken)
    → Notified c (registered hash t c)
unfolding registered
registered-Notified c hash none = ground arith
registered-Notified c hash (some t) =
    ground
      (arith, is_empty-set_hash t.entry_id hash c.blob, is_empty-set_hash t.entry_id hash c.legacy)

done-Notified : (c : SubpoolCoordinator) (t : Option BroadcastToken) → Notified c (done t c).1
unfolding done
done-Notified c none = ground arith
done-Notified c (some t) = ground arith

stale_of_young :
    (cutoff : ℤ) (es : List InflightEntry)
    → is_empty es ≡ false
    → is_empty (young cutoff es) ≡ true
    → is_empty (stale cutoff es) ≡ false
stale_of_young cutoff [] h k = cc
stale_of_young cutoff (e ∷ es) h k = ground arith

reap_stale-Notified : (c : SubpoolCoordinator) (now : ℤ) → Notified c (reap_stale now c)
unfolding reap_stale
reap_stale-Notified c now =
    let cutoff = now -ℤ c.max_token_lifetime in
    ground (arith, stale_of_young cutoff c.blob, stale_of_young cutoff c.legacy)

seed_entries-Notified :
    (rounds : ℕ) (now : ℤ) (c : SubpoolCoordinator)
    → (c.notify ≡ (seed_entries rounds now c).notify)
      × (is_empty c.blob ≡ false → is_empty (seed_entries rounds now c).blob ≡ false)
      × (is_empty c.legacy ≡ false → is_empty (seed_entries rounds now c).legacy ≡ false)
unfolding seed_entries
seed_entries-Notified zero now c = (refl, λ h. h, λ h. h)
seed_entries-Notified (suc rounds) now c =
    ground (arith, seed_entries-Notified rounds now (seed_entry now c))

Step-Notified : {c d : SubpoolCoordinator} → Step c d → Notified c d
unfolding try_enter seed
Step-Notified (entering c d class_blob now t e) = ground arith
Step-Notified (entering c d class_legacy now t e) = ground arith
Step-Notified (registering c hash t) = registered-Notified c hash t
Step-Notified (settling c t) = done-Notified c t
Step-Notified (reaping c now) = reap_stale-Notified c now
Step-Notified (seeding c p l now e) = ground (arith, seed_entries-Notified (p - l) now c)

Reach-Notified : {c d : SubpoolCoordinator} → Reach c d → Notified c d
Reach-Notified here = inr (refl, λ h. h, λ h. h)
Reach-Notified (next r st) = ground (arith, Reach-Notified r, Step-Notified st)

-- No wake-up is lost. A caller that was told to wait on a channel, because the other class was in
-- use, finds that channel closed as soon as the other class has drained, whatever happened in
-- between by the moves of `Step`; and then its next round gets the slot.
pub no_lost_wakeup :
    (class : TxClass) (now later : ℤ) (ch : ℕ) {c d : SubpoolCoordinator}
    → try_enter class now c ≡ waiting ch
    → Reach c d
    → inflight (other class) d ≡ []
    → (ch < d.notify)
      × ((t : BroadcastToken) × (e : SubpoolCoordinator) × (try_enter class later d ≡ admitted t e))
unfolding try_enter
no_lost_wakeup class_blob now later ch e r free =
    (ground (arith, Reach-Notified r), try_enter_free class_blob later _ free)
no_lost_wakeup class_legacy now later ch e r free =
    (ground (arith, Reach-Notified r), try_enter_free class_legacy later _ free)
