-- ===== src/Tests/Subpools.antt =====
-- Runs of the subpool coordinator.
use lightchain_worker.Base.{◌<◌, ◌≡◌, refl, true, false, some, [], ◌∷◌, pos, add_u64}
use lightchain_worker.Chain.Subpool.{
  class_blob, class_legacy, InflightEntry, SubpoolCoordinator, new_subpool_coordinator,
  BroadcastToken, admitted, waiting, try_enter, registered, done, entering, settling, Reach, here,
  next,
}
use lightchain_worker.Chain.Subpool.Exclusion.{IsExclusive, never_both_classes}
use lightchain_worker.Chain.Subpool.Wakeup.{no_lost_wakeup}

abbrev entry : InflightEntry
entry = record { id = 1; class = class_legacy; hash = 0; entered_at = pos 10 }

abbrev token : BroadcastToken
token = record { entry_id = 1; class = class_legacy; settled = false }

-- One legacy broadcast is in flight.
abbrev busy : SubpoolCoordinator
busy = record {
  max_token_lifetime = pos 5;
  blob = [];
  legacy = entry ∷ [];
  notify = 0;
  next_id = 1;
  orphan_count = pos 0;
}

busy_reached : Reach (new_subpool_coordinator (pos 5)) busy
unfolding new_subpool_coordinator try_enter add_u64
busy_reached =
    next here (entering (new_subpool_coordinator (pos 5)) busy class_legacy (pos 10) token refl)

blob_waits : try_enter class_blob (pos 11) busy ≡ waiting 0
unfolding try_enter
blob_waits = refl

never_both_classes_example : IsExclusive busy
never_both_classes_example = never_both_classes (pos 5) busy_reached

-- The legacy broadcast is settled, and the blob broadcast that waits is woken and enters.
abbrev free : SubpoolCoordinator
free = (done (some token) busy).1

no_lost_wakeup_example :
    (0 < free.notify)
    × ((t : BroadcastToken) × (e : SubpoolCoordinator) × (try_enter class_blob (pos 12) free
          ≡ admitted t e))
no_lost_wakeup_example =
    no_lost_wakeup class_blob (pos 11) (pos 12) 0 blob_waits
      (next here (settling busy (some token))) (unfold done in refl)

-- A hash is kept on its own entry, and not once the token is settled.
registered_test :
    (registered 42 (some token) busy ≡ record busy { legacy = record entry { hash = 42 } ∷ [] })
    × (registered 42 (some (record token { settled = true })) busy ≡ busy)
unfolding registered
registered_test = (refl, refl)
