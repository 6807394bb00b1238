-- ===== src/Tests/Nonces.antt =====
-- Runs of the nonce manager, the stuck-nonce tracker and the classification of send errors.
use lightchain_worker.Base.{
  ◌-ℤ◌, ◌+ℤ◌, wrap, add_u64, ℕ, ◌≡◌, refl, ◌⊎◌, inl, true, false, none, some, List, [], ◌∷◌, arith,
  Result, ok, pos, negsuc, mem, add_i64,
}
use lightchain_worker.Base.Bytes.{contains, Bytes, codes}
use lightchain_worker.Chain.Nonce.{
  NonceManager, new_nonce_manager, next_nonce, release_nonce, reset_nonce,
}
use lightchain_worker.Chain.Nonce.Leases.{Distinct, System, start, lease, Reach, here, next}
use lightchain_worker.Chain.Nonce.Safety.{next_nonce_fresh}
use lightchain_worker.Chain.StuckNonce.{
  put, StuckNonceTracker, new_stuck_nonce_tracker, record_nonce, hits_at, last_nonce,
  bump_attempts_used_for, increment_bump_attempts_for, clear, size, reap_stale_locked,
}
use lightchain_worker.Chain.StuckNonce.Counts.{Rejection, record_all, hits_at-record_all}
use lightchain_worker.Chain.SendErrors.{
  SendError, is_already_reserved_error, is_nonce_desync_error, should_reset_nonce_on_send_error,
  wrapped, should_reset-wrapped, already_reserved_substr,
}

-- The chain's transaction count is `n`.
abbrev chain_at : ℕ → ℕ → Result ℕ ℕ
chain_at n account = ok n

-- The manager of account 7 with so many leases out.
abbrev managed : (pending outstanding : ℕ) → NonceManager
managed pending outstanding = record {
  account = 7;
  pending_nonce = pending;
  initialized = true;
  outstanding = pos outstanding;
  reset_pending = false;
}

abbrev one_held : System
one_held = record { manager = managed 6 1; held = 5 ∷ [] }

abbrev two_held : System
two_held = record { manager = managed 7 2; held = 6 ∷ 5 ∷ [] }

one_held_reached : Reach ℕ (start 7) one_held
unfolding start new_nonce_manager next_nonce add_u64 add_i64 wrap ◌+ℤ◌
one_held_reached =
    next here (lease (start 7) (chain_at 5) 5 (managed 6 1) refl (omega arith) (omega arith))

two_held_reached : Reach ℕ (start 7) two_held
unfolding next_nonce add_u64 add_i64 wrap ◌+ℤ◌
two_held_reached =
    next one_held_reached
      (lease one_held (chain_at 0) 6 (managed 7 2) refl (omega arith) (omega arith))

third : next_nonce (chain_at 0) (managed 7 2) ≡ (ok 7, managed 8 3)
unfolding next_nonce add_u64 add_i64 wrap ◌+ℤ◌
third = refl

next_nonce_fresh_example : Distinct (6 ∷ 5 ∷ []) × (mem 7 (6 ∷ 5 ∷ []) ≡ false)
next_nonce_fresh_example = next_nonce_fresh 7 two_held_reached (chain_at 0) 7 (managed 8 3) third

-- The nonce 5 comes back unsent, behind it 6 was leased.
abbrev gap_left : System
gap_left = record { manager = release_nonce 5 false (managed 7 2); held = 6 ∷ [] }

abbrev all_back : System
all_back = record { manager = release_nonce 6 true gap_left.manager; held = [] }

reset_test : (reset_nonce (managed 7 1)).reset_pending ≡ true
unfolding reset_nonce
reset_test = refl

abbrev rejections : List Rejection
rejections =
    record { nonce = 3; reaped_at = pos 1; seen_at = pos 2 }
    ∷ record { nonce = 4; reaped_at = pos 3; seen_at = pos 4 }
    ∷ record { nonce = 3; reaped_at = pos 5; seen_at = pos 6 }
    ∷ []

hits_at-record_all_example : hits_at 3 (record_all rejections new_stuck_nonce_tracker) ≡ pos 2
hits_at-record_all_example =
    hits_at-record_all (pos 0) 3 rejections (unfold ◌-ℤ◌ in ground arith) (omega arith)

abbrev tracked : StuckNonceTracker
tracked = record_all rejections new_stuck_nonce_tracker

-- The nonce of the latest rejection, and the clearing by a success.
last_nonce_test :
    (last_nonce tracked ≡ some 3)
    × (size tracked ≡ 2)
    × (size (clear tracked) ≡ 0)
    × (bump_attempts_used_for 3 (clear (increment_bump_attempts_for 3 tracked)) ≡ pos 0)
unfolding last_nonce size clear record_all record_nonce new_stuck_nonce_tracker
    bump_attempts_used_for reap_stale_locked put ◌-ℤ◌
last_nonce_test = (refl, refl, refl, refl)

abbrev reserved : SendError
reserved = record { message = already_reserved_substr; rpc_code = some (negsuc 32601) }

abbrev send_prefix : Bytes
send_prefix = codes "send: "

should_reset-wrapped_example :
    (is_nonce_desync_error (some (wrapped send_prefix [] none reserved)) ≡ true)
    × (should_reset_nonce_on_send_error (some (wrapped send_prefix [] none reserved)) ≡ true)
    × ((is_already_reserved_error (some reserved) ≡ false)
        ⊎ (is_already_reserved_error (some (wrapped send_prefix [] none reserved)) ≡ true))
unfolding contains
should_reset-wrapped_example =
    should_reset-wrapped send_prefix [] none reserved
      (inl (unfold is_already_reserved_error in refl))
