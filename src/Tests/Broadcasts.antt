-- ===== src/Tests/Broadcasts.antt =====
-- Runs of the senders of transactions.
use lightchain_worker.Base.{
  add_u64, ◌-ℤ◌, ◌+ℤ◌, wrap, add_i64, ℕ, suc, ◌+◌, ◌*◌, ◌≤◌, ◌≡◌, refl, ◌⊎◌, none, some, List, [],
  ◌∷◌, arith, true, false, ok, pos, ◌≤ℤ◌, if◌then◌else◌, ◌==◌,
}
use lightchain_worker.Base.Bytes.{codes, contains}
use lightchain_worker.Chain.Nonce.{reset_nonce, new_nonce_manager, next_nonce}
use lightchain_worker.Chain.StuckNonce.{
  new_stuck_nonce_tracker, bump_attempts_used_for, find, put, reap_stale_locked, record_nonce,
  increment_bump_attempts_for,
}
use lightchain_worker.Chain.Subpool.{new_subpool_coordinator}
use lightchain_worker.Chain.SendErrors.{
  SendError, is_already_reserved_error, should_reset_nonce_on_send_error, is_nonce_desync_error,
  is_rejection_code,
}
use lightchain_worker.Chain.Broadcast.{
  resend, resend_leased, Sender, Node, ClientConfig, TransactOpts, succeeded, submit_prepared_tx,
  resend_with_fresh_nonce,
}
use lightchain_worker.Chain.Broadcast.Leases.{Out}
use lightchain_worker.Chain.Broadcast.Slots.{IdsAreFresh, SameEntries}
use lightchain_worker.Chain.Broadcast.Balance.{submit_prepared_tx-SameEntries}
use lightchain_worker.Chain.Broadcast.Resend.{resend_asks_nothing}
use lightchain_worker.Blob.{
  handle_send_error, maybe_submit_replacement_blob_tx, submit_replacement_blob_tx,
  build_replacement, send_replacement, sign_blob_tx, encode_blob_tx_payload, Backend, BlobTxPayload,
  BlobTxSubmitter, default_blob_fee_cap_wei, replacement_tx, submit_blob_tx,
}
use lightchain_worker.Blob.Fees.{Doubles, replacement_fees}
use lightchain_worker.Blob.Replacement.{handle_all, replacements_are_bounded}
use lightchain_worker.Blob.Balance.{submit_blob_tx-SameEntries}

abbrev stale : SendError
stale = record { message = codes "nonce too low"; rpc_code = none }

-- A node that refuses the first transaction as stale; its state counts the transactions sent.
abbrev node : Node ℕ ℕ
node = record {
  suggest_gas_price = λ w. (ok 100, w);
  pending_nonce_at = λ w account. ok 7;
  build = λ opts w. (ok (record { nonce = opts.nonce; hash = 1000 + opts.nonce }), w);
  send_transaction = λ tx w. (if w == 0 then some stale else none, suc w);
  wait_mined = λ tx w. (succeeded, w);
  is_pause_revert = λ tx w. false;
  is_done = λ w. false;
  now = λ w. pos 50;
}

abbrev config : ClientConfig
config = record { gas_price_mul_bps = 12000; has_chain_id = true }

abbrev sender : Sender ℕ
sender = record {
  nonces = new_nonce_manager 5;
  slots = new_subpool_coordinator (pos 900);
  tracker = new_stuck_nonce_tracker;
  node = 0;
}

none-Out : Out 0 sender.nonces
unfolding new_nonce_manager
none-Out = refl

ids_fresh : IdsAreFresh sender.slots
unfolding new_subpool_coordinator
ids_fresh = (tt, tt, omega arith)

submit_prepared_tx-SameEntries_example :
    let s = (submit_prepared_tx node config sender).1 in
    Out 0 s.nonces × SameEntries sender.slots s.slots
submit_prepared_tx-SameEntries_example =
    submit_prepared_tx-SameEntries node config 0 sender (omega arith) none-Out ids_fresh

abbrev opts : TransactOpts
opts = record { nonce = 7; gas_price = 120 }

leases_seven : (next_nonce (node.pending_nonce_at 0) sender.nonces).0 ≡ ok 7
unfolding next_nonce new_nonce_manager
leases_seven = refl

-- The chain would have answered 40.
resend_asks_nothing_example :
    let t = record sender { nonces = (next_nonce (node.pending_nonce_at 0) sender.nonces).1 } in
    resend_with_fresh_nonce (record node { pending_nonce_at = λ w account. ok 40 }) opts 7 t
    ≡ resend_with_fresh_nonce node opts 7 t
resend_asks_nothing_example =
    resend_asks_nothing node (λ w account. ok 40) opts sender 7 0 (omega arith) none-Out
      leases_seven

abbrev reserved : SendError
reserved = record { message = codes "address already reserved"; rpc_code = none }

-- A node that refuses every blob transaction.
abbrev backend : Backend ℕ ℕ ℕ
backend = record {
  encode_blob_data = λ bytes. ok 1;
  blob_to_commitment = λ b. ok 2;
  compute_blob_proof = λ b c. ok 3;
  versioned_hash_of = λ c. 4;
  signed_hash = λ tx. ok (500 + tx.gas_tip_cap);
  suggest_gas_tip_cap = λ w. (ok 10, w);
  send_transaction = λ tx w. (some reserved, suc w);
  wait_mined = λ tx w. (succeeded, w);
  pending_nonce_at = λ w account. ok 7;
  is_done = λ w. false;
  now = λ w. pos 50;
}

abbrev submitter : BlobTxSubmitter
submitter = record {
  max_gas_price = 300;
  stuck_cfg = record { threshold = pos 2; max_bumps = pos 3; auto_replace = true };
}

submit_blob_tx-SameEntries_example :
    let s = (submit_blob_tx backend submitter (1 ∷ (2 ∷ [])) sender).1 in
    Out 0 s.nonces × SameEntries sender.slots s.slots
submit_blob_tx-SameEntries_example =
    submit_blob_tx-SameEntries backend submitter (1 ∷ (2 ∷ [])) 0 sender (omega arith) none-Out
      ids_fresh

abbrev rejections : List SendError
rejections = reserved ∷ (reserved ∷ (stale ∷ (reserved ∷ [])))

not_bumped : bump_attempts_used_for 7 sender.tracker ≡ pos 0
unfolding bump_attempts_used_for new_stuck_nonce_tracker
not_bumped = refl

replacements_are_bounded_example :
    let s = handle_all backend (λ w. w) (λ w. refl) (λ t w. refl) submitter 7 rejections sender in
    (u : ℕ) × (s.node ≡ 0 + u)
    × (bump_attempts_used_for 7 s.tracker ≡ pos u)
    × (u ≤ 8)
    × ((u ≡ 0) ⊎ (pos u ≤ℤ pos 3))
replacements_are_bounded_example =
    replacements_are_bounded backend (λ w. w) (λ w. refl) (λ t w. refl) submitter 7 rejections
      sender not_bumped

abbrev payload : BlobTxPayload ℕ
payload = record { blob = 1; commitment = 2; proof = 3; versioned_hash = 4 }

replacement_fees_example :
    let b = replacement_tx submitter payload 7 12 (pos 2) in
    Doubles (replacement_tx submitter payload 7 10 (pos 1)) b
    × (b.gas_tip_cap ≤ 256 * 12)
    × (b.gas_fee_cap ≤ 256 * 300)
    × (b.blob_fee_cap ≤ 256 * default_blob_fee_cap_wei)
replacement_fees_example =
    replacement_fees submitter payload payload 7 10 12 1 (omega arith) (omega arith)

-- The stale nonce is 7 and the chain answers 40, but the resend goes out at 8.
resend_test :
    let t = record sender {
      nonces = (next_nonce (node.pending_nonce_at 0) sender.nonces).1;
      node = 1;
    } in
    (resend_with_fresh_nonce (record node { pending_nonce_at = λ w account. ok 40 }) opts 7 t).0
    ≡ some (record { nonce = 8; hash = 1008 }, 8)
unfolding resend_with_fresh_nonce resend_leased next_nonce reset_nonce new_nonce_manager add_i64
    wrap ◌+ℤ◌ resend add_u64
resend_test = refl

-- One bump for each nonce, from the first failure on.
abbrev one_bump : BlobTxSubmitter
one_bump = record submitter {
  stuck_cfg = record { threshold = pos 1; max_bumps = pos 1; auto_replace = true };
}

abbrev failures_at : List ℕ → Sender ℕ → Sender ℕ
failures_at [] s = s
failures_at (n ∷ ns) s = failures_at ns (handle_send_error backend one_bump reserved n s)

-- Failures at the nonces 7, 8, 7, 8 and 7 send five replacements; at 7 alone, one.
bumps_test :
    ((failures_at (7 ∷ 8 ∷ 7 ∷ 8 ∷ 7 ∷ []) sender).node ≡ 5)
    × ((failures_at (7 ∷ 7 ∷ 7 ∷ []) sender).node ≡ 1)
unfolding handle_send_error maybe_submit_replacement_blob_tx submit_replacement_blob_tx
    build_replacement send_replacement sign_blob_tx encode_blob_tx_payload replacement_tx
    new_stuck_nonce_tracker find put reap_stale_locked record_nonce bump_attempts_used_for
    increment_bump_attempts_for is_already_reserved_error should_reset_nonce_on_send_error
    is_nonce_desync_error is_rejection_code contains add_i64 wrap ◌+ℤ◌ reset_nonce new_nonce_manager
    new_subpool_coordinator ◌-ℤ◌
bumps_test = (refl, refl)
