-- ===== src/Blob/Balance.antt =====
-- A blob transaction gives back the nonce and the slot that it takes.
use lightchain_worker.Base.{
  ℕ, suc, ◌<◌, refl, inl, inr, true, false, some, List, arith, ℤ, pos, add_i64, i64_half,
  Result-cases, Option-cases, Bool-cases,
}
use lightchain_worker.Chain.Nonce.{next_nonce, release_nonce}
use lightchain_worker.Chain.StuckNonce.{bump_attempts_used_for}
use lightchain_worker.Chain.Subpool.{
  SubpoolCoordinator, class_blob, BroadcastToken, try_enter, registered,
}
use lightchain_worker.Chain.SendErrors.{SendError, is_already_reserved_error}
use lightchain_worker.Chain.Broadcast.{Sender, Mined, unmined, reverted, succeeded}
use lightchain_worker.Chain.Broadcast.Leases.{
  Out, Holds, reset_nonce-Out, release_nonce-Out, next_nonce-Out, next_nonce_refused-Out,
}
use lightchain_worker.Chain.Broadcast.Slots.{
  IdsAreFresh, SameEntries, Admitted, Carrying, try_enter-Admitted, registered-Carrying,
  done-Carrying, Entered-cases,
}
use lightchain_worker.Blob.{
  Backend, BlobTx, BlobTxPayload, BlobTxSubmitter, SignedTx, replacement_tx, send_replacement,
  sign_blob_tx, build_replacement, encode_blob_tx_payload, replacement_blob_payload,
  submit_replacement_blob_tx, maybe_submit_replacement_blob_tx, handle_send_error, settle_blob,
  submit_and_wait, send_with_nonce, submit_in_slot, submit_blob_tx, default_blob_fee_cap_wei,
}

module _ {X B W : Type 0} (backend : Backend X B W) where
  send_replacement-Holds :
      (signed : SignedTx B) (nonce k : ℕ) (c : SubpoolCoordinator) (s : Sender W)
      → Holds k c s
      → Holds k c (send_replacement backend signed nonce s).1
  unfolding send_replacement
  send_replacement-Holds signed nonce k c s h =
      elim (Option-cases (backend.send_transaction signed s.node).0) [
        | inl sent ↦ rw (sent, send_replacement) h
        | inr (e, failed) ↦ rw (failed, send_replacement) h
      ]

  build_replacement-Holds :
      (sub : BlobTxSubmitter) (nonce : ℕ) (bump : ℤ) (payload : BlobTxPayload B) (k : ℕ)
      (c : SubpoolCoordinator) (s : Sender W)
      → Holds k c s
      → Holds k c (build_replacement backend sub nonce bump payload s).1
  unfolding build_replacement
  build_replacement-Holds sub nonce bump payload k c s h =
      let w = (backend.suggest_gas_tip_cap s.node).1 in
      elim (Result-cases (backend.suggest_gas_tip_cap s.node).0) [
        | inr (e, failed) ↦ rw (failed, build_replacement) h
        | inl (tip, told) ↦
            elim (Result-cases (sign_blob_tx backend (replacement_tx sub payload nonce tip bump))) [
              | inr (e, unsigned) ↦
                  rw (told, build_replacement) (rw (unsigned, build_replacement) h)
              | inl (signed, made) ↦
                  let kept = send_replacement-Holds signed nonce k c (record s { node = w }) h in
                  rw (told, build_replacement) (rw (made, build_replacement) (ground (arith, kept)))
            ]
      ]

  submit_replacement-Holds :
      (sub : BlobTxSubmitter) (nonce : ℕ) (bump : ℤ) (k : ℕ) (c : SubpoolCoordinator) (s : Sender W)
      → Holds k c s
      → Holds k c (submit_replacement_blob_tx backend sub nonce bump s).1
  unfolding submit_replacement_blob_tx
  submit_replacement-Holds sub nonce bump k c s h =
      elim (Result-cases (encode_blob_tx_payload backend replacement_blob_payload)) [
        | inr (e, failed) ↦ rw (failed, submit_replacement_blob_tx) (ground arith)
        | inl (payload, made) ↦
            rw (made, submit_replacement_blob_tx)
              (ground (arith, build_replacement-Holds sub nonce bump payload k c s h))
      ]

  maybe_submit-Holds :
      (sub : BlobTxSubmitter) (nonce : ℕ) (hits : ℤ) (k : ℕ) (c : SubpoolCoordinator) (s : Sender W)
      → Holds k c s
      → Holds k c (maybe_submit_replacement_blob_tx backend sub nonce hits s)
  unfolding maybe_submit_replacement_blob_tx
  maybe_submit-Holds sub nonce hits k c s h =
      let bump = add_i64 (bump_attempts_used_for nonce s.tracker) (pos 1) in
      ground (arith, submit_replacement-Holds sub nonce bump k c s h)

  handle_send_error-Holds :
      (sub : BlobTxSubmitter) (e : SendError) (nonce k : ℕ) (c : SubpoolCoordinator) (s : Sender W)
      → Holds k c s
      → Holds k c (handle_send_error backend sub e nonce s)
  unfolding handle_send_error
  handle_send_error-Holds sub e nonce k c s (h, q) =
      elim (Bool-cases (is_already_reserved_error (some e))) [
        | inl stuck ↦
            rw (stuck, handle_send_error)
              (maybe_submit-Holds sub nonce _ k c _ (ground (arith, reset_nonce-Out k s.nonces h)))
        | inr other ↦ rw (other, handle_send_error) (ground (arith, reset_nonce-Out k s.nonces h))
      ]

  settle_blob-Holds :
      (m : Mined X) (k : ℕ) (c : SubpoolCoordinator) (s : Sender W)
      → Holds k c s
      → Holds k c (settle_blob backend m s).1
  unfolding settle_blob
  settle_blob-Holds (unmined e) k c s (h, q) = (reset_nonce-Out k s.nonces h, q)
  settle_blob-Holds reverted k c s h = h
  settle_blob-Holds succeeded k c s h = h

  -- So many leases are out, and the slot is the blob transaction's, whether it is sent or not.
  abbrev Owns : ℤ → SubpoolCoordinator → BroadcastToken → ℕ → Sender W → Type 0
  Owns now c t k s = Out k s.nonces × ((hash : ℕ) × Carrying class_blob now hash c t s.slots)

  module _ (sub : BlobTxSubmitter) (now : ℤ) (c : SubpoolCoordinator) (t : BroadcastToken)
      (f : IdsAreFresh c) where
    submit_and_wait-Owns :
        (signed : SignedTx B) (nonce k : ℕ) (s : Sender W)
        → Out k s.nonces
        → Admitted class_blob now c t s.slots
        → Owns now c t k (submit_and_wait backend sub signed t nonce s).1
    unfolding submit_and_wait
    submit_and_wait-Owns signed nonce k s h a =
        let w = (backend.send_transaction signed s.node).1 in
        elim (Option-cases (backend.send_transaction signed s.node).0) [
          | inr (e, failed) ↦
              let (out, same) =
                handle_send_error-Holds sub e nonce k s.slots (record s { node = w }) (h, refl) in
              rw (failed, submit_and_wait) (out, (0, rw same a))
          | inl sent ↦
              let (mined, w') = backend.wait_mined signed w in
              let slots = registered signed.hash (some t) s.slots in
              let (out, same) =
                settle_blob-Holds mined k slots (record s { slots = slots; node = w' }) (h, refl) in
              rw (sent, submit_and_wait)
                (
                  out,
                  (
                    signed.hash,
                    rw same (registered-Carrying class_blob now signed.hash c s.slots t f a),
                  ),
                )
        ]

    send_with_nonce-Owns :
        (payload : BlobTxPayload B) (tip nonce k : ℕ) (s : Sender W)
        → suc k < i64_half
        → Out (suc k) s.nonces
        → Admitted class_blob now c t s.slots
        → Owns now c t k (send_with_nonce backend sub payload tip t nonce s).1
    unfolding send_with_nonce
    send_with_nonce-Owns payload tip nonce k s few h a =
        let tx : BlobTx B = record {
          nonce = nonce;
          gas_tip_cap = tip;
          gas_fee_cap = sub.max_gas_price;
          blob_fee_cap = default_blob_fee_cap_wei;
          payload = payload;
        } in
        let unsent : Owns now c t k (record s { nonces = release_nonce nonce false s.nonces }) =
          (release_nonce-Out nonce k false s.nonces few h, (0, a)) in
        elim (Result-cases (sign_blob_tx backend tx)) [
          | inr (e, unsigned) ↦ rw (unsigned, send_with_nonce) unsent
          | inl (signed, made) ↦ elim (Bool-cases (backend.is_done s.node)) [
            | inl over ↦ rw (made, send_with_nonce) (rw (over, send_with_nonce) unsent)
            | inr live ↦
                let (out, owned) = submit_and_wait-Owns signed nonce (suc k) s h a in
                let back =
                  release_nonce-Out nonce k true
                    (submit_and_wait backend sub signed t nonce s).1.nonces few out in
                elim (Option-cases (submit_and_wait backend sub signed t nonce s).0) [
                  | inl fine ↦
                      rw (made, send_with_nonce)
                        (rw (live, send_with_nonce) (rw (fine, send_with_nonce) (back, owned)))
                  | inr (e, failed) ↦
                      rw (made, send_with_nonce)
                        (rw (live, send_with_nonce) (rw (failed, send_with_nonce) (back, owned)))
                ]
          ]
        ]

    submit_in_slot-Owns :
        (payload : BlobTxPayload B) (tip k : ℕ) (s : Sender W)
        → suc k < i64_half
        → Out k s.nonces
        → Admitted class_blob now c t s.slots
        → Owns now c t k (submit_in_slot backend sub payload tip t s).1
    unfolding submit_in_slot
    submit_in_slot-Owns payload tip k s few h a =
        let fetch = backend.pending_nonce_at s.node in
        elim (Bool-cases (backend.is_done s.node)) [
          | inl over ↦ rw (over, submit_in_slot) (h, (0, a))
          | inr live ↦ elim (Result-cases (next_nonce fetch s.nonces).0) [
            | inr (e, refused) ↦
                rw (live, submit_in_slot)
                  (rw (refused, submit_in_slot)
                    (next_nonce_refused-Out fetch s.nonces e k refused h, (0, a)))
            | inl (nonce, granted) ↦
                rw (live, submit_in_slot)
                  (rw (granted, submit_in_slot)
                    (send_with_nonce-Owns payload tip nonce k
                      (record s { nonces = (next_nonce fetch s.nonces).1 }) few
                      (next_nonce-Out fetch s.nonces nonce k few granted h) a))
          ]
        ]

  -- A blob submission leaves nothing behind, however it ends: as many leases are out as before,
  -- and the same broadcasts are in flight.
  pub submit_blob_tx-SameEntries :
      (sub : BlobTxSubmitter) (data_bytes : List ℕ) (k : ℕ) (s : Sender W)
      → suc k < i64_half
      → Out k s.nonces
      → IdsAreFresh s.slots
      → let s' = (submit_blob_tx backend sub data_bytes s).1 in
        Out k s'.nonces × SameEntries s.slots s'.slots
  unfolding submit_blob_tx
  submit_blob_tx-SameEntries sub data_bytes k s few h f =
      let w = (backend.suggest_gas_tip_cap s.node).1 in
      elim (Result-cases (encode_blob_tx_payload backend data_bytes)) [
        | inr (e, failed) ↦ rw (failed, submit_blob_tx) (h, (refl, refl))
        | inl (payload, made) ↦ elim (Result-cases (backend.suggest_gas_tip_cap s.node).0) [
          | inr (e, failed) ↦
              rw (made, submit_blob_tx) (rw (failed, submit_blob_tx) (h, (refl, refl)))
          | inl (tip, told) ↦ elim (Entered-cases (try_enter class_blob (backend.now w) s.slots)) [
            | inr (ch, full) ↦
                rw (made, submit_blob_tx)
                  (rw (told, submit_blob_tx) (rw (full, submit_blob_tx) (h, (refl, refl))))
            | inl (t, d, entered) ↦
                let u = record s { node = w; slots = d } in
                let (out, (hash, carried)) =
                  submit_in_slot-Owns sub (backend.now w) s.slots t f payload tip k u few h
                    (try_enter-Admitted class_blob (backend.now w) s.slots d t f entered) in
                rw (made, submit_blob_tx)
                  (rw (told, submit_blob_tx)
                    (rw (entered, submit_blob_tx)
                      (
                        out,
                        done-Carrying class_blob (backend.now w) hash s.slots
                            (submit_in_slot backend sub payload tip t u).1.slots t f carried,
                      )))
          ]
        ]
      ]
