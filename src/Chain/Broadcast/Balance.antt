-- ===== src/Chain/Broadcast/Balance.antt =====
-- A sender gives back what it takes.
use lightchain_worker.Base.{
  ℕ, suc, ◌<◌, refl, subst, inl, inr, Result, ok, err, ℤ, i64_half, Result-cases,
}
use lightchain_worker.Chain.Subpool.{SubpoolCoordinator, class_legacy, BroadcastToken, try_enter}
use lightchain_worker.Chain.Broadcast.{
  Sender, Tx, Node, Mined, unmined, reverted, succeeded, BroadcastError, ClientConfig, PendingTx,
  hand_over_slot, broadcast_prepared_tx, settle_mined, await_mined, submit_prepared_tx,
}
use lightchain_worker.Chain.Broadcast.Leases.{Out, Holds, reset_nonce-Out, send_in_slot-Holds}
use lightchain_worker.Chain.Broadcast.Slots.{
  IdsAreFresh, SameEntries, Admitted, Carrying, try_enter-Admitted, registered-Carrying,
  done-Carrying, Entered-cases,
}

-- The slot is released, or owned by the transaction on the wire.
abbrev pub Handed :
    {X : Type 0}
    → ℤ
    → SubpoolCoordinator
    → Result (BroadcastError X) PendingTx
    → SubpoolCoordinator
    → Type 0
Handed now c (err e) d = SameEntries c d
Handed now c (ok p) d = Carrying class_legacy now p.tx.hash c p.token d

module _ {X W : Type 0} (node : Node X W) where
  hand_over_slot-Handed :
      (now : ℤ) (c d : SubpoolCoordinator) (t : BroadcastToken) (k : ℕ)
      (r : Result (BroadcastError X) Tx) (s : Sender W)
      → IdsAreFresh c
      → Admitted class_legacy now c t d
      → Holds k d s
      → let (p, s') = hand_over_slot node t r s in Out k s'.nonces × Handed now c p s'.slots
  unfolding hand_over_slot
  hand_over_slot-Handed now c d t k (err e) s f a (h, q) =
      (h, rw q (done-Carrying class_legacy now 0 c d t f a))
  hand_over_slot-Handed now c d t k (ok tx) s f a (h, q) =
      (h, rw q (registered-Carrying class_legacy now tx.hash c d t f a))

  -- A broadcast gives back every nonce that it leases, on every path. If it fails, it has given
  -- back its slot too: the same broadcasts are in flight as before. If not, the slot is the new
  -- transaction's: one legacy entry with its hash and its token's id is in flight besides.
  pub broadcast_prepared_tx-Handed :
      (cfg : ClientConfig) (k : ℕ) (s : Sender W)
      → suc (suc k) < i64_half
      → Out k s.nonces
      → IdsAreFresh s.slots
      → let (p, s') = broadcast_prepared_tx node cfg s in
        Out k s'.nonces × Handed (node.now (node.suggest_gas_price s.node).1) s.slots p s'.slots
  unfolding broadcast_prepared_tx
  broadcast_prepared_tx-Handed cfg k s few h f =
      let w = (node.suggest_gas_price s.node).1 in
      elim (Result-cases (node.suggest_gas_price s.node).0) [
        | inr (e, failed) ↦ rw (failed, broadcast_prepared_tx) (h, (refl, refl))
        | inl (price, known) ↦ elim (Entered-cases (try_enter class_legacy (node.now w) s.slots)) [
          | inr (ch, full) ↦
              rw (known, broadcast_prepared_tx) (rw (full, broadcast_prepared_tx) (h, (refl, refl)))
          | inl (t, d, entered) ↦
              let a = try_enter-Admitted class_legacy (node.now w) s.slots d t f entered in
              rw (known, broadcast_prepared_tx)
                (rw (entered, broadcast_prepared_tx)
                  (hand_over_slot-Handed (node.now w) s.slots d t k _ _ f a (
                    send_in_slot-Holds node d cfg price k (record s { node = w; slots = d }) few
                      (h, refl))))
        ]
      ]

  settle_mined-Holds :
      (tx : Tx) (m : Mined X) (c : SubpoolCoordinator) (k : ℕ) (s : Sender W)
      → Holds k c s
      → Holds k c (settle_mined node tx m s).1
  unfolding settle_mined
  settle_mined-Holds tx (unmined e) c k s (h, q) = (reset_nonce-Out k s.nonces h, q)
  settle_mined-Holds tx reverted c k s h = h
  settle_mined-Holds tx succeeded c k s h = h

  await_mined-SameEntries :
      (p : PendingTx) (now : ℤ) (c : SubpoolCoordinator) (k : ℕ) (s : Sender W)
      → IdsAreFresh c
      → Out k s.nonces
      → Carrying class_legacy now p.tx.hash c p.token s.slots
      → let s' = (await_mined node p s).1 in Out k s'.nonces × SameEntries c s'.slots
  unfolding await_mined
  await_mined-SameEntries p now c k s f out carried =
      let mined = node.wait_mined p.tx s.node in
      let (out', kept) =
        settle_mined-Holds p.tx mined.0 s.slots k (record s { node = mined.1 }) (out, refl) in
      (out', rw kept (done-Carrying class_legacy now p.tx.hash c s.slots p.token f carried))

  -- A transaction that is sent and awaited leaves nothing behind, however it ends: as many leases
  -- are out as before, and the same broadcasts are in flight.
  pub submit_prepared_tx-SameEntries :
      (cfg : ClientConfig) (k : ℕ) (s : Sender W)
      → suc (suc k) < i64_half
      → Out k s.nonces
      → IdsAreFresh s.slots
      → let s' = (submit_prepared_tx node cfg s).1 in Out k s'.nonces × SameEntries s.slots s'.slots
  unfolding submit_prepared_tx
  submit_prepared_tx-SameEntries cfg k s few h f =
      let (sent, back) = broadcast_prepared_tx-Handed cfg k s few h f in
      let now = node.now (node.suggest_gas_price s.node).1 in
      let s' = (broadcast_prepared_tx node cfg s).1 in
      elim (Result-cases (broadcast_prepared_tx node cfg s).0) [
        | inr (e, failed) ↦
            rw (failed, submit_prepared_tx)
              (sent, subst (λ r. Handed now s.slots r s'.slots) failed back)
        | inl (p, pending) ↦
            rw (pending, submit_prepared_tx)
              (await_mined-SameEntries p now s.slots k s' f sent
                (subst (λ r. Handed now s.slots r s'.slots) pending back))
      ]
