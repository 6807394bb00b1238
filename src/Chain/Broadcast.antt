-- ===== src/Chain/Broadcast.antt =====
-- internal/chain/client.go: how a transaction that is not a blob transaction is sent, with the
-- nonce manager, the subpool coordinator and the stuck-nonce tracker that all senders of one key
-- share. A function is one sender's moves with no other sender between them; what the node does
-- meanwhile is in the state `W` of the node. Contexts are the question whether one has ended.
pub mod Leases
pub mod Slots
pub mod Balance
pub mod Resend
use lightchain_worker.Base.{
  ℕ, ◌*◌, ◌/◌, Bool, true, false, Option, none, some, List, Result, ok, err, ℤ,
}
use lightchain_worker.Chain.Nonce.{NonceManager, next_nonce, release_nonce, reset_nonce}
use lightchain_worker.Chain.StuckNonce.{StuckNonceTracker, record_nonce, clear}
use lightchain_worker.Chain.Subpool.{
  SubpoolCoordinator, BroadcastToken, admitted, waiting, class_legacy, try_enter, registered, done,
}
use lightchain_worker.Chain.SendErrors.{
  SendError, is_already_reserved_error, is_nonce_desync_error, should_reset_nonce_on_send_error,
}

-- What all senders of a key share, and the node.
pub record Sender (W : Type 0) : Type 0 where
  pub nonces : NonceManager
  pub slots : SubpoolCoordinator
  pub tracker : StuckNonceTracker
  pub node : W

-- A signed transaction: its nonce and its hash.
pub record Tx : Type 0 where
  pub nonce : ℕ  -- uint64
  pub hash : ℕ

-- The fields of `bind.TransactOpts` that are set here.
pub record TransactOpts : Type 0 where
  pub nonce : ℕ
  pub gas_price : ℕ  -- big.Int

-- What `bind.WaitMined` comes to: an error, or a receipt and its status.
pub data Mined (X : Type 0) : Type 0 where
  unmined : X → Mined X
  reverted succeeded : Mined X

-- The node and the contract bindings, which answer errors `X`. `build` makes and signs the
-- transaction of a call. `is_pause_revert` is the replay of a reverted one.
pub record Node (X W : Type 0) : Type 0 where
  pub suggest_gas_price : W → Result X ℕ × W
  pub pending_nonce_at : W → ℕ → Result X ℕ
  pub build : TransactOpts → W → Result X Tx × W
  pub send_transaction : Tx → W → Option SendError × W
  pub wait_mined : Tx → W → Mined X × W
  pub is_pause_revert : Tx → W → Bool
  pub is_done : W → Bool
  pub now : W → ℤ

pub data BroadcastError (X : Type 0) : Type 0 where
  gas_price_failed nonce_failed build_failed : X → BroadcastError X
  slot_wait_failed transactor_failed context_done : BroadcastError X
  send_failed : SendError → BroadcastError X
  wait_failed : X → BroadcastError X
  tx_reverted contract_paused : BroadcastError X

-- The fields of `ChainClient` that the broadcast reads. A chain id that is nil makes no transactor.
pub record ClientConfig : Type 0 where
  pub gas_price_mul_bps : ℕ
  pub has_chain_id : Bool

-- A transaction on the wire, with the slot that it owns.
pub record PendingTx : Type 0 where
  pub tx : Tx
  pub token : BroadcastToken

-- What a leased nonce came to: the result, and with which nonce and flag the lease is given back.
pub record Leased (X : Type 0) : Type 0 where
  pub result : Result (BroadcastError X) Tx
  pub nonce : ℕ
  pub consumed : Bool

unfoldable pub adjust_gas_price : ClientConfig → ℕ → ℕ
adjust_gas_price cfg base_price = base_price * cfg.gas_price_mul_bps / 10000

abbrev pub failed_lease : {X : Type 0} → BroadcastError X → ℕ → Leased X
failed_lease e nonce = record { result = err e; nonce = nonce; consumed = false }

module _ {X W : Type 0} (node : Node X W) where
  abbrev pub release_lease : ℕ → Bool → Sender W → Sender W
  release_lease nonce consumed s = record s { nonces = release_nonce nonce consumed s.nonces }

  -- `resendWithFreshNonce`, from the send on.
  unfoldable pub resend : TransactOpts → (stale fresh : ℕ) → Sender W → Option Tx × Sender W
  resend opts stale fresh s =
      let (built, w) = node.build (record opts { nonce = fresh }) s.node in
      elim built [
        | err e ↦ (none, release_lease fresh false (record s { node = w }))
        | ok tx ↦
            let (failure, w') = node.send_transaction tx w in
            elim failure [
              | some e ↦ (none, release_lease fresh false (record s { node = w' }))
              | none ↦ (some tx, release_lease stale false (record s { node = w' }))
            ]
      ]

  -- The new transaction and its nonce, which is then the caller's lease.
  unfoldable pub resend_leased :
      TransactOpts → ℕ → Sender W → Result X ℕ × NonceManager → Option (Tx × ℕ) × Sender W
  resend_leased opts stale s (answer, nm) = elim answer [
    | err e ↦ (none, record s { nonces = nm })
    | ok fresh ↦
        let (sent, s') = resend opts stale fresh (record s { nonces = nm }) in
        elim sent [ none ↦ (none, s') | some tx ↦ (some (tx, fresh), s') ]
  ]

  unfoldable pub resend_with_fresh_nonce : TransactOpts → ℕ → Sender W → Option (Tx × ℕ) × Sender W
  resend_with_fresh_nonce opts stale s =
      resend_leased opts stale s (next_nonce (node.pending_nonce_at s.node) (reset_nonce s.nonces))

  -- A send that failed for good.
  unfoldable pub reject : SendError → Tx → ℕ → Sender W → Leased X × Sender W
  reject e tx nonce s =
      let tracked : StuckNonceTracker = elim (is_already_reserved_error (some e)) [
        | true ↦ (record_nonce tx.nonce (node.now s.node) (node.now s.node) s.tracker).0
        | false ↦ s.tracker
      ] in
      elim (should_reset_nonce_on_send_error (some e)) [
        | true ↦ (
          failed_lease (send_failed e) nonce,
          record s { nonces = reset_nonce s.nonces; tracker = tracked },
        )
        | false ↦ (
          record { result = err (send_failed e); nonce = nonce; consumed = true },
          record s { tracker = tracked },
        )
      ]

  -- A nonce desync is resent once.
  unfoldable pub after_send :
      TransactOpts → Tx → ℕ → Option SendError → Sender W → Leased X × Sender W
  after_send opts tx nonce none s = (record { result = ok tx; nonce = nonce; consumed = true }, s)
  after_send opts tx nonce (some e) s = elim (is_nonce_desync_error (some e)) [
    | false ↦ reject e tx nonce s
    | true ↦
        let (resent, s') = resend_with_fresh_nonce opts nonce s in
        elim resent [
          | none ↦ reject e tx nonce s'
          | some (tx', fresh) ↦ (record { result = ok tx'; nonce = fresh; consumed = true }, s')
        ]
  ]

  -- What is done with a leased nonce.
  unfoldable pub send_leased : ClientConfig → ℕ → ℕ → Sender W → Leased X × Sender W
  send_leased cfg gas_price nonce s =
      let opts : TransactOpts = record {
        nonce = nonce;
        gas_price = adjust_gas_price cfg gas_price;
      } in
      let (built, w) = node.build opts s.node in
      elim built [
        | err e ↦ (failed_lease (build_failed e) nonce, record s { node = w })
        | ok tx ↦ elim (node.is_done w) [
          | true ↦ (failed_lease context_done nonce, record s { node = w })
          | false ↦
              let (failure, w') = node.send_transaction tx w in
              after_send opts tx nonce failure (record s { node = w' })
        ]
      ]

  -- What is done with the slot: a nonce is leased, and given back on every path.
  unfoldable pub send_in_slot :
      ClientConfig → ℕ → Sender W → Result (BroadcastError X) Tx × Sender W
  send_in_slot cfg gas_price s = elim cfg.has_chain_id [
    | false ↦ (err transactor_failed, s)
    | true ↦
        let (answer, nm) = next_nonce (node.pending_nonce_at s.node) s.nonces in
        elim answer [
          | err e ↦ (err (nonce_failed e), record s { nonces = nm })
          | ok nonce ↦
              let (l, s') = send_leased cfg gas_price nonce (record s { nonces = nm }) in
              (l.result, release_lease l.nonce l.consumed s')
        ]
  ]

  -- The slot goes to the pending transaction, or is abandoned.
  unfoldable pub hand_over_slot :
      BroadcastToken
      → Result (BroadcastError X) Tx
      → Sender W
      → Result (BroadcastError X) PendingTx × Sender W
  hand_over_slot token (ok tx) s = (
    ok (record { tx = tx; token = token }),
    record s { slots = registered tx.hash (some token) s.slots },
  )
  hand_over_slot token (err e) s = (err e, record s { slots = (done (some token) s.slots).1 })

  -- `broadcastPreparedTx`. A caller that has to wait for its slot either is woken, and then starts
  -- with `try_enter` in the state that it finds, or its context ends, which is what is meant here.
  unfoldable pub broadcast_prepared_tx :
      ClientConfig → Sender W → Result (BroadcastError X) PendingTx × Sender W
  broadcast_prepared_tx cfg s =
      let (answer, w) = node.suggest_gas_price s.node in
      elim answer [
        | err e ↦ (err (gas_price_failed e), record s { node = w })
        | ok gas_price ↦ elim (try_enter class_legacy (node.now w) s.slots) [
          | waiting ch ↦ (err slot_wait_failed, record s { node = w })
          | admitted token slots ↦
              let (r, s') = send_in_slot cfg gas_price (record s { node = w; slots = slots }) in
              hand_over_slot token r s'
        ]
      ]

  -- `awaitMined`, before the slot is released.
  unfoldable pub settle_mined :
      Tx → Mined X → Sender W → Result (BroadcastError X) (Unit {0}) × Sender W
  settle_mined tx (unmined e) s = (err (wait_failed e), record s { nonces = reset_nonce s.nonces })
  settle_mined tx reverted s = (
    elim (node.is_pause_revert tx s.node) [ true ↦ err contract_paused | false ↦ err tx_reverted ],
    s,
  )
  settle_mined tx succeeded s = (ok tt, record s { tracker = clear s.tracker })

  unfoldable pub await_mined :
      PendingTx → Sender W → Result (BroadcastError X) (Unit {0}) × Sender W
  await_mined p s =
      let (mined, w) = node.wait_mined p.tx s.node in
      let (r, s') = settle_mined p.tx mined (record s { node = w }) in
      (r, record s' { slots = (done (some p.token) s'.slots).1 })

  unfoldable pub submit_prepared_tx :
      ClientConfig → Sender W → Result (BroadcastError X) (Unit {0}) × Sender W
  submit_prepared_tx cfg s =
      let (r, s') = broadcast_prepared_tx cfg s in
      elim r [ err e ↦ (err e, s') | ok pending ↦ await_mined pending s' ]
