-- ===== src/Chain/Broadcast/Leases.antt =====
-- A broadcast gives back the nonces that it leases.
use lightchain_worker.Base.{
  ℕ, suc, ◌<◌, ◌≡◌, inl, inr, Bool, false, Option, none, some, arith, Result, ok, err, pos,
  i64_half, Bool-cases, Option-cases, Result-cases,
}
use lightchain_worker.Chain.Nonce.{NonceManager, next_nonce, release_nonce, reset_nonce}
use lightchain_worker.Chain.Nonce.Invariant.{one_more, one_less}
use lightchain_worker.Chain.Subpool.{SubpoolCoordinator}
use lightchain_worker.Chain.SendErrors.{
  SendError, is_nonce_desync_error, should_reset_nonce_on_send_error,
}
use lightchain_worker.Chain.Broadcast.{
  Sender, Tx, TransactOpts, Node, ClientConfig, adjust_gas_price, resend, resend_leased,
  resend_with_fresh_nonce, reject, after_send, send_leased, send_in_slot,
}

-- So many leases are out.
abbrev pub Out : ℕ → NonceManager → Type 0
Out k nm = nm.outstanding ≡ pos k

pub release_nonce-Out :
    (n k : ℕ) (consumed : Bool) (nm : NonceManager)
    → suc k < i64_half
    → Out (suc k) nm
    → Out k (release_nonce n consumed nm)
unfolding release_nonce
release_nonce-Out n k consumed nm few h = ground (arith, one_less (suc k) few)

pub reset_nonce-Out : (k : ℕ) (nm : NonceManager) → Out k nm → Out k (reset_nonce nm)
unfolding reset_nonce
reset_nonce-Out k nm h = ground arith

pub next_nonce-Out {ℓ} :
    {E : Type ℓ} (fetch : ℕ → Result E ℕ) (nm : NonceManager) (n k : ℕ)
    → suc k < i64_half
    → (next_nonce fetch nm).0 ≡ ok n
    → Out k nm
    → Out (suc k) (next_nonce fetch nm).1
unfolding next_nonce
next_nonce-Out fetch nm n k few e h = ground (arith, one_more k)

pub next_nonce_refused-Out {ℓ} :
    {E : Type ℓ} (fetch : ℕ → Result E ℕ) (nm : NonceManager) (x : E) (k : ℕ)
    → (next_nonce fetch nm).0 ≡ err x
    → Out k nm
    → Out k (next_nonce fetch nm).1
unfolding next_nonce
next_nonce_refused-Out fetch nm x k e h = ground arith

-- So many leases are out, and the slots are these.
abbrev pub Holds : {W : Type 0} → ℕ → SubpoolCoordinator → Sender W → Type 0
Holds k c s = Out k s.nonces × (s.slots ≡ c)

module _ {X W : Type 0} (node : Node X W) (c : SubpoolCoordinator) where
  resend-Holds :
      (opts : TransactOpts) (stale fresh k : ℕ) (s : Sender W)
      → suc k < i64_half
      → Holds (suc k) c s
      → Holds k c (resend node opts stale fresh s).1
  unfolding resend
  resend-Holds opts stale fresh k s few (h, e) =
      elim (Result-cases (node.build (record opts { nonce = fresh }) s.node).0) [
        | inr (x, unbuilt) ↦
            rw (unbuilt, resend) (release_nonce-Out fresh k false s.nonces few h, e)
        | inl (tx, built) ↦
            elim (Option-cases
              (node.send_transaction tx (node.build (record opts { nonce = fresh }) s.node).1).0) [
                | inr (x, failed) ↦
                    rw (built, resend)
                      (rw (failed, resend) (release_nonce-Out fresh k false s.nonces few h, e))
                | inl sent ↦
                    rw (built, resend)
                      (rw (sent, resend) (release_nonce-Out stale k false s.nonces few h, e))
              ]
      ]

  resend_with_fresh_nonce-Holds :
      (opts : TransactOpts) (stale k : ℕ) (s : Sender W)
      → suc k < i64_half
      → Holds k c s
      → Holds k c (resend_with_fresh_nonce node opts stale s).1
  unfolding resend_with_fresh_nonce resend_leased
  resend_with_fresh_nonce-Holds opts stale k s few (h, e) =
      let kept = reset_nonce-Out k s.nonces h in
      let fetch = node.pending_nonce_at s.node in
      elim (Result-cases (next_nonce fetch (reset_nonce s.nonces)).0) [
        | inr (x, refused) ↦
            rw (refused, resend_leased)
              (next_nonce_refused-Out fetch (reset_nonce s.nonces) x k refused kept, e)
        | inl (fresh, granted) ↦
            let nm = (next_nonce fetch (reset_nonce s.nonces)).1 in
            let t = record s { nonces = nm } in
            let held =
              resend-Holds opts stale fresh k t few
                (next_nonce-Out fetch (reset_nonce s.nonces) fresh k few granted kept, e) in
            elim (Option-cases (resend node opts stale fresh t).0) [
              | inl gone ↦ rw (granted, resend_leased) (rw (gone, resend_leased) held)
              | inr (tx, sent) ↦ rw (granted, resend_leased) (rw (sent, resend_leased) held)
            ]
      ]

  reject-Holds :
      (x : SendError) (tx : Tx) (nonce k : ℕ) (s : Sender W)
      → Holds k c s
      → Holds k c (reject node x tx nonce s).1
  unfolding reject
  reject-Holds x tx nonce k s (h, e) =
      elim (Bool-cases (should_reset_nonce_on_send_error (some x))) [
        | inl definite ↦ rw (definite, reject) (reset_nonce-Out k s.nonces h, e)
        | inr unclear ↦ rw (unclear, reject) (h, e)
      ]

  after_send-Holds :
      (opts : TransactOpts) (tx : Tx) (nonce k : ℕ) (failure : Option SendError) (s : Sender W)
      → suc k < i64_half
      → Holds k c s
      → Holds k c (after_send node opts tx nonce failure s).1
  unfolding after_send
  after_send-Holds opts tx nonce k none s few h = h
  after_send-Holds opts tx nonce k (some x) s few h =
      elim (Bool-cases (is_nonce_desync_error (some x))) [
        | inr other ↦ rw (other, after_send) (reject-Holds x tx nonce k s h)
        | inl stale ↦
            let held = resend_with_fresh_nonce-Holds opts nonce k s few h in
            elim (Option-cases (resend_with_fresh_nonce node opts nonce s).0) [
              | inl gone ↦
                  rw (stale, after_send) (rw (gone, after_send) (reject-Holds x tx nonce k _ held))
              | inr (sent, again) ↦ rw (stale, after_send) (rw (again, after_send) held)
            ]
      ]

  send_leased-Holds :
      (cfg : ClientConfig) (gas_price nonce k : ℕ) (s : Sender W)
      → suc k < i64_half
      → Holds k c s
      → Holds k c (send_leased node cfg gas_price nonce s).1
  unfolding send_leased
  send_leased-Holds cfg gas_price nonce k s few h =
      let opts : TransactOpts = record {
        nonce = nonce;
        gas_price = adjust_gas_price cfg gas_price;
      } in
      elim (Result-cases (node.build opts s.node).0) [
        | inr (x, unbuilt) ↦ rw (unbuilt, send_leased) h
        | inl (tx, built) ↦ elim (Bool-cases (node.is_done (node.build opts s.node).1)) [
          | inl over ↦ rw (built, send_leased) (rw (over, send_leased) h)
          | inr live ↦
              rw (built, send_leased)
                (rw (live, send_leased) (after_send-Holds opts tx nonce k _ _ few h))
        ]
      ]

  -- Whatever becomes of the transaction, its nonce's lease is back.
  pub send_in_slot-Holds :
      (cfg : ClientConfig) (gas_price k : ℕ) (s : Sender W)
      → suc (suc k) < i64_half
      → Holds k c s
      → Holds k c (send_in_slot node cfg gas_price s).1
  unfolding send_in_slot
  send_in_slot-Holds cfg gas_price k s few (h, e) =
      let fetch = node.pending_nonce_at s.node in
      elim (Bool-cases cfg.has_chain_id) [
        | inr none_set ↦ rw (none_set, send_in_slot) (h, e)
        | inl set ↦ elim (Result-cases (next_nonce fetch s.nonces).0) [
          | inr (x, refused) ↦
              rw (set, send_in_slot)
                (rw (refused, send_in_slot)
                  (next_nonce_refused-Out fetch s.nonces x k refused h, e))
          | inl (nonce, granted) ↦
              let t = record s { nonces = (next_nonce fetch s.nonces).1 } in
              let leased =
                send_leased-Holds cfg gas_price nonce (suc k) t few
                  (next_nonce-Out fetch s.nonces nonce k (omega arith) granted h, e) in
              rw (set, send_in_slot)
                (rw (granted, send_in_slot)
                  (release_nonce-Out _ k _ _ (omega arith) leased.0, leased.1))
        ]
      ]
