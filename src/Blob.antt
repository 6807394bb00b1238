-- ===== src/Blob.antt =====
-- internal/blob/blob_tx.go: how a blob transaction is sent, with the nonce manager, the subpool
-- coordinator and the stuck-nonce tracker of Chain, and how a stuck one is replaced. A function is
-- one sender's moves with no other sender between them. The encoding of a blob, its commitment and
-- proof, the signature and the node are parameters. Fees are below 2^256, beyond which the code
-- panics. What only feeds the log is left out.
pub mod Fees
pub mod Replacement
pub mod Balance
use lightchain_worker.Base.{
  ℕ, ◌*◌, ◌^◌, Bool, true, false, not, ◌||◌, Option, none, some, List, [], ◌∷◌, Result, ok, err, ℤ,
  pos, add_i64, pos_part, ltb_ℤ, leb_ℤ, if◌then◌else◌,
}
use lightchain_worker.Chain.Nonce.{next_nonce, release_nonce, reset_nonce}
use lightchain_worker.Chain.StuckNonce.{
  StuckNonceTracker, record_nonce, bump_attempts_used_for, increment_bump_attempts_for, clear,
}
use lightchain_worker.Chain.Subpool.{
  BroadcastToken, admitted, waiting, class_blob, try_enter, registered, done,
}
use lightchain_worker.Chain.SendErrors.{
  SendError, is_already_reserved_error, should_reset_nonce_on_send_error,
}
use lightchain_worker.Chain.Broadcast.{Sender, Mined, unmined, reverted, succeeded}

-- `blobTxPayload`, of blobs `B`. Commitments, proofs and hashes are numbers.
pub record BlobTxPayload (B : Type 0) : Type 0 where
  pub blob : B
  pub commitment : ℕ
  pub proof : ℕ
  pub versioned_hash : ℕ

-- The fields of `types.BlobTx` that differ between transactions.
pub record BlobTx (B : Type 0) : Type 0 where
  pub nonce : ℕ  -- uint64
  pub gas_tip_cap : ℕ
  pub gas_fee_cap : ℕ
  pub blob_fee_cap : ℕ
  pub payload : BlobTxPayload B

pub record SignedTx (B : Type 0) : Type 0 where
  pub tx : BlobTx B
  pub hash : ℕ

-- The encoding, the cryptography and the node.
pub record Backend (X B W : Type 0) : Type 0 where
  pub encode_blob_data : List ℕ → Result X B
  pub blob_to_commitment : B → Result X ℕ
  pub compute_blob_proof : B → ℕ → Result X ℕ
  pub versioned_hash_of : ℕ → ℕ
  pub signed_hash : BlobTx B → Result X ℕ
  pub suggest_gas_tip_cap : W → Result X ℕ × W
  pub send_transaction : SignedTx B → W → Option SendError × W
  pub wait_mined : SignedTx B → W → Mined X × W
  pub pending_nonce_at : W → ℕ → Result X ℕ
  pub is_done : W → Bool
  pub now : W → ℤ

pub record StuckNonceConfig : Type 0 where
  pub threshold : ℤ  -- int
  pub max_bumps : ℤ
  pub auto_replace : Bool

-- The fields of `BlobTxSubmitter` that are not shared or a backend.
pub record BlobTxSubmitter : Type 0 where
  pub max_gas_price : ℕ
  pub stuck_cfg : StuckNonceConfig

pub data BlobError (X : Type 0) : Type 0 where
  encode_failed commitment_failed proof_failed : X → BlobError X
  tip_failed nonce_failed sign_failed wait_failed : X → BlobError X
  slot_wait_failed context_done tx_reverted : BlobError X
  send_failed : SendError → BlobError X
  bump_below_one bump_above_ceiling : ℤ → BlobError X

abbrev pub replacement_blob_payload : List ℕ
replacement_blob_payload = 0 ∷ []

abbrev pub default_blob_fee_cap_wei : ℕ
default_blob_fee_cap_wei = 1000000000

abbrev pub max_allowed_bump_number : ℤ
max_allowed_bump_number = pos 8

-- `multiplier.Lsh(1, uint(bumpNumber))`, where the bump number is not negative.
abbrev pub multiplier : ℤ → ℕ
multiplier bump_number = 2 ^ pos_part bump_number

-- The replacement's fees: 2^bumpNumber times the baseline each.
unfoldable pub replacement_tx :
    {B : Type 0} → BlobTxSubmitter → BlobTxPayload B → (nonce tip_suggested : ℕ) → ℤ → BlobTx B
replacement_tx s payload nonce tip_suggested bump_number = record {
  nonce = nonce;
  gas_tip_cap = tip_suggested * multiplier bump_number;
  gas_fee_cap = s.max_gas_price * multiplier bump_number;
  blob_fee_cap = default_blob_fee_cap_wei * multiplier bump_number;
  payload = payload;
}

module _ {X B W : Type 0} (backend : Backend X B W) where
  unfoldable pub encode_blob_tx_payload : List ℕ → Result (BlobError X) (BlobTxPayload B)
  encode_blob_tx_payload data_bytes = elim (backend.encode_blob_data data_bytes) [
    | err e ↦ err (encode_failed e)
    | ok b ↦ elim (backend.blob_to_commitment b) [
      | err e ↦ err (commitment_failed e)
      | ok commitment ↦ elim (backend.compute_blob_proof b commitment) [
        | err e ↦ err (proof_failed e)
        | ok proof ↦ ok (record {
          blob = b;
          commitment = commitment;
          proof = proof;
          versioned_hash = backend.versioned_hash_of commitment;
        })
      ]
    ]
  ]

  unfoldable pub sign_blob_tx : BlobTx B → Result (BlobError X) (SignedTx B)
  sign_blob_tx tx = elim (backend.signed_hash tx) [
    | err e ↦ err (sign_failed e)
    | ok hash ↦ ok (record { tx = tx; hash = hash })
  ]

  -- The attempt is counted before it is sent, so that a failure counts too.
  unfoldable pub send_replacement : SignedTx B → ℕ → Sender W → Option (BlobError X) × Sender W
  send_replacement signed nonce s =
      let counted = increment_bump_attempts_for nonce s.tracker in
      let (failure, w) = backend.send_transaction signed s.node in
      let s' = record s { tracker = counted; node = w } in
      elim failure [ none ↦ (none, s') | some e ↦ (some (send_failed e), s') ]

  -- `submitReplacementBlobTx`, from the payload on.
  unfoldable pub build_replacement :
      BlobTxSubmitter → ℕ → ℤ → BlobTxPayload B → Sender W → Option (BlobError X) × Sender W
  build_replacement sub nonce bump_number payload s =
      let (answer, w) = backend.suggest_gas_tip_cap s.node in
      let s' = record s { node = w } in
      elim answer [
        | err e ↦ (some (tip_failed e), s')
        | ok tip ↦ elim (sign_blob_tx (replacement_tx sub payload nonce tip bump_number)) [
          | err e ↦ (some e, s')
          | ok signed ↦
              if backend.is_done w
              then (some context_done, s')
              else send_replacement signed nonce s'
        ]
      ]

  unfoldable pub submit_replacement_blob_tx :
      BlobTxSubmitter → ℕ → ℤ → Sender W → Option (BlobError X) × Sender W
  submit_replacement_blob_tx sub nonce bump_number s =
      if ltb_ℤ bump_number (pos 1)
      then (some (bump_below_one bump_number), s)
      else if ltb_ℤ max_allowed_bump_number bump_number
      then (some (bump_above_ceiling bump_number), s)
      else if backend.is_done s.node
      then (some context_done, s)
      else elim (encode_blob_tx_payload replacement_blob_payload) [
        | err e ↦ (some e, s)
        | ok payload ↦ build_replacement sub nonce bump_number payload s
      ]

  -- Its error is only logged.
  unfoldable pub maybe_submit_replacement_blob_tx : BlobTxSubmitter → ℕ → ℤ → Sender W → Sender W
  maybe_submit_replacement_blob_tx sub nonce stuck_hits s =
      let cfg = sub.stuck_cfg in
      let bumps_used = bump_attempts_used_for nonce s.tracker in
      if leb_ℤ cfg.threshold (pos 0) || ltb_ℤ stuck_hits cfg.threshold
      then s
      else if not cfg.auto_replace
      then s
      else if leb_ℤ cfg.max_bumps bumps_used
      then s
      else (submit_replacement_blob_tx sub nonce (add_i64 bumps_used (pos 1)) s).1

  unfoldable pub handle_send_error : BlobTxSubmitter → SendError → ℕ → Sender W → Sender W
  handle_send_error sub e nonce s =
      let s' =
        if should_reset_nonce_on_send_error (some e)
        then record s { nonces = reset_nonce s.nonces }
        else s in
      if is_already_reserved_error (some e)
      then (let (tracked, stuck_hits) =
            record_nonce nonce (backend.now s.node) (backend.now s.node) s'.tracker in
          maybe_submit_replacement_blob_tx sub nonce stuck_hits (record s' { tracker = tracked }))
      else s'

  -- What is done once a receipt is there, or waiting for it has failed.
  unfoldable pub settle_blob : Mined X → Sender W → Option (BlobError X) × Sender W
  settle_blob (unmined e) s = (some (wait_failed e), record s { nonces = reset_nonce s.nonces })
  settle_blob reverted s = (some tx_reverted, s)
  settle_blob succeeded s = (none, record s { tracker = clear s.tracker })

  unfoldable pub submit_and_wait :
      BlobTxSubmitter → SignedTx B → BroadcastToken → ℕ → Sender W → Option (BlobError X) × Sender W
  submit_and_wait sub signed token nonce s =
      let (failure, w) = backend.send_transaction signed s.node in
      elim failure [
        | some e ↦ (some (send_failed e), handle_send_error sub e nonce (record s { node = w }))
        | none ↦
            let (mined, w') = backend.wait_mined signed w in
            settle_blob mined
              (record s { slots = registered signed.hash (some token) s.slots; node = w' })
      ]

  abbrev pub release_lease : ℕ → Bool → Sender W → Sender W
  release_lease nonce consumed s = record s { nonces = release_nonce nonce consumed s.nonces }

  -- What is done with a leased nonce, up to the release of the lease.
  unfoldable pub send_with_nonce :
      BlobTxSubmitter
      → BlobTxPayload B
      → ℕ
      → BroadcastToken
      → ℕ
      → Sender W
      → Result (BlobError X) (List ℕ) × Sender W
  send_with_nonce sub payload gas_tip_cap token nonce s =
      let tx : BlobTx B = record {
        nonce = nonce;
        gas_tip_cap = gas_tip_cap;
        gas_fee_cap = sub.max_gas_price;
        blob_fee_cap = default_blob_fee_cap_wei;
        payload = payload;
      } in
      elim (sign_blob_tx tx) [
        | err e ↦ (err e, release_lease nonce false s)
        | ok signed ↦ elim (backend.is_done s.node) [
          | true ↦ (err context_done, release_lease nonce false s)
          | false ↦
              let (failure, s') = submit_and_wait sub signed token nonce s in
              let s'' = release_lease nonce true s' in
              elim failure [
                | some e ↦ (err e, s'')
                | none ↦ (ok (payload.versioned_hash ∷ []), s'')
              ]
        ]
      ]

  -- What is done with the slot, up to its release.
  unfoldable pub submit_in_slot :
      BlobTxSubmitter
      → BlobTxPayload B
      → ℕ
      → BroadcastToken
      → Sender W
      → Result (BlobError X) (List ℕ) × Sender W
  submit_in_slot sub payload gas_tip_cap token s = elim (backend.is_done s.node) [
    | true ↦ (err context_done, s)
    | false ↦
        let (answer, nm) = next_nonce (backend.pending_nonce_at s.node) s.nonces in
        elim answer [
          | err e ↦ (err (nonce_failed e), record s { nonces = nm })
          | ok nonce ↦
              send_with_nonce sub payload gas_tip_cap token nonce (record s { nonces = nm })
        ]
  ]

  -- `SubmitBlobTx`. A caller that has to wait for its slot either is woken, and then starts with
  -- `try_enter` in the state that it finds, or its context ends, which is what is meant here.
  unfoldable pub submit_blob_tx :
      BlobTxSubmitter → List ℕ → Sender W → Result (BlobError X) (List ℕ) × Sender W
  submit_blob_tx sub data_bytes s = elim (encode_blob_tx_payload data_bytes) [
    | err e ↦ (err e, s)
    | ok payload ↦
        let (answer, w) = backend.suggest_gas_tip_cap s.node in
        elim answer [
          | err e ↦ (err (tip_failed e), record s { node = w })
          | ok gas_tip_cap ↦ elim (try_enter class_blob (backend.now w) s.slots) [
            | waiting ch ↦ (err slot_wait_failed, record s { node = w })
            | admitted token slots ↦
                let (r, s') =
                  submit_in_slot sub payload gas_tip_cap token
                    (record s { node = w; slots = slots }) in
                (r, record s' { slots = (done (some token) s'.slots).1 })
          ]
        ]
  ]
