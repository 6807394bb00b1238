-- ===== src/Tests/Checkpoints.antt =====
-- A Redis of functions, on which the theorems on the checkpoint store are applied.
use lightchain_worker.Base.{
  ℕ, ◌≡◌, ◌⊎◌, refl, true, false, ◌&&◌, Option, none, some, List, [], ◌∷◌, ok, err, ℤ, pos, ltb_ℤ,
  arith, quot, if◌then◌else◌,
}
use lightchain_worker.Base.Bytes.{Bytes, same_text}
use lightchain_worker.Base.Hex.{encode, decode, nibble}
use lightchain_worker.Pipeline.Checkpoint.{JobCheckpoint}
use lightchain_worker.Pipeline.Checkpoint.Store.{
  Reply, reached, refused, lost, Redis, RedisLaws, HashCodec, StoreError, redis_failed,
  CheckpointStore, new_checkpoint_store, positive_or, run_with, keep_or_set, offer_unless,
  set_ciphertext_if_absent, tombstone, get, job_key, ciphertext_field,
}
use lightchain_worker.Pipeline.Checkpoint.Canonical.{
  Call, offering, hashing, delivering, burying, reading, perform_all, first_ciphertext_stays,
}
use lightchain_worker.Pipeline.Checkpoint.Tombstones.{tombstone_keeps_time}

-- The fields of every key, and its time to live.
abbrev pub Table : Type 0
Table = (Bytes → Bytes → Option Bytes) × (Bytes → ℤ)

abbrev pub table : Redis ℕ Table
table = record {
  hget = λ key field w. w.0 key field;
  hset = λ key field value w.
      (λ k f. if same_text k key && same_text f field then some value else w.0 k f, w.1);
  expire = λ key seconds w. (w.0, λ k. if same_text k key then seconds else w.1 k);
  ttl = λ key w. w.1 key;
  expire_seconds =
      λ d. if ltb_ℤ (pos 0) d && ltb_ℤ d (pos 1000000000) then pos 1 else quot d 1000000000;
  send = λ w. (reached, w);
}

same_text_refl : (s : Bytes) → same_text s s ≡ true
same_text_refl [] = refl
same_text_refl (c ∷ s) = ground (arith, same_text_refl s)

put_same :
    (key field value : Bytes) (w : Table)
    → table.hget key field (table.hset key field value w) ≡ some value
put_same key field value w = rw (same_text_refl key) (rw (same_text_refl field) refl)

put_other :
    (key field other value : Bytes) (w : Table)
    → same_text field other ≡ false
    → table.hget key field (table.hset key other value w) ≡ table.hget key field w
put_other key field other value w apart = rw (same_text_refl key) (rw apart refl)

expire_same :
    (key : Bytes) (seconds : ℤ) (w : Table) → table.ttl key (table.expire key seconds w) ≡ seconds
expire_same key seconds w = rw (same_text_refl key) refl

pub table_laws : RedisLaws table
table_laws = record {
  hget-hset_same = put_same;
  hget-hset_other = put_other;
  hget-expire = λ key field seconds w. refl;
  hget-send = λ key field w. refl;
  ttl-hset = λ key field value w. refl;
  ttl-expire = expire_same;
  ttl-send = λ key w. refl;
}

abbrev pub codec : HashCodec
codec = record { to_hex = λ h. h ∷ []; is_hex_hash = λ text. true; of_hex = λ text. 7 }

abbrev pub seconds_of : ℤ → ℤ
seconds_of d = quot d 1000000000

abbrev pub settings : CheckpointStore
settings = record {
  ttl = pos 7200000000000;
  tombstone_ttl = pos 600000000000;
  max_ciphertext = pos 4;
}

abbrev pub blank : Table
blank = (λ key field. none, λ key. pos 0)

pub first_offer :
    (set_ciphertext_if_absent table codec seconds_of settings 3 (17 ∷ (255 ∷ [])) blank).0
    ≡ ok (17 ∷ (255 ∷ []), true)
unfolding set_ciphertext_if_absent offer_unless run_with keep_or_set encode decode nibble
first_offer = refl

abbrev pub calls : List Call
calls = hashing 9 ∷ (offering (1 ∷ []) ∷ (delivering ∷ (burying ∷ [])))

abbrev later : Table
later =
    perform_all table table_laws codec seconds_of settings 3 calls
      (set_ciphertext_if_absent table codec seconds_of settings 3 (17 ∷ (255 ∷ [])) blank).1

first_ciphertext_stays_example :
    ((set_ciphertext_if_absent table codec seconds_of settings 3 (2 ∷ []) later).0
      ≡ ok (17 ∷ (255 ∷ []), false))
    ⊎ ((e : ℕ) × ((set_ciphertext_if_absent table codec seconds_of settings 3 (2 ∷ []) later).0
          ≡ err (redis_failed e)))
first_ciphertext_stays_example =
    first_ciphertext_stays table table_laws codec seconds_of settings 3 (17 ∷ (255 ∷ [])) (2 ∷ [])
      (17 ∷ (255 ∷ [])) true blank calls first_offer (λ e. cc) refl

abbrev later_checkpoint : JobCheckpoint
later_checkpoint = record { ciphertext = 17 ∷ (255 ∷ []); versioned_hash = 7; delivered = true }

read_later : (get table codec seconds_of settings 3 later).0 ≡ ok later_checkpoint
unfolding get run_with lightchain_worker.Pipeline.Checkpoint.Store.checkpoint_of
    lightchain_worker.Pipeline.Checkpoint.Store.cached_ciphertext perform_all
    lightchain_worker.Pipeline.Checkpoint.Canonical.perform
    lightchain_worker.Pipeline.Checkpoint.Store.tombstone
    lightchain_worker.Pipeline.Checkpoint.Store.set_tombstone
    lightchain_worker.Pipeline.Checkpoint.Store.job_key
    lightchain_worker.Sortition.Cursor.Text.format_uint
    lightchain_worker.Sortition.Cursor.Text.digits_from
    lightchain_worker.Pipeline.Checkpoint.Store.mark_delivered
    lightchain_worker.Pipeline.Checkpoint.Store.set_by_mark set_ciphertext_if_absent offer_unless
    keep_or_set lightchain_worker.Pipeline.Checkpoint.Store.set_versioned_hash
    lightchain_worker.Pipeline.Checkpoint.Store.store_hash_unless decode encode nibble
    lightchain_worker.Pipeline.Checkpoint.Store.cached_hash
    lightchain_worker.Pipeline.Checkpoint.Store.was_delivered
read_later = refl

-- A job whose answer was stored before.
abbrev settled : Table
settled = (set_ciphertext_if_absent table codec seconds_of settings 3 (17 ∷ (255 ∷ [])) blank).1

settled_text : table.hget (job_key 3) ciphertext_field settled ≡ some (encode (17 ∷ (255 ∷ [])))
unfolding set_ciphertext_if_absent offer_unless run_with keep_or_set
settled_text = put_same (job_key 3) ciphertext_field (encode (17 ∷ (255 ∷ []))) blank

tombstone_settled : (tombstone table codec seconds_of settings 3 settled).0 ≡ none
unfolding tombstone run_with
tombstone_settled = refl

tombstone_keeps_time_example :
    table.ttl (job_key 3) (
      perform_all table table_laws codec seconds_of settings 3
        (hashing 9 ∷ (delivering ∷ []))
        (tombstone table codec seconds_of settings 3 settled).1)
    ≡ pos 600
unfolding quot
tombstone_keeps_time_example =
    tombstone_keeps_time table table_laws codec seconds_of settings 3 (encode (17 ∷ (255 ∷ [])))
      settled (hashing 9 ∷ (delivering ∷ [])) settled_text tombstone_settled
