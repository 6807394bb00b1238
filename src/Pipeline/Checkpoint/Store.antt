-- ===== src/Pipeline/Checkpoint/Store.antt =====
-- `CheckpointStore` of internal/pipeline/checkpoint.go, over a Redis whose commands are parameters. A
-- Lua script is one step. A call may fail before its script has run, or after.
use lightchain_worker.Base.{
  ℕ, ◌≡◌, Bool, true, false, Option, none, some, [], ◌∷◌, ◌++◌, Result, ok, err, ℤ, pos, leb_ℤ,
  ltb_ℤ, length, ◌==◌, if◌then◌else◌,
}
use lightchain_worker.Base.Bytes.{Bytes, codes, same_text}
use lightchain_worker.Base.Hex.{encode, decode}
use lightchain_worker.Sortition.Cursor.Text.{format_uint}
use lightchain_worker.Pipeline.Checkpoint.{JobCheckpoint, CheckpointOps}

pub data Reply (X : Type 0) : Type 0 where
  reached : Reply X
  refused lost : X → Reply X

-- HGET, HSET, EXPIRE and what EXPIRE has set last, in seconds; what go-redis makes of a duration
-- there; and how the next call fares.
pub record Redis (X W : Type 0) : Type 0 where
  pub hget : (key field : Bytes) → W → Option Bytes
  pub hset : (key field value : Bytes) → W → W
  pub expire : (key : Bytes) → (seconds : ℤ) → W → W
  pub ttl : (key : Bytes) → W → ℤ
  pub expire_seconds : ℤ → ℤ
  pub send : W → Reply X × W

-- What Redis documents of them, as far as one key goes.
pub record RedisLaws {X W : Type 0} (r : Redis X W) : Type 0 where
  pub hget-hset_same :
      (key field value : Bytes) (w : W) → r.hget key field (r.hset key field value w) ≡ some value
  pub hget-hset_other :
      (key field other value : Bytes) (w : W)
      → same_text field other ≡ false
      → r.hget key field (r.hset key other value w) ≡ r.hget key field w
  pub hget-expire :
      (key field : Bytes) (seconds : ℤ) (w : W)
      → r.hget key field (r.expire key seconds w) ≡ r.hget key field w
  pub hget-send : (key field : Bytes) (w : W) → r.hget key field (r.send w).1 ≡ r.hget key field w
  pub ttl-hset :
      (key field value : Bytes) (w : W) → r.ttl key (r.hset key field value w) ≡ r.ttl key w
  pub ttl-expire :
      (key : Bytes) (seconds : ℤ) (w : W) → r.ttl key (r.expire key seconds w) ≡ seconds
  pub ttl-send : (key : Bytes) (w : W) → r.ttl key (r.send w).1 ≡ r.ttl key w

-- go-ethereum's text of a hash.
pub record HashCodec : Type 0 where
  pub to_hex : ℕ → Bytes
  pub is_hex_hash : Bytes → Bool
  pub of_hex : Bytes → ℕ

pub data StoreError (X : Type 0) : Type 0 where
  empty_ciphertext too_large bad_hex bad_hash zero_hash : StoreError X
  redis_failed : X → StoreError X

-- The times to live are `time.Duration`s, and `seconds` is `int64(d.Seconds())` of the scripts.
pub record CheckpointStore : Type 0 where
  pub ttl : ℤ
  pub tombstone_ttl : ℤ
  pub max_ciphertext : ℤ  -- int

unfoldable pub positive_or : ℤ → ℤ → ℤ
positive_or configured otherwise = if leb_ℤ configured (pos 0) then otherwise else configured

unfoldable pub new_checkpoint_store : (ttl tombstone_ttl max_ciphertext : ℤ) → CheckpointStore
new_checkpoint_store ttl tombstone_ttl max_ciphertext = record {
  ttl = positive_or ttl (pos 7200000000000);
  tombstone_ttl = positive_or tombstone_ttl (pos 600000000000);
  max_ciphertext = positive_or max_ciphertext (pos 262144);
}

unfoldable pub job_key : ℕ → Bytes
job_key id = codes "job:" ++ (format_uint id ++ codes ":ckpt")

abbrev pub ciphertext_field : Bytes
ciphertext_field = codes "ciphertext"

abbrev pub hash_field : Bytes
hash_field = codes "versionedHash"

abbrev pub delivered_field : Bytes
delivered_field = codes "delivered"

abbrev pub tombstoned_field : Bytes
tombstoned_field = codes "tombstoned"

module _ {X W : Type 0} (r : Redis X W) where
  -- A script, or a command, and whether its answer comes back.
  unfoldable pub run_with : {A : Type 0} → Reply X → (W → A × W) → W → Result (StoreError X) A × W
  run_with reached script w = (ok (script w).0, (script w).1)
  run_with (refused e) script w = (err (redis_failed e), w)
  run_with (lost e) script w = (err (redis_failed e), (script w).1)

  abbrev pub run : {A : Type 0} → (W → A × W) → W → Result (StoreError X) A × W
  run script w = run_with (r.send w).0 script (r.send w).1

  -- The script of `SetCiphertextIfAbsent`: the canonical text, and whether this call has set it.
  unfoldable pub keep_or_set : Option Bytes → (key proposed : Bytes) → ℤ → W → (Bytes × Bool) × W
  keep_or_set (some existing) key proposed seconds w = ((existing, false), w)
  keep_or_set none key proposed seconds w =
      ((proposed, true), r.expire key seconds (r.hset key ciphertext_field proposed w))

  abbrev pub set_if_absent : (key proposed : Bytes) → ℤ → W → (Bytes × Bool) × W
  set_if_absent key proposed seconds w =
      keep_or_set (r.hget key ciphertext_field w) key proposed seconds w

  -- The script of `SetVersionedHash` and of `MarkDelivered`: a tombstoned record lives no longer.
  unfoldable pub set_by_mark : Option Bytes → (key field value : Bytes) → ℤ → W → Unit {0} × W
  set_by_mark (some mark) key field value seconds w = (tt, r.hset key field value w)
  set_by_mark none key field value seconds w = (tt, r.expire key seconds (r.hset key field value w))

  abbrev pub set_unless_tombstoned : (key field value : Bytes) → ℤ → W → Unit {0} × W
  set_unless_tombstoned key field value seconds w =
      set_by_mark (r.hget key tombstoned_field w) key field value seconds w

  unfoldable pub set_tombstone : (key : Bytes) → ℤ → W → Unit {0} × W
  set_tombstone key seconds w =
      (tt, r.expire key seconds (r.hset key tombstoned_field (codes "1") w))

abbrev pub canonical_of : {X : Type 0} → Option Bytes → Bool → Result (StoreError X) (Bytes × Bool)
canonical_of none was_set = err bad_hex
canonical_of (some canonical) was_set = ok (canonical, was_set)

abbrev pub decoded_reply :
    {X : Type 0} → Result (StoreError X) (Bytes × Bool) → Result (StoreError X) (Bytes × Bool)
decoded_reply (err e) = err e
decoded_reply (ok (text, was_set)) = canonical_of (decode text) was_set

abbrev pub failure_of : {X A : Type 0} → Result X A → Option X
failure_of (ok a) = none
failure_of (err e) = some e

module _ {X W : Type 0} (r : Redis X W) (codec : HashCodec) (seconds : ℤ → ℤ)
    (s : CheckpointStore) where
  unfoldable pub offer_unless :
      (large : Bool) → ℕ → Bytes → W → Result (StoreError X) (Bytes × Bool) × W
  offer_unless true id proposed w = (err too_large, w)
  offer_unless false id proposed w =
      let (answer, w') = run r (set_if_absent r (job_key id) (encode proposed) (seconds s.ttl)) w in
      (decoded_reply answer, w')

  unfoldable pub set_ciphertext_if_absent : ℕ → Bytes → W → Result (StoreError X) (Bytes × Bool) × W
  set_ciphertext_if_absent id [] w = (err empty_ciphertext, w)
  set_ciphertext_if_absent id (b ∷ bs) w =
      offer_unless (ltb_ℤ s.max_ciphertext (pos (length (b ∷ bs)))) id (b ∷ bs) w

  unfoldable pub store_hash_unless : (is_zero : Bool) → ℕ → ℕ → W → Option (StoreError X) × W
  store_hash_unless true id hash w = (some zero_hash, w)
  store_hash_unless false id hash w =
      let (answer, w') =
        run r (set_unless_tombstoned r (job_key id) hash_field (codec.to_hex hash) (seconds s.ttl))
          w in
      (failure_of answer, w')

  unfoldable pub set_versioned_hash : ℕ → ℕ → W → Option (StoreError X) × W
  set_versioned_hash id hash w = store_hash_unless (hash == 0) id hash w

  unfoldable pub mark_delivered : ℕ → W → Option (StoreError X) × W
  mark_delivered id w =
      let (answer, w') =
        run r (set_unless_tombstoned r (job_key id) delivered_field (codes "1") (seconds s.ttl))
          w in
      (failure_of answer, w')

  unfoldable pub tombstone : ℕ → W → Option (StoreError X) × W
  tombstone id w =
      let (answer, w') =
        run r (set_tombstone r (job_key id) (r.expire_seconds s.tombstone_ttl)) w in
      (failure_of answer, w')

  -- What `HGETALL` answers of the fields that are read.
  abbrev pub fields_of : Bytes → W → (Option Bytes × Option Bytes × Option Bytes) × W
  fields_of key w =
      ((r.hget key ciphertext_field w, r.hget key hash_field w, r.hget key delivered_field w), w)

  abbrev pub decoded_text : Option Bytes → Result (StoreError X) Bytes
  decoded_text none = err bad_hex
  decoded_text (some ciphertext) = ok ciphertext

  unfoldable pub cached_ciphertext : Option Bytes → Result (StoreError X) Bytes
  cached_ciphertext none = ok []
  cached_ciphertext (some []) = ok []
  cached_ciphertext (some (c ∷ text)) = decoded_text (decode (c ∷ text))

  unfoldable pub cached_hash : Option Bytes → Result (StoreError X) ℕ
  cached_hash none = ok 0
  cached_hash (some []) = ok 0
  cached_hash (some (c ∷ text)) =
      if codec.is_hex_hash (c ∷ text) then ok (codec.of_hex (c ∷ text)) else err bad_hash

  unfoldable pub was_delivered : Option Bytes → Bool
  was_delivered none = false
  was_delivered (some text) = same_text text (codes "1")

  abbrev pub assembled :
      Result (StoreError X) Bytes
      → Result (StoreError X) ℕ
      → Bool
      → Result (StoreError X) JobCheckpoint
  assembled (err e) hash delivered = err e
  assembled (ok c) (err e) delivered = err e
  assembled (ok c) (ok v) delivered =
      ok (record { ciphertext = c; versioned_hash = v; delivered = delivered })

  unfoldable pub checkpoint_of :
      Option Bytes × Option Bytes × Option Bytes → Result (StoreError X) JobCheckpoint
  checkpoint_of (ciphertext, hash, delivered) =
      assembled (cached_ciphertext ciphertext) (cached_hash hash) (was_delivered delivered)

  abbrev pub parsed :
      Result (StoreError X) (Option Bytes × Option Bytes × Option Bytes)
      → Result (StoreError X) JobCheckpoint
  parsed (err e) = err e
  parsed (ok fields) = checkpoint_of fields

  unfoldable pub get : ℕ → W → Result (StoreError X) JobCheckpoint × W
  get id w = let (answer, w') = run r (fields_of (job_key id)) w in (parsed answer, w')

  -- The store as the handler has it.
  unfoldable pub checkpoint_ops : CheckpointOps (StoreError X) W
  checkpoint_ops = record {
    get = get;
    set_ciphertext_if_absent = set_ciphertext_if_absent;
    set_versioned_hash = set_versioned_hash;
    mark_delivered = mark_delivered;
    tombstone = tombstone;
  }
