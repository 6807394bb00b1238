-- ===== src/Pipeline/Checkpoint/Tombstones.antt =====
-- The time that a tombstoned record has left.
use lightchain_worker.Base.{
  ℕ, ◌≡◌, refl, sym, ◌∙◌, Bool, true, false, Option, none, some, List, [], ◌∷◌, ℤ,
}
use lightchain_worker.Base.Bytes.{Bytes, codes, same_text}
use lightchain_worker.Base.Hex.{encode}
use lightchain_worker.Pipeline.Checkpoint.Store.{
  Reply, reached, refused, lost, Redis, RedisLaws, HashCodec, CheckpointStore, job_key,
  ciphertext_field, hash_field, delivered_field, tombstoned_field, run_with, keep_or_set,
  set_by_mark, set_tombstone, failure_of, offer_unless, store_hash_unless, set_ciphertext_if_absent,
  set_versioned_hash, mark_delivered, tombstone, get,
}
use lightchain_worker.Pipeline.Checkpoint.Records.{kept_by_run}
use lightchain_worker.Pipeline.Checkpoint.Canonical.{
  Call, offering, hashing, delivering, burying, reading, perform, perform_all,
}

module _ {X W : Type 0} (r : Redis X W) (laws : RedisLaws r) (key : Bytes) (time : ℤ) where
  -- There is a text in the field.
  abbrev Filled : Bytes → W → Type 0
  Filled field w = (text : Bytes) × (r.hget key field w ≡ some text)

  -- The record has a ciphertext and the mark, and this time to live.
  abbrev Buried : W → Type 0
  Buried w = Filled ciphertext_field w × Filled tombstoned_field w × (r.ttl key w ≡ time)

  send-Buried : (w : W) → Buried w → Buried (r.send w).1
  send-Buried w ((c, stored), (m, marked), lives) = (
    (c, laws.hget-send key ciphertext_field w ∙ stored),
    (m, laws.hget-send key tombstoned_field w ∙ marked),
    laws.ttl-send key w ∙ lives,
  )

  keep-Buried :
      (o : Option Bytes) (y : Bytes) (seconds : ℤ) (w : W)
      → r.hget key ciphertext_field w ≡ o
      → Buried w
      → Buried (keep_or_set r o key y seconds w).1
  unfolding keep_or_set
  keep-Buried none y seconds w e ((c, stored), marked, lives) = absurd (cc (sym e ∙ stored))
  keep-Buried (some t) y seconds w e buried = buried

  mark-Buried :
      (o : Option Bytes) (field value : Bytes) (seconds : ℤ) (w : W)
      → same_text ciphertext_field field ≡ false
      → same_text tombstoned_field field ≡ false
      → r.hget key tombstoned_field w ≡ o
      → Buried w
      → Buried (set_by_mark r o key field value seconds w).1
  unfolding set_by_mark
  mark-Buried none field value seconds w apart apart' e (held, (m, marked), lives) =
      absurd (cc (sym e ∙ marked))
  mark-Buried (some n) field value seconds w apart apart' e ((c, stored), (m, marked), lives) = (
    (c, laws.hget-hset_other key ciphertext_field field value w apart ∙ stored),
    (m, laws.hget-hset_other key tombstoned_field field value w apart' ∙ marked),
    laws.ttl-hset key field value w ∙ lives,
  )

  tombstone-Buried : (w : W) → Filled ciphertext_field w → Buried (set_tombstone r key time w).1
  unfolding set_tombstone
  tombstone-Buried w (c, stored) = (
    (
      c,
      laws.hget-expire key ciphertext_field time _
          ∙ (laws.hget-hset_other key ciphertext_field tombstoned_field (codes "1") w refl
              ∙ stored),
    ),
    (
      codes "1",
      laws.hget-expire key tombstoned_field time _
          ∙ laws.hget-hset_same key tombstoned_field (codes "1") w,
    ),
    laws.ttl-expire key time _,
  )

module _ {X W : Type 0} (r : Redis X W) (laws : RedisLaws r) (codec : HashCodec) (seconds : ℤ → ℤ)
    (s : CheckpointStore) (id : ℕ) where
  abbrev Shortened : W → Type 0
  Shortened w = Buried r laws (job_key id) (r.expire_seconds s.tombstone_ttl) w

  sent-Shortened : (w : W) → Shortened w → Shortened (r.send w).1
  sent-Shortened w short = send-Buried r laws (job_key id) _ w short

  offer-Shortened :
      (large : Bool) (y : Bytes) (w : W)
      → Shortened w
      → Shortened (offer_unless r codec seconds s large id y w).1
  unfolding offer_unless
  offer-Shortened true y w short = short
  offer-Shortened false y w short =
      kept_by_run r laws Shortened (r.send w).0 _ (r.send w).1 (sent-Shortened w short) (
        keep-Buried r laws (job_key id) _ _ (encode y) (seconds s.ttl) (r.send w).1 refl
          (sent-Shortened w short))

  hash-Shortened :
      (is_zero : Bool) (hash : ℕ) (w : W)
      → Shortened w
      → Shortened (store_hash_unless r codec seconds s is_zero id hash w).1
  unfolding store_hash_unless
  hash-Shortened true hash w short = short
  hash-Shortened false hash w short =
      kept_by_run r laws Shortened (r.send w).0 _ (r.send w).1 (sent-Shortened w short) (
        mark-Buried r laws (job_key id) _ _ hash_field (codec.to_hex hash) (seconds s.ttl)
          (r.send w).1 refl refl refl (sent-Shortened w short))

  perform-Shortened :
      (call : Call) (w : W) → Shortened w → Shortened (perform r laws codec seconds s id call w)
  unfolding perform set_ciphertext_if_absent set_versioned_hash mark_delivered tombstone get
  perform-Shortened (offering []) w short = short
  perform-Shortened (offering (b ∷ bs)) w short = offer-Shortened _ (b ∷ bs) w short
  perform-Shortened (hashing hash) w short = hash-Shortened _ hash w short
  perform-Shortened delivering w short =
      kept_by_run r laws Shortened (r.send w).0 _ (r.send w).1 (sent-Shortened w short) (
        mark-Buried r laws (job_key id) _ _ delivered_field (codes "1") (seconds s.ttl) (r.send w).1
          refl refl refl (sent-Shortened w short))
  perform-Shortened burying w short =
      kept_by_run r laws Shortened (r.send w).0 _ (r.send w).1 (sent-Shortened w short)
        (tombstone-Buried r laws (job_key id) _ (r.send w).1 (sent-Shortened w short).0)
  perform-Shortened reading w short =
      kept_by_run r laws Shortened (r.send w).0 _ (r.send w).1 (sent-Shortened w short)
        (sent-Shortened w short)

  perform_all-Shortened :
      (calls : List Call) (w : W)
      → Shortened w
      → Shortened (perform_all r laws codec seconds s id calls w)
  unfolding perform_all
  perform_all-Shortened [] w short = short
  perform_all-Shortened (call ∷ calls) w short =
      perform_all-Shortened calls (perform r laws codec seconds s id call w)
        (perform-Shortened call w short)

  answered-Shortened :
      (q : Reply X) (w : W)
      → Filled r laws (job_key id) (r.expire_seconds s.tombstone_ttl) ciphertext_field w
      → failure_of
          (run_with r q (set_tombstone r (job_key id) (r.expire_seconds s.tombstone_ttl)) w).0
        ≡ none
      → Shortened
          (run_with r q (set_tombstone r (job_key id) (r.expire_seconds s.tombstone_ttl)) w).1
  unfolding run_with
  answered-Shortened reached w filled done = tombstone-Buried r laws (job_key id) _ w filled
  answered-Shortened (refused e) w filled done = absurd (cc)
  answered-Shortened (lost e) w filled done = absurd (cc)

  tombstoned-Shortened :
      (text : Bytes) (w : W)
      → r.hget (job_key id) ciphertext_field w ≡ some text
      → (tombstone r codec seconds s id w).0 ≡ none
      → Shortened (tombstone r codec seconds s id w).1
  unfolding tombstone
  tombstoned-Shortened text w stored done =
      answered-Shortened (r.send w).0 (r.send w).1
        (text, laws.hget-send (job_key id) ciphertext_field w ∙ stored) done

  -- A record with a ciphertext that is tombstoned without an error keeps the time to live of the
  -- tombstone, and not the one of a record, through any calls of any attempts.
  pub tombstone_keeps_time :
      (text : Bytes) (w : W) (calls : List Call)
      → r.hget (job_key id) ciphertext_field w ≡ some text
      → (tombstone r codec seconds s id w).0 ≡ none
      → r.ttl
          (job_key id)
          (perform_all r laws codec seconds s id calls (tombstone r codec seconds s id w).1)
        ≡ r.expire_seconds s.tombstone_ttl
  tombstone_keeps_time text w calls stored done =
      (perform_all-Shortened calls (tombstone r codec seconds s id w).1
        (tombstoned-Shortened text w stored done)).2
