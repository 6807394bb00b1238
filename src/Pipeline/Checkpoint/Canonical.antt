-- ===== src/Pipeline/Checkpoint/Canonical.antt =====
-- The ciphertext that is stored first stays the job's answer.
use lightchain_worker.Base.{
  ℕ, ◌≡◌, ◌≢◌, refl, sym, ap, ◌∙◌, ◌⊎◌, inl, inr, Bool, true, false, some, List, [], ◌∷◌, Result,
  ok, err, ℤ, pos, ltb_ℤ, length, arith,
}
use lightchain_worker.Base.Bytes.{Bytes, codes}
use lightchain_worker.Base.Hex.{encode, decode}
use lightchain_worker.Pipeline.Checkpoint.{JobCheckpoint}
use lightchain_worker.Pipeline.Checkpoint.Store.{
  Reply, reached, refused, lost, Redis, RedisLaws, HashCodec, StoreError, redis_failed,
  CheckpointStore, job_key, hash_field, delivered_field, tombstoned_field, run_with, set_if_absent,
  set_tombstone, decoded_reply, offer_unless, store_hash_unless, set_ciphertext_if_absent,
  set_versioned_hash, mark_delivered, tombstone, decoded_text, cached_ciphertext, cached_hash,
  was_delivered, assembled, checkpoint_of, parsed, fields_of, get,
}
use lightchain_worker.Pipeline.Checkpoint.Records.{
  Holds, sent-Holds, written-Holds, set-Holds, offered-Holds, marked-Holds, kept_by_run,
}

-- The calls of the attempts at one job, in any order.
pub data Call : Type 0 where
  offering : Bytes → Call
  hashing : ℕ → Call
  delivering burying reading : Call

module _ {X W : Type 0} (r : Redis X W) (laws : RedisLaws r) (codec : HashCodec) (seconds : ℤ → ℤ)
    (s : CheckpointStore) (id : ℕ) where
  unfoldable pub perform : Call → W → W
  perform (offering y) w = (set_ciphertext_if_absent r codec seconds s id y w).1
  perform (hashing hash) w = (set_versioned_hash r codec seconds s id hash w).1
  perform delivering w = (mark_delivered r codec seconds s id w).1
  perform burying w = (tombstone r codec seconds s id w).1
  perform reading w = (get r codec seconds s id w).1

  unfoldable pub perform_all : List Call → W → W
  perform_all [] w = w
  perform_all (call ∷ calls) w = perform_all calls (perform call w)

  offer-Holds :
      (large : Bool) (y c : Bytes) (w : W)
      → Holds r (job_key id) c w
      → Holds r (job_key id) c (offer_unless r codec seconds s large id y w).1
  unfolding offer_unless
  offer-Holds true y c w held = held
  offer-Holds false y c w held =
      let sent : Holds r (job_key id) c (r.send w).1 = sent-Holds r laws (job_key id) c w held in
      kept_by_run r laws (Holds r (job_key id) c) (r.send w).0 _ (r.send w).1 sent
        (offered-Holds r laws _ (job_key id) y c (seconds s.ttl) (r.send w).1 refl sent).1

  hash-Holds :
      (is_zero : Bool) (hash : ℕ) (c : Bytes) (w : W)
      → Holds r (job_key id) c w
      → Holds r (job_key id) c (store_hash_unless r codec seconds s is_zero id hash w).1
  unfolding store_hash_unless
  hash-Holds true hash c w held = held
  hash-Holds false hash c w held =
      let sent : Holds r (job_key id) c (r.send w).1 = sent-Holds r laws (job_key id) c w held in
      kept_by_run r laws (Holds r (job_key id) c) (r.send w).0 _ (r.send w).1 sent (
        marked-Holds r laws _ (job_key id) c hash_field (codec.to_hex hash) (seconds s.ttl)
          (r.send w).1 refl sent)

  pub perform-Holds :
      (call : Call) (c : Bytes) (w : W)
      → Holds r (job_key id) c w
      → Holds r (job_key id) c (perform call w)
  unfolding perform set_ciphertext_if_absent set_versioned_hash mark_delivered tombstone get
      set_tombstone
  perform-Holds (offering []) c w held = held
  perform-Holds (offering (b ∷ bs)) c w held = offer-Holds _ (b ∷ bs) c w held
  perform-Holds (hashing hash) c w held = hash-Holds _ hash c w held
  perform-Holds delivering c w held =
      let sent : Holds r (job_key id) c (r.send w).1 = sent-Holds r laws (job_key id) c w held in
      kept_by_run r laws (Holds r (job_key id) c) (r.send w).0 _ (r.send w).1 sent (
        marked-Holds r laws _ (job_key id) c delivered_field (codes "1") (seconds s.ttl)
          (r.send w).1 refl sent)
  perform-Holds burying c w held =
      let sent : Holds r (job_key id) c (r.send w).1 = sent-Holds r laws (job_key id) c w held in
      kept_by_run r laws (Holds r (job_key id) c) (r.send w).0 _ (r.send w).1 sent
        (written-Holds r laws (job_key id) c tombstoned_field (codes "1")
          (r.expire_seconds s.tombstone_ttl) (r.send w).1 refl sent).1
  perform-Holds reading c w held =
      let sent : Holds r (job_key id) c (r.send w).1 = sent-Holds r laws (job_key id) c w held in
      kept_by_run r laws (Holds r (job_key id) c) (r.send w).0 _ (r.send w).1 sent sent

  pub perform_all-Holds :
      (calls : List Call) (c : Bytes) (w : W)
      → Holds r (job_key id) c w
      → Holds r (job_key id) c (perform_all calls w)
  unfolding perform_all
  perform_all-Holds [] c w held = held
  perform_all-Holds (call ∷ calls) c w held =
      perform_all-Holds calls c (perform call w) (perform-Holds call c w held)

  -- The first answer makes the record.
  answer-Holds :
      (large : Bool) (x c : Bytes) (b : Bool) (w : W)
      → (offer_unless r codec seconds s large id x w).0 ≡ ok (c, b)
      → Holds r (job_key id) c (offer_unless r codec seconds s large id x w).1
  unfolding offer_unless
  answer-Holds true x c b w answered = absurd (cc)
  answer-Holds false x c b w answered =
      set-Holds r laws (job_key id) x c (seconds s.ttl) b (r.send w).0 (r.send w).1 answered

  pub first-Holds :
      (x c : Bytes) (b : Bool) (w : W)
      → (set_ciphertext_if_absent r codec seconds s id x w).0 ≡ ok (c, b)
      → Holds r (job_key id) c (set_ciphertext_if_absent r codec seconds s id x w).1
  unfolding set_ciphertext_if_absent
  first-Holds [] c b w answered = absurd (cc)
  first-Holds (a ∷ x) c b w answered = answer-Holds _ (a ∷ x) c b w answered

  -- What an answered offer, and an answered read, come to while the record is there.
  offered_again :
      (q : Reply X) (y c : Bytes) (t : ℤ) (w : W)
      → Holds r (job_key id) c w
      → (decoded_reply (run_with r q (set_if_absent r (job_key id) (encode y) t) w).0
          ≡ ok (c, false))
        ⊎ ((e : X) × (decoded_reply (run_with r q (set_if_absent r (job_key id) (encode y) t) w).0
              ≡ err (redis_failed e)))
  unfolding run_with
  offered_again reached y c t w held = inl (offered-Holds r laws _ (job_key id) y c t w refl held).0
  offered_again (refused e) y c t w held = inr (e, refl)
  offered_again (lost e) y c t w held = inr (e, refl)

  again :
      (y c : Bytes) (w : W)
      → y ≢ []
      → ltb_ℤ s.max_ciphertext (pos (length y)) ≡ false
      → Holds r (job_key id) c w
      → ((set_ciphertext_if_absent r codec seconds s id y w).0 ≡ ok (c, false))
        ⊎ ((e : X) × ((set_ciphertext_if_absent r codec seconds s id y w).0 ≡ err (redis_failed e)))
  unfolding set_ciphertext_if_absent offer_unless
  again [] c w some' fits held = absurd (some' refl)
  again (b ∷ y) c w some' fits held =
      rw (fits, offer_unless)
        (offered_again (r.send w).0 (b ∷ y) c (seconds s.ttl) (r.send w).1
          (sent-Holds r laws (job_key id) c w held))

  cached-decoded :
      (text c : Bytes)
      → decode text ≡ some c
      → cached_ciphertext r codec seconds s (some text) ≡ ok c
  unfolding cached_ciphertext decode
  cached-decoded [] c reads = cc
  cached-decoded (a ∷ text) c reads = ap (decoded_text r codec seconds s) reads

  assembled_of :
      (c : Bytes) (hash : Result (StoreError X) ℕ) (delivered : Bool) (k : JobCheckpoint)
      → assembled r codec seconds s (ok c) hash delivered ≡ ok k
      → k.ciphertext ≡ c
  assembled_of c (err e) delivered k read = absurd (cc)
  assembled_of c (ok v) delivered k read = ground (arith, read)

  pub read_back :
      (q : Reply X) (c : Bytes) (k : JobCheckpoint) (w : W)
      → Holds r (job_key id) c w
      → parsed r codec seconds s (run_with r q (fields_of r codec seconds s (job_key id)) w).0
        ≡ ok k
      → k.ciphertext ≡ c
  unfolding run_with checkpoint_of
  read_back (refused e) c k w held read = absurd (cc)
  read_back (lost e) c k w held read = absurd (cc)
  read_back reached c k w (text, stored, reads) read = assembled_of c _ _ k (
      sym (
        ap
          (λ o.
            assembled r codec seconds s o
              (cached_hash r codec seconds s (r.hget (job_key id) hash_field w))
              (was_delivered r codec seconds s (r.hget (job_key id) delivered_field w)))
          (ap (cached_ciphertext r codec seconds s) stored ∙ cached-decoded text c reads))
      ∙ read)

  -- Once a ciphertext is stored for a job and an answer says which, it stays the job's ciphertext
  -- through any calls of any attempts, while the record lives: each later offer of one that is not
  -- empty nor too large is answered by the first, or by a failure of Redis.
  pub first_ciphertext_stays :
      (x y c : Bytes) (b : Bool) (w : W) (calls : List Call)
      → (set_ciphertext_if_absent r codec seconds s id x w).0 ≡ ok (c, b)
      → y ≢ []
      → ltb_ℤ s.max_ciphertext (pos (length y)) ≡ false
      → ((set_ciphertext_if_absent r codec seconds s id y
            (perform_all calls (set_ciphertext_if_absent r codec seconds s id x w).1)).0
          ≡ ok (c, false))
        ⊎ ((e : X) × ((set_ciphertext_if_absent r codec seconds s id y
                (perform_all calls (set_ciphertext_if_absent r codec seconds s id x w).1)).0
              ≡ err (redis_failed e)))
  first_ciphertext_stays x y c b w calls answered some' fits =
      again y c (perform_all calls (set_ciphertext_if_absent r codec seconds s id x w).1) some' fits
        (perform_all-Holds calls c (set_ciphertext_if_absent r codec seconds s id x w).1
          (first-Holds x c b w answered))

  -- A checkpoint that is read after any calls, while the record lives, has the ciphertext of which an
  -- answer has said that it is the job's.
  pub first_ciphertext_is_read :
      (x c : Bytes) (b : Bool) (w : W) (calls : List Call) (k : JobCheckpoint)
      → (set_ciphertext_if_absent r codec seconds s id x w).0 ≡ ok (c, b)
      → (get r codec seconds s id
          (perform_all calls (set_ciphertext_if_absent r codec seconds s id x w).1)).0
        ≡ ok k
      → k.ciphertext ≡ c
  unfolding get
  first_ciphertext_is_read x c b w calls k answered read =
      let after : W = perform_all calls (set_ciphertext_if_absent r codec seconds s id x w).1 in
      read_back (r.send after).0 c k (r.send after).1
        (sent-Holds r laws (job_key id) c after (
          perform_all-Holds calls c (set_ciphertext_if_absent r codec seconds s id x w).1
            (first-Holds x c b w answered)))
        read
