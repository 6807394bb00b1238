-- ===== src/Pipeline/Checkpoint/Records.antt =====
-- The ciphertext in a job's record, through each script of the store.
use lightchain_worker.Base.{◌≡◌, refl, sym, ap, ◌∙◌, Bool, true, false, Option, none, some, ok, ℤ}
use lightchain_worker.Base.Bytes.{Bytes, same_text}
use lightchain_worker.Base.Hex.{encode, decode}
use lightchain_worker.Pipeline.Checkpoint.Store.{
  Reply, reached, refused, lost, Redis, RedisLaws, ciphertext_field, run_with, keep_or_set,
  set_if_absent, set_by_mark, canonical_of, decoded_reply,
}

module _ {X W : Type 0} (r : Redis X W) where
  -- The text that is stored under the key reads as these bytes.
  abbrev pub Holds : Bytes → Bytes → W → Type 0
  Holds key c w =
      (text : Bytes) × (r.hget key ciphertext_field w ≡ some text) × (decode text ≡ some c)

module _ {X W : Type 0} (r : Redis X W) (laws : RedisLaws r) where
  pub sent-Holds : (key c : Bytes) (w : W) → Holds r key c w → Holds r key c (r.send w).1
  sent-Holds key c w (text, stored, reads) =
      (text, laws.hget-send key ciphertext_field w ∙ stored, reads)

  pub written-Holds :
      (key c field value : Bytes) (seconds : ℤ) (w : W)
      → same_text ciphertext_field field ≡ false
      → Holds r key c w
      → Holds r key c (r.hset key field value w)
        × Holds r key c (r.expire key seconds (r.hset key field value w))
  written-Holds key c field value seconds w apart (text, stored, reads) =
      let kept : r.hget key ciphertext_field (r.hset key field value w) ≡ some text =
        laws.hget-hset_other key ciphertext_field field value w apart ∙ stored in
      ((text, kept, reads), (text, laws.hget-expire key ciphertext_field seconds _ ∙ kept, reads))

  answered_text :
      (o : Option Bytes) (was_set b : Bool) (c : Bytes)
      → canonical_of {X = X} o was_set ≡ ok (c, b)
      → o ≡ some c
  answered_text none was_set b c answered = absurd (cc)
  answered_text (some d) was_set b c answered = cc

  kept-Holds :
      (o : Option Bytes) (key x c : Bytes) (seconds : ℤ) (b : Bool) (w : W)
      → r.hget key ciphertext_field w ≡ o
      → decoded_reply {X = X} (ok (keep_or_set r o key (encode x) seconds w).0) ≡ ok (c, b)
      → Holds r key c (keep_or_set r o key (encode x) seconds w).1
  unfolding keep_or_set
  kept-Holds none key x c seconds b w e answered = (
    encode x,
    laws.hget-expire key ciphertext_field seconds _
        ∙ laws.hget-hset_same key ciphertext_field (encode x) w,
    answered_text (decode (encode x)) true b c answered,
  )
  kept-Holds (some text) key x c seconds b w e answered =
      (text, e, answered_text (decode text) false b c answered)

  pub set-Holds :
      (key x c : Bytes) (seconds : ℤ) (b : Bool) (q : Reply X) (w : W)
      → decoded_reply (run_with r q (set_if_absent r key (encode x) seconds) w).0 ≡ ok (c, b)
      → Holds r key c (run_with r q (set_if_absent r key (encode x) seconds) w).1
  unfolding run_with
  set-Holds key x c seconds b (refused e) w answered = absurd (cc)
  set-Holds key x c seconds b (lost e) w answered = absurd (cc)
  set-Holds key x c seconds b reached w answered =
      kept-Holds (r.hget key ciphertext_field w) key x c seconds b w refl answered

  -- A later script leaves the ciphertext as it is, and answers it.
  pub offered-Holds :
      (o : Option Bytes) (key y c : Bytes) (seconds : ℤ) (w : W)
      → r.hget key ciphertext_field w ≡ o
      → Holds r key c w
      → (decoded_reply {X = X} (ok (keep_or_set r o key (encode y) seconds w).0) ≡ ok (c, false))
        × Holds r key c (keep_or_set r o key (encode y) seconds w).1
  unfolding keep_or_set
  offered-Holds none key y c seconds w e (text, stored, reads) = absurd (cc (sym e ∙ stored))
  offered-Holds (some t) key y c seconds w e (text, stored, reads) =
      let same : t ≡ text = cc (sym e ∙ stored) in
      (
        ap (λ u. canonical_of (decode u) false) same ∙ ap (λ d. canonical_of d false) reads,
        (text, stored, reads),
      )

  pub marked-Holds :
      (o : Option Bytes) (key c field value : Bytes) (seconds : ℤ) (w : W)
      → same_text ciphertext_field field ≡ false
      → Holds r key c w
      → Holds r key c (set_by_mark r o key field value seconds w).1
  unfolding set_by_mark
  marked-Holds none key c field value seconds w apart held =
      (written-Holds key c field value seconds w apart held).1
  marked-Holds (some m) key c field value seconds w apart held =
      (written-Holds key c field value seconds w apart held).0

  -- What a call keeps where its script keeps it, whether or not the script has run.
  pub kept_by_run :
      (P : W → Type 0) {A : Type 0} (q : Reply X) (script : W → A × W) (w : W)
      → P w
      → P (script w).1
      → P (run_with r q script w).1
  unfolding run_with
  kept_by_run P reached script w before after = after
  kept_by_run P (refused e) script w before after = before
  kept_by_run P (lost e) script w before after = after
