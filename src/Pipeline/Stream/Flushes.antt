-- ===== src/Pipeline/Stream/Flushes.antt =====
-- A flush loses nothing and reorders nothing.
use mathlib.Core.List.{append-nil}
use lightchain_worker.Base.{
  ℕ, suc, ◌≡◌, ◌≢◌, refl, ap, subst, ◌∙◌, ◌⊎◌, inl, inr, Bool, true, false, [], ◌++◌, if◌then◌else◌,
  arith, leb_ℤ, pos, ◌-ℤ◌, ◌==◌, Bool-cases,
}
use lightchain_worker.Base.Bytes.{Bytes}
use lightchain_worker.Pipeline.Stream.{
  FrameKinds, Publisher, TokenCoalescer, StreamConfig, coalescer_settings, coalesce, put, publish,
  store_coalescer, flush,
}
use lightchain_worker.Pipeline.Stream.Buffers.{
  recorded, tagged, Recorded, sent, Opens, sent-publish, publish_buffers, buffer_of, buffer_of-put,
  content_of, Tidy,
}

-- The state after a flush of the last kind.
abbrev pub Flushed : {W : Type 0} → (Bytes → Bytes) → Recorded W → Recorded W → Type 0
Flushed decrypt s t =
    (content_of decrypt t ≡ content_of decrypt s)
    × Tidy t
    × (t.last_kind ≡ s.last_kind)
    × ((buffer_of s.last_kind t.coalescers).count ≡ 0)

module _ {W : Type 0} (decrypt : Bytes → Bytes) (s t : Recorded W) (c : TokenCoalescer)
    (empty : c.buf ≡ []) (none_counted : c.count ≡ 0)
    (emptied : t.coalescers ≡ put s.last_kind c s.coalescers)
    (same : t.last_kind ≡ s.last_kind) where
  buffers_after :
      (j : ℕ)
      → buffer_of j t.coalescers ≡ (if s.last_kind == j then c else buffer_of j s.coalescers)
  buffers_after j = ap (buffer_of j) emptied ∙ buffer_of-put j s.last_kind c s.coalescers

  emptied-Tidy : Tidy s → Tidy t
  emptied-Tidy tidy = record {
    calm = λ k apart. ground (arith, buffers_after k, tidy.calm k);
    fresh = λ none_yet. ground (arith, buffers_after 0, tidy.fresh);
    shape = λ k idle. ground (arith, buffers_after k, tidy.shape k);
  }

  emptied-Flushed :
      Tidy s
      → sent decrypt t
        ≡ sent decrypt s ++ tagged s.last_kind (buffer_of s.last_kind s.coalescers).buf
      → Flushed decrypt s t
  unfolding tagged
  emptied-Flushed tidy moved =
      let nothing : (buffer_of t.last_kind t.coalescers).buf ≡ [] =
        ground (arith, buffers_after t.last_kind) in
      (
        ap (λ bs. sent decrypt t ++ tagged t.last_kind bs) nothing
            ∙ append-nil (sent decrypt t)
            ∙ moved,
        emptied-Tidy tidy,
        same,
        ground (arith, buffers_after s.last_kind),
      )

module _ {X W : Type 0} (kinds : FrameKinds) (p : Publisher X W) (cfg : StreamConfig)
    (decrypt : Bytes → Bytes) (opens : Opens p decrypt) where
  pub flush_idle :
      (k : ℕ) (s : Recorded W)
      → (buffer_of k s.coalescers).count ≡ 0
      → flush kinds (recorded p) cfg k s ≡ s
  unfolding flush
  flush_idle k s idle = rw (flush, idle) refl

  pub flush-Flushed :
      (s : Recorded W)
      → kinds.normalize s.last_kind ≡ s.last_kind
      → Tidy s
      → Flushed decrypt s (flush kinds (recorded p) cfg s.last_kind s)
  unfolding flush
  flush-Flushed s normal tidy =
      let k = s.last_kind in
      let c = buffer_of k s.coalescers in
      elim (Bool-cases (c.count == 0)) [
        | inl idle ↦ rw (idle, flush) (refl, tidy, refl, ground arith)
        | inr busy ↦
            let empty : TokenCoalescer = record c { buf = []; count = 0 } in
            let s1 : Recorded W = store_coalescer kinds (recorded p) cfg k empty s in
            let t = publish kinds (recorded p) cfg k c.buf s1 in
            let (buffers, last) = publish_buffers kinds p cfg decrypt opens k c.buf s1 in
            let moved = sent-publish kinds p cfg decrypt opens k c.buf s1 in
            let same : t ≡ flush kinds (recorded p) cfg k s = rw (busy, flush) refl in
            subst (Flushed decrypt s) same (
              emptied-Flushed decrypt s t empty refl refl buffers last tidy
                (subst (λ n. sent decrypt t ≡ sent decrypt s ++ tagged n c.buf) normal moved))
      ]

either_log : {W L : Type 0} (b : Bool) (x y : W × L) → x.1 ≡ y.1 → (if b then x else y).1 ≡ y.1
either_log true x y h = h
either_log false x y h = refl

module _ {X W : Type 0} (kinds : FrameKinds) (p : Publisher X W) (cfg : StreamConfig) where
  -- A coalescer takes a delta: it is buffered, and then flushed with what is there, or not.
  pub coalesce_cases :
      (k : ℕ) (delta : Bytes) (s : Recorded W)
      → (c : TokenCoalescer) × (t : Recorded W) × (c.buf ≡ (buffer_of k s.coalescers).buf ++ delta)
        × (c.count ≢ 0)
        × (t.coalescers ≡ put k c s.coalescers)
        × (t.last_kind ≡ s.last_kind)
        × (t.seq ≡ s.seq)
        × (t.publisher.1 ≡ s.publisher.1)
        × ((coalesce kinds (recorded p) cfg k delta s ≡ t)
            ⊎ (coalesce kinds (recorded p) cfg k delta s ≡ flush kinds (recorded p) cfg k t))
  unfolding coalesce recorded
  coalesce_cases k delta s =
      let c = buffer_of k s.coalescers in
      let (at, w1) = (recorded p).now s.publisher in
      let first : Bool = c.count == 0 in
      let c1 : TokenCoalescer = record {
        buf = c.buf ++ delta;
        count = suc c.count;
        batch_start = if first then at else c.batch_start;
      } in
      let s1 : Recorded W = record s {
        coalescers = put k c1 s.coalescers;
        publisher = if first then w1 else s.publisher;
      } in
      let (later, w2) = (recorded p).now s1.publisher in
      let s2 : Recorded W = record s1 { publisher = w2 } in
      let same : s1.publisher.1 ≡ s.publisher.1 = either_log first w1 s.publisher refl in
      elim (Bool-cases (leb_ℤ (coalescer_settings cfg).max_tokens (pos c1.count))) [
        | inl full ↦
            (c1, s1, refl, ground arith, refl, refl, refl, same, inr (rw (full, coalesce) refl))
        | inr room ↦
            elim (Bool-cases
              (leb_ℤ (coalescer_settings cfg).max_interval (later -ℤ c1.batch_start))) [
                | inl late ↦ (
                  c1,
                  s2,
                  refl,
                  ground arith,
                  refl,
                  refl,
                  refl,
                  same,
                  inr (rw (room, coalesce) (rw late refl)),
                )
                | inr soon ↦ (
                  c1,
                  s2,
                  refl,
                  ground arith,
                  refl,
                  refl,
                  refl,
                  same,
                  inl (rw (room, coalesce) (rw soon refl)),
                )
              ]
      ]
