-- ===== src/Pipeline/Stream/Order.antt =====
-- The consumer gets the deltas in the order in which they were generated.
use mathlib.Core.List.{append-nil, append_assoc}
use lightchain_worker.Base.{
  ℕ, ◌≡◌, ◌≢◌, refl, sym, ap, subst, ◌∙◌, ◌⊎◌, inl, inr, true, [], ◌∷◌, ◌++◌, if◌then◌else◌, arith,
  ◌==◌, Bool-cases, mem,
}
use lightchain_worker.Base.Bytes.{Bytes}
use lightchain_worker.Pipeline.Stream.{
  FrameKinds, Publisher, TokenCoalescer, StreamConfig, flushed_kinds, put, flush, coalesce, add,
}
use lightchain_worker.Pipeline.Stream.Buffers.{
  recorded, received, tagged, tagged-append, Recorded, sent, Opens, buffer_of, buffer_of-put,
  content_of, Tidy,
}
use lightchain_worker.Pipeline.Stream.Flushes.{flush-Flushed, coalesce_cases}

-- A delta has come behind what there was.
abbrev pub Extended : {W : Type 0} → (Bytes → Bytes) → ℕ → Bytes → Recorded W → Recorded W → Type 0
Extended decrypt k delta s t =
    (content_of decrypt t ≡ content_of decrypt s ++ tagged k delta) × Tidy t × (t.last_kind ≡ k)

module _ {W : Type 0} (decrypt : Bytes → Bytes) (k : ℕ) (delta : Bytes) (s t : Recorded W)
    (c : TokenCoalescer) (last : s.last_kind ≡ k) (not_empty : k ≢ 0)
    (grown : c.buf ≡ (buffer_of k s.coalescers).buf ++ delta) (counted : c.count ≢ 0)
    (buffered : t.coalescers ≡ put k c s.coalescers) (same : t.last_kind ≡ s.last_kind)
    (quiet : sent decrypt t ≡ sent decrypt s) where
  buffers_after :
      (j : ℕ) → buffer_of j t.coalescers ≡ (if k == j then c else buffer_of j s.coalescers)
  buffers_after j = ap (buffer_of j) buffered ∙ buffer_of-put j k c s.coalescers

  grown-Tidy : Tidy s → Tidy t
  grown-Tidy tidy = record {
    calm = λ j apart. ground (arith, buffers_after j, tidy.calm j);
    fresh = λ none_yet. absurd (not_empty (sym last ∙ (sym same ∙ none_yet)));
    shape = λ j idle. ground (arith, buffers_after j, tidy.shape j);
  }

  grown-Extended : Tidy s → Extended decrypt k delta s t
  grown-Extended tidy =
      let buf = (buffer_of k s.coalescers).buf in
      let now_there : (buffer_of k t.coalescers).buf ≡ buf ++ delta =
        ground (arith, buffers_after k) in
      let last' : t.last_kind ≡ k = same ∙ last in
      let content : sent decrypt t ++ tagged k (buffer_of k t.coalescers).buf
          ≡ (sent decrypt s ++ tagged k buf) ++ tagged k delta =
        ap (λ bs. sent decrypt t ++ tagged k bs) now_there
        ∙ (ap (λ l. l ++ tagged k (buf ++ delta)) quiet
            ∙ (ap (λ l. sent decrypt s ++ l) (tagged-append k buf delta)
                ∙ sym (append_assoc (sent decrypt s) (tagged k buf) (tagged k delta)))) in
      (rw (last', last) content, grown-Tidy tidy, last')

-- `Normalize` answers a kind that is not empty and that it leaves alone.
pub record NormalizeLaw (kinds : FrameKinds) : Type 0 where
  pub again : (k : ℕ) → kinds.normalize (kinds.normalize k) ≡ kinds.normalize k
  pub not_empty : (k : ℕ) → kinds.normalize k ≢ 0

abbrev pub AllIdle : {W : Type 0} → Recorded W → Type 0
AllIdle s = (j : ℕ) → (buffer_of j s.coalescers).count ≡ 0

module _ {W : Type 0} (decrypt : Bytes → Bytes) (s : Recorded W) (tidy : Tidy s)
    (idle : AllIdle s) where
  pub idle_content : content_of decrypt s ≡ sent decrypt s
  unfolding tagged
  idle_content =
      ap (λ bs. sent decrypt s ++ tagged s.last_kind bs) (tidy.shape s.last_kind (idle s.last_kind))
      ∙ append-nil (sent decrypt s)

  switched-Tidy : (k : ℕ) → Tidy (record s { last_kind = k })
  switched-Tidy k = record { calm = λ j _. idle j; fresh = λ _. idle 0; shape = tidy.shape }

  switched_content :
      (k : ℕ) → content_of decrypt (record s { last_kind = k }) ≡ content_of decrypt s
  unfolding tagged
  switched_content k =
      ap (λ bs. sent decrypt s ++ tagged k bs) (tidy.shape k (idle k))
      ∙ (append-nil (sent decrypt s) ∙ sym idle_content)

pub unset-AllIdle : {W : Type 0} (s : Recorded W) → Tidy s → s.last_kind ≡ 0 → AllIdle s
unset-AllIdle s tidy unset j = ground (arith, tidy.calm j, tidy.fresh unset)

module _ {X W : Type 0} (kinds : FrameKinds) (p : Publisher X W) (cfg : StreamConfig)
    (decrypt : Bytes → Bytes) (opens : Opens p decrypt) where
  flushed-Extended :
      (k : ℕ) (delta : Bytes) (s t : Recorded W)
      → kinds.normalize k ≡ k
      → Extended decrypt k delta s t
      → Extended decrypt k delta s (flush kinds (recorded p) cfg k t)
  flushed-Extended k delta s t normal (content, tidy, last) =
      let normal' = subst (λ n. kinds.normalize n ≡ n) (sym last) normal in
      let (kept, tidy', last', _) = flush-Flushed kinds p cfg decrypt opens t normal' tidy in
      subst (λ n. Extended decrypt k delta s (flush kinds (recorded p) cfg n t)) last
        (kept ∙ content, tidy', last' ∙ last)

  coalesce-Extended :
      (k : ℕ) (delta : Bytes) (s : Recorded W)
      → kinds.normalize k ≡ k
      → k ≢ 0
      → s.last_kind ≡ k
      → Tidy s
      → Extended decrypt k delta s (coalesce kinds (recorded p) cfg k delta s)
  coalesce-Extended k delta s normal real last tidy =
      let (c, t, grown, counted, buffered, same, _, quiet, result) =
        coalesce_cases kinds p cfg k delta s in
      let extended =
        grown-Extended decrypt k delta s t c last real grown counted buffered same
          (ap (received decrypt) quiet) tidy in
      elim result [
        | inl as_is ↦ subst (Extended decrypt k delta s) (sym as_is) extended
        | inr flushed ↦
            subst (Extended decrypt k delta s) (sym flushed)
              (flushed-Extended k delta s t normal extended)
      ]

  -- Before the first delta, and after.
  abbrev pub Known : Recorded W → Type 0
  Known s =
      (s.last_kind ≡ 0)
      ⊎ ((kinds.normalize s.last_kind ≡ s.last_kind)
          × (mem s.last_kind (flushed_kinds kinds) ≡ true))

  -- A call with a text of a kind: what there was comes first, then the text.
  abbrev pub Followed : ℕ → Bytes → Recorded W → Recorded W → Type 0
  Followed kind bs s t =
      (content_of decrypt t ≡ content_of decrypt s ++ tagged (kinds.normalize kind) bs)
      × Tidy t
      × Known t

  pub Known-normal :
      (s : Recorded W) → Known s → s.last_kind ≢ 0 → kinds.normalize s.last_kind ≡ s.last_kind
  Known-normal s (inl unset) set = absurd (set unset)
  Known-normal s (inr (normal, _)) set = normal

  pub nothing_follows : (kind : ℕ) (s : Recorded W) → Tidy s → Known s → Followed kind [] s s
  unfolding tagged
  nothing_follows kind s tidy known = (sym (append-nil (content_of decrypt s)), tidy, known)

  -- The last kind is flushed, if there is one.
  abbrev pub Drained : Recorded W → Recorded W → Type 0
  Drained s t =
      (content_of decrypt t ≡ content_of decrypt s)
      × Tidy t
      × AllIdle t
      × (t.last_kind ≡ s.last_kind)

  pub flush-Drained :
      (s : Recorded W)
      → kinds.normalize s.last_kind ≡ s.last_kind
      → Tidy s
      → Drained s (flush kinds (recorded p) cfg s.last_kind s)
  flush-Drained s normal tidy =
      let t = flush kinds (recorded p) cfg s.last_kind s in
      let (kept, tidy', last, none_left) = flush-Flushed kinds p cfg decrypt opens s normal tidy in
      let calm' = tidy'.calm in (kept, tidy', (λ j. ground (arith, calm' j, none_left, last)), last)

  -- `add`, once the buffer of another kind is flushed.
  begun-Followed :
      (law : NormalizeLaw kinds) (kind : ℕ) (bs : Bytes) (s t : Recorded W)
      → mem (kinds.normalize kind) (flushed_kinds kinds) ≡ true
      → content_of decrypt (record t { last_kind = kinds.normalize kind }) ≡ content_of decrypt s
      → Tidy (record t { last_kind = kinds.normalize kind })
      → Followed kind bs s (
          coalesce kinds
            (recorded p)
            cfg
            (kinds.normalize kind)
            bs
            (record t { last_kind = kinds.normalize kind }))
  begun-Followed law kind bs s t listed kept tidy =
      let k = kinds.normalize kind in
      let (content, tidy', last) =
        coalesce-Extended k bs (record t { last_kind = k }) (law.again kind) (law.not_empty kind)
          refl tidy in
      (
        content ∙ ap (λ l. l ++ tagged k bs) kept,
        tidy',
        inr (
          subst (λ n. kinds.normalize n ≡ n) (sym last) (law.again kind),
          subst (λ n. mem n (flushed_kinds kinds) ≡ true) (sym last) listed,
        ),
      )

  pub add-Followed :
      (law : NormalizeLaw kinds) (kind : ℕ) (bs : Bytes) (s : Recorded W)
      → mem (kinds.normalize kind) (flushed_kinds kinds) ≡ true
      → Tidy s
      → Known s
      → Followed kind bs s (add kinds (recorded p) cfg kind bs s)
  unfolding add
  add-Followed law kind [] s listed tidy known = nothing_follows kind s tidy known
  add-Followed law kind (b ∷ bs) s listed tidy known =
      let k = kinds.normalize kind in
      elim (Bool-cases (s.last_kind == 0)) [
        | inl unset ↦
            let idle = unset-AllIdle s tidy (ground arith) in
            rw (unset, add)
              (begun-Followed law kind (b ∷ bs) s s listed (switched_content decrypt s tidy idle k)
                (switched-Tidy decrypt s tidy idle k))
        | inr set ↦ elim (Bool-cases (s.last_kind == k)) [
          | inl same ↦
              let at : s.last_kind ≡ k = ground arith in
              rw (set, add)
                (rw (same, add)
                  (begun-Followed law kind (b ∷ bs) s s listed (rw (← at) refl) (rw (← at) tidy)))
          | inr other ↦
              let normal : kinds.normalize s.last_kind ≡ s.last_kind =
                Known-normal s known (λ h. absurd (ground arith)) in
              let t = flush kinds (recorded p) cfg s.last_kind s in
              let (kept, tidy', idle, _) = flush-Drained s normal tidy in
              rw (set, add)
                (rw (other, add)
                  (begun-Followed law kind (b ∷ bs) s t listed
                    (switched_content decrypt t tidy' idle k ∙ kept)
                    (switched-Tidy decrypt t tidy' idle k)))
        ]
      ]
