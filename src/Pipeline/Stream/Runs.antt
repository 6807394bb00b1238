-- ===== src/Pipeline/Stream/Runs.antt =====
-- A whole response: the calls of its streamer in order, and `FlushAll` at the end.
use mathlib.Core.List.{append-nil, append_assoc}
use lightchain_worker.Base.{
  ℕ, ◌≡◌, ◌≢◌, refl, sym, ap, subst, ◌∙◌, ◌⊎◌, inl, inr, true, List, [], ◌∷◌, ◌++◌, arith, ◌==◌,
  Bool-cases, All, mem,
}
use lightchain_worker.Base.Bytes.{Bytes}
use lightchain_worker.Pipeline.Stream.{
  FrameKinds, Publisher, StreamConfig, ChunkStreamer, new_chunk_streamer, find, flushed_kinds,
  publish, flush, add, flush_kinds, flush_all, publish_bytes,
}
use lightchain_worker.Pipeline.Stream.Buffers.{
  recorded, received, tagged, Recorded, sent, Opens, sent-publish, publish_buffers, content_of,
  Tidy,
}
use lightchain_worker.Pipeline.Stream.Flushes.{flush_idle}
use lightchain_worker.Pipeline.Stream.Order.{
  NormalizeLaw, AllIdle, unset-AllIdle, idle_content, Known, Known-normal, Followed,
  nothing_follows, Drained, flush-Drained, add-Followed,
}

pub data Call : Type 0 where
  adding publishing : ℕ → Bytes → Call

Tidy-same :
    {W : Type 0} (s t : Recorded W)
    → t.coalescers ≡ s.coalescers
    → t.last_kind ≡ s.last_kind
    → Tidy s
    → Tidy t
Tidy-same s t same last tidy = record {
  calm = λ k apart. rw same (tidy.calm k (rw (← last) apart));
  fresh = λ unset. rw same (tidy.fresh (sym last ∙ unset));
  shape = λ k. rw same (tidy.shape k);
}

module _ {X W : Type 0} (kinds : FrameKinds) (p : Publisher X W) (cfg : StreamConfig) where
  unfoldable pub run : List Call → ChunkStreamer W → ChunkStreamer W
  run [] s = s
  run (adding kind bs ∷ calls) s = run calls (add kinds p cfg kind bs s)
  run (publishing kind bs ∷ calls) s = run calls (publish_bytes kinds p cfg kind bs s)

-- What the model said, byte by byte with its kind.
unfoldable pub said : FrameKinds → List Call → List (ℕ × ℕ)
said kinds [] = []
said kinds (adding kind bs ∷ calls) = tagged (kinds.normalize kind) bs ++ said kinds calls
said kinds (publishing kind bs ∷ calls) = tagged (kinds.normalize kind) bs ++ said kinds calls

-- Only deltas of the kinds that `FlushAll` names are added.
abbrev pub IsListed : FrameKinds → Call → Type 0
IsListed kinds (adding kind bs) = mem (kinds.normalize kind) (flushed_kinds kinds) ≡ true
IsListed kinds (publishing kind bs) = Unit

module _ {X W : Type 0} (kinds : FrameKinds) (p : Publisher X W) (cfg : StreamConfig)
    (decrypt : Bytes → Bytes) (opens : Opens p decrypt) where
  published-Followed :
      (kind : ℕ) (bs : Bytes) (s t : Recorded W)
      → Known kinds p cfg decrypt opens s
      → Drained kinds p cfg decrypt opens s t
      → Followed kinds p cfg decrypt opens kind bs s (publish kinds (recorded p) cfg kind bs t)
  unfolding tagged
  published-Followed kind bs s t known (kept, tidy, idle, last) =
      let u = publish kinds (recorded p) cfg kind bs t in
      let (buffers, last') = publish_buffers kinds p cfg decrypt opens kind bs t in
      let tidy' = Tidy-same t u buffers last' tidy in
      let idle' : AllIdle u = λ j. rw buffers (idle j) in
      (
        idle_content decrypt u tidy' idle'
            ∙ (sent-publish kinds p cfg decrypt opens kind bs t
                ∙ ap (λ l. l ++ tagged (kinds.normalize kind) bs)
                    (sym (idle_content decrypt t tidy idle) ∙ kept)),
        tidy',
        rw (last', last) known,
      )

  publish_bytes-Followed :
      (kind : ℕ) (bs : Bytes) (s : Recorded W)
      → Tidy s
      → Known kinds p cfg decrypt opens s
      → Followed kinds p cfg decrypt opens kind bs s
          (publish_bytes kinds (recorded p) cfg kind bs s)
  unfolding publish_bytes
  publish_bytes-Followed kind [] s tidy known =
      nothing_follows kinds p cfg decrypt opens kind s tidy known
  publish_bytes-Followed kind (b ∷ bs) s tidy known = elim (Bool-cases (s.last_kind == 0)) [
    | inl unset ↦
        rw (unset, publish_bytes)
          (published-Followed kind (b ∷ bs) s s known
            (refl, tidy, unset-AllIdle s tidy (ground arith), refl))
    | inr set ↦
        let normal = Known-normal kinds p cfg decrypt opens s known (λ h. absurd (ground arith)) in
        rw (set, publish_bytes)
          (published-Followed kind (b ∷ bs) s _ known
            (flush-Drained kinds p cfg decrypt opens s normal tidy))
  ]

  -- A run from a tidy streamer.
  abbrev pub Ran : List Call → Recorded W → Recorded W → Type 0
  Ran calls s t =
      (content_of decrypt t ≡ content_of decrypt s ++ said kinds calls)
      × Tidy t
      × Known kinds p cfg decrypt opens t

  Followed-Ran :
      (kind : ℕ) (bs : Bytes) (calls : List Call) (s t u : Recorded W)
      → Followed kinds p cfg decrypt opens kind bs s t
      → (content_of decrypt u ≡ content_of decrypt t ++ said kinds calls)
      → content_of decrypt u
        ≡ content_of decrypt s ++ (tagged (kinds.normalize kind) bs ++ said kinds calls)
  Followed-Ran kind bs calls s t u (content, _, _) rest =
      rest
      ∙ (ap (λ l. l ++ said kinds calls) content
          ∙ append_assoc (content_of decrypt s) (tagged (kinds.normalize kind) bs)
              (said kinds calls))

  run-Ran :
      (law : NormalizeLaw kinds) (calls : List Call) (s : Recorded W)
      → All (IsListed kinds) calls
      → Tidy s
      → Known kinds p cfg decrypt opens s
      → Ran calls s (run kinds (recorded p) cfg calls s)
  unfolding run said
  run-Ran law [] s listed tidy known = (sym (append-nil (content_of decrypt s)), tidy, known)
  run-Ran law (adding kind bs ∷ calls) s (listed, more) tidy known =
      let t = add kinds (recorded p) cfg kind bs s in
      let followed = add-Followed kinds p cfg decrypt opens law kind bs s listed tidy known in
      let (rest, tidy', known') = run-Ran law calls t more followed.1 followed.2 in
      (
        Followed-Ran kind bs calls s t (run kinds (recorded p) cfg calls t) followed rest,
        tidy',
        known',
      )
  run-Ran law (publishing kind bs ∷ calls) s (listed, more) tidy known =
      let t = publish_bytes kinds (recorded p) cfg kind bs s in
      let followed = publish_bytes-Followed kind bs s tidy known in
      let (rest, tidy', known') = run-Ran law calls t more followed.1 followed.2 in
      (
        Followed-Ran kind bs calls s t (run kinds (recorded p) cfg calls t) followed rest,
        tidy',
        known',
      )

  flush_kinds-Drained :
      (ks : List ℕ) (s : Recorded W)
      → Tidy s
      → (AllIdle s ⊎ ((kinds.normalize s.last_kind ≡ s.last_kind) × (mem s.last_kind ks ≡ true)))
      → Drained kinds p cfg decrypt opens s (flush_kinds kinds (recorded p) cfg ks s)
  unfolding flush_kinds
  flush_kinds-Drained [] s tidy (inl idle) = (refl, tidy, idle, refl)
  flush_kinds-Drained [] s tidy (inr (_, nowhere)) = absurd (ground arith)
  flush_kinds-Drained (k ∷ ks) s tidy (inl idle) =
      subst (λ t. Drained kinds p cfg decrypt opens s (flush_kinds kinds (recorded p) cfg ks t))
        (sym (flush_idle kinds p cfg decrypt opens k s (idle k)))
        (flush_kinds-Drained ks s tidy (inl idle))
  flush_kinds-Drained (k ∷ ks) s tidy (inr (normal, there)) = elim (Bool-cases (k == s.last_kind)) [
    | inl now ↦
        let at : k ≡ s.last_kind = ground arith in
        let t = flush kinds (recorded p) cfg s.last_kind s in
        let (kept, tidy', idle, last) = flush-Drained kinds p cfg decrypt opens s normal tidy in
        let (kept', tidy'', idle', last') = flush_kinds-Drained ks t tidy' (inl idle) in
        subst
          (λ n.
            Drained kinds p cfg decrypt opens s
              (flush_kinds kinds (recorded p) cfg ks (flush kinds (recorded p) cfg n s)))
          (sym at) (kept' ∙ kept, tidy'', idle', last' ∙ last)
    | inr other ↦
        let apart : k ≢ s.last_kind = ground arith in
        let still : mem s.last_kind ks ≡ true = ground arith in
        subst (λ t. Drained kinds p cfg decrypt opens s (flush_kinds kinds (recorded p) cfg ks t))
          (sym (flush_idle kinds p cfg decrypt opens k s (tidy.calm k apart)))
          (flush_kinds-Drained ks s tidy (inr (normal, still)))
  ]

  sent-flush_all :
      (s : Recorded W)
      → Tidy s
      → Known kinds p cfg decrypt opens s
      → sent decrypt (flush_all kinds (recorded p) cfg s) ≡ content_of decrypt s
  unfolding flush_all
  sent-flush_all s tidy known =
      let drained = flush_kinds-Drained (flushed_kinds kinds) s tidy (go known) in
      sym (idle_content decrypt _ drained.1 drained.2) ∙ drained.0
    where
      go :
          Known kinds p cfg decrypt opens s
          → AllIdle s
            ⊎ ((kinds.normalize s.last_kind ≡ s.last_kind)
                × (mem s.last_kind (flushed_kinds kinds) ≡ true))
      go (inl unset) = inl (unset-AllIdle s tidy unset)
      go (inr here) = inr here

  -- A consumer who opens the frames in the order in which they were published gets exactly what was
  -- given to the streamer, byte by byte with its normalized kind and in that order, whatever the
  -- batch size and the clock, if encryption never fails and every frame opens to what was encrypted,
  -- `Normalize` is lawful, and only deltas of the kinds that `FlushAll` names are added.
  pub run-received :
      (law : NormalizeLaw kinds) (w : W) (calls : List Call)
      → All (IsListed kinds) calls
      → let s = run kinds (recorded p) cfg calls (new_chunk_streamer (w, [])) in
        sent decrypt (flush_all kinds (recorded p) cfg s) ≡ said kinds calls
  unfolding received tagged find
  run-received law w calls listed =
      let s : Recorded W = new_chunk_streamer (w, []) in
      let tidy : Tidy s = record { calm = λ k _. refl; fresh = λ _. refl; shape = λ k _. refl } in
      let (content, tidy', known) = run-Ran law calls s listed tidy (inl refl) in
      sent-flush_all (run kinds (recorded p) cfg calls s) tidy' known ∙ content
