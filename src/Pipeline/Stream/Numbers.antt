-- ===== src/Pipeline/Stream/Numbers.antt =====
-- The frames of a response are numbered without a gap.
use lightchain_worker.Base.{
  ℕ, zero, suc, ◌+◌, ◌%◌, ◌^◌, ◌≡◌, refl, sym, ap, subst, ◌∙◌, inl, inr, Bool, true, false, List,
  [], ◌∷◌, ◌++◌, if◌then◌else◌, arith, length, length-append, ◌==◌, Bool-cases, Result-cases,
}
use lightchain_worker.Base.Bytes.{Bytes}
use lightchain_worker.Pipeline.Stream.{
  FrameKinds, Frame, Publisher, StreamConfig, new_chunk_streamer, flushed_kinds, publish, flush,
  coalesce, add, flush_kinds, flush_all, publish_bytes,
}
use lightchain_worker.Pipeline.Stream.Buffers.{recorded, Recorded}
use lightchain_worker.Pipeline.Stream.Flushes.{coalesce_cases}
use lightchain_worker.Pipeline.Stream.Runs.{Call, adding, publishing, run}

-- 1, 2, 3, ..., as numbers of 32 bits.
unfoldable pub numbers_to : ℕ → List ℕ
numbers_to zero = []
numbers_to (suc n) = numbers_to n ++ (suc n % 2 ^ 32 ∷ [])

unfoldable pub sequences : List Frame → List ℕ
sequences [] = []
sequences (f ∷ fs) = f.sequence ∷ sequences fs

sequences-append :
    (fs : List Frame) (f : Frame) → sequences (fs ++ (f ∷ [])) ≡ sequences fs ++ (f.sequence ∷ [])
unfolding sequences
sequences-append [] f = refl
sequences-append (g ∷ fs) f = ap (λ l. g.sequence ∷ l) (sequences-append fs f)

-- The counter and the frames so far.
abbrev pub Numbered : {W : Type 0} → Recorded W → Type 0
Numbered s =
    (sequences s.publisher.1 ≡ numbers_to (length s.publisher.1))
    × (s.seq ≡ length s.publisher.1 % 2 ^ 32)

one_more_frame :
    (log : List Frame) (f : Frame) (seq : ℕ)
    → sequences log ≡ numbers_to (length log)
    → seq ≡ length log % 2 ^ 32
    → f.sequence ≡ (seq + 1) % 2 ^ 32
    → (sequences (log ++ (f ∷ [])) ≡ numbers_to (length (log ++ (f ∷ []))))
      × ((seq + 1) % 2 ^ 32 ≡ length (log ++ (f ∷ [])) % 2 ^ 32)
unfolding numbers_to
one_more_frame log f seq numbered counted next_one =
    let longer : length (log ++ (f ∷ [])) ≡ suc (length log) =
      omega (arith, length-append log (f ∷ [])) in
    let number : (seq + 1) % 2 ^ 32 ≡ suc (length log) % 2 ^ 32 = omega arith in
    (
      sequences-append log f
          ∙ (ap (λ l. l ++ (f.sequence ∷ [])) numbered
              ∙ (ap (λ n. numbers_to (length log) ++ (n ∷ [])) (next_one ∙ number)
                  ∙ sym (ap numbers_to longer))),
      number ∙ sym (ap (λ n. n % 2 ^ 32) longer),
    )

either-Numbered :
    {W : Type 0} (b : Bool) (s t : Recorded W)
    → Numbered s
    → Numbered t
    → Numbered (if b then s else t)
either-Numbered true s t hs ht = hs
either-Numbered false s t hs ht = ht

module _ {X W : Type 0} (kinds : FrameKinds) (p : Publisher X W) (cfg : StreamConfig) where
  publish-Numbered :
      (kind : ℕ) (bs : Bytes) (s : Recorded W)
      → Numbered s
      → Numbered (publish kinds (recorded p) cfg kind bs s)
  unfolding publish recorded
  publish-Numbered kind [] s h = h
  publish-Numbered kind (b ∷ bs) s (numbered, counted) =
      elim (Result-cases (p.encrypt (b ∷ bs) s.publisher.0).0) [
        | inr (e, failed) ↦ rw (failed, publish) (numbered, counted)
        | inl (ciphertext, sealed) ↦
            let frame : Frame = record {
              sequence = (s.seq + 1) % 2 ^ 32;
              kind = kinds.normalize kind;
              ciphertext = ciphertext;
            } in
            let grown = one_more_frame s.publisher.1 frame s.seq numbered counted refl in
            elim (Bool-cases ((s.seq + 1) % 2 ^ 32 == 1)) [
              | inl first ↦ rw (sealed, publish) (rw first grown)
              | inr later ↦ rw (sealed, publish) (rw later grown)
            ]
      ]

  flush-Numbered :
      (k : ℕ) (s : Recorded W) → Numbered s → Numbered (flush kinds (recorded p) cfg k s)
  unfolding flush
  flush-Numbered k s h = either-Numbered _ s _ h (publish-Numbered k _ _ h)

  coalesce-Numbered :
      (k : ℕ) (delta : Bytes) (s : Recorded W)
      → Numbered s
      → Numbered (coalesce kinds (recorded p) cfg k delta s)
  coalesce-Numbered k delta s (numbered, counted) =
      let (c, t, _, _, _, _, number, log, result) = coalesce_cases kinds p cfg k delta s in
      let h : Numbered t = rw (log, number) (numbered, counted) in
      elim result [
        | inl as_is ↦ subst Numbered (sym as_is) h
        | inr flushed ↦ subst Numbered (sym flushed) (flush-Numbered k t h)
      ]

  add-Numbered :
      (kind : ℕ) (bs : Bytes) (s : Recorded W)
      → Numbered s
      → Numbered (add kinds (recorded p) cfg kind bs s)
  unfolding add
  add-Numbered kind [] s h = h
  add-Numbered kind (b ∷ bs) s h = coalesce-Numbered _ (b ∷ bs) _ (
      either-Numbered _ (flush kinds (recorded p) cfg s.last_kind s) s
        (flush-Numbered s.last_kind s h) h)

  publish_bytes-Numbered :
      (kind : ℕ) (bs : Bytes) (s : Recorded W)
      → Numbered s
      → Numbered (publish_bytes kinds (recorded p) cfg kind bs s)
  unfolding publish_bytes
  publish_bytes-Numbered kind [] s h = h
  publish_bytes-Numbered kind (b ∷ bs) s h =
      publish-Numbered kind (b ∷ bs) _ (either-Numbered _ s _ h (flush-Numbered s.last_kind s h))

  flush_kinds-Numbered :
      (ks : List ℕ) (s : Recorded W)
      → Numbered s
      → Numbered (flush_kinds kinds (recorded p) cfg ks s)
  unfolding flush_kinds
  flush_kinds-Numbered [] s h = h
  flush_kinds-Numbered (k ∷ ks) s h = flush_kinds-Numbered ks _ (flush-Numbered k s h)

  run-Numbered :
      (calls : List Call) (s : Recorded W)
      → Numbered s
      → Numbered (run kinds (recorded p) cfg calls s)
  unfolding run
  run-Numbered [] s h = h
  run-Numbered (adding kind bs ∷ calls) s h = run-Numbered calls _ (add-Numbered kind bs s h)
  run-Numbered (publishing kind bs ∷ calls) s h =
      run-Numbered calls _ (publish_bytes-Numbered kind bs s h)

  -- The frames of a response carry the numbers 1, 2, 3 and so on, as numbers of 32 bits, without a
  -- gap and in the order in which they are published, whichever texts cannot be encrypted.
  pub run_numbers :
      (w : W) (calls : List Call)
      → let s = run kinds (recorded p) cfg calls (new_chunk_streamer (w, [])) in
        let log = (flush_all kinds (recorded p) cfg s).publisher.1 in
        sequences log ≡ numbers_to (length log)
  unfolding flush_all sequences numbers_to
  run_numbers w calls =
      (flush_kinds-Numbered (flushed_kinds kinds) _
        (run-Numbered calls (new_chunk_streamer (w, [])) (refl, omega arith))).0
