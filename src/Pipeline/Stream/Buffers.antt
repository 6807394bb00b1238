-- ===== src/Pipeline/Stream/Buffers.antt =====
-- What is buffered, and what a flush does.
use mathlib.Core.List.{append-nil, append_assoc}
use lightchain_worker.Base.{
  ℕ, ◌+◌, ◌%◌, ◌^◌, ◌≡◌, ◌≢◌, refl, sym, ap, ◌∙◌, inl, inr, none, some, List, [], ◌∷◌, ◌++◌, arith,
  ok, ◌==◌, if◌then◌else◌, Bool-cases,
}
use lightchain_worker.Base.Bytes.{Bytes}
use lightchain_worker.Pipeline.Stream.{
  FrameKinds, Frame, Publisher, TokenCoalescer, new_token_coalescer, StreamConfig, ChunkStreamer,
  find, put, publish,
}

-- The same publisher, with the frames that it has published noted beside it.
unfoldable pub recorded : {X W : Type 0} → Publisher X W → Publisher X (W × List Frame)
recorded p = record {
  encrypt = λ bs (w, log). let (a, w') = p.encrypt bs w in (a, (w', log));
  publish_chunk = λ f (w, log). (p.publish_chunk f w, log ++ (f ∷ []));
  now = λ (w, log). let (t, w') = p.now w in (t, (w', log));
}

-- The bytes of a text, each with its kind.
unfoldable pub tagged : ℕ → Bytes → List (ℕ × ℕ)
tagged kind [] = []
tagged kind (b ∷ bs) = (kind, b) ∷ tagged kind bs

-- What a consumer gets, who opens each frame.
unfoldable pub received : (Bytes → Bytes) → List Frame → List (ℕ × ℕ)
received decrypt [] = []
received decrypt (f ∷ fs) = tagged f.kind (decrypt f.ciphertext) ++ received decrypt fs

pub tagged-append :
    (kind : ℕ) (bs cs : Bytes) → tagged kind (bs ++ cs) ≡ tagged kind bs ++ tagged kind cs
unfolding tagged
tagged-append kind [] cs = refl
tagged-append kind (b ∷ bs) cs = ap (λ l. (kind, b) ∷ l) (tagged-append kind bs cs)

received-append :
    (decrypt : Bytes → Bytes) (fs : List Frame) (f : Frame)
    → received decrypt (fs ++ (f ∷ []))
      ≡ received decrypt fs ++ tagged f.kind (decrypt f.ciphertext)
unfolding received
received-append decrypt [] f = append-nil (tagged f.kind (decrypt f.ciphertext))
received-append decrypt (g ∷ fs) f =
    ap (λ l. tagged g.kind (decrypt g.ciphertext) ++ l) (received-append decrypt fs f)
    ∙ sym (
        append_assoc (tagged g.kind (decrypt g.ciphertext)) (received decrypt fs)
          (tagged f.kind (decrypt f.ciphertext)))

pub find-put :
    (j k : ℕ) (c : TokenCoalescer) (cs : List (ℕ × TokenCoalescer))
    → find j (put k c cs) ≡ (if k == j then some c else find j cs)
unfolding find put
find-put j k c [] = refl
find-put j k c ((i, d) ∷ cs) = ground (arith, find-put j k c cs)

-- The coalescer of a kind, in a list.
abbrev pub buffer_of : ℕ → List (ℕ × TokenCoalescer) → TokenCoalescer
buffer_of kind cs = elim (find kind cs) [ none ↦ new_token_coalescer | some c ↦ c ]

pub buffer_of-put :
    (j k : ℕ) (c : TokenCoalescer) (cs : List (ℕ × TokenCoalescer))
    → buffer_of j (put k c cs) ≡ (if k == j then c else buffer_of j cs)
buffer_of-put j k c cs = ground (arith, find-put j k c cs)

abbrev pub Recorded : Type 0 → Type 0
Recorded W = ChunkStreamer (W × List Frame)

abbrev pub sent : {W : Type 0} → (Bytes → Bytes) → Recorded W → List (ℕ × ℕ)
sent decrypt s = received decrypt s.publisher.1

-- What has been sent, and then what is buffered for the last kind.
abbrev pub content_of : {W : Type 0} → (Bytes → Bytes) → Recorded W → List (ℕ × ℕ)
content_of decrypt s = sent decrypt s ++ tagged s.last_kind (buffer_of s.last_kind s.coalescers).buf

-- Only the last kind has deltas buffered, and where none are counted there is none.
pub record Tidy {W : Type 0} (s : Recorded W) : Type 0 where
  pub calm : (k : ℕ) → k ≢ s.last_kind → (buffer_of k s.coalescers).count ≡ 0
  pub fresh : s.last_kind ≡ 0 → (buffer_of 0 s.coalescers).count ≡ 0
  pub shape : (k : ℕ) → (buffer_of k s.coalescers).count ≡ 0 → (buffer_of k s.coalescers).buf ≡ []

-- Every text is sealed, and opened again.
abbrev pub Opens : {X W : Type 0} → Publisher X W → (Bytes → Bytes) → Type 0
Opens {X} {W} p decrypt =
    (bs : Bytes) (w : W)
    → (ciphertext : Bytes) × ((p.encrypt bs w).0 ≡ ok ciphertext) × (decrypt ciphertext ≡ bs)

module _ {X W : Type 0} (kinds : FrameKinds) (p : Publisher X W) (cfg : StreamConfig)
    (decrypt : Bytes → Bytes) (opens : Opens p decrypt) where
  pub sent-publish :
      (kind : ℕ) (bs : Bytes) (s : Recorded W)
      → sent decrypt (publish kinds (recorded p) cfg kind bs s)
        ≡ sent decrypt s ++ tagged (kinds.normalize kind) bs
  unfolding publish recorded tagged
  sent-publish kind [] s = sym (append-nil (sent decrypt s))
  sent-publish kind (b ∷ bs) s =
      let (ciphertext, sealed, opened) = opens (b ∷ bs) s.publisher.0 in
      let frame : Frame = record {
        sequence = (s.seq + 1) % 2 ^ 32;
        kind = kinds.normalize kind;
        ciphertext = ciphertext;
      } in
      let got =
        received-append decrypt s.publisher.1 frame
        ∙ ap (λ t. sent decrypt s ++ tagged (kinds.normalize kind) t) opened in
      elim (Bool-cases ((s.seq + 1) % 2 ^ 32 == 1)) [
        | inl first ↦ rw (sealed, publish) (rw first got)
        | inr later ↦ rw (sealed, publish) (rw later got)
      ]

  -- What a publication leaves alone.
  pub publish_buffers :
      (kind : ℕ) (bs : Bytes) (s : Recorded W)
      → ((publish kinds (recorded p) cfg kind bs s).coalescers ≡ s.coalescers)
        × ((publish kinds (recorded p) cfg kind bs s).last_kind ≡ s.last_kind)
  unfolding publish recorded
  publish_buffers kind [] s = (refl, refl)
  publish_buffers kind (b ∷ bs) s =
      let (ciphertext, sealed, opened) = opens (b ∷ bs) s.publisher.0 in
      rw (sealed, publish) (refl, refl)
