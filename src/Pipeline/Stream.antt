-- ===== src/Pipeline/Stream.antt =====
-- internal/pipeline/stream.go: the token deltas of a response, batched by kind, encrypted and
-- published as numbered frames. The kinds are numbers, with 0 for the empty one; which there are is
-- a parameter, and so are the encryption, the publisher and the clock. `publish` returns nil on
-- every path, so that no call here returns an error. A nil streamer, on which every call does
-- nothing, is left out, and so are the logs.
pub mod Buffers
pub mod Flushes
pub mod Numbers
pub mod Order
pub mod Runs
use lightchain_worker.Base.{
  ℕ, suc, ◌+◌, ◌%◌, ◌^◌, Bool, true, false, not, ◌&&◌, ◌||◌, Option, none, some, List, [], ◌∷◌,
  ◌++◌, Result, ok, err, ℤ, pos, ◌-ℤ◌, leb_ℤ, ◌==◌, if◌then◌else◌,
}
use lightchain_worker.Base.Bytes.{Bytes}

-- The kinds of package types: what `Normalize` does, and the four that `FlushAll` names.
pub record FrameKinds : Type 0 where
  pub normalize : ℕ → ℕ
  pub text : ℕ
  pub reasoning : ℕ
  pub artifact : ℕ
  pub audio : ℕ

-- The kinds that `FlushAll` names.
abbrev pub flushed_kinds : FrameKinds → List ℕ
flushed_kinds kinds = kinds.reasoning ∷ (kinds.artifact ∷ (kinds.audio ∷ (kinds.text ∷ [])))

-- The arguments of `PublishChunk` that differ between the frames of a job.
pub record Frame : Type 0 where
  pub sequence : ℕ  -- uint32
  pub kind : ℕ
  pub ciphertext : Bytes

pub record Publisher (X W : Type 0) : Type 0 where
  pub encrypt : Bytes → W → Result X Bytes × W
  pub publish_chunk : Frame → W → W
  pub now : W → ℤ × W

-- `tokenCoalescer`, without its settings. It holds fewer deltas than the maximum.
pub record TokenCoalescer : Type 0 where
  pub buf : Bytes
  pub count : ℕ
  pub batch_start : ℤ

pub record StreamConfig : Type 0 where
  pub max_tokens : ℤ  -- int
  pub max_interval : ℤ

-- `newTokenCoalescer`: 32 deltas, and 100 milliseconds.
unfoldable pub coalescer_settings : StreamConfig → StreamConfig
coalescer_settings cfg = record {
  max_tokens = if leb_ℤ cfg.max_tokens (pos 0) then pos 32 else cfg.max_tokens;
  max_interval = if leb_ℤ cfg.max_interval (pos 0) then pos 100000000 else cfg.max_interval;
}

abbrev pub new_token_coalescer : TokenCoalescer
new_token_coalescer = record { buf = []; count = 0; batch_start = pos 0 }

pub record ChunkStreamer (W : Type 0) : Type 0 where
  pub seq : ℕ  -- uint32
  pub coalescers : List (ℕ × TokenCoalescer)
  pub last_kind : ℕ
  pub first_chunk_at : Option ℤ
  pub saw_text : Bool
  pub publisher : W

-- What `newChunkStreamer` sets, once streaming is possible.
abbrev pub new_chunk_streamer : {W : Type 0} → W → ChunkStreamer W
new_chunk_streamer publisher = record {
  seq = 0;
  coalescers = [];
  last_kind = 0;
  first_chunk_at = none;
  saw_text = false;
  publisher = publisher;
}

unfoldable pub find : ℕ → List (ℕ × TokenCoalescer) → Option TokenCoalescer
find k [] = none
find k ((j, c) ∷ cs) = let rest = find k cs in if j == k then some c else rest

unfoldable pub put : ℕ → TokenCoalescer → List (ℕ × TokenCoalescer) → List (ℕ × TokenCoalescer)
put k c [] = (k, c) ∷ []
put k c ((j, d) ∷ cs) = let rest = put k c cs in if j == k then (k, c) ∷ cs else (j, d) ∷ rest

module _ {X W : Type 0} (kinds : FrameKinds) (p : Publisher X W) (cfg : StreamConfig) where
  -- A batch that cannot be encrypted is dropped, and takes no number.
  unfoldable pub publish : ℕ → Bytes → ChunkStreamer W → ChunkStreamer W
  publish kind [] s = s
  publish kind (b ∷ bs) s =
      let (sealed, w) = p.encrypt (b ∷ bs) s.publisher in
      elim sealed [
        | err e ↦ record s { publisher = w }
        | ok ciphertext ↦
            let seq = (s.seq + 1) % 2 ^ 32 in
            let (at, w') = p.now w in
            let frame : Frame = record {
              sequence = seq;
              kind = kinds.normalize kind;
              ciphertext = ciphertext;
            } in
            let first = seq == 1 in
            record s {
              seq = seq;
              first_chunk_at = if first then some at else s.first_chunk_at;
              saw_text = s.saw_text || kinds.normalize kind == kinds.text;
              publisher = p.publish_chunk frame (if first then w' else w);
            }
      ]

  -- `coalescerFor`, for a kind that is normalized, and its state with it if it was not there.
  abbrev pub coalescer_for : ℕ → ChunkStreamer W → TokenCoalescer
  coalescer_for kind s = elim (find kind s.coalescers) [ none ↦ new_token_coalescer | some c ↦ c ]

  abbrev pub store_coalescer : ℕ → TokenCoalescer → ChunkStreamer W → ChunkStreamer W
  store_coalescer kind c s = record s { coalescers = put kind c s.coalescers }

  -- `tokenCoalescer.Flush`
  unfoldable pub flush : ℕ → ChunkStreamer W → ChunkStreamer W
  flush kind s =
      let c = coalescer_for kind s in
      if c.count == 0
      then s
      else publish kind c.buf (store_coalescer kind (record c { buf = []; count = 0 }) s)

  -- `tokenCoalescer.Add`, of a delta that is not empty. The clock is read for the first delta of a
  -- batch, and again where the number of deltas does not make it full.
  unfoldable pub coalesce : ℕ → Bytes → ChunkStreamer W → ChunkStreamer W
  coalesce kind delta s =
      let c = coalescer_for kind s in
      let (at, w1) = p.now s.publisher in
      let first = c.count == 0 in
      let c1 : TokenCoalescer = record {
        buf = c.buf ++ delta;
        count = suc c.count;
        batch_start = if first then at else c.batch_start;
      } in
      let s1 = record s {
        coalescers = put kind c1 s.coalescers;
        publisher = if first then w1 else s.publisher;
      } in
      if leb_ℤ (coalescer_settings cfg).max_tokens (pos c1.count)
      then flush kind s1
      else (let (later, w2) = p.now s1.publisher in
          let s2 = record s1 { publisher = w2 } in
          if leb_ℤ (coalescer_settings cfg).max_interval (later -ℤ c1.batch_start)
          then flush kind s2
          else s2)

  -- `chunkStreamer.Add`
  unfoldable pub add : ℕ → Bytes → ChunkStreamer W → ChunkStreamer W
  add kind [] s = s
  add kind (b ∷ bs) s =
      let k = kinds.normalize kind in
      let s' =
        if not (s.last_kind == 0) && not (s.last_kind == k) then flush s.last_kind s else s in
      coalesce k (b ∷ bs) (record s' { last_kind = k })

  -- The loop of `FlushAll`. A kind without a coalescer has nothing buffered.
  unfoldable pub flush_kinds : List ℕ → ChunkStreamer W → ChunkStreamer W
  flush_kinds [] s = s
  flush_kinds (k ∷ ks) s = flush_kinds ks (flush k s)

  unfoldable pub flush_all : ChunkStreamer W → ChunkStreamer W
  unfolding flush_kinds
  flush_all = flush_kinds (flushed_kinds kinds)

  -- `PublishBytes`
  unfoldable pub publish_bytes : ℕ → Bytes → ChunkStreamer W → ChunkStreamer W
  publish_bytes kind [] s = s
  publish_bytes kind (b ∷ bs) s =
      publish kind (b ∷ bs) (if s.last_kind == 0 then s else flush s.last_kind s)
