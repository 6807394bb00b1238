-- ===== src/Tests/Streams.antt =====
-- Runs of the streamer.
use lightchain_worker.Base.{
  ◌-ℤ◌, map, ℕ, suc, ◌≡◌, refl, List, [], ◌∷◌, arith, ok, pos, if◌then◌else◌, ◌==◌, length,
}
use lightchain_worker.Base.Bytes.{Bytes, codes}
use lightchain_worker.Pipeline.Stream.{
  put, coalescer_settings, coalesce, add, publish, publish_bytes, find, flush, FrameKinds, Frame,
  Publisher, StreamConfig, new_chunk_streamer, flush_all,
}
use lightchain_worker.Pipeline.Stream.Buffers.{recorded, sent}
use lightchain_worker.Pipeline.Stream.Order.{NormalizeLaw}
use lightchain_worker.Pipeline.Stream.Runs.{Call, adding, publishing, run, said, run-received}
use lightchain_worker.Pipeline.Stream.Numbers.{sequences, numbers_to, run_numbers}

-- The empty kind is text.
abbrev kinds : FrameKinds
kinds = record {
  normalize = λ k. if k == 0 then 1 else k;
  text = 1;
  reasoning = 2;
  artifact = 3;
  audio = 4;
}

law : NormalizeLaw kinds
law = record { again = λ k. ground arith; not_empty = λ k. ground arith }

-- The sealed text is the text; the clock moves at every reading.
abbrev publisher : Publisher ℕ ℕ
publisher = record {
  encrypt = λ bs w. (ok bs, w);
  publish_chunk = λ f w. w;
  now = λ w. (pos w, suc w);
}

abbrev config : StreamConfig
config = record { max_tokens = pos 2; max_interval = pos 1000 }

abbrev calls : List Call
calls =
    adding 2 (codes "so")
    ∷ (adding 0 (codes "a")
        ∷ (adding 1 (codes "b") ∷ (adding 1 (codes "c") ∷ (publishing 9 (codes "{}") ∷ []))))

run-received_example :
    let s = run kinds (recorded publisher) config calls (new_chunk_streamer (5, [])) in
    sent (λ bs. bs) (flush_all kinds (recorded publisher) config s) ≡ said kinds calls
run-received_example =
    run-received kinds publisher config (λ bs. bs) (λ bs w. (bs, refl, refl)) law 5 calls
      (refl, (refl, (refl, (refl, (tt, tt)))))

run_numbers_example :
    let s = run kinds (recorded publisher) config calls (new_chunk_streamer (5, [])) in
    let log = (flush_all kinds (recorded publisher) config s).publisher.1 in
    sequences log ≡ numbers_to (length log)
run_numbers_example = run_numbers kinds publisher config 5 calls

-- The reasoning comes first, then the text in batches of two deltas, then the artifact at once.
run_test :
    let s = run kinds (recorded publisher) config calls (new_chunk_streamer (5, [])) in
    map {B = ℕ × (ℕ × Bytes)}
      (λ (f : Frame). (f.sequence, (f.kind, f.ciphertext)))
      (flush_all kinds (recorded publisher) config s).publisher.1
    ≡ (1, (2, codes "so"))
      ∷ ((2, (1, codes "ab")) ∷ ((3, (1, codes "c")) ∷ ((4, (9, codes "{}")) ∷ [])))
unfolding flush_all flush find run publish_bytes publish recorded add coalesce coalescer_settings
    ◌-ℤ◌ put
run_test = refl
