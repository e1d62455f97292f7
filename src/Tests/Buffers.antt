-- ===== src/Tests/Buffers.antt =====
-- The blocks, rings and patterns of src/mem and src/atolla/sink.cpp at concrete values.
use atolla.Prelude.{ℕ, ◌+◌, ◌%◌, ◌<◌, ◌≡◌, refl, arith, true, [], ◌∷◌, ok}
use atolla.Prelude.Int.{pos}
use atolla.Mem.Block.{into}
use atolla.Mem.Ring.{MemRing, mem_ring_enqueue, mem_ring_dequeue}
use atolla.Mem.Ring.Fifo.{Holds, enqueue-Holds, dequeue-Holds}
use atolla.Sink.Pattern.{fill_with_pattern, bounded_diff}
use atolla.Sink.Pattern.Cyclic.{fill_with_pattern_lem}
use atolla.Sink.Pattern.Diff.{bounded_diff_lem}
use atolla.Tests.{round_ring, round_queue, round-Holds}

enqueue-Holds_example :
    (ring : MemRing) × (mem_ring_enqueue round_ring (into (0 ∷ 7 ∷ 8 ∷ 9 ∷ []) 1) 3
      ≡ ok (true, ring))
    × Holds 3 4 ring ((1 ∷ 2 ∷ 3 ∷ []) ∷ (4 ∷ 5 ∷ 6 ∷ []) ∷ (7 ∷ 8 ∷ 9 ∷ []) ∷ [])
enqueue-Holds_example =
    enqueue-Holds 3 4 round_queue (0 ∷ 7 ∷ 8 ∷ 9 ∷ []) 1 round-Holds (omega arith) (omega arith)

dequeue-Holds_example :
    (ring : MemRing) × (mem_ring_dequeue round_ring (into (0 ∷ 0 ∷ 0 ∷ 0 ∷ []) 0) 3
      ≡ ok (true, ring, into (1 ∷ 2 ∷ 3 ∷ 0 ∷ []) 0))
    × Holds 3 4 ring ((4 ∷ 5 ∷ 6 ∷ []) ∷ [])
dequeue-Holds_example =
    dequeue-Holds 3 4 (1 ∷ 2 ∷ 3 ∷ []) ((4 ∷ 5 ∷ 6 ∷ []) ∷ []) (0 ∷ 0 ∷ 0 ∷ 0 ∷ []) round-Holds
      (omega arith)

fill_with_pattern_lem_example :
    fill_with_pattern (into (0 ∷ 0 ∷ 0 ∷ 0 ∷ 0 ∷ 0 ∷ []) 0) 5 (into (9 ∷ 1 ∷ 2 ∷ []) 1) 2
    ≡ ok (into (1 ∷ 2 ∷ 1 ∷ 2 ∷ 1 ∷ 0 ∷ []) 0)
fill_with_pattern_lem_example =
    fill_with_pattern_lem (9 ∷ 1 ∷ 2 ∷ []) 1 (1 ∷ 2 ∷ []) (omega arith) (omega arith) refl
      (0 ∷ 0 ∷ 0 ∷ 0 ∷ 0 ∷ 0 ∷ []) 5 (omega arith)

bounded_diff_lem_example :
    (d : ℕ) × (bounded_diff (pos 250) (pos 4) (pos 256) ≡ pos d) × (d < 256) × ((250 + d) % 256 ≡ 4)
bounded_diff_lem_example = bounded_diff_lem 250 4 (omega arith) (omega arith)
