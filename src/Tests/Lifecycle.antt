-- ===== src/Tests/Lifecycle.antt =====
-- A datagram of several requests, at concrete values.
use atolla.Prelude.{ℕ, List, [], ◌∷◌, replicate}
use atolla.Mem.Ring.Slots.{slot_ring}
use atolla.Sink.State.{Sink, SinkState}
use atolla.Sink.Handle.Datagram.{Request, borrowing, enqueueing}
use atolla.Tests.{sink_of}

abbrev received_bytes : List ℕ
received_bytes =
    0 ∷ 1 ∷ 0 ∷ 2 ∷ 0 ∷ 17 ∷ 16 ∷ 2 ∷ 2 ∷ 0 ∷ 6 ∷ 0 ∷ 0 ∷ 3 ∷ 0 ∷ 7 ∷ 8 ∷ 9 ∷ replicate 1006 0

abbrev two_requests : List Request
two_requests = borrowing 1 17 16 ∷ enqueueing 2 0 (7 ∷ 8 ∷ 9 ∷ []) ∷ []

abbrev told_sink : Sink
told_sink = record (sink_of SinkState.opened (slot_ring 3 128 0 0 (replicate 384 0)) 0) {
  recv_buf = received_bytes;
}
