-- ===== src/Tests/Frames.antt =====
-- Frames that a sink takes and shows, at concrete values.
use atolla.Prelude.{
  ℕ, ◌≡◌, refl, arith, some, List, [], ◌∷◌, ok, fault, out_of_fuel, replicate, drop, write_at,
}
use atolla.Prelude.Int.{pos}
use atolla.Mem.Block.{into}
use atolla.Mem.Ring.Slots.{slot_ring}
use atolla.Msg.Iter.Decode.{Shows}
use atolla.Sink.State.{Sink, SinkState}
use atolla.Sink.Valid.{IsValid}
use atolla.Sink.Pattern.{bounded_diff}
use atolla.Sink.Pattern.Cyclic.{cyclic}
use atolla.Sink.Handle.{take_frame, enqueue_loop}
use atolla.Sink.Handle.Enqueue.{Takes, frame_at, take_frame-room, enqueue_loop-full}
use atolla.Sink.Run.{atolla_sink_get}
use atolla.Sink.Run.CatchUp.{CaughtUp}
use atolla.Sink.Run.Get.{get-later}
use atolla.Tests.{
  quiet, sink_of, sink_of-IsValid, two_frames, two_frames_cells, two_frames-Holds, full_queue,
  full-Holds,
}

abbrev lent_sink : ℕ → Sink
lent_sink origin = sink_of SinkState.lent (slot_ring 3 128 0 2 two_frames_cells) origin

lent_sink-IsValid : (origin : ℕ) → IsValid (lent_sink origin) two_frames
lent_sink-IsValid origin =
    sink_of-IsValid SinkState.lent (slot_ring 3 128 0 2 two_frames_cells) origin two_frames
      two_frames-Holds

abbrev full_sink : Sink
full_sink = sink_of SinkState.lent (slot_ring 3 128 0 128 (replicate 384 0)) 5000

-- The datagram's buffer, where the frame starts at the byte 1.
abbrev datagram : List ℕ
datagram = 0 ∷ 1 ∷ 2 ∷ 3 ∷ []

abbrev color : List ℕ
color = 1 ∷ 2 ∷ 3 ∷ []

color-Shows : Shows datagram 1 color
color-Shows = record { inside = omega arith; same = refl }

three_ahead : bounded_diff (lent_sink 5000).last_enqueued_frame_idx (pos 2) (pos 256) ≡ pos 3
unfolding bounded_diff
three_ahead = refl

take_frame-room_example :
    (s : Sink) × (take_frame (lent_sink 5000) 2 (frame_at datagram 1 color) ≡ ok s)
    × IsValid s ((9 ∷ 9 ∷ 9 ∷ []) ∷ (8 ∷ 8 ∷ 8 ∷ []) ∷ color ∷ color ∷ color ∷ [])
    × (s.last_enqueued_frame_idx ≡ pos 2)
    × Takes (lent_sink 5000) s
take_frame-room_example =
    take_frame-room datagram 1 color color-Shows (omega arith) 3 (lent_sink 5000) two_frames 2
      (lent_sink-IsValid 5000) (omega arith) three_ahead (omega arith) (omega arith)

enqueue_loop-full_example :
    enqueue_loop 1000 full_sink (frame_at datagram 1 color) 2 (pos 3) ≡ fault out_of_fuel
enqueue_loop-full_example =
    enqueue_loop-full datagram 1 color color-Shows (omega arith) 2 1000 full_sink full_queue 2
      (sink_of-IsValid SinkState.lent (slot_ring 3 128 0 128 (replicate 384 0)) 5000 full_queue
        full-Holds)
      refl three_ahead

get-later_example :
    (s : Sink) × (n : ℕ) × (v : IsValid s (drop n two_frames)) × CaughtUp 5000
      (lent_sink 4900)
      s
      two_frames
      n
    × (atolla_sink_get (lent_sink 4900) (into (0 ∷ 0 ∷ 0 ∷ []) 0) 3 quiet
        ≡ ok (
          some (into (write_at 0 (cyclic v.current.0 3) (0 ∷ 0 ∷ 0 ∷ [])) 0),
          s,
          record quiet { clock_calls = 1 },
        ))
get-later_example =
    get-later (lent_sink 4900) two_frames (0 ∷ 0 ∷ 0 ∷ []) 3 quiet refl (omega arith)
      (lent_sink-IsValid 4900) refl
