-- ===== src/Tests/Lending.antt =====
-- Borrows that a sink grants and refuses, and frames that it does not take, at concrete values.
use atolla.Prelude.{◌≡◌, refl, arith, inl, inr, some, false, true, [], ◌∷◌, ok, replicate}
use atolla.Machine.{zeroed}
use atolla.Udp.Endpoint.{udp_endpoint_equal}
use atolla.Mem.Block.{into, MemBlock}
use atolla.Mem.Ring.Slots.{slot_ring}
use atolla.Msg.Builder.{MsgBuilder}
use atolla.Msg.Packet.{lent_packet, fail_packet}
use atolla.Sink.State.{Sink, SinkState}
use atolla.Sink.Send.Replies.{after_send, Follows}
use atolla.Sink.Handle.{sink_handle_borrow, sink_handle_enqueue}
use atolla.World.{World}
use atolla.Sink.Run.{atolla_sink_state}
use atolla.Sink.Run.Silence.{after_quiet, silence-ends_borrow, silence-resends}
use atolla.Sink.Handle.Borrow.{granted, borrow-granted, borrow-refused}
use atolla.Sink.Handle.Senders.{enqueue-short_ends_borrow}
use atolla.Tests.{
  zeroed-HasMemory, fresh_builder, fresh_builder-IsReady, home, stranger, quiet,
  quiet-IsDatagramService, sink_of, sink_of-IsValid, two_frames, two_frames_cells, two_frames-Holds,
  empty-Holds,
}

abbrev free_sink : Sink
free_sink = sink_of SinkState.opened (slot_ring 3 128 0 0 (replicate 384 0)) 0

abbrev lent_sink : Sink
lent_sink = sink_of SinkState.lent (slot_ring 3 128 0 2 two_frames_cells) 5000

borrow-granted_example :
    (b : MsgBuilder) × (sink_handle_borrow zeroed free_sink 1 17 16 stranger quiet
      ≡ ok (
        record (granted free_sink 17 stranger) { builder = b; last_send_lent_time = 5000 },
        record (after_send quiet (some stranger) (lent_packet 7)) { clock_calls = 1 },
      ))
    × Follows fresh_builder b
borrow-granted_example =
    borrow-granted zeroed free_sink [] quiet zeroed-HasMemory
      (sink_of-IsValid SinkState.opened (slot_ring 3 128 0 0 (replicate 384 0)) 0 [] empty-Holds)
      quiet-IsDatagramService 1 17 16 stranger (inl refl) (omega arith) (omega arith)

same_home : udp_endpoint_equal home home ≡ true
unfolding udp_endpoint_equal
same_home = refl

not_home : udp_endpoint_equal stranger home ≡ false
unfolding udp_endpoint_equal
not_home = refl

borrow-refused_example :
    (b : MsgBuilder) × (sink_handle_borrow zeroed lent_sink 1 9 16 home quiet
      ≡ ok (
        record lent_sink { state = SinkState.opened; builder = b },
        after_send quiet (some home) (fail_packet 7 1 2),
      ))
    × Follows fresh_builder b
borrow-refused_example =
    borrow-refused zeroed lent_sink two_frames quiet zeroed-HasMemory
      (sink_of-IsValid SinkState.lent (slot_ring 3 128 0 2 two_frames_cells) 5000 two_frames
        two_frames-Holds)
      quiet-IsDatagramService 1 9 16 home (inr (refl, same_home)) 2
      (inr (omega arith, omega arith, refl))

abbrev color : MemBlock
color = record { bytes = into (1 ∷ 2 ∷ 3 ∷ []) 0; size = 3; capacity = 3 }

abbrev short : MemBlock
short = record { bytes = into (1 ∷ 2 ∷ []) 0; size = 2; capacity = 2 }

enqueue-short_ends_borrow_example :
    (b : MsgBuilder) × (sink_handle_enqueue zeroed lent_sink 1 0 short stranger quiet
      ≡ ok (
        record lent_sink { state = SinkState.opened; builder = b },
        after_send quiet (some stranger) (fail_packet 7 1 4),
      ))
    × Follows fresh_builder b
enqueue-short_ends_borrow_example =
    enqueue-short_ends_borrow zeroed lent_sink quiet zeroed-HasMemory fresh_builder-IsReady
      quiet-IsDatagramService 1 0 short stranger refl (omega arith)

-- Two seconds and one second after the last that was heard.
abbrev two_later : World
two_later = record quiet { clock = λ i. record { tv_sec = 7; tv_nsec = 0 } }

abbrev one_later : World
one_later = record quiet { clock = λ i. record { tv_sec = 6; tv_nsec = 0 } }

silence-ends_borrow_example :
    (b : MsgBuilder) × (atolla_sink_state zeroed lent_sink two_later
      ≡ ok (
        SinkState.opened,
        record lent_sink { state = SinkState.opened; builder = b },
        after_send (after_quiet two_later) (some home) (fail_packet 7 0 5),
      ))
    × Follows fresh_builder b
silence-ends_borrow_example =
    silence-ends_borrow zeroed zeroed-HasMemory lent_sink two_frames
      (sink_of-IsValid SinkState.lent (slot_ring 3 128 0 2 two_frames_cells) 5000 two_frames
        two_frames-Holds)
      refl two_later refl quiet-IsDatagramService (omega arith)

silence-resends_example :
    (b : MsgBuilder) × (atolla_sink_state zeroed lent_sink one_later
      ≡ ok (
        SinkState.lent,
        record lent_sink { builder = b; last_send_lent_time = 6000 },
        record (after_send (after_quiet one_later) (some home) (lent_packet 7)) { clock_calls = 3 },
      ))
    × Follows fresh_builder b
silence-resends_example =
    silence-resends zeroed zeroed-HasMemory lent_sink two_frames
      (sink_of-IsValid SinkState.lent (slot_ring 3 128 0 2 two_frames_cells) 5000 two_frames
        two_frames-Holds)
      refl one_later refl quiet-IsDatagramService (omega arith) (omega arith)
