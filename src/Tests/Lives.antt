-- ===== src/Tests/Lives.antt =====
-- Sinks and sources over many calls, at concrete values.
use atolla.Prelude.{◌+◌, ◌≢◌, refl, arith, inl, [], replicate, write_at}
use atolla.Machine.{zeroed}
use atolla.World.{World, datagram}
use atolla.Mem.Ring.Slots.{slot_ring}
use atolla.Msg.Packet.{lent_packet, borrow_packet}
use atolla.Sink.State.{Sink, SinkState}
use atolla.Sink.Valid.Running.{IsRunning}
use atolla.Sink.Valid.Reached.{here, next, polls, Reached-IsRunning}
use atolla.Session.Handshake.{state-grants}
use atolla.Source.State.{Source, SourceState, null_time}
use atolla.Source.Update.States.{update-lent_opens}
use atolla.Source.Update.Advance.{Advance, at_start, updated, Reached-Advance}
use atolla.Tests.{
  zeroed-HasMemory, home, quiet, quiet-IsDatagramService, sink_of, sink_of-IsValid, source_of,
  empty-Holds,
}

abbrev idle_sink : Sink
idle_sink = sink_of SinkState.opened (slot_ring 3 128 0 0 (replicate 384 0)) null_time

opened_live : SinkState.opened ≢ SinkState.error
opened_live e = cc

idle-IsRunning : IsRunning 1 idle_sink
idle-IsRunning = record {
  queue = [];
  valid =
      sink_of-IsValid SinkState.opened (slot_ring 3 128 0 0 (replicate 384 0)) null_time []
        empty-Holds;
  lights = refl;
  live = opened_live;
}

abbrev borrowing_world : World
borrowing_world = record quiet { incoming = λ i. datagram home (borrow_packet 7 20 16) }

Reached-IsRunning_example : (s : Sink) × IsRunning 1 s
Reached-IsRunning_example =
    let (s, w', call, _, _, _) =
      state-grants zeroed zeroed-HasMemory 1 idle_sink idle-IsRunning home 7 20 16 borrowing_world
        quiet-IsDatagramService refl (inl refl) (omega arith) (omega arith) (omega arith) refl
        (omega arith) in
    (
      s,
      Reached-IsRunning zeroed 1 zeroed-HasMemory idle-IsRunning
          (next here (polls borrowing_world w' SinkState.lent call)),
    )

abbrev asking : Source
asking = record (source_of null_time) {
  state = SourceState.waiting;
  first_borrow_time = 4800;
  last_borrow_time = 4800;
}

abbrev lending_world : World
lending_world = record quiet { incoming = λ i. datagram home (lent_packet 0) }

Reached-Advance_example : Advance asking (record asking {
  recv_buf = write_at 0 (lent_packet 0) (replicate 32 0);
  state = SourceState.opened;
  last_frame_time = null_time;
  last_recv_lent_time = 5000;
})
Reached-Advance_example = Reached-Advance {m = zeroed} (
    updated at_start lending_world (record lending_world { recv_calls = 1; clock_calls = 2 })
      (update-lent_opens zeroed asking lending_world home 0 refl refl refl (omega arith)))

-- A second passes between two readings.
abbrev passing : World
passing = record quiet { clock = λ i. record { tv_sec = 5 + i; tv_nsec = 0 } }
