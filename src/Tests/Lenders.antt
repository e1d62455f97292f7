-- ===== src/Tests/Lenders.antt =====
-- Sinks that stand for lenders, at concrete values.
use atolla.Prelude.{
  ℕ, ◌≡◌, ◌≢◌, ◌⊎◌, ◌∙◌, sym, inl, refl, arith, none, false, List, [], ◌∷◌, ok, fault, out_of_fuel,
  replicate,
}
use atolla.Machine.{zeroed}
use atolla.World.{World, Packet, datagram}
use atolla.Mem.Ring.Slots.{slot_ring}
use atolla.Msg.Packet.{borrow_packet}
use atolla.Udp.Endpoint.{udp_endpoint_equal}
use atolla.Udp.Sockets.Init.{after_init}
use atolla.Sink.State.{Sink, SinkState, SinkSpec, null_time}
use atolla.Sink.Valid.Running.{IsRunning}
use atolla.Sink.Handle.Datagram.{Request, borrowing, enqueueing, request_packets}
use atolla.Sink.Run.{sink_receive, atolla_sink_state}
use atolla.Sink.Make.Socket.{IsSpec, atolla_sink_make-opens}
use atolla.Session.Handshake.{state-grants}
use atolla.Sink.Lender.{Lender, free, lent_to, Models, serve}
use atolla.Sink.Lender.Replies.{Says}
use atolla.Sink.Lender.Answers.{Refines}
use atolla.Sink.Lender.Datagrams.{sink_receive-Refines}
use atolla.Sink.Lender.Moves.{Trace}
use atolla.Sink.Lender.Polls.{IsArrival, requests, Overflows, state_of, atolla_sink_state-Goes}
use atolla.Sink.Lender.Calls.{none_yet, then_state, Calls-Trace}
use atolla.Sink.Lender.Strangers.{refusals, receive-keeps_out}
use atolla.Sink.Lender.Lives.{new_lender, make-Trace}
use atolla.Tests.{
  zeroed-HasMemory, home, stranger, quiet, quiet-IsDatagramService, sink_of, sink_of-IsValid,
  empty-Holds, two_frames, two_frames_cells, two_frames-Holds,
}

abbrev shut : Sink
shut = sink_of SinkState.opened (slot_ring 3 128 0 0 (replicate 384 0)) null_time

abbrev shut_lender : Lender
shut_lender = record { loan = free; pending = []; index = none; next_msg_id = 7; size = 3 }

shut-Models : Models shut shut_lender
shut-Models = record {
  valid =
      sink_of-IsValid SinkState.opened (slot_ring 3 128 0 0 (replicate 384 0)) null_time []
        empty-Holds;
  loan = refl;
  index = refl;
  id = refl;
  size = refl;
}

-- A datagram with a borrow and the first frame.
abbrev opening : List Request
opening = borrowing 7 20 16 ∷ enqueueing 8 0 (255 ∷ 0 ∷ 0 ∷ []) ∷ []

abbrev opening_comes : World
opening_comes = record quiet { incoming = λ i. datagram home (request_packets opening) }

sink_receive-Refines_example :
    Refines
      (record opening_comes { recv_calls = 1 })
      (serve shut_lender home opening)
      (sink_receive zeroed shut opening_comes)
sink_receive-Refines_example =
    sink_receive-Refines zeroed shut shut_lender opening home opening_comes zeroed-HasMemory
      shut-Models quiet-IsDatagramService refl (omega arith) (omega arith)

atolla_sink_state-Goes_example :
    (Overflows shut_lender (datagram home (request_packets opening))
      × (atolla_sink_state zeroed shut opening_comes ≡ fault out_of_fuel))
    ⊎ ((t : Sink) × (w' : World) × (l' : Lender) × (ps : List Packet) × (atolla_sink_state zeroed
            shut opening_comes
          ≡ ok (state_of l'.loan, t, w'))
        × Trace shut_lender l' ps
        × Models t l'
        × Says opening_comes ps w')
atolla_sink_state-Goes_example =
    atolla_sink_state-Goes zeroed zeroed-HasMemory shut shut_lender opening_comes shut-Models
      quiet-IsDatagramService (datagram home (request_packets opening)) refl
      (requests home opening (omega arith))

-- A sink with two frames that wait.
abbrev showing : Sink
showing = sink_of SinkState.lent (slot_ring 3 128 0 2 two_frames_cells) 4970

abbrev showing_lender : Lender
showing_lender = record {
  loan = lent_to home 17;
  pending = two_frames;
  index = none;
  next_msg_id = 7;
  size = 3;
}

showing-Models : Models showing showing_lender
showing-Models = record {
  valid =
      sink_of-IsValid SinkState.lent (slot_ring 3 128 0 2 two_frames_cells) 4970 two_frames
        two_frames-Holds;
  loan = (refl, refl, refl);
  index = refl;
  id = refl;
  size = refl;
}

abbrev intruding : World
intruding = record quiet { incoming = λ i. datagram stranger (request_packets opening) }

not_home : udp_endpoint_equal stranger home ≡ false
unfolding udp_endpoint_equal
not_home = refl

receive-keeps_out_example :
    (s : Sink) × (w' : World) × (sink_receive zeroed showing intruding ≡ ok (s, w'))
    × Models s (record showing_lender { next_msg_id = 9 })
    × Says (record intruding { recv_calls = 1 }) (refusals stranger 7 opening) w'
receive-keeps_out_example =
    receive-keeps_out zeroed showing showing_lender opening stranger home 17 intruding
      zeroed-HasMemory showing-Models refl not_home quiet-IsDatagramService refl (omega arith)
      (omega arith) (omega arith, (omega arith, omega arith))

opened_lives : SinkState.opened ≢ SinkState.error
opened_lives e = cc

abbrev asked : World
asked = record quiet { incoming = λ i. datagram home (borrow_packet 7 20 16) }

asked-IsArrival : (i : ℕ) → IsArrival (asked.incoming i)
asked-IsArrival i = requests home (borrowing 7 20 16 ∷ []) (omega arith)

shut-IsRunning : IsRunning 1 shut
shut-IsRunning = record {
  queue = [];
  valid = shut-Models.valid;
  lights = refl;
  live = opened_lives;
}

Calls-Trace_example :
    (t : Sink) × (v : World) × ((l' : Lender) × (ps : List Packet) × Trace shut_lender l' ps
      × Models t l'
      × Says asked ps v)
Calls-Trace_example =
    let (t, v, call, _, _, _) =
      state-grants zeroed zeroed-HasMemory 1 shut shut-IsRunning home 7 20 16 asked
        quiet-IsDatagramService refl (inl refl) (omega arith) (omega arith) (omega arith) refl
        (omega arith) in
    (
      t,
      v,
      Calls-Trace zeroed shut_lender zeroed-HasMemory shut-Models quiet-IsDatagramService
          asked-IsArrival (then_state SinkState.lent none_yet call),
    )

abbrev lights : SinkSpec
lights = record { port = 10042; lights_count = 60 }

lights-IsSpec : IsSpec lights
lights-IsSpec = record { port = omega arith; some_light = omega arith; small = omega arith }

make-Trace_example :
    (sink t : Sink) × (v : World) × (Models sink (new_lender 60)
      × ((l : Lender) × (ps : List Packet) × Trace (new_lender 60) l ps
          × Models t l
          × Says asked ps v))
make-Trace_example =
    let (sink, makes, state, _, _, valid) =
      atolla_sink_make-opens zeroed 1400 lights asked zeroed-HasMemory lights-IsSpec 2 refl refl
        refl refl in
    let made : World = after_init 3 10042 asked in
    let running : IsRunning sink.lights_count sink = record {
      queue = [];
      valid = valid;
      lights = refl;
      live = λ failed. opened_lives (sym state ∙ failed);
    } in
    let (t, v, call, _, _, _) =
      state-grants zeroed zeroed-HasMemory sink.lights_count sink running home 7 20 16 made
        quiet-IsDatagramService refl (inl state) (omega arith) (omega arith) (omega arith) refl
        (omega arith) in
    (
      sink,
      t,
      v,
      make-Trace zeroed 1400 2 lights asked zeroed-HasMemory lights-IsSpec refl refl refl refl
          quiet-IsDatagramService asked-IsArrival makes (then_state SinkState.lent none_yet call),
    )
