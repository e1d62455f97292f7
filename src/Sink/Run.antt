-- ===== src/Sink/Run.antt =====
-- The calls that a program makes of a sink: atolla_sink_state, atolla_sink_error_msg and atolla_sink_get of
-- src/atolla/sink.cpp, with sink_update and sink_receive.
pub mod CatchUp
pub mod Get
pub mod Receive
pub mod Silence
pub mod Branches
use Prim.Native.String.{String}
use atolla.Prelude.{
  ℕ, zero, suc, ◌+◌, ◌*◌, Bool, true, false, ◌&&◌, Option, none, some, List, [], ltb, leb, ◌==◌,
  if◌then◌else◌, u32, sub_u32, replicate, Result, ok, fault, bad_access, out_of_fuel, assert, ◌>>=◌,
  ◌>>◌,
}
use atolla.Prelude.Int.{ℤ, pos}
use atolla.Machine.{Machine}
use atolla.World.{World, UdpEndpoint, time_now}
use atolla.Udp.Results.{UdpSocket, is_ok}
use atolla.Udp.Transfer.{udp_socket_receive_from}
use atolla.Mem.Block.{Ptr, null, MemBlock, mem_block_alloc, mem_block_free}
use atolla.Mem.Ring.{MemRing, mem_ring_alloc, mem_ring_free, mem_ring_dequeue}
use atolla.Msg.Builder.{MsgBuilder, msg_builder_init, msg_builder_free}
use atolla.Sink.State.{
  Sink, SinkState, SinkSpec, recv_buf_len, color_channel_count, pending_frames_capacity,
  drop_timeout, null_time, timeout,
}
use atolla.Sink.Pattern.{fill_with_pattern}
use atolla.Sink.Send.{sink_send, sink_send_fail, sink_drop_borrow, sink_panic}
use atolla.Sink.Handle.{is_lent, sink_iterate_recv_buf}

module _ (m : Machine) where
  -- The branch for a call that received nothing.
  unfoldable pub drop_silent : Sink → World → Result (Sink × World)
  unfolding sink_drop_borrow
  drop_silent sink w = elim sink.state [
    | SinkState.lent ↦
        let (t, w1) = time_now w in
        if ltb drop_timeout (sub_u32 t sink.last_recv_time)
        then (do (s, w2) ← sink_send_fail m sink 0 timeout w1; ok (sink_drop_borrow s, w2))
        else ok (sink, w1)
    | _ ↦ ok (sink, w)
  ]

  -- `max_receives` is one: the loop has one round.
  unfoldable pub sink_receive : Sink → World → Result (Sink × World)
  sink_receive sink w = do
    (r, w1) ← udp_socket_receive_from (some sink.socket) sink.recv_buf recv_buf_len w
    let sink1 = record sink { recv_buf = r.packet_data }
    if is_ok r.result.code
        then (elim r.sender [
          | none ↦ fault bad_access
          | some sender ↦ do
            (s, w2) ← sink_iterate_recv_buf m sink1 r.received_byte_count sender w1
            let (t, w3) = time_now w2
            ok (record s { last_recv_time = t }, w3)
        ])
        else drop_silent sink1 w1

  unfoldable pub sink_update : Sink → World → Result (Sink × World)
  sink_update sink w = do (s, w1) ← sink_receive sink w; sink_send m s w1

  unfoldable pub atolla_sink_state : Sink → World → Result (SinkState × Sink × World)
  atolla_sink_state sink w = elim sink.state [
    | SinkState.error ↦ ok (SinkState.error, sink, w)
    | _ ↦ do (s, w1) ← sink_update sink w; ok (s.state, s, w1)
  ]

unfoldable pub atolla_sink_error_msg : Sink → Option String
atolla_sink_error_msg sink = sink.error_msg

-- One round of the loop in atolla_sink_get per unit of fuel.
unfoldable pub catch_up : ℕ → ℕ → Sink → Result Sink
catch_up zero t sink =
    if ltb sink.frame_duration_ms (sub_u32 t sink.time_origin) then fault out_of_fuel else ok sink
catch_up (suc fuel) t sink =
    if ltb sink.frame_duration_ms (sub_u32 t sink.time_origin)
    then (do
      (done, ring, out) ←
          mem_ring_dequeue sink.pending_frames sink.current_frame.bytes sink.current_frame.capacity
      let s = record sink {
        pending_frames = ring;
        current_frame = record sink.current_frame { bytes = out };
      }
      if done
          then catch_up fuel t
              (record s { time_origin = u32 (s.time_origin + s.frame_duration_ms) })
          else ok s)
    else ok sink

-- Each round but the last takes a frame out of a queue of at most 128.
abbrev pub catch_up_fuel : ℕ
catch_up_fuel = pending_frames_capacity + 1

-- The frame that is given out, or none for the result `false`; `frame` is the caller's buffer.
unfoldable pub show_frame : Sink → Ptr → ℕ → Result (Option Ptr)
show_frame sink frame frame_len = do
  p ← fill_with_pattern frame frame_len sink.current_frame.bytes sink.current_frame.capacity
  ok (some p)

-- The first frame of a borrow sets the origin of time.
unfoldable pub get_first : Sink → Ptr → ℕ → World → Result (Option Ptr × Sink × World)
get_first sink frame frame_len w = do
  (done, ring, out) ←
      mem_ring_dequeue sink.pending_frames sink.current_frame.bytes sink.current_frame.capacity
  let s = record sink {
    pending_frames = ring;
    current_frame = record sink.current_frame { bytes = out };
  }
  let (t, w1) = time_now w
  if done
      then (do p ← show_frame s frame frame_len; ok (p, record s { time_origin = t }, w1))
      else ok (none, s, w)

unfoldable pub atolla_sink_get : Sink → Ptr → ℕ → World → Result (Option Ptr × Sink × World)
atolla_sink_get sink frame frame_len w = elim sink.state [
  | SinkState.lent ↦ if sink.time_origin == null_time then get_first sink frame frame_len w else (do
    let (t, w1) = time_now w
    s ← catch_up catch_up_fuel t sink
    p ← show_frame s frame frame_len
    ok (p, s, w1))
  | _ ↦ ok (none, sink, w)
]
