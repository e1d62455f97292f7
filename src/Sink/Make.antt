-- ===== src/Sink/Make.antt =====
-- atolla_sink_make, sink_private_make and atolla_sink_free of src/atolla/sink.cpp.
pub mod Fresh
pub mod Socket
use Prim.Native.String.{String}
use mathlib.Core.Option.{get_or}
use atolla.Prelude.{
  u16, if◌then◌else◌, ℕ, ◌+◌, ◌*◌, Bool, true, false, Option, none, some, List, ltb, leb, replicate,
  Result, ok, assert, ◌>>=◌, ◌>>◌,
}
use atolla.Prelude.Int.{pos}
use atolla.Machine.{Machine}
use atolla.World.{World}
use atolla.Udp.Results.{UdpSocket, is_ok}
use atolla.Udp.Sockets.{udp_socket_init_on_port, udp_socket_free}
use atolla.Mem.Block.{null, MemBlock, mem_block_alloc, mem_block_free}
use atolla.Mem.Ring.{MemRing, mem_ring_alloc, mem_ring_free}
use atolla.Msg.Builder.{msg_builder_init, msg_builder_free}
use atolla.Sink.Send.{sink_panic}
use atolla.Sink.State.{
  Sink, SinkState, SinkSpec, recv_buf_len, color_channel_count, pending_frames_capacity,
}

-- Whether a call of `malloc` gave an object.
abbrev is_given : Option (List ℕ) → Bool
is_given none = false
is_given (some cells) = true

-- sizeof(struct sockaddr_storage)
abbrev pub addr_size : ℕ
addr_size = 128

-- The struct filled with zeros by `memset`, with the fields that are set after that.
abbrev pub blank_sink : ℕ → MemBlock → MemBlock → MemRing → Sink
blank_sink lights_count current received pending = record {
  state = SinkState.opened;
  error_msg = none;
  socket = record { socket_handle = some 0 };
  borrower_endpoint = record { addr = replicate addr_size 0; addr_len = 0 };
  lights_count = lights_count;
  frame_duration_ms = 0;
  builder = record { msg_buf = record { bytes = null; size = 0; capacity = 0 }; next_msg_id = 0 };
  recv_buf = replicate recv_buf_len 0;
  current_frame = current;
  received_frame = received;
  pending_frames = pending;
  time_origin = 0;
  last_enqueued_frame_idx = pos 0;
  last_recv_time = 0;
  last_send_lent_time = 0;
}

-- The size of the struct is the compiler's.
unfoldable pub sink_private_make : Machine → ℕ → SinkSpec → Result Sink
sink_private_make m size_of_sink spec = do
  assert (ltb spec.port 65536)
  assert (leb 1 spec.lights_count)
  assert (ltb (spec.lights_count * color_channel_count + 10) recv_buf_len)
  assert (is_given (m.malloc size_of_sink))
  current ← mem_block_alloc m (spec.lights_count * color_channel_count)
  received ← mem_block_alloc m (spec.lights_count * color_channel_count)
  pending ← mem_ring_alloc m (spec.lights_count * color_channel_count * pending_frames_capacity)
  ok (blank_sink spec.lights_count current received pending)

abbrev pub bind_failed_text : String
bind_failed_text = "Failed to bind source to port specified in spec."

unfoldable pub atolla_sink_make : Machine → ℕ → SinkSpec → World → Result (Sink × World)
unfolding sink_panic
atolla_sink_make m size_of_sink spec w = do
  made ← sink_private_make m size_of_sink spec
  (result, socket, w1) ← udp_socket_init_on_port (some made.socket) (u16 spec.port) w
  let sink = record made { socket = get_or socket made.socket }
  let checked = if is_ok result.code then sink else sink_panic sink bind_failed_text
  b ← msg_builder_init m
  ok (record checked { builder = b }, w1)

-- The sink as it is when its own memory is freed.
unfoldable pub emptied : Sink → Option UdpSocket → Sink
emptied sink socket = record sink {
  builder = msg_builder_free sink.builder;
  socket = get_or socket sink.socket;
  current_frame = mem_block_free sink.current_frame;
  received_frame = mem_block_free sink.received_frame;
  pending_frames = mem_ring_free sink.pending_frames;
}

-- The result of freeing the socket is not looked at.
unfoldable pub atolla_sink_free : Sink → World → Result (Sink × World)
atolla_sink_free sink w = do
  (_, socket, w1) ← udp_socket_free (some sink.socket) w
  ok (emptied sink socket, w1)
