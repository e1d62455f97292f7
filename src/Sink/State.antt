-- ===== src/Sink/State.antt =====
-- The state of a sink, and the constants of src/atolla/sink.cpp and src/atolla/error_codes.h.
pub mod Cases
use Prim.Native.String.{String}
use atolla.Prelude.{ℕ, ◌^◌, ◌-◌, Option, List}
use atolla.Prelude.Int.{ℤ}
use atolla.World.{UdpEndpoint}
use atolla.Udp.Results.{UdpSocket}
use atolla.Mem.Block.{MemBlock}
use atolla.Mem.Ring.{MemRing}
use atolla.Msg.Builder.{MsgBuilder}

-- enum AtollaSinkState
pub data SinkState : Type 0 where
  error : SinkState
  opened : SinkState
  lent : SinkState

-- struct AtollaSinkSpec
pub record SinkSpec : Type 0 where
  pub port : ℕ
  pub lights_count : ℕ

-- struct AtollaSinkPrivate
pub record Sink : Type 0 where
  pub state : SinkState
  pub error_msg : Option String
  pub socket : UdpSocket
  pub borrower_endpoint : UdpEndpoint
  pub lights_count : ℕ
  pub frame_duration_ms : ℕ
  pub builder : MsgBuilder
  pub recv_buf : List ℕ
  pub current_frame : MemBlock
  pub received_frame : MemBlock
  pub pending_frames : MemRing
  pub time_origin : ℕ
  pub last_enqueued_frame_idx : ℤ
  pub last_recv_time : ℕ
  pub last_send_lent_time : ℕ

abbrev pub recv_buf_len : ℕ
recv_buf_len = 1024

abbrev pub color_channel_count : ℕ
color_channel_count = 3

abbrev pub pending_frames_capacity : ℕ
pending_frames_capacity = 128

abbrev pub drop_timeout : ℕ
drop_timeout = 1500

abbrev pub lent_send_interval : ℕ
lent_send_interval = 500

abbrev pub frame_length_ms_min : ℕ
frame_length_ms_min = 10

abbrev pub null_time : ℕ
null_time = 2 ^ 32 - 1

abbrev pub not_borrowed : ℕ
not_borrowed = 0

abbrev pub requested_buffer_too_large : ℕ
requested_buffer_too_large = 1

abbrev pub requested_frame_duration_too_short : ℕ
requested_frame_duration_too_short = 2

abbrev pub lent_to_other_source : ℕ
lent_to_other_source = 3

abbrev pub bad_msg : ℕ
bad_msg = 4

abbrev pub timeout : ℕ
timeout = 5
