-- ===== src/Tests.antt =====
-- Runs of the theorems at concrete inputs, and the values that they start from.
pub mod Buffers
pub mod Messages
pub mod Lending
pub mod Frames
pub mod Pacing
pub mod Lifecycle
pub mod Programs
pub mod Sockets
pub mod Lives
pub mod Lenders
pub mod Listeners
pub mod Sessions
use atolla.Prelude.{
  true, ℕ, ◌+◌, ◌*◌, ◌<◌, ◌≡◌, refl, arith, some, none, List, [], ◌∷◌, length, replicate,
}
use atolla.Prelude.Int.{negsuc}
use atolla.Machine.{HasMemory, zeroed}
use atolla.World.{
  World, UdpEndpoint, Incoming, Errno, Resolution, SysResult, done, IsDatagramService, Timespec,
}
use atolla.Mem.Block.{into, MemBlock, Owns}
use atolla.Mem.Ring.{MemRing}
use atolla.Mem.Ring.Slots.{Fits, slot_ring}
use atolla.Mem.Ring.Blocks.{blocks}
use atolla.Mem.Ring.Fifo.{Holds}
use atolla.Msg.Builder.{MsgBuilder}
use atolla.Msg.Builder.Encode.{IsReady}
use atolla.Sink.State.{Sink, SinkState}
use atolla.Sink.Valid.{IsValid}
use atolla.Source.State.{Source, SourceState}

pub zeroed-HasMemory : HasMemory zeroed
zeroed-HasMemory n = (replicate n 0, refl)

abbrev pub home : UdpEndpoint
home = record { addr = 2 ∷ 0 ∷ 10 ∷ 0 ∷ 0 ∷ 1 ∷ []; addr_len = 6 }

abbrev pub stranger : UdpEndpoint
stranger = record { addr = 2 ∷ 0 ∷ 10 ∷ 0 ∷ 0 ∷ 9 ∷ []; addr_len = 6 }

-- The system sends every datagram, receives none, and its clock stands at five seconds.
abbrev pub quiet : World
quiet = record {
  clock = λ i. record { tv_sec = 5; tv_nsec = 0 };
  clock_calls = 0;
  incoming = λ i. Incoming.recv_failed Errno.eagain;
  recv_calls = 0;
  outgoing = λ i n. done n;
  send_calls = 0;
  errno = Errno.other_errno;
  kernel = record {
    create = λ i. some 3;
    resolve = λ i.
        Resolution.resolved (record { ai_addr = home; is_datagram = true; is_udp = true } ∷ []);
    failure = λ i. none;
    calls = 0;
    handles = [];
    asked = [];
  };
  sent = [];
}

pub quiet-IsDatagramService : IsDatagramService quiet
quiet-IsDatagramService i n k e = ground arith

abbrev pub fresh_builder : MsgBuilder
fresh_builder = record {
  msg_buf = record { bytes = into (replicate 32 0) 0; size = 0; capacity = 32 };
  next_msg_id = 7;
}

pub fresh_builder-IsReady : IsReady fresh_builder
fresh_builder-IsReady = (replicate 32 0, (refl, refl, omega arith))

pub small-Fits : Fits 3 4
small-Fits = record { block = omega arith; total = omega arith }

pub sink-Fits : Fits 3 128
sink-Fits = record { block = omega arith; total = omega arith }

-- A ring of four blocks of three bytes, with two blocks in it that go round the end.
abbrev pub round_cells : List ℕ
round_cells = 4 ∷ 5 ∷ 6 ∷ 0 ∷ 0 ∷ 0 ∷ 0 ∷ 0 ∷ 0 ∷ 1 ∷ 2 ∷ 3 ∷ []

abbrev pub round_queue : List (List ℕ)
round_queue = (1 ∷ 2 ∷ 3 ∷ []) ∷ (4 ∷ 5 ∷ 6 ∷ []) ∷ []

abbrev pub round_ring : MemRing
round_ring = slot_ring 3 4 3 2 round_cells

pub round-Holds : Holds 3 4 round_ring round_queue
round-Holds = record {
  fits = small-Fits;
  first = 3;
  cells = round_cells;
  shape = refl;
  whole = refl;
  inside = omega arith;
  bounded = omega arith;
  content = refl;
}

-- A ring that is full: all of its 128 blocks are zero.
abbrev pub full_queue : List (List ℕ)
full_queue = blocks 3 128 (replicate 384 0) 0 128

pub full-Holds : Holds 3 128 (slot_ring 3 128 0 128 (replicate 384 0)) full_queue
full-Holds = record {
  fits = sink-Fits;
  first = 0;
  cells = replicate 384 0;
  shape = refl;
  whole = refl;
  inside = omega arith;
  bounded = omega arith;
  content = refl;
}

abbrev pub two_frames : List (List ℕ)
two_frames = (9 ∷ 9 ∷ 9 ∷ []) ∷ (8 ∷ 8 ∷ 8 ∷ []) ∷ []

abbrev pub two_frames_cells : List ℕ
two_frames_cells = 9 ∷ 9 ∷ 9 ∷ 8 ∷ 8 ∷ 8 ∷ replicate 378 0

pub two_frames-Holds : Holds 3 128 (slot_ring 3 128 0 2 two_frames_cells) two_frames
two_frames-Holds = record {
  fits = sink-Fits;
  first = 0;
  cells = two_frames_cells;
  shape = refl;
  whole = refl;
  inside = omega arith;
  bounded = omega arith;
  content = refl;
}

pub empty-Holds : Holds 3 128 (slot_ring 3 128 0 0 (replicate 384 0)) []
empty-Holds = record {
  fits = sink-Fits;
  first = 0;
  cells = replicate 384 0;
  shape = refl;
  whole = refl;
  inside = omega arith;
  bounded = omega arith;
  content = refl;
}

abbrev pub black : MemBlock
black = record { bytes = into (0 ∷ 0 ∷ 0 ∷ []) 0; size = 3; capacity = 3 }

-- A sink with one light.
abbrev pub sink_of : SinkState → MemRing → ℕ → Sink
sink_of state ring origin = record {
  state = state;
  error_msg = none;
  socket = record { socket_handle = some 3 };
  borrower_endpoint = home;
  lights_count = 1;
  frame_duration_ms = 17;
  builder = fresh_builder;
  recv_buf = replicate 1024 0;
  current_frame = black;
  received_frame = black;
  pending_frames = ring;
  time_origin = origin;
  last_enqueued_frame_idx = negsuc 0;
  last_recv_time = 5000;
  last_send_lent_time = 5000;
}

pub sink_of-IsValid :
    (state : SinkState) (ring : MemRing) (origin : ℕ) (queue : List (List ℕ))
    → Holds 3 128 ring queue
    → IsValid (sink_of state ring origin) queue
sink_of-IsValid state ring origin queue h = record {
  lights = omega arith;
  small = omega arith;
  ready = fresh_builder-IsReady;
  buffer = refl;
  current = (0 ∷ 0 ∷ 0 ∷ [], refl, refl, refl);
  received = (0 ∷ 0 ∷ 0 ∷ [], refl, refl, refl);
  ring = h;
  index = refl;
}

-- A source whose sink is lent to it, with frames of 20 ms.
abbrev pub source_of : ℕ → Source
source_of last_frame_time = record {
  state = SourceState.opened;
  sock = record { socket_handle = some 4 };
  recv_buf = replicate 32 0;
  builder = fresh_builder;
  next_frame_idx = 255;
  frame_duration_ms = 20;
  max_buffered_frames = 16;
  retry_timeout_ms = 100;
  disconnect_timeout_ms = 750;
  first_borrow_time = 4000;
  last_borrow_time = 4000;
  last_frame_time = last_frame_time;
  last_recv_lent_time = 4900;
  error_msg = none;
}
