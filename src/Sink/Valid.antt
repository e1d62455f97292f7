-- ===== src/Sink/Valid.antt =====
-- The invariant of a sink: its buffers have the sizes that sink_private_make gives them, and the ring
-- holds whole frames.
pub mod Running
pub mod Frames
pub mod Messages
pub mod Calls
pub mod Reached
use atolla.Prelude.{ℕ, ◌+◌, ◌*◌, ◌<◌, ◌≡◌, List, length}
use atolla.Prelude.Int.{ℤ, pos, negsuc}
use atolla.Mem.Block.{into, MemBlock}
use atolla.Mem.Ring.Fifo.{Holds}
use atolla.Msg.Builder.Encode.{IsReady}
use atolla.Sink.State.{Sink}

-- The bytes of a frame.
abbrev pub frame_size : Sink → ℕ
frame_size sink = sink.lights_count * 3

-- A block for exactly one frame of `k` bytes.
abbrev pub IsFrame : ℕ → MemBlock → Type 0
IsFrame k block =
    (cells : List ℕ) × (block.bytes ≡ into cells 0) × (length cells ≡ k) × (block.capacity ≡ k)

-- The index of a frame, or -1 before the first one.
abbrev pub IsIndex : ℤ → Type 0
IsIndex (pos n) = n < 256
IsIndex (negsuc n) = n ≡ 0

-- A sink in working order whose pending frames are those of the queue.
pub record IsValid (sink : Sink) (queue : List (List ℕ)) : Type 0 where
  pub lights : 0 < sink.lights_count
  pub small : frame_size sink + 10 < 1024
  pub ready : IsReady sink.builder
  pub buffer : length sink.recv_buf ≡ 1024
  pub current : IsFrame (frame_size sink) sink.current_frame
  pub received : IsFrame (frame_size sink) sink.received_frame
  pub ring : Holds (frame_size sink) 128 sink.pending_frames queue
  pub index : IsIndex sink.last_enqueued_frame_idx
