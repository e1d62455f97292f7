-- ===== src/Sink/Valid/Running.antt =====
-- A sink that works, whatever its queue.
use Prim.Native.String.{String}
use atolla.Prelude.{ℕ, ◌≡◌, ◌≢◌, Option, List, length}
use atolla.Prelude.Int.{ℤ}
use atolla.World.{UdpEndpoint}
use atolla.Udp.Results.{UdpSocket}
use atolla.Msg.Builder.{MsgBuilder}
use atolla.Msg.Builder.Encode.{IsReady}
use atolla.Sink.State.{Sink, SinkState}
use atolla.Sink.Valid.{IsValid, IsIndex}

-- A valid sink for `n` lights that is in no error.
pub record IsRunning (n : ℕ) (sink : Sink) : Type 0 where
  pub queue : List (List ℕ)
  pub valid : IsValid sink queue
  pub lights : sink.lights_count ≡ n
  pub live : sink.state ≢ SinkState.error

-- The fields that the invariant has no part in, or only a condition of their own.
pub with_fields-IsValid :
    {queue : List (List ℕ)} {sink : Sink} {state : SinkState} {error_msg : Option String}
    {socket : UdpSocket} {borrower : UdpEndpoint} {duration : ℕ} {builder : MsgBuilder}
    {buf : List ℕ} {origin : ℕ} {idx : ℤ} {recv_time send_time : ℕ}
    → IsValid sink queue
    → IsReady builder
    → length buf ≡ 1024
    → IsIndex idx
    → IsValid
        (record sink {
          state = state;
          error_msg = error_msg;
          socket = socket;
          borrower_endpoint = borrower;
          frame_duration_ms = duration;
          builder = builder;
          recv_buf = buf;
          time_origin = origin;
          last_enqueued_frame_idx = idx;
          last_recv_time = recv_time;
          last_send_lent_time = send_time;
        })
        queue
with_fields-IsValid v ready size index = record {
  lights = v.lights;
  small = v.small;
  ready = ready;
  buffer = size;
  current = v.current;
  received = v.received;
  ring = v.ring;
  index = index;
}

pub with_fields :
    {n : ℕ} {sink : Sink} {state : SinkState} {error_msg : Option String} {socket : UdpSocket}
    {borrower : UdpEndpoint} {duration : ℕ} {builder : MsgBuilder} {buf : List ℕ} {origin : ℕ}
    {idx : ℤ} {recv_time send_time : ℕ}
    → IsRunning n sink
    → state ≢ SinkState.error
    → IsReady builder
    → length buf ≡ 1024
    → IsIndex idx
    → IsRunning n (record sink {
      state = state;
      error_msg = error_msg;
      socket = socket;
      borrower_endpoint = borrower;
      frame_duration_ms = duration;
      builder = builder;
      recv_buf = buf;
      time_origin = origin;
      last_enqueued_frame_idx = idx;
      last_recv_time = recv_time;
      last_send_lent_time = send_time;
    })
with_fields r live ready size index = record {
  queue = r.queue;
  valid = with_fields-IsValid r.valid ready size index;
  lights = r.lights;
  live = live;
}

pub with_builder :
    {n : ℕ} {sink : Sink} (builder : MsgBuilder)
    → IsRunning n sink
    → IsReady builder
    → IsRunning n (record sink { builder = builder })
with_builder builder r ready = with_fields r r.live ready r.valid.buffer r.valid.index

pub with_buffer :
    {n : ℕ} {sink : Sink} (buf : List ℕ)
    → IsRunning n sink
    → length buf ≡ 1024
    → IsRunning n (record sink { recv_buf = buf })
with_buffer buf r size = with_fields r r.live r.valid.ready size r.valid.index

pub with_state :
    {n : ℕ} {sink : Sink} (state : SinkState)
    → IsRunning n sink
    → state ≢ SinkState.error
    → IsRunning n (record sink { state = state })
with_state state r live = with_fields r live r.valid.ready r.valid.buffer r.valid.index
