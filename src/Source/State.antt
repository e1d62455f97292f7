-- ===== src/Source/State.antt =====
-- The state of a source, and the constants and texts of src/atolla/source.cpp.
use Prim.Native.String.{String}
use atolla.Prelude.{Bool, ℕ, ◌-◌, ◌^◌, ◌==◌, if◌then◌else◌, Option, List, u32}
use atolla.Udp.Results.{UdpSocket}
use atolla.Msg.Builder.{MsgBuilder}

-- enum AtollaSourceState
pub data SourceState : Type 0 where
  waiting : SourceState
  opened : SourceState
  error : SourceState

-- struct AtollaSourceSpec; no number is negative.
pub record SourceSpec : Type 0 where
  pub sink_hostname : String
  pub sink_port : ℕ
  pub frame_duration_ms : ℕ
  pub max_buffered_frames : ℕ
  pub retry_timeout_ms : ℕ
  pub disconnect_timeout_ms : ℕ
  pub async_make : Bool

-- struct AtollaSourcePrivate
pub record Source : Type 0 where
  pub state : SourceState
  pub sock : UdpSocket
  pub recv_buf : List ℕ
  pub builder : MsgBuilder
  pub next_frame_idx : ℕ
  pub frame_duration_ms : ℕ
  pub max_buffered_frames : ℕ
  pub retry_timeout_ms : ℕ
  pub disconnect_timeout_ms : ℕ
  pub first_borrow_time : ℕ
  pub last_borrow_time : ℕ
  pub last_frame_time : ℕ
  pub last_recv_lent_time : ℕ
  pub error_msg : Option String

abbrev pub recv_buf_len : ℕ
recv_buf_len = 32

abbrev pub retry_timeout_ms_default : ℕ
retry_timeout_ms_default = 100

abbrev pub disconnect_timeout_ms_default : ℕ
disconnect_timeout_ms_default = 750

abbrev pub max_buffered_frames_default : ℕ
max_buffered_frames_default = 16

abbrev pub null_time : ℕ
null_time = 2 ^ 32 - 1

-- What `malloc` left in the object is given as `fresh`: the fields that are not set keep it.
unfoldable pub source_private_make : Source → SourceSpec → Source
source_private_make fresh spec = record fresh {
  state = SourceState.waiting;
  next_frame_idx = 0;
  frame_duration_ms = u32 spec.frame_duration_ms;
  max_buffered_frames =
      if spec.max_buffered_frames == 0
      then max_buffered_frames_default
      else spec.max_buffered_frames;
  retry_timeout_ms =
      if spec.retry_timeout_ms == 0 then retry_timeout_ms_default else u32 spec.retry_timeout_ms;
  disconnect_timeout_ms =
      if spec.disconnect_timeout_ms == 0
      then disconnect_timeout_ms_default
      else u32 spec.disconnect_timeout_ms;
  first_borrow_time = 0;
  last_borrow_time = 0;
  last_frame_time = 0;
}

-- The text that source_iterate_recv_buf has for an error code of the sink.
unfoldable pub fail_text : ℕ → String
fail_text code =
    if code == 0
    then "The sink signalled that is not currently borrowed by this source."
    else if code == 1
    then "The sink does not have enough memory for a frame queue of the requested length."
    else if code == 2
    then "The sink cannot accomodate the reqest for the given frame duration because it is too short. Try a shorter frame duration."
    else if code == 3
    then "The sink refused a request to borrow or enqueue because it is currently lent to another source. Try again later, when the other source has stopped transmission."
    else if code == 4
    then "The sink signalled that it could not understand a message or that a message contained a not further specified invalid value. This might be due to incompatible versions of the atolla protocol."
    else if code == 5
    then "The sink signalled that it did not receive packets for so long, it deems the connection no longer working. This might be due to bad signal quality or the source failing to enqueue frames for too long."
    else "The sink signalled an unrecoverable error state."

abbrev pub malformed_text : String
malformed_text =
    "Malformed or unknown message type received from sink. This might be due to incompatible versions of the atolla protocol."

abbrev pub timed_out_text : String
timed_out_text = "Tried to borrow the sink, but the attempt timed out."

abbrev pub lost_text : String
lost_text = "The connection to the sink was lost."

abbrev pub unresolved_text : String
unresolved_text = "Sink hostname could not be resolved."

abbrev pub not_bound_text : String
not_bound_text = "Sink could not bind to port."
