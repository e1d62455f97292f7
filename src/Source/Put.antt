-- ===== src/Source/Put.antt =====
-- atolla_source_put and the calls that say when it does not wait, of src/atolla/source.cpp.
pub mod Pace
pub mod Frame
pub mod Whole
use atolla.Prelude.{
  ℕ, ◌+◌, ◌-◌, ◌*◌, ◌/◌, ◌%◌, ◌^◌, Bool, true, false, List, ltb, ◌==◌, if◌then◌else◌, u32, sub_u32,
  Result, ok, fault, some, div_by_zero, ◌>>=◌,
}
use atolla.Prelude.Int.{ℤ, pos, negsuc, ltb_ℤ, int_of_u32}
use atolla.Machine.{Machine}
use atolla.World.{World, time_now}
use atolla.Udp.Results.{is_ok}
use atolla.Udp.Transfer.{udp_socket_send}
use atolla.Mem.Block.{load}
use atolla.Msg.Builder.{MsgBuilder, msg_builder_enqueue}
use atolla.Source.State.{Source, SourceState, null_time}
use atolla.Source.Update.{source_update, atolla_source_state}

-- (time_now() - last_frame_time) / frame_duration_ms, as an `int`
unfoldable pub frames_behind : Source → World → Result (ℤ × World)
frames_behind source w =
    let (t, w1) = time_now w in
    if source.frame_duration_ms == 0
    then fault div_by_zero
    else ok (int_of_u32 (sub_u32 t source.last_frame_time / source.frame_duration_ms), w1)

-- The answers of the two calls below in the state that source_update left.
unfoldable pub ready_count : Source → World → Result (ℤ × World)
ready_count source w = elim source.state [
  | SourceState.opened ↦
      if source.last_frame_time == null_time
      then ok (pos source.max_buffered_frames, w)
      else frames_behind source w
  | _ ↦ ok (pos 0, w)
]

unfoldable pub ready_timeout : Source → World → Result (ℤ × World)
ready_timeout source w = elim source.state [
  | SourceState.opened ↦ if source.last_frame_time == null_time then ok (pos 0, w) else (do
    (count, w1) ← frames_behind source w
    let (t, w2) = time_now w1
    if ltb_ℤ (pos 0) count
        then ok (pos 0, w1)
        else ok
            (int_of_u32 (sub_u32 (u32 (source.last_frame_time + source.frame_duration_ms)) t), w2))
  | _ ↦ ok (negsuc 0, w)
]

-- What a frame that was sent changes.
unfoldable pub note_frame : Source → World → Source × World
note_frame source w =
    let s = record source { next_frame_idx = (source.next_frame_idx + 1) % 256 } in
    if source.last_frame_time == null_time
    then (let (t, w1) = time_now w in
        (
          record s {
            last_frame_time =
                sub_u32 t
                  (u32 (u32 (source.max_buffered_frames + 2 ^ 32 - 1) * source.frame_duration_ms));
          },
          w1,
        ))
    else (record s { last_frame_time = u32 (source.last_frame_time + source.frame_duration_ms) }, w)

module _ (m : Machine) where
  unfoldable pub atolla_source_put_ready_count : Source → World → Result (ℤ × Source × World)
  atolla_source_put_ready_count source w = do
    (s, w1) ← source_update m source w
    (count, w2) ← ready_count s w1
    ok (count, s, w2)

  unfoldable pub atolla_source_put_ready_timeout : Source → World → Result (ℤ × Source × World)
  atolla_source_put_ready_timeout source w = do
    (s, w1) ← source_update m source w
    (timeout, w2) ← ready_timeout s w1
    ok (timeout, s, w2)

  -- The end of atolla_source_put, from the message on.
  unfoldable pub send_frame : Source → List ℕ → World → Result (Bool × Source × World)
  send_frame source frame w = do
    b ← msg_builder_enqueue m source.builder source.next_frame_idx frame
    bytes ← load b.msg_buf.bytes b.msg_buf.size
    (r, w1) ← udp_socket_send (some source.sock) bytes w
    let s = record source { builder = b }
    if is_ok r.code
        then (let (s', w2) = note_frame s w1 in ok (true, s', w2))
        else ok (false, s, w1)

  -- The frame is given as its bytes. Sleeping changes nothing but what the clock reads next.
  unfoldable pub atolla_source_put : Source → List ℕ → World → Result (Bool × Source × World)
  atolla_source_put source frame w = do
    (s1, w1) ← source_update m source w
    (state, s2, w2) ← atolla_source_state m s1 w1
    elim state [
      | SourceState.opened ↦ do
        (timeout, s3, w3) ← atolla_source_put_ready_timeout s2 w2
        send_frame s3 frame w3
      | _ ↦ ok (false, s2, w2)
    ]
