-- ===== src/Source/Update.antt =====
-- source_update of src/atolla/source.cpp and all that it calls, with the calls that only report the state.
pub mod States
pub mod Advance
pub mod Await
pub mod Branches
pub mod Borrow
use Prim.Native.String.{String}
use atolla.Prelude.{
  ℕ, zero, suc, Option, none, some, ltb, leb, if◌then◌else◌, sub_u32, Result, ok, fault,
  out_of_fuel, ◌>>=◌,
}
use atolla.Machine.{Machine}
use atolla.World.{World, time_now}
use atolla.Udp.Results.{is_ok}
use atolla.Udp.Transfer.{udp_socket_receive_from, udp_socket_send}
use atolla.Mem.Block.{load}
use atolla.Msg.Kind.{MsgType}
use atolla.Msg.Builder.{msg_builder_borrow}
use atolla.Msg.Iter.{
  MsgIter, msg_iter_make, msg_iter_has_msg, msg_iter_next, msg_iter_type, msg_iter_fail_error_code,
}
use atolla.Source.State.{
  Source, SourceState, recv_buf_len, null_time, fail_text, malformed_text, timed_out_text,
  lost_text,
}

unfoldable pub source_fail : Source → String → Source
source_fail source msg = record source { state = SourceState.error; error_msg = some msg }

-- source_lent; the time is only read in the states that note it.
unfoldable pub source_lent : Source → World → Source × World
source_lent source w = elim source.state [
  | SourceState.waiting ↦
      let (t, w1) = time_now w in
      (
        record source {
          state = SourceState.opened;
          last_frame_time = null_time;
          last_recv_lent_time = t;
        },
        w1,
      )
  | SourceState.opened ↦ let (t, w1) = time_now w in (record source { last_recv_lent_time = t }, w1)
  | SourceState.error ↦ (source, w)
]

module _ (m : Machine) where
  unfoldable pub source_send_borrow : Source → World → Result (Source × World)
  source_send_borrow source w = do
    let (t, w1) = time_now w
    b ← msg_builder_borrow m source.builder source.frame_duration_ms source.max_buffered_frames
    bytes ← load b.msg_buf.bytes b.msg_buf.size
    (_, w2) ← udp_socket_send (some source.sock) bytes w1
    ok (record source { last_borrow_time = t; builder = b }, w2)

  -- One round of the loop in source_iterate_recv_buf.
  unfoldable pub source_handle_msg : Source → MsgIter → World → Result (Source × World)
  source_handle_msg source iter w = do
    type ← msg_iter_type iter
    elim type [
      | MsgType.lent ↦ ok (source_lent source w)
      | MsgType.fail ↦ do
        code ← msg_iter_fail_error_code m iter
        ok (source_fail source (fail_text code), w)
      | _ ↦ ok (source_fail source malformed_text, w)
    ]

  -- The loop, with fuel.
  unfoldable pub source_msgs : ℕ → Source → MsgIter → World → Result (Source × World)
  source_msgs zero source iter w =
      if msg_iter_has_msg iter then fault out_of_fuel else ok (source, w)
  source_msgs (suc fuel) source iter w =
      if msg_iter_has_msg iter
      then (do
        (s, w1) ← source_handle_msg source iter w
        next ← msg_iter_next m iter
        source_msgs fuel s next w1)
      else ok (source, w)

  -- Each round moves on by five bytes or more.
  unfoldable pub source_iterate_recv_buf : Source → ℕ → World → Result (Source × World)
  source_iterate_recv_buf source received_bytes w =
      source_msgs received_bytes source (msg_iter_make source.recv_buf received_bytes) w

  -- udp_socket_receive without `set_sender_as_receiver` is udp_socket_receive_from.
  unfoldable pub source_receive : Source → World → Result (Source × World)
  source_receive source w = do
    (r, w1) ← udp_socket_receive_from (some source.sock) source.recv_buf recv_buf_len w
    let source1 = record source { recv_buf = r.packet_data }
    if is_ok r.result.code
        then source_iterate_recv_buf source1 r.received_byte_count w1
        else ok (source1, w1)

  unfoldable pub source_manage_borrow_packet_loss : Source → World → Result (Source × World)
  source_manage_borrow_packet_loss source w = elim source.state [
    | SourceState.waiting ↦
        let (t, w1) = time_now w in
        if ltb source.disconnect_timeout_ms (sub_u32 t source.first_borrow_time)
        then ok (source_fail source timed_out_text, w1)
        else if ltb source.retry_timeout_ms (sub_u32 t source.last_borrow_time)
        then source_send_borrow source w1
        else ok (source, w1)
    | _ ↦ ok (source, w)
  ]

  unfoldable pub source_ensure_lent_resent : Source → World → Result (Source × World)
  source_ensure_lent_resent source w = elim source.state [
    | SourceState.opened ↦
        let (t, w1) = time_now w in
        if leb source.disconnect_timeout_ms (sub_u32 t source.last_recv_lent_time)
        then ok (source_fail source lost_text, w1)
        else ok (source, w1)
    | _ ↦ ok (source, w)
  ]

  unfoldable pub source_update : Source → World → Result (Source × World)
  source_update source w = do
    (s1, w1) ← source_receive source w
    (s2, w2) ← source_manage_borrow_packet_loss s1 w1
    source_ensure_lent_resent s2 w2

  unfoldable pub atolla_source_state : Source → World → Result (SourceState × Source × World)
  atolla_source_state source w = do (s, w1) ← source_update source w; ok (s.state, s, w1)

  -- The loop of source_await_make_completion, with fuel; sleeping is what makes the readings of the clock grow.
  unfoldable pub source_await_make_completion : ℕ → Source → World → Result (Source × World)
  source_await_make_completion zero source w = elim source.state [
    | SourceState.waiting ↦ fault out_of_fuel
    | _ ↦ ok (source, w)
  ]
  source_await_make_completion (suc fuel) source w = elim source.state [
    | SourceState.waiting ↦ do
      (s, w1) ← source_update source w
      source_await_make_completion fuel s w1
    | _ ↦ ok (source, w)
  ]

unfoldable pub atolla_source_error_msg : Source → Option String
atolla_source_error_msg source = elim source.state [
  | SourceState.error ↦ source.error_msg
  | _ ↦ none
]
