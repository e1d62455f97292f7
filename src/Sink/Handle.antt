-- ===== src/Sink/Handle.antt =====
-- What a sink does with each message: sink_handle_borrow, sink_handle_enqueue, sink_enqueue and
-- sink_iterate_recv_buf of src/atolla/sink.cpp.
pub mod Borrow
pub mod Enqueue
pub mod Senders
pub mod Datagram
use atolla.Prelude.{
  ℕ, zero, suc, ◌+◌, ◌*◌, Bool, true, false, ◌||◌, ◌&&◌, List, ltb, ◌==◌, if◌then◌else◌, Result, ok,
  fault, out_of_fuel, ◌>>=◌,
}
use atolla.Prelude.Int.{ℤ, pos, ◌+ℤ◌, ltb_ℤ, rem_ℤ, int_of_u32}
use atolla.Machine.{Machine}
use atolla.World.{World, UdpEndpoint}
use atolla.Udp.Endpoint.{udp_endpoint_equal}
use atolla.Mem.Block.{MemBlock}
use atolla.Mem.Ring.{mem_ring_enqueue}
use atolla.Msg.Kind.{MsgType}
use atolla.Msg.Iter.{
  MsgIter, msg_iter_make, msg_iter_has_msg, msg_iter_next, msg_iter_type, msg_iter_msg_id,
  msg_iter_borrow_frame_length, msg_iter_borrow_buffer_length, msg_iter_enqueue_frame_idx,
  msg_iter_enqueue_frame,
}
use atolla.Sink.State.{
  Sink, SinkState, color_channel_count, frame_length_ms_min, null_time, not_borrowed,
  requested_buffer_too_large, requested_frame_duration_too_short, lent_to_other_source, bad_msg,
}
use atolla.Sink.Pattern.{fill_with_pattern, bounded_diff}
use atolla.Sink.Send.{sink_send_lent, sink_send_fail_to, sink_drop_borrow}

abbrev pub is_lent : SinkState → Bool
is_lent SinkState.lent = true
is_lent _ = false

-- `if(sink->state == ATOLLA_SINK_STATE_LENT) { sink_drop_borrow(sink); }`
unfoldable pub drop_if_lent : Sink → Sink
unfolding sink_drop_borrow
drop_if_lent sink = if is_lent sink.state then sink_drop_borrow sink else sink

unfoldable pub sink_enqueue : Sink → MemBlock → Result Sink
sink_enqueue sink frame = do
  received ←
      fill_with_pattern sink.received_frame.bytes sink.received_frame.capacity frame.bytes
        frame.size
  let received_frame = record sink.received_frame { bytes = received }
  (done, ring) ← mem_ring_enqueue sink.pending_frames received sink.received_frame.capacity
  ok (record sink {
    received_frame = received_frame;
    pending_frames = ring;
    last_enqueued_frame_idx =
        if done
        then rem_ℤ (sink.last_enqueued_frame_idx +ℤ pos 1) 256
        else sink.last_enqueued_frame_idx;
  })

-- The loop `while(diff > 0)`, with fuel.
unfoldable pub enqueue_loop : ℕ → Sink → MemBlock → ℕ → ℤ → Result Sink
enqueue_loop zero sink frame frame_idx diff =
    if ltb_ℤ (pos 0) diff then fault out_of_fuel else ok sink
enqueue_loop (suc fuel) sink frame frame_idx diff =
    if ltb_ℤ (pos 0) diff
    then (do
      s ← sink_enqueue sink frame
      enqueue_loop fuel s frame frame_idx
          (bounded_diff s.last_enqueued_frame_idx (pos frame_idx) (pos 256)))
    else ok sink

-- A difference that enters the loop is at most 128.
abbrev pub enqueue_fuel : ℕ
enqueue_fuel = 129

-- The branch of sink_handle_enqueue for a message of the borrower.
unfoldable pub take_frame : Sink → ℕ → MemBlock → Result Sink
take_frame sink frame_idx frame =
    let diff = bounded_diff sink.last_enqueued_frame_idx (pos frame_idx) (pos 256) in
    if ltb_ℤ (pos 128) diff then ok sink else enqueue_loop enqueue_fuel sink frame frame_idx diff

module _ (m : Machine) where
  -- The replies to a borrow message that the sink could grant.
  unfoldable pub grant_borrow : Sink → ℕ → ℕ → ℕ → UdpEndpoint → World → Result (Sink × World)
  unfolding drop_if_lent
  grant_borrow sink msg_id frame_length_ms buffer_length sender w =
      let required_frame_buf_size = buffer_length * (sink.lights_count * color_channel_count) in
      if ltb sink.pending_frames.buf.capacity required_frame_buf_size
      then (do
        (s, w') ← sink_send_fail_to m sink msg_id requested_buffer_too_large sender w
        ok (drop_if_lent s, w'))
      else if ltb frame_length_ms frame_length_ms_min
      then (do
        (s, w') ← sink_send_fail_to m sink msg_id requested_frame_duration_too_short sender w
        ok (drop_if_lent s, w'))
      else sink_send_lent m
          (record sink {
            borrower_endpoint = sender;
            frame_duration_ms = frame_length_ms;
            time_origin = null_time;
            last_enqueued_frame_idx = int_of_u32 null_time;
            last_recv_time = null_time;
            state = SinkState.lent;
          })
          w

  unfoldable pub sink_handle_borrow : Sink → ℕ → ℕ → ℕ → UdpEndpoint → World → Result (Sink × World)
  sink_handle_borrow sink msg_id frame_length_ms buffer_length sender w = elim sink.state [
    | SinkState.opened ↦ grant_borrow sink msg_id frame_length_ms buffer_length sender w
    | SinkState.lent ↦
        if udp_endpoint_equal sender sink.borrower_endpoint
        then grant_borrow sink msg_id frame_length_ms buffer_length sender w
        else sink_send_fail_to m sink msg_id lent_to_other_source sender w
    | SinkState.error ↦ ok (sink, w)
  ]

  unfoldable pub sink_handle_enqueue :
      Sink → ℕ → ℕ → MemBlock → UdpEndpoint → World → Result (Sink × World)
  unfolding sink_drop_borrow
  sink_handle_enqueue sink msg_id frame_idx frame sender w = elim sink.state [
    | SinkState.error ↦ ok (sink, w)
    | SinkState.opened ↦ sink_send_fail_to m sink msg_id not_borrowed sender w
    | SinkState.lent ↦
        if ltb frame.size 3
        then (do
          (s, w') ← sink_send_fail_to m sink msg_id bad_msg sender w
          ok (sink_drop_borrow s, w'))
        else if udp_endpoint_equal sender sink.borrower_endpoint
        then (do s ← take_frame sink frame_idx frame; ok (s, w))
        else sink_send_fail_to m sink msg_id lent_to_other_source sender w
  ]

  -- One round of the loop over the messages of a datagram.
  unfoldable pub sink_handle_msg : Sink → MsgIter → UdpEndpoint → World → Result (Sink × World)
  sink_handle_msg sink iter sender w = do
    type ← msg_iter_type iter
    msg_id ← msg_iter_msg_id m iter
    elim type [
      | MsgType.borrow ↦ do
        frame_len ← msg_iter_borrow_frame_length m iter
        buffer_len ← msg_iter_borrow_buffer_length m iter
        sink_handle_borrow sink msg_id frame_len buffer_len sender w
      | MsgType.enqueue ↦ do
        frame_idx ← msg_iter_enqueue_frame_idx m iter
        frame ← msg_iter_enqueue_frame m iter
        sink_handle_enqueue sink msg_id frame_idx frame sender w
      | _ ↦ sink_send_fail_to m sink msg_id bad_msg sender w
    ]

  -- The loop, with fuel.
  unfoldable pub handle_msgs : ℕ → Sink → MsgIter → UdpEndpoint → World → Result (Sink × World)
  handle_msgs zero sink iter sender w =
      if msg_iter_has_msg iter then fault out_of_fuel else ok (sink, w)
  handle_msgs (suc fuel) sink iter sender w =
      if msg_iter_has_msg iter
      then (do
        (s, w') ← sink_handle_msg sink iter sender w
        next ← msg_iter_next m iter
        handle_msgs fuel s next sender w')
      else ok (sink, w)

  -- Each round moves on by five bytes or more.
  unfoldable pub sink_iterate_recv_buf : Sink → ℕ → UdpEndpoint → World → Result (Sink × World)
  sink_iterate_recv_buf sink received_bytes sender w =
      handle_msgs received_bytes sink (msg_iter_make sink.recv_buf received_bytes) sender w
