-- ===== src/Sink/Handle/Senders.antt =====
-- Who may send frames to a sink: the branches of sink_handle_enqueue, and what a stranger can change.
use atolla.Prelude.{
  ℕ, ◌≤◌, ◌<◌, ◌≡◌, ◌∙◌, true, false, ◌⊎◌, inl, inr, some, arith, ok, ltb, lt→ltb, le→ltb, ◌>>=◌,
}
use atolla.Machine.{Machine, HasMemory}
use atolla.World.{World, UdpEndpoint, IsDatagramService}
use atolla.Udp.Endpoint.{udp_endpoint_equal}
use atolla.Mem.Block.{MemBlock}
use atolla.Msg.Builder.{MsgBuilder}
use atolla.Msg.Builder.Encode.{IsReady}
use atolla.Msg.Packet.{fail_packet}
use atolla.Sink.State.{Sink, SinkState}
use atolla.Sink.Send.{sink_send_fail_to, sink_drop_borrow}
use atolla.Sink.Send.Replies.{after_send, Follows, send_fail_to_lem}
use atolla.Sink.Handle.{take_frame, sink_handle_enqueue}

module _ (m : Machine) (sink : Sink) (msg_id frame_idx : ℕ) (frame : MemBlock)
    (sender : UdpEndpoint) (w : World) where
  pub enqueue-free :
      sink.state ≡ SinkState.opened
      → sink_handle_enqueue m sink msg_id frame_idx frame sender w
        ≡ sink_send_fail_to m sink msg_id 0 sender w
  unfolding sink_handle_enqueue
  enqueue-free free = ground arith

  pub enqueue-short :
      sink.state ≡ SinkState.lent
      → ltb frame.size 3 ≡ true
      → sink_handle_enqueue m sink msg_id frame_idx frame sender w
        ≡ (sink_send_fail_to m sink msg_id 4 sender w >>= λ r. ok (sink_drop_borrow r.0, r.1))
  unfolding sink_handle_enqueue
  enqueue-short held short = ground arith

  pub enqueue-other :
      sink.state ≡ SinkState.lent
      → ltb frame.size 3 ≡ false
      → udp_endpoint_equal sender sink.borrower_endpoint ≡ false
      → sink_handle_enqueue m sink msg_id frame_idx frame sender w
        ≡ sink_send_fail_to m sink msg_id 3 sender w
  unfolding sink_handle_enqueue
  enqueue-other held long other = ground arith

  -- A frame of three bytes or more from the borrower is what `take_frame` makes of it; nothing is sent.
  pub enqueue-borrower :
      sink.state ≡ SinkState.lent
      → 3 ≤ frame.size
      → udp_endpoint_equal sender sink.borrower_endpoint ≡ true
      → sink_handle_enqueue m sink msg_id frame_idx frame sender w
        ≡ (take_frame sink frame_idx frame >>= λ s. ok (s, w))
  unfolding sink_handle_enqueue
  enqueue-borrower held long same =
      let test : ltb frame.size 3 ≡ false = le→ltb frame.size 3 long in ground arith

module _ (m : Machine) (sink : Sink) (w : World) (mem : HasMemory m) (ready : IsReady sink.builder)
    (service : IsDatagramService w) (msg_id frame_idx : ℕ) (frame : MemBlock)
    (sender : UdpEndpoint) where
  -- Where no `malloc` fails, datagrams are sent whole and the sink's builder owns its buffer, an
  -- enqueue message to a free sink is answered with the FAIL message for the code 0, and one with a
  -- frame of three bytes or more to a sink that is lent to another endpoint with that for the code 3.
  -- Nothing of the sink changes but the builder.
  pub enqueue-refused :
      (code : ℕ)
      → ((sink.state ≡ SinkState.opened) × (code ≡ 0))
        ⊎ ((sink.state ≡ SinkState.lent)
            × (3 ≤ frame.size)
            × (udp_endpoint_equal sender sink.borrower_endpoint ≡ false)
            × (code ≡ 3))
      → (b : MsgBuilder) × (sink_handle_enqueue m sink msg_id frame_idx frame sender w
          ≡ ok (
            record sink { builder = b },
            after_send w (some sender) (fail_packet sink.builder.next_msg_id msg_id code),
          ))
        × Follows sink.builder b
  enqueue-refused code (inl (free, e)) =
      let (b, sent, follows) = send_fail_to_lem m sink w mem ready service msg_id 0 sender in
      (b, enqueue-free m sink msg_id frame_idx frame sender w free ∙ rw e sent, follows)
  enqueue-refused code (inr (held, long, other, e)) =
      let (b, sent, follows) = send_fail_to_lem m sink w mem ready service msg_id 3 sender in
      (
        b,
        enqueue-other m sink msg_id frame_idx frame sender w held (le→ltb frame.size 3 long) other
            ∙ rw e sent,
        follows,
      )

  -- Where no `malloc` fails, datagrams are sent whole and the sink's builder owns its buffer, an
  -- enqueue message with a frame of less than three bytes to a lent sink makes it free, from whichever
  -- endpoint it comes, and is answered with the FAIL message for the code 4.
  pub enqueue-short_ends_borrow :
      sink.state ≡ SinkState.lent
      → frame.size < 3
      → (b : MsgBuilder) × (sink_handle_enqueue m sink msg_id frame_idx frame sender w
          ≡ ok (
            record sink { state = SinkState.opened; builder = b },
            after_send w (some sender) (fail_packet sink.builder.next_msg_id msg_id 4),
          ))
        × Follows sink.builder b
  unfolding sink_drop_borrow
  enqueue-short_ends_borrow held short =
      let (b, sent, follows) = send_fail_to_lem m sink w mem ready service msg_id 4 sender in
      (
        b,
        enqueue-short m sink msg_id frame_idx frame sender w held (lt→ltb frame.size 3 short)
            ∙ rw sent,
        follows,
      )
