-- ===== src/Source/Update/States.antt =====
-- How a source changes its state: source_update on what it may receive.
use atolla.Prelude.{
  ℕ, ◌+◌, ◌≤◌, ◌<◌, ◌≡◌, refl, true, none, List, [], length, write_at, sub_u32, arith, ok, leb,
  lt→ltb, le→ltb, le→leb, gt→leb, slice-write_at_self, length-write_at,
}
use atolla.Machine.{Machine, HasMemory}
use atolla.World.{
  World, UdpEndpoint, datagram, recv_failed, Errno, IsDatagramService, now, time_now,
}
use atolla.Udp.Transfer.{udp_socket_receive_from, udp_socket_send}
use atolla.Msg.Builder.{MsgBuilder}
use atolla.Msg.Builder.Encode.{borrow-Assembles, IsReady}
use atolla.Msg.Packet.{lent_packet, borrow_packet}
use atolla.Msg.Iter.{msg_iter_make, msg_iter_has_msg, msg_type_of}
use atolla.Msg.Iter.Decode.{Shows, type_lem, next_lem}
use atolla.Sink.Send.Replies.{after_send, Follows, send_to_lem}
use atolla.Source.State.{Source, SourceState, null_time}
use atolla.Source.Update.{
  source_lent, source_send_borrow, source_handle_msg, source_msgs, source_iterate_recv_buf,
  source_receive, source_manage_borrow_packet_loss, source_ensure_lent_resent, source_update,
}

-- The system has nothing for the next call of `recvfrom`.
abbrev pub IsSilent : World → Type 0
IsSilent w = w.incoming w.recv_calls ≡ recv_failed Errno.eagain

-- The surroundings after that call.
abbrev pub after_silence : World → World
after_silence w = record w { recv_calls = w.recv_calls + 1; errno = Errno.eagain }

-- After two readings of the clock besides.
abbrev pub after_retry : World → World
after_retry w = record (after_silence w) { clock_calls = w.clock_calls + 1 + 1 }

module _ (m : Machine) (source : Source) (w : World) where
  pub receive_silence : IsSilent w → source_receive m source w ≡ ok (source, after_silence w)
  unfolding source_receive udp_socket_receive_from
  receive_silence quiet = rw quiet refl

  -- A datagram with a LENT message, in a buffer of the source's size.
  receive_lent :
      (sender : UdpEndpoint) (id : ℕ)
      → w.incoming w.recv_calls ≡ datagram sender (lent_packet id)
      → length source.recv_buf ≡ 32
      → source_receive m source w
        ≡ ok (
            source_lent
              (record source { recv_buf = write_at 0 (lent_packet id) source.recv_buf })
              (record w { recv_calls = w.recv_calls + 1 }))
  unfolding source_receive udp_socket_receive_from source_iterate_recv_buf source_msgs
      source_handle_msg msg_iter_make msg_iter_has_msg msg_type_of
  receive_lent sender id came size =
      let buf : List ℕ = write_at 0 (lent_packet id) source.recv_buf in
      let fits : leb 5 (length source.recv_buf) ≡ true = le→leb 5 _ (omega (arith, size)) in
      let shown : Shows buf 0 (lent_packet id) = record {
        inside = omega (arith, size, length-write_at 0 (lent_packet id) source.recv_buf);
        same = slice-write_at_self 0 (lent_packet id) source.recv_buf (omega (arith, size));
      } in
      let type = type_lem m buf 0 5 1 id [] shown (omega arith) (omega arith) in
      let next = next_lem m buf 0 5 1 id [] shown (omega arith) (omega arith) in
      rw (came, fits, type, next)

  -- Where no `malloc` fails, datagrams are sent whole and the builder owns its buffer: source_update
  -- of a waiting source that receives nothing, whose first borrow is not longer ago than the
  -- disconnect timeout and whose last one is longer ago than the retry timeout, hands the protocol's
  -- BORROW message to the system for the receiver that is set and notes the time. The source keeps
  -- waiting, and nothing else of it changes but the builder.
  pub update-retries :
      HasMemory m
      → IsReady source.builder
      → IsDatagramService w
      → source.state ≡ SourceState.waiting
      → IsSilent w
      → sub_u32 (now w) source.first_borrow_time ≤ source.disconnect_timeout_ms
      → source.retry_timeout_ms < sub_u32 (now w) source.last_borrow_time
      → (b : MsgBuilder) × (source_update m source w
          ≡ ok (
            record source {
              builder = b;
              last_borrow_time = now (record w { clock_calls = w.clock_calls + 1 });
            },
            after_send (after_retry w) none (
                borrow_packet source.builder.next_msg_id source.frame_duration_ms
                  source.max_buffered_frames),
          ))
        × Follows source.builder b
  unfolding source_update source_manage_borrow_packet_loss source_ensure_lent_resent
      source_send_borrow time_now udp_socket_send
  update-retries mem ready service waiting quiet early late =
      let (b, built, ready', shown, next) =
        borrow-Assembles m source.builder mem ready source.frame_duration_ms
          source.max_buffered_frames in
      let (r, sent, _) =
        send_to_lem source.sock
          (borrow_packet source.builder.next_msg_id source.frame_duration_ms
            source.max_buffered_frames)
          none (after_retry w) service (omega arith) in
      (
        b,
        rw (receive_silence quiet, waiting, le→ltb _ _ early, lt→ltb _ _ late, built, shown, sent)
            refl,
        (ready', next),
      )

  -- For a waiting source with a buffer of 32 bytes that receives a datagram with a LENT message, and a
  -- disconnect timeout longer than the time between its two readings of the clock: after source_update
  -- it is open, with no frame sent yet and the time of the first reading noted, and nothing else of it
  -- changes but the buffer.
  pub update-lent_opens :
      (sender : UdpEndpoint) (id : ℕ)
      → source.state ≡ SourceState.waiting
      → w.incoming w.recv_calls ≡ datagram sender (lent_packet id)
      → length source.recv_buf ≡ 32
      → sub_u32 (now (record w { clock_calls = w.clock_calls + 1 })) (now w)
        < source.disconnect_timeout_ms
      → source_update m source w
        ≡ ok (
          record source {
            recv_buf = write_at 0 (lent_packet id) source.recv_buf;
            state = SourceState.opened;
            last_frame_time = null_time;
            last_recv_lent_time = now w;
          },
          record w { recv_calls = w.recv_calls + 1; clock_calls = w.clock_calls + 1 + 1 },
        )
  unfolding source_update source_lent source_manage_borrow_packet_loss source_ensure_lent_resent
      time_now
  update-lent_opens sender id waiting came size soon =
      rw (receive_lent sender id came size, waiting, gt→leb _ _ soon)
