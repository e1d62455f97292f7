-- ===== src/Session/Delivery.antt =====
-- A frame from end to end: the source's message, and what it becomes in the sink's queue.
use mathlib.Core.List.{append-nil}
use atolla.Prelude.{
  ℕ, ◌+◌, ◌≤◌, ◌≡◌, refl, ◌∙◌, ap, sym, true, none, List, [], ◌∷◌, ◌++◌, length, ok, arith, ltb,
  le→ltb, u8, u16, sub_u32, length-write_at, slice-write_at_self, take_all, slice, replicate, false,
  ◌%◌,
}
use atolla.Prelude.Int.{pos}
use atolla.Machine.{Machine, HasMemory}
use atolla.World.{World, UdpEndpoint, datagram, done, now, time_now, IsDatagramService}
use atolla.Udp.Endpoint.{udp_endpoint_equal}
use atolla.Msg.Packet.{enqueue_packet}
use atolla.Msg.Builder.Encode.{IsReady}
use atolla.Msg.Iter.Decode.{Shows}
use atolla.Source.State.{Source}
use atolla.Source.Put.{note_frame, send_frame}
use atolla.Source.Put.Frame.{send_frame_lem, note_frame-counts}
use atolla.Sink.State.{Sink, SinkState}
use atolla.Sink.Valid.{IsValid, frame_size}
use atolla.Sink.Valid.Running.{with_fields-IsValid}
use atolla.Sink.Run.Branches.{sink_send-lent, atolla_sink_state-live}
use atolla.Sink.Pattern.{bounded_diff}
use atolla.Sink.Pattern.Cyclic.{cyclic}
use atolla.Sink.Handle.Enqueue.{frame_at, take_frame-room}
use atolla.Sink.Handle.Senders.{enqueue-borrower}
use atolla.Msg.Iter.Parts.{Shows-part}
use atolla.Sink.Handle.Datagram.{Request, enqueueing, request_packets}
use atolla.Sink.Run.{sink_receive, sink_update, atolla_sink_state}
use atolla.Sink.Send.Replies.{after_send}
use atolla.Sink.Run.Receive.{filled, sink_receive-requests}
use atolla.Session.Handshake.{HasSent}

module _ (m : Machine) (mem : HasMemory m) (sink : Sink) (queue : List (List ℕ))
    (valid : IsValid sink queue) (sender : UdpEndpoint) (id idx d : ℕ) (frame : List ℕ)
    (v : World) where
  abbrev carried : List Request
  carried = enqueueing id idx frame ∷ []

  -- The sink, with the datagram in its buffer.
  abbrev in_buffer : Sink
  in_buffer = record sink { recv_buf = filled sink carried }

  in_buffer-IsValid : IsValid in_buffer queue
  in_buffer-IsValid =
      with_fields-IsValid valid valid.ready
        (length-write_at 0 (request_packets carried) sink.recv_buf ∙ valid.buffer) valid.index

  one_packet : request_packets carried ≡ enqueue_packet id idx frame
  one_packet = append-nil (enqueue_packet id idx frame)

  packet_length : length (request_packets carried) ≡ 8 + length frame
  packet_length = omega (arith, ap length one_packet)

  receive_frame :
      v.incoming v.recv_calls ≡ datagram sender (enqueue_packet id idx frame)
      → sink.state ≡ SinkState.lent
      → udp_endpoint_equal sender sink.borrower_endpoint ≡ true
      → 3 ≤ length frame
      → length frame ≤ 1016
      → bounded_diff sink.last_enqueued_frame_idx (pos (u8 idx)) (pos 256) ≡ pos d
      → d ≤ 128
      → length queue + d ≤ 128
      → (s : Sink) × (sink_receive m sink v
          ≡ ok (s, record v { recv_calls = v.recv_calls + 1; clock_calls = v.clock_calls + 1 }))
        × IsValid s (queue ++ replicate d (cyclic frame (frame_size sink)))
        × (s.last_enqueued_frame_idx ≡ pos (u8 idx))
        × (s ≡ record in_buffer {
          received_frame = s.received_frame;
          pending_frames = s.pending_frames;
          last_enqueued_frame_idx = s.last_enqueued_frame_idx;
          last_recv_time = now v;
        })
  unfolding time_now
  receive_frame came held same long short ahead few room =
      let buf : List ℕ = filled sink carried in
      let whole : Shows buf 0 (request_packets carried) = record {
        inside = omega (
          arith,
          packet_length,
          valid.buffer,
          length-write_at 0 (request_packets carried) sink.recv_buf,
        );
        same =
            slice-write_at_self 0 (request_packets carried) sink.recv_buf
              (omega (arith, packet_length, valid.buffer));
      } in
      let shown : Shows buf (0 + 5 + 3) frame =
        Shows-part (0 + 5 + 3) 8 frame whole (omega arith) (omega (arith, packet_length))
          (ap (slice 8 (length frame)) one_packet ∙ take_all frame) in
      let (s, took, v', at, takes) =
        take_frame-room buf (0 + 5 + 3) frame shown (omega arith) d in_buffer queue (u8 idx)
          in_buffer-IsValid (omega arith) ahead few room in
      (
        record s { last_recv_time = now v },
        sink_receive-requests m sink carried sender v (came ∙ ap (datagram sender) (sym one_packet))
              (omega (arith, packet_length)) (omega (arith, packet_length))
              (omega arith, omega arith) valid.buffer
            ∙ rw
                (
                  enqueue-borrower m in_buffer (u16 id) (u8 idx) (frame_at buf (0 + 5 + 3) frame)
                      sender (record v { recv_calls = v.recv_calls + 1 }) held long same,
                  took,
                )
                refl,
        with_fields-IsValid v' v'.ready v'.buffer v'.index,
        at,
        ap (λ (t : Sink). record t { last_recv_time = now v }) takes,
      )

  -- The frame through the whole call, where no LENT message is due.
  pub state-takes :
      v.incoming v.recv_calls ≡ datagram sender (enqueue_packet id idx frame)
      → sink.state ≡ SinkState.lent
      → udp_endpoint_equal sender sink.borrower_endpoint ≡ true
      → 3 ≤ length frame
      → length frame ≤ 1016
      → bounded_diff sink.last_enqueued_frame_idx (pos (u8 idx)) (pos 256) ≡ pos d
      → d ≤ 128
      → length queue + d ≤ 128
      → sub_u32 (now (record v { clock_calls = v.clock_calls + 1 })) sink.last_send_lent_time ≤ 500
      → (s : Sink) × (atolla_sink_state m sink v
          ≡ ok (
            SinkState.lent,
            s,
            record v { recv_calls = v.recv_calls + 1; clock_calls = v.clock_calls + 1 + 1 },
          ))
        × IsValid s (queue ++ replicate d (cyclic frame (frame_size sink)))
        × (s.last_enqueued_frame_idx ≡ pos (u8 idx))
        × (s ≡ record in_buffer {
          received_frame = s.received_frame;
          pending_frames = s.pending_frames;
          last_enqueued_frame_idx = s.last_enqueued_frame_idx;
          last_recv_time = now v;
        })
  unfolding sink_update time_now
  state-takes came held same long short ahead few room soon =
      let (s, got, v', at, takes) = receive_frame came held same long short ahead few room in
      let w1 : World = record v {
        recv_calls = v.recv_calls + 1;
        clock_calls = v.clock_calls + 1;
      } in
      let lent : s.state ≡ SinkState.lent = ap (λ (t : Sink). t.state) takes ∙ held in
      let sent_time : s.last_send_lent_time ≡ sink.last_send_lent_time =
        ap (λ (t : Sink). t.last_send_lent_time) takes in
      let quiet : ltb 500 (sub_u32 (now w1) s.last_send_lent_time) ≡ false =
        rw sent_time (le→ltb _ _ soon) in
      (
        s,
        atolla_sink_state-live m sink v (λ failed. cc)
            ∙ rw (got, sink_send-lent m s w1 lent, quiet, lent) refl,
        v',
        at,
        takes,
      )

module _ (m : Machine) (mem : HasMemory m) (source : Source) (frame : List ℕ) (w : World)
    (sink : Sink) (v : World) (home : UdpEndpoint) (d : ℕ) where
  -- Where no `malloc` fails and datagrams are sent whole, for a frame of 3 to 1016 bytes: send_frame
  -- of a source whose builder owns its buffer sends the ENQUEUE message if the system does, answers
  -- `true` and counts the frame index on modulo 256. If that datagram comes to a valid sink that is
  -- lent to its sender, whose index it is d ahead of, with d at most 128 and room for d frames, at
  -- most 500 ms after the sink's last LENT message, then atolla_sink_state reports that the sink is
  -- lent; the sink has the frame, repeated to the size of its frames, d times behind its queue, has
  -- the index of the message modulo 256, and sends nothing.
  pub delivery :
      (queue : List (List ℕ))
      → IsValid sink queue
      → IsReady source.builder
      → IsDatagramService w
      → 3 ≤ length frame
      → length frame ≤ 1016
      → let bytes = enqueue_packet source.builder.next_msg_id source.next_frame_idx frame in
        w.outgoing w.send_calls (length bytes) ≡ done (length bytes)
        → v.incoming v.recv_calls ≡ datagram home bytes
        → sink.state ≡ SinkState.lent
        → udp_endpoint_equal home sink.borrower_endpoint ≡ true
        → bounded_diff sink.last_enqueued_frame_idx (pos (u8 source.next_frame_idx)) (pos 256)
          ≡ pos d
        → d ≤ 128
        → length queue + d ≤ 128
        → sub_u32 (now (record v { clock_calls = v.clock_calls + 1 })) sink.last_send_lent_time
          ≤ 500
        → (puts : Source) × (w' : World) × (send_frame m source frame w ≡ ok (true, puts, w'))
          × HasSent w w' (record { to = none; bytes = bytes })
          × (puts.next_frame_idx ≡ (source.next_frame_idx + 1) % 256)
          × (takes : Sink) × (v' : World) × (atolla_sink_state m sink v
              ≡ ok (SinkState.lent, takes, v'))
          × IsValid takes (queue ++ replicate d (cyclic frame (frame_size sink)))
          × (takes.last_enqueued_frame_idx ≡ pos (u8 source.next_frame_idx))
          × (v'.sent ≡ v.sent)
  delivery queue valid ready service long short out came held same ahead few room soon =
      let id : ℕ = source.builder.next_msg_id in
      let (b, _, put) = send_frame_lem m source frame w mem ready service (omega arith) in
      let (s, taken, v', at, _) =
        state-takes m mem sink queue valid home id source.next_frame_idx d frame v came held same
          long short ahead few room soon in
      let sent : World = after_send w none (enqueue_packet id source.next_frame_idx frame) in
      let (kept, counted, _) = note_frame-counts (record source { builder = b }) sent in
      (
        (note_frame (record source { builder = b }) sent).0,
        (note_frame (record source { builder = b }) sent).1,
        put ∙ rw out refl,
        kept ∙ rw out refl,
        counted,
        s,
        _,
        taken,
        v',
        at,
        refl,
      )
