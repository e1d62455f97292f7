-- ===== src/Sink/Handle/Borrow.antt =====
-- The answers of a sink to a borrow message.
use native.Mathlib.Nat.{mul-le-mul_right}
use atolla.Prelude.{
  ℕ, ◌+◌, ◌*◌, ◌≤◌, ◌<◌, ◌≡◌, ◌∙◌, ap, ◌⊎◌, inl, inr, true, false, List, some, arith, ok, ltb,
  lt→ltb, le→ltb,
}
use atolla.Prelude.Int.{negsuc}
use atolla.Machine.{Machine, HasMemory}
use atolla.World.{World, UdpEndpoint, IsDatagramService, now}
use atolla.Udp.Endpoint.{udp_endpoint_equal}
use atolla.Msg.Builder.{MsgBuilder}
use atolla.Msg.Packet.{lent_packet, fail_packet}
use atolla.Sink.State.{Sink, SinkState, null_time}
use atolla.Sink.Valid.{IsValid}
use atolla.Sink.Send.{sink_send_fail_to}
use atolla.Sink.Send.Replies.{after_send, Follows, send_fail_to_lem, send_lent_lem}
use atolla.Sink.Handle.{drop_if_lent, grant_borrow, sink_handle_borrow}

-- The sink is free, or it is lent to this very sender.
abbrev pub MayBorrow : Sink → UdpEndpoint → Type 0
MayBorrow sink sender =
    (sink.state ≡ SinkState.opened)
    ⊎ ((sink.state ≡ SinkState.lent) × (udp_endpoint_equal sender sink.borrower_endpoint ≡ true))

-- The sink as a granted borrow leaves it, but for the builder and the time of the LENT message.
abbrev pub granted : Sink → ℕ → UdpEndpoint → Sink
granted sink frame_length_ms sender = record sink {
  borrower_endpoint = sender;
  frame_duration_ms = frame_length_ms;
  time_origin = null_time;
  last_enqueued_frame_idx = negsuc 0;
  last_recv_time = null_time;
  state = SinkState.lent;
}

module _ (m : Machine) (sink : Sink) (msg_id frame_length_ms buffer_length : ℕ)
    (sender : UdpEndpoint) (w : World) where
  pub handle_borrow-may :
      MayBorrow sink sender
      → sink_handle_borrow m sink msg_id frame_length_ms buffer_length sender w
        ≡ grant_borrow m sink msg_id frame_length_ms buffer_length sender w
  unfolding sink_handle_borrow
  handle_borrow-may (inl free) = ground arith
  handle_borrow-may (inr (held, same)) = ground arith

  pub handle_borrow-other :
      sink.state ≡ SinkState.lent
      → udp_endpoint_equal sender sink.borrower_endpoint ≡ false
      → sink_handle_borrow m sink msg_id frame_length_ms buffer_length sender w
        ≡ sink_send_fail_to m sink msg_id 3 sender w
  unfolding sink_handle_borrow
  handle_borrow-other held other = ground arith

-- The capacity of a valid ring is that of 128 frames: more cannot be asked for.
ring_capacity :
    (sink : Sink) (queue : List (List ℕ))
    → IsValid sink queue
    → sink.pending_frames.buf.capacity ≡ 128 * (sink.lights_count * 3)
ring_capacity sink queue v = ap (λ r. r.buf.capacity) v.ring.shape

fits_iff :
    (sink : Sink) (queue : List (List ℕ)) (n : ℕ)
    → IsValid sink queue
    → n ≤ 128
    → ltb sink.pending_frames.buf.capacity (n * (sink.lights_count * 3)) ≡ false
fits_iff sink queue n v h =
    le→ltb _ _
      (omega (arith, ring_capacity sink queue v, mul-le-mul_right (sink.lights_count * 3) h))

too_large :
    (sink : Sink) (queue : List (List ℕ)) (n : ℕ)
    → IsValid sink queue
    → 128 < n
    → ltb sink.pending_frames.buf.capacity (n * (sink.lights_count * 3)) ≡ true
too_large sink queue n v h = lt→ltb _ _ (
    omega (
      arith,
      ring_capacity sink queue v,
      v.lights,
      mul-le-mul_right {m = 129} {n = n} (sink.lights_count * 3) (omega arith),
    ))

-- A sink that may be borrowed is free after a refusal.
freed :
    (sink : Sink) (sender : UdpEndpoint) (b : MsgBuilder)
    → MayBorrow sink sender
    → drop_if_lent (record sink { builder = b })
      ≡ record sink { state = SinkState.opened; builder = b }
unfolding drop_if_lent
freed sink sender b (inl free) = ground arith
freed sink sender b (inr (held, same)) = ground arith

module _ (m : Machine) (sink : Sink) (queue : List (List ℕ)) (w : World) (mem : HasMemory m)
    (valid : IsValid sink queue) (service : IsDatagramService w)
    (msg_id frame_length_ms buffer_length : ℕ) (sender : UdpEndpoint) where
  -- Where no `malloc` fails and datagrams are sent whole, a valid sink that is free or lent to the
  -- sender grants a borrow of at most 128 frames, of 10 ms at least: it is then lent to the sender
  -- with that frame duration, no frame index is known and no time has its origin, and it hands a LENT
  -- message for the sender to the system. Nothing else of the sink changes but the builder and the
  -- time of that message.
  pub borrow-granted :
      MayBorrow sink sender
      → buffer_length ≤ 128
      → 10 ≤ frame_length_ms
      → let w1 = after_send w (some sender) (lent_packet sink.builder.next_msg_id) in
        (b : MsgBuilder) × (sink_handle_borrow m sink msg_id frame_length_ms buffer_length sender w
          ≡ ok (
            record (granted sink frame_length_ms sender) {
              builder = b;
              last_send_lent_time = now w1;
            },
            record w1 { clock_calls = w1.clock_calls + 1 },
          ))
        × Follows sink.builder b
  unfolding grant_borrow
  borrow-granted may h k =
      let (b, sent, follows) =
        send_lent_lem m (granted sink frame_length_ms sender) w mem valid.ready service in
      (
        b,
        handle_borrow-may m sink msg_id frame_length_ms buffer_length sender w may
            ∙ rw (fits_iff sink queue buffer_length valid h, le→ltb frame_length_ms 10 k) sent,
        follows,
      )

  -- Where no `malloc` fails and datagrams are sent whole, a valid sink that is free or lent to the
  -- sender answers a borrow of more than 128 frames with the FAIL message for the code 1, and one of
  -- at most 128 frames of less than 10 ms with that for the code 2. It is free then, and nothing else
  -- of it changes but the builder.
  pub borrow-refused :
      MayBorrow sink sender
      → (code : ℕ)
      → ((128 < buffer_length) × (code ≡ 1))
        ⊎ ((buffer_length ≤ 128) × (frame_length_ms < 10) × (code ≡ 2))
      → (b : MsgBuilder) × (sink_handle_borrow m sink msg_id frame_length_ms buffer_length sender w
          ≡ ok (
            record sink { state = SinkState.opened; builder = b },
            after_send w (some sender) (fail_packet sink.builder.next_msg_id msg_id code),
          ))
        × Follows sink.builder b
  unfolding grant_borrow
  borrow-refused may code (inl (large, e)) =
      let (b, sent, follows) = send_fail_to_lem m sink w mem valid.ready service msg_id 1 sender in
      (
        b,
        handle_borrow-may m sink msg_id frame_length_ms buffer_length sender w may
            ∙ rw (e, too_large sink queue buffer_length valid large, sent, freed sink sender b may),
        follows,
      )
  borrow-refused may code (inr (enough, short, e)) =
      let (b, sent, follows) = send_fail_to_lem m sink w mem valid.ready service msg_id 2 sender in
      (
        b,
        handle_borrow-may m sink msg_id frame_length_ms buffer_length sender w may
            ∙ rw (
              e,
              fits_iff sink queue buffer_length valid enough,
              lt→ltb frame_length_ms 10 short,
              sent,
              freed sink sender b may,
            ),
        follows,
      )

  -- Where no `malloc` fails and datagrams are sent whole, a valid sink that is lent to another
  -- endpoint than the sender answers any borrow with the FAIL message for the code 3, and nothing of
  -- it changes but the builder.
  pub borrow-stranger :
      sink.state ≡ SinkState.lent
      → udp_endpoint_equal sender sink.borrower_endpoint ≡ false
      → (b : MsgBuilder) × (sink_handle_borrow m sink msg_id frame_length_ms buffer_length sender w
          ≡ ok (
            record sink { builder = b },
            after_send w (some sender) (fail_packet sink.builder.next_msg_id msg_id 3),
          ))
        × Follows sink.builder b
  borrow-stranger held other =
      let (b, sent, follows) = send_fail_to_lem m sink w mem valid.ready service msg_id 3 sender in
      (
        b,
        handle_borrow-other m sink msg_id frame_length_ms buffer_length sender w held other ∙ sent,
        follows,
      )
