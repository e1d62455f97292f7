-- ===== src/Sink/Run/Silence.antt =====
-- A lent sink that hears nothing: the end of a borrow, and the LENT messages that are sent again.
use atolla.Prelude.{
  ℕ, ◌+◌, ◌≤◌, ◌<◌, ◌≡◌, refl, ◌∙◌, some, ok, ◌>>=◌, List, lt→ltb, le→ltb, sub_u32,
}
use atolla.Machine.{Machine, HasMemory}
use atolla.World.{World, IsDatagramService, now, time_now}
use atolla.Udp.Transfer.{udp_socket_receive_from}
use atolla.Msg.Builder.{MsgBuilder}
use atolla.Msg.Packet.{lent_packet, fail_packet}
use atolla.Sink.State.{Sink, SinkState}
use atolla.Sink.Send.{sink_send_fail, sink_drop_borrow}
use atolla.Sink.Send.Replies.{after_send, Follows, send_fail_to_lem, send_lent_lem}
use atolla.Sink.Valid.{IsValid}
use atolla.Sink.Run.Branches.{
  drop_silent-lent, sink_send-opened, sink_send-lent, atolla_sink_state-live,
}
use atolla.Sink.Run.{drop_silent, sink_receive, sink_update, atolla_sink_state}
use atolla.Source.Update.States.{IsSilent, after_silence}

-- The surroundings after a call that brought nothing, and a reading of the clock.
abbrev pub after_quiet : World → World
after_quiet w = record (after_silence w) { clock_calls = w.clock_calls + 1 }

module _ (m : Machine) (mem : HasMemory m) (sink : Sink) (queue : List (List ℕ))
    (valid : IsValid sink queue) (held : sink.state ≡ SinkState.lent) (w : World)
    (quiet : IsSilent w) where
  receive_nothing : sink_receive m sink w ≡ drop_silent m sink (after_silence w)
  unfolding sink_receive udp_socket_receive_from
  receive_nothing = rw quiet refl

  state_silence :
      atolla_sink_state m sink w ≡ (sink_update m sink w >>= λ x. ok (x.0.state, x.0, x.1))
  state_silence = atolla_sink_state-live m sink w (λ failed. cc)

  -- Where no `malloc` fails and datagrams are sent whole: a valid lent sink that receives nothing,
  -- more than 1500 ms after it last did, is free after atolla_sink_state, which reports so and sends
  -- the borrower the FAIL message for the code 5. Nothing else of the sink changes but the builder.
  pub silence-ends_borrow :
      IsDatagramService w
      → 1500 < sub_u32 (now w) sink.last_recv_time
      → (b : MsgBuilder) × (atolla_sink_state m sink w
          ≡ ok (
            SinkState.opened,
            record sink { state = SinkState.opened; builder = b },
            after_send
                (after_quiet w)
                (some sink.borrower_endpoint)
                (fail_packet sink.builder.next_msg_id 0 5),
          ))
        × Follows sink.builder b
  unfolding sink_update sink_send_fail sink_drop_borrow time_now
  silence-ends_borrow service late =
      let (b, sent, follows) =
        send_fail_to_lem m sink (after_quiet w) mem valid.ready service 0 5
          sink.borrower_endpoint in
      let freed : Sink = record sink { state = SinkState.opened; builder = b } in
      let gone : World =
        after_send (after_quiet w) (some sink.borrower_endpoint)
          (fail_packet sink.builder.next_msg_id 0 5) in
      (
        b,
        state_silence
            ∙ rw
                (
                  receive_nothing,
                  drop_silent-lent m sink (after_silence w) held,
                  lt→ltb _ _ late,
                  sent,
                )
                (rw (sink_send-opened m freed gone refl) refl),
        follows,
      )

  -- Where no `malloc` fails and datagrams are sent whole: a valid lent sink that receives nothing, at
  -- most 1500 ms after it last did and more than 500 ms after its last LENT message, sends the
  -- borrower another one in atolla_sink_state, which reports that it is lent. Nothing else of the sink
  -- changes but the builder and the time of that message.
  pub silence-resends :
      IsDatagramService w
      → sub_u32 (now w) sink.last_recv_time ≤ 1500
      → 500 < sub_u32 (now (after_quiet w)) sink.last_send_lent_time
      → let w1 = record (after_quiet w) { clock_calls = w.clock_calls + 1 + 1 } in
        let w2 =
          after_send w1 (some sink.borrower_endpoint) (lent_packet sink.builder.next_msg_id) in
        (b : MsgBuilder) × (atolla_sink_state m sink w
          ≡ ok (
            SinkState.lent,
            record sink { builder = b; last_send_lent_time = now w2 },
            record w2 { clock_calls = w2.clock_calls + 1 },
          ))
        × Follows sink.builder b
  unfolding sink_update time_now
  silence-resends service early due =
      let (b, sent, follows) =
        send_lent_lem m sink (record (after_quiet w) { clock_calls = w.clock_calls + 1 + 1 }) mem
          valid.ready service in
      (
        b,
        state_silence
            ∙ rw
                (
                  receive_nothing,
                  drop_silent-lent m sink (after_silence w) held,
                  le→ltb _ _ early,
                  sink_send-lent m sink (after_quiet w) held,
                  lt→ltb _ _ due,
                  sent,
                  held,
                )
                refl,
        follows,
      )
