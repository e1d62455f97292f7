-- ===== src/Sink/Send/Replies.antt =====
-- What sending does, exactly: the message that goes out, and what of the sink changes.
use atolla.Prelude.{
  ℕ, ◌+◌, ◌<◌, ◌≡◌, refl, Bool, true, false, Option, some, List, [], ◌∷◌, ◌++◌, length, u16, lt→ltb,
  ==_iff, arith, ok,
}
use atolla.Machine.{Machine, HasMemory}
use atolla.World.{
  World, UdpEndpoint, Errno, SysResult, done, failed, IsDatagramService, now, time_now,
}
use atolla.Udp.Results.{UdpSocket, UdpSocketResult, is_ok, make_success_result}
use atolla.Udp.Transfer.{send_error, sent_with, udp_socket_send_to}
use atolla.Msg.Builder.{MsgBuilder}
use atolla.Msg.Packet.{lent_packet, fail_packet}
use atolla.Msg.Builder.Encode.{IsReady, lent-Assembles, fail-Assembles}
use atolla.Sink.State.{Sink}
use atolla.Sink.Send.{sink_send_lent, sink_send_fail_to}

-- The surroundings after a datagram was handed to the system, which sends it or fails.
abbrev pub after_send_with : World → Option UdpEndpoint → List ℕ → SysResult → World
after_send_with w to bytes (done n) = record w {
  send_calls = w.send_calls + 1;
  sent = w.sent ++ (record { to = to; bytes = bytes } ∷ []);
}
after_send_with w to bytes (failed e) = record w { send_calls = w.send_calls + 1; errno = e }

abbrev pub after_send : World → Option UdpEndpoint → List ℕ → World
after_send w to bytes = after_send_with w to bytes (w.outgoing w.send_calls (length bytes))

send_error_lem :
    (e : Errno) → (r : UdpSocketResult) × (send_error e ≡ ok r) × (is_ok r.code ≡ false)
unfolding send_error
send_error_lem Errno.eagain = (_, refl, refl)
send_error_lem Errno.ewouldblock = (_, refl, refl)
send_error_lem Errno.eacces = (_, refl, refl)
send_error_lem Errno.edestaddrreq = (_, refl, refl)
send_error_lem Errno.emsgsize = (_, refl, refl)
send_error_lem Errno.other_errno = (_, refl, refl)

-- Whether a call of `sendto` ends well.
abbrev pub is_done : SysResult → Bool
is_done (done n) = true
is_done (failed e) = false

sent_with_lem :
    (to : Option UdpEndpoint) (bytes : List ℕ) (w : World) (r : SysResult)
    → ((k : ℕ) → r ≡ done k → k ≡ length bytes)
    → (result : UdpSocketResult) × (sent_with to bytes
          (record w { send_calls = w.send_calls + 1 })
          r
        ≡ ok (result, after_send_with w to bytes r))
      × (is_ok result.code ≡ is_done r)
unfolding sent_with
sent_with_lem to bytes w (done n) whole =
    (make_success_result, rw ((==_iff n (length bytes)).1 (whole n refl)), refl)
sent_with_lem to bytes w (failed e) whole =
    let (r, sent, bad) = send_error_lem e in (r, rw sent, bad)

-- Where datagrams are sent whole, udp_socket_send_to of a datagram of at least one byte on a socket
-- returns, and answers success exactly when the system sent it; then the datagram is logged for its
-- receiver, and else only `errno` has changed.
pub send_to_lem :
    (socket : UdpSocket) (bytes : List ℕ) (to : Option UdpEndpoint) (w : World)
    → IsDatagramService w
    → 0 < length bytes
    → (result : UdpSocketResult) × (udp_socket_send_to (some socket) bytes to w
        ≡ ok (result, after_send w to bytes))
      × (is_ok result.code ≡ is_done (w.outgoing w.send_calls (length bytes)))
unfolding udp_socket_send_to
send_to_lem socket bytes to w service h = rw (lt→ltb 0 (length bytes) h) (
    sent_with_lem to bytes w (w.outgoing w.send_calls (length bytes))
      (service w.send_calls (length bytes)))

-- A sink with another builder that is ready, and has counted its ID on.
abbrev pub Follows : MsgBuilder → MsgBuilder → Type 0
Follows b b' = IsReady b' × (b'.next_msg_id ≡ u16 (b.next_msg_id + 1))

module _ (m : Machine) (sink : Sink) (w : World) (mem : HasMemory m) (ready : IsReady sink.builder)
    (service : IsDatagramService w) where
  -- sink_send_fail_to sends the protocol's FAIL message to the receiver given, and changes only the builder.
  pub send_fail_to_lem :
      (offending_msg_id error_code : ℕ) (to : UdpEndpoint)
      → (b : MsgBuilder) × (sink_send_fail_to m sink offending_msg_id error_code to w
          ≡ ok (
            record sink { builder = b },
            after_send w
                (some to)
                (fail_packet sink.builder.next_msg_id offending_msg_id error_code),
          ))
        × Follows sink.builder b
  unfolding sink_send_fail_to
  send_fail_to_lem offending_msg_id error_code to =
      let (b, built, ready', shown, next) =
        fail-Assembles m sink.builder mem ready offending_msg_id error_code in
      let (_, sent, _) =
        send_to_lem sink.socket (fail_packet sink.builder.next_msg_id offending_msg_id error_code)
          (some to) w service (omega arith) in
      (b, rw (built, shown, sent), (ready', next))

  -- sink_send_lent sends the protocol's LENT message to the borrower, and notes the time.
  pub send_lent_lem :
      (b : MsgBuilder) × (let w1 =
          after_send w (some sink.borrower_endpoint) (lent_packet sink.builder.next_msg_id) in
        sink_send_lent m sink w
        ≡ ok (
          record sink { builder = b; last_send_lent_time = now w1 },
          record w1 { clock_calls = w1.clock_calls + 1 },
        ))
      × Follows sink.builder b
  unfolding sink_send_lent time_now
  send_lent_lem =
      let (b, built, ready', shown, next) = lent-Assembles m sink.builder mem ready in
      let (_, sent, _) =
        send_to_lem sink.socket (lent_packet sink.builder.next_msg_id) (some sink.borrower_endpoint)
          w service (omega arith) in
      (b, rw (built, shown, sent), (ready', next))
