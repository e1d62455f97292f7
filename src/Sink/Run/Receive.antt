-- ===== src/Sink/Run/Receive.antt =====
-- A call of atolla_sink_state for which a datagram of requests waits.
use atolla.Prelude.{
  ℕ, ◌+◌, ◌≤◌, ◌<◌, ◌≡◌, refl, some, List, length, take, write_at, ok, arith, ◌>>=◌, lt→ltb, le→leb,
  length-write_at, slice-write_at_self, take_enough,
}
use atolla.Machine.{Machine}
use atolla.World.{World, UdpEndpoint, datagram, now, time_now}
use atolla.Udp.Results.{UdpSocket, make_success_result}
use atolla.Udp.Transfer.{received, udp_socket_receive_from}
use atolla.Msg.Iter.Decode.{Shows}
use atolla.Sink.State.{Sink}
use atolla.Sink.Handle.Datagram.{
  Request, request_packets, AreSendable, run_requests, sink_iterate_recv_buf-requests,
}
use atolla.Sink.Run.{sink_receive}

-- The buffer after the datagram came.
abbrev pub filled : Sink → List Request → List ℕ
filled sink rs = write_at 0 (request_packets rs) sink.recv_buf

-- A datagram that fits gets to the start of the buffer.
receive_datagram :
    (socket : UdpSocket) (buf bytes : List ℕ) (sender : UdpEndpoint) (w : World)
    → w.incoming w.recv_calls ≡ datagram sender bytes
    → 0 < length bytes
    → length bytes ≤ 1024
    → length buf ≡ 1024
    → udp_socket_receive_from (some socket) buf 1024 w
      ≡ ok (
        record {
          result = make_success_result;
          packet_data = write_at 0 bytes buf;
          received_byte_count = length bytes;
          sender = some sender;
        },
        record w { recv_calls = w.recv_calls + 1 },
      )
unfolding udp_socket_receive_from received
receive_datagram socket buf bytes sender w came some_bytes small size =
    let all : take 1024 bytes ≡ bytes = take_enough 1024 bytes small in
    rw
      (
        came,
        all,
        lt→ltb 0 (length bytes) some_bytes,
        le→leb (length bytes) (length buf) (omega (arith, size)),
      )
      refl

-- For a datagram of requests that fits into the buffer, sink_receive does what they ask for, one after another,
-- and then notes the time.
pub sink_receive-requests :
    (m : Machine) (sink : Sink) (rs : List Request) (sender : UdpEndpoint) (w : World)
    → w.incoming w.recv_calls ≡ datagram sender (request_packets rs)
    → 0 < length (request_packets rs)
    → length (request_packets rs) ≤ 1024
    → AreSendable rs
    → length sink.recv_buf ≡ 1024
    → sink_receive m sink w ≡ (
        run_requests m
          (filled sink rs)
          sender
          0
          rs
          (record sink { recv_buf = filled sink rs })
          (record w { recv_calls = w.recv_calls + 1 })
        >>= λ x. ok (record x.0 { last_recv_time = now x.1 }, (time_now x.1).1))
unfolding sink_receive time_now make_success_result
sink_receive-requests m sink rs sender w came some_bytes small fit size =
    let buf : List ℕ = filled sink rs in
    let shown : Shows buf 0 (request_packets rs) = record {
      inside = omega (arith, size, small, length-write_at 0 (request_packets rs) sink.recv_buf);
      same = slice-write_at_self 0 (request_packets rs) sink.recv_buf (omega (arith, size));
    } in
    rw (
      receive_datagram sink.socket sink.recv_buf (request_packets rs) sender w came some_bytes small
          size,
      sink_iterate_recv_buf-requests m (record sink { recv_buf = buf }) rs sender
          (record w { recv_calls = w.recv_calls + 1 }) shown fit,
    )
