-- ===== src/Udp/Transfer.antt =====
-- Sending and receiving: src/udp_socket/udp_socket_bsdlike.cpp and udp_socket_base.cpp. A pointer
-- argument that may be NULL is an option.
use atolla.Prelude.{
  ℕ, ◌+◌, Bool, true, false, Option, none, some, List, [], ◌∷◌, ◌++◌, length, take, write_at, leb,
  ltb, ◌==◌, if◌then◌else◌, Result, ok, fault, bad_access, assert, ◌>>=◌, ◌>>◌,
}
use atolla.World.{
  Errno, UdpEndpoint, Incoming, datagram, recv_failed, SysResult, done, failed, World,
}
use atolla.Udp.Results.{
  UdpSocket, UdpSocketResultCode, strerror, UdpSocketResult, make_success_result, make_err_result,
  msg_socket_is_null, msg_bad_broadcast, msg_wouldblock, msg_no_receiver, msg_packet_too_big,
  msg_nothing_received,
}

-- What udp_socket_receive_from leaves in the objects that its pointers name.
pub record Reception : Type 0 where
  pub result : UdpSocketResult
  pub packet_data : List ℕ
  pub received_byte_count : ℕ
  pub sender : Option UdpEndpoint

-- errno == EAGAIN || errno == EWOULDBLOCK
abbrev pub is_again : Errno → Bool
is_again Errno.eagain = true
is_again Errno.ewouldblock = true
is_again _ = false

-- The result for `received_bytes <= 0`. An empty datagram sets no `errno`: the last one is read.
unfoldable pub receive_error : Errno → Result UdpSocketResult
unfolding make_err_result
receive_error e =
    if is_again e
    then make_err_result UdpSocketResultCode.err_nothing_received msg_nothing_received
    else make_err_result UdpSocketResultCode.err_receive_failed (strerror e)

-- `recvfrom` and what follows, by the end of that call. It writes as many bytes as fit.
unfoldable pub received : List ℕ → ℕ → World → Incoming → Result (Reception × World)
unfolding receive_error make_success_result
received packet_data max_packet_size w (recv_failed e) = do
  r ← receive_error e
  ok (
    record { result = r; packet_data = packet_data; received_byte_count = 0; sender = none },
    record w { errno = e },
  )
received packet_data max_packet_size w (datagram sender bytes) = do
  let got = take max_packet_size bytes
  if ltb 0 (length got)
      then (if leb (length got) (length packet_data)
          then ok (
            record {
              result = make_success_result;
              packet_data = write_at 0 got packet_data;
              received_byte_count = length got;
              sender = some sender;
            },
            w,
          )
          else fault bad_access)
      else do
        r ← receive_error w.errno
        ok (
          record {
            result = r;
            packet_data = packet_data;
            received_byte_count = 0;
            sender = some sender;
          },
          w,
        )

-- For a `sender` that is no NULL. The socket is read without a test for NULL.
unfoldable pub udp_socket_receive_from :
    Option UdpSocket → List ℕ → ℕ → World → Result (Reception × World)
unfolding received
udp_socket_receive_from none packet_data max_packet_size w = fault bad_access
udp_socket_receive_from (some socket) packet_data max_packet_size w = do
  assert (ltb 0 max_packet_size)
  received packet_data max_packet_size (record w { recv_calls = w.recv_calls + 1 })
      (w.incoming w.recv_calls)

-- The result for `sent_bytes == -1`.
unfoldable pub send_error : Errno → Result UdpSocketResult
unfolding make_err_result
send_error Errno.eacces = make_err_result UdpSocketResultCode.err_bad_broadcast msg_bad_broadcast
send_error Errno.eagain = make_err_result UdpSocketResultCode.err_wouldblock msg_wouldblock
send_error Errno.ewouldblock = make_err_result UdpSocketResultCode.err_wouldblock msg_wouldblock
send_error Errno.edestaddrreq = make_err_result UdpSocketResultCode.err_no_receiver msg_no_receiver
send_error Errno.emsgsize =
    make_err_result UdpSocketResultCode.err_packet_too_big msg_packet_too_big
send_error Errno.other_errno =
    make_err_result UdpSocketResultCode.err_send_failed (strerror Errno.other_errno)

-- What follows `sendto` or `send`, by the end of that call.
unfoldable pub sent_with :
    Option UdpEndpoint → List ℕ → World → SysResult → Result (UdpSocketResult × World)
unfolding send_error make_success_result
sent_with to packet_data w (failed e) = do r ← send_error e; ok (r, record w { errno = e })
sent_with to packet_data w (done sent_bytes) = do
  assert (sent_bytes == length packet_data)
  ok (
    make_success_result,
    record w { sent = w.sent ++ (record { to = to; bytes = packet_data } ∷ []) },
  )

-- The packet is given as its bytes. `to` is none for NULL, the receiver that was set.
unfoldable pub udp_socket_send_to :
    Option UdpSocket → List ℕ → Option UdpEndpoint → World → Result (UdpSocketResult × World)
unfolding sent_with make_err_result
udp_socket_send_to socket packet_data to w = do
  assert (ltb 0 (length packet_data))
  elim socket [
    | none ↦ do
      r ← make_err_result UdpSocketResultCode.err_socket_is_null msg_socket_is_null
      ok (r, w)
    | some handle ↦
        sent_with to packet_data (record w { send_calls = w.send_calls + 1 })
          (w.outgoing w.send_calls (length packet_data))
  ]

unfoldable pub udp_socket_send :
    Option UdpSocket → List ℕ → World → Result (UdpSocketResult × World)
unfolding udp_socket_send_to
udp_socket_send socket packet_data w = udp_socket_send_to socket packet_data none w
