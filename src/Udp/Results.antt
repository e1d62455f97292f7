-- ===== src/Udp/Results.antt =====
-- src/udp_socket/udp_socket.h, udp_socket_results_internal.cpp and udp_socket_messages.h.
use Prim.Native.String.{String}
use mathlib.Core.Bool.{not}
use atolla.Prelude.{ℕ, Bool, true, false, Option, none, some, Result, ok, assert, ◌>>◌}
use atolla.World.{Errno}

-- struct UdpSocket; a negative handle does not occur but as -1 of a closed socket, `none`.
pub record UdpSocket : Type 0 where
  pub socket_handle : Option ℕ

-- enum UdpSocketResultCode, without the prefix UDP_SOCKET
pub data UdpSocketResultCode : Type 0 where
  success : UdpSocketResultCode
  err_socket_is_null : UdpSocketResultCode
  err_platform_init_failed : UdpSocketResultCode
  err_socket_creation_failed : UdpSocketResultCode
  err_port_in_use : UdpSocketResultCode
  err_set_nonblocking_failed : UdpSocketResultCode
  err_resolve_hostname_failed : UdpSocketResultCode
  err_connect_failed : UdpSocketResultCode
  err_bad_broadcast : UdpSocketResultCode
  err_wouldblock : UdpSocketResultCode
  err_no_receiver : UdpSocketResultCode
  err_packet_too_big : UdpSocketResultCode
  err_send_failed : UdpSocketResultCode
  err_free_failed : UdpSocketResultCode
  err_nothing_received : UdpSocketResultCode
  err_receive_failed : UdpSocketResultCode

-- A text of the module, or one that the system has for an `errno` or a code of `getaddrinfo`.
pub data Message : Type 0 where
  text : String → Message
  strerror : Errno → Message
  gai_strerror : ℕ → Message

-- struct UdpSocketResult
pub record UdpSocketResult : Type 0 where
  pub code : UdpSocketResultCode
  pub msg : Option Message

abbrev pub is_ok : UdpSocketResultCode → Bool
is_ok UdpSocketResultCode.success = true
is_ok _ = false

unfoldable pub make_success_result : UdpSocketResult
make_success_result = record { code = UdpSocketResultCode.success; msg = none }

unfoldable pub make_err_result : UdpSocketResultCode → Message → Result UdpSocketResult
make_err_result code msg = do assert (not (is_ok code)); ok (record { code = code; msg = some msg })

abbrev pub msg_socket_is_null : Message
msg_socket_is_null = text "The given UdpSocket is NULL"

abbrev pub msg_bad_broadcast : Message
msg_bad_broadcast =
    text
      "An attempt was made to send to a network/broadcast address as though it was a unicast address"

abbrev pub msg_wouldblock : Message
msg_wouldblock =
    text
      "The send call would block, but the socket is non-blocking, the most likely reason is that too much data was sent at once"

abbrev pub msg_no_receiver : Message
msg_no_receiver = text "Tried to send data but no receiver is set"

abbrev pub msg_packet_too_big : Message
msg_packet_too_big = text "The given message is too large to send it in one piece"

abbrev pub msg_nothing_received : Message
msg_nothing_received = text "No received data is available right now"

abbrev pub msg_socket_creation_failed : Message
msg_socket_creation_failed = text "Failed to create the socket"

abbrev pub msg_port_in_use : Message
msg_port_in_use = text "Failed to bind the socket to the given port, is it already in use?"

abbrev pub msg_set_nonblocking_failed : Message
msg_set_nonblocking_failed = text "Failed to set a newly created socket to non-blocking mode"
