-- ===== src/Udp/Sockets.antt =====
-- Making, freeing and connecting sockets: src/udp_socket/udp_socket_bsdlike.cpp with IPv6, and
-- udp_socket_base.cpp. A function that writes to `*socket` returns it.
pub mod Init
pub mod Receiver
use Prim.Native.String.{String}
use atolla.Prelude.{
  ℕ, zero, suc, Bool, true, false, ◌&&◌, Option, none, some, List, [], ◌∷◌, u16, if◌then◌else◌,
  Result, ok, fault, assert_failed, assert, ◌>>=◌, ◌>>◌,
}
use atolla.World.{
  Errno, UdpEndpoint, AddrInfo, Resolution, resolved, system_error, unresolved, dual_stack, bound,
  nonblocking, looked_up, connected, World,
}
use atolla.Udp.System.{noted, with_errno, ask, open_socket, close_socket}
use atolla.Udp.Results.{
  UdpSocket, UdpSocketResultCode, strerror, gai_strerror, UdpSocketResult, is_ok,
  make_success_result, make_err_result, msg_socket_is_null, msg_socket_creation_failed,
  msg_port_in_use, msg_set_nonblocking_failed,
}
use atolla.Udp.Transfer.{Reception, udp_socket_receive_from}

-- Whether a descriptor is above 0.
abbrev pub is_positive : Option ℕ → Bool
is_positive none = false
is_positive (some zero) = false
is_positive (some (suc h)) = true

-- `none` is a call that succeeded.
abbrev pub checked :
    Option Errno → UdpSocketResult → Result UdpSocketResult → Result UdpSocketResult
checked none good bad = ok good
checked (some e) good bad = bad

unfoldable pub udp_socket_create_socket :
    UdpSocket → ℕ → World → Result (UdpSocketResult × UdpSocket × World)
unfolding make_err_result make_success_result
udp_socket_create_socket sock port w = do
  let (handle, w1) = open_socket w
  let s = record sock { socket_handle = handle }
  if is_positive handle
      then (do
        let (setopt_err, w2) = ask (dual_stack handle) w1
        elim setopt_err [
          | some e ↦ fault assert_failed
          | none ↦ do
            let (bind_err, w3) = ask (bound handle (u16 port)) w2
            r ←
                checked bind_err make_success_result
                  (make_err_result UdpSocketResultCode.err_port_in_use msg_port_in_use)
            ok (r, s, w3)
        ])
      else do
        r ←
            make_err_result UdpSocketResultCode.err_socket_creation_failed
              msg_socket_creation_failed
        ok (r, s, w1)

unfoldable pub udp_socket_set_socket_nonblocking :
    UdpSocket → World → Result (UdpSocketResult × World)
unfolding make_err_result make_success_result
udp_socket_set_socket_nonblocking socket w = do
  let (e, w1) = ask (nonblocking socket.socket_handle) w
  r ←
      checked e make_success_result
        (make_err_result UdpSocketResultCode.err_set_nonblocking_failed msg_set_nonblocking_failed)
  ok (r, w1)

-- On a POSIX system there is nothing to do.
unfoldable pub udp_socket_initialize_socket_support : UdpSocketResult
unfolding make_success_result
udp_socket_initialize_socket_support = make_success_result

-- For a NULL socket nothing is returned beside the result.
unfoldable pub udp_socket_init_on_port :
    Option UdpSocket → ℕ → World → Result (UdpSocketResult × Option UdpSocket × World)
unfolding make_err_result make_success_result udp_socket_create_socket
    udp_socket_set_socket_nonblocking udp_socket_initialize_socket_support
udp_socket_init_on_port none port w = do
  r ← make_err_result UdpSocketResultCode.err_socket_is_null msg_socket_is_null
  ok (r, none, w)
udp_socket_init_on_port (some old) port w = do
  let socket = record old { socket_handle = some 0 }
  let supported = udp_socket_initialize_socket_support
  if is_ok supported.code
      then (do
        (created, s, w1) ← udp_socket_create_socket socket port w
        if is_ok created.code
            then (do
              (set, w2) ← udp_socket_set_socket_nonblocking s w1
              if is_ok set.code
                  then ok (make_success_result, some s, w2)
                  else (let (_, w3) = close_socket s.socket_handle w2 in ok (set, some s, w3)))
            else ok (created, some s, w1))
      else ok (supported, some socket, w)

unfoldable pub udp_socket_init :
    Option UdpSocket → World → Result (UdpSocketResult × Option UdpSocket × World)
unfolding udp_socket_init_on_port
udp_socket_init socket w = udp_socket_init_on_port socket 0 w

unfoldable pub udp_socket_close : UdpSocket → World → Result (UdpSocketResult × World)
unfolding make_err_result make_success_result
udp_socket_close socket w = do
  let (e, w1) = close_socket socket.socket_handle w
  r ←
      checked e make_success_result
        (make_err_result UdpSocketResultCode.err_free_failed (strerror w1.errno))
  ok (r, w1)

unfoldable pub udp_socket_free :
    Option UdpSocket → World → Result (UdpSocketResult × Option UdpSocket × World)
unfolding make_err_result make_success_result udp_socket_close
udp_socket_free none w = do
  r ← make_err_result UdpSocketResultCode.err_socket_is_null msg_socket_is_null
  ok (r, none, w)
udp_socket_free (some socket) w = do
  (r, w1) ← udp_socket_close socket w
  if is_ok r.code
      then ok (make_success_result, some (record socket { socket_handle = none }), w1)
      else ok (r, some socket, w1)

-- The loop over the addresses that were found: it ends at the first that `connect` takes.
unfoldable pub connect_first : Option ℕ → List AddrInfo → World → Result (Option Errno × World)
connect_first handle [] w = fault assert_failed
connect_first handle (info ∷ infos) w = do
  assert (info.is_datagram && info.is_udp)
  let (error, w1) = ask (connected handle (some info.ai_addr)) w
  elim error [
    | none ↦ ok (none, w1)
    | some e ↦ elim infos [ [] ↦ ok (some e, w1) | next ∷ rest ↦ connect_first handle infos w1 ]
  ]

-- The text of the port is given as the port: `sprintf` makes it.
unfoldable pub udp_socket_set_receiver :
    Option UdpSocket → String → ℕ → World → Result (UdpSocketResult × World)
unfolding make_err_result make_success_result
udp_socket_set_receiver none hostname port_short w = do
  r ← make_err_result UdpSocketResultCode.err_socket_is_null msg_socket_is_null
  ok (r, w)
udp_socket_set_receiver (some socket) hostname port_short w =
    let w1 = noted (looked_up hostname port_short) w in
    elim (w.kernel.resolve w.kernel.calls) [
      | system_error e ↦ do
        r ← make_err_result UdpSocketResultCode.err_resolve_hostname_failed (strerror e)
        ok (r, record w1 { errno = e })
      | unresolved code ↦ do
        r ← make_err_result UdpSocketResultCode.err_resolve_hostname_failed (gai_strerror code)
        ok (r, w1)
      | resolved infos ↦ do
        (error, w2) ← connect_first socket.socket_handle infos w1
        r ←
            checked error make_success_result
              (make_err_result UdpSocketResultCode.err_connect_failed (strerror w2.errno))
        ok (r, w2)
    ]

-- For no endpoint the socket is disconnected.
unfoldable pub udp_socket_set_endpoint :
    Option UdpSocket → Option UdpEndpoint → World → Result (UdpSocketResult × World)
unfolding make_err_result make_success_result
udp_socket_set_endpoint none endpoint w = do
  r ← make_err_result UdpSocketResultCode.err_socket_is_null msg_socket_is_null
  ok (r, w)
udp_socket_set_endpoint (some socket) endpoint w = do
  let (error, w1) = ask (connected socket.socket_handle endpoint) w
  r ←
      checked error make_success_result
        (make_err_result UdpSocketResultCode.err_connect_failed (strerror w1.errno))
  ok (r, w1)

-- With `set_sender_as_receiver` the result is that of setting the endpoint.
unfoldable pub udp_socket_receive :
    Option UdpSocket → List ℕ → ℕ → Bool → World → Result (Reception × World)
unfolding udp_socket_receive_from udp_socket_set_endpoint
udp_socket_receive socket packet_buffer capacity set_sender_as_receiver w = do
  (r, w1) ← udp_socket_receive_from socket packet_buffer capacity w
  if set_sender_as_receiver && is_ok r.result.code
      then (do
        (set, w2) ← udp_socket_set_endpoint socket r.sender w1
        ok (record r { result = set }, w2))
      else ok (r, w1)
