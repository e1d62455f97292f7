-- ===== src/Udp/Wifi/Receiver.antt =====
-- The receiver that the ESP8266 keeps.
use native.Mathlib.Nat.{mod-eq_of_lt}
use atolla.Prelude.{ℕ, ◌≡◌, ◌<◌, refl, none, some, Option, List, length, lt→ltb, ok}
use atolla.Udp.Results.{
  UdpSocket, UdpSocketResultCode, UdpSocketResult, make_err_result, msg_no_receiver,
}
use atolla.Udp.Wifi.{
  WifiUdp, WifiEndpoint, Board, finish_packet, wifi_init_on_port, wifi_set_endpoint, wifi_send_to,
}

-- The answer to sending to a receiver that is not set.
abbrev pub no_receiver : UdpSocketResult
no_receiver = record { code = UdpSocketResultCode.err_no_receiver; msg = some msg_no_receiver }

module _ {Udp Address : Type 0} (wifi : WifiUdp Udp Address) (board : Board Udp Address)
    (handle other : UdpSocket) (packet_data : List ℕ) where
  -- On the ESP8266, for a packet of at least one byte and a port below 65536: after
  -- udp_socket_set_endpoint with an endpoint, udp_socket_send_to without a receiver does the same as
  -- with that endpoint; after udp_socket_set_endpoint with NULL it answers that there is no receiver,
  -- and changes nothing.
  pub set_endpoint-send_to :
      (endpoint : WifiEndpoint Address)
      → 0 < length packet_data
      → endpoint.port < 65536
      → let kept = (wifi_set_endpoint wifi (some handle) (some endpoint) board).1 in
        let cleared = (wifi_set_endpoint wifi (some handle) none board).1 in
        (wifi_send_to wifi (some handle) packet_data none kept
          ≡ wifi_send_to wifi (some handle) packet_data (some endpoint) kept)
        × (wifi_send_to wifi (some handle) packet_data none cleared ≡ ok (no_receiver, cleared))
  unfolding wifi_set_endpoint wifi_send_to finish_packet make_err_result
  set_endpoint-send_to endpoint some_bytes narrow = (
    rw
        (
          lt→ltb 0 (length packet_data) some_bytes,
          mod-eq_of_lt {n = endpoint.port} {m = 65536} narrow,
        )
        refl,
    rw (lt→ltb 0 (length packet_data) some_bytes) refl,
  )

  -- All sockets share one receiver: for a packet of at least one byte, making another socket clears the
  -- receiver that was set, and sending to it answers that there is none.
  pub init-forgets_receiver :
      (endpoint : WifiEndpoint Address) (port : ℕ)
      → 0 < length packet_data
      → let kept = (wifi_set_endpoint wifi (some handle) (some endpoint) board).1 in
        (r : UdpSocketResult) × (made : Option UdpSocket) × (after : Board Udp Address)
        × (wifi_init_on_port wifi (some other) port kept ≡ ok (r, made, after))
        × (wifi_send_to wifi (some handle) packet_data none after ≡ ok (no_receiver, after))
  unfolding wifi_set_endpoint wifi_send_to wifi_init_on_port make_err_result
  init-forgets_receiver endpoint port some_bytes =
      (_, _, _, refl, rw (lt→ltb 0 (length packet_data) some_bytes) refl)
