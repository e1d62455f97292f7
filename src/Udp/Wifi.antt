-- ===== src/Udp/Wifi.antt =====
-- src/udp_socket/udp_socket_wifiudp.cpp, for the ESP8266. The class WiFiUDP and the addresses of Arduino
-- are parameters. A function that writes to `*socket` returns it.
pub mod Receiver
use Prim.Native.String.{String}
use atolla.Prelude.{
  ℕ, zero, suc, ◌-◌, Bool, true, false, ◌&&◌, Option, none, some, List, length, write_at, ltb, leb,
  ◌==◌, if◌then◌else◌, u16, size_mod, Result, ok, fault, bad_access, assert, ◌>>=◌, ◌>>◌,
}
use atolla.Prelude.Int.{ℤ, pos, negsuc}
use atolla.Udp.Results.{
  UdpSocket, UdpSocketResultCode, UdpSocketResult, make_success_result, make_err_result,
  msg_socket_is_null, msg_no_receiver, msg_nothing_received,
}

-- What the code calls of a WiFiUDP object, and `==` of two addresses. `read` gives its result and the
-- bytes that it wrote. The results of the other calls are not looked at.
pub record WifiUdp (Udp Address : Type 0) : Type 0 where
  pub begin_on : ℕ → Udp → Udp
  pub stop : Udp → Udp
  pub begin_packet : Address → ℕ → Udp → Udp
  pub write : List ℕ → Udp → Udp
  pub end_packet : Udp → Udp
  pub parse_packet : Udp → ℤ × Udp
  pub read : ℕ → Udp → ℤ × List ℕ × Udp
  pub remote_ip : Udp → Address
  pub remote_port : Udp → ℕ
  pub same_address : Address → Address → Bool

-- struct UdpEndpoint, on that board; no port is negative
pub record WifiEndpoint (Address : Type 0) : Type 0 where
  pub address : Address
  pub port : ℕ

-- The static objects of the file, which all sockets share.
pub record Board (Udp Address : Type 0) : Type 0 where
  pub udp : Udp
  pub has_receiver : Bool
  pub receiver_port : ℕ
  pub receiver : Address

-- What udp_socket_receive_from leaves in the objects that its pointers name; `*sender` is not written where
-- it is none.
pub record WifiReception (Address : Type 0) : Type 0 where
  pub result : UdpSocketResult
  pub packet_buffer : List ℕ
  pub received_byte_count : ℕ
  pub sender : Option (WifiEndpoint Address)

-- An `int` as a `size_t`
unfoldable pub size_of_int : ℤ → ℕ
size_of_int (pos n) = n
size_of_int (negsuc n) = size_mod - suc n

abbrev pub is_zero : ℤ → Bool
is_zero (pos zero) = true
is_zero _ = false

module _ {Udp Address : Type 0} (wifi : WifiUdp Udp Address) where
  unfoldable pub wifi_init_on_port :
      Option UdpSocket
      → ℕ
      → Board Udp Address
      → Result (UdpSocketResult × Option UdpSocket × Board Udp Address)
  unfolding make_err_result make_success_result
  wifi_init_on_port none port board = do
    r ← make_err_result UdpSocketResultCode.err_socket_is_null msg_socket_is_null
    ok (r, none, board)
  wifi_init_on_port (some socket) port board = ok (
    make_success_result,
    some (record { socket_handle = some 0 }),
    record board {
      udp = wifi.begin_on (u16 port) board.udp;
      receiver_port = 0;
      has_receiver = false;
    },
  )

  unfoldable pub wifi_free :
      Option UdpSocket
      → Board Udp Address
      → Result (UdpSocketResult × Option UdpSocket × Board Udp Address)
  unfolding make_err_result make_success_result
  wifi_free none board = do
    r ← make_err_result UdpSocketResultCode.err_socket_is_null msg_socket_is_null
    ok (r, none, board)
  wifi_free (some socket) board = ok (
    make_success_result,
    some (record socket { socket_handle = none }),
    record board { udp = wifi.stop board.udp },
  )

  -- Not implemented yet
  unfoldable pub wifi_set_receiver :
      Option UdpSocket
      → String
      → ℕ
      → Board Udp Address
      → Result (UdpSocketResult × Board Udp Address)
  unfolding make_success_result
  wifi_set_receiver socket hostname port board = do assert false; ok (make_success_result, board)

  unfoldable pub wifi_set_endpoint :
      Option UdpSocket
      → Option (WifiEndpoint Address)
      → Board Udp Address
      → UdpSocketResult × Board Udp Address
  unfolding make_success_result
  wifi_set_endpoint socket (some endpoint) board = (
    make_success_result,
    record board {
      receiver = endpoint.address;
      receiver_port = u16 endpoint.port;
      has_receiver = true;
    },
  )
  wifi_set_endpoint socket none board = (make_success_result, record board { has_receiver = false })

  -- Udp.write and Udp.endPacket, for a packet that was begun.
  unfoldable pub finish_packet :
      List ℕ → Board Udp Address → Udp → UdpSocketResult × Board Udp Address
  unfolding make_success_result
  finish_packet packet_data board udp =
      (make_success_result, record board { udp = wifi.end_packet (wifi.write packet_data udp) })

  -- The packet is given as its bytes.
  unfoldable pub wifi_send_to :
      Option UdpSocket
      → List ℕ
      → Option (WifiEndpoint Address)
      → Board Udp Address
      → Result (UdpSocketResult × Board Udp Address)
  unfolding make_err_result finish_packet
  wifi_send_to socket packet_data to board = do
    assert (ltb 0 (length packet_data))
    elim socket [
      | none ↦ do
        r ← make_err_result UdpSocketResultCode.err_socket_is_null msg_socket_is_null
        ok (r, board)
      | some handle ↦ elim to [
        | none ↦
            if board.has_receiver
            then ok (
                finish_packet packet_data board
                  (wifi.begin_packet board.receiver board.receiver_port board.udp))
            else do
              r ← make_err_result UdpSocketResultCode.err_no_receiver msg_no_receiver
              ok (r, board)
        | some endpoint ↦ ok (
            finish_packet packet_data board
              (wifi.begin_packet endpoint.address endpoint.port board.udp))
      ]
    ]

  -- For pointers that are no NULL; the socket is not read.
  unfoldable pub wifi_receive_from :
      Option UdpSocket
      → List ℕ
      → ℕ
      → Board Udp Address
      → Result (WifiReception Address × Board Udp Address)
  unfolding make_err_result make_success_result size_of_int
  wifi_receive_from socket packet_buffer packet_buffer_capacity board = do
    assert (ltb 0 packet_buffer_capacity)
    let (packet_size, udp1) = wifi.parse_packet board.udp
    if is_zero packet_size
        then (do
          r ← make_err_result UdpSocketResultCode.err_nothing_received msg_nothing_received
          ok (
            record {
              result = r;
              packet_buffer = packet_buffer;
              received_byte_count = 0;
              sender = none;
            },
            record board { udp = udp1 },
          ))
        else do
          let (bytes_read, bytes, udp2) = wifi.read packet_buffer_capacity udp1
          if leb (length bytes) (length packet_buffer)
              then ok (
                record {
                  result = make_success_result;
                  packet_buffer = write_at 0 bytes packet_buffer;
                  received_byte_count = size_of_int bytes_read;
                  sender =
                      some (record { address = wifi.remote_ip udp2; port = wifi.remote_port udp2 });
                },
                record board { udp = udp2 },
              )
              else fault bad_access

  unfoldable pub wifi_endpoint_equal : WifiEndpoint Address → WifiEndpoint Address → Bool
  wifi_endpoint_equal a b = wifi.same_address a.address b.address && a.port == b.port
