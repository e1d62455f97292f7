-- ===== src/Tests/Sockets.antt =====
-- Sockets that are made, connected and freed, and sinks and sources with them, at concrete values.
use atolla.Prelude.{
  ℕ, ◌+◌, ◌≡◌, ◌≢◌, refl, arith, none, some, Option, List, [], ◌∷◌, ◌++◌, ok, true, false, ◌==◌,
  if◌then◌else◌,
}
use atolla.Prelude.Int.{pos}
use atolla.Machine.{zeroed}
use atolla.World.{World, Errno, Resolution, SocketCall, closed, connected, AddrInfo}
use atolla.Udp.Results.{UdpSocket, UdpSocketResultCode, UdpSocketResult, msg_set_nonblocking_failed}
use atolla.Udp.Sockets.{udp_socket_init_on_port, udp_socket_free, udp_socket_set_receiver}
use atolla.Udp.Sockets.Init.{err_with, after_init, init-free_closes_twice}
use atolla.Udp.Sockets.Receiver.{IsAsked, set_receiver-connects}
use atolla.Udp.Wifi.{WifiUdp, WifiEndpoint, Board, wifi_set_endpoint, wifi_send_to}
use atolla.Udp.Wifi.Receiver.{no_receiver, set_endpoint-send_to}
use atolla.Msg.Packet.{borrow_packet}
use atolla.Sink.State.{Sink, SinkState, SinkSpec}
use atolla.Sink.Valid.{IsValid}
use atolla.Sink.Send.Replies.{after_send}
use atolla.Sink.Run.{atolla_sink_state}
use atolla.Sink.Make.{atolla_sink_make, atolla_sink_free, bind_failed_text}
use atolla.Sink.Make.Socket.{
  IsSpec, atolla_sink_make-opens, atolla_sink_make-in_use, atolla_sink-conserves,
}
use atolla.Source.State.{Source, SourceState, SourceSpec, source_private_make, timed_out_text}
use atolla.Source.Make.{atolla_source_make}
use atolla.Source.Make.Silent.{atolla_source_make-times_out}
use atolla.Source.Make.Connect.{atolla_source_make-borrows}
use atolla.Tests.{zeroed-HasMemory, home, quiet, quiet-IsDatagramService, source_of}

-- The call of that number fails.
abbrev failing : ℕ → World
failing n = record quiet {
  kernel = record quiet.kernel { failure = λ i. if i == n then some Errno.eacces else none };
}

abbrev no_socket : UdpSocket
no_socket = record { socket_handle = none }

abbrev socket_3 : UdpSocket
socket_3 = record { socket_handle = some 3 }

init-free_closes_twice_example :
    (s : UdpSocket) × (w1 : World) × (r : UdpSocketResult) × (s' : Option UdpSocket) × (w2 : World)
    × (udp_socket_init_on_port (some no_socket) 10042 (failing 3)
        ≡ ok (
          err_with UdpSocketResultCode.err_set_nonblocking_failed msg_set_nonblocking_failed,
          some s,
          w1,
        ))
    × (w1.kernel.asked ≡ (after_init 3 10042 (failing 3)).kernel.asked ++ (closed (some 3) ∷ []))
    × (udp_socket_free (some s) w1 ≡ ok (r, s', w2))
    × (w2.kernel.asked ≡ w1.kernel.asked ++ (closed (some 3) ∷ []))
init-free_closes_twice_example =
    init-free_closes_twice no_socket 10042 2 (failing 3) refl refl Errno.eacces refl refl

-- A host with two addresses, the first of which is not reached.
abbrev info_of : List ℕ → AddrInfo
info_of addr = record {
  ai_addr = record { addr = addr; addr_len = 1 };
  is_datagram = true;
  is_udp = true;
}

abbrev two_addresses : World
two_addresses = record quiet {
  kernel = record quiet.kernel {
    resolve = λ i. Resolution.resolved (info_of (1 ∷ []) ∷ info_of (2 ∷ []) ∷ []);
    failure = λ i. if i == 1 then some Errno.eacces else none;
  };
}

set_receiver-connects_example :
    (r : UdpSocketResult) × (w1 : World) × (before : List SocketCall) × (udp_socket_set_receiver
        (some socket_3)
        "sink"
        10042
        two_addresses
      ≡ ok (r, w1))
    × (r.code ≡ UdpSocketResultCode.success)
    × IsAsked two_addresses w1
    × (w1.kernel.asked
        ≡ before ++ (connected (some 3) (some (record { addr = 2 ∷ []; addr_len = 1 })) ∷ []))
set_receiver-connects_example =
    set_receiver-connects socket_3 "sink" 10042 two_addresses (info_of (1 ∷ []))
      (info_of (2 ∷ []) ∷ []) refl (refl, refl, (refl, refl, tt))

abbrev strip : SinkSpec
strip = record { port = 10042; lights_count = 60 }

strip-IsSpec : IsSpec strip
strip-IsSpec = record { port = omega arith; some_light = omega arith; small = omega arith }

atolla_sink_make-opens_example :
    (sink : Sink) × (atolla_sink_make zeroed 1400 strip quiet ≡ ok (sink, after_init 3 10042 quiet))
    × (sink.state ≡ SinkState.opened)
    × (sink.error_msg ≡ none)
    × (sink.socket.socket_handle ≡ some 3)
    × IsValid sink []
atolla_sink_make-opens_example =
    atolla_sink_make-opens zeroed 1400 strip quiet zeroed-HasMemory strip-IsSpec 2 refl refl refl
      refl

atolla_sink_make-in_use_example :
    (sink : Sink) × (w1 : World) × (atolla_sink_make zeroed 1400 strip (failing 2) ≡ ok (sink, w1))
    × (sink.error_msg ≡ some bind_failed_text)
    × (atolla_sink_state zeroed sink w1 ≡ ok (SinkState.error, sink, w1))
atolla_sink_make-in_use_example =
    atolla_sink_make-in_use zeroed 1400 strip (failing 2) zeroed-HasMemory strip-IsSpec 2
      Errno.eacces refl refl refl

only_second : (i : ℕ) → i ≢ 2 → (failing 2).kernel.failure i ≡ none
only_second i other = ground arith

atolla_sink-conserves_example :
    (sink : Sink) × (w1 : World) × (freed : Sink) × (w2 : World) × (atolla_sink_make zeroed 1400
        strip
        (failing 2)
      ≡ ok (sink, w1))
    × (atolla_sink_free sink w1 ≡ ok (freed, w2))
    × (w2.kernel.handles ≡ [])
atolla_sink-conserves_example =
    atolla_sink-conserves zeroed 1400 strip (failing 2) zeroed-HasMemory strip-IsSpec 3 refl
      only_second

abbrev lamp : SourceSpec
lamp = record {
  sink_hostname = "sink";
  sink_port = 10042;
  frame_duration_ms = 17;
  max_buffered_frames = 50;
  retry_timeout_ms = 0;
  disconnect_timeout_ms = 0;
  async_make = true;
}

atolla_source_make-borrows_example :
    (source : Source) × (w1 : World) × (before : List SocketCall) × (atolla_source_make zeroed 0
        (source_of 0)
        lamp
        quiet
      ≡ ok (source, after_send w1 none (borrow_packet 0 17 50)))
    × (source.state ≡ SourceState.waiting)
    × (source.sock.socket_handle ≡ some 3)
    × (source.first_borrow_time ≡ 5000)
    × (w1.kernel.asked ≡ before ++ (connected (some 3) (some home) ∷ []))
    × (w1.sent ≡ [])
unfolding source_private_make
atolla_source_make-borrows_example =
    atolla_source_make-borrows zeroed 0 (source_of 0) lamp quiet 2
      (record { ai_addr = home; is_datagram = true; is_udp = true }) [] zeroed-HasMemory
      (omega arith) refl (record { made = refl; set = refl; bound_ok = refl; free = refl })
      (record { found = refl; udp = (refl, refl, tt) }) quiet-IsDatagramService home refl

-- A second passes between two readings.
abbrev seconds : World
seconds = record quiet { clock = λ i. record { tv_sec = 5 + i; tv_nsec = 0 } }

atolla_source_make-times_out_example :
    (s : Source) × (w' : World) × (atolla_source_make zeroed 1
        (source_of 0)
        (record lamp { async_make = false })
        seconds
      ≡ ok (s, w'))
    × (s.state ≡ SourceState.error)
    × (s.error_msg ≡ some timed_out_text)
unfolding source_private_make
atolla_source_make-times_out_example =
    atolla_source_make-times_out zeroed 1 (source_of 0) (record lamp { async_make = false }) seconds
      2 (record { ai_addr = home; is_datagram = true; is_udp = true }) [] zeroed-HasMemory
      (omega arith) refl (record { made = refl; set = refl; bound_ok = refl; free = refl })
      (record { found = refl; udp = (refl, refl, tt) }) quiet-IsDatagramService home refl
      (λ i _. refl) 2 (omega arith) (omega arith) (omega arith) (omega arith)

-- A radio that notes what it is to send, and receives nothing.
abbrev radio : WifiUdp (List (List ℕ)) ℕ
radio = record {
  begin_on = λ port udp. (port ∷ []) ∷ udp;
  stop = λ udp. udp;
  begin_packet = λ address port udp. (address ∷ port ∷ []) ∷ udp;
  write = λ bytes udp. bytes ∷ udp;
  end_packet = λ udp. udp;
  parse_packet = λ udp. (pos 0, udp);
  read = λ n udp. (pos 0, [], udp);
  remote_ip = λ udp. 0;
  remote_port = λ udp. 0;
  same_address = λ a b. a == b;
}

abbrev board : Board (List (List ℕ)) ℕ
board = record { udp = []; has_receiver = false; receiver_port = 0; receiver = 0 }

abbrev far_end : WifiEndpoint ℕ
far_end = record { address = 77; port = 10042 }

set_endpoint-send_to_example :
    let kept = (wifi_set_endpoint radio (some socket_3) (some far_end) board).1 in
    let cleared = (wifi_set_endpoint radio (some socket_3) none board).1 in
    (wifi_send_to radio (some socket_3) (1 ∷ 2 ∷ []) none kept
      ≡ wifi_send_to radio (some socket_3) (1 ∷ 2 ∷ []) (some far_end) kept)
    × (wifi_send_to radio (some socket_3) (1 ∷ 2 ∷ []) none cleared ≡ ok (no_receiver, cleared))
set_endpoint-send_to_example =
    set_endpoint-send_to radio board socket_3 socket_3 (1 ∷ 2 ∷ []) far_end (omega arith)
      (omega arith)
