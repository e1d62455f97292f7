-- ===== src/Source/Make/Connect.antt =====
-- A new source: its socket, its receiver and its first message.
use mathlib.Core.Option.{get_or}
use atolla.Prelude.{
  u32, if◌then◌else◌, ℕ, suc, ◌+◌, ◌<◌, ◌≡◌, refl, sym, subst, ap, ◌∙◌, true, some, none, List, [],
  ◌∷◌, ◌++◌, u16, ok, lt→ltb,
}
use atolla.Machine.{Machine, HasMemory}
use atolla.World.{
  World, UdpEndpoint, AddrInfo, resolved, SocketCall, connected, IsDatagramService, now, time_now,
}
use atolla.Udp.Results.{UdpSocket, UdpSocketResultCode, make_success_result}
use atolla.Udp.Sockets.{udp_socket_init}
use atolla.Udp.Sockets.Init.{after_init, init_on_port-succeeds}
use atolla.Udp.Sockets.Receiver.{
  AreUdp, first_reachable, last_address, answer_code, set_receiver-connects,
}
use atolla.Msg.Builder.Encode.{IsReady, msg_builder_init_lem}
use atolla.Msg.Packet.{borrow_packet}
use atolla.Sink.Send.Replies.{after_send}
use atolla.Source.State.{Source, SourceState, SourceSpec, source_private_make}
use atolla.Source.Update.{source_await_make_completion}
use atolla.Source.Update.Borrow.{send_borrow_lem}
use atolla.Source.Make.{connect_source, atolla_source_make}

-- A host that is found at those addresses, by the call of that number.
pub record IsFound (c : ℕ) (w : World) (info : AddrInfo) (infos : List AddrInfo) : Type 0 where
  pub found : w.kernel.resolve c ≡ resolved (info ∷ infos)
  pub udp : AreUdp (info ∷ infos)

-- The calls that make a socket with that descriptor succeed.
pub record IsBound (h : ℕ) (w : World) : Type 0 where
  pub made : w.kernel.create w.kernel.calls ≡ some (suc h)
  pub set : w.kernel.failure (w.kernel.calls + 1) ≡ none
  pub bound_ok : w.kernel.failure (w.kernel.calls + 1 + 1) ≡ none
  pub free : w.kernel.failure (w.kernel.calls + 1 + 1 + 1) ≡ none

-- The first BORROW message of a source.
abbrev pub first_borrow : Source → List ℕ
first_borrow made = borrow_packet 0 made.frame_duration_ms made.max_buffered_frames

-- The calls for the socket were made, and the clock was read twice.
abbrev pub HasAsked : World → World → Type 0
HasAsked w w1 =
    w1 ≡ record w { errno = w1.errno; kernel = w1.kernel; clock_calls = w.clock_calls + 1 + 1 }

module _ (m : Machine) (fuel : ℕ) (fresh : Source) (spec : SourceSpec) (w : World) (h : ℕ)
    (info : AddrInfo) (infos : List AddrInfo) (mem : HasMemory m) (port : spec.sink_port < 65536)
    (free : IsBound h w) (host : IsFound (w.kernel.calls + 1 + 1 + 1 + 1) w info infos) where
  pub make_connects :
      IsDatagramService w
      → (endpoint : UdpEndpoint)
      → first_reachable w.kernel.failure (w.kernel.calls + 1 + 1 + 1 + 1 + 1) (info ∷ infos)
        ≡ some endpoint
      → (source : Source) × (w1 : World) × (before : List SocketCall) × (let made =
            source_private_make fresh spec in
          atolla_source_make m fuel fresh spec w ≡ (
            if spec.async_make
            then ok (source, after_send w1 none (first_borrow made))
            else source_await_make_completion m fuel source
                (after_send w1 none (first_borrow made))))
        × (source.state ≡ SourceState.waiting)
        × (source.sock.socket_handle ≡ some (suc h))
        × (source.first_borrow_time ≡ now w)
        × (w1.kernel.asked ≡ before ++ (connected (some (suc h)) (some endpoint) ∷ []))
        × IsReady source.builder
        × (source.disconnect_timeout_ms ≡ (source_private_make fresh spec).disconnect_timeout_ms)
        × HasAsked w w1
        × (source.recv_buf ≡ fresh.recv_buf)
        × (source.frame_duration_ms ≡ u32 spec.frame_duration_ms)
  unfolding atolla_source_make connect_source udp_socket_init source_private_make
      make_success_result time_now
  make_connects service endpoint reached =
      let s : UdpSocket = record { socket_handle = some (suc h) } in
      let w0 : World = after_init (suc h) 0 w in
      let (b, built, ready, first) = msg_builder_init_lem m mem in
      let init =
        init_on_port-succeeds fresh.sock 0 h w free.made free.set free.bound_ok free.free in
      let (r, w1, before, set, code, same, asked) =
        set_receiver-connects s spec.sink_hostname (u16 spec.sink_port) w0 info infos host.found
          host.udp in
      let fine : r.code ≡ UdpSocketResultCode.success = code ∙ ap answer_code reached in
      let s1 : Source = record (source_private_make fresh spec) {
        builder = b;
        sock = s;
        first_borrow_time = now w1;
      } in
      let (b2, sent, follows) =
        send_borrow_lem m s1 (record w1 { clock_calls = w1.clock_calls + 1 }) mem ready
          (subst IsDatagramService (sym same) service) in
      (
        record s1 {
          last_borrow_time = now (record w1 { clock_calls = w1.clock_calls + 1 });
          builder = b2;
        },
        record w1 { clock_calls = w1.clock_calls + 1 + 1 },
        before,
        rw (lt→ltb _ _ port, built, init, set, fine, sent, first),
        refl,
        refl,
        ap now same,
        asked
            ∙ ap
                (λ x.
                  before
                  ++ (connected (some (suc h)) (some (get_or x (last_address info infos))) ∷ []))
                reached,
        follows.0,
        refl,
        ap (λ (x : World). record x { clock_calls = x.clock_calls + 1 + 1 }) same,
        refl,
        refl,
      )

module _ (m : Machine) (fuel : ℕ) (fresh : Source) (spec : SourceSpec) (w : World) (h : ℕ)
    (info : AddrInfo) (infos : List AddrInfo) (mem : HasMemory m) (port : spec.sink_port < 65536)
    (async : spec.async_make ≡ true) (free : IsBound h w)
    (host : IsFound (w.kernel.calls + 1 + 1 + 1 + 1) w info infos) where
  -- Where no `malloc` fails and datagrams are sent whole, for a port below 65536 and `async_make`,
  -- where the calls that make the socket succeed with a descriptor above 0 and the host is found at
  -- UDP addresses: if `connect` reaches an endpoint among them, atolla_source_make connects the socket
  -- to it last, and hands a BORROW message with the ID 0 and the numbers of the specification to the
  -- system. The source waits, and the time of the clock is that of its first borrow.
  pub atolla_source_make-borrows :
      IsDatagramService w
      → (endpoint : UdpEndpoint)
      → first_reachable w.kernel.failure (w.kernel.calls + 1 + 1 + 1 + 1 + 1) (info ∷ infos)
        ≡ some endpoint
      → (source : Source) × (w1 : World) × (before : List SocketCall) × (let made =
            source_private_make fresh spec in
          atolla_source_make m fuel fresh spec w
          ≡ ok (
            source,
            after_send w1 none (borrow_packet 0 made.frame_duration_ms made.max_buffered_frames),
          ))
        × (source.state ≡ SourceState.waiting)
        × (source.sock.socket_handle ≡ some (suc h))
        × (source.first_borrow_time ≡ now w)
        × (w1.kernel.asked ≡ before ++ (connected (some (suc h)) (some endpoint) ∷ []))
        × (w1.sent ≡ w.sent)
  atolla_source_make-borrows service endpoint reached =
      let (source, w1, before, made, waiting, sock, time, asked, _, _, connects, _, _) =
        make_connects m fuel fresh spec w h info infos mem port free host service endpoint
          reached in
      (
        source,
        w1,
        before,
        made ∙ rw async refl,
        waiting,
        sock,
        time,
        asked,
        ap (λ x. x.sent) connects,
      )
