-- ===== src/Udp/Sockets/Receiver.antt =====
-- udp_socket_set_receiver connects to the first address of the host that can be reached.
use Prim.Native.String.{String}
use mathlib.Core.Option.{get_or}
use atolla.Prelude.{
  ℕ, ◌+◌, ◌≡◌, refl, sym, ◌∙◌, ap, true, Option, none, some, List, [], ◌∷◌, ◌++◌, arith, ok, inl,
  inr,
}
use atolla.World.{Errno, UdpEndpoint, AddrInfo, resolved, World, SocketCall, connected, looked_up}
use atolla.Udp.System.{noted, with_errno}
use atolla.Udp.Results.{
  UdpSocket, UdpSocketResultCode, UdpSocketResult, strerror, make_success_result,
}
use atolla.Udp.Sockets.{connect_first, udp_socket_set_receiver}
use atolla.Udp.Sockets.Init.{Option-cases, err_with}

-- The entries are for UDP, as the criteria given to `getaddrinfo` ask.
abbrev pub AreUdp : List AddrInfo → Type 0
AreUdp [] = Unit {0}
AreUdp (info ∷ infos) = (info.is_datagram ≡ true) × (info.is_udp ≡ true) × AreUdp infos

-- The first address that `connect` takes, where the calls from number `c` on try them in order.
abbrev pub first_reachable : (ℕ → Option Errno) → ℕ → List AddrInfo → Option UdpEndpoint
first_reachable failure c [] = none
first_reachable failure c (info ∷ infos) = elim (failure c) [
  | none ↦ some info.ai_addr
  | some e ↦ first_reachable failure (c + 1) infos
]

abbrev pub last_address : AddrInfo → List AddrInfo → UdpEndpoint
last_address info [] = info.ai_addr
last_address info (next ∷ infos) = last_address next infos

abbrev pub answer_code : Option UdpEndpoint → UdpSocketResultCode
answer_code (some endpoint) = UdpSocketResultCode.success
answer_code none = UdpSocketResultCode.err_connect_failed

abbrev pub answer : Option Errno → UdpSocketResultCode
answer none = UdpSocketResultCode.success
answer (some e) = UdpSocketResultCode.err_connect_failed

-- Only `errno` and what the kernel was asked have changed.
abbrev pub IsAsked : World → World → Type 0
IsAsked w w1 = w1 ≡ record w { errno = w1.errno; kernel = w1.kernel }

connect_first_lem :
    (handle : Option ℕ) (info : AddrInfo) (infos : List AddrInfo) (w : World)
    → AreUdp (info ∷ infos)
    → (e : Option Errno) × (w1 : World) × (before : List SocketCall) × (connect_first handle
          (info ∷ infos)
          w
        ≡ ok (e, w1))
      × (answer e ≡ answer_code (first_reachable w.kernel.failure w.kernel.calls (info ∷ infos)))
      × IsAsked w w1
      × (w1.kernel.asked
          ≡ before
            ++ (connected handle (
                  some (
                    get_or
                      (first_reachable w.kernel.failure w.kernel.calls (info ∷ infos))
                      (last_address info infos)))
                ∷ []))
unfolding connect_first
connect_first_lem handle info [] w (dgram, udp, rest) =
    elim (Option-cases (w.kernel.failure w.kernel.calls)) [
      | inl taken ↦ (
        none,
        noted (connected handle (some info.ai_addr)) w,
        w.kernel.asked,
        ground arith,
        rw (answer_code, taken),
        refl,
        rw (get_or, taken),
      )
      | inr (e, refused) ↦ (
        some e,
        with_errno (some e) (noted (connected handle (some info.ai_addr)) w),
        w.kernel.asked,
        ground arith,
        rw (answer_code, refused),
        refl,
        rw (get_or, refused),
      )
    ]
connect_first_lem handle info (next ∷ infos) w (dgram, udp, rest) =
    elim (Option-cases (w.kernel.failure w.kernel.calls)) [
      | inl taken ↦ (
        none,
        noted (connected handle (some info.ai_addr)) w,
        w.kernel.asked,
        ground arith,
        rw (answer_code, taken),
        refl,
        rw (get_or, taken),
      )
      | inr (e, refused) ↦
          let w1 : World = with_errno (some e) (noted (connected handle (some info.ai_addr)) w) in
          let (e', w', before, tried, code, same, last) =
            connect_first_lem handle next infos w1 rest in
          (
            e',
            w',
            before,
            ground arith,
            rw (answer_code, refused) code,
            same,
            rw (get_or, refused) last,
          )
    ]

-- For a host that getaddrinfo finds at one UDP address or more, udp_socket_set_receiver tries to
-- connect to them in order, up to the first that is reached, or else the last; it succeeds exactly if
-- one is reached, and otherwise answers the code for a failed connection. Of the surroundings only
-- `errno` and the system's sockets change.
pub set_receiver-connects :
    (socket : UdpSocket) (hostname : String) (port : ℕ) (w : World) (info : AddrInfo)
    (infos : List AddrInfo)
    → w.kernel.resolve w.kernel.calls ≡ resolved (info ∷ infos)
    → AreUdp (info ∷ infos)
    → let reached = first_reachable w.kernel.failure (w.kernel.calls + 1) (info ∷ infos) in
      (r : UdpSocketResult) × (w1 : World) × (before : List SocketCall) × (udp_socket_set_receiver
          (some socket)
          hostname
          port
          w
        ≡ ok (r, w1))
      × (r.code ≡ answer_code reached)
      × IsAsked w w1
      × (w1.kernel.asked
          ≡ before
            ++ (connected socket.socket_handle (some (get_or reached (last_address info infos)))
                ∷ []))
unfolding udp_socket_set_receiver
set_receiver-connects socket hostname port w info infos found udp =
    let (e, w1, before, tried, code, same, last) =
      connect_first_lem socket.socket_handle info infos (noted (looked_up hostname port) w) udp in
    elim (Option-cases e) [
      | inl taken ↦ (
        make_success_result,
        w1,
        before,
        rw (udp_socket_set_receiver, found, tried, taken),
        sym (ap answer taken) ∙ code,
        same,
        last,
      )
      | inr (x, refused) ↦ (
        err_with UdpSocketResultCode.err_connect_failed (strerror w1.errno),
        w1,
        before,
        rw (udp_socket_set_receiver, found, tried, refused),
        sym (ap answer refused) ∙ code,
        same,
        last,
      )
    ]
