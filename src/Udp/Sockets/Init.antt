-- ===== src/Udp/Sockets/Init.antt =====
-- What the descriptor of a socket goes through, from making to freeing.
use atolla.Prelude.{
  ℕ, zero, suc, ◌+◌, ◌≡◌, ◌≢◌, refl, Option, none, some, List, [], ◌∷◌, ◌++◌, u16, arith, ok, ◌⊎◌,
  inl, inr, ==_iff,
}
use atolla.World.{Errno, World, dual_stack, bound, nonblocking, closed}
use atolla.Udp.System.{opened_with, noted, with_errno, close_socket}
use atolla.Udp.Results.{
  UdpSocket, UdpSocketResultCode, UdpSocketResult, Message, strerror, make_success_result,
  msg_socket_creation_failed, msg_port_in_use, msg_set_nonblocking_failed,
}
use atolla.Udp.Sockets.{udp_socket_init_on_port, udp_socket_free}

pub Option-cases : (o : Option Errno) → (o ≡ none) ⊎ ((e : Errno) × (o ≡ some e))
Option-cases none = inl refl
Option-cases (some e) = inr (e, refl)

-- The surroundings after `socket` gave that descriptor, or none.
abbrev pub after_open : Option ℕ → World → World
after_open h w = record w {
  kernel = record w.kernel { calls = w.kernel.calls + 1; handles = opened_with h w.kernel.handles };
}

-- After `setsockopt` succeeded too, and `bind` was asked for the port.
abbrev pub after_bind : ℕ → ℕ → World → World
after_bind h port w =
    noted (bound (some h) (u16 port)) (noted (dual_stack (some h)) (after_open (some h) w))

-- After `fcntl` too.
abbrev pub after_init : ℕ → ℕ → World → World
after_init h port w = noted (nonblocking (some h)) (after_bind h port w)

abbrev pub err_with : UdpSocketResultCode → Message → UdpSocketResult
err_with code msg = record { code = code; msg = some msg }

-- udp_socket_free of a socket returns, and does nothing but close its descriptor.
pub free_lem :
    (s : UdpSocket) (w : World)
    → (r : UdpSocketResult) × (s' : Option UdpSocket) × (udp_socket_free (some s) w
        ≡ ok (r, s', (close_socket s.socket_handle w).1))
unfolding udp_socket_free
free_lem s w = elim (Option-cases (w.kernel.failure w.kernel.calls)) [
  | inl closed_well ↦ (make_success_result, some (record s { socket_handle = none }), ground arith)
  | inr (e, failed) ↦
      (err_with UdpSocketResultCode.err_free_failed (strerror e), some s, ground arith)
]

-- A socket that is initialised and then freed leaves the descriptors open that were.
abbrev pub IsReturned : UdpSocket → ℕ → World → Type 0
IsReturned old port w =
    (r : UdpSocketResult) × (s : UdpSocket) × (w1 : World) × (r' : UdpSocketResult) × (s' : Option
      UdpSocket)
    × (w2 : World) × (udp_socket_init_on_port (some old) port w ≡ ok (r, some s, w1))
    × (udp_socket_free (some s) w1 ≡ ok (r', s', w2))
    × (w2.kernel.handles ≡ w.kernel.handles)

-- The descriptor 0 is taken for a failure.
not_made :
    (old : UdpSocket) (port : ℕ) (w : World)
    → w.kernel.create w.kernel.calls ≡ some 0
    → udp_socket_init_on_port (some old) port w
      ≡ ok (
        err_with UdpSocketResultCode.err_socket_creation_failed msg_socket_creation_failed,
        some (record { socket_handle = some 0 }),
        after_open (some 0) w,
      )
unfolding udp_socket_init_on_port
not_made old port w made = ground arith

module _ (old : UdpSocket) (port h : ℕ) (w : World)
    (made : w.kernel.create w.kernel.calls ≡ some (suc h))
    (set : w.kernel.failure (w.kernel.calls + 1) ≡ none) where
  pub init_on_port-succeeds :
      w.kernel.failure (w.kernel.calls + 1 + 1) ≡ none
      → w.kernel.failure (w.kernel.calls + 1 + 1 + 1) ≡ none
      → udp_socket_init_on_port (some old) port w
        ≡ ok (
          make_success_result,
          some (record { socket_handle = some (suc h) }),
          after_init (suc h) port w,
        )
  unfolding udp_socket_init_on_port
  init_on_port-succeeds bound_ok free = ground arith

  pub init_on_port-in_use :
      (e : Errno)
      → w.kernel.failure (w.kernel.calls + 1 + 1) ≡ some e
      → udp_socket_init_on_port (some old) port w
        ≡ ok (
          err_with UdpSocketResultCode.err_port_in_use msg_port_in_use,
          some (record { socket_handle = some (suc h) }),
          with_errno (some e) (after_bind (suc h) port w),
        )
  unfolding udp_socket_init_on_port
  init_on_port-in_use e taken = ground arith

  -- Where `socket` gives a descriptor above 0, the options are set and `bind` succeeds, but the socket
  -- cannot be made non-blocking: udp_socket_init_on_port answers the code for that and has closed the
  -- descriptor, and udp_socket_free of the socket that it leaves closes the same descriptor once more.
  pub init-free_closes_twice :
      (e : Errno)
      → w.kernel.failure (w.kernel.calls + 1 + 1) ≡ none
      → w.kernel.failure (w.kernel.calls + 1 + 1 + 1) ≡ some e
      → (s : UdpSocket) × (w1 : World) × (r : UdpSocketResult) × (s' : Option UdpSocket)
        × (w2 : World) × (udp_socket_init_on_port (some old) port w
            ≡ ok (
              err_with UdpSocketResultCode.err_set_nonblocking_failed msg_set_nonblocking_failed,
              some s,
              w1,
            ))
        × (w1.kernel.asked
            ≡ (after_init (suc h) port w).kernel.asked ++ (closed (some (suc h)) ∷ []))
        × (udp_socket_free (some s) w1 ≡ ok (r, s', w2))
        × (w2.kernel.asked ≡ w1.kernel.asked ++ (closed (some (suc h)) ∷ []))
  unfolding udp_socket_init_on_port
  init-free_closes_twice e bound_ok blocked =
      let s : UdpSocket = record { socket_handle = some (suc h) } in
      let w1 : World =
        (close_socket (some (suc h)) (with_errno (some e) (after_init (suc h) port w))).1 in
      let (r, s', freed) = free_lem s w1 in
      (s, w1, r, s', (close_socket (some (suc h)) w1).1, ground arith, refl, freed, refl)

handles-close :
    (h : ℕ) (hs : List ℕ) (w : World)
    → w.kernel.handles ≡ h ∷ hs
    → w.kernel.failure w.kernel.calls ≡ none
    → (close_socket (some h) w).1.kernel.handles ≡ hs
handles-close h hs w held well = rw (well, held, (==_iff h h).1 refl)

free_after :
    (old : UdpSocket) (port h : ℕ) (w w1 : World) (r : UdpSocketResult)
    → udp_socket_init_on_port (some old) port w
      ≡ ok (r, some (record { socket_handle = some h }), w1)
    → w1.kernel.handles ≡ h ∷ w.kernel.handles
    → w1.kernel.failure w1.kernel.calls ≡ none
    → IsReturned old port w
free_after old port h w w1 r made held well =
    let s : UdpSocket = record { socket_handle = some h } in
    let (r', s', freed) = free_lem s w1 in
    (
      r,
      s,
      w1,
      r',
      s',
      (close_socket (some h) w1).1,
      made,
      freed,
      handles-close h w.kernel.handles w1 held well,
    )

-- Where `socket` gives a descriptor and no later call fails but perhaps the one after the next,
-- udp_socket_init_on_port and then udp_socket_free return, and the same descriptors are open as before.
pub init-free_conserves :
    (old : UdpSocket) (port h : ℕ) (w : World)
    → w.kernel.create w.kernel.calls ≡ some h
    → ((i : ℕ) → i ≢ w.kernel.calls + 1 + 1 → w.kernel.failure i ≡ none)
    → IsReturned old port w
init-free_conserves old port zero w made well =
    free_after old port 0 w (after_open (some 0) w)
      (err_with UdpSocketResultCode.err_socket_creation_failed msg_socket_creation_failed)
      (not_made old port w made) refl (well _ (omega arith))
init-free_conserves old port (suc h) w made well =
    let set : w.kernel.failure (w.kernel.calls + 1) ≡ none = well _ (omega arith) in
    elim (Option-cases (w.kernel.failure (w.kernel.calls + 1 + 1))) [
      | inl bound_ok ↦
          free_after old port (suc h) w (after_init (suc h) port w) make_success_result
            (init_on_port-succeeds old port h w made set bound_ok (well _ (omega arith))) refl
            (well _ (omega arith))
      | inr (e, taken) ↦
          free_after old port (suc h) w (with_errno (some e) (after_bind (suc h) port w))
            (err_with UdpSocketResultCode.err_port_in_use msg_port_in_use)
            (init_on_port-in_use old port h w made set e taken) refl (well _ (omega arith))
    ]
