-- ===== src/Sink/Make/Socket.antt =====
-- A new sink and its socket.
use atolla.Prelude.{
  ℕ, suc, ◌+◌, ◌*◌, ◌<◌, ◌≡◌, ◌≢◌, refl, ap, ◌∙◌, Bool-cases, inl, inr, some, none, [], u16, ok,
  if◌then◌else◌,
}
use atolla.Machine.{Machine, HasMemory}
use atolla.World.{World, Errno}
use atolla.Udp.Results.{
  UdpSocket, UdpSocketResult, UdpSocketResultCode, is_ok, make_success_result, msg_port_in_use,
}
use atolla.Udp.System.{with_errno}
use atolla.Udp.Sockets.{udp_socket_init_on_port, udp_socket_free}
use atolla.Udp.Sockets.Init.{
  after_bind, after_init, err_with, init_on_port-succeeds, init_on_port-in_use, init-free_conserves,
}
use atolla.Sink.State.{Sink, SinkState, SinkSpec}
use atolla.Sink.Valid.{IsValid}
use atolla.Sink.Run.{atolla_sink_state}
use atolla.Sink.Make.{atolla_sink_make, atolla_sink_free, emptied, bind_failed_text}
use atolla.Sink.Make.Fresh.{IsNew, sink_private_make-IsValid}

-- What a specification must keep to.
pub record IsSpec (spec : SinkSpec) : Type 0 where
  pub port : spec.port < 65536
  pub some_light : 0 < spec.lights_count
  pub small : spec.lights_count * 3 + 10 < 1024

-- The state of a new sink and its text, by the result of making the socket.
abbrev pub started : UdpSocketResult → Sink → Sink
started r sink =
    if is_ok r.code
    then sink
    else record sink { state = SinkState.error; error_msg = some bind_failed_text }

module _ (m : Machine) (size_of_sink : ℕ) (spec : SinkSpec) (w : World) (mem : HasMemory m)
    (good : IsSpec spec) where
  make_with :
      (r : UdpSocketResult) (s : UdpSocket) (w1 : World)
      → udp_socket_init_on_port (some (record { socket_handle = some 0 })) (u16 spec.port) w
        ≡ ok (r, some s, w1)
      → (sink : Sink) × (atolla_sink_make m size_of_sink spec w ≡ ok (started r sink, w1))
        × (sink.state ≡ SinkState.opened)
        × (sink.error_msg ≡ none)
        × (sink.socket ≡ s)
        × IsValid sink []
        × IsNew spec.lights_count sink
  unfolding atolla_sink_make
  make_with r s w1 made =
      let (sink, b, private, built, state, new, msg, sock, v) =
        sink_private_make-IsValid m size_of_sink spec mem good.port good.some_light good.small in
      let here : udp_socket_init_on_port (some sink.socket) (u16 spec.port) w ≡ ok (r, some s, w1) =
        ap (λ x. udp_socket_init_on_port (some x) (u16 spec.port) w) sock ∙ made in
      (
        record sink { builder = b; socket = s },
        elim (Bool-cases (is_ok r.code)) [
          | inl fine ↦ rw (private, here, built, fine)
          | inr bad ↦ rw (private, here, built, bad)
        ],
        state,
        msg,
        refl,
        record {
          lights = v.lights;
          small = v.small;
          ready = v.ready;
          buffer = v.buffer;
          current = v.current;
          received = v.received;
          ring = v.ring;
          index = v.index;
        },
        record { lights = new.lights; index = new.index; id = new.id },
      )

  pub make-IsNew :
      (h : ℕ)
      → w.kernel.create w.kernel.calls ≡ some (suc h)
      → w.kernel.failure (w.kernel.calls + 1) ≡ none
      → w.kernel.failure (w.kernel.calls + 1 + 1) ≡ none
      → w.kernel.failure (w.kernel.calls + 1 + 1 + 1) ≡ none
      → (sink : Sink) × (atolla_sink_make m size_of_sink spec w
          ≡ ok (sink, after_init (suc h) (u16 spec.port) w))
        × (sink.state ≡ SinkState.opened)
        × (sink.error_msg ≡ none)
        × (sink.socket.socket_handle ≡ some (suc h))
        × IsValid sink []
        × IsNew spec.lights_count sink
  unfolding make_success_result
  make-IsNew h made set bound_ok free =
      let (sink, done, state, msg, sock, v, new) =
        make_with make_success_result (record { socket_handle = some (suc h) })
          (after_init (suc h) (u16 spec.port) w)
          (init_on_port-succeeds (record { socket_handle = some 0 }) (u16 spec.port) h w made set
            bound_ok free) in
      (sink, done, state, msg, ap (λ s. s.socket_handle) sock, v, new)

  -- Where no `malloc` fails, for a good specification, and where `socket` gives a descriptor above 0
  -- and the next three calls succeed: atolla_sink_make gives a free sink with that descriptor and no
  -- text, valid with no frame pending, and of the surroundings only the socket's calls have changed.
  pub atolla_sink_make-opens :
      (h : ℕ)
      → w.kernel.create w.kernel.calls ≡ some (suc h)
      → w.kernel.failure (w.kernel.calls + 1) ≡ none
      → w.kernel.failure (w.kernel.calls + 1 + 1) ≡ none
      → w.kernel.failure (w.kernel.calls + 1 + 1 + 1) ≡ none
      → (sink : Sink) × (atolla_sink_make m size_of_sink spec w
          ≡ ok (sink, after_init (suc h) (u16 spec.port) w))
        × (sink.state ≡ SinkState.opened)
        × (sink.error_msg ≡ none)
        × (sink.socket.socket_handle ≡ some (suc h))
        × IsValid sink []
  atolla_sink_make-opens h made set bound_ok free =
      let (sink, done, state, msg, sock, v, _) = make-IsNew h made set bound_ok free in
      (sink, done, state, msg, sock, v)

  -- Where no `malloc` fails, for a good specification, where `socket` gives a descriptor above 0 and
  -- `bind` fails: atolla_sink_make gives a sink with the text for that, which atolla_sink_state
  -- reports to be in an error, and leaves as it is.
  pub atolla_sink_make-in_use :
      (h : ℕ) (e : Errno)
      → w.kernel.create w.kernel.calls ≡ some (suc h)
      → w.kernel.failure (w.kernel.calls + 1) ≡ none
      → w.kernel.failure (w.kernel.calls + 1 + 1) ≡ some e
      → (sink : Sink) × (w1 : World) × (atolla_sink_make m size_of_sink spec w ≡ ok (sink, w1))
        × (sink.error_msg ≡ some bind_failed_text)
        × (atolla_sink_state m sink w1 ≡ ok (SinkState.error, sink, w1))
  unfolding atolla_sink_state
  atolla_sink_make-in_use h e made set taken =
      let (sink, done, state, msg, sock, v, new) =
        make_with (err_with UdpSocketResultCode.err_port_in_use msg_port_in_use)
          (record { socket_handle = some (suc h) })
          (with_errno (some e) (after_bind (suc h) (u16 spec.port) w))
          (init_on_port-in_use (record { socket_handle = some 0 }) (u16 spec.port) h w made set e
            taken) in
      (
        record sink { state = SinkState.error; error_msg = some bind_failed_text },
        with_errno (some e) (after_bind (suc h) (u16 spec.port) w),
        done,
        refl,
        refl,
      )

  -- Where no `malloc` fails, for a good specification, where `socket` gives a descriptor and no later
  -- call fails, but perhaps the one after the next: atolla_sink_make and then atolla_sink_free return,
  -- and the same descriptors are open as before.
  pub atolla_sink-conserves :
      (h : ℕ)
      → w.kernel.create w.kernel.calls ≡ some h
      → ((i : ℕ) → i ≢ w.kernel.calls + 1 + 1 → w.kernel.failure i ≡ none)
      → (sink : Sink) × (w1 : World) × (freed : Sink) × (w2 : World) × (atolla_sink_make m
            size_of_sink spec w
          ≡ ok (sink, w1))
        × (atolla_sink_free sink w1 ≡ ok (freed, w2))
        × (w2.kernel.handles ≡ w.kernel.handles)
  unfolding atolla_sink_free
  atolla_sink-conserves h made well =
      let (r, s, w1, r', s', w2, init, freed, same) =
        init-free_conserves (record { socket_handle = some 0 }) (u16 spec.port) h w made well in
      let (sink, done, state, msg, sock, v, new) = make_with r s w1 init in
      let socket : (started r sink).socket ≡ s = elim (Bool-cases (is_ok r.code)) [
        | inl fine ↦ rw fine sock
        | inr bad ↦ rw bad sock
      ] in
      let here : udp_socket_free (some (started r sink).socket) w1 ≡ ok (r', s', w2) =
        ap (λ x. udp_socket_free (some x) w1) socket ∙ freed in
      (started r sink, w1, emptied (started r sink) s', w2, done, rw here, same)
