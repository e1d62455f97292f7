-- ===== src/Sink/Valid/Calls.antt =====
-- Whatever the network brings, a sink stays valid through any calls of it.
use atolla.Prelude.{
  ℕ, ◌+◌, ◌≡◌, refl, sym, ◌∙◌, Bool-cases, inl, inr, Option, none, some, List, [], ◌∷◌, length,
  take, drop, ap, ltb, leb, ◌==◌, sub_u32, ok, fault, bad_access, ◌>>=◌, Ensures, Ensures-bind,
  Ensures-ok, length-write_at, arith,
}
use atolla.Machine.{Machine, HasMemory}
use atolla.World.{World, UdpEndpoint, Incoming, datagram, recv_failed, now, time_now}
use atolla.Udp.Results.{UdpSocket, is_ok}
use atolla.Udp.Transfer.{Reception, receive_error, received, udp_socket_receive_from}
use atolla.Mem.Block.{Ptr}
use atolla.Sink.State.{Sink, null_time}
use atolla.Sink.Send.{sink_send, sink_send_fail, sink_drop_borrow}
use atolla.Sink.Handle.{sink_iterate_recv_buf}
use atolla.Sink.Run.{
  drop_silent, sink_receive, sink_update, atolla_sink_state, show_frame, get_first, atolla_sink_get,
}
use atolla.Sink.Run.CatchUp.{taken, dequeue_step, dequeue_nothing, catch_up_lem}
use atolla.Sink.Valid.{IsValid}
use atolla.Sink.Run.Branches.{
  drop_silent-opened, drop_silent-lent, sink_send-opened, sink_send-lent, atolla_sink_state-live,
  get-opened, get-lent,
}
use atolla.Sink.Valid.Running.{IsRunning, with_fields, with_buffer}
use atolla.Sink.State.Cases.{SinkState-cases}
use atolla.Sink.Valid.Messages.{
  Leaves, send_lent-IsRunning, refuse-IsRunning, drop_borrow-IsRunning, iterate_recv_buf-IsRunning,
}

-- What `recvfrom` writes keeps the length of the buffer.
received-length :
    (buf : List ℕ) (max : ℕ) (w : World) (i : Incoming)
    → Ensures (λ x. length (x.0.packet_data) ≡ length buf) (received buf max w i)
unfolding received
received-length buf max w (recv_failed e) = Ensures-bind _ (receive_error e) _ (λ r _. refl)
received-length buf max w (datagram sender bytes) =
    elim (Bool-cases (ltb 0 (length (take max bytes)))) [
      | inl some_bytes ↦ elim (Bool-cases (leb (length (take max bytes)) (length buf))) [
        | inl fits ↦ rw (some_bytes, fits) (length-write_at 0 (take max bytes) buf)
        | inr large ↦ rw (some_bytes, large) tt
      ]
      | inr nothing ↦ rw nothing (Ensures-bind _ (receive_error w.errno) _ (λ r _. refl))
    ]

receive_from-length :
    (socket : UdpSocket) (buf : List ℕ) (w : World)
    → Ensures
        (λ x. length (x.0.packet_data) ≡ length buf)
        (udp_socket_receive_from (some socket) buf 1024 w)
unfolding udp_socket_receive_from
receive_from-length socket buf w =
    received-length buf 1024 (record w { recv_calls = w.recv_calls + 1 }) (w.incoming w.recv_calls)

module _ (m : Machine) (mem : HasMemory m) (n : ℕ) where
  drop_silent-IsRunning :
      (sink : Sink) (w : World) → IsRunning n sink → Ensures (Leaves n) (drop_silent m sink w)
  unfolding sink_send_fail
  drop_silent-IsRunning sink w r = elim (SinkState-cases sink.state) [
    | inl free ↦ rw (drop_silent-opened m sink w free) r
    | inr (inl held) ↦
        rw (drop_silent-lent m sink w held)
          (elim (Bool-cases (ltb 1500 (sub_u32 (now w) sink.last_recv_time))) [
            | inl late ↦ rw late (
                refuse-IsRunning m mem n sink 0 5 sink.borrower_endpoint (time_now w).1
                  sink_drop_borrow r (drop_borrow-IsRunning m mem n))
            | inr early ↦ rw early r
          ])
    | inr (inr failed) ↦ absurd (r.live failed)
  ]

  receive-IsRunning :
      (sink : Sink) (w : World) → IsRunning n sink → Ensures (Leaves n) (sink_receive m sink w)
  unfolding sink_receive time_now
  receive-IsRunning sink w r =
      Ensures-bind (Leaves n) (udp_socket_receive_from (some sink.socket) sink.recv_buf 1024 w) _
        (λ x e.
          let in_buf : IsRunning n (record sink { recv_buf = x.0.packet_data }) =
            with_buffer x.0.packet_data r (
              Ensures-ok (λ y. length (y.0.packet_data) ≡ length sink.recv_buf) _ x e
                (receive_from-length sink.socket sink.recv_buf w)
              ∙ r.valid.buffer) in
          elim (Bool-cases (is_ok x.0.result.code)) [
            | inl fine ↦
                rw fine
                  (from x.0 x.1 x.0.sender (record sink { recv_buf = x.0.packet_data }) in_buf)
            | inr bad ↦
                rw bad
                  (drop_silent-IsRunning (record sink { recv_buf = x.0.packet_data }) x.1 in_buf)
          ])
    where
      from :
          (got : Reception) (w1 : World) (sender : Option UdpEndpoint) (sink1 : Sink)
          → IsRunning n sink1
          → Ensures (Leaves n) (elim sender [
            | none ↦ fault bad_access
            | some sender ↦ (do
              (s, w2) ← sink_iterate_recv_buf m sink1 got.received_byte_count sender w1
              let (t, w3) = time_now w2
              ok (record s { last_recv_time = t }, w3))
          ])
      from got w1 none sink1 r1 = tt
      from got w1 (some sender) sink1 r1 =
          Ensures-bind (Leaves n) (sink_iterate_recv_buf m sink1 got.received_byte_count sender w1)
            _
            (λ y e.
              let r2 : IsRunning n y.0 =
                Ensures-ok (Leaves n) _ y e
                  (iterate_recv_buf-IsRunning m mem n sink1 got.received_byte_count sender w1 r1) in
              with_fields r2 r2.live r2.valid.ready r2.valid.buffer r2.valid.index)

  sink_send-IsRunning :
      (sink : Sink) (w : World) → IsRunning n sink → Ensures (Leaves n) (sink_send m sink w)
  sink_send-IsRunning sink w r = elim (SinkState-cases sink.state) [
    | inl free ↦ rw (sink_send-opened m sink w free) r
    | inr (inl held) ↦
        rw (sink_send-lent m sink w held)
          (elim (Bool-cases (ltb 500 (sub_u32 (now w) sink.last_send_lent_time))) [
            | inl due ↦ rw due (send_lent-IsRunning m mem n sink (time_now w).1 r)
            | inr early ↦ rw early r
          ])
    | inr (inr failed) ↦ absurd (r.live failed)
  ]

  update-IsRunning :
      (sink : Sink) (w : World) → IsRunning n sink → Ensures (Leaves n) (sink_update m sink w)
  unfolding sink_update
  update-IsRunning sink w r = Ensures-bind (Leaves n) (sink_receive m sink w) _ (λ x e.
      sink_send-IsRunning x.0 x.1
        (Ensures-ok (Leaves n) (sink_receive m sink w) x e (receive-IsRunning sink w r)))

  -- What a call leaves that has a result besides.
  abbrev pub Gives {ℓ} : {A : Type ℓ} → A × Sink × World → Type 0
  Gives x = IsRunning n x.1

  pub atolla_sink_state-IsRunning :
      (sink : Sink) (w : World) → IsRunning n sink → Ensures Gives (atolla_sink_state m sink w)
  atolla_sink_state-IsRunning sink w r = rw (atolla_sink_state-live m sink w r.live) (
      Ensures-bind Gives (sink_update m sink w) _
        (λ x e. Ensures-ok (Leaves n) (sink_update m sink w) x e (update-IsRunning sink w r)))

  show-IsRunning :
      (sink s : Sink) (out : Ptr) (len : ℕ) (w : World)
      → IsRunning n sink
      → Ensures Gives (show_frame s out len >>= λ p. ok (p, sink, w))
  show-IsRunning sink s out len w r = Ensures-bind Gives (show_frame s out len) _ (λ p _. r)

  get_first-IsRunning :
      (sink : Sink) (queue : List (List ℕ)) (out : Ptr) (len : ℕ) (w : World)
      → IsValid sink queue
      → IsRunning n sink
      → Ensures Gives (get_first sink out len w)
  unfolding get_first time_now
  get_first-IsRunning sink [] out len w v r = rw (dequeue_nothing sink v) r
  get_first-IsRunning sink (x ∷ queue) out len w v r =
      let (ring, got, v') = dequeue_step sink x queue v in
      let r' : IsRunning n (taken sink ring x) = record {
        queue = queue;
        valid = v';
        lights = r.lights;
        live = r.live;
      } in
      rw got (
        show-IsRunning (record (taken sink ring x) { time_origin = now w }) (taken sink ring x) out
          len (time_now w).1 (with_fields r' r'.live v'.ready v'.buffer v'.index))

  pub atolla_sink_get-IsRunning :
      (sink : Sink) (out : Ptr) (len : ℕ) (w : World)
      → IsRunning n sink
      → Ensures Gives (atolla_sink_get sink out len w)
  atolla_sink_get-IsRunning sink out len w r = elim (SinkState-cases sink.state) [
    | inl free ↦ rw (get-opened sink out len w free) r
    | inr (inl held) ↦
        rw (get-lent sink out len w held) (elim (Bool-cases (sink.time_origin == null_time)) [
          | inl first ↦ rw first (get_first-IsRunning sink r.queue out len w r.valid r)
          | inr later ↦
              let (s, k, looped, c) =
                catch_up_lem (now w) r.queue 129 sink r.valid
                  (omega (arith, r.valid.ring.bounded)) in
              rw (later, looped)
                (show-IsRunning s s out len (time_now w).1 record {
                  queue = drop k r.queue;
                  valid = c.valid;
                  lights = ap (λ (t : Sink). t.lights_count) c.same ∙ r.lights;
                  live = λ failed. r.live (ap (λ (t : Sink). t.state) (sym c.same) ∙ failed);
                })
        ])
    | inr (inr failed) ↦ absurd (r.live failed)
  ]
