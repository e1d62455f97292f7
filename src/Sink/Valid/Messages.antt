-- ===== src/Sink/Valid/Messages.antt =====
-- Messages of any kind and length, from any sender, leave a sink valid.
use atolla.Prelude.{
  ℕ, zero, suc, ◌*◌, ◌≡◌, ◌≢◌, refl, Bool-cases, inl, inr, some, ltb, ltb_false→le, ok, ◌>>=◌,
  Ensures, Ensures-bind, Ensures-ok,
}
use atolla.Machine.{Machine, HasMemory}
use atolla.World.{World, UdpEndpoint}
use atolla.Udp.Transfer.{udp_socket_send_to}
use atolla.Udp.Endpoint.{udp_endpoint_equal}
use atolla.Mem.Block.{MemBlock, load}
use atolla.Msg.Kind.{MsgType}
use atolla.Msg.Iter.{
  MsgIter, msg_iter_make, msg_iter_has_msg, msg_iter_next, msg_iter_type, msg_iter_msg_id,
  msg_iter_borrow_frame_length, msg_iter_borrow_buffer_length, msg_iter_enqueue_frame_idx,
  msg_iter_enqueue_frame,
}
use atolla.Msg.Builder.Encode.{lent-Assembles, fail-Assembles}
use atolla.Sink.State.Cases.{SinkState-cases}
use atolla.Sink.State.{Sink, SinkState}
use atolla.Sink.Send.{sink_send_lent, sink_send_fail_to, sink_drop_borrow}
use atolla.Sink.Handle.{
  is_lent, drop_if_lent, take_frame, grant_borrow, sink_handle_borrow, sink_handle_enqueue,
  sink_handle_msg, handle_msgs, sink_iterate_recv_buf,
}
use atolla.Sink.Handle.Borrow.{handle_borrow-may, handle_borrow-other}
use atolla.Sink.Handle.Senders.{enqueue-free, enqueue-short, enqueue-other, enqueue-borrower}
use atolla.Sink.Valid.Running.{IsRunning, with_fields, with_builder, with_state}
use atolla.Sink.Valid.Frames.{take_frame-IsRunning}

-- What a call leaves, beside the surroundings.
abbrev pub Leaves : ℕ → Sink × World → Type 0
Leaves n x = IsRunning n x.0

module _ (m : Machine) (mem : HasMemory m) (n : ℕ) where
  pub send_lent-IsRunning :
      (sink : Sink) (w : World) → IsRunning n sink → Ensures (Leaves n) (sink_send_lent m sink w)
  unfolding sink_send_lent
  send_lent-IsRunning sink w r =
      let (b, built, ready, _, _) = lent-Assembles m sink.builder mem r.valid.ready in
      rw built (
        Ensures-bind (Leaves n) (load b.msg_buf.bytes b.msg_buf.size) _ (λ bytes _.
          Ensures-bind (Leaves n)
            (udp_socket_send_to (some sink.socket) bytes (some sink.borrower_endpoint) w) _
            (λ x _. with_fields r r.live ready r.valid.buffer r.valid.index)))

  pub send_fail_to-IsRunning :
      (sink : Sink) (id code : ℕ) (to : UdpEndpoint) (w : World)
      → IsRunning n sink
      → Ensures (Leaves n) (sink_send_fail_to m sink id code to w)
  unfolding sink_send_fail_to
  send_fail_to-IsRunning sink id code to w r =
      let (b, built, ready, _, _) = fail-Assembles m sink.builder mem r.valid.ready id code in
      rw built (
        Ensures-bind (Leaves n) (load b.msg_buf.bytes b.msg_buf.size) _ (λ bytes _.
          Ensures-bind (Leaves n) (udp_socket_send_to (some sink.socket) bytes (some to) w) _
            (λ x _. with_builder b r ready)))

  opened-live : SinkState.opened ≢ SinkState.error
  opened-live e = cc

  lent-live : SinkState.lent ≢ SinkState.error
  lent-live e = cc

  pub drop_borrow-IsRunning : (sink : Sink) → IsRunning n sink → IsRunning n (sink_drop_borrow sink)
  unfolding sink_drop_borrow
  drop_borrow-IsRunning sink r = with_state SinkState.opened r opened-live

  drop_if_lent-IsRunning : (sink : Sink) → IsRunning n sink → IsRunning n (drop_if_lent sink)
  unfolding drop_if_lent
  drop_if_lent-IsRunning sink r = elim (Bool-cases (is_lent sink.state)) [
    | inl held ↦ rw held (drop_borrow-IsRunning sink r)
    | inr free ↦ rw free r
  ]

  -- A refusal, and what the sink does after it.
  pub refuse-IsRunning :
      (sink : Sink) (id code : ℕ) (to : UdpEndpoint) (w : World) (after : Sink → Sink)
      → IsRunning n sink
      → ((s : Sink) → IsRunning n s → IsRunning n (after s))
      → Ensures (Leaves n) (sink_send_fail_to m sink id code to w >>= λ x. ok (after x.0, x.1))
  refuse-IsRunning sink id code to w after r keeps =
      Ensures-bind (Leaves n) (sink_send_fail_to m sink id code to w) _ (λ x e. keeps x.0 (
        Ensures-ok (Leaves n) (sink_send_fail_to m sink id code to w) x e
          (send_fail_to-IsRunning sink id code to w r)))

  grant_borrow-IsRunning :
      (sink : Sink) (id duration count : ℕ) (sender : UdpEndpoint) (w : World)
      → IsRunning n sink
      → Ensures (Leaves n) (grant_borrow m sink id duration count sender w)
  unfolding grant_borrow
  grant_borrow-IsRunning sink id duration count sender w r =
      elim (Bool-cases (ltb sink.pending_frames.buf.capacity (count * (sink.lights_count * 3)))) [
        | inl large ↦
            rw large (refuse-IsRunning sink id 1 sender w drop_if_lent r drop_if_lent-IsRunning)
        | inr fits ↦ elim (Bool-cases (ltb duration 10)) [
          | inl short ↦
              rw (fits, short)
                (refuse-IsRunning sink id 2 sender w drop_if_lent r drop_if_lent-IsRunning)
          | inr long ↦
              rw (fits, long)
                (send_lent-IsRunning _ w
                  (with_fields r lent-live r.valid.ready r.valid.buffer refl))
        ]
      ]

  handle_borrow-IsRunning :
      (sink : Sink) (id duration count : ℕ) (sender : UdpEndpoint) (w : World)
      → IsRunning n sink
      → Ensures (Leaves n) (sink_handle_borrow m sink id duration count sender w)
  unfolding sink_handle_borrow
  handle_borrow-IsRunning sink id duration count sender w r = elim (SinkState-cases sink.state) [
    | inl free ↦
        rw (handle_borrow-may m sink id duration count sender w (inl free))
          (grant_borrow-IsRunning sink id duration count sender w r)
    | inr (inl held) ↦ elim (Bool-cases (udp_endpoint_equal sender sink.borrower_endpoint)) [
      | inl same ↦
          rw (handle_borrow-may m sink id duration count sender w (inr (held, same)))
            (grant_borrow-IsRunning sink id duration count sender w r)
      | inr other ↦
          rw (handle_borrow-other m sink id duration count sender w held other)
            (send_fail_to-IsRunning sink id 3 sender w r)
    ]
    | inr (inr failed) ↦ absurd (r.live failed)
  ]

  handle_enqueue-IsRunning :
      (sink : Sink) (id idx : ℕ) (frame : MemBlock) (sender : UdpEndpoint) (w : World)
      → IsRunning n sink
      → Ensures (Leaves n) (sink_handle_enqueue m sink id idx frame sender w)
  handle_enqueue-IsRunning sink id idx frame sender w r = elim (SinkState-cases sink.state) [
    | inl free ↦
        rw (enqueue-free m sink id idx frame sender w free)
          (send_fail_to-IsRunning sink id 0 sender w r)
    | inr (inl held) ↦ elim (Bool-cases (ltb frame.size 3)) [
      | inl short ↦
          rw (enqueue-short m sink id idx frame sender w held short)
            (refuse-IsRunning sink id 4 sender w sink_drop_borrow r drop_borrow-IsRunning)
      | inr long ↦ elim (Bool-cases (udp_endpoint_equal sender sink.borrower_endpoint)) [
        | inl same ↦
            rw (enqueue-borrower m sink id idx frame sender w held (ltb_false→le _ _ long) same) (
              Ensures-bind (Leaves n) (take_frame sink idx frame) _ (λ s e.
                Ensures-ok (IsRunning n) (take_frame sink idx frame) s e
                  (take_frame-IsRunning n frame sink idx r)))
        | inr other ↦
            rw (enqueue-other m sink id idx frame sender w held long other)
              (send_fail_to-IsRunning sink id 3 sender w r)
      ]
    ]
    | inr (inr failed) ↦ absurd (r.live failed)
  ]

  handle_typed :
      (type : MsgType) (sink : Sink) (iter : MsgIter) (sender : UdpEndpoint) (w : World)
      → IsRunning n sink
      → msg_iter_type iter ≡ ok type
      → Ensures (Leaves n) (sink_handle_msg m sink iter sender w)
  unfolding sink_handle_msg
  handle_typed MsgType.borrow sink iter sender w r e = rw e (
      Ensures-bind (Leaves n) (msg_iter_msg_id m iter) _ (λ id _.
        Ensures-bind (Leaves n) (msg_iter_borrow_frame_length m iter) _ (λ duration _.
          Ensures-bind (Leaves n) (msg_iter_borrow_buffer_length m iter) _
            (λ count _. handle_borrow-IsRunning sink id duration count sender w r))))
  handle_typed MsgType.enqueue sink iter sender w r e = rw e (
      Ensures-bind (Leaves n) (msg_iter_msg_id m iter) _ (λ id _.
        Ensures-bind (Leaves n) (msg_iter_enqueue_frame_idx m iter) _ (λ idx _.
          Ensures-bind (Leaves n) (msg_iter_enqueue_frame m iter) _
            (λ frame _. handle_enqueue-IsRunning sink id idx frame sender w r))))
  handle_typed MsgType.lent sink iter sender w r e = rw e (
      Ensures-bind (Leaves n) (msg_iter_msg_id m iter) _
        (λ id _. send_fail_to-IsRunning sink id 4 sender w r))
  handle_typed MsgType.fail sink iter sender w r e = rw e (
      Ensures-bind (Leaves n) (msg_iter_msg_id m iter) _
        (λ id _. send_fail_to-IsRunning sink id 4 sender w r))

  handle_msg-IsRunning :
      (sink : Sink) (iter : MsgIter) (sender : UdpEndpoint) (w : World)
      → IsRunning n sink
      → Ensures (Leaves n) (sink_handle_msg m sink iter sender w)
  unfolding sink_handle_msg
  handle_msg-IsRunning sink iter sender w r =
      Ensures-bind (Leaves n) (msg_iter_type iter) _
        (λ type e. rw (sink_handle_msg, e) at (handle_typed type sink iter sender w r e))

  handle_msgs-IsRunning :
      (fuel : ℕ) (sink : Sink) (iter : MsgIter) (sender : UdpEndpoint) (w : World)
      → IsRunning n sink
      → Ensures (Leaves n) (handle_msgs m fuel sink iter sender w)
  unfolding handle_msgs
  handle_msgs-IsRunning zero sink iter sender w r = elim (Bool-cases (msg_iter_has_msg iter)) [
    | inl more ↦ rw more tt
    | inr done ↦ rw done r
  ]
  handle_msgs-IsRunning (suc fuel) sink iter sender w r =
      elim (Bool-cases (msg_iter_has_msg iter)) [
        | inl more ↦ rw more (
            Ensures-bind (Leaves n) (sink_handle_msg m sink iter sender w) _ (λ x e.
              Ensures-bind (Leaves n) (msg_iter_next m iter) _ (λ next _.
                handle_msgs-IsRunning fuel x.0 next sender x.1 (
                  Ensures-ok (Leaves n) (sink_handle_msg m sink iter sender w) x e
                    (handle_msg-IsRunning sink iter sender w r)))))
        | inr done ↦ rw done r
      ]

  pub iterate_recv_buf-IsRunning :
      (sink : Sink) (received : ℕ) (sender : UdpEndpoint) (w : World)
      → IsRunning n sink
      → Ensures (Leaves n) (sink_iterate_recv_buf m sink received sender w)
  unfolding sink_iterate_recv_buf
  iterate_recv_buf-IsRunning sink received sender w r =
      handle_msgs-IsRunning received sink (msg_iter_make sink.recv_buf received) sender w r
