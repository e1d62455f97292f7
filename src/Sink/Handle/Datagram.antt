-- ===== src/Sink/Handle/Datagram.antt =====
-- A datagram of several messages: the loop of sink_iterate_recv_buf.
use atolla.Prelude.{
  ℕ, zero, suc, ◌+◌, ◌≤◌, ◌<◌, ◌≡◌, refl, ap, ◌∙◌, List, [], ◌∷◌, ◌++◌, length, u8, u16, arith,
  Result, ok, fault, ◌>>=◌, length-append, le→ltb, lt→ltb,
}
use atolla.Machine.{Machine}
use atolla.World.{World, UdpEndpoint}
use atolla.Mem.Uint16.{uint16_byte_low, uint16_byte_high}
use atolla.Msg.Packet.{borrow_packet, enqueue_packet}
use atolla.Msg.Iter.{msg_iter_make, msg_iter_has_msg, msg_iter_next}
use atolla.Msg.Iter.Decode.{Shows, iter_at, msg_id_lem, next_lem}
use atolla.Msg.Iter.Parts.{Shows-part, slice-left, slice-right}
use atolla.Msg.Iter.Fields.{borrow_fields, enqueue_fields}
use atolla.Sink.State.{Sink}
use atolla.Sink.Handle.{
  sink_handle_borrow, sink_handle_enqueue, sink_handle_msg, handle_msgs, sink_iterate_recv_buf,
}
use atolla.Sink.Handle.Enqueue.{frame_at}

-- What a source sends: the ID first.
pub data Request : Type 0 where
  borrowing : ℕ → ℕ → ℕ → Request
  enqueueing : ℕ → ℕ → List ℕ → Request

abbrev pub request_packet : Request → List ℕ
request_packet (borrowing id frame_length buffer_length) =
    borrow_packet id frame_length buffer_length
request_packet (enqueueing id frame_idx frame) = enqueue_packet id frame_idx frame

abbrev pub request_packets : List Request → List ℕ
request_packets [] = []
request_packets (r ∷ rs) = request_packet r ++ request_packets rs

-- A frame that the length of its message can count.
abbrev pub IsSendable : Request → Type 0
IsSendable (borrowing id frame_length buffer_length) = 0 ≤ id
IsSendable (enqueueing id frame_idx frame) = length frame ≤ 65532

abbrev pub AreSendable : List Request → Type 0
AreSendable [] = 0 ≤ 0
AreSendable (r ∷ rs) = IsSendable r × AreSendable rs

abbrev enqueue_payload : ℕ → List ℕ → List ℕ
enqueue_payload frame_idx frame =
    u8 frame_idx ∷ uint16_byte_low (length frame) ∷ uint16_byte_high (length frame) ∷ frame

module _ (m : Machine) (buf : List ℕ) (sender : UdpEndpoint) where
  -- A request whose packet lies at that offset of the buffer.
  abbrev pub run_request : ℕ → Request → Sink → World → Result (Sink × World)
  run_request at (borrowing id frame_length buffer_length) sink w =
      sink_handle_borrow m sink (u16 id) (u8 frame_length) (u8 buffer_length) sender w
  run_request at (enqueueing id frame_idx frame) sink w =
      sink_handle_enqueue m sink (u16 id) (u8 frame_idx) (frame_at buf (at + 5 + 3) frame) sender w

  -- One request after another; the first fault ends the run.
  abbrev pub run_requests : ℕ → List Request → Sink → World → Result (Sink × World)
  run_requests at [] sink w = ok (sink, w)
  run_requests at (r ∷ rs) sink w =
      run_request at r sink w >>= λ x. run_requests (at + length (request_packet r)) rs x.0 x.1

  handle_msg-request :
      (at stop : ℕ) (r : Request) (sink : Sink) (w : World)
      → Shows buf at (request_packet r)
      → at < stop
      → IsSendable r
      → sink_handle_msg m sink (iter_at buf at stop) sender w ≡ run_request at r sink w
  unfolding sink_handle_msg
  handle_msg-request at stop (borrowing id frame_length buffer_length) sink w shown live fits =
      let (type, first, second) =
        borrow_fields m buf at stop id live frame_length buffer_length shown in
      rw (
        type,
        msg_id_lem m buf at stop 0 id (u8 frame_length ∷ u8 buffer_length ∷ []) shown live
            (omega arith),
        first,
        second,
      )
  handle_msg-request at stop (enqueueing id frame_idx frame) sink w shown live fits =
      let (type, idx, block, _) = enqueue_fields m buf at stop id live frame_idx frame fits shown in
      rw (
        type,
        msg_id_lem m buf at stop 2 id (enqueue_payload frame_idx frame) shown live (omega arith),
        idx,
        block,
      )

  next-request :
      (at stop : ℕ) (r : Request)
      → Shows buf at (request_packet r)
      → at < stop
      → IsSendable r
      → msg_iter_next m (iter_at buf at stop)
        ≡ ok (iter_at buf (at + length (request_packet r)) stop)
  next-request at stop (borrowing id frame_length buffer_length) shown live fits =
      next_lem m buf at stop 0 id (u8 frame_length ∷ u8 buffer_length ∷ []) shown live (omega arith)
  next-request at stop (enqueueing id frame_idx frame) shown live fits =
      next_lem m buf at stop 2 id (enqueue_payload frame_idx frame) shown live (omega arith)
      ∙ ap (λ n. ok (iter_at buf (at + n) stop)) {x = 5 + length (enqueue_payload frame_idx frame)}
          {y = length (enqueue_packet id frame_idx frame)} (omega arith)

  some_bytes : (r : Request) → 0 < length (request_packet r)
  some_bytes (borrowing id frame_length buffer_length) = omega arith
  some_bytes (enqueueing id frame_idx frame) = omega arith

  then_cong :
      (r : Result (Sink × World)) (f g : Sink × World → Result (Sink × World))
      → ((s : Sink) (w : World) → f (s, w) ≡ g (s, w))
      → (r >>= f) ≡ (r >>= g)
  then_cong (ok (s, w)) f g h = h s w
  then_cong (fault e) f g h = refl

  handle_msgs-requests :
      (rs : List Request) (at stop fuel : ℕ) (sink : Sink) (w : World)
      → Shows buf at (request_packets rs)
      → AreSendable rs
      → stop ≡ at + length (request_packets rs)
      → length rs ≤ fuel
      → handle_msgs m fuel sink (iter_at buf at stop) sender w ≡ run_requests at rs sink w
  unfolding handle_msgs msg_iter_has_msg
  handle_msgs-requests [] at stop zero sink w shown fit end enough =
      rw (le→ltb at stop (omega arith))
  handle_msgs-requests [] at stop (suc fuel) sink w shown fit end enough =
      rw (le→ltb at stop (omega arith))
  handle_msgs-requests (r ∷ rs) at stop zero sink w shown fit end enough = absurd (omega arith)
  handle_msgs-requests (r ∷ rs) at stop (suc fuel) sink w shown (fits, fit) end enough =
      let first : List ℕ = request_packet r in
      let rest : List ℕ = request_packets rs in
      let whole : length (first ++ rest) ≡ length first + length rest = length-append first rest in
      let live : at < stop = omega (arith, whole, some_bytes r) in
      let shown_first : Shows buf at first =
        Shows-part at 0 first shown (omega arith) (omega (arith, whole)) (slice-left first rest) in
      let shown_rest : Shows buf (at + length first) rest =
        Shows-part (at + length first) (length first) rest shown refl (omega (arith, whole))
          (slice-right first rest) in
      rw
        (
          lt→ltb at stop live,
          handle_msg-request at stop r sink w shown_first live fits,
          next-request at stop r shown_first live fits,
        )
        (then_cong (run_request at r sink w) _ _ (λ s w'.
          handle_msgs-requests rs (at + length first) stop fuel s w' shown_rest fit
            (omega (arith, whole)) (omega arith)))

  pub length-request_packets : (rs : List Request) → length rs ≤ length (request_packets rs)
  length-request_packets [] = omega arith
  length-request_packets (r ∷ rs) = omega (
    arith,
    length-append (request_packet r) (request_packets rs),
    some_bytes r,
    length-request_packets rs,
  )

-- For a datagram that consists of BORROW and ENQUEUE messages one behind another, with frames of at
-- most 65532 bytes: sink_iterate_recv_buf gives each message to sink_handle_borrow or
-- sink_handle_enqueue in their order, with the fields that were sent, modulo the width of each, and
-- the frame at its place in the buffer, and returns what the last one leaves; the first fault ends it.
pub sink_iterate_recv_buf-requests :
    (m : Machine) (sink : Sink) (rs : List Request) (sender : UdpEndpoint) (w : World)
    → Shows sink.recv_buf 0 (request_packets rs)
    → AreSendable rs
    → sink_iterate_recv_buf m sink (length (request_packets rs)) sender w
      ≡ run_requests m sink.recv_buf sender 0 rs sink w
unfolding sink_iterate_recv_buf msg_iter_make
sink_iterate_recv_buf-requests m sink rs sender w shown fit =
    handle_msgs-requests m sink.recv_buf sender rs 0 (0 + length (request_packets rs))
      (length (request_packets rs)) sink w shown fit refl
      (length-request_packets m sink.recv_buf sender rs)
