-- ===== src/Source/Put/Frame.antt =====
-- The message that atolla_source_put sends.
use atolla.Prelude.{
  ◌+◌, ◌%◌, refl, inl, inr, Bool-cases, ◌==◌, ℕ, ◌≤◌, ◌≡◌, true, false, List, length, none, arith,
  ok, if◌then◌else◌,
}
use atolla.Machine.{Machine, HasMemory}
use atolla.World.{World, time_now, IsDatagramService}
use atolla.Udp.Transfer.{udp_socket_send}
use atolla.Msg.Builder.{MsgBuilder}
use atolla.Msg.Packet.{enqueue_packet}
use atolla.Msg.Builder.Encode.{IsReady, enqueue-Assembles}
use atolla.Sink.Send.Replies.{after_send, is_done, Follows, send_to_lem}
use atolla.Source.State.{Source, null_time}
use atolla.Source.Put.{note_frame, send_frame}

-- What noting a frame keeps, and what it counts.
pub note_frame-counts :
    (source : Source) (w : World)
    → ((note_frame source w).1.sent ≡ w.sent)
      × ((note_frame source w).0.next_frame_idx ≡ (source.next_frame_idx + 1) % 256)
      × ((note_frame source w).0.state ≡ source.state)
unfolding note_frame time_now
note_frame-counts source w = elim (Bool-cases (source.last_frame_time == null_time)) [
  | inl first ↦ (rw first refl, rw first refl, rw first refl)
  | inr later ↦ (rw later refl, rw later refl, rw later refl)
]

-- Where no `malloc` fails, datagrams are sent whole, the source's builder owns its buffer and the
-- frame has at most 65532 bytes: send_frame hands the protocol's ENQUEUE message with the next frame
-- index to the system, for the receiver that is set, and answers whether the system sent it. If so the
-- frame is noted, and else only the builder has changed.
pub send_frame_lem :
    (m : Machine) (source : Source) (frame : List ℕ) (w : World)
    → HasMemory m
    → IsReady source.builder
    → IsDatagramService w
    → length frame ≤ 65532
    → let bytes = enqueue_packet source.builder.next_msg_id source.next_frame_idx frame in
      (b : MsgBuilder) × Follows source.builder b
      × (let s = record source { builder = b } in
          send_frame m source frame w ≡ (
            if is_done (w.outgoing w.send_calls (length bytes))
            then (let (s', w') = note_frame s (after_send w none bytes) in ok (true, s', w'))
            else ok (false, s, after_send w none bytes)))
unfolding send_frame udp_socket_send
send_frame_lem m source frame w mem ready service h =
    let id : ℕ = source.builder.next_msg_id in
    let (b, built, ready', shown, next) =
      enqueue-Assembles m source.builder mem ready source.next_frame_idx frame h in
    let (r, sent, answer) =
      send_to_lem source.sock (enqueue_packet id source.next_frame_idx frame) none w service
        (omega arith) in
    (b, (ready', next), rw (built, shown, sent, answer))
