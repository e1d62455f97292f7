-- ===== src/Source/Update/Borrow.antt =====
-- The BORROW messages of a source.
use atolla.Prelude.{◌+◌, ◌≡◌, none, arith, ok}
use atolla.Machine.{Machine, HasMemory}
use atolla.World.{World, IsDatagramService, now, time_now}
use atolla.Msg.Builder.{MsgBuilder}
use atolla.Msg.Builder.Encode.{IsReady, borrow-Assembles}
use atolla.Msg.Packet.{borrow_packet}
use atolla.Sink.Send.Replies.{after_send, Follows, send_to_lem}
use atolla.Source.State.{Source}
use atolla.Udp.Transfer.{udp_socket_send}
use atolla.Source.Update.{source_send_borrow}

module _ (m : Machine) (source : Source) (w : World) (mem : HasMemory m)
    (ready : IsReady source.builder) (service : IsDatagramService w) where
  -- The message is handed to the system, and its time noted.
  pub send_borrow_lem :
      (b : MsgBuilder) × (let w1 = record w { clock_calls = w.clock_calls + 1 } in
        source_send_borrow m source w
        ≡ ok (
          record source { last_borrow_time = now w; builder = b },
          after_send w1 none (
              borrow_packet source.builder.next_msg_id source.frame_duration_ms
                source.max_buffered_frames),
        ))
      × Follows source.builder b
  unfolding source_send_borrow time_now udp_socket_send
  send_borrow_lem =
      let (b, built, ready', shown, next) =
        borrow-Assembles m source.builder mem ready source.frame_duration_ms
          source.max_buffered_frames in
      let (r, sent, _) =
        send_to_lem source.sock
          (borrow_packet source.builder.next_msg_id source.frame_duration_ms
            source.max_buffered_frames)
          none (record w { clock_calls = w.clock_calls + 1 }) service (omega arith) in
      (b, rw (built, shown, sent), (ready', next))
