-- ===== src/Source/Hear/Updates.antt =====
-- source_update returns, and the phase turns as it may.
use atolla.Prelude.{
  ℕ, ◌+◌, ◌≤◌, ◌<◌, ◌≡◌, refl, ◌∙◌, inl, inr, Bool-cases, none, List, ◌∷◌, length, take, write_at,
  ltb, leb, sub_u32, arith, Result, ok, ◌>>=◌, length-write_at, slice-write_at_self, take_enough,
  lt→ltb, le→leb, ltb→lt, leb→le, ap,
}
use atolla.Machine.{Machine, HasMemory}
use atolla.World.{
  World, UdpEndpoint, Errno, Incoming, datagram, recv_failed, IsDatagramService, now, time_now,
}
use atolla.Udp.Results.{make_success_result}
use atolla.Udp.Transfer.{udp_socket_receive_from, received}
use atolla.Udp.Failures.{receive_error_lem}
use atolla.Msg.Packet.{borrow_packet}
use atolla.Msg.Iter.{msg_iter_make}
use atolla.Msg.Iter.Decode.{Shows}
use atolla.Sink.Send.Replies.{after_send}
use atolla.Source.State.{Source, timed_out_text, lost_text}
use atolla.Source.Update.{
  source_send_borrow, source_iterate_recv_buf, source_receive, source_manage_borrow_packet_loss,
  source_ensure_lent_resent, source_update,
}
use atolla.Source.Update.Branches.{
  manage-waiting, manage-opened, manage-failed, ensure-waiting, ensure-opened, ensure-failed,
}
use atolla.Source.Update.Borrow.{send_borrow_lem}
use atolla.Source.Hear.{
  Reply, reply_packets, Phase, asking, holding, gone, hear_all, HasPhase, HasPhase-same, IsWorking,
}
use atolla.Source.Hear.Turns.{
  misses, hears, gives_up, loses, stays, turns, quiet-Course, after_send-counts, GoesOn,
  HasWaited-GoesOn, GoesOn-trans, GoesOn-service, after_send-GoesOn, Works, Works-then, same_phase,
  gave_up, after_reading,
}
use atolla.Source.Hear.Datagrams.{
  Hears, Listens, HasWaited-refl, HasWaited-read, still_works, replies-Listens,
  length-reply_packets,
}

-- What may come from a sink: nothing, or a datagram of replies that the source's buffer has room for.
pub data IsAnswer : Incoming → Type 0 where
  nothing : (e : Errno) → IsAnswer (recv_failed e)
  replies :
      (e : UdpEndpoint) (r : Reply) (rs : List Reply)
      → length (reply_packets (r ∷ rs)) ≤ 32
      → IsAnswer (datagram e (reply_packets (r ∷ rs)))

pub clock_read : (w : World) → GoesOn w (time_now w).1
unfolding time_now
clock_read w = record { outgoing = refl; incoming = refl; clock = refl }

-- The buffer for datagrams has no times.
with_buffer :
    (s : Source) (buf : List ℕ) (w : World) (p : Phase) (rs : List Reply)
    (x : Result (Source × World))
    → Listens (record s { recv_buf = buf }) w p rs x
    → Listens s w p rs x
with_buffer s buf w p rs x (s', w', ran, works, has, waits, notes) = (
  s',
  w',
  ran,
  works,
  has,
  waits,
  record { lent = notes.lent; reads = notes.reads; first = notes.first; timeout = notes.timeout },
)

module _ (m : Machine) where
  -- The replies are heard with their times.
  pub receive-Listens :
      (s : Source) (p : Phase) (rs : List Reply) (e : UdpEndpoint) (w : World)
      → IsWorking s
      → HasPhase s p
      → w.incoming w.recv_calls ≡ datagram e (reply_packets rs)
      → 0 < length rs
      → length (reply_packets rs) ≤ 32
      → Listens s (record w { recv_calls = w.recv_calls + 1 }) p rs (source_receive m s w)
  unfolding source_receive udp_socket_receive_from received source_iterate_recv_buf msg_iter_make
      make_success_result
  receive-Listens s p rs e w works has came some_replies small =
      let bytes : List ℕ = reply_packets rs in
      let buf : List ℕ = write_at 0 bytes s.recv_buf in
      let all : take 32 bytes ≡ bytes = take_enough 32 bytes small in
      let room : length bytes ≤ length s.recv_buf = omega (arith, works.buffer) in
      let kept : length buf ≡ length s.recv_buf = length-write_at 0 bytes s.recv_buf in
      let shown : Shows buf 0 bytes = record {
        inside = omega (arith, kept, room);
        same = slice-write_at_self 0 bytes s.recv_buf (omega (arith, room));
      } in
      rw
        (
          came,
          all,
          lt→ltb 0 (length bytes) (omega (arith, length-reply_packets m buf rs)),
          le→leb (length bytes) (length s.recv_buf) room,
        )
        (with_buffer s buf (record w { recv_calls = w.recv_calls + 1 }) p rs _
          (replies-Listens m buf rs 0 (0 + length bytes) (length bytes) p
            (record s { recv_buf = buf }) (record w { recv_calls = w.recv_calls + 1 }) shown refl
            (length-reply_packets m buf rs) (still_works works works.ready (kept ∙ works.buffer))
            (HasPhase-same s (record s { recv_buf = buf }) p refl refl has)))

  -- For a source with its buffers and frames of at least 1 ms, in some phase, and a datagram of at
  -- most 32 bytes that consists of one LENT or FAIL message or more: source_receive returns, and the
  -- source is in the phase that hearing these replies in their order gives, with the text for the last
  -- failure. It still has its buffers, and of the surroundings only the clock was read.
  pub source_receive-Hears :
      (s : Source) (p : Phase) (rs : List Reply) (e : UdpEndpoint) (w : World)
      → IsWorking s
      → HasPhase s p
      → w.incoming w.recv_calls ≡ datagram e (reply_packets rs)
      → 0 < length rs
      → length (reply_packets rs) ≤ 32
      → Hears (record w { recv_calls = w.recv_calls + 1 }) (hear_all p rs) (source_receive m s w)
  source_receive-Hears s p rs e w works has came some_replies small =
      let (s', w', ran, works', has', waits, _) =
        receive-Listens s p rs e w works has came some_replies small in
      (s', w', ran, works', has', waits)

  pub receive_nothing :
      (s : Source) (w : World) (e : Errno)
      → w.incoming w.recv_calls ≡ recv_failed e
      → source_receive m s w ≡ ok (s, record w { recv_calls = w.recv_calls + 1; errno = e })
  unfolding source_receive udp_socket_receive_from received
  receive_nothing s w e came =
      let (r, failed, bad) = receive_error_lem e in rw (came, failed, bad) refl

  receive-Works :
      (i : Incoming) (s : Source) (p : Phase) (w : World)
      → w.incoming w.recv_calls ≡ i
      → IsAnswer i
      → IsWorking s
      → HasPhase s p
      → Works s w p (source_receive m s w)
  receive-Works i s p w came (nothing e) works has = rw (receive_nothing s w e came) (
    s,
    record w { recv_calls = w.recv_calls + 1; errno = e },
    p,
    refl,
    works,
    has,
    record { way = turns stays (misses e came refl); same = refl },
    record { outgoing = refl; incoming = refl; clock = refl },
  )
  receive-Works i s p w came (replies e r rs small) works has =
      let all : List Reply = r ∷ rs in
      let (s', w', ran, works', has', waits, notes) =
        receive-Listens s p all e w works has came (omega arith) small in
      let recvs : w'.recv_calls ≡ w.recv_calls + 1 = ap (λ (v : World). v.recv_calls) waits.0 in
      let on : GoesOn (record w { recv_calls = w.recv_calls + 1 }) w' =
        HasWaited-GoesOn _ w' waits in
      (
        s',
        w',
        hear_all p all,
        ran,
        works',
        has',
        record {
          way = turns stays (hears e r rs came (rw (notes.lent, notes.reads, recvs) refl));
          same = rw (on.incoming, on.clock, notes.timeout, notes.first) refl;
        },
        record { outgoing = on.outgoing; incoming = on.incoming; clock = on.clock },
      )

  module _ (mem : HasMemory m) where
    send_borrow-Works :
        (s : Source) (p : Phase) (w : World)
        → IsWorking s
        → HasPhase s p
        → IsDatagramService w
        → Works s w p (source_send_borrow m s w)
    unfolding time_now
    send_borrow-Works s p w works has service =
        let (b, ran, (ready, _)) = send_borrow_lem m s w mem works.ready service in
        let bytes : List ℕ =
          borrow_packet s.builder.next_msg_id s.frame_duration_ms s.max_buffered_frames in
        let asked : Source = record s { last_borrow_time = now w; builder = b } in
        let w1 : World = (time_now w).1 in
        let on : GoesOn w (after_send w1 none bytes) =
          GoesOn-trans w w1 _ (clock_read w) (after_send-GoesOn w1 bytes) in
        let counts = after_send-counts w1 bytes in
        (
          asked,
          after_send w1 none bytes,
          p,
          ran,
          still_works works ready works.buffer,
          HasPhase-same s asked p refl refl has,
          quiet-Course s p w asked (after_send w1 none bytes) refl refl refl on counts.0
              (omega (arith, counts.1)),
          on,
        )

    manage-Works :
        (p : Phase) (s : Source) (w : World)
        → IsWorking s
        → HasPhase s p
        → IsDatagramService w
        → Works s w p (source_manage_borrow_packet_loss m s w)
    unfolding time_now
    manage-Works asking s w works has service =
        rw (manage-waiting m s w has)
          (elim (Bool-cases (ltb s.disconnect_timeout_ms (sub_u32 (now w) s.first_borrow_time))) [
            | inl late ↦
                rw late
                  (gave_up s asking timed_out_text w works (gives_up refl (ltb→lt _ _ late) refl))
            | inr early ↦
                elim (Bool-cases (ltb s.retry_timeout_ms (sub_u32 (now w) s.last_borrow_time))) [
                  | inl again ↦
                      rw (early, again)
                        (after_reading s asking w (source_send_borrow m s (time_now w).1)
                          (send_borrow-Works s asking (time_now w).1 works has service))
                  | inr not_yet ↦
                      rw (early, not_yet)
                        (same_phase s asking w (time_now w).1 works has (HasWaited-read w))
                ]
          ])
    manage-Works holding s w works has service =
        rw (manage-opened m s w has) (same_phase s holding w w works has (HasWaited-refl w))
    manage-Works (gone text) s w works has service =
        rw (manage-failed m s w has.0) (same_phase s (gone text) w w works has (HasWaited-refl w))

    ensure-Works :
        (p : Phase) (s : Source) (w : World)
        → IsWorking s
        → HasPhase s p
        → Works s w p (source_ensure_lent_resent m s w)
    unfolding time_now
    ensure-Works asking s w works has =
        rw (ensure-waiting m s w has) (same_phase s asking w w works has (HasWaited-refl w))
    ensure-Works holding s w works has =
        rw (ensure-opened m s w has)
          (elim (Bool-cases (leb s.disconnect_timeout_ms (sub_u32 (now w) s.last_recv_lent_time))) [
            | inl late ↦
                rw late (gave_up s holding lost_text w works (loses refl (leb→le _ _ late) refl))
            | inr early ↦
                rw early (same_phase s holding w (time_now w).1 works has (HasWaited-read w))
          ])
    ensure-Works (gone text) s w works has =
        rw (ensure-failed m s w has.0) (same_phase s (gone text) w w works has (HasWaited-refl w))

    -- Both checks.
    pub checks-Works :
        (s : Source) (p : Phase) (w : World)
        → IsWorking s
        → HasPhase s p
        → IsDatagramService w
        → Works s w p
            (source_manage_borrow_packet_loss m s w >>= λ y. source_ensure_lent_resent m y.0 y.1)
    checks-Works s p w works has service =
        Works-then s w p (source_manage_borrow_packet_loss m s w)
          (λ y. source_ensure_lent_resent m y.0 y.1) (manage-Works p s w works has service)
          (λ s' w' q works' has' on. ensure-Works q s' w' works' has')

    -- The phase turns as it may, and the source works on.
    pub source_update-Works :
        (s : Source) (p : Phase) (w : World)
        → IsWorking s
        → HasPhase s p
        → IsDatagramService w
        → IsAnswer (w.incoming w.recv_calls)
        → Works s w p (source_update m s w)
    unfolding source_update
    source_update-Works s p w works has service answer =
        Works-then s w p (source_receive m s w)
          (λ x.
            source_manage_borrow_packet_loss m x.0 x.1 >>= λ y. source_ensure_lent_resent m y.0 y.1)
          (receive-Works (w.incoming w.recv_calls) s p w refl answer works has)
          (λ s1 w1 p1 works1 has1 on1.
            checks-Works s1 p1 w1 works1 has1 (GoesOn-service on1 service))
