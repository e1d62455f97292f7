-- ===== src/Session/Handshake.antt =====
-- A borrow from end to end: the source's message, the sink's answer, and what the source makes of it.
use native.Mathlib.Nat.{mod-eq_of_lt}
use atolla.Prelude.{
  ℕ, ◌+◌, ◌≤◌, ◌<◌, ◌≡◌, refl, ◌∙◌, false, none, some, List, [], ◌∷◌, ◌++◌, length, ok, arith, ltb,
  le→ltb, u8, u16, sub_u32, length-write_at, Ensures-ok,
}
use atolla.Machine.{Machine, HasMemory}
use atolla.World.{World, UdpEndpoint, Packet, datagram, done, now, time_now, IsDatagramService}
use atolla.Msg.Packet.{borrow_packet, lent_packet}
use atolla.Msg.Builder.Encode.{IsReady}
use atolla.Source.State.{Source, SourceState}
use atolla.Source.Update.{source_update}
use atolla.Source.Update.States.{IsSilent, update-retries, update-lent_opens}
use atolla.Sink.State.{Sink, SinkState}
use atolla.Sink.Handle.Borrow.{MayBorrow, granted, borrow-granted}
use atolla.Sink.Handle.Datagram.{Request, borrowing}
use atolla.Sink.Run.{sink_receive, sink_update, atolla_sink_state}
use atolla.Sink.Run.Receive.{filled, sink_receive-requests}
use atolla.Sink.Valid.Running.{IsRunning, with_buffer}
use atolla.Sink.Valid.Calls.{atolla_sink_state-IsRunning, Gives}
use atolla.Sink.Run.Branches.{sink_send-lent, atolla_sink_state-live}

-- One more datagram was sent.
abbrev pub HasSent : World → World → Packet → Type 0
HasSent w w' p = w'.sent ≡ w.sent ++ (p ∷ [])

-- The sink is lent to that endpoint, for frames of that duration.
abbrev pub IsLentTo : Sink → UdpEndpoint → ℕ → Type 0
IsLentTo sink borrower duration =
    (sink.state ≡ SinkState.lent)
    × (sink.borrower_endpoint ≡ borrower)
    × (sink.frame_duration_ms ≡ duration)

module _ (m : Machine) (mem : HasMemory m) (n : ℕ) (sink : Sink) (r : IsRunning n sink)
    (sender : UdpEndpoint) (id duration count : ℕ) (v : World) (service : IsDatagramService v) where
  abbrev asked : List Request
  asked = borrowing id duration count ∷ []

  -- After the answer: one datagram came, one went.
  abbrev after_grant : World
  after_grant = record v {
    recv_calls = v.recv_calls + 1;
    send_calls = v.send_calls + 1;
    sent =
        v.sent ++ (record { to = some sender; bytes = lent_packet sink.builder.next_msg_id } ∷ []);
    clock_calls = v.clock_calls + 1;
  }

  receive_borrow :
      v.incoming v.recv_calls ≡ datagram sender (borrow_packet id duration count)
      → MayBorrow sink sender
      → 10 ≤ duration
      → duration ≤ 255
      → count ≤ 128
      → v.outgoing v.send_calls 5 ≡ done 5
      → (s : Sink) × (sink_receive m sink v
          ≡ ok (s, record after_grant { clock_calls = v.clock_calls + 1 + 1 }))
        × IsLentTo s sender duration
        × (s.last_send_lent_time ≡ now v)
  unfolding time_now
  receive_borrow came may long short few sent =
      let buf : List ℕ = filled sink asked in
      let r1 : IsRunning n (record sink { recv_buf = buf }) =
        with_buffer buf r
          (length-write_at 0 (borrow_packet id duration count) sink.recv_buf ∙ r.valid.buffer) in
      let long_mod : u8 duration ≡ duration = mod-eq_of_lt {n = duration} {m = 256} (omega arith) in
      let few_mod : u8 count ≡ count = mod-eq_of_lt {n = count} {m = 256} (omega arith) in
      let (b, grant, follows) =
        borrow-granted m (record sink { recv_buf = buf }) r1.queue
          (record v { recv_calls = v.recv_calls + 1 }) mem r1.valid service (u16 id) (u8 duration)
          (u8 count) sender may (omega (arith, few_mod)) (omega (arith, long_mod)) in
      (
        record (granted (record sink { recv_buf = buf }) (u8 duration) sender) {
          builder = b;
          last_send_lent_time = now v;
          last_recv_time = now (record v { clock_calls = v.clock_calls + 1 });
        },
        sink_receive-requests m sink asked sender v came (omega arith) (omega arith)
              (omega arith, omega arith) r.valid.buffer
            ∙ rw (rw sent at grant) refl,
        (refl, refl, long_mod),
        refl,
      )

  -- The borrow that the sink grants, through the whole call.
  pub state-grants :
      v.incoming v.recv_calls ≡ datagram sender (borrow_packet id duration count)
      → MayBorrow sink sender
      → 10 ≤ duration
      → duration ≤ 255
      → count ≤ 128
      → v.outgoing v.send_calls 5 ≡ done 5
      → sub_u32 (now (record v { clock_calls = v.clock_calls + 1 + 1 })) (now v) ≤ 500
      → (s : Sink) × (v' : World) × (atolla_sink_state m sink v ≡ ok (SinkState.lent, s, v'))
        × IsRunning n s
        × IsLentTo s sender duration
        × HasSent v v' (record { to = some sender; bytes = lent_packet sink.builder.next_msg_id })
  unfolding sink_update time_now
  state-grants came may long short few sent soon =
      let (s, got, lent, time) = receive_borrow came may long short few sent in
      let w1 : World = record after_grant { clock_calls = v.clock_calls + 1 + 1 } in
      let quiet : ltb 500 (sub_u32 (now w1) s.last_send_lent_time) ≡ false =
        rw time (le→ltb _ _ soon) in
      let call : atolla_sink_state m sink v ≡ ok (SinkState.lent, s, (time_now w1).1) =
        atolla_sink_state-live m sink v r.live
        ∙ rw (got, sink_send-lent m s w1 lent.0, quiet, lent.0) refl in
      (
        s,
        (time_now w1).1,
        call,
        Ensures-ok (Gives m mem n) (atolla_sink_state m sink v) (SinkState.lent, s, (time_now w1).1)
            call (atolla_sink_state-IsRunning m mem n sink v r),
        lent,
        refl,
      )

module _ (m : Machine) (mem : HasMemory m) (source : Source) (w : World) (n : ℕ) (sink : Sink)
    (r : IsRunning n sink) (v u : World) (home far : UdpEndpoint) where
  -- Where no `malloc` fails and datagrams are sent whole: a waiting source with a buffer of 32 bytes,
  -- whose builder owns its own, that receives nothing, before its disconnect timeout and after its
  -- retry timeout, with a frame duration from 10 to 255 ms and at most 128 frames, sends a BORROW
  -- message with source_update. If that datagram comes to a running sink, from an endpoint that may
  -- borrow it, and is answered, by a clock that passes at most 500 ms, then atolla_sink_state reports
  -- that the sink is lent; it runs on, is lent to that endpoint for frames of the source's duration,
  -- and has sent it a LENT message. If this one comes to the source, before another disconnect timeout
  -- passes in the call, then source_update leaves the source open.
  pub handshake :
      IsReady source.builder
      → IsDatagramService w
      → IsDatagramService v
      → source.state ≡ SourceState.waiting
      → length source.recv_buf ≡ 32
      → IsSilent w
      → sub_u32 (now w) source.first_borrow_time ≤ source.disconnect_timeout_ms
      → source.retry_timeout_ms < sub_u32 (now w) source.last_borrow_time
      → w.outgoing w.send_calls 7 ≡ done 7
      → MayBorrow sink home
      → 10 ≤ source.frame_duration_ms
      → source.frame_duration_ms ≤ 255
      → source.max_buffered_frames ≤ 128
      → v.incoming v.recv_calls
        ≡ datagram home (
            borrow_packet source.builder.next_msg_id source.frame_duration_ms
              source.max_buffered_frames)
      → v.outgoing v.send_calls 5 ≡ done 5
      → sub_u32 (now (record v { clock_calls = v.clock_calls + 1 + 1 })) (now v) ≤ 500
      → u.incoming u.recv_calls ≡ datagram far (lent_packet sink.builder.next_msg_id)
      → sub_u32 (now (record u { clock_calls = u.clock_calls + 1 })) (now u)
        < source.disconnect_timeout_ms
      → (asks : Source) × (w' : World) × (source_update m source w ≡ ok (asks, w'))
        × HasSent w w' (record {
          to = none;
          bytes =
              borrow_packet source.builder.next_msg_id source.frame_duration_ms
                source.max_buffered_frames;
        })
        × (lends : Sink) × (v' : World) × (atolla_sink_state m sink v
            ≡ ok (SinkState.lent, lends, v'))
        × IsRunning n lends
        × IsLentTo lends home source.frame_duration_ms
        × HasSent v v' (record { to = some home; bytes = lent_packet sink.builder.next_msg_id })
        × (opens : Source) × (u' : World) × (source_update m asks u ≡ ok (opens, u'))
        × (opens.state ≡ SourceState.opened)
  handshake ready service service' waiting size silent early late out may long short few came
        answered soon replied quick =
      let id : ℕ = source.builder.next_msg_id in
      let duration : ℕ = source.frame_duration_ms in
      let (b, asked, _) = update-retries m source w mem ready service waiting silent early late in
      let asks : Source = record source {
        builder = b;
        last_borrow_time = now (record w { clock_calls = w.clock_calls + 1 });
      } in
      let (lends, v', granted, running, lent, sent) =
        state-grants m mem n sink r home id duration source.max_buffered_frames v service' came may
          long short few answered soon in
      (
        asks,
        _,
        asked,
        rw out refl,
        lends,
        v',
        granted,
        running,
        lent,
        sent,
        _,
        _,
        update-lent_opens m asks u far sink.builder.next_msg_id waiting replied size quick,
        refl,
      )
