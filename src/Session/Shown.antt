-- ===== src/Session/Shown.antt =====
-- A frame from end to end: what the sink shows of it.
use atolla.Prelude.{
  ℕ, ◌+◌, ◌≤◌, ◌≡◌, refl, ◌∙◌, ap, sym, true, some, List, [], ◌∷◌, length, ok, arith, u8, sub_u32,
  take_all, write_at,
}
use atolla.Prelude.Int.{pos}
use atolla.Machine.{Machine, HasMemory}
use atolla.World.{World, UdpEndpoint, datagram, now}
use atolla.Udp.Endpoint.{udp_endpoint_equal}
use atolla.Msg.Packet.{enqueue_packet}
use atolla.Sink.State.{Sink, SinkState, null_time}
use atolla.Sink.Valid.{IsValid, frame_size}
use atolla.Sink.Pattern.{bounded_diff}
use atolla.Sink.Pattern.Cyclic.{cyclic, cyclic_from-slice, length-cyclic_from}
use atolla.Sink.Run.{atolla_sink_state, atolla_sink_get}
use atolla.Sink.Run.Get.{get-first}
use atolla.Mem.Block.{into}
use atolla.Session.Delivery.{state-takes}

module _ (m : Machine) (mem : HasMemory m) (sink : Sink) (valid : IsValid sink [])
    (home : UdpEndpoint) (id idx : ℕ) (frame : List ℕ) (v u : World) (out : List ℕ) where
  -- Where no `malloc` fails, for a frame of 3 to 1016 bytes whose ENQUEUE message comes to a valid
  -- sink with nothing pending and no origin of time, which is lent to its sender and one index behind,
  -- at most 500 ms after the sink's last LENT message: after atolla_sink_state, atolla_sink_get of a
  -- frame of the sink's size into a buffer that has room for it writes exactly this frame, repeated to
  -- that size, makes the time of the clock the origin, and leaves a valid sink with nothing pending.
  pub delivered-shows :
      v.incoming v.recv_calls ≡ datagram home (enqueue_packet id idx frame)
      → sink.state ≡ SinkState.lent
      → udp_endpoint_equal home sink.borrower_endpoint ≡ true
      → sink.time_origin ≡ null_time
      → 3 ≤ length frame
      → length frame ≤ 1016
      → bounded_diff sink.last_enqueued_frame_idx (pos (u8 idx)) (pos 256) ≡ pos 1
      → sub_u32 (now (record v { clock_calls = v.clock_calls + 1 })) sink.last_send_lent_time ≤ 500
      → frame_size sink ≤ length out
      → (takes : Sink) × (v' : World) × (atolla_sink_state m sink v
          ≡ ok (SinkState.lent, takes, v'))
        × (shows : Sink) × IsValid shows []
        × (shows.time_origin ≡ now u)
        × (atolla_sink_get takes (into out 0) (frame_size sink) u
            ≡ ok (
              some (into (write_at 0 (cyclic frame (frame_size sink)) out) 0),
              shows,
              record u { clock_calls = u.clock_calls + 1 },
            ))
  delivered-shows came held same fresh long short ahead soon room =
      let (s, took, v', at, takes) =
        state-takes m mem sink [] valid home id idx 1 frame v came held same long short ahead
          (omega arith) (omega arith) soon in
      let k : ℕ = frame_size sink in
      let x : List ℕ = cyclic frame k in
      let lent : s.state ≡ SinkState.lent = ap (λ (t : Sink). t.state) takes ∙ held in
      let origin : s.time_origin ≡ null_time = ap (λ (t : Sink). t.time_origin) takes ∙ fresh in
      let (shows, shown, now, got) = get-first s (x ∷ []) out k u lent room x [] refl v' origin in
      let size : length x ≡ k = length-cyclic_from frame 0 k in
      let again : cyclic x k ≡ x =
        ap (cyclic x) (sym size) ∙ cyclic_from-slice x 0 (length x) (omega arith) ∙ take_all x in
      (s, _, took, shows, shown, now, rw again at got)
