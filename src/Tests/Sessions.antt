-- ===== src/Tests/Sessions.antt =====
-- A source and a sink that talk to each other, and colours, at concrete values.
use atolla.Prelude.{ℕ, ◌≡◌, ◌≢◌, refl, arith, inl, none, some, true, List, [], ◌∷◌, ok, replicate}
use atolla.Prelude.Int.{negsuc, pos}
use atolla.Machine.{zeroed}
use atolla.World.{World, datagram}
use atolla.Udp.Endpoint.{udp_endpoint_equal}
use atolla.Mem.Block.{into}
use atolla.Mem.Ring.Slots.{slot_ring}
use atolla.Msg.Packet.{lent_packet, borrow_packet, enqueue_packet}
use atolla.Sink.State.{Sink, SinkState}
use atolla.Sink.Valid.{IsValid}
use atolla.Sink.Valid.Running.{IsRunning}
use atolla.Sink.Pattern.{bounded_diff}
use atolla.Sink.Run.{atolla_sink_state, atolla_sink_get}
use atolla.Source.State.{Source, SourceState, null_time}
use atolla.Source.Update.{source_update}
use atolla.Source.Put.{send_frame}
use atolla.Session.Handshake.{HasSent, IsLentTo, handshake}
use atolla.Session.Delivery.{delivery}
use atolla.Session.Shown.{delivered-shows}
use atolla.Colors.{HsvColor, hsv_to_rgb}
use atolla.Colors.Bounds.{IsWithin, hsv_to_rgb-IsWithin}
use atolla.Tests.{
  zeroed-HasMemory, fresh_builder-IsReady, home, stranger, quiet, quiet-IsDatagramService, sink_of,
  sink_of-IsValid, source_of, empty-Holds,
}

abbrev free_strip : Sink
free_strip = sink_of SinkState.opened (slot_ring 3 128 0 0 (replicate 384 0)) null_time

opened_not_error : SinkState.opened ≢ SinkState.error
opened_not_error e = cc

free_strip-IsRunning : IsRunning 1 free_strip
free_strip-IsRunning = record {
  queue = [];
  valid =
      sink_of-IsValid SinkState.opened (slot_ring 3 128 0 0 (replicate 384 0)) null_time []
        empty-Holds;
  lights = refl;
  live = opened_not_error;
}

abbrev asking_source : Source
asking_source = record (source_of null_time) {
  state = SourceState.waiting;
  first_borrow_time = 4800;
  last_borrow_time = 4800;
}

-- What comes to the sink, and then to the source.
abbrev at_sink : World
at_sink = record quiet { incoming = λ i. datagram home (borrow_packet 7 20 16) }

abbrev at_source : World
at_source = record quiet { incoming = λ i. datagram stranger (lent_packet 7) }

handshake_example :
    (asks : Source) × (w' : World) × (source_update zeroed asking_source quiet ≡ ok (asks, w'))
    × HasSent quiet w' (record { to = none; bytes = borrow_packet 7 20 16 })
    × (lends : Sink) × (v' : World) × (atolla_sink_state zeroed free_strip at_sink
        ≡ ok (SinkState.lent, lends, v'))
    × IsRunning 1 lends
    × IsLentTo lends home 20
    × HasSent at_sink v' (record { to = some home; bytes = lent_packet 7 })
    × (opens : Source) × (u' : World) × (source_update zeroed asks at_source ≡ ok (opens, u'))
    × (opens.state ≡ SourceState.opened)
handshake_example =
    handshake zeroed zeroed-HasMemory asking_source quiet 1 free_strip free_strip-IsRunning at_sink
      at_source home stranger fresh_builder-IsReady quiet-IsDatagramService quiet-IsDatagramService
      refl refl refl (omega arith) (omega arith) refl (inl refl) (omega arith) (omega arith)
      (omega arith) refl refl (omega arith) refl (omega arith)

-- A sink that is lent, with nothing pending.
abbrev lent_strip : Sink
lent_strip = sink_of SinkState.lent (slot_ring 3 128 0 0 (replicate 384 0)) null_time

lent_strip-IsValid : IsValid lent_strip []
lent_strip-IsValid =
    sink_of-IsValid SinkState.lent (slot_ring 3 128 0 0 (replicate 384 0)) null_time [] empty-Holds

abbrev red : List ℕ
red = 255 ∷ 0 ∷ 0 ∷ []

abbrev putting : Source
putting = record (source_of 4900) { next_frame_idx = 0 }

abbrev frame_comes : World
frame_comes = record quiet { incoming = λ i. datagram home (enqueue_packet 7 0 red) }

from_home : udp_endpoint_equal home home ≡ true
unfolding udp_endpoint_equal
from_home = refl

one_ahead : bounded_diff (negsuc 0) (pos 0) (pos 256) ≡ pos 1
unfolding bounded_diff
one_ahead = refl

delivery_example :
    (puts : Source) × (w' : World) × (send_frame zeroed putting red quiet ≡ ok (true, puts, w'))
    × HasSent quiet w' (record { to = none; bytes = enqueue_packet 7 0 red })
    × (puts.next_frame_idx ≡ 1)
    × (takes : Sink) × (v' : World) × (atolla_sink_state zeroed lent_strip frame_comes
        ≡ ok (SinkState.lent, takes, v'))
    × IsValid takes (red ∷ [])
    × (takes.last_enqueued_frame_idx ≡ pos 0)
    × (v'.sent ≡ [])
delivery_example =
    delivery zeroed zeroed-HasMemory putting red quiet lent_strip frame_comes home 1 []
      lent_strip-IsValid fresh_builder-IsReady quiet-IsDatagramService (omega arith) (omega arith)
      refl refl refl from_home one_ahead (omega arith) (omega arith) (omega arith)

delivered-shows_example :
    (takes : Sink) × (v' : World) × (atolla_sink_state zeroed lent_strip frame_comes
      ≡ ok (SinkState.lent, takes, v'))
    × (shows : Sink) × IsValid shows []
    × (shows.time_origin ≡ 5000)
    × (atolla_sink_get takes (into (0 ∷ 0 ∷ 0 ∷ []) 0) 3 quiet
        ≡ ok (some (into red 0), shows, record quiet { clock_calls = 1 }))
delivered-shows_example =
    delivered-shows zeroed zeroed-HasMemory lent_strip lent_strip-IsValid home 7 0 red frame_comes
      quiet (0 ∷ 0 ∷ 0 ∷ []) refl refl from_home refl (omega arith) (omega arith) one_ahead
      (omega arith) (omega arith)

abbrev violet : HsvColor
violet = record { h = 200; s = 255; v = 100 }

hsv_to_rgb-IsWithin_example : IsWithin 100 (hsv_to_rgb violet)
hsv_to_rgb-IsWithin_example = hsv_to_rgb-IsWithin violet (omega arith, omega arith, omega arith)
