-- ===== src/Tests/Pacing.antt =====
-- What a source may send and sends, at concrete values.
use atolla.Prelude.{◌≡◌, refl, arith, none, true, [], ◌∷◌, ok}
use atolla.Prelude.Int.{pos}
use atolla.Machine.{zeroed}
use atolla.Msg.Packet.{enqueue_packet}
use atolla.Source.Put.{ready_timeout}
use atolla.Source.Put.Pace.{CountAt, ready_timeout-waits}
use atolla.Source.Put.Whole.{put-sends}
use atolla.Source.Put.{atolla_source_put}
use atolla.Source.State.{Source, SourceState}
use atolla.World.{World}
use atolla.Tests.{
  zeroed-HasMemory, fresh_builder-IsReady, quiet, quiet-IsDatagramService, source_of,
}

ready_timeout-waits_example :
    (ready_timeout (source_of 4990) quiet ≡ ok (pos 10, record quiet { clock_calls = 2 }))
    × CountAt
        (source_of 4990)
        (record quiet { clock = λ i. record { tv_sec = 5; tv_nsec = 10000000 } })
        1
ready_timeout-waits_example =
    ready_timeout-waits (source_of 4990) quiet (record quiet { clock_calls = 1 })
      (record quiet { clock = λ i. record { tv_sec = 5; tv_nsec = 10000000 } }) refl (omega arith)
      (omega arith) (omega arith) refl (omega arith) refl (omega arith) refl

put-sends_example :
    (s' : Source) × (w' : World) × (atolla_source_put zeroed (source_of 4900) (1 ∷ 2 ∷ 3 ∷ []) quiet
      ≡ ok (true, s', w'))
    × (w'.sent ≡ record { to = none; bytes = enqueue_packet 7 255 (1 ∷ 2 ∷ 3 ∷ []) } ∷ [])
    × (s'.state ≡ SourceState.opened)
    × (s'.next_frame_idx ≡ 0)
put-sends_example =
    put-sends zeroed (source_of 4900) (1 ∷ 2 ∷ 3 ∷ []) quiet zeroed-HasMemory fresh_builder-IsReady
      quiet-IsDatagramService refl (omega arith) (λ i _. refl) (omega arith) (omega arith)
      (omega arith) (omega arith) refl

abbrev broken : Source
broken = record (source_of 4900) { state = SourceState.error }
