-- ===== src/Tests/Messages.antt =====
-- Messages assembled and read at concrete values.
use atolla.Prelude.{
  ℕ, ◌<◌, ◌≡◌, refl, arith, List, [], ◌∷◌, ok, replicate, length, length-replicate,
}
use atolla.Machine.{zeroed}
use atolla.Mem.Uint16.{uint16_byte_low, uint16_byte_high}
use atolla.Mem.Block.{into, load}
use atolla.Msg.Kind.{MsgType}
use atolla.Msg.Builder.{msg_builder_enqueue}
use atolla.Msg.Builder.Encode.{Assembles, enqueue-Assembles}
use atolla.Msg.Iter.{msg_iter_type, msg_iter_enqueue_frame_idx, msg_iter_enqueue_frame}
use atolla.Msg.Iter.Decode.{iter_at}
use atolla.Msg.Iter.Fields.{enqueue_fields}
use atolla.Tests.{zeroed-HasMemory, fresh_builder, fresh_builder-IsReady}

enqueue-Assembles_example :
    Assembles fresh_builder
      (msg_builder_enqueue zeroed fresh_builder 255 (1 ∷ 2 ∷ 3 ∷ []))
      (2 ∷ 7 ∷ 0 ∷ 6 ∷ 0 ∷ 255 ∷ 3 ∷ 0 ∷ 1 ∷ 2 ∷ 3 ∷ [])
unfolding uint16_byte_low uint16_byte_high
enqueue-Assembles_example =
    enqueue-Assembles zeroed fresh_builder zeroed-HasMemory fresh_builder-IsReady 255
      (1 ∷ 2 ∷ 3 ∷ []) (omega arith)

too_long : 65532 < length (replicate {A = ℕ} 65533 0)
too_long = omega (arith, length-replicate {A = ℕ} 65533 0)

-- A datagram with an enqueue message behind a byte of another.
abbrev enqueued : List ℕ
enqueued = 1 ∷ 2 ∷ 7 ∷ 0 ∷ 6 ∷ 0 ∷ 255 ∷ 3 ∷ 0 ∷ 4 ∷ 5 ∷ 6 ∷ []

abbrev borrowing : List ℕ
borrowing = 0 ∷ 7 ∷ 0 ∷ 2 ∷ 0 ∷ 17 ∷ 16 ∷ []

abbrev failing : List ℕ
failing = 255 ∷ 7 ∷ 0 ∷ 3 ∷ 0 ∷ 1 ∷ 2 ∷ 3 ∷ []

enqueue_fields_example :
    (msg_iter_type (iter_at enqueued 1 12) ≡ ok MsgType.enqueue)
    × (msg_iter_enqueue_frame_idx zeroed (iter_at enqueued 1 12) ≡ ok 255)
    × (msg_iter_enqueue_frame zeroed (iter_at enqueued 1 12)
        ≡ ok (record { bytes = into enqueued 9; size = 3; capacity = 3 }))
    × (load (into enqueued 9) 3 ≡ ok (4 ∷ 5 ∷ 6 ∷ []))
unfolding uint16_byte_low uint16_byte_high
enqueue_fields_example =
    enqueue_fields zeroed enqueued 1 12 7 (omega arith) 255 (4 ∷ 5 ∷ 6 ∷ []) (omega arith)
      (record { inside = omega arith; same = refl })
