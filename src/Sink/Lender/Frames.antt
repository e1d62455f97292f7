-- ===== src/Sink/Lender/Frames.antt =====
-- The frames of a source: take_frame does what a lender does.
use native.Mathlib.Decide.{dec_lt}
use atolla.Prelude.{
  ℕ, zero, suc, ◌+◌, ◌≤◌, ◌<◌, ◌≡◌, refl, Option, none, some, List, [], ◌∷◌, ◌++◌, length,
  length-append, lt→ltb, le→ltb, arith, fault, out_of_fuel,
}
use atolla.Prelude.Int.{pos}
use atolla.Msg.Iter.Decode.{Shows}
use atolla.Sink.State.{Sink}
use atolla.Sink.Valid.{IsValid, frame_size}
use atolla.Sink.Pattern.{bounded_diff}
use atolla.Sink.Pattern.Cyclic.{cyclic}
use atolla.Sink.Pattern.Diff.{bounded_diff-next_index, bounded_diff-first}
use atolla.Sink.Handle.{enqueue_loop, take_frame}
use atolla.Sink.Handle.Enqueue.{frame_at, sink_enqueue-room, enqueue_loop-full}
use atolla.Sink.Lender.{as_index, ahead}

-- The two ways to count how far an index is ahead.
pub bounded_diff-ahead :
    (i : Option ℕ) (b : ℕ)
    → b < 256
    → ((a : ℕ) → i ≡ some a → a < 256)
    → bounded_diff (as_index i) (pos b) (pos 256) ≡ pos (ahead i b)
unfolding bounded_diff
bounded_diff-ahead none b h k = bounded_diff-first b
bounded_diff-ahead (some a) b h k = let below : a < 256 = k a refl in ground arith

module _ (buf : List ℕ) (at : ℕ) (p : List ℕ) (shown : Shows buf at p)
    (some_bytes : 0 < length p) where
  -- Without room for each index, the ring fills up and the loop goes on.
  enqueue_loop-overflow :
      (d fuel : ℕ) (sink : Sink) (queue : List (List ℕ)) (b : ℕ)
      → IsValid sink queue
      → b < 256
      → bounded_diff sink.last_enqueued_frame_idx (pos b) (pos 256) ≡ pos d
      → length queue ≤ 128
      → 128 < length queue + d
      → enqueue_loop fuel sink (frame_at buf at p) b (pos d) ≡ fault out_of_fuel
  unfolding enqueue_loop
  enqueue_loop-overflow zero fuel sink queue b v k e small over = absurd (omega arith)
  enqueue_loop-overflow (suc d) zero sink queue b v k e small over =
      rw (lt→ltb (0 + 0) (suc d + 0) (omega arith))
  enqueue_loop-overflow (suc d) (suc fuel) sink queue b v k e small over =
      elim (dec_lt (length queue) 128) [
        | no full ↦
            enqueue_loop-full buf at p shown some_bytes d (suc fuel) sink queue b v
              (omega (arith, full)) e
        | yes room ↦
            let frame : List ℕ = cyclic p (frame_size sink) in
            let (s, put, v', idx, takes) =
              sink_enqueue-room buf at p shown some_bytes sink queue v room in
            let next : bounded_diff s.last_enqueued_frame_idx (pos b) (pos 256) ≡ pos d =
              rw idx (bounded_diff-next_index sink.last_enqueued_frame_idx b d v.index k e) in
            let more : length (queue ++ (frame ∷ [])) ≡ length queue + 1 =
              length-append queue (frame ∷ []) in
            rw (lt→ltb (0 + 0) (suc d + 0) (omega arith), put, next)
              (enqueue_loop-overflow d fuel s (queue ++ (frame ∷ [])) b v' k next
                (omega (arith, more)) (omega (arith, more)))
      ]

  -- With more frames to append than there is room for, take_frame does not end.
  pub take_frame-overflow :
      (d : ℕ) (sink : Sink) (queue : List (List ℕ)) (b : ℕ)
      → IsValid sink queue
      → b < 256
      → bounded_diff sink.last_enqueued_frame_idx (pos b) (pos 256) ≡ pos d
      → d ≤ 128
      → 128 < length queue + d
      → take_frame sink b (frame_at buf at p) ≡ fault out_of_fuel
  unfolding take_frame
  take_frame-overflow d sink queue b v k e small over =
      rw (e, le→ltb (128 + 0) (d + 0) (omega arith))
        (enqueue_loop-overflow d 129 sink queue b v k e v.ring.bounded over)
