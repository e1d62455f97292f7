-- ===== src/Sink/Handle/Enqueue.antt =====
-- The frames of enqueue messages go to the ring, once for each index that they count on.
use mathlib.Core.List.{append_assoc, append-nil}
use atolla.Prelude.{
  ℕ, zero, suc, ◌+◌, ◌≤◌, ◌<◌, ◌≡◌, refl, ◌∙◌, ap, true, false, List, [], ◌∷◌, ◌++◌, length, slice,
  replicate, write_at, arith, ok, fault, out_of_fuel, length-append, length-write_at,
  slice-write_at_self, lt→ltb, le→ltb,
}
use atolla.Prelude.Int.{pos}
use atolla.Mem.Block.{into, MemBlock}
use atolla.Mem.Ring.{mem_ring_enqueue}
use atolla.Mem.Ring.Fifo.{enqueue-Holds, enqueue-full}
use atolla.Msg.Iter.Decode.{Shows}
use atolla.Sink.State.{Sink}
use atolla.Sink.Valid.{IsValid, IsFrame, frame_size}
use atolla.Sink.Pattern.{fill_with_pattern, bounded_diff}
use atolla.Sink.Pattern.Cyclic.{cyclic, length-cyclic_from, fill_with_pattern_lem}
use atolla.Sink.Pattern.Diff.{next_index, IsIndex-next, bounded_diff-next_index, bounded_diff-zero}
use atolla.Sink.Handle.{sink_enqueue, enqueue_loop, take_frame}

-- A frame as it lies in the buffer that a datagram came to.
abbrev pub frame_at : List ℕ → ℕ → List ℕ → MemBlock
frame_at buf at p = record { bytes = into buf at; size = length p; capacity = length p }

-- Only what an enqueue message is for has changed.
abbrev pub Takes : Sink → Sink → Type 0
Takes s s' = s' ≡ record s {
  received_frame = s'.received_frame;
  pending_frames = s'.pending_frames;
  last_enqueued_frame_idx = s'.last_enqueued_frame_idx;
}

Takes-trans : (r s t : Sink) → Takes r s → Takes s t → Takes r t
Takes-trans r s t rs st =
    st
    ∙ ap
        (λ (u : Sink). record u {
          received_frame = t.received_frame;
          pending_frames = t.pending_frames;
          last_enqueued_frame_idx = t.last_enqueued_frame_idx;
        })
        rs

module _ (buf : List ℕ) (at : ℕ) (p : List ℕ) (shown : Shows buf at p)
    (some_bytes : 0 < length p) where
  -- The frame, repeated to the size of the sink's frames, gets to `received_frame`.
  filled :
      (sink : Sink) (queue : List (List ℕ)) (v : IsValid sink queue)
      → fill_with_pattern sink.received_frame.bytes sink.received_frame.capacity
          (into buf at)
          (length p)
        ≡ ok (into (write_at 0 (cyclic p (frame_size sink)) v.received.0) 0)
  filled sink queue v =
      let (cells, b, len, cap) = v.received in
      rw (b, cap)
        (fill_with_pattern_lem buf at p some_bytes shown.inside shown.same cells (frame_size sink)
          (omega (arith, len)))

  read_back :
      (sink : Sink) (queue : List (List ℕ)) (v : IsValid sink queue)
      → slice 0 (frame_size sink) (write_at 0 (cyclic p (frame_size sink)) v.received.0)
        ≡ cyclic p (frame_size sink)
  read_back sink queue v =
      let (cells, b, len, cap) = v.received in
      let k : ℕ = frame_size sink in
      let n : length (cyclic p k) ≡ k = length-cyclic_from p 0 k in
      rw n at (slice-write_at_self 0 (cyclic p k) cells (omega (arith, n, len)))

  -- `received_frame` after that is still a frame.
  received-IsFrame :
      (sink : Sink) (queue : List (List ℕ)) (v : IsValid sink queue)
      → IsFrame (frame_size sink) (record sink.received_frame {
        bytes = into (write_at 0 (cyclic p (frame_size sink)) v.received.0) 0;
      })
  received-IsFrame sink queue v =
      let (cells, b, len, cap) = v.received in
      let new : List ℕ = write_at 0 (cyclic p (frame_size sink)) cells in
      (new, refl, length-write_at 0 (cyclic p (frame_size sink)) cells ∙ len, cap)

  -- With room, sink_enqueue appends the frame, repeated to size, and counts the index on.
  pub sink_enqueue-room :
      (sink : Sink) (queue : List (List ℕ))
      → IsValid sink queue
      → length queue < 128
      → (s : Sink) × (sink_enqueue sink (frame_at buf at p) ≡ ok s)
        × IsValid s (queue ++ (cyclic p (frame_size sink) ∷ []))
        × (s.last_enqueued_frame_idx ≡ next_index sink.last_enqueued_frame_idx)
        × Takes sink s
  unfolding sink_enqueue
  sink_enqueue-room sink queue v room =
      let k : ℕ = frame_size sink in
      let new : List ℕ = write_at 0 (cyclic p k) v.received.0 in
      let len : length new ≡ k = length-write_at 0 (cyclic p k) v.received.0 ∙ v.received.2 in
      let (ring, put, held) = enqueue-Holds k 128 queue new 0 v.ring room (omega (arith, len)) in
      let put' : mem_ring_enqueue sink.pending_frames (into new 0) sink.received_frame.capacity
          ≡ ok (true, ring) =
        rw v.received.3 put in
      (
        record sink {
          received_frame = record sink.received_frame { bytes = into new 0 };
          pending_frames = ring;
          last_enqueued_frame_idx = next_index sink.last_enqueued_frame_idx;
        },
        rw (filled sink queue v, put'),
        record {
          lights = v.lights;
          small = v.small;
          ready = v.ready;
          buffer = v.buffer;
          current = v.current;
          received = received-IsFrame sink queue v;
          ring = rw (read_back sink queue v) at held;
          index = IsIndex-next sink.last_enqueued_frame_idx v.index;
        },
        refl,
        refl,
      )

  -- Without, it changes only the block that the frame is put together in.
  pub sink_enqueue-full :
      (sink : Sink) (queue : List (List ℕ))
      → IsValid sink queue
      → length queue ≡ 128
      → (s : Sink) × (sink_enqueue sink (frame_at buf at p) ≡ ok s)
        × IsValid s queue
        × (s.last_enqueued_frame_idx ≡ sink.last_enqueued_frame_idx)
        × Takes sink s
  unfolding sink_enqueue
  sink_enqueue-full sink queue v full =
      let k : ℕ = frame_size sink in
      let new : List ℕ = write_at 0 (cyclic p k) v.received.0 in
      let put : mem_ring_enqueue sink.pending_frames (into new 0) sink.received_frame.capacity
          ≡ ok (false, sink.pending_frames) =
        rw v.received.3 (enqueue-full k 128 queue (into new 0) v.ring full) in
      (
        record sink { received_frame = record sink.received_frame { bytes = into new 0 } },
        rw (filled sink queue v, put),
        record {
          lights = v.lights;
          small = v.small;
          ready = v.ready;
          buffer = v.buffer;
          current = v.current;
          received = received-IsFrame sink queue v;
          ring = v.ring;
          index = v.index;
        },
        refl,
        refl,
      )

  -- The loop appends the frame once for each index up to that of the message, and is then at that index.
  enqueue_loop-room :
      (d fuel : ℕ) (sink : Sink) (queue : List (List ℕ)) (b : ℕ)
      → IsValid sink queue
      → b < 256
      → bounded_diff sink.last_enqueued_frame_idx (pos b) (pos 256) ≡ pos d
      → d < fuel
      → length queue + d ≤ 128
      → (s : Sink) × (enqueue_loop fuel sink (frame_at buf at p) b (pos d) ≡ ok s)
        × IsValid s (queue ++ replicate d (cyclic p (frame_size sink)))
        × (s.last_enqueued_frame_idx ≡ pos b)
        × Takes sink s
  unfolding enqueue_loop
  enqueue_loop-room d zero sink queue b v k e f room = absurd (omega arith)
  enqueue_loop-room zero (suc fuel) sink queue b v k e f room = (
    sink,
    refl,
    rw (append-nil queue) v,
    bounded_diff-zero sink.last_enqueued_frame_idx b v.index k e,
    refl,
  )
  enqueue_loop-room (suc d) (suc fuel) sink queue b v k e f room =
      let frame : List ℕ = cyclic p (frame_size sink) in
      let (s, put, v', idx, takes) = sink_enqueue-room sink queue v (omega arith) in
      let next : bounded_diff s.last_enqueued_frame_idx (pos b) (pos 256) ≡ pos d =
        rw idx (bounded_diff-next_index sink.last_enqueued_frame_idx b d v.index k e) in
      let more : length (queue ++ (frame ∷ [])) ≡ length queue + 1 =
        length-append queue (frame ∷ []) in
      let (s', looped, v'', idx', takes') =
        enqueue_loop-room d fuel s (queue ++ (frame ∷ [])) b v' k next (omega arith)
          (omega (arith, more)) in
      let same : s.lights_count ≡ sink.lights_count = ap (λ (t : Sink). t.lights_count) takes in
      (
        s',
        rw (lt→ltb (0 + 0) (suc d + 0) (omega arith), put, next) looped,
        rw (same, append_assoc queue (frame ∷ []) (replicate d frame)) at v'',
        idx',
        Takes-trans sink s s' takes takes',
      )

  -- For a valid sink and a frame of at least one byte in a datagram's buffer, whose index below 256 is
  -- `d` ahead of the sink's, with d at most 128 and room for d frames: take_frame appends the frame,
  -- repeated to the size of the sink's frames, d times, so that it also stands for the frames that got
  -- lost. The sink stays valid, its index is that of the message, and nothing else changes but the
  -- block that the frame is put together in.
  pub take_frame-room :
      (d : ℕ) (sink : Sink) (queue : List (List ℕ)) (b : ℕ)
      → IsValid sink queue
      → b < 256
      → bounded_diff sink.last_enqueued_frame_idx (pos b) (pos 256) ≡ pos d
      → d ≤ 128
      → length queue + d ≤ 128
      → (s : Sink) × (take_frame sink b (frame_at buf at p) ≡ ok s)
        × IsValid s (queue ++ replicate d (cyclic p (frame_size sink)))
        × (s.last_enqueued_frame_idx ≡ pos b)
        × Takes sink s
  unfolding take_frame
  take_frame-room d sink queue b v k e h room =
      rw (e, le→ltb (128 + 0) (d + 0) (omega arith))
        (enqueue_loop-room d 129 sink queue b v k e (omega arith) room)

  -- For a valid sink with 128 frames pending, a frame of at least one byte in a datagram's buffer, and
  -- an index ahead of the sink's, the loop of sink_handle_enqueue runs out of any fuel it is given.
  pub enqueue_loop-full :
      (d fuel : ℕ) (sink : Sink) (queue : List (List ℕ)) (b : ℕ)
      → IsValid sink queue
      → length queue ≡ 128
      → bounded_diff sink.last_enqueued_frame_idx (pos b) (pos 256) ≡ pos (suc d)
      → enqueue_loop fuel sink (frame_at buf at p) b (pos (suc d)) ≡ fault out_of_fuel
  unfolding enqueue_loop
  enqueue_loop-full d zero sink queue b v full e = rw (lt→ltb (0 + 0) (suc d + 0) (omega arith))
  enqueue_loop-full d (suc fuel) sink queue b v full e =
      let (s, put, v', idx, takes) = sink_enqueue-full sink queue v full in
      let next : bounded_diff s.last_enqueued_frame_idx (pos b) (pos 256) ≡ pos (suc d) =
        rw idx e in
      rw (lt→ltb (0 + 0) (suc d + 0) (omega arith), put, next)
        (enqueue_loop-full d fuel s queue b v' full next)

-- A frame more than 128 ahead is taken for one that comes late: nothing changes.
pub take_frame-late :
    (sink : Sink) (b d : ℕ) (frame : MemBlock)
    → bounded_diff sink.last_enqueued_frame_idx (pos b) (pos 256) ≡ pos d
    → 128 < d
    → take_frame sink b frame ≡ ok sink
unfolding take_frame
take_frame-late sink b d frame e h = rw (e, lt→ltb (128 + 0) (d + 0) (omega arith))
