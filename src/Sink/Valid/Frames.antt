-- ===== src/Sink/Valid/Frames.antt =====
-- Frames of any content and length leave a sink valid.
use native.Mathlib.Decide.{dec_lt}
use atolla.Prelude.{
  ℕ, ◌-◌, zero, suc, ◌+◌, ◌≡◌, refl, ◌∙◌, Bool, Bool-cases, if◌then◌else◌, inl, inr, true, false,
  List, length, arith, Result, ◌>>=◌, Ensures, Ensures-bind, Ensures-ok, write_at, length-write_at,
  leb, ◌==◌,
}
use atolla.Prelude.Int.{pos, ltb_ℤ, ℤ, rem_ℤ, ◌+ℤ◌}
use atolla.Mem.Block.{Ptr, into, MemBlock, advance, load, store, refreshed}
use atolla.Mem.Ring.{mem_ring_enqueue, MemRing}
use atolla.Mem.Ring.Fifo.{Holds, enqueue-Holds, enqueue-full}
use atolla.Sink.State.{Sink}
use atolla.Sink.Valid.{IsValid, IsIndex, frame_size}
use atolla.Sink.Valid.Running.{IsRunning}
use atolla.Sink.Pattern.{fill_from, fill_with_pattern, bounded_diff}
use atolla.Sink.Pattern.Diff.{IsIndex-next}
use atolla.Sink.Handle.{sink_enqueue, enqueue_loop, take_frame, enqueue_fuel}

-- A pointer to the start of an object of `k` cells.
abbrev pub IsBuffer : ℕ → Ptr → Type 0
IsBuffer k p = (cells : List ℕ) × (p ≡ into cells 0) × (length cells ≡ k)

store-IsBuffer :
    (cells bytes : List ℕ) (off k : ℕ)
    → length cells ≡ k
    → Ensures (λ p. IsBuffer k (refreshed (into cells 0) p)) (store (into cells off) bytes)
unfolding store refreshed
store-IsBuffer cells bytes off k len = elim (Bool-cases (leb (off + length bytes) (length cells))) [
  | inl fits ↦ rw fits (write_at off bytes cells, refl, length-write_at off bytes cells ∙ len)
  | inr out ↦ rw out tt
]

module _ (pattern : Ptr) (len k : ℕ) where
  -- A round of the loop: what is copied goes inside of the object.
  copied :
      (cells : List ℕ) (off n : ℕ) (go : Ptr → Result Ptr)
      → length cells ≡ k
      → ((p : Ptr) → IsBuffer k p → Ensures (IsBuffer k) (go p))
      → Ensures (IsBuffer k) (
          load pattern n >>= λ bytes.
          store (advance (into cells 0) off) bytes >>= λ p. go (refreshed (into cells 0) p))
  copied cells off n go size rest = Ensures-bind (IsBuffer k) (load pattern n) _ (λ bytes _.
      Ensures-bind (IsBuffer k) (store (into cells (0 + off)) bytes) _ (λ p e.
        rest (refreshed (into cells 0) p) (
          Ensures-ok (λ q. IsBuffer k (refreshed (into cells 0) q))
            (store (into cells (0 + off)) bytes) p e
            (store-IsBuffer cells bytes (0 + off) k size))))

  fill_from-IsBuffer :
      (fuel off n : ℕ) (p : Ptr)
      → IsBuffer k p
      → Ensures (IsBuffer k) (fill_from fuel p off n pattern len)
  unfolding fill_from
  fill_from-IsBuffer zero off n p (cells, e, size) = elim (Bool-cases (n == 0)) [
    | inl all ↦ rw (all, e) (cells, refl, size)
    | inr more ↦ rw more tt
  ]
  fill_from-IsBuffer (suc fuel) off n p (cells, e, size) = elim (Bool-cases (n == 0)) [
    | inl all ↦ rw (all, e) (cells, refl, size)
    | inr more ↦ elim (Bool-cases (leb n len)) [
      | inl last ↦
          rw (more, last, e)
            (copied cells off n (λ q. fill_from fuel q off 0 pattern len) size
              (fill_from-IsBuffer fuel off 0))
      | inr round ↦
          rw (more, round, e)
            (copied cells off len (λ q. fill_from fuel q (off + len) (n - len) pattern len) size
              (fill_from-IsBuffer fuel (off + len) (n - len)))
    ]
  ]

  fill-IsBuffer :
      (n : ℕ) (p : Ptr) → IsBuffer k p → Ensures (IsBuffer k) (fill_with_pattern p n pattern len)
  unfolding fill_with_pattern
  fill-IsBuffer n p buffer = elim (Bool-cases (n == 0)) [
    | inl nothing ↦ rw nothing buffer
    | inr some_bytes ↦ elim (Bool-cases (len == 0)) [
      | inl empty ↦ rw (some_bytes, empty) buffer
      | inr full ↦ rw (some_bytes, full) (fill_from-IsBuffer n 0 n p buffer)
    ]
  ]

-- mem_ring_enqueue of a whole block into a ring that holds a queue.
enqueue-Holds_some :
    (k c : ℕ) (ring : MemRing) (queue : List (List ℕ)) (p : Ptr)
    → Holds k 128 ring queue
    → IsBuffer k p
    → c ≡ k
    → Ensures (λ x. (q : List (List ℕ)) × Holds k 128 x.1 q) (mem_ring_enqueue ring p c)
enqueue-Holds_some k c ring queue p h (cells, at, len) size =
    rw (size, at)
      (elim (dec_lt (length queue) 128) [
        | yes room ↦
            let (ring', put, held) =
              enqueue-Holds k 128 queue cells 0 h room (omega (arith, len)) in
            rw put (_, held)
        | no full ↦
            rw (enqueue-full k 128 queue (into cells 0) h (omega (arith, h.bounded, full)))
              (queue, h)
      ])

-- The index after a frame that the ring took, or did not.
rem-IsIndex : (d : Bool) (i : ℤ) → IsIndex i → IsIndex (if d then rem_ℤ (i +ℤ pos 1) 256 else i)
rem-IsIndex true i h = IsIndex-next i h
rem-IsIndex false i h = h

module _ (n : ℕ) (frame : MemBlock) where
  sink_enqueue-IsRunning :
      (sink : Sink) → IsRunning n sink → Ensures (IsRunning n) (sink_enqueue sink frame)
  unfolding sink_enqueue
  sink_enqueue-IsRunning sink r =
      let v : IsValid sink r.queue = r.valid in
      let k : ℕ = frame_size sink in
      let (cells, at, len, cap) = v.received in
      let fill : Result Ptr =
        fill_with_pattern sink.received_frame.bytes sink.received_frame.capacity frame.bytes
          frame.size in
      Ensures-bind (IsRunning n) fill _ (λ received e.
        let filled : IsBuffer k received = Ensures-ok (IsBuffer k) fill received e (
          fill-IsBuffer frame.bytes frame.size k sink.received_frame.capacity
            sink.received_frame.bytes (cells, at, len)) in
        let put : Result (Bool × MemRing) =
          mem_ring_enqueue sink.pending_frames received sink.received_frame.capacity in
        Ensures-bind (IsRunning n) put _ (λ x e'.
          let (q, held) =
            Ensures-ok (λ y. (q : List (List ℕ)) × Holds k 128 y.1 q) put x e'
              (enqueue-Holds_some k sink.received_frame.capacity sink.pending_frames r.queue
                received v.ring filled cap) in
          record {
            queue = q;
            valid = record {
              lights = v.lights;
              small = v.small;
              ready = v.ready;
              buffer = v.buffer;
              current = v.current;
              received = (filled.0, filled.1, filled.2, cap);
              ring = held;
              index = rem-IsIndex x.0 sink.last_enqueued_frame_idx v.index;
            };
            lights = r.lights;
            live = r.live;
          }))

  enqueue_loop-IsRunning :
      (fuel : ℕ) (sink : Sink) (idx : ℕ) (diff : ℤ)
      → IsRunning n sink
      → Ensures (IsRunning n) (enqueue_loop fuel sink frame idx diff)
  unfolding enqueue_loop
  enqueue_loop-IsRunning zero sink idx diff r = elim (Bool-cases (ltb_ℤ (pos 0) diff)) [
    | inl more ↦ rw more tt
    | inr there ↦ rw there r
  ]
  enqueue_loop-IsRunning (suc fuel) sink idx diff r = elim (Bool-cases (ltb_ℤ (pos 0) diff)) [
    | inl more ↦ rw more (
        Ensures-bind (IsRunning n) (sink_enqueue sink frame) _ (λ s e.
          enqueue_loop-IsRunning fuel s idx _ (
            Ensures-ok (IsRunning n) (sink_enqueue sink frame) s e
              (sink_enqueue-IsRunning sink r))))
    | inr there ↦ rw there r
  ]

  pub take_frame-IsRunning :
      (sink : Sink) (idx : ℕ) → IsRunning n sink → Ensures (IsRunning n) (take_frame sink idx frame)
  unfolding take_frame
  take_frame-IsRunning sink idx r =
      elim (Bool-cases
        (ltb_ℤ (pos 128) (bounded_diff sink.last_enqueued_frame_idx (pos idx) (pos 256)))) [
          | inl late ↦ rw late r
          | inr ahead ↦ rw ahead (enqueue_loop-IsRunning enqueue_fuel sink idx _ r)
        ]
