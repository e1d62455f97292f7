-- ===== src/Sink/Run/CatchUp.antt =====
-- The loop of atolla_sink_get takes the pending frames in order, each one when it is due.
use atolla.Prelude.{
  ℕ, zero, suc, ◌+◌, ◌≤◌, ◌<◌, ◌≡◌, refl, true, false, ◌⊎◌, inl, inr, Bool-cases, List, [], ◌∷◌,
  length, drop, write_at, u32, sub_u32, arith, ok, overwrite_all, ltb,
}
use atolla.Mem.Block.{Ptr, into}
use atolla.Mem.Ring.{MemRing, mem_ring_dequeue}
use atolla.Mem.Ring.Fifo.{dequeue-Holds, dequeue-empty, length-head}
use atolla.Sink.State.{Sink}
use atolla.Sink.Valid.{IsValid, frame_size}
use atolla.Sink.Run.{catch_up}

-- The sink with its oldest pending frame taken into `current_frame`.
abbrev pub taken : Sink → MemRing → List ℕ → Sink
taken sink ring x = record sink {
  pending_frames = ring;
  current_frame = record sink.current_frame { bytes = into x 0 };
}

give_frame :
    (r ring : MemRing) {p : Ptr} {c k : ℕ} {cells x : List ℕ}
    → p ≡ into cells 0
    → c ≡ k
    → write_at 0 x cells ≡ x
    → mem_ring_dequeue r (into cells 0) k ≡ ok (true, ring, into (write_at 0 x cells) 0)
    → mem_ring_dequeue r p c ≡ ok (true, ring, into x 0)
give_frame r ring b cap whole got = rw (b, cap, got, whole)

-- The oldest pending frame gets to `current_frame`.
pub dequeue_step :
    (sink : Sink) (x : List ℕ) (queue : List (List ℕ))
    → IsValid sink (x ∷ queue)
    → (ring : MemRing) × (mem_ring_dequeue sink.pending_frames sink.current_frame.bytes
          sink.current_frame.capacity
        ≡ ok (true, ring, into x 0))
      × IsValid (taken sink ring x) queue
dequeue_step sink x queue v =
    let k : ℕ = frame_size sink in
    let (cells, b, len, cap) = v.current in
    let x_len : length x ≡ k = length-head k 128 sink.pending_frames x queue v.ring in
    let (ring, got, held) = dequeue-Holds k 128 x queue cells v.ring (omega (arith, len)) in
    let whole : write_at 0 x cells ≡ x = overwrite_all x cells (omega (arith, x_len, len)) in
    (
      ring,
      give_frame sink.pending_frames ring b cap whole got,
      record {
        lights = v.lights;
        small = v.small;
        ready = v.ready;
        buffer = v.buffer;
        current = (x, refl, x_len, cap);
        received = v.received;
        ring = held;
        index = v.index;
      },
    )

pub dequeue_nothing :
    (sink : Sink)
    → IsValid sink []
    → mem_ring_dequeue sink.pending_frames sink.current_frame.bytes sink.current_frame.capacity
      ≡ ok (false, sink.pending_frames, sink.current_frame.bytes)
dequeue_nothing sink v =
    let (cells, b, len, cap) = v.current in
    rw cap (dequeue-empty (frame_size sink) 128 sink.current_frame.bytes v.ring)

-- `current_frame` after `n` frames were taken into it.
abbrev pub last_taken : Ptr → List (List ℕ) → ℕ → Ptr
last_taken p queue zero = p
last_taken p [] (suc n) = p
last_taken p (x ∷ queue) (suc n) = last_taken (into x 0) queue n

-- The origin of time after `n` frames.
abbrev pub origin_after : ℕ → ℕ → ℕ → ℕ
origin_after duration origin zero = origin
origin_after duration origin (suc n) = origin_after duration (u32 (origin + duration)) n

-- The time has caught up to less than a frame, or the frames have run out.
abbrev pub IsCurrent : ℕ → Sink → List (List ℕ) → Type 0
IsCurrent t s rest = (sub_u32 t s.time_origin ≤ s.frame_duration_ms) ⊎ (rest ≡ [])

-- By that time each of `n` frames in turn was shown for longer than its duration, the first since the origin.
abbrev pub AreDue : ℕ → ℕ → ℕ → ℕ → Type 0
AreDue t duration origin zero = 0 ≤ 0
AreDue t duration origin (suc n) =
    (duration < sub_u32 t origin) × AreDue t duration (u32 (origin + duration)) n

-- What the loop of atolla_sink_get does: it takes the `n` oldest frames, each one when it is due, until the
-- time is caught up or no frame is left.
pub record CaughtUp (t : ℕ) (sink s : Sink) (queue : List (List ℕ)) (n : ℕ) : Type 0 where
  pub enough : n ≤ length queue
  pub valid : IsValid s (drop n queue)
  pub frame : s.current_frame.bytes ≡ last_taken sink.current_frame.bytes queue n
  pub origin : s.time_origin ≡ origin_after sink.frame_duration_ms sink.time_origin n
  pub due : AreDue t sink.frame_duration_ms sink.time_origin n
  pub now : IsCurrent t s (drop n queue)
  pub same : s ≡ record sink {
    pending_frames = s.pending_frames;
    current_frame = s.current_frame;
    time_origin = s.time_origin;
  }

takes_none :
    (t : ℕ) (sink : Sink) (queue : List (List ℕ))
    → IsValid sink queue
    → IsCurrent t sink queue
    → CaughtUp t sink sink queue 0
takes_none t sink queue v current = record {
  enough = omega arith;
  valid = v;
  frame = refl;
  origin = refl;
  due = omega arith;
  now = current;
  same = refl;
}

-- For a valid sink the loop of atolla_sink_get ends, with any fuel above the number of pending frames:
-- it takes the n oldest frames, each one when the frame before has been shown for longer than its
-- duration, until the time is caught up or no frame is left, and leaves a valid sink with the other
-- frames pending (CaughtUp).
pub catch_up_lem :
    (t : ℕ) (queue : List (List ℕ)) (fuel : ℕ) (sink : Sink)
    → IsValid sink queue
    → length queue < fuel
    → (s : Sink) × (n : ℕ) × (catch_up fuel t sink ≡ ok s) × CaughtUp t sink s queue n
unfolding catch_up
catch_up_lem t queue zero sink v f = absurd (omega arith)
catch_up_lem t [] (suc fuel) sink v f =
    elim (Bool-cases (ltb sink.frame_duration_ms (sub_u32 t sink.time_origin))) [
      | inl behind ↦
          (sink, 0, rw (behind, dequeue_nothing sink v), takes_none t sink [] v (inr refl))
      | inr on_time ↦ (sink, 0, rw on_time, takes_none t sink [] v (inl (ground arith)))
    ]
catch_up_lem t (x ∷ queue) (suc fuel) sink v f =
    elim (Bool-cases (ltb sink.frame_duration_ms (sub_u32 t sink.time_origin))) [
      | inl behind ↦
          let (ring, got, v') = dequeue_step sink x queue v in
          let sink' : Sink = record (taken sink ring x) {
            time_origin = u32 (sink.time_origin + sink.frame_duration_ms);
          } in
          let v'' : IsValid sink' queue = record {
            lights = v'.lights;
            small = v'.small;
            ready = v'.ready;
            buffer = v'.buffer;
            current = v'.current;
            received = v'.received;
            ring = v'.ring;
            index = v'.index;
          } in
          let (s, n, looped, c) = catch_up_lem t queue fuel sink' v'' (omega arith) in
          (
            s,
            suc n,
            rw (behind, got) looped,
            record {
              enough = omega (arith, c.enough);
              valid = c.valid;
              frame = c.frame;
              origin = c.origin;
              due = (ground arith, c.due);
              now = c.now;
              same = c.same;
            },
          )
      | inr on_time ↦ (sink, 0, rw on_time, takes_none t sink (x ∷ queue) v (inl (ground arith)))
    ]
