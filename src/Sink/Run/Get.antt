-- ===== src/Sink/Run/Get.antt =====
-- atolla_sink_get shows the pending frames in order.
use atolla.Prelude.{
  ℕ, ◌+◌, ◌≤◌, ◌<◌, ◌≡◌, refl, ◌∙◌, false, some, none, List, [], ◌∷◌, length, drop, write_at, arith,
  ok, ◌>>=◌, sym, subst, take_all, ◌==◌,
}
use atolla.World.{World, now, time_now}
use atolla.Mem.Block.{Ptr, into}
use atolla.Mem.Ring.Fifo.{length-head}
use atolla.Sink.State.{Sink, SinkState, null_time}
use atolla.Sink.Valid.{IsValid, frame_size}
use atolla.Sink.Pattern.{fill_with_pattern}
use atolla.Sink.Pattern.Cyclic.{cyclic, fill_with_pattern_lem}
use atolla.Sink.Run.{catch_up, show_frame, get_first, atolla_sink_get}
use atolla.Sink.Run.CatchUp.{taken, dequeue_step, dequeue_nothing, CaughtUp, catch_up_lem}

show_with :
    {p : Ptr} {c : ℕ} (x out : List ℕ) (n : ℕ)
    → p ≡ into x 0
    → c ≡ length x
    → 0 < length x
    → n ≤ length out
    → fill_with_pattern (into out 0) n p c ≡ ok (into (write_at 0 (cyclic x n) out) 0)
show_with x out n b cap some_bytes h =
    rw (b, cap) (fill_with_pattern_lem x 0 x some_bytes (omega arith) (take_all x) out n h)

-- A frame that is shown: repeated, or cut, to the size of the caller's buffer.
pub show_frame_lem :
    (sink : Sink) (queue : List (List ℕ)) (v : IsValid sink queue) (out : List ℕ) (n : ℕ)
    → n ≤ length out
    → show_frame sink (into out 0) n ≡ ok (some (into (write_at 0 (cyclic v.current.0 n) out) 0))
unfolding show_frame
show_frame_lem sink queue v out n h =
    let (x, b, len, cap) = v.current in
    rw (show_with x out n b (cap ∙ sym len) (omega (arith, len, v.lights)) h)

later_get :
    (sink : Sink) (out : Ptr) (frame_len : ℕ) (w : World)
    → sink.state ≡ SinkState.lent
    → (sink.time_origin == null_time) ≡ false
    → atolla_sink_get sink out frame_len w ≡ (
        catch_up 129 (now w) sink >>= λ s.
        show_frame s out frame_len >>= λ p. ok (p, s, record w { clock_calls = w.clock_calls + 1 }))
unfolding atolla_sink_get time_now
later_get sink out frame_len w held later = ground arith

first_get :
    (sink : Sink) (out : Ptr) (frame_len : ℕ) (w : World)
    → sink.state ≡ SinkState.lent
    → sink.time_origin ≡ null_time
    → atolla_sink_get sink out frame_len w ≡ get_first sink out frame_len w
unfolding atolla_sink_get time_now
first_get sink out frame_len w held first = ground arith

module _ (sink : Sink) (queue : List (List ℕ)) (out : List ℕ) (frame_len : ℕ) (w : World)
    (lent : sink.state ≡ SinkState.lent) (room : frame_len ≤ length out) where
  -- For a valid lent sink whose origin of time is set, and a caller's buffer of at least `frame_len`
  -- bytes: atolla_sink_get returns. It has taken the n oldest frames, in order, each one when the
  -- frame before had been shown for longer than its duration, until the time was caught up or no frame
  -- was left (CaughtUp), and writes the last of these, or the frame shown before, repeated to
  -- `frame_len` bytes, to the caller's buffer. It reads the clock once.
  pub get-later :
      IsValid sink queue
      → (sink.time_origin == null_time) ≡ false
      → (s : Sink) × (n : ℕ) × (v : IsValid s (drop n queue)) × CaughtUp (now w) sink s queue n
        × (atolla_sink_get sink (into out 0) frame_len w
            ≡ ok (
              some (into (write_at 0 (cyclic v.current.0 frame_len) out) 0),
              s,
              record w { clock_calls = w.clock_calls + 1 },
            ))
  get-later v later =
      let (s, n, looped, c) =
        catch_up_lem (now w) queue 129 sink v (omega (arith, v.ring.bounded)) in
      (
        s,
        n,
        c.valid,
        c,
        later_get sink (into out 0) frame_len w lent later
            ∙ rw (looped, show_frame_lem s (drop n queue) c.valid out frame_len room),
      )

  -- For a valid lent sink with the frame x pending first and no origin of time yet, and a caller's
  -- buffer of at least `frame_len` bytes: atolla_sink_get takes x, makes the time of the clock the
  -- origin, and writes x, repeated to `frame_len` bytes, to the caller's buffer. The sink stays valid
  -- with the other frames pending.
  pub get-first :
      (x : List ℕ) (rest : List (List ℕ))
      → queue ≡ x ∷ rest
      → IsValid sink queue
      → sink.time_origin ≡ null_time
      → (s : Sink) × IsValid s rest
        × (s.time_origin ≡ now w)
        × (atolla_sink_get sink (into out 0) frame_len w
            ≡ ok (
              some (into (write_at 0 (cyclic x frame_len) out) 0),
              s,
              record w { clock_calls = w.clock_calls + 1 },
            ))
  unfolding get_first time_now
  get-first x rest e v first =
      let u : IsValid sink (x ∷ rest) = subst (IsValid sink) e v in
      let (ring, got, v') = dequeue_step sink x rest u in
      let x_len : length x ≡ frame_size sink =
        length-head (frame_size sink) 128 sink.pending_frames x rest u.ring in
      let v'' : IsValid (taken sink ring x) rest = record {
        lights = v'.lights;
        small = v'.small;
        ready = v'.ready;
        buffer = v'.buffer;
        current = (x, refl, x_len, v.current.3);
        received = v'.received;
        ring = v'.ring;
        index = v'.index;
      } in
      (
        record (taken sink ring x) { time_origin = now w },
        record {
          lights = v'.lights;
          small = v'.small;
          ready = v'.ready;
          buffer = v'.buffer;
          current = v''.current;
          received = v'.received;
          ring = v'.ring;
          index = v'.index;
        },
        refl,
        first_get sink (into out 0) frame_len w lent first
            ∙ rw (got, show_frame_lem (taken sink ring x) rest v'' out frame_len room),
      )

  -- With none pending it shows nothing, and nothing changes.
  pub get-nothing :
      queue ≡ []
      → IsValid sink queue
      → sink.time_origin ≡ null_time
      → atolla_sink_get sink (into out 0) frame_len w ≡ ok (none, sink, w)
  unfolding get_first
  get-nothing e v first =
      first_get sink (into out 0) frame_len w lent first
      ∙ rw (dequeue_nothing sink (subst (IsValid sink) e v))
