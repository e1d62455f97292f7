-- ===== src/Examples/Loop.antt =====
-- The loop of `paint` in src/examples/02-yellow.cpp, 03-sine.cpp and 04-complementary.cpp, and its length.
use Prim.Native.String.{String}
use atolla.Prelude.{
  ℕ, zero, suc, ◌+◌, ◌*◌, ◌≤◌, ◌<◌, ◌≡◌, refl, false, List, [], ◌∷◌, length, ltb, if◌then◌else◌,
  lt→ltb, le→ltb, arith, Result, ok, fault, out_of_fuel, ◌>>=◌,
}
use atolla.Machine.{Machine, HasMemory}
use atolla.World.{World, IsDatagramService}
use atolla.Source.State.{Source, SourceSpec}
use atolla.Source.Put.{atolla_source_put}
use atolla.Source.Hear.{Phase, HasPhase, IsWorking}
use atolla.Source.Hear.Turns.{Works}
use atolla.Source.Hear.Updates.{IsAnswer}
use atolla.Source.Hear.Calls.{Op, put, calls, HaveFrames, calls-Works}

abbrev pub frame_length_ms : ℕ
frame_length_ms = 17

abbrev pub max_buffered_frames : ℕ
max_buffered_frames = 50

-- What `run_source` asks for; 0 stands for a default.
abbrev pub example_spec : String → ℕ → SourceSpec
example_spec sink_hostname port = record {
  sink_hostname = sink_hostname;
  sink_port = port;
  frame_duration_ms = frame_length_ms;
  max_buffered_frames = max_buffered_frames;
  retry_timeout_ms = 0;
  disconnect_timeout_ms = 0;
  async_make = false;
}

-- The rounds from number `i` on, with fuel; the result of the call is not looked at.
unfoldable pub put_frames :
    Machine → (ℕ → List ℕ) → ℕ → ℕ → ℕ → Source → World → Result (Source × World)
put_frames m frame run_time_ms zero i s w =
    if ltb (i * frame_length_ms) run_time_ms then fault out_of_fuel else ok (s, w)
put_frames m frame run_time_ms (suc fuel) i s w =
    if ltb (i * frame_length_ms) run_time_ms
    then (do
      (_, s1, w1) ← atolla_source_put m s (frame i) w
      put_frames m frame run_time_ms fuel (i + 1) s1 w1)
    else ok (s, w)

-- The calls of `n` rounds.
abbrev pub puts : (ℕ → List ℕ) → ℕ → ℕ → List Op
puts frame i zero = []
puts frame i (suc n) = put (frame i) ∷ puts frame (i + 1) n

drop_then :
    {A : Type 0} (r : Result (A × Source × World)) (f g : Source × World → Result (Source × World))
    → ((s : Source) (w : World) → f (s, w) ≡ g (s, w))
    → (r >>= λ x. f (x.1, x.2)) ≡ ((r >>= λ x. ok (x.1, x.2)) >>= g)
drop_then (ok (x, s, w)) f g h = h s w
drop_then (fault e) f g h = refl

-- With fuel for each round, the loop is that many calls.
pub put_frames-calls :
    (m : Machine) (frame : ℕ → List ℕ) (run_time_ms n fuel i : ℕ) (s : Source) (w : World)
    → run_time_ms ≤ (i + n) * 17
    → (i + n) * 17 < run_time_ms + 17
    → n ≤ fuel
    → put_frames m frame run_time_ms fuel i s w ≡ calls m (puts frame i n) s w
unfolding put_frames
put_frames-calls m frame run_time_ms zero zero i s w long short enough =
    rw (le→ltb (i * 17) run_time_ms (omega arith))
put_frames-calls m frame run_time_ms zero (suc fuel) i s w long short enough =
    rw (le→ltb (i * 17) run_time_ms (omega arith))
put_frames-calls m frame run_time_ms (suc n) zero i s w long short enough = absurd (omega arith)
put_frames-calls m frame run_time_ms (suc n) (suc fuel) i s w long short enough =
    rw (lt→ltb (i * 17) run_time_ms (omega arith)) (
      drop_then (atolla_source_put m s (frame i) w)
        (λ x. put_frames m frame run_time_ms fuel (i + 1) x.0 x.1)
        (λ x. calls m (puts frame (i + 1) n) x.0 x.1)
        (λ s1 w1.
          put_frames-calls m frame run_time_ms n fuel (i + 1) s1 w1 (omega arith) (omega arith)
            (omega arith)))

puts-HaveFrames :
    (frame : ℕ → List ℕ) (n i : ℕ)
    → ((j : ℕ) → length (frame j) ≤ 65532)
    → HaveFrames (puts frame i n)
puts-HaveFrames frame zero i h = omega arith
puts-HaveFrames frame (suc n) i h = (h i, puts-HaveFrames frame n (i + 1) h)

-- The loop returns, and the source works on.
pub put_frames-Works :
    (m : Machine) (frame : ℕ → List ℕ) (run_time_ms n fuel : ℕ) (s : Source) (p : Phase) (w : World)
    → HasMemory m
    → run_time_ms ≤ n * 17
    → n * 17 < run_time_ms + 17
    → n ≤ fuel
    → ((j : ℕ) → length (frame j) ≤ 65532)
    → IsWorking s
    → HasPhase s p
    → IsDatagramService w
    → ((i : ℕ) → IsAnswer (w.incoming i))
    → Works s w p (put_frames m frame run_time_ms fuel 0 s w)
put_frames-Works m frame run_time_ms n fuel s p w mem long short enough small works has service
      answers =
    rw (put_frames-calls m frame run_time_ms n fuel 0 s w (omega arith) (omega arith) enough) (
      calls-Works m mem (puts frame 0 n) s p w works has service answers
        (puts-HaveFrames frame n 0 small))
