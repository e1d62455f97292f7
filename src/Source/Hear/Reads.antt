-- ===== src/Source/Hear/Reads.antt =====
-- The numbers that a source works out from the clock.
use atolla.Prelude.{
  ◌+◌, ◌≡◌, refl, ◌∙◌, inl, inr, Bool-cases, if◌then◌else◌, ◌==◌, arith, Result, ok,
}
use atolla.Prelude.Int.{ℤ, pos, negsuc}
use atolla.Machine.{Machine}
use atolla.World.{World}
use atolla.Source.State.{Source, SourceState, null_time}
use atolla.Source.Put.{frames_behind, ready_count, ready_timeout}
use atolla.Source.Put.Whole.{behind_returns, ready_timeout-returns}
use atolla.Source.Hear.Datagrams.{HasWaited-refl, HasWaited-read}
use atolla.Source.Hear.{Phase, asking, holding, gone, HasPhase, IsWorking, HasWaited}

-- The branches for a source that is not open.
timeout-waiting :
    (s : Source) (w : World) → s.state ≡ SourceState.waiting → ready_timeout s w ≡ ok (negsuc 0, w)
unfolding ready_timeout
timeout-waiting s w e = ground arith

timeout-failed :
    (s : Source) (w : World) → s.state ≡ SourceState.error → ready_timeout s w ≡ ok (negsuc 0, w)
unfolding ready_timeout
timeout-failed s w e = ground arith

count-waiting :
    (s : Source) (w : World) → s.state ≡ SourceState.waiting → ready_count s w ≡ ok (pos 0, w)
unfolding ready_count
count-waiting s w e = ground arith

count-failed :
    (s : Source) (w : World) → s.state ≡ SourceState.error → ready_count s w ≡ ok (pos 0, w)
unfolding ready_count
count-failed s w e = ground arith

count-opened :
    (s : Source) (w : World)
    → s.state ≡ SourceState.opened
    → ready_count s w ≡ (
        if s.last_frame_time == null_time
        then ok (pos s.max_buffered_frames, w)
        else frames_behind s w)
unfolding ready_count
count-opened s w e = ground arith

-- A number was worked out, and only the clock was read.
abbrev pub Reads : World → Result (ℤ × World) → Type 0
Reads w r = (n : ℤ) × (w' : World) × (r ≡ ok (n, w')) × HasWaited w w'

pub timeout-Reads :
    (m : Machine) (p : Phase) (s : Source) (w : World)
    → IsWorking s
    → HasPhase s p
    → Reads w (ready_timeout s w)
timeout-Reads m asking s w works has = (negsuc 0, w, timeout-waiting s w has, HasWaited-refl w)
timeout-Reads m holding s w works has = ready_timeout-returns m s w has works.some_time
timeout-Reads m (gone text) s w works has =
    (negsuc 0, w, timeout-failed s w has.0, HasWaited-refl w)

pub count-Reads :
    (m : Machine) (p : Phase) (s : Source) (w : World)
    → IsWorking s
    → HasPhase s p
    → Reads w (ready_count s w)
count-Reads m asking s w works has = (pos 0, w, count-waiting s w has, HasWaited-refl w)
count-Reads m holding s w works has = elim (Bool-cases (s.last_frame_time == null_time)) [
  | inl first ↦
      (pos s.max_buffered_frames, w, count-opened s w has ∙ rw first refl, HasWaited-refl w)
  | inr later ↦
      let (n, behind) = behind_returns m s w works.some_time in
      (
        n,
        record w { clock_calls = w.clock_calls + 1 },
        count-opened s w has ∙ rw later behind,
        HasWaited-read w,
      )
]
count-Reads m (gone text) s w works has = (pos 0, w, count-failed s w has.0, HasWaited-refl w)
