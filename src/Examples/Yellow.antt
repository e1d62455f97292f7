-- ===== src/Examples/Yellow.antt =====
-- src/examples/02-yellow.cpp: yellow for five seconds.
use Prim.Native.String.{String}
use atolla.Prelude.{ℕ, List, [], ◌∷◌, Result, ok, ◌>>=◌}
use atolla.Machine.{Machine}
use atolla.World.{World}
use atolla.Source.State.{Source, SourceState}
use atolla.Source.Update.{atolla_source_state}
use atolla.Source.Make.{atolla_source_make}
use atolla.Examples.Loop.{example_spec, put_frames}

abbrev pub run_time_ms : ℕ
run_time_ms = 5000

abbrev pub yellow : ℕ → List ℕ
yellow i = 255 ∷ 255 ∷ 0 ∷ []

-- A round takes at least one of the milliseconds.
unfoldable pub paint : Machine → Source → World → Result (Source × World)
paint m source w = put_frames m yellow run_time_ms run_time_ms 0 source w

module _ (m : Machine) (fuel : ℕ) (fresh : Source) where
  -- `fuel` and `fresh` are those of atolla_source_make.
  unfoldable pub run_source : String → ℕ → World → Result (Source × World)
  unfolding paint
  run_source sink_hostname port w = do
    (source, w1) ← atolla_source_make m fuel fresh (example_spec sink_hostname port) w
    (state, s, w2) ← atolla_source_state m source w1
    elim state [ SourceState.opened ↦ paint m s w2 | _ ↦ ok (s, w2) ]

  -- The arguments after the program's name; `atoi` is the C library's, for texts without a sign.
  unfoldable pub main : (String → ℕ) → List String → World → Result (Source × World)
  unfolding run_source
  main atoi (_ ∷ sink_hostname ∷ port ∷ _) w = run_source sink_hostname (atoi port) w
  main atoi _ w = run_source "localhost" 10042 w
