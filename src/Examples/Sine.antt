-- ===== src/Examples/Sine.antt =====
-- src/examples/03-sine.cpp: a grey that goes up and down for ten seconds. The program waits for the source
-- once more.
use Prim.Native.String.{String}
use atolla.Prelude.{ℕ, zero, suc, List, [], ◌∷◌, Result, ok, fault, out_of_fuel, ◌>>=◌}
use atolla.Machine.{Machine}
use atolla.World.{World}
use atolla.Source.State.{Source, SourceState}
use atolla.Source.Update.{atolla_source_state}
use atolla.Source.Make.{atolla_source_make}
use atolla.Examples.Loop.{example_spec, put_frames}

abbrev pub run_time_ms : ℕ
run_time_ms = 10000

-- `col` is the byte that a round works out from the cosine.
abbrev pub grey : (ℕ → ℕ) → ℕ → List ℕ
grey col i = col i ∷ col i ∷ col i ∷ []

unfoldable pub paint : Machine → (ℕ → ℕ) → Source → World → Result (Source × World)
paint m col source w = put_frames m (grey col) run_time_ms run_time_ms 0 source w

-- The loop `while((state = ...) == ATOLLA_SOURCE_STATE_WAITING)`, with fuel.
unfoldable pub wait_for_state : Machine → ℕ → Source → World → Result (SourceState × Source × World)
wait_for_state m zero source w = fault out_of_fuel
wait_for_state m (suc fuel) source w = do
  (state, s, w1) ← atolla_source_state m source w
  elim state [ SourceState.waiting ↦ wait_for_state m fuel s w1 | other ↦ ok (other, s, w1) ]

module _ (m : Machine) (fuel : ℕ) (fresh : Source) (col : ℕ → ℕ) where
  unfoldable pub run_source : String → ℕ → World → Result (Source × World)
  unfolding paint
  run_source sink_hostname port w = do
    (source, w1) ← atolla_source_make m fuel fresh (example_spec sink_hostname port) w
    (_, s, w2) ← atolla_source_state m source w1
    (state, s1, w3) ← wait_for_state m fuel s w2
    elim state [ SourceState.opened ↦ paint m col s1 w3 | _ ↦ ok (s1, w3) ]

  unfoldable pub main : (String → ℕ) → List String → World → Result (Source × World)
  unfolding run_source
  main atoi (_ ∷ sink_hostname ∷ port ∷ _) w = run_source sink_hostname (atoi port) w
  main atoi _ w = run_source "localhost" 10042 w
