-- ===== src/Examples/Complementary.antt =====
-- src/examples/04-complementary.cpp: two complementary colours for ten seconds.
use Prim.Native.String.{String}
use atolla.Prelude.{ℕ, List, [], ◌∷◌, Result, ok, ◌>>=◌}
use atolla.Machine.{Machine}
use atolla.World.{World}
use atolla.Source.State.{Source, SourceState}
use atolla.Source.Update.{atolla_source_state}
use atolla.Source.Make.{atolla_source_make}
use atolla.Colors.{hsv_to_rgb}
use atolla.Examples.Loop.{example_spec, put_frames}

abbrev pub run_time_ms : ℕ
run_time_ms = 10000

-- What a round works out in floating point: the two hues and `col`.
pub record Waves : Type 0 where
  pub hue : ℕ → ℕ
  pub hue2 : ℕ → ℕ
  pub col : ℕ → ℕ

unfoldable pub two_lights : Waves → ℕ → List ℕ
two_lights waves i =
    let rgb = hsv_to_rgb (record { h = waves.hue i; s = 255; v = waves.col i }) in
    let rgb2 = hsv_to_rgb (record { h = waves.hue2 i; s = 255; v = waves.col i }) in
    rgb.r ∷ rgb.g ∷ rgb.b ∷ rgb2.r ∷ rgb2.g ∷ rgb2.b ∷ []

unfoldable pub paint : Machine → Waves → Source → World → Result (Source × World)
unfolding two_lights
paint m waves source w = put_frames m (two_lights waves) run_time_ms run_time_ms 0 source w

module _ (m : Machine) (fuel : ℕ) (fresh : Source) (waves : Waves) where
  unfoldable pub run_source : String → ℕ → World → Result (Source × World)
  unfolding paint
  run_source sink_hostname port w = do
    (source, w1) ← atolla_source_make m fuel fresh (example_spec sink_hostname port) w
    (state, s, w2) ← atolla_source_state m source w1
    elim state [ SourceState.opened ↦ paint m waves s w2 | _ ↦ ok (s, w2) ]

  unfoldable pub main : (String → ℕ) → List String → World → Result (Source × World)
  unfolding run_source
  main atoi (_ ∷ sink_hostname ∷ port ∷ _) w = run_source sink_hostname (atoi port) w
  main atoi _ w = run_source "localhost" 10042 w
