-- ===== src/Source/Hear/Phases.antt =====
-- Once the phase of a source has turned, the source no longer asks.
use atolla.Prelude.{◌≢◌, refl, List, [], ◌∷◌}
use atolla.Source.State.{Source, SourceState}
use atolla.Source.Hear.{
  Reply, lending, failing, Phase, asking, holding, gone, hear, hear_all, HasPhase,
}
use atolla.World.{World}
use atolla.Source.Hear.Turns.{
  Setting, Hearing, Turn, misses, hears, reads_on, gives_up, loses, Turns, stays, turns, Course,
}

pub hear-ne_asking : (p : Phase) (r : Reply) → hear p r ≢ asking
hear-ne_asking asking (lending id) e = cc
hear-ne_asking asking (failing id causing code) e = cc
hear-ne_asking holding (lending id) e = cc
hear-ne_asking holding (failing id causing code) e = cc
hear-ne_asking (gone text) (lending id) e = cc
hear-ne_asking (gone text) (failing id causing code) e = cc

pub hear_all-ne_asking : (rs : List Reply) (p : Phase) → p ≢ asking → hear_all p rs ≢ asking
hear_all-ne_asking [] p ne = ne
hear_all-ne_asking (r ∷ rs) p ne = hear_all-ne_asking rs (hear p r) (hear-ne_asking p r)

Turn-ne_asking :
    {net : Setting} {h h' : Hearing} → h.phase ≢ asking → Turn net h h' → h'.phase ≢ asking
Turn-ne_asking ne (misses e came now) = rw now ne
Turn-ne_asking {h} ne (hears e r rs came now) =
    rw now (hear_all-ne_asking rs (hear h.phase r) (hear-ne_asking h.phase r))
Turn-ne_asking ne (reads_on n on now) = rw now ne
Turn-ne_asking ne (gives_up asks late now) = absurd (ne asks)
Turn-ne_asking ne (loses holds late now) = rw now (λ e. cc)

Turns-ne_asking :
    {net : Setting} {h h' : Hearing} → h.phase ≢ asking → Turns net h h' → h'.phase ≢ asking
Turns-ne_asking ne stays = ne
Turns-ne_asking ne (turns before turn) = Turn-ne_asking (Turns-ne_asking ne before) turn

-- Once a phase has turned it is not asking.
pub Course-ne_asking :
    {s s' : Source} {p q : Phase} {w w' : World} → p ≢ asking → Course s p w s' q w' → q ≢ asking
Course-ne_asking ne course = Turns-ne_asking ne course.way

pub HasPhase-state :
    (s : Source) (p : Phase) → HasPhase s p → p ≢ asking → s.state ≢ SourceState.waiting
HasPhase-state s asking has ne e = absurd (ne refl)
HasPhase-state s holding has ne e = cc
HasPhase-state s (gone text) (has, _) ne e = cc
