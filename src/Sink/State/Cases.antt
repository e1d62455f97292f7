-- ===== src/Sink/State/Cases.antt =====
-- The three states of a sink.
use atolla.Prelude.{◌≡◌, refl, ◌⊎◌, inl, inr}
use atolla.Sink.State.{SinkState}

pub SinkState-cases :
    (x : SinkState) → (x ≡ SinkState.opened) ⊎ ((x ≡ SinkState.lent) ⊎ (x ≡ SinkState.error))
SinkState-cases SinkState.opened = inl refl
SinkState-cases SinkState.lent = inr (inl refl)
SinkState-cases SinkState.error = inr (inr refl)
