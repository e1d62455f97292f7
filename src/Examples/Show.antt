-- ===== src/Examples/Show.antt =====
-- src/examples/01-sink.cpp: a window in the colour of a sink with one light. A round of its loop.
use atolla.Prelude.{ℕ, List, Result, ok, ◌>>=◌, Option, none, some}
use atolla.Machine.{Machine}
use atolla.World.{World}
use atolla.Mem.Block.{Ptr, into, load}
use atolla.Sink.State.{Sink, SinkState, SinkSpec}
use atolla.Sink.Run.{atolla_sink_state, atolla_sink_get}

abbrev pub sink_spec : SinkSpec
sink_spec = record { port = 10042; lights_count = 1 }

-- What glClearColor is given: full green, full red, or the three bytes over 255.
pub data ClearColor : Type 0 where
  green : ClearColor
  red : ClearColor
  light : List ℕ → ClearColor

-- What `frame` points to after the call.
abbrev pub written : List ℕ → Option Ptr → Ptr
written frame none = into frame 0
written frame (some p) = p

-- `frame` is what the stack held: the result of atolla_sink_get is not looked at.
unfoldable pub draw : Machine → List ℕ → Sink → World → Result (ClearColor × Sink × World)
draw m frame sink w = do
  (state, s, w1) ← atolla_sink_state m sink w
  elim state [
    | SinkState.opened ↦ ok (green, s, w1)
    | SinkState.error ↦ ok (red, s, w1)
    | SinkState.lent ↦ do
      (p, s1, w2) ← atolla_sink_get s (into frame 0) 3 w1
      bytes ← load (written frame p) 3
      ok (light bytes, s1, w2)
  ]
