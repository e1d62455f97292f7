-- ===== src/Sink/Lender/Lives.antt =====
-- A sink from atolla_sink_make on.
use atolla.Prelude.{ℕ, suc, ◌+◌, ◌*◌, ◌≡◌, sym, ap, subst, Result, none, some, List, [], ok}
use atolla.Machine.{Machine, HasMemory}
use atolla.World.{World, Packet, IsDatagramService}
use atolla.Sink.State.{Sink, SinkState, SinkSpec}
use atolla.Sink.Valid.{IsValid}
use atolla.Sink.Make.{atolla_sink_make}
use atolla.Sink.Make.Fresh.{IsNew}
use atolla.Sink.Make.Socket.{IsSpec, make-IsNew}
use atolla.Sink.Lender.{Lender, free, Models}
use atolla.Sink.Lender.Replies.{Says}
use atolla.Sink.Lender.Moves.{Trace}
use atolla.Sink.Lender.Polls.{IsArrival}
use atolla.Sink.Lender.Calls.{Calls, Calls-Trace}

-- The lender that a sink for so many lights is when it is made: the struct is filled with zeros.
abbrev pub new_lender : ℕ → Lender
new_lender lights_count = record {
  loan = free;
  pending = [];
  index = some 0;
  next_msg_id = 0;
  size = lights_count * 3;
}

new-Models :
    (lights_count : ℕ) (sink : Sink)
    → IsNew lights_count sink
    → sink.state ≡ SinkState.opened
    → IsValid sink []
    → Models sink (new_lender lights_count)
new-Models lights_count sink new opened valid = record {
  valid = valid;
  loan = opened;
  index = new.index;
  id = new.id;
  size = ap (λ n. n * 3) new.lights;
}

-- The sink and the surroundings that a call made are those that it makes.
made_same :
    {s s' : Sink} {w w' : World} {r : Result (Sink × World)}
    → r ≡ ok (s, w)
    → r ≡ ok (s', w')
    → (s ≡ s') × (w ≡ w')
made_same e e' = (cc, cc)

-- Where no `malloc` fails and datagrams are sent whole, for a good specification, where `socket` gives
-- a descriptor above 0 and the next three calls succeed, and where each call of `recvfrom` fails or
-- brings a datagram of at most 1024 bytes of BORROW and ENQUEUE messages: what atolla_sink_make gives
-- stands for the new lender, which is free, has no frame pending, the index 0, the next ID 0 and
-- frames of three bytes for each light; and after any calls of atolla_sink_state, and of
-- atolla_sink_get with buffers that are large enough, that return, the sink stands for a lender that
-- the new one comes to by its moves, and the datagrams sent are those of the moves that the system did
-- not fail to send.
pub make-Trace :
    (m : Machine) (size_of_sink h : ℕ) (spec : SinkSpec) (w : World) {sink t : Sink} {w1 v : World}
    → HasMemory m
    → IsSpec spec
    → w.kernel.create w.kernel.calls ≡ some (suc h)
    → w.kernel.failure (w.kernel.calls + 1) ≡ none
    → w.kernel.failure (w.kernel.calls + 1 + 1) ≡ none
    → w.kernel.failure (w.kernel.calls + 1 + 1 + 1) ≡ none
    → IsDatagramService w
    → ((i : ℕ) → IsArrival (w.incoming i))
    → atolla_sink_make m size_of_sink spec w ≡ ok (sink, w1)
    → Calls m sink w1 t v
    → Models sink (new_lender spec.lights_count)
      × ((l : Lender) × (ps : List Packet) × Trace (new_lender spec.lights_count) l ps
          × Models t l
          × Says w ps v)
make-Trace m size_of_sink h spec w {sink} {t} {w1} {v} mem good made set bound_ok unblocked service
      arrivals makes calls =
    let (sink', done, state, _, _, valid, new) =
      make-IsNew m size_of_sink spec w mem good h made set bound_ok unblocked in
    let (same, same') = made_same done makes in
    let mo : Models sink (new_lender spec.lights_count) =
      subst (λ s. Models s (new_lender spec.lights_count)) same
        (new-Models spec.lights_count sink' new state valid) in
    let (l, ps, trace, mo', says) =
      Calls-Trace m (new_lender spec.lights_count) mem mo service arrivals
        (subst (λ y. Calls m sink y t v) (sym same') calls) in
    (
      mo,
      (
        l,
        ps,
        trace,
        mo',
        record {
          sent = says.sent;
          calls = says.calls;
          outgoing = says.outgoing;
          incoming = says.incoming;
          clock = says.clock;
        },
      ),
    )
