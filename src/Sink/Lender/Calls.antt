-- ===== src/Sink/Lender/Calls.antt =====
-- Any calls of a sink, one after another, are moves of a lender.
use atolla.Prelude.{
  ℕ, ◌≤◌, ◌≡◌, ◌≢◌, refl, sym, ◌∙◌, ap, subst, inl, inr, Option, List, [], ◌++◌, length, drop, ok,
  fault, out_of_fuel, Result,
}
use atolla.Machine.{Machine, HasMemory}
use atolla.World.{World, Incoming, Packet, IsDatagramService}
use atolla.Mem.Block.{Ptr, into}
use atolla.Sink.State.{Sink, SinkState}
use atolla.Sink.Run.{atolla_sink_state, atolla_sink_get}
use atolla.Sink.Lender.{Lender, Models}
use atolla.Sink.Lender.Replies.{Says, Says-nothing, Says-trans}
use atolla.Sink.Lender.Datagrams.{service_after}
use atolla.Sink.Lender.Moves.{Trace, start, one_move, Trace-trans, shows}
use atolla.Sink.Lender.Polls.{IsArrival, atolla_sink_state-Goes}
use atolla.Sink.Lender.Shows.{atolla_sink_get-Shows}

-- The calls that returned, and the surroundings after them; a program gives atolla_sink_get a buffer that is
-- large enough.
pub data Calls (m : Machine) (s : Sink) (w : World) : Sink → World → Type 0 where
  none_yet : Calls m s w s w
  then_state :
      {t u : Sink} {v w' : World} (x : SinkState)
      → Calls m s w t v
      → atolla_sink_state m t v ≡ ok (x, u, w')
      → Calls m s w u w'
  then_get :
      {t u : Sink} {v w' : World} (out : List ℕ) (len : ℕ) (p : Option Ptr)
      → Calls m s w t v
      → len ≤ length out
      → atolla_sink_get t (into out 0) len v ≡ ok (p, u, w')
      → Calls m s w u w'

-- The results of a call that returned are those that it has.
results :
    {A B C : Type 0} {a a' : A} {b b' : B} {c c' : C} {r : Result (A × B × C)}
    → r ≡ ok (a, b, c)
    → r ≡ ok (a', b', c')
    → (b ≡ b') × (c ≡ c')
results e e' = (cc, cc)

no_result : {x : SinkState × Sink × World} → fault out_of_fuel ≢ ok x
no_result e = cc

-- Where no `malloc` fails and datagrams are sent whole, and where each call of `recvfrom` fails or
-- brings a datagram of at most 1024 bytes of BORROW and ENQUEUE messages: a sink that stands for a
-- lender does so after any calls of atolla_sink_state, and of atolla_sink_get with buffers that are
-- large enough, that return, for a lender that the first one comes to by its moves; the datagrams sent
-- are those of the moves that the system did not fail to send.
pub Calls-Trace :
    (m : Machine) {s : Sink} {w : World} (l : Lender) {t : Sink} {v : World}
    → HasMemory m
    → Models s l
    → IsDatagramService w
    → ((i : ℕ) → IsArrival (w.incoming i))
    → Calls m s w t v
    → (l' : Lender) × (ps : List Packet) × Trace l l' ps × Models t l' × Says w ps v
Calls-Trace m {w = w} l mem mo service arrivals none_yet = (l, [], start, mo, Says-nothing w)
Calls-Trace m {w = w} l mem mo service arrivals (then_state {t} {u} {v} {w'} x before ran) =
    let (l', ps, trace, mo', says) = Calls-Trace m l mem mo service arrivals before in
    let comes : IsArrival (v.incoming v.recv_calls) =
      subst IsArrival (ap (λ (f : ℕ → Incoming). f v.recv_calls) (sym says.incoming))
        (arrivals v.recv_calls) in
    elim (atolla_sink_state-Goes m mem t l' v mo' (service_after says service)
      (v.incoming v.recv_calls) refl comes) [
        | inl (over, stuck) ↦ absurd (no_result (sym stuck ∙ ran))
        | inr (u', v', l'', qs, ran', trace', mo'', says') ↦
            let (same, same') = results ran' ran in
            (
              l'',
              ps ++ qs,
              Trace-trans trace trace',
              subst (λ y. Models y l'') same mo'',
              Says-trans says (subst (Says v qs) same' says'),
            )
      ]
Calls-Trace m {w = w} l mem mo service arrivals
      (then_get {t} {u} {v} {w'} out len p before room ran) =
    let (l', ps, trace, mo', says) = Calls-Trace m l mem mo service arrivals before in
    let (p', u', v', n, ran', some_frames, mo'', says') =
      atolla_sink_get-Shows t l' v mo' out len room l'.loan mo'.loan in
    let (same, same') = results ran' ran in
    (
      record l' { pending = drop n l'.pending },
      ps ++ [],
      Trace-trans trace (one_move (shows n some_frames)),
      subst (λ y. Models y (record l' { pending = drop n l'.pending })) same mo'',
      Says-trans says (subst (Says v []) same' says'),
    )
