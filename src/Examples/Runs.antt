-- ===== src/Examples/Runs.antt =====
-- The programs of src/examples that are sources, from the start to the end.
use Prim.Native.String.{String}
use atolla.Prelude.{
  ℕ, zero, suc, [], ◌∷◌, ◌+◌, ◌*◌, ◌≤◌, ◌<◌, List, length, arith, Result, ok, ◌≡◌, ◌≢◌, refl, subst,
}
use atolla.Machine.{Machine, HasMemory}
use atolla.World.{World, IsDatagramService}
use atolla.Source.State.{Source, SourceState, SourceSpec}
use atolla.Source.Update.{atolla_source_state}
use atolla.Source.Make.{atolla_source_make}
use atolla.Source.Hear.{Phase, asking, HasPhase, IsWorking}
use atolla.Source.Hear.Turns.{GoesOn-service}
use atolla.Source.Hear.Gives.{answers_on}
use atolla.Source.Hear.Phases.{HasPhase-state, Course-ne_asking}
use atolla.Source.Hear.Updates.{IsAnswer, source_update-Works}
use atolla.Source.Hear.Made.{IsMakeable, make-Ends}
use atolla.Examples.Loop.{example_spec, put_frames, put_frames-Works}
use atolla.Examples.Yellow
use atolla.Examples.Sine
use atolla.Examples.Complementary
use atolla.Examples.Complementary.{Waves}

-- The program returns, and its source is done with waiting and can go on.
abbrev pub Returns : Result (Source × World) → Type 0
Returns r =
    (s : Source) × (w : World) × (r ≡ ok (s, w)) × (s.state ≢ SourceState.waiting) × IsWorking s

-- A source that can go on where the datagrams are answers.
record CanGoOn (s : Source) (w : World) : Type 0 where
  pub p : Phase
  pub working : IsWorking s
  pub has : HasPhase s p
  pub turned : p ≢ asking
  pub service : IsDatagramService w
  pub answers : (i : ℕ) → IsAnswer (w.incoming i)

made_goes_on :
    (m : Machine) (fuel : ℕ) (fresh : Source) (spec : SourceSpec) (w : World)
    → IsMakeable m fuel fresh spec w
    → (s : Source) × (w' : World) × (atolla_source_make m fuel fresh spec w ≡ ok (s, w'))
      × CanGoOn s w'
made_goes_on m fuel fresh spec w given =
    let (s, w', made, ne, works, (p, has), on) = make-Ends m fuel fresh spec w given in
    (
      s,
      w',
      made,
      record {
        p = p;
        working = works;
        has = has;
        turned = λ e. ne (subst (HasPhase s) e has);
        service = GoesOn-service on given.service;
        answers = answers_on on given.answers;
      },
    )

module _ (m : Machine) (mem : HasMemory m) where
  state_goes_on :
      (s : Source) (w : World)
      → CanGoOn s w
      → (s' : Source) × (w' : World) × (atolla_source_state m s w ≡ ok (s'.state, s', w'))
        × CanGoOn s' w'
  unfolding atolla_source_state
  state_goes_on s w can =
      let (s', w', q, ran, works, has, turn, on) =
        source_update-Works m mem s can.p w can.working can.has can.service
          (can.answers w.recv_calls) in
      (
        s',
        w',
        rw ran refl,
        record {
          p = q;
          working = works;
          has = has;
          turned = Course-ne_asking can.turned turn;
          service = GoesOn-service on can.service;
          answers = answers_on on can.answers;
        },
      )

  painted :
      (frame : ℕ → List ℕ) (run_time_ms n : ℕ) (s : Source) (w : World)
      → run_time_ms ≤ n * 17
      → n * 17 < run_time_ms + 17
      → n ≤ run_time_ms
      → ((j : ℕ) → length (frame j) ≤ 65532)
      → CanGoOn s w
      → Returns (put_frames m frame run_time_ms run_time_ms 0 s w)
  painted frame run_time_ms n s w long short enough small can =
      let (s', w', q, ran, works, has, turn, on) =
        put_frames-Works m frame run_time_ms n run_time_ms s can.p w mem long short enough small
          can.working can.has can.service can.answers in
      (s', w', ran, HasPhase-state s' q has (Course-ne_asking can.turned turn), works)

  other_state :
      (state : SourceState) (s : Source) (w : World) (again : Result (SourceState × Source × World))
      → state ≢ SourceState.waiting
      → elim state [ SourceState.waiting ↦ again | other ↦ ok (other, s, w) ] ≡ ok (state, s, w)
  other_state SourceState.waiting s w again ne = absurd (ne refl)
  other_state SourceState.opened s w again ne = refl
  other_state SourceState.error s w again ne = refl

  -- The wait is over at once.
  wait_goes_on :
      (fuel : ℕ) (s : Source) (w : World)
      → 0 < fuel
      → CanGoOn s w
      → (s' : Source) × (w' : World) × (Sine.wait_for_state m fuel s w ≡ ok (s'.state, s', w'))
        × CanGoOn s' w'
  unfolding Sine.wait_for_state
  wait_goes_on zero s w some_fuel can = absurd (omega arith)
  wait_goes_on (suc fuel) s w some_fuel can =
      let (s', w', ran, can') = state_goes_on s w can in
      (
        s',
        w',
        rw ran (
            other_state s'.state s' w' (Sine.wait_for_state m fuel s' w')
              (HasPhase-state s' can'.p can'.has can'.turned)),
        can',
      )

-- The frames are painted where the sink is lent.
if_lent :
    (state : SourceState) (s : Source) (w : World) (paint : Result (Source × World))
    → CanGoOn s w
    → Returns paint
    → Returns (elim state [ SourceState.opened ↦ paint | _ ↦ ok (s, w) ])
if_lent SourceState.opened s w paint can returns = returns
if_lent SourceState.waiting s w paint can returns =
    (s, w, refl, HasPhase-state s can.p can.has can.turned, can.working)
if_lent SourceState.error s w paint can returns =
    (s, w, refl, HasPhase-state s can.p can.has can.turned, can.working)

module _ (m : Machine) (fuel : ℕ) (fresh : Source) (sink_hostname : String) (port : ℕ) (w : World)
    (given : IsMakeable m fuel fresh (example_spec sink_hostname port) w) where
  pub yellow-Returns : Returns (Yellow.run_source m fuel fresh sink_hostname port w)
  unfolding Yellow.run_source Yellow.paint
  yellow-Returns =
      let (s, w1, made, can) =
        made_goes_on m fuel fresh (example_spec sink_hostname port) w given in
      let (s1, w2, ran, can1) = state_goes_on m given.mem s w1 can in
      rw (made, ran)
        (if_lent s1.state s1 w2 (Yellow.paint m s1 w2) can1 (
          painted m given.mem Yellow.yellow 5000 295 s1 w2 (omega arith) (omega arith) (omega arith)
            (λ j. omega arith) can1))

  pub complementary-Returns :
      (waves : Waves) → Returns (Complementary.run_source m fuel fresh waves sink_hostname port w)
  unfolding Complementary.run_source Complementary.paint Complementary.two_lights
  complementary-Returns waves =
      let (s, w1, made, can) =
        made_goes_on m fuel fresh (example_spec sink_hostname port) w given in
      let (s1, w2, ran, can1) = state_goes_on m given.mem s w1 can in
      rw (made, ran)
        (if_lent s1.state s1 w2 (Complementary.paint m waves s1 w2) can1 (
          painted m given.mem (Complementary.two_lights waves) 10000 589 s1 w2 (omega arith)
            (omega arith) (omega arith) (λ j. omega arith) can1))

  pub sine-Returns : (col : ℕ → ℕ) → Returns (Sine.run_source m fuel fresh col sink_hostname port w)
  unfolding Sine.run_source Sine.paint
  sine-Returns col =
      let (s, w1, made, can) =
        made_goes_on m fuel fresh (example_spec sink_hostname port) w given in
      let (s1, w2, ran, can1) = state_goes_on m given.mem s w1 can in
      let (s2, w3, waited, can2) =
        wait_goes_on m given.mem fuel s1 w2 (omega (arith, given.ahead, given.enough)) can1 in
      rw (made, ran, waited)
        (if_lent s2.state s2 w3 (Sine.paint m col s2 w3) can2 (
          painted m given.mem (Sine.grey col) 10000 589 s2 w3 (omega arith) (omega arith)
            (omega arith) (λ j. omega arith) can2))

-- The host and the port that `main` takes from its arguments.
abbrev pub target : (String → ℕ) → List String → String × ℕ
target atoi (_ ∷ sink_hostname ∷ port ∷ _) = (sink_hostname, atoi port)
target atoi _ = ("localhost", 10042)

module _ (m : Machine) (fuel : ℕ) (fresh : Source) (atoi : String → ℕ) (w : World) (col : ℕ → ℕ)
    (waves : Waves) where
  -- Where no `malloc` fails and datagrams are sent whole, for a port below 65536, where the calls that
  -- make the socket succeed with a descriptor above 0, the host is found at UDP addresses and
  -- `connect` reaches one, where each call of `recvfrom` fails or brings a datagram of at most 32
  -- bytes of LENT and FAIL messages, for a source with memory for 32 bytes to receive: `main` of
  -- 02-yellow, 03-sine and 04-complementary returns, whatever bytes the last two work out in floating
  -- point, with fuel for each reading of the clock from the third up to one of number d, if that one
  -- and the next are longer after the first than the disconnect timeout. The source does not wait
  -- then, and still has its buffers.
  pub main-Returns :
      (args : List String)
      → IsMakeable m fuel fresh (example_spec (target atoi args).0 (target atoi args).1) w
      → Returns (Yellow.main m fuel fresh atoi args w)
        × Returns (Sine.main m fuel fresh col atoi args w)
        × Returns (Complementary.main m fuel fresh waves atoi args w)
  unfolding Yellow.main Sine.main Complementary.main
  main-Returns [] given = (
    yellow-Returns m fuel fresh "localhost" 10042 w given,
    sine-Returns m fuel fresh "localhost" 10042 w given col,
    complementary-Returns m fuel fresh "localhost" 10042 w given waves,
  )
  main-Returns (_ ∷ []) given = (
    yellow-Returns m fuel fresh "localhost" 10042 w given,
    sine-Returns m fuel fresh "localhost" 10042 w given col,
    complementary-Returns m fuel fresh "localhost" 10042 w given waves,
  )
  main-Returns (_ ∷ _ ∷ []) given = (
    yellow-Returns m fuel fresh "localhost" 10042 w given,
    sine-Returns m fuel fresh "localhost" 10042 w given col,
    complementary-Returns m fuel fresh "localhost" 10042 w given waves,
  )
  main-Returns (_ ∷ host ∷ port ∷ _) given = (
    yellow-Returns m fuel fresh host (atoi port) w given,
    sine-Returns m fuel fresh host (atoi port) w given col,
    complementary-Returns m fuel fresh host (atoi port) w given waves,
  )
