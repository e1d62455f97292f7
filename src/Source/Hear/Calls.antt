-- ===== src/Source/Hear/Calls.antt =====
-- Any calls that a program makes of a source all return.
use atolla.Prelude.{ℕ, ◌≤◌, refl, List, [], ◌∷◌, length, Result, ok, ◌>>=◌}
use atolla.Machine.{Machine, HasMemory}
use atolla.World.{World, IsDatagramService}
use atolla.Source.State.{Source}
use atolla.Source.Update.{atolla_source_state}
use atolla.Source.Put.{
  atolla_source_put_ready_count, atolla_source_put_ready_timeout, atolla_source_put,
}
use atolla.Source.Hear.{Phase, HasPhase, IsWorking}
use atolla.Source.Hear.Turns.{Course-refl, GoesOn-refl, GoesOn-service, Works, Works-then}
use atolla.Source.Hear.Updates.{IsAnswer}
use atolla.Source.Hear.Gives.{Gives, answers_on}
use atolla.Source.Hear.Puts.{state-Gives, ready_count-Gives, ready_timeout-Gives, put-Gives}

-- A call of a source.
pub data Op : Type 0 where
  state : Op
  ready_count_op : Op
  ready_timeout_op : Op
  put : List ℕ → Op

-- Its results are dropped.
abbrev drop_result : {A : Type 0} → Result (A × Source × World) → Result (Source × World)
drop_result r = r >>= λ x. ok (x.1, x.2)

abbrev pub call : Machine → Op → Source → World → Result (Source × World)
call m state s w = drop_result (atolla_source_state m s w)
call m ready_count_op s w = drop_result (atolla_source_put_ready_count m s w)
call m ready_timeout_op s w = drop_result (atolla_source_put_ready_timeout m s w)
call m (put frame) s w = drop_result (atolla_source_put m s frame w)

abbrev pub calls : Machine → List Op → Source → World → Result (Source × World)
calls m [] s w = ok (s, w)
calls m (op ∷ ops) s w = call m op s w >>= λ x. calls m ops x.0 x.1

-- A message can count the bytes of each frame.
abbrev pub HasFrame : Op → Type 0
HasFrame (put frame) = length frame ≤ 65532
HasFrame state = 0 ≤ 0
HasFrame ready_count_op = 0 ≤ 0
HasFrame ready_timeout_op = 0 ≤ 0

abbrev pub HaveFrames : List Op → Type 0
HaveFrames [] = 0 ≤ 0
HaveFrames (op ∷ ops) = HasFrame op × HaveFrames ops

drop-Works :
    {A : Type 0} (s : Source) (w : World) (p : Phase) (r : Result (A × Source × World))
    → Gives s w p r
    → Works s w p (drop_result r)
drop-Works s w p r (x, s', w', q, ran, works, has, turn, on) =
    (s', w', q, rw ran refl, works, has, turn, on)

module _ (m : Machine) (mem : HasMemory m) where
  call-Works :
      (op : Op) (s : Source) (p : Phase) (w : World)
      → IsWorking s
      → HasPhase s p
      → IsDatagramService w
      → ((i : ℕ) → IsAnswer (w.incoming i))
      → HasFrame op
      → Works s w p (call m op s w)
  call-Works state s p w works has service answers small =
      drop-Works s w p _ (state-Gives m mem s p w works has service answers)
  call-Works ready_count_op s p w works has service answers small =
      drop-Works s w p _ (ready_count-Gives m mem s p w works has service answers)
  call-Works ready_timeout_op s p w works has service answers small =
      drop-Works s w p _ (ready_timeout-Gives m mem s p w works has service answers)
  call-Works (put frame) s p w works has service answers small =
      drop-Works s w p _ (put-Gives m mem s p frame w works has service answers small)

  -- Where no `malloc` fails and datagrams are sent whole, for a source with its buffers and frames of
  -- at least 1 ms, in some phase, where each call of `recvfrom` fails or brings a datagram of at most
  -- 32 bytes of LENT and FAIL messages: any calls of atolla_source_state,
  -- atolla_source_put_ready_count, atolla_source_put_ready_timeout, and atolla_source_put of frames of
  -- at most 65532 bytes, in any order, all return. The source still has its buffers. It has heard the
  -- replies of each datagram that came meanwhile, in their order, and noted the time of each LENT
  -- message unless it had given up; and besides by these replies its phase has turned only by a
  -- reading of the clock, which was longer than the disconnect timeout after the first borrow while it
  -- asked, or at least as long as that after the last LENT message while it held the lights.
  pub calls-Works :
      (ops : List Op) (s : Source) (p : Phase) (w : World)
      → IsWorking s
      → HasPhase s p
      → IsDatagramService w
      → ((i : ℕ) → IsAnswer (w.incoming i))
      → HaveFrames ops
      → Works s w p (calls m ops s w)
  calls-Works [] s p w works has service answers small =
      (s, w, p, refl, works, has, Course-refl s p w, GoesOn-refl w)
  calls-Works (op ∷ ops) s p w works has service answers (small, rest) =
      Works-then s w p (call m op s w) (λ x. calls m ops x.0 x.1)
        (call-Works op s p w works has service answers small)
        (λ s1 w1 q works1 has1 on.
          calls-Works ops s1 q w1 works1 has1 (GoesOn-service on service) (answers_on on answers)
            rest)
