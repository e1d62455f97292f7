-- ===== src/Sink/Valid/Reached.antt =====
-- A program may call a sink in any order, in any surroundings.
use atolla.Prelude.{ℕ, ◌≡◌, ok, Option, Ensures-ok}
use atolla.Machine.{Machine, HasMemory}
use atolla.World.{World}
use atolla.Mem.Block.{Ptr}
use atolla.Sink.State.{Sink, SinkState}
use atolla.Sink.Run.{atolla_sink_state, atolla_sink_get}
use atolla.Sink.Valid.Running.{IsRunning}
use atolla.Sink.Valid.Calls.{Gives, atolla_sink_state-IsRunning, atolla_sink_get-IsRunning}

-- A call that returns.
pub data Step (m : Machine) (s t : Sink) : Type 0 where
  polls : (w w' : World) (x : SinkState) → atolla_sink_state m s w ≡ ok (x, t, w') → Step m s t
  shows :
      (out : Ptr) (len : ℕ) (w w' : World) (p : Option Ptr)
      → atolla_sink_get s out len w ≡ ok (p, t, w')
      → Step m s t

-- A sink after any number of calls.
pub data Reached (m : Machine) (s : Sink) : Sink → Type 0 where
  here : Reached m s s
  next : {t u : Sink} → Reached m s t → Step m t u → Reached m s u

Step-IsRunning :
    (m : Machine) (n : ℕ) {s t : Sink} → HasMemory m → IsRunning n s → Step m s t → IsRunning n t
Step-IsRunning m n {s} {t} mem r (polls w w' x e) =
    Ensures-ok (Gives m mem n) (atolla_sink_state m s w) (x, t, w') e
      (atolla_sink_state-IsRunning m mem n s w r)
Step-IsRunning m n {s} {t} mem r (shows out len w w' p e) =
    Ensures-ok (Gives m mem n) (atolla_sink_get s out len w) (p, t, w') e
      (atolla_sink_get-IsRunning m mem n s out len w r)

-- Where no `malloc` fails: a sink that is valid and in no error, for n lights, stays so through any
-- calls of atolla_sink_state and atolla_sink_get that return, in any order, each with whatever
-- datagrams, results of system calls, times and buffers.
pub Reached-IsRunning :
    (m : Machine) (n : ℕ) {s t : Sink} → HasMemory m → IsRunning n s → Reached m s t → IsRunning n t
Reached-IsRunning m n mem r here = r
Reached-IsRunning m n mem r (next before step) =
    Step-IsRunning m n mem (Reached-IsRunning m n mem r before) step
