-- ===== src/Tests/Listeners.antt =====
-- Sources that hear from their sinks, at concrete values.
use atolla.Prelude.{ℕ, ◌≡◌, ◌≢◌, refl, arith, List, [], ◌∷◌, ok}
use atolla.Machine.{zeroed}
use atolla.World.{World, Errno, datagram}
use atolla.Source.State.{Source, SourceState, null_time, fail_text}
use atolla.Source.Update.{source_receive, source_await_make_completion}
use atolla.Source.Hear.{Reply, lending, failing, asking, gone, reply_packets, IsWorking}
use atolla.Source.Hear.Datagrams.{Hears}
use atolla.Source.Hear.Turns.{Works}
use atolla.Source.Hear.Updates.{IsAnswer, nothing, replies, source_receive-Hears}
use atolla.Source.Hear.Calls.{Op, state, ready_count_op, ready_timeout_op, put, calls, calls-Works}
use atolla.Source.Hear.Await.{await-Ends}
use atolla.Tests.{
  zeroed-HasMemory, fresh_builder-IsReady, stranger, quiet, quiet-IsDatagramService, source_of,
}

abbrev hoping : Source
hoping = record (source_of null_time) {
  state = SourceState.waiting;
  first_borrow_time = 4800;
  last_borrow_time = 4800;
}

hoping-IsWorking : IsWorking hoping
hoping-IsWorking = record { ready = fresh_builder-IsReady; buffer = refl; some_time = omega arith }

-- The sink lends the lights, and then refuses.
abbrev mixed : List Reply
mixed = lending 0 ∷ failing 1 7 2 ∷ []

abbrev mixed_comes : World
mixed_comes = record quiet { incoming = λ i. datagram stranger (reply_packets mixed) }

source_receive-Hears_example :
    Hears
      (record mixed_comes { recv_calls = 1 })
      (gone
        "The sink cannot accomodate the reqest for the given frame duration because it is too short. Try a shorter frame duration.")
      (source_receive zeroed hoping mixed_comes)
unfolding fail_text
source_receive-Hears_example =
    source_receive-Hears zeroed hoping asking mixed stranger mixed_comes hoping-IsWorking refl refl
      (omega arith) (omega arith)

-- Each call of `recvfrom` has a LENT message.
abbrev lending_comes : World
lending_comes = record quiet { incoming = λ i. datagram stranger (reply_packets (lending 0 ∷ [])) }

lending-IsAnswer : (i : ℕ) → IsAnswer (lending_comes.incoming i)
lending-IsAnswer i = replies stranger (lending 0) [] (omega arith)

abbrev program : List Op
program = state ∷ ready_count_op ∷ put (255 ∷ 0 ∷ 0 ∷ []) ∷ ready_timeout_op ∷ []

calls-Works_example : Works hoping lending_comes asking (calls zeroed program hoping lending_comes)
calls-Works_example =
    calls-Works zeroed zeroed-HasMemory program hoping asking lending_comes hoping-IsWorking refl
      quiet-IsDatagramService lending-IsAnswer
      (omega arith, (omega arith, (omega arith, (omega arith, omega arith))))

-- No answer comes, and the clock has passed the timeout.
abbrev waiting_long : Source
waiting_long = record hoping { first_borrow_time = 4000 }

waiting_long-IsWorking : IsWorking waiting_long
waiting_long-IsWorking = record {
  ready = fresh_builder-IsReady;
  buffer = refl;
  some_time = omega arith;
}

await-Ends_example :
    (s : Source) × (w : World) × (source_await_make_completion zeroed 1 waiting_long quiet
      ≡ ok (s, w))
    × (s.state ≢ SourceState.waiting)
await-Ends_example =
    await-Ends zeroed 1 0 waiting_long quiet zeroed-HasMemory waiting_long-IsWorking refl
      quiet-IsDatagramService (λ i. nothing Errno.eagain) (omega arith) (omega arith) (omega arith)
      (omega arith)
