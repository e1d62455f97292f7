-- ===== src/Sink/Lender/Datagrams.antt =====
-- A sink serves a datagram of requests as the lender does.
use atolla.Prelude.{
  ℕ, ◌+◌, ◌≤◌, ◌<◌, ◌≡◌, refl, ◌∙◌, ap, Option, none, some, List, [], ◌∷◌, ◌++◌, length, u8, u16,
  arith, ok, Result, ◌>>=◌, length-append, length-write_at, slice-write_at_self, sym, take_all,
}
use atolla.Machine.{Machine, HasMemory}
use atolla.World.{World, UdpEndpoint, Packet, datagram, SysResult, IsDatagramService, now, time_now}
use atolla.Msg.Iter.Decode.{Shows}
use atolla.Msg.Packet.{borrow_packet, enqueue_packet}
use atolla.Msg.Iter.Parts.{Shows-part, slice-left, slice-right}
use atolla.Sink.State.{Sink}
use atolla.Sink.Handle.Datagram.{
  Request, borrowing, enqueueing, request_packet, request_packets, AreSendable, run_request,
  run_requests, length-request_packets,
}
use atolla.Sink.Run.{sink_receive}
use atolla.Sink.Run.Receive.{filled, sink_receive-requests}
use atolla.Sink.Lender.{Lender, Models, answer, serve, after_saying, and_then}
use atolla.Sink.Lender.Parts.{with_buffer_and_times}
use atolla.Sink.Lender.Replies.{Says, Says-nothing, Says-trans}
use atolla.Sink.Lender.Answers.{Refines, borrow-Refines, enqueue-Refines}

-- Where the system sends whole datagrams, it goes on doing so.
pub service_after :
    {w w' : World} {ps : List Packet} → Says w ps w' → IsDatagramService w → IsDatagramService w'
service_after says service i n k e =
    service i n k (ap (λ (o : ℕ → ℕ → SysResult). o i n) (sym says.outgoing) ∙ e)

-- After more was said.
Refines-after :
    {u v : World} {ps : List Packet} (a : Option (Lender × List Packet)) (r : Result (Sink × World))
    → Says u ps v
    → Refines v a r
    → Refines u (after_saying ps a) r
Refines-after none r says h = h
Refines-after (some x) r says (s, w', ran, mo, more) = (s, w', ran, mo, Says-trans says more)

module _ (m : Machine) (mem : HasMemory m) (buf : List ℕ) (e : UdpEndpoint) where
  request-Refines :
      (at : ℕ) (r : Request) (sink : Sink) (l : Lender) (w : World)
      → Models sink l
      → IsDatagramService w
      → Shows buf at (request_packet r)
      → Refines w (answer l e r) (run_request m buf e at r sink w)
  request-Refines at (borrowing id duration count) sink l w mo service shown =
      borrow-Refines m mem sink l w mo service e (u16 id) (u8 duration) (u8 count)
  request-Refines at (enqueueing id b frame) sink l w mo service shown =
      enqueue-Refines m mem sink l w mo service e buf (at + 5 + 3) frame
        (Shows-part (at + 5 + 3) 8 frame shown (omega arith) (omega arith) (take_all frame))
        (u16 id) (u8 b) l.loan (omega arith) mo.loan

  then-Refines :
      (a : Option (Lender × List Packet)) (r : Result (Sink × World)) (u : World)
      (f : Sink × World → Result (Sink × World)) (g : Lender → Option (Lender × List Packet))
      → Refines u a r
      → ((s : Sink) (l : Lender) (w : World) (ps : List Packet)
          → Says u ps w
          → Models s l
          → Refines w (g l) (f (s, w)))
      → Refines u (and_then g a) (r >>= f)
  then-Refines none r u f g h next = rw h
  then-Refines (some x) r u f g (s, w', ran, mo, says) next =
      rw ran (Refines-after (g x.0) (f (s, w')) says (next s x.0 w' x.1 says mo))

  requests-Refines :
      (rs : List Request) (at : ℕ) (sink : Sink) (l : Lender) (w : World)
      → Models sink l
      → IsDatagramService w
      → Shows buf at (request_packets rs)
      → Refines w (serve l e rs) (run_requests m buf e at rs sink w)
  requests-Refines [] at sink l w mo service shown = (sink, w, refl, mo, Says-nothing w)
  requests-Refines (r ∷ rs) at sink l w mo service shown =
      let first : List ℕ = request_packet r in
      let rest : List ℕ = request_packets rs in
      let whole : length (first ++ rest) ≡ length first + length rest = length-append first rest in
      then-Refines (answer l e r) (run_request m buf e at r sink w) w
        (λ x. run_requests m buf e (at + length first) rs x.0 x.1) (λ l'. serve l' e rs)
        (request-Refines at r sink l w mo service (
          Shows-part at 0 first shown (omega arith) (omega (arith, whole)) (slice-left first rest)))
        (λ s l' w' ps says mo'.
          requests-Refines rs (at + length first) s l' w' mo' (service_after says service) (
            Shows-part (at + length first) (length first) rest shown refl (omega (arith, whole))
              (slice-right first rest)))

-- A datagram of at most 1024 bytes has no message that is too long.
AreSendable-small : (rs : List Request) → length (request_packets rs) ≤ 1024 → AreSendable rs
AreSendable-small [] h = omega arith
AreSendable-small (borrowing id duration count ∷ rs) h = (
  omega arith,
  AreSendable-small rs
      (omega (arith, length-append (borrow_packet id duration count) (request_packets rs))),
)
AreSendable-small (enqueueing id b frame ∷ rs) h =
    let whole : length (enqueue_packet id b frame ++ request_packets rs)
        ≡ length (enqueue_packet id b frame) + length (request_packets rs) =
      length-append (enqueue_packet id b frame) (request_packets rs) in
    (omega (arith, whole), AreSendable-small rs (omega (arith, whole)))

-- The time of the datagram is noted, and the buffer is another.
noted :
    (w : World) (a : Option (Lender × List Packet)) (r : Result (Sink × World))
    → Refines w a r
    → Refines w a (r >>= λ x. ok (record x.0 { last_recv_time = now x.1 }, (time_now x.1).1))
unfolding time_now
noted w none r h = rw h
noted w (some x) r (s, w', ran, mo, says) = (
  record s { last_recv_time = now w' },
  (time_now w').1,
  rw ran,
  with_buffer_and_times mo mo.valid.buffer,
  record {
    sent = says.sent;
    calls = says.calls;
    outgoing = says.outgoing;
    incoming = says.incoming;
    clock = says.clock;
  },
)

-- Where no `malloc` fails and datagrams are sent whole, for a sink that stands for a lender and a
-- datagram of at most 1024 bytes that consists of one BORROW or ENQUEUE message or more: if the lender
-- can serve these requests in their order, sink_receive returns, the sink stands for the lender that
-- this leaves, and the replies sent are the lender's that the system did not fail to send; and if the
-- lender cannot, for there are more frames than it has room for, sink_receive runs out of fuel.
pub sink_receive-Refines :
    (m : Machine) (sink : Sink) (l : Lender) (rs : List Request) (sender : UdpEndpoint) (w : World)
    → HasMemory m
    → Models sink l
    → IsDatagramService w
    → w.incoming w.recv_calls ≡ datagram sender (request_packets rs)
    → 0 < length rs
    → length (request_packets rs) ≤ 1024
    → Refines
        (record w { recv_calls = w.recv_calls + 1 })
        (serve l sender rs)
        (sink_receive m sink w)
sink_receive-Refines m sink l rs sender w mem mo service came some_requests small =
    let buf : List ℕ = filled sink rs in
    let w1 : World = record w { recv_calls = w.recv_calls + 1 } in
    let shown : Shows buf 0 (request_packets rs) = record {
      inside =
          omega
            (arith, mo.valid.buffer, small, length-write_at 0 (request_packets rs) sink.recv_buf);
      same =
          slice-write_at_self 0 (request_packets rs) sink.recv_buf (omega (arith, mo.valid.buffer));
    } in
    rw
      (sink_receive-requests m sink rs sender w came
        (omega (arith, length-request_packets m buf sender rs)) small (AreSendable-small rs small)
        mo.valid.buffer)
      (noted w1 (serve l sender rs) _ (
        requests-Refines m mem buf sender rs 0 (record sink { recv_buf = buf }) l w1
          (with_buffer_and_times mo
            (length-write_at 0 (request_packets rs) sink.recv_buf ∙ mo.valid.buffer))
          service shown))
