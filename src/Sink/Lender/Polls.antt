-- ===== src/Sink/Lender/Polls.antt =====
-- atolla_sink_state moves as a lender does.
use atolla.Prelude.{
  ℕ, ◌+◌, ◌≤◌, ◌≡◌, ◌≢◌, refl, sym, ◌∙◌, ap, Bool-cases, inl, inr, ◌⊎◌, Option, none, some, List,
  [], ◌∷◌, ◌++◌, length, ltb, u16, sub_u32, arith, ok, Result, fault, out_of_fuel, ◌>>=◌,
}
use atolla.Machine.{Machine, HasMemory}
use atolla.World.{
  World, UdpEndpoint, Errno, Packet, Incoming, datagram, recv_failed, IsDatagramService, now,
  time_now,
}
use atolla.Udp.Transfer.{received, udp_socket_receive_from}
use atolla.Udp.Failures.{receive_error_lem}
use atolla.Msg.Packet.{lent_packet, fail_packet}
use atolla.Sink.State.{Sink, SinkState}
use atolla.Sink.Send.{sink_send, sink_send_fail, sink_drop_borrow}
use atolla.Sink.Send.Replies.{after_send, send_fail_to_lem, send_lent_lem}
use atolla.Sink.Handle.Datagram.{Request, request_packets}
use atolla.Sink.Run.{drop_silent, sink_receive, sink_update, atolla_sink_state}
use atolla.Sink.Run.Branches.{
  drop_silent-opened, drop_silent-lent, sink_send-opened, sink_send-lent, atolla_sink_state-live,
}
use atolla.Sink.Lender.{Loan, Lender, HasLoan, free, lent_to, counted, message_to, Models, serve}
use atolla.Sink.Lender.Parts.{with_parts}
use atolla.Sink.Lender.Replies.{Says, Says-nothing, Says-trans, after_send-Says}
use atolla.Sink.Lender.Answers.{Refines}
use atolla.Sink.Lender.Datagrams.{sink_receive-Refines, service_after}
use atolla.Sink.Lender.Moves.{serves, lapses, renews, Trace, start, one_move, Trace-trans}

-- The code returns, and what it did are moves of the lender.
abbrev pub Goes : Lender → World → Result (Sink × World) → Type 0
Goes l w r =
    (s : Sink) × (w' : World) × (l' : Lender) × (ps : List Packet) × (r ≡ ok (s, w'))
    × Trace l l' ps
    × Models s l'
    × Says w ps w'

Goes-nothing :
    (s : Sink) (l : Lender) (w w' : World) → Models s l → Says w [] w' → Goes l w (ok (s, w'))
Goes-nothing s l w w' mo says = (s, w', l, [], refl, start, mo, says)

-- One after another.
Goes-then :
    (l : Lender) (w : World) (r : Result (Sink × World)) (f : Sink × World → Result (Sink × World))
    → Goes l w r
    → ((s : Sink) (l' : Lender) (w' : World) (ps : List Packet)
        → Models s l'
        → Says w ps w'
        → Goes l' w' (f (s, w')))
    → Goes l w (r >>= f)
Goes-then l w r f (s, w', l', ps, ran, trace, mo, says) next =
    let (t, w'', l'', qs, ran', trace', mo', says') = next s l' w' ps mo says in
    (t, w'', l'', ps ++ qs, rw ran ran', Trace-trans trace trace', mo', Says-trans says says')

-- A look at the clock.
pub same_but_clock : (w : World) → Says w [] (time_now w).1
unfolding time_now
same_but_clock w =
    let s : Says w [] w = Says-nothing w in
    record { sent = s.sent; calls = s.calls; outgoing = refl; incoming = refl; clock = refl }

module _ (m : Machine) (mem : HasMemory m) where
  sink_send-Goes :
      (loan : Loan) (s : Sink) (l : Lender) (w : World)
      → Models s l
      → HasLoan s loan
      → l.loan ≡ loan
      → IsDatagramService w
      → Goes l w (sink_send m s w)
  unfolding time_now
  sink_send-Goes free s l w mo has same service =
      rw (sink_send-opened m s w has) (Goes-nothing s l w w mo (Says-nothing w))
  sink_send-Goes (lent_to e d) s l w mo (held, by, long) same service =
      rw (sink_send-lent m s w held)
        (elim (Bool-cases (ltb 500 (sub_u32 (now w) s.last_send_lent_time))) [
          | inr early ↦ rw early (Goes-nothing s l w (time_now w).1 mo (same_but_clock w))
          | inl due ↦
              let (b, ran, (ready, next)) =
                send_lent_lem m s (time_now w).1 mem mo.valid.ready service in
              let w2 : World =
                after_send (time_now w).1 (some s.borrower_endpoint)
                  (lent_packet s.builder.next_msg_id) in
              rw (due, ran)
                (
                  record s { builder = b; last_send_lent_time = now w2 },
                  record w2 { clock_calls = w2.clock_calls + 1 },
                  counted l,
                  message_to e (lent_packet l.next_msg_id) ∷ [],
                  refl,
                  one_move (renews e d same),
                  with_parts mo mo.loan ready (next ∙ ap (λ i. u16 (i + 1)) mo.id) mo.valid.buffer,
                  Says-trans (same_but_clock w) (
                      rw (by, mo.id) at
                        (after_send-Says (time_now w).1 s.borrower_endpoint
                          (lent_packet s.builder.next_msg_id) (w2.clock_calls + 1))),
                )
        ])

  -- A call that brought nothing: after 1500 ms of that a loan ends.
  drop_silent-Goes :
      (loan : Loan) (s : Sink) (l : Lender) (w : World)
      → Models s l
      → HasLoan s loan
      → l.loan ≡ loan
      → IsDatagramService w
      → Goes l w (drop_silent m s w)
  unfolding sink_send_fail sink_drop_borrow time_now
  drop_silent-Goes free s l w mo has same service =
      rw (drop_silent-opened m s w has) (Goes-nothing s l w w mo (Says-nothing w))
  drop_silent-Goes (lent_to e d) s l w mo (held, by, long) same service =
      rw (drop_silent-lent m s w held)
        (elim (Bool-cases (ltb 1500 (sub_u32 (now w) s.last_recv_time))) [
          | inr early ↦ rw early (Goes-nothing s l w (time_now w).1 mo (same_but_clock w))
          | inl late ↦
              let (b, ran, (ready, next)) =
                send_fail_to_lem m s (time_now w).1 mem mo.valid.ready service 0 5
                  s.borrower_endpoint in
              let w2 : World =
                after_send (time_now w).1 (some s.borrower_endpoint)
                  (fail_packet s.builder.next_msg_id 0 5) in
              rw (late, ran)
                (
                  record s { state = SinkState.opened; builder = b },
                  w2,
                  record (counted l) { loan = free },
                  message_to e (fail_packet l.next_msg_id 0 5) ∷ [],
                  refl,
                  one_move (lapses e d same),
                  with_parts mo refl ready (next ∙ ap (λ i. u16 (i + 1)) mo.id) mo.valid.buffer,
                  Says-trans (same_but_clock w) (
                      rw (by, mo.id) at
                        (after_send-Says (time_now w).1 s.borrower_endpoint
                          (fail_packet s.builder.next_msg_id 0 5) w2.clock_calls)),
                )
        ])

-- What may come: nothing, or a datagram of requests that the sink's buffer has room for.
pub data IsArrival : Incoming → Type 0 where
  nothing : (e : Errno) → IsArrival (recv_failed e)
  requests :
      (e : UdpEndpoint) (rs : List Request)
      → length (request_packets rs) ≤ 1024
      → IsArrival (datagram e (request_packets rs))

module _ (m : Machine) (mem : HasMemory m) where
  receive_failed :
      (s : Sink) (w : World) (e : Errno)
      → w.incoming w.recv_calls ≡ recv_failed e
      → sink_receive m s w ≡ drop_silent m s (record w { recv_calls = w.recv_calls + 1; errno = e })
  unfolding sink_receive udp_socket_receive_from received
  receive_failed s w e came =
      let (r, failed, bad) = receive_error_lem e in rw (came, failed, bad) refl

  receive_empty :
      (s : Sink) (w : World) (sender : UdpEndpoint)
      → w.incoming w.recv_calls ≡ datagram sender []
      → sink_receive m s w ≡ drop_silent m s (record w { recv_calls = w.recv_calls + 1 })
  unfolding sink_receive udp_socket_receive_from received
  receive_empty s w sender came =
      let (r, failed, bad) = receive_error_lem w.errno in rw (came, failed, bad) refl

-- A datagram with more frames than there is room for.
abbrev pub Overflows : Lender → Incoming → Type 0
Overflows l i =
    (e : UdpEndpoint) × (rs : List Request) × (i ≡ datagram e (request_packets rs))
    × (serve l e rs ≡ none)

-- Another number of the next call of `recvfrom`.
from_call :
    {l : Lender} {w : World} {r : Result (Sink × World)} (n : ℕ) (e : Errno)
    → Goes l (record w { recv_calls = n; errno = e }) r
    → Goes l w r
from_call n e (s, w', l', ps, ran, trace, mo, says) = (
  s,
  w',
  l',
  ps,
  ran,
  trace,
  mo,
  record {
    sent = says.sent;
    calls = says.calls;
    outgoing = says.outgoing;
    incoming = says.incoming;
    clock = says.clock;
  },
)

served :
    {l : Lender} {w : World} {r : Result (Sink × World)} (e : UdpEndpoint) (rs : List Request)
    (a : Option (Lender × List Packet))
    → serve l e rs ≡ a
    → Refines w a r
    → ((serve l e rs ≡ none) × (r ≡ fault out_of_fuel)) ⊎ Goes l w r
served e rs none answer h = inl (answer, h)
served e rs (some (l', ps)) answer (s, w', ran, mo, says) =
    inr (s, w', l', ps, ran, one_move (serves e rs answer), mo, says)

abbrev pub state_of : Loan → SinkState
state_of free = SinkState.opened
state_of (lent_to e duration) = SinkState.lent

HasLoan-state : (s : Sink) (loan : Loan) → HasLoan s loan → s.state ≡ state_of loan
HasLoan-state s free h = h
HasLoan-state s (lent_to e duration) h = h.0

state_of-live : (loan : Loan) → state_of loan ≢ SinkState.error
state_of-live free e = cc
state_of-live (lent_to borrower duration) e = cc

module _ (m : Machine) (mem : HasMemory m) (s : Sink) (l : Lender) (w : World) (mo : Models s l)
    (service : IsDatagramService w) where
  receive-Goes :
      (i : Incoming)
      → w.incoming w.recv_calls ≡ i
      → IsArrival i
      → (Overflows l i × (sink_receive m s w ≡ fault out_of_fuel)) ⊎ Goes l w (sink_receive m s w)
  receive-Goes i came (nothing e) = inr (
      rw (receive_failed m mem s w e came) (
        from_call (w.recv_calls + 1) e (
          drop_silent-Goes m mem l.loan s l (record w { recv_calls = w.recv_calls + 1; errno = e })
            mo mo.loan refl service)))
  receive-Goes i came (requests e [] small) = inr (
      rw (receive_empty m mem s w e came) (
        from_call (w.recv_calls + 1) w.errno (
          drop_silent-Goes m mem l.loan s l (record w { recv_calls = w.recv_calls + 1 }) mo mo.loan
            refl service)))
  receive-Goes i came (requests e (r ∷ rs) small) =
      let all : List Request = r ∷ rs in
      elim (served {w = record w { recv_calls = w.recv_calls + 1 }} e all (serve l e all) refl
        (sink_receive-Refines m s l all e w mem mo service came (omega arith) small)) [
          | inl (full, stuck) ↦ inl ((e, all, refl, full), stuck)
          | inr goes ↦ inr (from_call (w.recv_calls + 1) w.errno goes)
        ]

  -- Where no `malloc` fails and datagrams are sent whole, for a sink that stands for a lender, and
  -- where `recvfrom` fails or brings a datagram of at most 1024 bytes of BORROW and ENQUEUE messages:
  -- either this datagram has more frames than the lender has room for, and atolla_sink_state runs out
  -- of fuel, or atolla_sink_state returns, reports the state of the loan that it leaves, and the sink
  -- stands for a lender that the first one comes to by its moves, with the datagrams of the moves sent
  -- that the system did not fail to send.
  pub atolla_sink_state-Goes :
      (i : Incoming)
      → w.incoming w.recv_calls ≡ i
      → IsArrival i
      → (Overflows l i × (atolla_sink_state m s w ≡ fault out_of_fuel))
        ⊎ ((t : Sink) × (w' : World) × (l' : Lender) × (ps : List Packet) × (atolla_sink_state m s w
              ≡ ok (state_of l'.loan, t, w'))
            × Trace l l' ps
            × Models t l'
            × Says w ps w')
  unfolding sink_update
  atolla_sink_state-Goes i came arrival =
      let live : s.state ≢ SinkState.error =
        λ failed. state_of-live l.loan (sym (HasLoan-state s l.loan mo.loan) ∙ failed) in
      elim (receive-Goes i came arrival) [
        | inl (over, stuck) ↦ inl (over, atolla_sink_state-live m s w live ∙ rw stuck refl)
        | inr goes ↦
            let (t, w', l', ps, ran, trace, mo', says) =
              Goes-then l w (sink_receive m s w) (λ x. sink_send m x.0 x.1) goes
                (λ t l' w' ps mo' says.
                  sink_send-Goes m mem l'.loan t l' w' mo' mo'.loan refl
                    (service_after says service)) in
            inr (
              t,
              w',
              l',
              ps,
              atolla_sink_state-live m s w live ∙ rw (ran, HasLoan-state t l'.loan mo'.loan) refl,
              trace,
              mo',
              says,
            )
      ]
