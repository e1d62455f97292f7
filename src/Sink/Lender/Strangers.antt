-- ===== src/Sink/Lender/Strangers.antt =====
-- What an endpoint that is not the borrower can do to a lent sink.
use atolla.Prelude.{
  ℕ, ◌+◌, ◌≤◌, ◌<◌, ◌≡◌, refl, ◌∙◌, ap, subst, false, some, List, [], ◌∷◌, length, le→ltb, u8, u16,
  ok,
}
use atolla.Machine.{Machine, HasMemory}
use atolla.World.{World, UdpEndpoint, Packet, datagram, IsDatagramService}
use atolla.Udp.Endpoint.{udp_endpoint_equal}
use atolla.Msg.Packet.{fail_packet}
use atolla.Sink.State.{Sink}
use atolla.Sink.Handle.Datagram.{Request, borrowing, enqueueing, request_packets}
use atolla.Sink.Run.{sink_receive}
use atolla.Sink.Lender.{
  Lender, lent_to, Models, may_borrow, message_to, refuse, counted, after_saying, and_then, answer,
  answer_enqueue, serve,
}
use atolla.Sink.Lender.Replies.{Says}
use atolla.Sink.Lender.Answers.{Refines}
use atolla.Sink.Lender.Datagrams.{sink_receive-Refines}

-- A frame has at least the three bytes of a colour.
abbrev pub IsColored : Request → Type 0
IsColored (borrowing id duration count) = 0 ≤ id
IsColored (enqueueing id b frame) = 3 ≤ length frame

abbrev pub AreColored : List Request → Type 0
AreColored [] = 0 ≤ 0
AreColored (r ∷ rs) = IsColored r × AreColored rs

abbrev id_of : Request → ℕ
id_of (borrowing id duration count) = u16 id
id_of (enqueueing id b frame) = u16 id

-- One FAIL message for each request.
abbrev pub refusals : UdpEndpoint → ℕ → List Request → List Packet
refusals e n [] = []
refusals e n (r ∷ rs) = message_to e (fail_packet n (id_of r) 3) ∷ refusals e (u16 (n + 1)) rs

abbrev pub id_after : ℕ → List Request → ℕ
id_after n [] = n
id_after n (r ∷ rs) = id_after (u16 (n + 1)) rs

module _ (e borrower : UdpEndpoint) (duration : ℕ)
    (other : udp_endpoint_equal e borrower ≡ false) where
  stranger-may_borrow :
      (l : Lender) → l.loan ≡ lent_to borrower duration → may_borrow l.loan e ≡ false
  stranger-may_borrow l held = ap (λ loan. may_borrow loan e) held ∙ other

  answer-stranger :
      (r : Request) (l : Lender)
      → l.loan ≡ lent_to borrower duration
      → IsColored r
      → answer l e r ≡ refuse l e (id_of r) 3
  answer-stranger (borrowing id d count) l held long = rw (stranger-may_borrow l held) refl
  answer-stranger (enqueueing id b frame) l held long =
      ap (answer_enqueue l e (u16 id) (u8 b) frame) held
      ∙ rw (le→ltb (length frame) 3 long, other) refl

  serve-refusals :
      (rs : List Request) (l : Lender)
      → l.loan ≡ lent_to borrower duration
      → AreColored rs
      → serve l e rs
        ≡ some (record l { next_msg_id = id_after l.next_msg_id rs }, refusals e l.next_msg_id rs)
  serve-refusals [] l held colored = refl
  serve-refusals (r ∷ rs) l held (long, colored) =
      ap (and_then (λ l'. serve l' e rs)) (answer-stranger r l held long)
      ∙ ap (after_saying (message_to e (fail_packet l.next_msg_id (id_of r) 3) ∷ []))
          (serve-refusals rs (counted l) held colored)

-- Where no `malloc` fails and datagrams are sent whole, for a sink that stands for a lender that has
-- lent to another endpoint than the sender: a datagram of at most 1024 bytes that consists of one
-- BORROW or ENQUEUE message or more, with frames of three bytes or more, leaves the loan, the pending
-- frames and the index as they are in sink_receive, which returns and answers each message with one
-- FAIL message for the code 3.
pub receive-keeps_out :
    (m : Machine) (sink : Sink) (l : Lender) (rs : List Request) (sender borrower : UdpEndpoint)
    (duration : ℕ) (w : World)
    → HasMemory m
    → Models sink l
    → l.loan ≡ lent_to borrower duration
    → udp_endpoint_equal sender borrower ≡ false
    → IsDatagramService w
    → w.incoming w.recv_calls ≡ datagram sender (request_packets rs)
    → 0 < length rs
    → length (request_packets rs) ≤ 1024
    → AreColored rs
    → (s : Sink) × (w' : World) × (sink_receive m sink w ≡ ok (s, w'))
      × Models s (record l { next_msg_id = id_after l.next_msg_id rs })
      × Says (record w { recv_calls = w.recv_calls + 1 }) (refusals sender l.next_msg_id rs) w'
receive-keeps_out m sink l rs sender borrower duration w mem mo held other service came
      some_requests small colored =
    subst (λ a. Refines (record w { recv_calls = w.recv_calls + 1 }) a (sink_receive m sink w))
      (serve-refusals sender borrower duration other rs l held colored)
      (sink_receive-Refines m sink l rs sender w mem mo service came some_requests small)
