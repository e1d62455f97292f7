-- ===== src/Sink/Lender.antt =====
-- What a sink promises to its sources, without bytes, buffers and rings: an abstract lender. The sink of
-- src/atolla/sink.cpp is held against it.
pub mod Replies
pub mod Parts
pub mod Frames
pub mod Answers
pub mod Datagrams
pub mod Moves
pub mod Polls
pub mod Shows
pub mod Calls
pub mod Strangers
pub mod Lives
use atolla.Prelude.{
  ℕ, ◌+◌, ◌-◌, ◌%◌, ◌≡◌, Bool, true, Option, none, some, List, [], ◌∷◌, ◌++◌, ltb, leb,
  if◌then◌else◌, length, replicate, u8, u16,
}
use atolla.Prelude.Int.{ℤ, pos, negsuc}
use atolla.World.{UdpEndpoint, Packet}
use atolla.Udp.Endpoint.{udp_endpoint_equal}
use atolla.Msg.Packet.{lent_packet, fail_packet}
use atolla.Sink.State.{Sink, SinkState}
use atolla.Sink.Valid.{IsValid, frame_size}
use atolla.Sink.Pattern.Cyclic.{cyclic}
use atolla.Sink.Handle.Datagram.{Request, borrowing, enqueueing}

-- To whom the lights are lent, and for how many milliseconds each frame is shown.
pub data Loan : Type 0 where
  free : Loan
  lent_to : UdpEndpoint → ℕ → Loan

-- The frames that wait, oldest first; the index of the last one, if the loan had one; the ID of the next
-- message; and the bytes of a frame.
pub record Lender : Type 0 where
  pub loan : Loan
  pub pending : List (List ℕ)
  pub index : Option ℕ
  pub next_msg_id : ℕ
  pub size : ℕ

-- What is sent to a source.
abbrev pub message_to : UdpEndpoint → List ℕ → Packet
message_to e bytes = record { to = some e; bytes = bytes }

abbrev pub counted : Lender → Lender
counted l = record l { next_msg_id = u16 (l.next_msg_id + 1) }

abbrev pub refuse : Lender → UdpEndpoint → ℕ → ℕ → Option (Lender × List Packet)
refuse l e id code = some (counted l, message_to e (fail_packet l.next_msg_id id code) ∷ [])

abbrev pub may_borrow : Loan → UdpEndpoint → Bool
may_borrow free e = true
may_borrow (lent_to borrower duration) e = udp_endpoint_equal e borrower

abbrev pub lend : Lender → UdpEndpoint → ℕ → Option (Lender × List Packet)
lend l e duration = some (
  record (counted l) { loan = lent_to e duration; index = none },
  message_to e (lent_packet l.next_msg_id) ∷ [],
)

abbrev pub answer_borrow : Lender → UdpEndpoint → ℕ → ℕ → ℕ → Option (Lender × List Packet)
answer_borrow l e id duration count =
    if may_borrow l.loan e
    then if ltb 128 count
      then refuse (record l { loan = free }) e id 1
      else if ltb duration 10
      then refuse (record l { loan = free }) e id 2
      else lend l e duration
    else refuse l e id 3

-- How many frames an index stands for: those since the last one, modulo 256, or since the loan began.
abbrev pub ahead : Option ℕ → ℕ → ℕ
ahead none b = b + 1
ahead (some a) b = (256 + b - a) % 256

-- A frame counts for each index since the last one. More than 128 at once is a frame that came late; more
-- than there is room for is more than a lender can take.
abbrev pub take_in : Lender → ℕ → List ℕ → Option (Lender × List Packet)
take_in l b frame =
    if ltb 128 (ahead l.index b)
    then some (l, [])
    else if leb (length l.pending + ahead l.index b) 128
    then some (
      record l {
        pending = l.pending ++ replicate (ahead l.index b) (cyclic frame l.size);
        index = some b;
      },
      [],
    )
    else none

abbrev pub answer_enqueue :
    Lender → UdpEndpoint → ℕ → ℕ → List ℕ → Loan → Option (Lender × List Packet)
answer_enqueue l e id b frame free = refuse l e id 0
answer_enqueue l e id b frame (lent_to borrower duration) =
    if ltb (length frame) 3
    then refuse (record l { loan = free }) e id 4
    else if udp_endpoint_equal e borrower
    then take_in l b frame
    else refuse l e id 3

-- What a request asks for, with the fields that a message has room for.
abbrev pub answer : Lender → UdpEndpoint → Request → Option (Lender × List Packet)
answer l e (borrowing id duration count) = answer_borrow l e (u16 id) (u8 duration) (u8 count)
answer l e (enqueueing id b frame) = answer_enqueue l e (u16 id) (u8 b) frame l.loan

abbrev pub after_saying :
    List Packet → Option (Lender × List Packet) → Option (Lender × List Packet)
after_saying ps none = none
after_saying ps (some (l, qs)) = some (l, ps ++ qs)

abbrev pub and_then :
    (Lender → Option (Lender × List Packet))
    → Option (Lender × List Packet)
    → Option (Lender × List Packet)
and_then next none = none
and_then next (some (l, ps)) = after_saying ps (next l)

-- One request after another, with all that is sent.
abbrev pub serve : Lender → UdpEndpoint → List Request → Option (Lender × List Packet)
serve l e [] = some (l, [])
serve l e (r ∷ rs) = and_then (λ l'. serve l' e rs) (answer l e r)

abbrev pub HasLoan : Sink → Loan → Type 0
HasLoan sink free = sink.state ≡ SinkState.opened
HasLoan sink (lent_to borrower duration) =
    (sink.state ≡ SinkState.lent)
    × (sink.borrower_endpoint ≡ borrower)
    × (sink.frame_duration_ms ≡ duration)

-- The code's -1 is no index.
abbrev pub as_index : Option ℕ → ℤ
as_index none = negsuc 0
as_index (some b) = pos b

-- A valid sink that stands for a lender.
pub record Models (sink : Sink) (l : Lender) : Type 0 where
  pub valid : IsValid sink l.pending
  pub loan : HasLoan sink l.loan
  pub index : sink.last_enqueued_frame_idx ≡ as_index l.index
  pub id : sink.builder.next_msg_id ≡ l.next_msg_id
  pub size : frame_size sink ≡ l.size
