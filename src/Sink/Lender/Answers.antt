-- ===== src/Sink/Lender/Answers.antt =====
-- The answer of a sink to one request is the lender's.
use atolla.Prelude.{
  ℕ, ◌+◌, ◌<◌, ◌≡◌, refl, ◌∙◌, ap, subst, Bool-cases, inl, inr, true, false, Option, none, some,
  List, ◌++◌, length, ltb, leb, ltb→lt, ltb_false→le, arith, Result, ok, fault, out_of_fuel,
  replicate, ◌>>=◌,
}
use atolla.Prelude.Int.{pos}
use atolla.Machine.{Machine, HasMemory}
use atolla.World.{World, UdpEndpoint, Packet, IsDatagramService, now}
use atolla.Udp.Endpoint.{udp_endpoint_equal}
use atolla.Msg.Builder.{MsgBuilder}
use atolla.Msg.Packet.{lent_packet, fail_packet}
use atolla.Msg.Iter.Decode.{Shows}
use atolla.Sink.State.{Sink, SinkState}
use atolla.Sink.Valid.{IsValid, IsIndex, frame_size}
use atolla.Sink.Valid.Running.{with_fields-IsValid}
use atolla.Sink.Pattern.{bounded_diff}
use atolla.Sink.Pattern.Cyclic.{cyclic}
use atolla.Sink.Send.Replies.{after_send, Follows}
use atolla.Sink.Handle.{sink_handle_borrow, sink_handle_enqueue, take_frame}
use atolla.Sink.Handle.Borrow.{MayBorrow, granted, borrow-granted, borrow-refused, borrow-stranger}
use atolla.Sink.Handle.Senders.{enqueue-refused, enqueue-short_ends_borrow, enqueue-borrower}
use atolla.Sink.Handle.Enqueue.{frame_at, Takes, take_frame-room, take_frame-late}
use atolla.Sink.Lender.{
  Loan, Lender, free, lent_to, HasLoan, as_index, ahead, Models, refuse, lend, may_borrow,
  answer_borrow, answer_enqueue, take_in,
}
use atolla.Sink.Lender.Parts.{HasLoan-same, with_parts}
use atolla.Sink.Lender.Replies.{Says, Says-nothing, after_send-Says}
use atolla.Sink.Lender.Frames.{bounded_diff-ahead, take_frame-overflow}

-- What the code returns, where the lender has an answer; where it has none, the code does not return.
abbrev pub Refines : World → Option (Lender × List Packet) → Result (Sink × World) → Type 0
Refines w none r = r ≡ fault out_of_fuel
Refines w (some x) r = (s : Sink) × (w' : World) × (r ≡ ok (s, w')) × Models s x.0 × Says w x.1 w'

-- A refusal that leaves the loan as it is, or ends it.
said_no :
    (sink : Sink) (l : Lender) (w : World) (e : UdpEndpoint) (id code : ℕ) (state : SinkState)
    (loan : Loan) (b : MsgBuilder) (r : Result (Sink × World))
    → Models sink l
    → Follows sink.builder b
    → HasLoan (record sink { state = state }) loan
    → r
      ≡ ok (
        record sink { state = state; builder = b },
        after_send w (some e) (fail_packet sink.builder.next_msg_id id code),
      )
    → Refines w (refuse (record l { loan = loan }) e id code) r
said_no sink l w e id code state loan b r mo (ready, next) has ran = (
  record sink { state = state; builder = b },
  after_send w (some e) (fail_packet l.next_msg_id id code),
  rw mo.id at ran,
  with_parts mo has ready (rw mo.id at next) mo.valid.buffer,
  after_send-Says w e (fail_packet l.next_msg_id id code)
      (after_send w (some e) (fail_packet l.next_msg_id id code)).clock_calls,
)

-- A grant.
said_yes :
    (sink : Sink) (l : Lender) (w : World) (e : UdpEndpoint) (duration : ℕ) (b : MsgBuilder)
    (r : Result (Sink × World))
    → Models sink l
    → Follows sink.builder b
    → let w1 = after_send w (some e) (lent_packet sink.builder.next_msg_id) in
      r
        ≡ ok (
          record (granted sink duration e) { builder = b; last_send_lent_time = now w1 },
          record w1 { clock_calls = w1.clock_calls + 1 },
        )
      → Refines w (lend l e duration) r
said_yes sink l w e duration b r mo (ready, next) ran =
    let w1 : World = after_send w (some e) (lent_packet l.next_msg_id) in
    (
      record (granted sink duration e) { builder = b; last_send_lent_time = now w1 },
      record w1 { clock_calls = w1.clock_calls + 1 },
      rw mo.id at ran,
      record {
        valid = with_fields-IsValid mo.valid ready mo.valid.buffer refl;
        loan = (refl, refl, refl);
        index = refl;
        id = rw mo.id at next;
        size = mo.size;
      },
      after_send-Says w e (lent_packet l.next_msg_id) (w1.clock_calls + 1),
    )

HasLoan-may_borrow :
    (sink : Sink) (loan : Loan) (e : UdpEndpoint)
    → HasLoan sink loan
    → may_borrow loan e ≡ true
    → MayBorrow sink e
HasLoan-may_borrow sink free e h may = inl h
HasLoan-may_borrow sink (lent_to borrower duration) e (held, by, _) may = inr (held, rw by may)

HasLoan-stranger :
    (sink : Sink) (loan : Loan) (e : UdpEndpoint)
    → HasLoan sink loan
    → may_borrow loan e ≡ false
    → (sink.state ≡ SinkState.lent) × (udp_endpoint_equal e sink.borrower_endpoint ≡ false)
HasLoan-stranger sink free e h may = cc
HasLoan-stranger sink (lent_to borrower duration) e (held, by, _) may = (held, rw by may)

module _ (m : Machine) (mem : HasMemory m) (sink : Sink) (l : Lender) (w : World)
    (mo : Models sink l) (service : IsDatagramService w) (e : UdpEndpoint) where
  pub borrow-Refines :
      (id duration count : ℕ)
      → Refines w
          (answer_borrow l e id duration count)
          (sink_handle_borrow m sink id duration count e w)
  borrow-Refines id duration count = elim (Bool-cases (may_borrow l.loan e)) [
    | inr other ↦
        let (held, unlike) = HasLoan-stranger sink l.loan e mo.loan other in
        let (b, ran, follows) =
          borrow-stranger m sink l.pending w mem mo.valid service id duration count e held unlike in
        rw other (said_no sink l w e id 3 sink.state l.loan b _ mo follows mo.loan ran)
    | inl may ↦
        let may' : MayBorrow sink e = HasLoan-may_borrow sink l.loan e mo.loan may in
        elim (Bool-cases (ltb 128 count)) [
          | inl large ↦
              let (b, ran, follows) =
                borrow-refused m sink l.pending w mem mo.valid service id duration count e may' 1
                  (inl (ltb→lt 128 count large, refl)) in
              rw (may, large)
                (said_no sink l w e id 1 SinkState.opened free b _ mo follows refl ran)
          | inr few ↦ elim (Bool-cases (ltb duration 10)) [
            | inl short ↦
                let (b, ran, follows) =
                  borrow-refused m sink l.pending w mem mo.valid service id duration count e may' 2
                    (inr (ltb_false→le 128 count few, ltb→lt duration 10 short, refl)) in
                rw (may, few, short)
                  (said_no sink l w e id 2 SinkState.opened free b _ mo follows refl ran)
            | inr long ↦
                let (b, ran, follows) =
                  borrow-granted m sink l.pending w mem mo.valid service id duration count e may'
                    (ltb_false→le 128 count few) (ltb_false→le duration 10 long) in
                rw (may, few, long) (said_yes sink l w e duration b _ mo follows ran)
          ]
        ]
  ]

IsIndex-below :
    (sink : Sink) (i : Option ℕ) (a : ℕ)
    → IsIndex sink.last_enqueued_frame_idx
    → sink.last_enqueued_frame_idx ≡ as_index i
    → i ≡ some a
    → a < 256
IsIndex-below sink i a h e k = subst IsIndex (e ∙ ap as_index k) h

module _ (sink : Sink) (l : Lender) (w : World) (mo : Models sink l) (buf : List ℕ) (at : ℕ)
    (p : List ℕ) (shown : Shows buf at p) (some_bytes : 0 < length p) where
  took :
      (s : Sink) (b d : ℕ)
      → IsValid s (l.pending ++ replicate d (cyclic p (frame_size sink)))
      → s.last_enqueued_frame_idx ≡ pos b
      → Takes sink s
      → Models s (record l { pending = l.pending ++ replicate d (cyclic p l.size); index = some b })
  took s b d valid idx takes = record {
    valid = rw mo.size at valid;
    loan =
        HasLoan-same sink s l.loan (ap (λ (t : Sink). t.state) takes)
          (ap (λ (t : Sink). t.borrower_endpoint) takes)
          (ap (λ (t : Sink). t.frame_duration_ms) takes) mo.loan;
    index = idx;
    id = ap (λ (t : Sink). t.builder.next_msg_id) takes ∙ mo.id;
    size = ap frame_size takes ∙ mo.size;
  }

  -- The frame of the borrower.
  take_in-Refines :
      (b : ℕ)
      → b < 256
      → Refines w (take_in l b p) (take_frame sink b (frame_at buf at p) >>= λ s. ok (s, w))
  take_in-Refines b small =
      let d : ℕ = ahead l.index b in
      let diff : bounded_diff sink.last_enqueued_frame_idx (pos b) (pos 256) ≡ pos d =
        ap (λ i. bounded_diff i (pos b) (pos 256)) mo.index
        ∙ bounded_diff-ahead l.index b small
            (λ a. IsIndex-below sink l.index a mo.valid.index mo.index) in
      elim (Bool-cases (ltb 128 d)) [
        | inl late ↦
            rw (late, take_frame-late sink b d (frame_at buf at p) diff (ltb→lt 128 d late))
              (sink, w, refl, mo, Says-nothing w)
        | inr ahead_by ↦ elim (Bool-cases (leb (length l.pending + d) 128)) [
          | inl room ↦
              let (s, ran, valid, idx, takes) =
                take_frame-room buf at p shown some_bytes d sink l.pending b mo.valid small diff
                  (ltb_false→le 128 d ahead_by) (ground arith) in
              rw (ahead_by, room, ran) (s, w, refl, took s b d valid idx takes, Says-nothing w)
          | inr over ↦ rw (
            ahead_by,
            over,
            take_frame-overflow buf at p shown some_bytes d sink l.pending b mo.valid small diff
                (ltb_false→le 128 d ahead_by) (ground arith),
          )
        ]
      ]

module _ (m : Machine) (mem : HasMemory m) (sink : Sink) (l : Lender) (w : World)
    (mo : Models sink l) (service : IsDatagramService w) (e : UdpEndpoint) (buf : List ℕ) (at : ℕ)
    (p : List ℕ) (shown : Shows buf at p) where
  pub enqueue-Refines :
      (id b : ℕ) (loan : Loan)
      → b < 256
      → HasLoan sink loan
      → Refines w
          (answer_enqueue l e id b p loan)
          (sink_handle_enqueue m sink id b (frame_at buf at p) e w)
  enqueue-Refines id b free small has =
      let (builder, ran, follows) =
        enqueue-refused m sink w mem mo.valid.ready service id b (frame_at buf at p) e 0
          (inl (has, refl)) in
      said_no sink l w e id 0 sink.state l.loan builder _ mo follows mo.loan ran
  enqueue-Refines id b (lent_to borrower duration) small (held, by, long) =
      elim (Bool-cases (ltb (length p) 3)) [
        | inl short ↦
            let (builder, ran, follows) =
              enqueue-short_ends_borrow m sink w mem mo.valid.ready service id b (frame_at buf at p)
                e held (ltb→lt (length p) 3 short) in
            rw short (said_no sink l w e id 4 SinkState.opened free builder _ mo follows refl ran)
        | inr enough ↦ elim (Bool-cases (udp_endpoint_equal e borrower)) [
          | inr other ↦
              let (builder, ran, follows) =
                enqueue-refused m sink w mem mo.valid.ready service id b (frame_at buf at p) e 3
                  (inr (held, ltb_false→le (length p) 3 enough, rw by other, refl)) in
              rw (enough, other)
                (said_no sink l w e id 3 sink.state l.loan builder _ mo follows mo.loan ran)
          | inl right ↦
              rw
                (
                  enough,
                  right,
                  enqueue-borrower m sink id b (frame_at buf at p) e w held
                      (ltb_false→le (length p) 3 enough) (rw by right),
                )
                (take_in-Refines sink l w mo buf at p shown
                  (ground (arith, ltb_false→le (length p) 3 enough)) b small)
        ]
      ]
