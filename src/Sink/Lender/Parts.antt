-- ===== src/Sink/Lender/Parts.antt =====
-- The parts of a sink that its lender does not see, or sees one by one.
use atolla.Prelude.{ℕ, ◌≡◌, ◌∙◌, refl, List, length}
use atolla.Msg.Builder.{MsgBuilder}
use atolla.Msg.Builder.Encode.{IsReady}
use atolla.Sink.State.{Sink, SinkState}
use atolla.Sink.Valid.Running.{with_fields-IsValid}
use atolla.Sink.Lender.{Loan, Lender, free, lent_to, HasLoan, Models}

-- A loan is in three fields.
pub HasLoan-same :
    (s t : Sink) (loan : Loan)
    → t.state ≡ s.state
    → t.borrower_endpoint ≡ s.borrower_endpoint
    → t.frame_duration_ms ≡ s.frame_duration_ms
    → HasLoan s loan
    → HasLoan t loan
HasLoan-same s t free a b c h = a ∙ h
HasLoan-same s t (lent_to borrower duration) a b c (held, by, long) = (a ∙ held, b ∙ by, c ∙ long)

-- Another state, builder, buffer or time of a message.
pub with_parts :
    {s : Sink} {l : Lender} {state : SinkState} {builder : MsgBuilder} {buf : List ℕ}
    {recv_time send_time id : ℕ} {loan : Loan}
    → Models s l
    → HasLoan (record s { state = state }) loan
    → IsReady builder
    → builder.next_msg_id ≡ id
    → length buf ≡ 1024
    → Models
        (record s {
          state = state;
          builder = builder;
          recv_buf = buf;
          last_recv_time = recv_time;
          last_send_lent_time = send_time;
        })
        (record l { loan = loan; next_msg_id = id })
with_parts {s} {l} {state} {builder} {buf} {recv_time} {send_time} {loan = loan} mo has ready next
      size =
    record {
      valid = with_fields-IsValid mo.valid ready size mo.valid.index;
      loan =
          HasLoan-same (record s { state = state })
            (record s {
              state = state;
              builder = builder;
              recv_buf = buf;
              last_recv_time = recv_time;
              last_send_lent_time = send_time;
            })
            loan refl refl refl has;
      index = mo.index;
      id = next;
      size = mo.size;
    }

-- No change of the loan or the builder.
pub with_buffer_and_times :
    {s : Sink} {l : Lender} {buf : List ℕ} {recv_time send_time : ℕ}
    → Models s l
    → length buf ≡ 1024
    → Models
        (record s { recv_buf = buf; last_recv_time = recv_time; last_send_lent_time = send_time })
        l
with_buffer_and_times mo size = with_parts mo mo.loan mo.valid.ready mo.id size
