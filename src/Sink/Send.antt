-- ===== src/Sink/Send.antt =====
-- The messages that a sink sends, and its changes of state: sink_send_lent, sink_send_fail_to,
-- sink_send_fail, sink_send, sink_drop_borrow and sink_panic of src/atolla/sink.cpp.
pub mod Replies
use Prim.Native.String.{String}
use atolla.Prelude.{ℕ, Bool, true, false, some, ltb, if◌then◌else◌, sub_u32, Result, ok, ◌>>=◌}
use atolla.Machine.{Machine}
use atolla.World.{World, UdpEndpoint, time_now}
use atolla.Udp.Transfer.{udp_socket_send_to}
use atolla.Mem.Block.{load}
use atolla.Msg.Builder.{msg_builder_lent, msg_builder_fail}
use atolla.Sink.State.{Sink, SinkState, lent_send_interval}

module _ (m : Machine) where
  unfoldable pub sink_send_lent : Sink → World → Result (Sink × World)
  sink_send_lent sink w = do
    b ← msg_builder_lent m sink.builder
    bytes ← load b.msg_buf.bytes b.msg_buf.size
    (_, w1) ← udp_socket_send_to (some sink.socket) bytes (some sink.borrower_endpoint) w
    let (t, w2) = time_now w1
    ok (record sink { builder = b; last_send_lent_time = t }, w2)

  unfoldable pub sink_send_fail_to : Sink → ℕ → ℕ → UdpEndpoint → World → Result (Sink × World)
  sink_send_fail_to sink offending_msg_id error_code to w = do
    b ← msg_builder_fail m sink.builder offending_msg_id error_code
    bytes ← load b.msg_buf.bytes b.msg_buf.size
    (_, w1) ← udp_socket_send_to (some sink.socket) bytes (some to) w
    ok (record sink { builder = b }, w1)

  unfoldable pub sink_send_fail : Sink → ℕ → ℕ → World → Result (Sink × World)
  sink_send_fail sink offending_msg_id error_code w =
      sink_send_fail_to sink offending_msg_id error_code sink.borrower_endpoint w

  -- The time is only read where the sink is lent.
  unfoldable pub sink_send : Sink → World → Result (Sink × World)
  sink_send sink w = elim sink.state [
    | SinkState.lent ↦
        let (t, w1) = time_now w in
        if ltb lent_send_interval (sub_u32 t sink.last_send_lent_time)
        then sink_send_lent sink w1
        else ok (sink, w1)
    | _ ↦ ok (sink, w)
  ]

unfoldable pub sink_drop_borrow : Sink → Sink
sink_drop_borrow sink = record sink { state = SinkState.opened }

unfoldable pub sink_panic : Sink → String → Sink
sink_panic sink msg = record sink { state = SinkState.error; error_msg = some msg }
