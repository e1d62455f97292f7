-- ===== src/Sink/Run/Branches.antt =====
-- The calls of Sink/Run by the state that the sink is in.
use atolla.Prelude.{
  ℕ, ◌≡◌, ◌≢◌, inl, inr, none, if◌then◌else◌, ltb, ◌==◌, sub_u32, ok, ◌>>=◌, arith,
}
use atolla.Machine.{Machine}
use atolla.World.{World, now, time_now}
use atolla.Mem.Block.{Ptr}
use atolla.Sink.State.{Sink, SinkState, null_time}
use atolla.Sink.Send.{sink_send_lent, sink_send, sink_send_fail, sink_drop_borrow}
use atolla.Sink.Run.{
  drop_silent, sink_update, atolla_sink_state, catch_up, show_frame, get_first, atolla_sink_get,
}
use atolla.Sink.State.Cases.{SinkState-cases}

module _ (m : Machine) where
  -- The branches, by the state.
  pub drop_silent-opened :
      (sink : Sink) (w : World)
      → sink.state ≡ SinkState.opened
      → drop_silent m sink w ≡ ok (sink, w)
  unfolding drop_silent
  drop_silent-opened sink w free = ground arith

  pub drop_silent-lent :
      (sink : Sink) (w : World)
      → sink.state ≡ SinkState.lent
      → drop_silent m sink w ≡ (
          if ltb 1500 (sub_u32 (now w) sink.last_recv_time)
          then (sink_send_fail m sink 0 5 (time_now w).1 >>= λ x. ok (sink_drop_borrow x.0, x.1))
          else ok (sink, (time_now w).1))
  unfolding drop_silent time_now
  drop_silent-lent sink w held = ground arith

  pub sink_send-opened :
      (sink : Sink) (w : World) → sink.state ≡ SinkState.opened → sink_send m sink w ≡ ok (sink, w)
  unfolding sink_send
  sink_send-opened sink w free = ground arith

  pub sink_send-lent :
      (sink : Sink) (w : World)
      → sink.state ≡ SinkState.lent
      → sink_send m sink w ≡ (
          if ltb 500 (sub_u32 (now w) sink.last_send_lent_time)
          then sink_send_lent m sink (time_now w).1
          else ok (sink, (time_now w).1))
  unfolding sink_send time_now
  sink_send-lent sink w held = ground arith

  pub atolla_sink_state-live :
      (sink : Sink) (w : World)
      → sink.state ≢ SinkState.error
      → atolla_sink_state m sink w ≡ (sink_update m sink w >>= λ x. ok (x.0.state, x.0, x.1))
  unfolding atolla_sink_state
  atolla_sink_state-live sink w live = elim (SinkState-cases sink.state) [
    | inl free ↦ ground arith
    | inr (inl held) ↦ ground arith
    | inr (inr failed) ↦ absurd (live failed)
  ]

-- The branches, by the state and the origin of time.
pub get-opened :
    (sink : Sink) (out : Ptr) (len : ℕ) (w : World)
    → sink.state ≡ SinkState.opened
    → atolla_sink_get sink out len w ≡ ok (none, sink, w)
unfolding atolla_sink_get
get-opened sink out len w free = ground arith

pub get-lent :
    (sink : Sink) (out : Ptr) (len : ℕ) (w : World)
    → sink.state ≡ SinkState.lent
    → atolla_sink_get sink out len w ≡ (
        if sink.time_origin == null_time
        then get_first sink out len w
        else (catch_up 129 (now w) sink >>= λ s.
            show_frame s out len >>= λ p. ok (p, s, (time_now w).1)))
unfolding atolla_sink_get time_now
get-lent sink out len w held = ground arith
