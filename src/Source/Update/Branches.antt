-- ===== src/Source/Update/Branches.antt =====
-- The two checks of source_update by the state that the source is in.
use atolla.Prelude.{◌≡◌, if◌then◌else◌, ltb, leb, sub_u32, ok, arith}
use atolla.Machine.{Machine}
use atolla.World.{World, now, time_now}
use atolla.Source.State.{Source, SourceState, timed_out_text, lost_text}
use atolla.Source.Update.{
  source_fail, source_send_borrow, source_manage_borrow_packet_loss, source_ensure_lent_resent,
}

module _ (m : Machine) (s : Source) (w : World) where
  -- The branches, by the state.
  pub manage-waiting :
      s.state ≡ SourceState.waiting
      → source_manage_borrow_packet_loss m s w ≡ (
          if ltb s.disconnect_timeout_ms (sub_u32 (now w) s.first_borrow_time)
          then ok (source_fail s timed_out_text, (time_now w).1)
          else if ltb s.retry_timeout_ms (sub_u32 (now w) s.last_borrow_time)
          then source_send_borrow m s (time_now w).1
          else ok (s, (time_now w).1))
  unfolding source_manage_borrow_packet_loss time_now
  manage-waiting waiting = ground arith

  pub manage-opened :
      s.state ≡ SourceState.opened → source_manage_borrow_packet_loss m s w ≡ ok (s, w)
  unfolding source_manage_borrow_packet_loss
  manage-opened opened = ground arith

  pub manage-failed :
      s.state ≡ SourceState.error → source_manage_borrow_packet_loss m s w ≡ ok (s, w)
  unfolding source_manage_borrow_packet_loss
  manage-failed failed = ground arith

  pub ensure-waiting : s.state ≡ SourceState.waiting → source_ensure_lent_resent m s w ≡ ok (s, w)
  unfolding source_ensure_lent_resent
  ensure-waiting waiting = ground arith

  pub ensure-opened :
      s.state ≡ SourceState.opened
      → source_ensure_lent_resent m s w ≡ (
          if leb s.disconnect_timeout_ms (sub_u32 (now w) s.last_recv_lent_time)
          then ok (source_fail s lost_text, (time_now w).1)
          else ok (s, (time_now w).1))
  unfolding source_ensure_lent_resent time_now
  ensure-opened opened = ground arith

  pub ensure-failed : s.state ≡ SourceState.error → source_ensure_lent_resent m s w ≡ ok (s, w)
  unfolding source_ensure_lent_resent
  ensure-failed failed = ground arith
