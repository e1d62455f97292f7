-- ===== src/Source/Update/Advance.antt =====
-- The states that a source goes through, whatever it receives.
use Prim.Native.String.{String}
use atolla.Prelude.{
  ℕ, zero, suc, ◌≡◌, refl, ◌∙◌, ◌⊎◌, inl, inr, Bool-cases, some, Result, ok, fault, ltb, leb,
  sub_u32, Ensures, Ensures-bind, Ensures-ok, arith,
}
use atolla.Machine.{Machine}
use atolla.World.{World, now, time_now}
use atolla.Udp.Results.{is_ok}
use atolla.Udp.Transfer.{udp_socket_receive_from, udp_socket_send, Reception}
use atolla.Mem.Block.{load}
use atolla.Msg.Kind.{MsgType}
use atolla.Msg.Builder.{msg_builder_borrow}
use atolla.Msg.Iter.{
  MsgIter, msg_iter_type, msg_iter_next, msg_iter_has_msg, msg_iter_fail_error_code, msg_iter_make,
}
use atolla.Source.State.{
  Source, SourceState, recv_buf_len, fail_text, malformed_text, timed_out_text, lost_text,
}
use atolla.Source.Update.{
  source_fail, source_lent, source_send_borrow, source_handle_msg, source_msgs,
  source_iterate_recv_buf, source_receive, source_manage_borrow_packet_loss,
  source_ensure_lent_resent, source_update,
}

-- A source stays in its state, opens while it waits, or fails with a text.
pub data Advance (s s' : Source) : Type 0 where
  stays : s'.state ≡ s.state → s'.error_msg ≡ s.error_msg → Advance s s'
  opens : s.state ≡ SourceState.waiting → s'.state ≡ SourceState.opened → Advance s s'
  fails : (text : String) → s'.state ≡ SourceState.error → s'.error_msg ≡ some text → Advance s s'

Advance-trans : {s t u : Source} → Advance s t → Advance t u → Advance s u
Advance-trans (stays p q) (stays p' q') = stays (p' ∙ p) (q' ∙ q)
Advance-trans (stays p q) (opens p' q') = opens (cc) q'
Advance-trans a (fails text p q) = fails text p q
Advance-trans (opens p q) (stays p' q') = opens p (p' ∙ q)
Advance-trans (opens p q) (opens p' q') = opens p q'
Advance-trans (fails text p q) (stays p' q') = fails text (p' ∙ p) (q' ∙ q)
Advance-trans (fails text p q) (opens p' q') = absurd (cc)

abbrev To : Source → Source × World → Type 0
To s x = Advance s x.0

Ensures-trans :
    (s t : Source) (r : Result (Source × World)) → Advance s t → Ensures (To t) r → Ensures (To s) r
Ensures-trans s t (ok x) a h = Advance-trans a h
Ensures-trans s t (fault e) a h = tt

State-cases :
    (x : SourceState)
    → (x ≡ SourceState.waiting) ⊎ ((x ≡ SourceState.opened) ⊎ (x ≡ SourceState.error))
State-cases SourceState.waiting = inl refl
State-cases SourceState.opened = inr (inl refl)
State-cases SourceState.error = inr (inr refl)

lent-Advance : (s : Source) (w : World) → Advance s (source_lent s w).0
unfolding source_lent
lent-Advance s w = elim (State-cases s.state) [
  | inl waiting ↦ opens waiting (ground arith)
  | inr (inl opened) ↦ stays (ground arith) (ground arith)
  | inr (inr failed) ↦ stays (ground arith) (ground arith)
]

module _ (m : Machine) where
  handle_typed :
      (type : MsgType) (s : Source) (iter : MsgIter) (w : World)
      → msg_iter_type iter ≡ ok type
      → Ensures (To s) (source_handle_msg m s iter w)
  unfolding source_handle_msg source_fail
  handle_typed MsgType.lent s iter w e = rw e (lent-Advance s w)
  handle_typed MsgType.fail s iter w e = rw e (
      Ensures-bind (To s) (msg_iter_fail_error_code m iter) _
        (λ code _. fails (fail_text code) refl refl))
  handle_typed MsgType.borrow s iter w e = rw e (fails malformed_text refl refl)
  handle_typed MsgType.enqueue s iter w e = rw e (fails malformed_text refl refl)

  handle-Advance :
      (s : Source) (iter : MsgIter) (w : World) → Ensures (To s) (source_handle_msg m s iter w)
  unfolding source_handle_msg
  handle-Advance s iter w =
      Ensures-bind (To s) (msg_iter_type iter) _
        (λ type e. rw (source_handle_msg, e) at (handle_typed type s iter w e))

  msgs-Advance :
      (fuel : ℕ) (s : Source) (iter : MsgIter) (w : World)
      → Ensures (To s) (source_msgs m fuel s iter w)
  unfolding source_msgs
  msgs-Advance zero s iter w = elim (Bool-cases (msg_iter_has_msg iter)) [
    | inl more ↦ rw more tt
    | inr done ↦ rw done (stays refl refl)
  ]
  msgs-Advance (suc fuel) s iter w = elim (Bool-cases (msg_iter_has_msg iter)) [
    | inl more ↦ rw more (
        Ensures-bind (To s) (source_handle_msg m s iter w) _ (λ x e.
          Ensures-bind (To s) (msg_iter_next m iter) _ (λ next _.
            Ensures-trans s x.0 (source_msgs m fuel x.0 next x.1)
              (Ensures-ok (To s) (source_handle_msg m s iter w) x e (handle-Advance s iter w))
              (msgs-Advance fuel x.0 next x.1))))
    | inr done ↦ rw done (stays refl refl)
  ]

  receive-Advance : (s : Source) (w : World) → Ensures (To s) (source_receive m s w)
  unfolding source_receive source_iterate_recv_buf
  receive-Advance s w =
      Ensures-bind (To s) (udp_socket_receive_from (some s.sock) s.recv_buf recv_buf_len w) _
        (λ x _.
          let r : Reception = x.0 in
          let s1 : Source = record s { recv_buf = r.packet_data } in
          elim (Bool-cases (is_ok r.result.code)) [
            | inl fine ↦ rw fine (
                Ensures-trans s s1
                  (source_msgs m r.received_byte_count s1
                    (msg_iter_make s1.recv_buf r.received_byte_count) x.1)
                  (stays refl refl)
                  (msgs-Advance r.received_byte_count s1
                    (msg_iter_make s1.recv_buf r.received_byte_count) x.1))
            | inr bad ↦ rw bad (stays refl refl)
          ])

  send_borrow-Advance : (s : Source) (w : World) → Ensures (To s) (source_send_borrow m s w)
  unfolding source_send_borrow
  send_borrow-Advance s w =
      Ensures-bind (To s) (msg_builder_borrow m s.builder s.frame_duration_ms s.max_buffered_frames)
        _
        (λ b _. Ensures-bind (To s) (load b.msg_buf.bytes b.msg_buf.size) _ (λ bytes _.
          Ensures-bind (To s) (udp_socket_send (some s.sock) bytes (time_now w).1) _
            (λ x _. stays refl refl)))

  manage-Advance :
      (s : Source) (w : World) → Ensures (To s) (source_manage_borrow_packet_loss m s w)
  unfolding source_manage_borrow_packet_loss source_fail time_now
  manage-Advance s w = elim (State-cases s.state) [
    | inl waiting ↦
        elim (Bool-cases (ltb s.disconnect_timeout_ms (sub_u32 (now w) s.first_borrow_time))) [
          | inl late ↦ rw (waiting, late) (fails timed_out_text refl refl)
          | inr early ↦
              elim (Bool-cases (ltb s.retry_timeout_ms (sub_u32 (now w) s.last_borrow_time))) [
                | inl again ↦
                    rw (waiting, early, again)
                      (send_borrow-Advance (record s { state = SourceState.waiting })
                        (time_now w).1)
                | inr not_yet ↦ rw (waiting, early, not_yet) (stays refl refl)
              ]
        ]
    | inr (inl opened) ↦ rw opened (stays refl refl)
    | inr (inr failed) ↦ rw failed (stays refl refl)
  ]

  ensure-Advance : (s : Source) (w : World) → Ensures (To s) (source_ensure_lent_resent m s w)
  unfolding source_ensure_lent_resent source_fail time_now
  ensure-Advance s w = elim (State-cases s.state) [
    | inl waiting ↦ rw waiting (stays refl refl)
    | inr (inl opened) ↦
        elim (Bool-cases (leb s.disconnect_timeout_ms (sub_u32 (now w) s.last_recv_lent_time))) [
          | inl late ↦ rw (opened, late) (fails lost_text refl refl)
          | inr early ↦ rw (opened, early) (stays refl refl)
        ]
    | inr (inr failed) ↦ rw failed (stays refl refl)
  ]

  update-Advance : (s : Source) (w : World) → Ensures (To s) (source_update m s w)
  unfolding source_update
  update-Advance s w = Ensures-bind (To s) (source_receive m s w) _ (λ x ex.
      Ensures-trans s x.0 _ (Ensures-ok (To s) (source_receive m s w) x ex (receive-Advance s w)) (
        Ensures-bind (To x.0) (source_manage_borrow_packet_loss m x.0 x.1) _ (λ y ey.
          Ensures-trans x.0 y.0 _
            (Ensures-ok (To x.0) (source_manage_borrow_packet_loss m x.0 x.1) y ey
              (manage-Advance x.0 x.1))
            (ensure-Advance y.0 y.1))))

-- A source after any number of updates, each in a world of its own.
pub data Reached (m : Machine) (s : Source) : Source → Type 0 where
  at_start : Reached m s s
  updated :
      {t u : Source}
      → Reached m s t
      → (w w' : World) → source_update m t w ≡ ok (u, w')
      → Reached m s u

-- Through any number of calls of source_update that return, each in whatever surroundings, a source
-- keeps its state and text, or goes from waiting to open, or ends in an error with a text: no call
-- makes it wait again, and none takes it out of an error.
pub Reached-Advance : {m : Machine} {s t : Source} → Reached m s t → Advance s t
Reached-Advance at_start = stays refl refl
Reached-Advance {m} {s} (updated {t} {u} before w w' e) =
    Advance-trans (Reached-Advance before)
      (Ensures-ok (To t) (source_update m t w) (u, w') e (update-Advance m t w))

-- An error is final.
pub error-is_final :
    {m : Machine} {s t : Source}
    → Reached m s t
    → s.state ≡ SourceState.error
    → t.state ≡ SourceState.error
error-is_final {m} {s} {t} before e = elim (Reached-Advance before) [
  | stays p q ↦ p ∙ e
  | opens p q ↦ absurd (cc)
  | fails text p q ↦ p
]
