-- ===== src/Source/Put/Whole.antt =====
-- The whole of atolla_source_put, while nothing comes from the sink.
use atolla.Prelude.{
  ℕ, ◌+◌, ◌/◌, ◌%◌, ◌≤◌, ◌<◌, ◌≡◌, refl, ◌∙◌, ap, sym, subst, true, false, inl, inr, none, Bool,
  Result, Bool-cases, List, [], ◌∷◌, ◌++◌, length, arith, ok, ◌==◌, gt→leb, sub_u32, u32, ◌>>=◌,
  if◌then◌else◌,
}
use atolla.Prelude.Int.{ℤ, pos, ltb_ℤ, int_of_u32}
use atolla.Machine.{Machine, HasMemory}
use atolla.World.{World, Errno, done, now, time_now, IsDatagramService}
use atolla.Msg.Packet.{enqueue_packet}
use atolla.Msg.Builder.Encode.{IsReady}
use atolla.Sink.Send.Replies.{after_send}
use atolla.Source.State.{Source, SourceState, null_time}
use atolla.Source.Update.{
  source_manage_borrow_packet_loss, source_ensure_lent_resent, source_update, atolla_source_state,
}
use atolla.Source.Update.States.{IsSilent, after_silence, receive_silence}
use atolla.Source.Update.Await.{StaysSilent}
use atolla.Source.Put.{
  frames_behind, ready_timeout, note_frame, atolla_source_put_ready_timeout, send_frame,
  atolla_source_put,
}
use atolla.Source.Put.Frame.{send_frame_lem, note_frame-counts}

-- The reading of the clock with that number is not late for the last LENT message.
abbrev pub IsHeard : World → Source → ℕ → Type 0
IsHeard w s i =
    sub_u32 (now (record w { clock_calls = i })) s.last_recv_lent_time < s.disconnect_timeout_ms

-- Only the clock was read.
abbrev pub HasWaited : World → World → Type 0
HasWaited w w' = (w' ≡ record w { clock_calls = w'.clock_calls }) × (w.clock_calls ≤ w'.clock_calls)

-- The test of atolla_source_put.
abbrev pub gate :
    SourceState
    → Result (Bool × Source × World)
    → Result (Bool × Source × World)
    → Result (Bool × Source × World)
gate x a b = elim x [ SourceState.opened ↦ a | _ ↦ b ]

pub gate_opened :
    (x : SourceState) (a b : Result (Bool × Source × World))
    → x ≡ SourceState.opened
    → gate x a b ≡ a
gate_opened x a b e = rw e refl

pub gate_waiting :
    (x : SourceState) (a b : Result (Bool × Source × World))
    → x ≡ SourceState.waiting
    → gate x a b ≡ b
gate_waiting x a b e = rw e refl

pub gate_failed :
    (x : SourceState) (a b : Result (Bool × Source × World))
    → x ≡ SourceState.error
    → gate x a b ≡ b
gate_failed x a b e = rw e refl

module _ (m : Machine) (s : Source) where
  update-opened :
      (w : World)
      → s.state ≡ SourceState.opened
      → IsSilent w
      → IsHeard w s w.clock_calls
      → source_update m s w ≡ ok (s, record (after_silence w) { clock_calls = w.clock_calls + 1 })
  unfolding source_update source_manage_borrow_packet_loss source_ensure_lent_resent time_now
  update-opened w opened quiet heard =
      rw (receive_silence m s w quiet, opened, gt→leb _ _ heard) refl

  update-failed :
      (w : World)
      → s.state ≡ SourceState.error
      → IsSilent w
      → source_update m s w ≡ ok (s, after_silence w)
  unfolding source_update source_manage_borrow_packet_loss source_ensure_lent_resent
  update-failed w failed quiet = rw (receive_silence m s w quiet, failed) refl

  timeout_opened :
      (w : World)
      → s.state ≡ SourceState.opened
      → ready_timeout s w ≡ (
          if s.last_frame_time == null_time
          then ok (pos 0, w)
          else (frames_behind s w >>= λ x.
              if ltb_ℤ (pos 0) x.0
              then ok (pos 0, x.1)
              else ok (
                int_of_u32
                    (sub_u32 (u32 (s.last_frame_time + s.frame_duration_ms)) (time_now x.1).0),
                (time_now x.1).1,
              )))
  unfolding ready_timeout time_now
  timeout_opened w opened = ground arith

  pub behind_returns :
      (w : World)
      → 0 < s.frame_duration_ms
      → (n : ℤ) × (frames_behind s w ≡ ok (n, record w { clock_calls = w.clock_calls + 1 }))
  unfolding frames_behind time_now
  behind_returns w some_time =
      let nonzero : (s.frame_duration_ms == 0) ≡ false = ground arith in
      (int_of_u32 (sub_u32 (now w) s.last_frame_time / s.frame_duration_ms), rw nonzero refl)

  pub ready_timeout-returns :
      (w : World)
      → s.state ≡ SourceState.opened
      → 0 < s.frame_duration_ms
      → (t : ℤ) × (w' : World) × (ready_timeout s w ≡ ok (t, w')) × HasWaited w w'
  unfolding time_now
  ready_timeout-returns w opened some_time =
      let (n, behind) = behind_returns w some_time in
      elim (Bool-cases (s.last_frame_time == null_time)) [
        | inl first ↦ (pos 0, w, timeout_opened w opened ∙ rw first refl, (refl, omega arith))
        | inr later ↦ elim (Bool-cases (ltb_ℤ (pos 0) n)) [
          | inl due ↦ (
            pos 0,
            record w { clock_calls = w.clock_calls + 1 },
            timeout_opened w opened ∙ rw (later, behind, due) refl,
            (refl, omega arith),
          )
          | inr early ↦ (
            int_of_u32 (
                sub_u32 (u32 (s.last_frame_time + s.frame_duration_ms))
                  (now (record w { clock_calls = w.clock_calls + 1 }))),
            record w { clock_calls = w.clock_calls + 1 + 1 },
            timeout_opened w opened ∙ rw (later, behind, early) refl,
            (refl, omega arith),
          )
        ]
      ]

  put_opened :
      (frame : List ℕ) (w w' : World) (t : ℤ) (w1 w2 : World)
      → s.state ≡ SourceState.opened
      → source_update m s w ≡ ok (s, w1)
      → source_update m s w1 ≡ ok (s, w2)
      → atolla_source_put_ready_timeout m s w2 ≡ ok (t, s, w')
      → atolla_source_put m s frame w ≡ send_frame m s frame w'
  unfolding atolla_source_put atolla_source_state
  put_opened frame w w' t w1 w2 opened first second third =
      rw (first, second)
        (gate_opened s.state
            (atolla_source_put_ready_timeout m s w2 >>= λ x. send_frame m x.1 frame x.2)
            (ok (false, s, w2)) opened
          ∙ rw third refl)

  -- What the three updates of atolla_source_put leave of the surroundings, and the wait.
  abbrev AfterUpdates : World → World → Type 0
  AfterUpdates w w' = w' ≡ record w {
    recv_calls = w.recv_calls + 1 + 1 + 1;
    errno = Errno.eagain;
    clock_calls = w'.clock_calls;
  }

  put_through :
      (frame : List ℕ) (w : World)
      → s.state ≡ SourceState.opened
      → 0 < s.frame_duration_ms
      → StaysSilent w
      → IsHeard w s w.clock_calls
      → IsHeard w s (w.clock_calls + 1)
      → IsHeard w s (w.clock_calls + 1 + 1)
      → (w' : World) × (atolla_source_put m s frame w ≡ send_frame m s frame w') × AfterUpdates w w'
  unfolding atolla_source_put_ready_timeout
  put_through frame w opened some_time silent heard heard1 heard2 =
      let w1 : World = record (after_silence w) { clock_calls = w.clock_calls + 1 } in
      let w2 : World = record (after_silence w1) { clock_calls = w.clock_calls + 1 + 1 } in
      let w3 : World = record (after_silence w2) { clock_calls = w.clock_calls + 1 + 1 + 1 } in
      let first = update-opened w opened (silent w.recv_calls (omega arith)) heard in
      let second = update-opened w1 opened (silent (w.recv_calls + 1) (omega arith)) heard1 in
      let third = update-opened w2 opened (silent (w.recv_calls + 1 + 1) (omega arith)) heard2 in
      let (t, w', waited, (same, _)) = ready_timeout-returns w3 opened some_time in
      (w', put_opened frame w w' t w1 w2 opened first second (rw (third, waited) refl), same)

-- Where no `malloc` fails, datagrams are sent whole and the builder owns its buffer, while nothing
-- comes from the sink: atolla_source_put of a frame of at most 65532 bytes, on an open source with
-- frames of at least 1 ms that has heard from its sink within the disconnect timeout at each of its
-- three updates, answers `true` if the system sends the ENQUEUE message with the next ID and frame
-- index. That datagram is then the only one sent; the source stays open and counts the frame index on
-- modulo 256.
pub put-sends :
    (m : Machine) (s : Source) (frame : List ℕ) (w : World)
    → HasMemory m
    → IsReady s.builder
    → IsDatagramService w
    → s.state ≡ SourceState.opened
    → 0 < s.frame_duration_ms
    → StaysSilent w
    → IsHeard w s w.clock_calls
    → IsHeard w s (w.clock_calls + 1)
    → IsHeard w s (w.clock_calls + 1 + 1)
    → length frame ≤ 65532
    → let bytes = enqueue_packet s.builder.next_msg_id s.next_frame_idx frame in
      w.outgoing w.send_calls (length bytes) ≡ done (length bytes)
      → (s' : Source) × (w' : World) × (atolla_source_put m s frame w ≡ ok (true, s', w'))
        × (w'.sent ≡ w.sent ++ (record { to = none; bytes = bytes } ∷ []))
        × (s'.state ≡ SourceState.opened)
        × (s'.next_frame_idx ≡ (s.next_frame_idx + 1) % 256)
put-sends m s frame w mem ready service opened some_time silent heard heard1 heard2 small out =
    let (w1, put, same) = put_through m s frame w opened some_time silent heard heard1 heard2 in
    let bytes : List ℕ = enqueue_packet s.builder.next_msg_id s.next_frame_idx frame in
    let out' : w1.outgoing w1.send_calls (length bytes) ≡ done (length bytes) =
      ap (λ (v : World). v.outgoing v.send_calls (length bytes)) same ∙ out in
    let (b, _, sent) =
      send_frame_lem m s frame w1 mem ready (subst IsDatagramService (sym same) service) small in
    let after : Source × World = note_frame (record s { builder = b }) (after_send w1 none bytes) in
    let (kept, counted, held) =
      note_frame-counts (record s { builder = b }) (after_send w1 none bytes) in
    (
      after.0,
      after.1,
      put ∙ sent ∙ rw out' refl,
      kept
          ∙ rw out' (ap (λ (v : World). v.sent ++ (record { to = none; bytes = bytes } ∷ [])) same),
      held ∙ opened,
      counted,
    )

-- For a source in its error state, while nothing comes: atolla_source_put answers `false`, sends
-- nothing, and leaves the source as it is.
pub put-refuses :
    (m : Machine) (s : Source) (frame : List ℕ) (w : World)
    → s.state ≡ SourceState.error
    → StaysSilent w
    → atolla_source_put m s frame w ≡ ok (false, s, after_silence (after_silence w))
unfolding atolla_source_put atolla_source_state
put-refuses m s frame w failed silent =
    rw
      (
        update-failed m s w failed (silent w.recv_calls (omega arith)),
        update-failed m s (after_silence w) failed (silent (w.recv_calls + 1) (omega arith)),
      )
      (gate_failed s.state _ (ok (false, s, after_silence (after_silence w))) failed)
