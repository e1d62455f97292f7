-- ===== src/Source/Hear/Puts.antt =====
-- Each call that a program makes of a source returns: atolla_source_state, the calls that say when a put does not
-- wait, and atolla_source_put.
use atolla.Prelude.{
  ℕ, ◌+◌, ◌-◌, ◌*◌, ◌%◌, ◌^◌, ◌≤◌, ◌≡◌, refl, sym, ◌∙◌, inl, inr, Bool, true, false, Bool-cases,
  none, List, length, ◌==◌, subst, u32, sub_u32, arith, Result, ok, ◌>>=◌,
}
use atolla.Machine.{Machine, HasMemory}
use atolla.World.{World, IsDatagramService, now, time_now}
use atolla.Msg.Builder.{MsgBuilder}
use atolla.Msg.Packet.{enqueue_packet}
use atolla.Sink.Send.Replies.{after_send, is_done}
use atolla.Source.State.{Source, null_time}
use atolla.Source.Update.{source_update, atolla_source_state}
use atolla.Source.Put.{
  ready_count, ready_timeout, note_frame, send_frame, atolla_source_put_ready_count,
  atolla_source_put_ready_timeout, atolla_source_put,
}
use atolla.Source.Put.Frame.{send_frame_lem}
use atolla.Source.Put.Whole.{gate, gate_opened, gate_waiting, gate_failed}
use atolla.Source.Hear.{Phase, asking, holding, gone, HasPhase, HasPhase-same, IsWorking, HasWaited}
use atolla.Source.Hear.Datagrams.{still_works, HasWaited-refl, HasWaited-read}
use atolla.Source.Hear.Reads.{timeout-Reads, count-Reads}
use atolla.Source.Hear.Turns.{
  Course-refl, Course-trans, quiet-Course, waits-Course, after_send-counts, GoesOn, GoesOn-refl,
  GoesOn-trans, GoesOn-service, HasWaited-GoesOn, after_send-GoesOn, Works,
}
use atolla.Source.Hear.Updates.{IsAnswer, source_update-Works}
use atolla.Source.Hear.Gives.{Gives, Gives-then, Gives-bind, ok_then, answers_on, read-Gives}

note_frame_lem :
    (s : Source) (w : World)
    → (t : ℕ) × (w' : World) × (note_frame s w
        ≡ (record s { next_frame_idx = (s.next_frame_idx + 1) % 256; last_frame_time = t }, w'))
      × HasWaited w w'
unfolding note_frame time_now
note_frame_lem s w = elim (Bool-cases (s.last_frame_time == null_time)) [
  | inl first ↦ (
    sub_u32 (now w) (u32 (u32 (s.max_buffered_frames + 2 ^ 32 - 1) * s.frame_duration_ms)),
    (time_now w).1,
    rw first refl,
    HasWaited-read w,
  )
  | inr later ↦ (u32 (s.last_frame_time + s.frame_duration_ms), w, rw later refl, HasWaited-refl w)
]

module _ (m : Machine) (mem : HasMemory m) where
  send_frame-Gives :
      (s : Source) (p : Phase) (frame : List ℕ) (w : World)
      → IsWorking s
      → HasPhase s p
      → IsDatagramService w
      → length frame ≤ 65532
      → Gives s w p (send_frame m s frame w)
  send_frame-Gives s p frame w works has service small =
      let (b, (ready, _), sent) = send_frame_lem m s frame w mem works.ready service small in
      let bytes : List ℕ = enqueue_packet s.builder.next_msg_id s.next_frame_idx frame in
      let counted : MsgBuilder → ℕ → Source = λ b t. record s {
        builder = b;
        next_frame_idx = (s.next_frame_idx + 1) % 256;
        last_frame_time = t;
      } in
      let built : Source = record s { builder = b } in
      let w1 : World = after_send w none bytes in
      let (t, w2, noted, waits) = note_frame_lem built w1 in
      let counts = after_send-counts w bytes in
      let on : GoesOn w w1 = after_send-GoesOn w bytes in
      elim (Bool-cases (is_done (w.outgoing w.send_calls (length bytes)))) [
        | inl out ↦ (
          true,
          counted b t,
          w2,
          p,
          sent ∙ rw (out, noted) refl,
          still_works works ready works.buffer,
          HasPhase-same s (counted b t) p refl refl has,
          Course-trans
              (quiet-Course s p w built w1 refl refl refl on counts.0 (omega (arith, counts.1)))
              (waits-Course built p w1 (counted b t) w2 refl refl refl waits),
          GoesOn-trans w w1 w2 on (HasWaited-GoesOn w1 w2 waits),
        )
        | inr lost ↦ (
          false,
          built,
          w1,
          p,
          sent ∙ rw lost refl,
          still_works works ready works.buffer,
          HasPhase-same s built p refl refl has,
          quiet-Course s p w built w1 refl refl refl on counts.0 (omega (arith, counts.1)),
          on,
        )
      ]

  module _ (s : Source) (p : Phase) (w : World) (works : IsWorking s) (has : HasPhase s p)
      (service : IsDatagramService w) (answers : (i : ℕ) → IsAnswer (w.incoming i)) where
    updates : Works s w p (source_update m s w)
    updates = source_update-Works m mem s p w works has service (answers w.recv_calls)

    pub state-Gives : Gives s w p (atolla_source_state m s w)
    unfolding atolla_source_state
    state-Gives =
        Gives-then s w p (source_update m s w) (λ x. ok (x.0.state, x.0, x.1)) updates
          (λ s1 w1 q works1 has1 on.
            (s1.state, s1, w1, q, refl, works1, has1, Course-refl s1 q w1, GoesOn-refl w1))

    pub ready_count-Gives : Gives s w p (atolla_source_put_ready_count m s w)
    unfolding atolla_source_put_ready_count
    ready_count-Gives =
        Gives-then s w p (source_update m s w)
          (λ x. ready_count x.0 x.1 >>= λ y. ok (y.0, x.0, y.1)) updates
          (λ s1 w1 q works1 has1 on.
            read-Gives s1 q w1 (ready_count s1 w1) works1 has1 (count-Reads m q s1 w1 works1 has1))

    pub ready_timeout-Gives : Gives s w p (atolla_source_put_ready_timeout m s w)
    unfolding atolla_source_put_ready_timeout
    ready_timeout-Gives =
        Gives-then s w p (source_update m s w)
          (λ x. ready_timeout x.0 x.1 >>= λ y. ok (y.0, x.0, y.1)) updates
          (λ s1 w1 q works1 has1 on.
            read-Gives s1 q w1 (ready_timeout s1 w1) works1 has1
              (timeout-Reads m q s1 w1 works1 has1))

  -- The end of atolla_source_put, from the test of the state on.
  put_rest-Gives :
      (p : Phase) (s : Source) (frame : List ℕ) (w : World)
      → IsWorking s
      → HasPhase s p
      → IsDatagramService w
      → ((i : ℕ) → IsAnswer (w.incoming i))
      → length frame ≤ 65532
      → Gives s w p (
          gate s.state
            (atolla_source_put_ready_timeout m s w >>= λ x. send_frame m x.1 frame x.2)
            (ok (false, s, w)))
  put_rest-Gives asking s frame w works has service answers small = (
    false,
    s,
    w,
    asking,
    gate_waiting s.state _ (ok (false, s, w)) has,
    works,
    has,
    Course-refl s asking w,
    GoesOn-refl w,
  )
  put_rest-Gives holding s frame w works has service answers small =
      let rest : Result (Bool × Source × World) =
        atolla_source_put_ready_timeout m s w >>= λ x. send_frame m x.1 frame x.2 in
      let (done, t, w', q, ran, works', has', turn, on) =
        Gives-bind s w holding (atolla_source_put_ready_timeout m s w)
          (λ x. send_frame m x.1 frame x.2)
          (ready_timeout-Gives s holding w works has service answers)
          (λ x s1 w1 q1 works1 has1 on1.
            send_frame-Gives s1 q1 frame w1 works1 has1 (GoesOn-service on1 service) small) in
      (
        done,
        t,
        w',
        q,
        gate_opened s.state rest (ok (false, s, w)) has ∙ ran,
        works',
        has',
        turn,
        on,
      )
  put_rest-Gives (gone text) s frame w works has service answers small = (
    false,
    s,
    w,
    gone text,
    gate_failed s.state _ (ok (false, s, w)) has.0,
    works,
    has,
    Course-refl s (gone text) w,
    GoesOn-refl w,
  )

  -- From the second update on: the state that is tested is the source's.
  put_again-Gives :
      (s : Source) (p : Phase) (frame : List ℕ) (w : World)
      → IsWorking s
      → HasPhase s p
      → IsDatagramService w
      → ((i : ℕ) → IsAnswer (w.incoming i))
      → length frame ≤ 65532
      → Gives s w p (
          atolla_source_state m s w >>= λ y.
          gate y.0
            (atolla_source_put_ready_timeout m y.1 y.2 >>= λ z. send_frame m z.1 frame z.2)
            (ok (false, y.1, y.2)))
  unfolding atolla_source_state
  put_again-Gives s p frame w works has service answers small =
      let rest : Source × World → Result (Bool × Source × World) = λ y.
        gate y.0.state
          (atolla_source_put_ready_timeout m y.0 y.1 >>= λ z. send_frame m z.1 frame z.2)
          (ok (false, y.0, y.1)) in
      subst (Gives s w p) (sym (ok_then (source_update m s w) _ _)) (
        Gives-then s w p (source_update m s w) rest (updates s p w works has service answers)
          (λ s1 w1 q works1 has1 on.
            put_rest-Gives q s1 frame w1 works1 has1 (GoesOn-service on service)
              (answers_on on answers) small))

  pub put-Gives :
      (s : Source) (p : Phase) (frame : List ℕ) (w : World)
      → IsWorking s
      → HasPhase s p
      → IsDatagramService w
      → ((i : ℕ) → IsAnswer (w.incoming i))
      → length frame ≤ 65532
      → Gives s w p (atolla_source_put m s frame w)
  unfolding atolla_source_put
  put-Gives s p frame w works has service answers small =
      Gives-then s w p (source_update m s w)
        (λ x. atolla_source_state m x.0 x.1 >>= λ y.
          gate y.0 (atolla_source_put_ready_timeout m y.1 y.2 >>= λ z. send_frame m z.1 frame z.2)
            (ok (false, y.1, y.2)))
        (updates s p w works has service answers)
        (λ s1 w1 q works1 has1 on.
          put_again-Gives s1 q frame w1 works1 has1 (GoesOn-service on service)
            (answers_on on answers) small)
