-- ===== src/Source/Hear/Await.antt =====
-- The loop of source_await_make_completion ends, whatever answers come.
use atolla.Prelude.{
  ℕ, zero, suc, ◌+◌, ◌≤◌, ◌<◌, ◌*◌, ◌/◌, u32, ap₂, ◌≡◌, ◌≢◌, refl, ◌∙◌, ◌⊎◌, inl, inr, Bool-cases,
  none, List, ◌∷◌, false, ltb, sub_u32, arith, Result, ok, ◌>>=◌,
}
use atolla.Machine.{Machine, HasMemory}
use atolla.World.{World, Timespec, Incoming, IsDatagramService, now, time_now}
use atolla.Msg.Packet.{borrow_packet}
use atolla.Sink.Send.Replies.{after_send}
use atolla.Source.State.{Source, SourceState, timed_out_text}
use atolla.Source.Update.{
  source_fail, source_manage_borrow_packet_loss, source_ensure_lent_resent, source_update,
  source_await_make_completion,
}
use atolla.Source.Update.Branches.{manage-waiting, ensure-waiting, ensure-failed}
use atolla.Source.Update.Await.{IsLate, before_late}
use atolla.Source.Update.Borrow.{send_borrow_lem}
use atolla.Source.Hear.{Phase, HasPhase, gone, asking, hear, hear_all, IsWorking}
use atolla.Source.Hear.Datagrams.{still_works}
use atolla.Source.Hear.Phases.{hear-ne_asking, hear_all-ne_asking, Course-ne_asking, HasPhase-state}
use atolla.Source.Hear.Turns.{
  GoesOn, GoesOn-trans, GoesOn-service, HasWaited-GoesOn, after_send-GoesOn, after_send-counts,
}
use atolla.Source.Hear.Gives.{answers_on}
use atolla.Source.Hear.Updates.{
  IsAnswer, nothing, replies, source_receive-Hears, receive_nothing, checks-Works, clock_read,
}

-- The source is done with waiting, and can go on.
abbrev pub Ends : World → Result (Source × World) → Type 0
Ends w r =
    (s : Source) × (w' : World) × (r ≡ ok (s, w'))
    × (s.state ≢ SourceState.waiting)
    × IsWorking s
    × ((p : Phase) × HasPhase s p)
    × GoesOn w w'

-- It waits on, the time for the borrow was not over, and the clock was read.
record WaitsOn (s : Source) (w : World) (s' : Source) (w' : World) : Type 0 where
  pub works : IsWorking s'
  pub waiting : s'.state ≡ SourceState.waiting
  pub first : s'.first_borrow_time ≡ s.first_borrow_time
  pub timeout : s'.disconnect_timeout_ms ≡ s.disconnect_timeout_ms
  pub on : GoesOn w w'
  pub read : w.clock_calls < w'.clock_calls
  pub few : w'.clock_calls ≤ w.clock_calls + 2
  pub early : ltb s.disconnect_timeout_ms (sub_u32 (now w) s.first_borrow_time) ≡ false

abbrev Round : Source → World → Result (Source × World) → Type 0
Round s w r = Ends w r ⊎ ((s' : Source) × (w' : World) × (r ≡ ok (s', w')) × WaitsOn s w s' w')

-- A reading of a clock.
abbrev now_of : (ℕ → Timespec) → ℕ → ℕ
now_of clock i = u32 ((clock i).tv_sec * 1000 + (clock i).tv_nsec / 1000000)

later-IsLate :
    (i : ℕ) (s : Source) (w : World) (s' : Source) (w' : World)
    → s'.first_borrow_time ≡ s.first_borrow_time
    → s'.disconnect_timeout_ms ≡ s.disconnect_timeout_ms
    → w'.clock ≡ w.clock
    → IsLate w s i
    → IsLate w' s' i
later-IsLate i s w s' w' first timeout clock late = rw (first, timeout, clock) late

module _ (m : Machine) (mem : HasMemory m) where
  -- Nothing came: the source gives up, asks again or waits.
  unanswered :
      (s : Source) (w w1 : World)
      → IsWorking s
      → s.state ≡ SourceState.waiting
      → IsDatagramService w1
      → GoesOn w w1
      → w1.clock_calls ≡ w.clock_calls
      → Round s w
          (source_manage_borrow_packet_loss m s w1 >>= λ y. source_ensure_lent_resent m y.0 y.1)
  unfolding time_now source_fail
  unanswered s w w1 works waiting service on count =
      let now_same : now w1 ≡ now w = ap₂ (λ clock i. now_of clock i) on.clock count in
      elim (Bool-cases (ltb s.disconnect_timeout_ms (sub_u32 (now w1) s.first_borrow_time))) [
        | inl late ↦ inl (
          source_fail s timed_out_text,
          (time_now w1).1,
          rw (manage-waiting m s w1 waiting, late)
              (ensure-failed m (source_fail s timed_out_text) (time_now w1).1 refl),
          (λ e. cc),
          still_works works works.ready works.buffer,
          (gone timed_out_text, (refl, refl)),
          GoesOn-trans w w1 (time_now w1).1 on (clock_read w1),
        )
        | inr early ↦
            elim (Bool-cases (ltb s.retry_timeout_ms (sub_u32 (now w1) s.last_borrow_time))) [
              | inl again ↦
                  let (b, sent, (ready, _)) =
                    send_borrow_lem m s (time_now w1).1 mem works.ready service in
                  let bytes : List ℕ =
                    borrow_packet s.builder.next_msg_id s.frame_duration_ms s.max_buffered_frames in
                  let w2 : World = record w1 { clock_calls = w1.clock_calls + 1 + 1 } in
                  let asked : Source = record s {
                    last_borrow_time = now (time_now w1).1;
                    builder = b;
                  } in
                  let w3 : World = after_send w2 none bytes in
                  inr (
                    asked,
                    w3,
                    rw (manage-waiting m s w1 waiting, early, again, sent)
                        (ensure-waiting m asked w3 waiting),
                    record {
                      works = still_works works ready works.buffer;
                      waiting = waiting;
                      first = refl;
                      timeout = refl;
                      on =
                          GoesOn-trans w w2 w3
                            (record {
                              outgoing = on.outgoing;
                              incoming = on.incoming;
                              clock = on.clock;
                            })
                            (after_send-GoesOn w2 bytes);
                      read = omega (arith, count, (after_send-counts w2 bytes).1);
                      few = omega (arith, count, (after_send-counts w2 bytes).1);
                      early = rw now_same at early;
                    },
                  )
              | inr not_yet ↦ inr (
                s,
                (time_now w1).1,
                rw (manage-waiting m s w1 waiting, early, not_yet)
                    (ensure-waiting m s (time_now w1).1 waiting),
                record {
                  works = works;
                  waiting = waiting;
                  first = refl;
                  timeout = refl;
                  on = GoesOn-trans w w1 (time_now w1).1 on (clock_read w1);
                  read = omega (arith, count);
                  few = omega (arith, count);
                  early = rw now_same at early;
                },
              )
            ]
      ]

  answered :
      (s : Source) (w : World) (i : Incoming)
      → IsWorking s
      → s.state ≡ SourceState.waiting
      → IsDatagramService w
      → w.incoming w.recv_calls ≡ i
      → IsAnswer i
      → Round s w (source_update m s w)
  unfolding source_update
  answered s w i works waiting service came (replies e r rs small) = inl (
      let (s1, w1, ran, works1, has1, waits) =
        source_receive-Hears m s asking (r ∷ rs) e w works waiting came (omega arith) small in
      let read : World = record w { recv_calls = w.recv_calls + 1 } in
      let on : GoesOn w w1 =
        GoesOn-trans w read w1 record { outgoing = refl; incoming = refl; clock = refl }
          (HasWaited-GoesOn read w1 waits) in
      let (s2, w2, q, ran', works2, has2, turn, on2) =
        checks-Works m mem s1 (hear_all asking (r ∷ rs)) w1 works1 has1
          (GoesOn-service on service) in
      (
        s2,
        w2,
        rw ran ran',
        HasPhase-state s2 q has2 (
            Course-ne_asking (hear_all-ne_asking rs (hear asking r) (hear-ne_asking asking r))
              turn),
        works2,
        (q, has2),
        GoesOn-trans w w1 w2 on on2,
      ))
  answered s w i works waiting service came (nothing e) =
      let w1 : World = record w { recv_calls = w.recv_calls + 1; errno = e } in
      rw (receive_nothing m s w e came) (
        unanswered s w w1 works waiting service
          record { outgoing = refl; incoming = refl; clock = refl } refl)

  await_waiting :
      (fuel : ℕ) (s : Source) (w : World)
      → s.state ≡ SourceState.waiting
      → source_await_make_completion m (suc fuel) s w
        ≡ (source_update m s w >>= λ x. source_await_make_completion m fuel x.0 x.1)
  unfolding source_await_make_completion
  await_waiting fuel s w waiting = ground arith

  await_done :
      (fuel : ℕ) (s : Source) (w : World)
      → s.state ≢ SourceState.waiting
      → source_await_make_completion m fuel s w ≡ ok (s, w)
  unfolding source_await_make_completion
  await_done zero s w ne = ground arith
  await_done (suc fuel) s w ne = ground arith

  -- With fuel for each reading of the clock up to one that is late, as all after it are.
  pub await_rounds :
      (fuel d : ℕ) (s : Source) (w : World)
      → IsWorking s
      → s.state ≡ SourceState.waiting
      → IsDatagramService w
      → ((i : ℕ) → IsAnswer (w.incoming i))
      → IsLate w s d
      → IsLate w s (d + 1)
      → w.clock_calls ≤ d + 1
      → 0 < fuel
      → d < w.clock_calls + fuel
      → Ends w (source_await_make_completion m fuel s w)
  await_rounds zero d s w works waiting service answers late late' ahead some_fuel enough =
      absurd (omega arith)
  await_rounds (suc fuel) d s w works waiting service answers late late' ahead some_fuel enough =
      elim (answered s w (w.incoming w.recv_calls) works waiting service refl
        (answers w.recv_calls)) [
          | inl (s', w', ran, ne, works', has, on) ↦ (
            s',
            w',
            await_waiting fuel s w waiting ∙ rw ran (await_done fuel s' w' ne),
            ne,
            works',
            has,
            on,
          )
          | inr (s', w', ran, on) ↦
              let soon : w.clock_calls < d = before_late s w d on.early late late' ahead in
              let (t, v, ended, ne, works', has, on') =
                await_rounds fuel d s' w' on.works on.waiting (GoesOn-service on.on service)
                  (answers_on on.on answers)
                  (later-IsLate d s w s' w' on.first on.timeout on.on.clock late)
                  (later-IsLate (d + 1) s w s' w' on.first on.timeout on.on.clock late')
                  (omega (arith, soon, on.few)) (omega (arith, soon)) (omega (arith, on.read)) in
              (
                t,
                v,
                await_waiting fuel s w waiting ∙ rw ran ended,
                ne,
                works',
                has,
                GoesOn-trans w w' v on.on on',
              )
        ]

-- Where no `malloc` fails and datagrams are sent whole, for a waiting source with its buffers and
-- frames of at least 1 ms, where each call of `recvfrom` fails or brings a datagram of at most 32
-- bytes of LENT and FAIL messages: source_await_make_completion returns, with more rounds of fuel than
-- there are readings of the clock up to one of number d, if that one and the next are longer after the
-- first borrow than the disconnect timeout. The source does not wait then.
pub await-Ends :
    (m : Machine) (fuel d : ℕ) (s : Source) (w : World)
    → HasMemory m
    → IsWorking s
    → s.state ≡ SourceState.waiting
    → IsDatagramService w
    → ((i : ℕ) → IsAnswer (w.incoming i))
    → IsLate w s d
    → IsLate w s (d + 1)
    → w.clock_calls ≤ d
    → d < w.clock_calls + fuel
    → (s' : Source) × (w' : World) × (source_await_make_completion m fuel s w ≡ ok (s', w'))
      × (s'.state ≢ SourceState.waiting)
await-Ends m fuel d s w mem works waiting service answers late late' ahead enough =
    let (s', w', ended, ne, _, _, _) =
      await_rounds m mem fuel d s w works waiting service answers late late' (omega arith)
        (omega arith) enough in
    (s', w', ended, ne)
