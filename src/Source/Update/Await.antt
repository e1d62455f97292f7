-- ===== src/Source/Update/Await.antt =====
-- The end of the loop in source_await_make_completion, on a network that is silent.
use atolla.Prelude.{
  ℕ, zero, suc, ◌+◌, ◌≤◌, ◌<◌, ◌≡◌, refl, ◌∙◌, inl, inr, none, some, List, arith, ok, ltb,
  Bool-cases, ltb→lt, lt→ltb, sub_u32, false, ap, ltb_false→le, subst, sym, ◌≢◌, ◌>>=◌,
}
use atolla.Machine.{Machine, HasMemory}
use atolla.World.{
  World, SysResult, done, failed, IsDatagramService, Errno, recv_failed, now, time_now,
}
use atolla.Msg.Packet.{borrow_packet}
use atolla.Msg.Builder.Encode.{IsReady}
use atolla.Sink.Send.Replies.{after_send_with}
use atolla.Source.State.{Source, SourceState, timed_out_text}
use atolla.Source.Update.{
  source_fail, source_manage_borrow_packet_loss, source_ensure_lent_resent, source_update,
  source_await_make_completion,
}
use atolla.Source.Update.States.{
  IsSilent, after_silence, after_retry, receive_silence, update-retries,
}

-- No call of `recvfrom` from now on brings anything.
abbrev pub StaysSilent : World → Type 0
StaysSilent w = (i : ℕ) → w.recv_calls ≤ i → w.incoming i ≡ recv_failed Errno.eagain

-- The reading of the clock with that number is late for a first borrow at that time.
abbrev pub IsLate : World → Source → ℕ → Type 0
IsLate w s i =
    s.disconnect_timeout_ms < sub_u32 (now (record w { clock_calls = i })) s.first_borrow_time

-- The loop ended in an error for the timeout.
abbrev pub TimesOut : Machine → ℕ → Source → World → Type 0
TimesOut m fuel s w =
    (s' : Source) × (w' : World) × (source_await_make_completion m fuel s w ≡ ok (s', w'))
    × (s'.state ≡ SourceState.error)
    × (s'.error_msg ≡ some timed_out_text)

elsewhere :
    (s : Source) (w : World) (i : ℕ)
    → ltb s.disconnect_timeout_ms (sub_u32 (now w) s.first_borrow_time) ≡ false
    → IsLate w s i
    → w.clock_calls ≢ i
elsewhere s w i early late e =
    let here : IsLate w s w.clock_calls = subst (IsLate w s) (sym e) late in
    let past : s.disconnect_timeout_ms < sub_u32 (now w) s.first_borrow_time = here in
    absurd (ground (arith, early, past))

-- Of two readings that follow each other one is noticed.
pub before_late :
    (s : Source) (w : World) (d : ℕ)
    → ltb s.disconnect_timeout_ms (sub_u32 (now w) s.first_borrow_time) ≡ false
    → IsLate w s d
    → IsLate w s (d + 1)
    → w.clock_calls ≤ d + 1
    → w.clock_calls < d
before_late s w d early late late' c =
    omega (arith, c, elsewhere s w d early late, elsewhere s w (d + 1) early late')

module _ (m : Machine) (mem : HasMemory m) where
  -- A reading behind the disconnect timeout.
  update-times_out :
      (s : Source) (w : World)
      → s.state ≡ SourceState.waiting
      → IsSilent w
      → IsLate w s w.clock_calls
      → source_update m s w
        ≡ ok (
          source_fail s timed_out_text,
          record (after_silence w) { clock_calls = w.clock_calls + 1 },
        )
  unfolding source_update source_manage_borrow_packet_loss source_ensure_lent_resent source_fail
      time_now
  update-times_out s w waiting quiet late =
      rw (receive_silence m s w quiet, waiting, lt→ltb _ _ late) refl

  -- A reading before it, and before the next retry.
  update-waits :
      (s : Source) (w : World)
      → s.state ≡ SourceState.waiting
      → IsSilent w
      → ltb s.disconnect_timeout_ms (sub_u32 (now w) s.first_borrow_time) ≡ false
      → ltb s.retry_timeout_ms (sub_u32 (now w) s.last_borrow_time) ≡ false
      → source_update m s w ≡ ok (s, record (after_silence w) { clock_calls = w.clock_calls + 1 })
  unfolding source_update source_manage_borrow_packet_loss source_ensure_lent_resent time_now
  update-waits s w waiting quiet early no_retry =
      rw (receive_silence m s w quiet, waiting, early, no_retry) refl

  await_failed :
      (fuel : ℕ) (s : Source) (w : World)
      → s.state ≡ SourceState.error
      → source_await_make_completion m fuel s w ≡ ok (s, w)
  unfolding source_await_make_completion
  await_failed zero s w err = rw err refl
  await_failed (suc fuel) s w err = rw err refl

  failed_ends :
      (fuel : ℕ) (s : Source) (w : World) → TimesOut m fuel (source_fail s timed_out_text) w
  unfolding source_fail
  failed_ends fuel s w = (
    source_fail s timed_out_text,
    w,
    await_failed fuel (source_fail s timed_out_text) w refl,
    refl,
    refl,
  )

  await_waiting :
      (fuel : ℕ) (s : Source) (w : World)
      → s.state ≡ SourceState.waiting
      → source_await_make_completion m (suc fuel) s w
        ≡ (source_update m s w >>= λ x. source_await_make_completion m fuel x.0 x.1)
  unfolding source_await_make_completion
  await_waiting fuel s w waiting = rw waiting refl

  await_round :
      (fuel : ℕ) (s s1 : Source) (w w1 : World)
      → s.state ≡ SourceState.waiting
      → source_update m s w ≡ ok (s1, w1)
      → TimesOut m fuel s1 w1
      → TimesOut m (suc fuel) s w
  unfolding source_await_make_completion
  await_round fuel s s1 w w1 waiting e (s', w', ended, err, text) = (
    s',
    w',
    await_waiting fuel s w waiting
        ∙ ap (λ r. r >>= λ x. source_await_make_completion m fuel x.0 x.1) e
        ∙ ended,
    err,
    text,
  )

  -- What a world brings that the loop goes on in: a round reads the clock once, or twice with a retry.
  abbrev GoesOn : ℕ → ℕ → Source → World → Type 0
  GoesOn d fuel s w =
      IsDatagramService w
      × StaysSilent w
      × IsLate w s d
      × IsLate w s (d + 1)
      × (w.clock_calls ≤ d + 1)
      × (d < w.clock_calls + fuel)

  retry-GoesOn :
      (d fuel : ℕ) (s : Source) (w : World) (bytes : List ℕ) (r : SysResult)
      → GoesOn d (suc fuel) s w
      → w.clock_calls < d
      → GoesOn d fuel s (after_send_with (after_retry w) none bytes r)
  retry-GoesOn d fuel s w bytes (done k) (service, silent, late, late', c, e) before =
      (service, λ i h. silent i (omega arith), late, late', omega arith, omega arith)
  retry-GoesOn d fuel s w bytes (failed x) (service, silent, late, late', c, e) before =
      (service, λ i h. silent i (omega arith), late, late', omega arith, omega arith)

  await_from :
      (d fuel : ℕ) (s : Source) (w : World)
      → IsReady s.builder
      → s.state ≡ SourceState.waiting
      → 0 < fuel
      → GoesOn d fuel s w
      → TimesOut m fuel s w
  await_from d zero s w ready waiting f on = absurd (omega arith)
  await_from d (suc fuel) s w ready waiting f (service, silent, late, late', c, e) =
      let quiet : IsSilent w = silent w.recv_calls (omega arith) in
      elim (Bool-cases (ltb s.disconnect_timeout_ms (sub_u32 (now w) s.first_borrow_time))) [
        | inl past ↦
            let w1 : World = record (after_silence w) { clock_calls = w.clock_calls + 1 } in
            let s1 : Source = source_fail s timed_out_text in
            await_round fuel s s1 w w1 waiting
              (update-times_out s w waiting quiet (ltb→lt _ _ past)) (failed_ends fuel s w1)
        | inr early ↦
            let before : w.clock_calls < d = before_late s w d early late late' c in
            elim (Bool-cases (ltb s.retry_timeout_ms (sub_u32 (now w) s.last_borrow_time))) [
              | inl again ↦
                  let (b, sent, (ready', _)) =
                    update-retries m s w mem ready service waiting quiet (ltb_false→le _ _ early)
                      (ltb→lt _ _ again) in
                  await_round fuel s _ w _ waiting sent (
                    await_from d fuel _ _ ready' waiting (omega arith) (
                      retry-GoesOn d fuel s w
                        (borrow_packet s.builder.next_msg_id s.frame_duration_ms
                          s.max_buffered_frames)
                        _ (service, silent, late, late', c, e) before))
              | inr no_retry ↦
                  let w1 : World = record (after_silence w) { clock_calls = w.clock_calls + 1 } in
                  await_round fuel s s w w1 waiting (update-waits s w waiting quiet early no_retry)
                    (await_from d fuel s w1 ready waiting (omega arith) (
                      service,
                      λ i h. silent i (omega arith),
                      late,
                      late',
                      omega arith,
                      omega arith,
                    ))
            ]
      ]

-- Where no `malloc` fails, datagrams are sent whole and the builder owns its buffer, on a network from
-- which nothing comes: source_await_make_completion of a waiting source returns, with more rounds of
-- fuel than there are readings of the clock up to one to come, of number d, if that one and the next
-- are longer after the first borrow than the disconnect timeout. The source is then in its error
-- state, with the text for an attempt that timed out.
pub await-TimesOut :
    (m : Machine)
    → HasMemory m
    → (d fuel : ℕ) (s : Source) (w : World) → IsReady s.builder
    → IsDatagramService w
    → s.state ≡ SourceState.waiting
    → StaysSilent w
    → IsLate w s d
    → IsLate w s (d + 1)
    → w.clock_calls ≤ d
    → d < w.clock_calls + fuel
    → TimesOut m fuel s w
await-TimesOut m mem d fuel s w ready service waiting silent late late' c enough =
    await_from m mem d fuel s w ready waiting (omega arith)
      (service, silent, late, late', omega arith, enough)
