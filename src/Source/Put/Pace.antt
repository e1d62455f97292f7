-- ===== src/Source/Put/Pace.antt =====
-- How many frames a source may send, and when: atolla_source_put_ready_count and
-- atolla_source_put_ready_timeout, in the state that source_update leaves, against what sending notes.
use native.Mathlib.Nat.{div-eq-sub-div, div-eq_of_lt, div_self, mul-div_cancel, mod-eq_of_lt}
use atolla.Prelude.{
  ap₂, ==_iff, subst, ℕ, ◌+◌, ◌-◌, ◌*◌, ◌/◌, ◌%◌, ◌^◌, ◌≤◌, ◌<◌, ◌≡◌, ◌∙◌, ap, true, false, ltb,
  ◌==◌, u32, sub_u32, arith, ok, if◌then◌else◌, lt→ltb,
}
use atolla.Prelude.Int.{pos, int_of_u32}
use atolla.World.{World, now, time_now}
use atolla.Source.State.{Source, SourceState, null_time}
use atolla.Source.Put.{frames_behind, ready_count, ready_timeout, note_frame}

-- The time that has passed since the last frame's, by the next reading of the clock.
abbrev pub behind : Source → World → ℕ
behind source w = sub_u32 (now w) source.last_frame_time

count_opened :
    (source : Source) (w : World)
    → source.state ≡ SourceState.opened
    → ready_count source w ≡ (
        if source.last_frame_time == null_time
        then ok (pos source.max_buffered_frames, w)
        else frames_behind source w)
unfolding ready_count
count_opened source w opened = ground arith

frames_behind_lem :
    (source : Source) (w : World)
    → 0 < source.frame_duration_ms
    → behind source w / source.frame_duration_ms < 2 ^ 31
    → frames_behind source w
      ≡ ok (
        pos (behind source w / source.frame_duration_ms),
        record w { clock_calls = w.clock_calls + 1 },
      )
unfolding frames_behind time_now
frames_behind_lem source w some_time small =
    let nonzero : (source.frame_duration_ms == 0) ≡ false = ground arith in
    let plain : ltb (behind source w / source.frame_duration_ms) (2 ^ 31) ≡ true =
      lt→ltb _ _ small in
    rw (nonzero, plain)

-- In the open state the count is the number of whole frame durations since the time of the last frame.
pub ready_count-later :
    (source : Source) (w : World)
    → source.state ≡ SourceState.opened
    → 0 < source.frame_duration_ms
    → (source.last_frame_time == null_time) ≡ false
    → behind source w / source.frame_duration_ms < 2 ^ 31
    → ready_count source w
      ≡ ok (
        pos (behind source w / source.frame_duration_ms),
        record w { clock_calls = w.clock_calls + 1 },
      )
ready_count-later source w opened some_time known small =
    count_opened source w opened ∙ rw known (frames_behind_lem source w some_time small)

-- The count at a reading of the clock, as a number.
abbrev pub CountAt : Source → World → ℕ → Type 0
CountAt source w n = (w' : World) × (ready_count source w ≡ ok (pos n, w'))

-- A source after a frame that was not the first.
abbrev pub sent_on : Source → Source
sent_on source = record source {
  next_frame_idx = (source.next_frame_idx + 1) % 256;
  last_frame_time = u32 (source.last_frame_time + source.frame_duration_ms);
}

note_known :
    (source : Source) (w : World)
    → (source.last_frame_time == null_time) ≡ false
    → (note_frame source w).0 ≡ sent_on source
unfolding note_frame
note_known source w known = rw known

moved_on :
    (t l d : ℕ)
    → t < 2 ^ 32
    → l < 2 ^ 32
    → d ≤ sub_u32 t l
    → sub_u32 t (u32 (l + d)) ≡ sub_u32 t l - d
moved_on t l d h k le = omega arith

-- For a source in the open state that has sent a frame, with frames of at least 1 ms, and whose time
-- is behind by one frame duration or more, by fewer than 2^31 of them: note_frame takes exactly one
-- off the count that atolla_source_put_ready_count gives in that state, at an unchanged reading of the
-- clock, if the new time is not the mark for "no frame yet".
pub note_frame-uses_one :
    (source : Source) (w w0 w' : World)
    → source.state ≡ SourceState.opened
    → 0 < source.frame_duration_ms
    → source.last_frame_time < 2 ^ 32
    → (source.last_frame_time == null_time) ≡ false
    → source.frame_duration_ms ≤ behind source w
    → behind source w / source.frame_duration_ms < 2 ^ 31
    → (u32 (source.last_frame_time + source.frame_duration_ms) == null_time) ≡ false
    → now w' ≡ now w
    → (n : ℕ) × CountAt source w (n + 1) × CountAt (note_frame source w0).0 w' n
note_frame-uses_one source w w0 w' opened some_time range known may small known' same =
    let d : ℕ = source.frame_duration_ms in
    let n : ℕ = (behind source w - d) / d in
    let count : behind source w / d ≡ n + 1 = div-eq-sub-div some_time may in
    let moved : behind (sent_on source) w' ≡ behind source w - d =
      ap (λ t. sub_u32 t (u32 (source.last_frame_time + d))) same
      ∙ moved_on (now w) source.last_frame_time d (omega arith) range may in
    let count' : behind (sent_on source) w' / d ≡ n = ap (λ t. t / d) moved in
    let n_small : n < 2 ^ 31 = omega (arith, count, small) in
    (
      n,
      (
        record w { clock_calls = w.clock_calls + 1 },
        ready_count-later source w opened some_time known small
            ∙ ap (λ (t : ℕ). ok (pos t, record w { clock_calls = w.clock_calls + 1 })) count,
      ),
      (
        record w' { clock_calls = w'.clock_calls + 1 },
        ap (λ s. ready_count s w') (note_known source w0 known)
            ∙ ready_count-later (sent_on source) w' opened some_time known' (rw count' n_small)
            ∙ ap (λ (t : ℕ). ok (pos t, record w' { clock_calls = w'.clock_calls + 1 })) count',
      ),
    )

-- A source after the first frame, sent at that reading of the clock.
abbrev pub sent_first : Source → ℕ → Source
sent_first source t = record source {
  next_frame_idx = (source.next_frame_idx + 1) % 256;
  last_frame_time =
      sub_u32 t (u32 (u32 (source.max_buffered_frames + 2 ^ 32 - 1) * source.frame_duration_ms));
}

note_first :
    (source : Source) (w : World)
    → source.last_frame_time ≡ null_time
    → (note_frame source w).0 ≡ sent_first source (now w)
unfolding note_frame time_now
note_first source w first = rw ((==_iff source.last_frame_time null_time).1 first)

back_again : (t x : ℕ) → t < 2 ^ 32 → x < 2 ^ 32 → sub_u32 t (sub_u32 t x) ≡ x
back_again t x h k = omega arith

less_frames : (n k : ℕ) → n ≡ k + 1 → k < 2 ^ 31 → u32 (n + 2 ^ 32 - 1) ≡ k
less_frames n k e h = omega arith

-- For a source in the open state that has sent no frame, with frames of at least 1 ms: the count is
-- the number k + 1 of `max_buffered_frames`, and after note_frame it is k, at an unchanged reading of
-- the clock, if k is below 2^31, k frames last less than 2^32 ms, and the new time is not the mark for
-- "no frame yet".
pub note_frame-first :
    (source : Source) (w w' : World) (k : ℕ)
    → source.state ≡ SourceState.opened
    → 0 < source.frame_duration_ms
    → source.last_frame_time ≡ null_time
    → source.max_buffered_frames ≡ k + 1
    → k < 2 ^ 31
    → k * source.frame_duration_ms < 2 ^ 32
    → (sub_u32 (now w) (k * source.frame_duration_ms) == null_time) ≡ false
    → now w' ≡ now w
    → CountAt source w (k + 1) × CountAt (note_frame source w).0 w' k
note_frame-first source w w' k opened some_time first max small fits known same =
    let d : ℕ = source.frame_duration_ms in
    let frames : u32 (u32 (source.max_buffered_frames + 2 ^ 32 - 1) * d) ≡ k * d =
      rw (less_frames source.max_buffered_frames k max small, mod-eq_of_lt fits) in
    let last : (sent_first source (now w)).last_frame_time ≡ sub_u32 (now w) (k * d) =
      ap (sub_u32 (now w)) frames in
    let back : behind (sent_first source (now w)) w' ≡ k * d =
      ap₂ sub_u32 same last ∙ back_again (now w) (k * d) (omega arith) fits in
    let count : behind (sent_first source (now w)) w' / d ≡ k =
      ap (λ t. t / d) back ∙ mul-div_cancel k some_time in
    (
      (
        w,
        count_opened source w opened ∙ rw ((==_iff source.last_frame_time null_time).1 first, max),
      ),
      (
        record w' { clock_calls = w'.clock_calls + 1 },
        ap (λ s. ready_count s w') (note_first source w first)
            ∙ ready_count-later (sent_first source (now w)) w' opened some_time (rw last known)
                (rw count small)
            ∙ ap (λ (t : ℕ). ok (pos t, record w' { clock_calls = w'.clock_calls + 1 })) count,
      ),
    )

timeout_opened :
    (source : Source) (w : World)
    → source.state ≡ SourceState.opened
    → (source.last_frame_time == null_time) ≡ false
    → frames_behind source w ≡ ok (pos 0, record w { clock_calls = w.clock_calls + 1 })
    → let w1 = record w { clock_calls = w.clock_calls + 1 } in
      ready_timeout source w
      ≡ ok (
        int_of_u32 (sub_u32 (u32 (source.last_frame_time + source.frame_duration_ms)) (now w1)),
        record w { clock_calls = w.clock_calls + 1 + 1 },
      )
unfolding ready_timeout time_now
timeout_opened source w opened known none_ready = ground arith

time_left :
    (t l d : ℕ)
    → t < 2 ^ 32
    → l < 2 ^ 32
    → d < 2 ^ 31
    → sub_u32 t l ≤ d
    → (sub_u32 (u32 (l + d)) t ≡ d - sub_u32 t l) × (sub_u32 (u32 (t + (d - sub_u32 t l))) l ≡ d)
time_left t l d h k small le = (omega arith, omega arith)

-- For a source in the open state that has sent a frame, with frames of at least 1 ms and less than
-- 2^31 ms, where the last frame's duration is not over by the first reading of the clock nor exceeded
-- by the second, `w1`: ready_timeout gives the milliseconds that are left by the second reading, and
-- at a reading that much later one frame may be sent.
pub ready_timeout-waits :
    (source : Source) (w w1 w' : World)
    → source.state ≡ SourceState.opened
    → 0 < source.frame_duration_ms
    → source.frame_duration_ms < 2 ^ 31
    → source.last_frame_time < 2 ^ 32
    → (source.last_frame_time == null_time) ≡ false
    → behind source w < source.frame_duration_ms
    → w1 ≡ record w { clock_calls = w.clock_calls + 1 }
    → behind source w1 ≤ source.frame_duration_ms
    → now w' ≡ u32 (now w1 + (source.frame_duration_ms - behind source w1))
    → (ready_timeout source w
        ≡ ok (
          pos (source.frame_duration_ms - behind source w1),
          record w { clock_calls = w.clock_calls + 1 + 1 },
        ))
      × CountAt source w' 1
ready_timeout-waits source w w1 w' opened some_time small range known early second later e =
    let dur : ℕ = source.frame_duration_ms in
    let none : behind source w / dur ≡ 0 = div-eq_of_lt early in
    let counted : frames_behind source w
        ≡ ok (pos 0, record w { clock_calls = w.clock_calls + 1 }) =
      frames_behind_lem source w some_time (omega (arith, none))
      ∙ ap (λ (t : ℕ). ok (pos t, record w { clock_calls = w.clock_calls + 1 })) none in
    let w2 : World = record w { clock_calls = w.clock_calls + 1 } in
    let later' : behind source w2 ≤ dur = subst (λ x. behind source x ≤ dur) second later in
    let (left, _) =
      time_left (now w2) source.last_frame_time dur (omega arith) range small later' in
    let (_, ready) =
      time_left (now w1) source.last_frame_time dur (omega arith) range small later in
    let plain : ltb (dur - behind source w2) (2 ^ 31) ≡ true = lt→ltb _ (2 ^ 31) (omega arith) in
    let full : behind source w' ≡ dur = ap (λ t. sub_u32 t source.last_frame_time) e ∙ ready in
    let one : behind source w' / dur ≡ 1 = rw full (div_self some_time) in
    (
      timeout_opened source w opened known counted ∙ rw (left, plain, ap (behind source) second),
      (
        record w' { clock_calls = w'.clock_calls + 1 },
        ready_count-later source w' opened some_time known (omega (arith, one))
            ∙ ap (λ (t : ℕ). ok (pos t, record w' { clock_calls = w'.clock_calls + 1 })) one,
      ),
    )
