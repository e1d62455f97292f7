-- ===== src/Source/Hear/Datagrams.antt =====
-- A datagram of replies changes the phase of a source, one reply after another.
use Prim.Native.String.{String}
use atolla.Prelude.{
  ℕ, zero, suc, ◌+◌, ◌≤◌, ◌<◌, ◌≡◌, refl, sym, ap, ◌∙◌, Option, List, [], ◌∷◌, ◌++◌, length, subst,
  u8, u16, arith, Result, ok, ◌>>=◌, length-append, le→ltb, lt→ltb,
}
use atolla.Machine.{Machine}
use atolla.World.{World, Timespec, now, time_now}
use atolla.Mem.Uint16.{uint16_byte_low, uint16_byte_high}
use atolla.Msg.Builder.{MsgBuilder}
use atolla.Msg.Builder.Encode.{IsReady}
use atolla.Msg.Iter.{msg_iter_has_msg, msg_iter_next, msg_type_of}
use atolla.Msg.Iter.Decode.{Shows, iter_at, type_lem, next_lem}
use atolla.Msg.Iter.Parts.{Shows-part, slice-left, slice-right}
use atolla.Msg.Iter.Fields.{fail_fields}
use atolla.Source.State.{Source, SourceState, null_time, fail_text}
use atolla.Source.Update.{source_lent, source_fail, source_handle_msg, source_msgs}
use atolla.Source.Hear.{
  Reply, lending, failing, reply_packet, reply_packets, Phase, asking, holding, gone, hear,
  hear_all, HasPhase, IsWorking, HasWaited, lent_time_all, next_reading_all,
}

HasWaited-trans : (u v w : World) → HasWaited u v → HasWaited v w → HasWaited u w
HasWaited-trans u v w a b = (
  b.0 ∙ ap (λ (x : World). record x { clock_calls = w.clock_calls }) a.0,
  omega (arith, a.1, b.1),
)

-- A world is itself, and the clock is read once.
pub HasWaited-refl : (w : World) → HasWaited w w
HasWaited-refl w = (refl, omega arith)

pub HasWaited-read : (w : World) → HasWaited w (record w { clock_calls = w.clock_calls + 1 })
HasWaited-read w = (refl, omega arith)

-- The code returns in that phase, and only the clock was read.
abbrev pub Hears : World → Phase → Result (Source × World) → Type 0
Hears w p r =
    (s : Source) × (w' : World) × (r ≡ ok (s, w')) × IsWorking s × HasPhase s p × HasWaited w w'

-- It has noted the times of these replies, and has its timeout and the time of its first borrow.
pub record Notes (p : Phase) (rs : List Reply) (s : Source) (w : World) (s' : Source) (w' : World)
    : Type 0 where
  pub lent : s'.last_recv_lent_time ≡ lent_time_all w.clock p s.last_recv_lent_time w.clock_calls rs
  pub reads : w'.clock_calls ≡ next_reading_all p w.clock_calls rs
  pub first : s'.first_borrow_time ≡ s.first_borrow_time
  pub timeout : s'.disconnect_timeout_ms ≡ s.disconnect_timeout_ms

-- The code returns, and has heard these replies.
abbrev pub Listens : Source → World → Phase → List Reply → Result (Source × World) → Type 0
Listens s w p rs r =
    (s' : Source) × (w' : World) × (r ≡ ok (s', w'))
    × IsWorking s'
    × HasPhase s' (hear_all p rs)
    × HasWaited w w'
    × Notes p rs s w s' w'

-- source_lent, by the state.
lent-waiting :
    (s : Source) (w : World)
    → s.state ≡ SourceState.waiting
    → source_lent s w ≡ (
      record s {
        state = SourceState.opened;
        last_frame_time = null_time;
        last_recv_lent_time = now w;
      },
      (time_now w).1,
    )
unfolding source_lent time_now
lent-waiting s w waiting = ground arith

lent-opened :
    (s : Source) (w : World)
    → s.state ≡ SourceState.opened
    → source_lent s w ≡ (record s { last_recv_lent_time = now w }, (time_now w).1)
unfolding source_lent time_now
lent-opened s w opened = ground arith

lent-failed : (s : Source) (w : World) → s.state ≡ SourceState.error → source_lent s w ≡ (s, w)
unfolding source_lent time_now
lent-failed s w failed = ground arith

-- Fields that a working source may have otherwise.
pub still_works :
    {s : Source} {state : SourceState} {borrow_time frame_time lent_time idx : ℕ}
    {builder : MsgBuilder} {buf : List ℕ} {text : Option String}
    → IsWorking s
    → IsReady builder
    → length buf ≡ 32
    → IsWorking (record s {
      state = state;
      builder = builder;
      recv_buf = buf;
      next_frame_idx = idx;
      last_borrow_time = borrow_time;
      last_frame_time = frame_time;
      last_recv_lent_time = lent_time;
      error_msg = text;
    })
still_works works ready size = record { ready = ready; buffer = size; some_time = works.some_time }

no_change : (p : Phase) (s : Source) (w : World) → Notes p [] s w s w
no_change p s w = record { lent = refl; reads = refl; first = refl; timeout = refl }

lent-Listens :
    (p : Phase) (id : ℕ) (s : Source) (w : World)
    → IsWorking s
    → HasPhase s p
    → Listens s w p (lending id ∷ []) (ok (source_lent s w))
unfolding time_now
lent-Listens asking id s w works has = rw (lent-waiting s w has) (
  _,
  _,
  refl,
  still_works works works.ready works.buffer,
  refl,
  HasWaited-read w,
  record { lent = refl; reads = refl; first = refl; timeout = refl },
)
lent-Listens holding id s w works has = rw (lent-opened s w has) (
  _,
  _,
  refl,
  still_works works works.ready works.buffer,
  has,
  HasWaited-read w,
  record { lent = refl; reads = refl; first = refl; timeout = refl },
)
lent-Listens (gone text) id s w works has = rw (lent-failed s w has.0) (
  _,
  _,
  refl,
  works,
  has,
  HasWaited-refl w,
  record { lent = refl; reads = refl; first = refl; timeout = refl },
)

Notes-then :
    (p : Phase) (r : Reply) (rs : List Reply) (s s1 s2 : Source) (w w1 w2 : World)
    → w1.clock ≡ w.clock
    → Notes p (r ∷ []) s w s1 w1
    → Notes (hear p r) rs s1 w1 s2 w2
    → Notes p (r ∷ rs) s w s2 w2
Notes-then p r rs s s1 s2 w w1 w2 same a b = record {
  lent = b.lent ∙ noted w1.clock s1.last_recv_lent_time w1.clock_calls same a.lent a.reads;
  reads = b.reads ∙ ap (λ n. next_reading_all (hear p r) n rs) a.reads;
  first = b.first ∙ a.first;
  timeout = b.timeout ∙ a.timeout;
}
  where
    noted :
        (clock : ℕ → Timespec) (t n : ℕ)
        → clock ≡ w.clock
        → t ≡ lent_time_all w.clock p s.last_recv_lent_time w.clock_calls (r ∷ [])
        → n ≡ next_reading_all p w.clock_calls (r ∷ [])
        → lent_time_all clock (hear p r) t n rs
          ≡ lent_time_all w.clock p s.last_recv_lent_time w.clock_calls (r ∷ rs)
    noted clock t n e e' e'' = rw (e, e', e'') refl

-- A failure takes no time.
failing-Notes :
    (p : Phase) (id causing code : ℕ) (s : Source) (w : World) (text : String)
    → Notes p (failing id causing code ∷ []) s w (source_fail s text) w
unfolding source_fail
failing-Notes asking id causing code s w text = record {
  lent = refl;
  reads = refl;
  first = refl;
  timeout = refl;
}
failing-Notes holding id causing code s w text = record {
  lent = refl;
  reads = refl;
  first = refl;
  timeout = refl;
}
failing-Notes (gone before) id causing code s w text = record {
  lent = refl;
  reads = refl;
  first = refl;
  timeout = refl;
}

hear-failing :
    (p : Phase) (id causing code : ℕ)
    → hear p (failing id causing code) ≡ gone (fail_text (u8 code))
hear-failing asking id causing code = refl
hear-failing holding id causing code = refl
hear-failing (gone text) id causing code = refl

module _ (m : Machine) (buf : List ℕ) where
  -- One reply that lies at that offset.
  reply-Listens :
      (at stop : ℕ) (r : Reply) (p : Phase) (s : Source) (w : World)
      → Shows buf at (reply_packet r)
      → at < stop
      → IsWorking s
      → HasPhase s p
      → Listens s w p (r ∷ []) (source_handle_msg m s (iter_at buf at stop) w)
  unfolding source_handle_msg source_fail msg_type_of
  reply-Listens at stop (lending id) p s w shown live works has =
      rw (type_lem m buf at stop 1 id [] shown live (omega arith)) (lent-Listens p id s w works has)
  reply-Listens at stop (failing id causing code) p s w shown live works has =
      let (type, _, value) = fail_fields m buf at stop id live causing code shown in
      let text : String = fail_text (u8 code) in
      rw (type, value)
        (
          source_fail s text,
          w,
          refl,
          still_works works works.ready works.buffer,
          subst (HasPhase (source_fail s text)) (sym (hear-failing p id causing code)) (refl, refl),
          HasWaited-refl w,
          failing-Notes p id causing code s w text,
        )

  next-reply :
      (at stop : ℕ) (r : Reply)
      → Shows buf at (reply_packet r)
      → at < stop
      → msg_iter_next m (iter_at buf at stop) ≡ ok (iter_at buf (at + length (reply_packet r)) stop)
  next-reply at stop (lending id) shown live =
      next_lem m buf at stop 1 id [] shown live (omega arith)
  next-reply at stop (failing id causing code) shown live =
      next_lem m buf at stop 255 id
        (uint16_byte_low (u16 causing) ∷ uint16_byte_high (u16 causing) ∷ u8 code ∷ []) shown live
        (omega arith)

  some_bytes : (r : Reply) → 0 < length (reply_packet r)
  some_bytes (lending id) = omega arith
  some_bytes (failing id causing code) = omega arith

  pub length-reply_packets : (rs : List Reply) → length rs ≤ length (reply_packets rs)
  length-reply_packets [] = omega arith
  length-reply_packets (r ∷ rs) = omega (
    arith,
    length-append (reply_packet r) (reply_packets rs),
    some_bytes r,
    length-reply_packets rs,
  )

  -- One reply, and then the others.
  Listens-then :
      (s : Source) (w : World) (p : Phase) (r : Reply) (rs : List Reply)
      (x : Result (Source × World)) (f : Source × World → Result (Source × World))
      → Listens s w p (r ∷ []) x
      → ((s1 : Source) (w1 : World)
          → IsWorking s1
          → HasPhase s1 (hear p r)
          → Listens s1 w1 (hear p r) rs (f (s1, w1)))
      → Listens s w p (r ∷ rs) (x >>= f)
  Listens-then s w p r rs x f (s1, w1, ran, works, has, waits, notes) next =
      let (t, v, ran', works', has', waits', notes') = next s1 w1 works has in
      let same : w1.clock ≡ w.clock = ap (λ (y : World). y.clock) waits.0 in
      (
        t,
        v,
        rw ran ran',
        works',
        has',
        HasWaited-trans w w1 v waits waits',
        Notes-then p r rs s s1 t w w1 v same notes notes',
      )

  pub replies-Listens :
      (rs : List Reply) (at stop fuel : ℕ) (p : Phase) (s : Source) (w : World)
      → Shows buf at (reply_packets rs)
      → stop ≡ at + length (reply_packets rs)
      → length rs ≤ fuel
      → IsWorking s
      → HasPhase s p
      → Listens s w p rs (source_msgs m fuel s (iter_at buf at stop) w)
  unfolding source_msgs msg_iter_has_msg
  replies-Listens [] at stop zero p s w shown end enough works has =
      rw (le→ltb at stop (omega arith)) (s, w, refl, works, has, HasWaited-refl w, no_change p s w)
  replies-Listens [] at stop (suc fuel) p s w shown end enough works has =
      rw (le→ltb at stop (omega arith)) (s, w, refl, works, has, HasWaited-refl w, no_change p s w)
  replies-Listens (r ∷ rs) at stop zero p s w shown end enough works has = absurd (omega arith)
  replies-Listens (r ∷ rs) at stop (suc fuel) p s w shown end enough works has =
      let first : List ℕ = reply_packet r in
      let rest : List ℕ = reply_packets rs in
      let whole : length (first ++ rest) ≡ length first + length rest = length-append first rest in
      let live : at < stop = omega (arith, whole, some_bytes r) in
      let shown_first : Shows buf at first =
        Shows-part at 0 first shown (omega arith) (omega (arith, whole)) (slice-left first rest) in
      let shown_rest : Shows buf (at + length first) rest =
        Shows-part (at + length first) (length first) rest shown refl (omega (arith, whole))
          (slice-right first rest) in
      rw (lt→ltb at stop live, next-reply at stop r shown_first live)
        (Listens-then s w p r rs (source_handle_msg m s (iter_at buf at stop) w)
          (λ x. source_msgs m fuel x.0 (iter_at buf (at + length first) stop) x.1)
          (reply-Listens at stop r p s w shown_first live works has)
          (λ s' w' works' has'.
            replies-Listens rs (at + length first) stop fuel (hear p r) s' w' shown_rest
              (omega (arith, whole)) (omega arith) works' has'))
