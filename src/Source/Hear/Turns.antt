-- ===== src/Source/Hear/Turns.antt =====
-- How the phase of a source turns, while the network goes on.
use Prim.Native.String.{String}
use atolla.Prelude.{
  ℕ, ◌+◌, ◌≤◌, ◌<◌, ◌≡◌, refl, sym, ap, ◌∙◌, subst, none, List, ◌∷◌, length, sub_u32, Result, ok,
  ◌>>=◌,
}
use atolla.World.{
  World, Timespec, Errno, UdpEndpoint, Incoming, datagram, recv_failed, SysResult,
  IsDatagramService, time_now,
}
use atolla.Sink.Send.Replies.{after_send, after_send_with}
use atolla.Source.State.{Source, timed_out_text, lost_text}
use atolla.Source.Update.{source_fail}
use atolla.Source.Hear.{
  Reply, reply_packets, Phase, asking, holding, gone, hear_all, HasPhase, IsWorking, HasWaited,
  reading, lent_time_all, next_reading_all,
}
use atolla.Source.Hear.Datagrams.{still_works, HasWaited-read}

-- What stays as it is: what the network brings, the clock, the source's timeout and the time of its first
-- borrow.
pub record Setting : Type 0 where
  pub incoming : ℕ → Incoming
  pub clock : ℕ → Timespec
  pub timeout : ℕ
  pub first : ℕ

-- The phase, the time of the last LENT message, and how often `recvfrom` was called and the clock read.
pub record Hearing : Type 0 where
  pub phase : Phase
  pub lent : ℕ
  pub recvs : ℕ
  pub reads : ℕ

abbrev pub setting : Source → World → Setting
setting s w = record {
  incoming = w.incoming;
  clock = w.clock;
  timeout = s.disconnect_timeout_ms;
  first = s.first_borrow_time;
}

abbrev pub hearing : Source → Phase → World → Hearing
hearing s p w = record {
  phase = p;
  lent = s.last_recv_lent_time;
  recvs = w.recv_calls;
  reads = w.clock_calls;
}

-- After the replies of the next datagram.
abbrev pub heard : Setting → List Reply → Hearing → Hearing
heard net rs h = record {
  phase = hear_all h.phase rs;
  lent = lent_time_all net.clock h.phase h.lent h.reads rs;
  recvs = h.recvs + 1;
  reads = next_reading_all h.phase h.reads rs;
}

-- A call of `recvfrom` brings nothing or replies, or the clock is read. The phase turns by the replies, and by a
-- reading that is behind the timeout: of the first borrow while it asks, of the last LENT message after that.
pub data Turn (net : Setting) (h h' : Hearing) : Type 0 where
  misses :
      (e : Errno)
      → net.incoming h.recvs ≡ recv_failed e
      → h' ≡ record h { recvs = h.recvs + 1 }
      → Turn net h h'
  hears :
      (e : UdpEndpoint) (r : Reply) (rs : List Reply)
      → net.incoming h.recvs ≡ datagram e (reply_packets (r ∷ rs))
      → h' ≡ heard net (r ∷ rs) h
      → Turn net h h'
  reads_on : (n : ℕ) → h.reads ≤ n → h' ≡ record h { reads = n } → Turn net h h'
  gives_up :
      h.phase ≡ asking
      → net.timeout < sub_u32 (reading net.clock h.reads) net.first
      → h' ≡ record h { phase = gone timed_out_text; reads = h.reads + 1 }
      → Turn net h h'
  loses :
      h.phase ≡ holding
      → net.timeout ≤ sub_u32 (reading net.clock h.reads) h.lent
      → h' ≡ record h { phase = gone lost_text; reads = h.reads + 1 }
      → Turn net h h'

pub data Turns (net : Setting) (h : Hearing) : Hearing → Type 0 where
  stays : Turns net h h
  turns : {h1 h2 : Hearing} → Turns net h h1 → Turn net h1 h2 → Turns net h h2

pub Turns-trans :
    {net : Setting} {h h1 h2 : Hearing} → Turns net h h1 → Turns net h1 h2 → Turns net h h2
Turns-trans a stays = a
Turns-trans a (turns b turn) = turns (Turns-trans a b) turn

-- The way from a source in a phase to another one.
pub record Course (s : Source) (p : Phase) (w : World) (s' : Source) (q : Phase) (w' : World)
    : Type 0 where
  pub way : Turns (setting s w) (hearing s p w) (hearing s' q w')
  pub same : setting s' w' ≡ setting s w

pub Course-refl : (s : Source) (p : Phase) (w : World) → Course s p w s p w
Course-refl s p w = record { way = stays; same = refl }

pub Course-trans :
    {s s1 s2 : Source} {p p1 p2 : Phase} {w w1 w2 : World}
    → Course s p w s1 p1 w1
    → Course s1 p1 w1 s2 p2 w2
    → Course s p w s2 p2 w2
Course-trans {s1} {s2} {p1} {p2} {w1} {w2} a b = record {
  way =
      Turns-trans a.way
        (subst (λ net. Turns net (hearing s1 p1 w1) (hearing s2 p2 w2)) a.same b.way);
  same = b.same ∙ a.same;
}

-- The network is the one that it was.
pub record GoesOn (w w' : World) : Type 0 where
  pub outgoing : w'.outgoing ≡ w.outgoing
  pub incoming : w'.incoming ≡ w.incoming
  pub clock : w'.clock ≡ w.clock

pub GoesOn-refl : (w : World) → GoesOn w w
GoesOn-refl w = record { outgoing = refl; incoming = refl; clock = refl }

pub GoesOn-trans : (u v w : World) → GoesOn u v → GoesOn v w → GoesOn u w
GoesOn-trans u v w a b = record {
  outgoing = b.outgoing ∙ a.outgoing;
  incoming = b.incoming ∙ a.incoming;
  clock = b.clock ∙ a.clock;
}

pub HasWaited-GoesOn : (w w' : World) → HasWaited w w' → GoesOn w w'
HasWaited-GoesOn w w' waits = record {
  outgoing = ap (λ (v : World). v.outgoing) waits.0;
  incoming = ap (λ (v : World). v.incoming) waits.0;
  clock = ap (λ (v : World). v.clock) waits.0;
}

pub GoesOn-service : {w w' : World} → GoesOn w w' → IsDatagramService w → IsDatagramService w'
GoesOn-service on service i n k e =
    service i n k (ap (λ (o : ℕ → ℕ → SysResult). o i n) (sym on.outgoing) ∙ e)

sent_with-GoesOn :
    (w : World) (bytes : List ℕ) (r : SysResult) → GoesOn w (after_send_with w none bytes r)
sent_with-GoesOn w bytes (SysResult.done n) = record {
  outgoing = refl;
  incoming = refl;
  clock = refl;
}
sent_with-GoesOn w bytes (SysResult.failed e) = record {
  outgoing = refl;
  incoming = refl;
  clock = refl;
}

pub after_send-GoesOn : (w : World) (bytes : List ℕ) → GoesOn w (after_send w none bytes)
after_send-GoesOn w bytes = sent_with-GoesOn w bytes (w.outgoing w.send_calls (length bytes))

sent_with-counts :
    (w : World) (bytes : List ℕ) (r : SysResult)
    → ((after_send_with w none bytes r).recv_calls ≡ w.recv_calls)
      × ((after_send_with w none bytes r).clock_calls ≡ w.clock_calls)
sent_with-counts w bytes (SysResult.done n) = (refl, refl)
sent_with-counts w bytes (SysResult.failed e) = (refl, refl)

pub after_send-counts :
    (w : World) (bytes : List ℕ)
    → ((after_send w none bytes).recv_calls ≡ w.recv_calls)
      × ((after_send w none bytes).clock_calls ≡ w.clock_calls)
after_send-counts w bytes = sent_with-counts w bytes (w.outgoing w.send_calls (length bytes))

-- The phase stays while the clock is read and messages are sent.
pub quiet-Course :
    (s : Source) (p : Phase) (w : World) (s' : Source) (w' : World)
    → s'.last_recv_lent_time ≡ s.last_recv_lent_time
    → s'.disconnect_timeout_ms ≡ s.disconnect_timeout_ms
    → s'.first_borrow_time ≡ s.first_borrow_time
    → GoesOn w w'
    → w'.recv_calls ≡ w.recv_calls
    → w.clock_calls ≤ w'.clock_calls
    → Course s p w s' p w'
quiet-Course s p w s' w' lent timeout first on recvs reads = record {
  way = turns stays (reads_on w'.clock_calls reads (rw (lent, recvs) refl));
  same = rw (on.incoming, on.clock, timeout, first) refl;
}

pub waits-Course :
    (s : Source) (p : Phase) (w : World) (s' : Source) (w' : World)
    → s'.last_recv_lent_time ≡ s.last_recv_lent_time
    → s'.disconnect_timeout_ms ≡ s.disconnect_timeout_ms
    → s'.first_borrow_time ≡ s.first_borrow_time
    → HasWaited w w'
    → Course s p w s' p w'
waits-Course s p w s' w' lent timeout first waits =
    quiet-Course s p w s' w' lent timeout first (HasWaited-GoesOn w w' waits)
      (ap (λ (v : World). v.recv_calls) waits.0) waits.1

-- The code returns, the source works on, and its phase has turned as it may.
abbrev pub Works : Source → World → Phase → Result (Source × World) → Type 0
Works s w p r =
    (s' : Source) × (w' : World) × (q : Phase) × (r ≡ ok (s', w'))
    × IsWorking s'
    × HasPhase s' q
    × Course s p w s' q w'
    × GoesOn w w'

pub Works-then :
    (s : Source) (w : World) (p : Phase) (r : Result (Source × World))
    (f : Source × World → Result (Source × World))
    → Works s w p r
    → ((s' : Source) (w' : World) (q : Phase)
        → IsWorking s'
        → HasPhase s' q
        → GoesOn w w'
        → Works s' w' q (f (s', w')))
    → Works s w p (r >>= f)
Works-then s w p r f (s', w', q, ran, works, has, turn, on) next =
    let (t, w'', q', ran', works', has', turn', on') = next s' w' q works has on in
    (t, w'', q', rw ran ran', works', has', Course-trans turn turn', GoesOn-trans w w' w'' on on')

pub same_phase :
    (s : Source) (p : Phase) (w w' : World)
    → IsWorking s
    → HasPhase s p
    → HasWaited w w'
    → Works s w p (ok (s, w'))
same_phase s p w w' works has waits = (
  s,
  w',
  p,
  refl,
  works,
  has,
  waits-Course s p w s w' refl refl refl waits,
  HasWaited-GoesOn w w' waits,
)

-- The reading of the clock is behind the timeout, and the source fails with a text.
pub gave_up :
    (s : Source) (p : Phase) (text : String) (w : World)
    → IsWorking s
    → Turn
        (setting s w)
        (hearing s p w)
        (record (hearing s p w) { phase = gone text; reads = w.clock_calls + 1 })
    → Works s w p (ok (source_fail s text, (time_now w).1))
unfolding source_fail time_now
gave_up s p text w works turn = (
  source_fail s text,
  (time_now w).1,
  gone text,
  refl,
  still_works works works.ready works.buffer,
  (refl, refl),
  record { way = turns stays turn; same = refl },
  HasWaited-GoesOn w (time_now w).1 (HasWaited-read w),
)

pub after_reading :
    (s : Source) (p : Phase) (w : World) (r : Result (Source × World))
    → Works s (time_now w).1 p r
    → Works s w p r
unfolding time_now
after_reading s p w r (s', w', q, ran, works, has, turn, on) = (
  s',
  w',
  q,
  ran,
  works,
  has,
  Course-trans (waits-Course s p w s (time_now w).1 refl refl refl (HasWaited-read w)) turn,
  record { outgoing = on.outgoing; incoming = on.incoming; clock = on.clock },
)
