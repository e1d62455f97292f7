-- ===== src/Sink/Lender/Shows.antt =====
-- atolla_sink_get takes frames from a lender.
use atolla.Prelude.{
  ℕ, ◌*◌, ◌≤◌, ◌≡◌, refl, ◌∙◌, ap, subst, Bool-cases, inl, inr, true, false, Option, none, some,
  List, [], ◌∷◌, length, drop, write_at, ◌==◌, arith, ok,
}
use atolla.World.{World, now, time_now}
use atolla.Mem.Block.{Ptr, into}
use atolla.Sink.State.{Sink, SinkState, null_time}
use atolla.Sink.Valid.{IsValid}
use atolla.Sink.Valid.Running.{with_fields-IsValid}
use atolla.Sink.Pattern.Cyclic.{cyclic}
use atolla.Sink.Run.{get_first, atolla_sink_get}
use atolla.Sink.Run.Branches.{get-opened, get-lent}
use atolla.Sink.Run.CatchUp.{taken, dequeue_step, dequeue_nothing, catch_up_lem}
use atolla.Sink.Run.Get.{show_frame_lem}
use atolla.Sink.Lender.{Loan, Lender, HasLoan, free, lent_to, Models}
use atolla.Sink.Lender.Parts.{HasLoan-same}
use atolla.Sink.Lender.Replies.{Says, Says-nothing}
use atolla.Sink.Lender.Polls.{same_but_clock}

-- Only the frames that wait, and what is shown, are others.
with_queue :
    {s : Sink} {l : Lender} (t : Sink) (queue : List (List ℕ))
    → Models s l
    → IsValid t queue
    → t ≡ record s {
      pending_frames = t.pending_frames;
      current_frame = t.current_frame;
      time_origin = t.time_origin;
    }
    → Models t (record l { pending = queue })
with_queue {s} {l} t queue mo valid same = record {
  valid = valid;
  loan =
      HasLoan-same s t l.loan (ap (λ (u : Sink). u.state) same)
        (ap (λ (u : Sink). u.borrower_endpoint) same) (ap (λ (u : Sink). u.frame_duration_ms) same)
        mo.loan;
  index = ap (λ (u : Sink). u.last_enqueued_frame_idx) same ∙ mo.index;
  id = ap (λ (u : Sink). u.builder.next_msg_id) same ∙ mo.id;
  size = ap (λ (u : Sink). u.lights_count * 3) same ∙ mo.size;
}

with_time :
    {s : Sink} {queue : List (List ℕ)} {t : ℕ}
    → IsValid s queue
    → IsValid (record s { time_origin = t }) queue
with_time v = with_fields-IsValid v v.ready v.buffer v.index

module _ (s : Sink) (l : Lender) (w : World) (mo : Models s l) (out : List ℕ) (len : ℕ)
    (room : len ≤ length out) where
  -- The call returns, has taken the n oldest frames and sent nothing.
  abbrev pub ShowsSome : Type 0
  ShowsSome =
      (p : Option Ptr) × (t : Sink) × (w' : World) × (n : ℕ) × (atolla_sink_get s (into out 0) len w
        ≡ ok (p, t, w'))
      × (n ≤ length l.pending)
      × Models t (record l { pending = drop n l.pending })
      × Says w [] w'

  first_frame :
      (queue : List (List ℕ))
      → l.pending ≡ queue
      → s.state ≡ SinkState.lent
      → (s.time_origin == null_time) ≡ true
      → ShowsSome
  unfolding get_first time_now
  first_frame [] e held first = (
    none,
    s,
    w,
    0,
    get-lent s (into out 0) len w held
        ∙ rw (first, dequeue_nothing s (subst (IsValid s) e mo.valid)) refl,
    omega arith,
    mo,
    Says-nothing w,
  )
  first_frame (x ∷ queue) e held first =
      let (ring, got, v) = dequeue_step s x queue (subst (IsValid s) e mo.valid) in
      let t : Sink = record (taken s ring x) { time_origin = now w } in
      (
        some (into (write_at 0 (cyclic v.current.0 len) out) 0),
        t,
        (time_now w).1,
        1,
        get-lent s (into out 0) len w held
            ∙ rw (first, got, show_frame_lem (taken s ring x) queue v out len room) refl,
        rw e (omega arith),
        rw e (with_queue t queue mo (with_time v) refl),
        same_but_clock w,
      )

  later_frame : s.state ≡ SinkState.lent → (s.time_origin == null_time) ≡ false → ShowsSome
  later_frame held later =
      let (t, n, looped, c) =
        catch_up_lem (now w) l.pending 129 s mo.valid (omega (arith, mo.valid.ring.bounded)) in
      (
        some (into (write_at 0 (cyclic c.valid.current.0 len) out) 0),
        t,
        (time_now w).1,
        n,
        get-lent s (into out 0) len w held
            ∙ rw (later, looped, show_frame_lem t (drop n l.pending) c.valid out len room) refl,
        c.enough,
        with_queue t (drop n l.pending) mo c.valid c.same,
        same_but_clock w,
      )

  pub atolla_sink_get-Shows : (loan : Loan) → HasLoan s loan → ShowsSome
  atolla_sink_get-Shows free has =
      (none, s, w, 0, get-opened s (into out 0) len w has, omega arith, mo, Says-nothing w)
  atolla_sink_get-Shows (lent_to e duration) (held, _, _) =
      elim (Bool-cases (s.time_origin == null_time)) [
        | inl first ↦ first_frame l.pending refl held first
        | inr later ↦ later_frame held later
      ]
