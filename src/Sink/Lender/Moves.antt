-- ===== src/Sink/Lender/Moves.antt =====
-- How a lender moves, and a run of moves with all that is sent.
use atolla.Prelude.{ℕ, ◌≤◌, ◌≡◌, sym, subst, some, List, [], ◌∷◌, ◌++◌, length, drop}
use mathlib.Core.List.{append_assoc, append-nil}
use atolla.World.{UdpEndpoint, Packet}
use atolla.Msg.Packet.{lent_packet, fail_packet}
use atolla.Sink.Handle.Datagram.{Request}
use atolla.Sink.Lender.{Lender, free, lent_to, counted, message_to, serve}

-- It serves a datagram of requests, ends a loan of whose borrower nothing was heard, tells the borrower again
-- that it has the lights, or has shown the frames that were due.
pub data Move (l : Lender) : Lender → List Packet → Type 0 where
  serves :
      (e : UdpEndpoint) (rs : List Request) {l' : Lender} {ps : List Packet}
      → serve l e rs ≡ some (l', ps)
      → Move l l' ps
  lapses :
      (e : UdpEndpoint) (duration : ℕ)
      → l.loan ≡ lent_to e duration
      → Move l
          (record (counted l) { loan = free })
          (message_to e (fail_packet l.next_msg_id 0 5) ∷ [])
  renews :
      (e : UdpEndpoint) (duration : ℕ)
      → l.loan ≡ lent_to e duration
      → Move l (counted l) (message_to e (lent_packet l.next_msg_id) ∷ [])
  shows : (n : ℕ) → n ≤ length l.pending → Move l (record l { pending = drop n l.pending }) []

pub data Trace (l : Lender) : Lender → List Packet → Type 0 where
  start : Trace l l []
  step :
      {l' l'' : Lender} {ps qs : List Packet}
      → Trace l l' ps
      → Move l' l'' qs
      → Trace l l'' (ps ++ qs)

pub one_move : {l l' : Lender} {ps : List Packet} → Move l l' ps → Trace l l' ps
one_move move = step start move

pub Trace-trans :
    {k l l' : Lender} {ps qs : List Packet} → Trace k l ps → Trace l l' qs → Trace k l' (ps ++ qs)
Trace-trans {k} {l} {l'} {ps} a start = subst (Trace k l) (sym (append-nil ps)) a
Trace-trans {k} {l} {l'} {ps} a (step {ps = qs} {qs = rs} b move) =
    subst (Trace k l') (append_assoc ps qs rs) (step (Trace-trans a b) move)
