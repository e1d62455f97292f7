-- ===== src/Sink/Lender/Replies.antt =====
-- What the surroundings of a sink come to when it has sent some datagrams.
use atolla.Prelude.{
  ℕ, ◌+◌, ◌≡◌, refl, sym, ◌∙◌, ap, some, List, [], ◌∷◌, ◌++◌, length, arith, length-append, ap₂,
}
use mathlib.Core.List.{append_assoc, append-nil}
use atolla.World.{World, UdpEndpoint, SysResult, done, failed, Packet}
use atolla.Sink.Send.Replies.{after_send_with, after_send}

abbrev kept : SysResult → Packet → List Packet
kept (done n) p = p ∷ []
kept (failed e) p = []

-- Those of the datagrams that the system sends, from a number of a call of `sendto` on.
abbrev pub that_went : (ℕ → ℕ → SysResult) → ℕ → List Packet → List Packet
that_went outgoing n [] = []
that_went outgoing n (p ∷ ps) =
    kept (outgoing n (length p.bytes)) p ++ that_went outgoing (n + 1) ps

-- Beyond the datagrams, only the clock and `errno` were used.
pub record Says (w : World) (ps : List Packet) (w' : World) : Type 0 where
  pub sent : w'.sent ≡ w.sent ++ that_went w.outgoing w.send_calls ps
  pub calls : w'.send_calls ≡ w.send_calls + length ps
  pub outgoing : w'.outgoing ≡ w.outgoing
  pub incoming : w'.incoming ≡ w.incoming
  pub clock : w'.clock ≡ w.clock

pub Says-nothing : (w : World) → Says w [] w
Says-nothing w = record {
  sent = sym (append-nil w.sent);
  calls = omega arith;
  outgoing = refl;
  incoming = refl;
  clock = refl;
}

reply_sent :
    (w : World) (e : UdpEndpoint) (bytes : List ℕ) (r : SysResult) (c : ℕ)
    → w.outgoing w.send_calls (length bytes) ≡ r
    → Says w
        (record { to = some e; bytes = bytes } ∷ [])
        (record (after_send_with w (some e) bytes r) { clock_calls = c })
reply_sent w e bytes (done n) c h = record {
  sent = rw h refl;
  calls = refl;
  outgoing = refl;
  incoming = refl;
  clock = refl;
}
reply_sent w e bytes (failed x) c h = record {
  sent = rw h (sym (append-nil w.sent));
  calls = refl;
  outgoing = refl;
  incoming = refl;
  clock = refl;
}

-- A reply, and then maybe a look at the clock.
pub after_send-Says :
    (w : World) (e : UdpEndpoint) (bytes : List ℕ) (c : ℕ)
    → Says w
        (record { to = some e; bytes = bytes } ∷ [])
        (record (after_send w (some e) bytes) { clock_calls = c })
after_send-Says w e bytes c = reply_sent w e bytes (w.outgoing w.send_calls (length bytes)) c refl

that_went-append :
    (outgoing : ℕ → ℕ → SysResult) (n : ℕ) (ps qs : List Packet)
    → that_went outgoing n (ps ++ qs)
      ≡ that_went outgoing n ps ++ that_went outgoing (n + length ps) qs
that_went-append outgoing n [] qs =
    ap (λ i. that_went outgoing i qs) {x = n} {y = n + 0} (omega arith)
that_went-append outgoing n (p ∷ ps) qs =
    let k : List Packet = kept (outgoing n (length p.bytes)) p in
    ap (λ r. k ++ r) (that_went-append outgoing (n + 1) ps qs)
    ∙ sym (append_assoc k (that_went outgoing (n + 1) ps) _)
    ∙ ap (λ i. (k ++ that_went outgoing (n + 1) ps) ++ that_went outgoing i qs)
        {x = n + 1 + length ps} {y = n + length (p ∷ ps)} (omega arith)

pub Says-trans :
    {u v w : World} {ps qs : List Packet} → Says u ps v → Says v qs w → Says u (ps ++ qs) w
Says-trans {u} {v} {w} {ps} {qs} a b = record {
  sent =
      b.sent
      ∙ ap₂ (λ xs ys. xs ++ ys) a.sent
          (ap (λ o. that_went o v.send_calls qs) a.outgoing
            ∙ ap (λ i. that_went u.outgoing i qs) a.calls)
      ∙ append_assoc u.sent _ _
      ∙ ap (λ r. u.sent ++ r) (sym (that_went-append u.outgoing u.send_calls ps qs));
  calls = omega (arith, a.calls, b.calls, length-append ps qs);
  outgoing = b.outgoing ∙ a.outgoing;
  incoming = b.incoming ∙ a.incoming;
  clock = b.clock ∙ a.clock;
}
