-- ===== src/Udp/System.antt =====
-- The calls of the system that make sockets and set them up. They are no code of the repository: what
-- they answer is in the World, and what they do here is to be counted, to be noted, and to open or
-- close a descriptor.
use atolla.Prelude.{ℕ, ◌+◌, Option, none, some, List, [], ◌∷◌, ◌++◌, ◌==◌, if◌then◌else◌}
use atolla.World.{Errno, SocketCall, closed, World}

-- A list without the first occurrence of a number.
abbrev pub without : ℕ → List ℕ → List ℕ
without h [] = []
without h (x ∷ xs) = if x == h then xs else x ∷ without h xs

abbrev pub noted : SocketCall → World → World
noted call w = record w {
  kernel = record w.kernel { calls = w.kernel.calls + 1; asked = w.kernel.asked ++ (call ∷ []) };
}

-- `errno` after a call that failed or did not.
abbrev pub errno_after : Option Errno → Errno → Errno
errno_after none old = old
errno_after (some e) old = e

abbrev pub with_errno : Option Errno → World → World
with_errno e w = record w { errno = errno_after e w.errno }

-- `setsockopt`, `bind`, `fcntl` and `connect`: none is the answer 0, and some the answer -1.
abbrev pub ask : SocketCall → World → Option Errno × World
ask call w = let e = w.kernel.failure w.kernel.calls in (e, with_errno e (noted call w))

-- `socket`: none is the answer -1.
abbrev pub opened_with : Option ℕ → List ℕ → List ℕ
opened_with none hs = hs
opened_with (some h) hs = h ∷ hs

abbrev pub open_socket : World → Option ℕ × World
open_socket w =
    let h = w.kernel.create w.kernel.calls in
    (
      h,
      record w {
        kernel = record w.kernel {
          calls = w.kernel.calls + 1;
          handles = opened_with h w.kernel.handles;
        };
      },
    )

-- `close`
abbrev pub released : Option Errno → Option ℕ → List ℕ → List ℕ
released none (some h) hs = without h hs
released _ _ hs = hs

abbrev pub close_socket : Option ℕ → World → Option Errno × World
close_socket h w =
    let (e, w1) = ask (closed h) w in
    (e, record w1 { kernel = record w1.kernel { handles = released e h w1.kernel.handles } })
