-- ===== src/Sink/Pattern/Diff.antt =====
-- bounded_diff on the frame indexes of a sink: how often the last one has to count on to reach another.
use atolla.Prelude.{ℕ, suc, ◌+◌, ◌-◌, ◌%◌, ◌<◌, ◌≡◌, arith}
use atolla.Prelude.Int.{ℤ, pos, negsuc, ◌+ℤ◌, rem_ℤ}
use atolla.Sink.Valid.{IsIndex}
use atolla.Sink.Pattern.{bounded_diff}

-- Between two indexes below 256 bounded_diff is a number below 256, and the first index plus it is the
-- second, modulo 256.
pub bounded_diff_lem :
    (a b : ℕ)
    → a < 256
    → b < 256
    → (d : ℕ) × (bounded_diff (pos a) (pos b) (pos 256) ≡ pos d) × (d < 256) × ((a + d) % 256 ≡ b)
unfolding bounded_diff
bounded_diff_lem a b h k = ((256 + b - a) % 256, ground arith, omega arith, omega arith)

-- After -1, that is before the first frame of a borrow, it is the number of indexes up to the second.
pub bounded_diff-first : (b : ℕ) → bounded_diff (negsuc 0) (pos b) (pos 256) ≡ pos (b + 1)
unfolding bounded_diff
bounded_diff-first b = ground arith

-- Counting on by one makes the difference smaller by one.
pub bounded_diff-next :
    (a b d : ℕ)
    → a < 256
    → b < 256
    → bounded_diff (pos a) (pos b) (pos 256) ≡ pos (suc d)
    → bounded_diff (rem_ℤ (pos a +ℤ pos 1) 256) (pos b) (pos 256) ≡ pos d
unfolding bounded_diff
bounded_diff-next a b d h k e = ground arith

-- The index that a sink counts on to.
abbrev pub next_index : ℤ → ℤ
next_index i = rem_ℤ (i +ℤ pos 1) 256

pub IsIndex-next : (i : ℤ) → IsIndex i → IsIndex (next_index i)
IsIndex-next (pos n) h = ground arith
IsIndex-next (negsuc n) h = ground arith

first_next :
    (n b d : ℕ)
    → n ≡ 0
    → b < 256
    → bounded_diff (negsuc n) (pos b) (pos 256) ≡ pos (suc d)
    → bounded_diff (next_index (negsuc n)) (pos b) (pos 256) ≡ pos d
unfolding bounded_diff
first_next n b d h k e = ground arith

-- From -1 or an index below 256, where bounded_diff to a second index below 256 is d + 1, it is d
-- after counting on by one as sink_enqueue does.
pub bounded_diff-next_index :
    (i : ℤ) (b d : ℕ)
    → IsIndex i
    → b < 256
    → bounded_diff i (pos b) (pos 256) ≡ pos (suc d)
    → bounded_diff (next_index i) (pos b) (pos 256) ≡ pos d
bounded_diff-next_index (pos a) b d h k e = bounded_diff-next a b d h k e
bounded_diff-next_index (negsuc n) b d h k e = first_next n b d h k e

-- Where the difference is nothing, the index is reached.
pub bounded_diff-zero :
    (i : ℤ) (b : ℕ) → IsIndex i → b < 256 → bounded_diff i (pos b) (pos 256) ≡ pos 0 → i ≡ pos b
unfolding bounded_diff
bounded_diff-zero (pos a) b h k e = ground arith
bounded_diff-zero (negsuc n) b h k e = ground arith
