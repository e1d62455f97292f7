-- ===== src/Machine.antt =====
-- What the code takes from the machine that it runs on, and is not in the repository: the C library's
-- `malloc`, and the byte order of the processor.
use atolla.Prelude.{
  arith, ℕ, ◌≡◌, Bool, false, Option, some, List, length, replicate, length-replicate,
}

pub record Machine : Type 0 where
  -- The cells that `malloc(n)` hands out, whatever they hold; `none` is the NULL of a failed call.
  pub malloc : ℕ → Option (List ℕ)
  -- An object of `malloc` is as long as was asked for.
  pub malloc_len : (n : ℕ) (cells : List ℕ) → malloc n ≡ some cells → length cells ≡ n
  -- Whether a `uint16_t` in memory has its high byte first.
  pub is_big_endian : Bool

-- No call of `malloc` fails.
abbrev pub HasMemory : Machine → Type 0
HasMemory m = (n : ℕ) → (cells : List ℕ) × (m.malloc n ≡ some cells)

-- A little-endian machine whose fresh memory is zero.
pub zeroed_len : (n : ℕ) (cells : List ℕ) → some (replicate n 0) ≡ some cells → length cells ≡ n
zeroed_len n cells e = ground (arith, length-replicate {A = ℕ} n 0)

abbrev pub zeroed : Machine
zeroed = record {
  malloc = λ n. some (replicate n 0);
  malloc_len = zeroed_len;
  is_big_endian = false;
}
