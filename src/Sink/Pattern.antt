-- ===== src/Sink/Pattern.antt =====
-- fill_with_pattern and bounded_diff of src/atolla/sink.cpp.
pub mod Cyclic
pub mod Diff
use atolla.Prelude.{
  ℕ, zero, suc, ◌+◌, ◌-◌, ◌%◌, List, [], ◌∷◌, length, leb, ◌==◌, if◌then◌else◌, Result, ok, fault,
  out_of_fuel, ◌>>=◌,
}
use atolla.Prelude.Int.{ℤ, ◌+ℤ◌, ◌-ℤ◌, ltb_ℤ}
use atolla.Mem.Block.{Ptr, advance, load, store, refreshed}

-- The loop, with fuel: `off` is how far `offset_target` stands behind the target.
unfoldable pub fill_from : ℕ → Ptr → ℕ → ℕ → Ptr → ℕ → Result Ptr
unfolding refreshed
fill_from zero target off target_len pattern pattern_len =
    if target_len == 0 then ok target else fault out_of_fuel
fill_from (suc fuel) target off target_len pattern pattern_len =
    if target_len == 0
    then ok target
    else if leb target_len pattern_len
    then (do
      bytes ← load pattern target_len
      p ← store (advance target off) bytes
      fill_from fuel (refreshed target p) off 0 pattern pattern_len)
    else do
      bytes ← load pattern pattern_len
      p ← store (advance target off) bytes
      fill_from fuel (refreshed target p) (off + pattern_len) (target_len - pattern_len) pattern
          pattern_len

-- Each round writes at least one byte: `target_len` rounds are enough.
unfoldable pub fill_with_pattern : Ptr → ℕ → Ptr → ℕ → Result Ptr
fill_with_pattern target target_len pattern pattern_len =
    if target_len == 0
    then ok target
    else if pattern_len == 0
    then ok target
    else fill_from target_len target 0 target_len pattern pattern_len

unfoldable pub bounded_diff : ℤ → ℤ → ℤ → ℤ
bounded_diff from to cap = if ltb_ℤ to from then cap -ℤ from +ℤ to else to -ℤ from
