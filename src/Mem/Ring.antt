-- ===== src/Mem/Ring.antt =====
-- src/mem/ring.h and src/mem/ring.c. A function that changes `*ring` returns the new ring beside its
-- result.
pub mod Slots
pub mod Blocks
pub mod Fifo
use atolla.Prelude.{
  ℕ, ◌+◌, ◌-◌, ◌%◌, Bool, true, false, Option, none, some, List, length, ltb, ◌==◌, if◌then◌else◌,
  add_size, Result, ok, fault, div_by_zero, ◌>>=◌, ◌>>◌,
}
use atolla.Machine.{Machine}
use atolla.Mem.Block.{
  Ptr, load, store, refreshed, MemBlock, mem_block_alloc, mem_block_slice, mem_block_free,
}

-- struct MemRing
pub record MemRing : Type 0 where
  pub buf : MemBlock
  pub front : ℕ
  pub len : ℕ

-- a % b on `size_t`
unfoldable pub mod_size : ℕ → ℕ → Result ℕ
mod_size a b = if b == 0 then fault div_by_zero else ok (a % b)

unfoldable pub mem_ring_alloc : Machine → ℕ → Result MemRing
mem_ring_alloc m capacity = do
  b ← mem_block_alloc m capacity
  ok (record { buf = record b { size = capacity }; front = 0; len = 0 })

unfoldable pub mem_ring_free : MemRing → MemRing
mem_ring_free ring = record { buf = mem_block_free ring.buf; front = 0; len = 0 }

unfoldable pub mem_ring_is_empty : MemRing → Bool
mem_ring_is_empty ring = ltb 0 ring.len

-- The address that goes to `*peek_addr`; `none` is the result `false`.
unfoldable pub mem_ring_peek : MemRing → ℕ → Result (Option Ptr)
mem_ring_peek ring peek_len = if ltb ring.len peek_len then ok none else (do
  front_block ← mem_block_slice ring.buf ring.front peek_len
  ok (some front_block.bytes))

-- The second part is the ring and what `out_buf` then points to.
unfoldable pub mem_ring_dequeue : MemRing → Ptr → ℕ → Result (Bool × MemRing × Ptr)
unfolding mod_size
mem_ring_dequeue ring out_buf out_buf_len =
    if ltb ring.len out_buf_len then ok (false, ring, out_buf) else do
      front_block ← mem_block_slice ring.buf ring.front out_buf_len
      front ← mod_size (add_size ring.front out_buf_len) ring.buf.size
      bytes ← load front_block.bytes out_buf_len
      out ← store out_buf bytes
      ok (true, record { buf = ring.buf; front = front; len = ring.len - out_buf_len }, out)

unfoldable pub mem_ring_drop : MemRing → ℕ → Result (Bool × MemRing)
unfolding mod_size
mem_ring_drop ring drop_len = if ltb ring.len drop_len then ok (false, ring) else do
  front ← mod_size (add_size ring.front drop_len) ring.buf.size
  ok (true, record { buf = ring.buf; front = front; len = ring.len - drop_len })

unfoldable pub mem_ring_enqueue : MemRing → Ptr → ℕ → Result (Bool × MemRing)
unfolding mod_size refreshed
mem_ring_enqueue ring in_buf in_buf_len =
    if ltb ring.buf.size (add_size ring.len in_buf_len) then ok (false, ring) else do
      back ← mod_size (add_size ring.front ring.len) ring.buf.size
      back_block ← mem_block_slice ring.buf back in_buf_len
      bytes ← load in_buf in_buf_len
      written ← store back_block.bytes bytes
      let buf = record ring.buf { bytes = refreshed ring.buf.bytes written }
      ok (true, record { buf = buf; front = ring.front; len = add_size ring.len in_buf_len })
