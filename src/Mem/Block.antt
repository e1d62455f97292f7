-- ===== src/Mem/Block.antt =====
-- src/mem/block.h and src/mem/block.c. A pointer is the object that it points into, with the offset
-- in it: every object of the program has one owner, which keeps the pointer that it writes through.
pub mod Access
use atolla.Prelude.{
  ℕ, zero, suc, ◌+◌, ◌≤◌, ◌≡◌, Bool, true, false, ◌||◌, Option, none, some, List, [], length, slice,
  write_at, ltb, leb, ◌==◌, if◌then◌else◌, add_size, Result, ok, fault, bad_access, assert, ◌>>=◌,
  ◌>>◌,
}
use atolla.Machine.{Machine}

pub data Ptr : Type 0 where
  null : Ptr
  -- The object's cells, and the offset of the cell pointed to.
  into : List ℕ → ℕ → Ptr

abbrev pub is_null : Ptr → Bool
is_null null = true
is_null (into cells i) = false

-- ptr + n
abbrev pub advance : Ptr → ℕ → Ptr
advance null n = null
advance (into cells i) n = into cells (i + n)

-- Reads `n` bytes from `p` on, as `memcpy` from there does.
unfoldable pub load : Ptr → ℕ → Result (List ℕ)
load null n = if n == 0 then ok [] else fault bad_access
load (into cells i) n =
    if leb (i + n) (length cells) then ok (slice i n cells) else fault bad_access

-- Writes the bytes to `p`, as `memcpy` to there does: the pointer to the object as it then is.
unfoldable pub store : Ptr → List ℕ → Result Ptr
store null ys = if length ys == 0 then ok null else fault bad_access
store (into cells i) ys =
    if leb (i + length ys) (length cells)
    then ok (into (write_at i ys cells) i)
    else fault bad_access

-- The pointer `p` after a write through `q` into the same object.
unfoldable pub refreshed : Ptr → Ptr → Ptr
refreshed null q = null
refreshed (into cells i) null = into cells i
refreshed (into cells i) (into cells' j) = into cells' i

-- struct MemBlock (its field `data` is a word of the language)
pub record MemBlock : Type 0 where
  pub bytes : Ptr
  pub size : ℕ
  pub capacity : ℕ

unfoldable pub mem_block_make : Ptr → ℕ → MemBlock
mem_block_make p n = record { bytes = p; size = n; capacity = n }

-- The pointer that a call of `malloc` returns.
unfoldable pub malloc_ptr : Option (List ℕ) → Ptr
malloc_ptr none = null
malloc_ptr (some cells) = into cells 0

unfoldable pub mem_block_alloc : Machine → ℕ → Result MemBlock
unfolding malloc_ptr
mem_block_alloc m initial_capacity = do
  let p = if ltb 0 initial_capacity then malloc_ptr (m.malloc initial_capacity) else null
  assert (initial_capacity == 0 || (if is_null p then false else true))
  ok (record { bytes = p; size = 0; capacity = initial_capacity })

unfoldable pub mem_block_slice : MemBlock → ℕ → ℕ → Result MemBlock
mem_block_slice block slice_byte_offset slice_byte_length = do
  assert (leb (add_size slice_byte_offset slice_byte_length) block.size)
  ok (record {
    bytes = advance block.bytes slice_byte_offset;
    size = slice_byte_length;
    capacity = slice_byte_length;
  })

-- A freed object is gone: nothing of the model refers to it.
unfoldable pub mem_block_resize : Machine → MemBlock → ℕ → Result MemBlock
mem_block_resize m block new_size =
    if ltb block.capacity new_size
    then (do b ← mem_block_alloc m new_size; ok (record b { size = new_size }))
    else ok (record block { size = new_size })

unfoldable pub mem_block_free : MemBlock → MemBlock
mem_block_free block =
    if ltb 0 block.capacity then record { bytes = null; size = 0; capacity = 0 } else block

-- The block owns an object of `capacity` cells, and uses the first `size` of them.
abbrev pub Owns : MemBlock → List ℕ → Type 0
Owns b cells = (b.bytes ≡ into cells 0) × (length cells ≡ b.capacity) × (b.size ≤ b.capacity)
