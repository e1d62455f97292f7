-- ===== src/Mem/Block/Access.antt =====
-- Laws of blocks: what slices reach, and when an allocation succeeds.
use native.Mathlib.Nat.{zero-add}
use atolla.Prelude.{
  ℕ, ◌+◌, ◌≤◌, ◌<◌, ◌≡◌, refl, some, List, length, slice, write_at, arith, size_mod, ok, inl, inr,
  Bool-cases, ltb,
}
use atolla.Machine.{Machine, HasMemory}
use atolla.Mem.Block.{
  into, load, store, MemBlock, mem_block_alloc, mem_block_slice, mem_block_resize, Owns,
}

pub load_lem :
    (cells : List ℕ) (i n : ℕ) → i + n ≤ length cells → load (into cells i) n ≡ ok (slice i n cells)
unfolding load
load_lem cells i n h = ground arith

pub store_lem :
    (cells ys : List ℕ) (i : ℕ)
    → i + length ys ≤ length cells
    → store (into cells i) ys ≡ ok (into (write_at i ys cells) i)
unfolding store
store_lem cells ys i h = ground arith

pub mem_block_slice_lem :
    (cells : List ℕ) (size capacity off n : ℕ)
    → off + n ≤ size
    → size < size_mod
    → mem_block_slice (record { bytes = into cells 0; size = size; capacity = capacity }) off n
      ≡ ok (record { bytes = into cells off; size = n; capacity = n })
unfolding mem_block_slice
mem_block_slice_lem cells size capacity off n h k = ground (arith, zero-add off)

-- An allocation of at least one byte gives an object of that length, if `malloc` does.
pub mem_block_alloc_lem :
    (m : Machine) (n : ℕ) (cells : List ℕ)
    → m.malloc n ≡ some cells
    → 0 < n
    → mem_block_alloc m n ≡ ok (record { bytes = into cells 0; size = 0; capacity = n })
unfolding mem_block_alloc
mem_block_alloc_lem m n cells e h = rw e (ground arith)

pub mem_block_alloc-Owns :
    (m : Machine) (n : ℕ)
    → HasMemory m
    → 0 < n
    → (b : MemBlock) × (cells : List ℕ) × (mem_block_alloc m n ≡ ok b)
      × Owns b cells
      × (b.capacity ≡ n)
      × (b.size ≡ 0)
mem_block_alloc-Owns m n mem h = (
  record { bytes = into (mem n).0 0; size = 0; capacity = n },
  (mem n).0,
  mem_block_alloc_lem m n (mem n).0 (mem n).1 h,
  (refl, m.malloc_len n (mem n).0 (mem n).1, omega arith),
  refl,
  refl,
)

-- Where no `malloc` fails, mem_block_resize of a block that owns its object succeeds: the block owns
-- an object with the size asked for, and keeps its cells where they were enough.
pub mem_block_resize-Owns :
    (m : Machine) (b : MemBlock) (old : List ℕ) (n : ℕ)
    → HasMemory m
    → Owns b old
    → (b' : MemBlock) × (cells : List ℕ) × (mem_block_resize m b n ≡ ok b')
      × Owns b' cells
      × (b'.size ≡ n)
      × (n ≤ b.capacity → cells ≡ old)
unfolding mem_block_resize
mem_block_resize-Owns m b old n mem o = elim (Bool-cases (ltb b.capacity n)) [
  | inl small ↦
      let (c, cells, e, own, cap, _) = mem_block_alloc-Owns m n mem (ground arith) in
      (
        record c { size = n },
        cells,
        rw (small, e),
        (own.0, own.1, omega (arith, cap)),
        refl,
        λ h. absurd (ground arith),
      )
  | inr enough ↦ (record b { size = n }, old, rw enough, (o.0, o.1, ground arith), refl, λ _. refl)
]
