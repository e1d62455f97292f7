-- ===== src/Mem/Ring/Slots.antt =====
-- A ring whose capacity is `slots` blocks of `k` bytes, and that holds whole blocks: no block goes round
-- the end of the buffer.
use native.Mathlib.Nat.{mod-eq_of_lt, mod-eq-sub-mod, mul-lt-mul_of_pos_right, mul-le-mul_right}
use native.Mathlib.Decide.{dec_lt}
use atolla.Prelude.{
  ℕ, ◌+◌, ◌-◌, ◌*◌, ◌%◌, ◌≤◌, ◌<◌, ◌≡◌, true, false, List, length, slice, write_at, arith, ltb,
  le→ltb, lt→ltb, length-slice, size_mod, add_size, ap, ◌∙◌, ok,
}
use atolla.Mem.Block.{Ptr, into}
use atolla.Mem.Block.Access.{load_lem, store_lem, mem_block_slice_lem}
use atolla.Mem.Ring.{MemRing, mod_size, mem_ring_enqueue, mem_ring_dequeue, mem_ring_drop}

-- A ring of `slots` blocks of `k` bytes with `used` blocks from slot `first` on.
abbrev pub slot_ring : ℕ → ℕ → ℕ → ℕ → List ℕ → MemRing
slot_ring k slots first used cells = record {
  buf = record { bytes = into cells 0; size = slots * k; capacity = slots * k };
  front = first * k;
  len = used * k;
}

-- Slots go round where bytes do.
slot-mod : (a s k : ℕ) → a < s + s → 0 < k → a * k % (s * k) ≡ a % s * k
slot-mod a s k h p = elim (dec_lt a s) [
  | yes lt ↦ rw (mod-eq_of_lt (mul-lt-mul_of_pos_right lt p), mod-eq_of_lt lt)
  | no ge ↦
      let d : ℕ = a - s in
      let lt : d < s = omega arith in
      let e : a ≡ s + d = omega arith in
      let e' : a * k - s * k ≡ d * k = omega (arith, ap (λ (t : ℕ). t * k) e) in
      let le : s * k ≤ a * k = mul-le-mul_right k (omega arith) in
      rw (
        mod-eq-sub-mod le,
        e',
        mod-eq_of_lt (mul-lt-mul_of_pos_right lt p),
        mod-eq-sub-mod {n = a} {m = s} (omega arith),
        mod-eq_of_lt lt,
      )
]

-- The block behind the first `a` is inside.
pub next_block : (a s k : ℕ) → a < s → a * k + k ≤ s * k
next_block a s k h = omega (arith, mul-le-mul_right {m = a + 1} {n = s} k (omega arith))

-- What the arithmetic of slots rests on: blocks are not empty, and no sum of sizes wraps.
pub record Fits (k slots : ℕ) : Type 0 where
  pub block : 0 < k
  pub total : slots * k + slots * k < size_mod

module _ (k slots : ℕ) (fits : Fits k slots) (first used : ℕ) (inside : first < slots) where
  -- One block further than the front, taken round the end.
  pub mod_size-next : mod_size (add_size (first * k) k) (slots * k) ≡ ok ((first + 1) % slots * k)
  unfolding mod_size
  mod_size-next =
      let next : first * k + k ≤ slots * k = next_block first slots k inside in
      let e : add_size (first * k) k ≡ (first + 1) * k =
        mod-eq_of_lt {n = first * k + k} {m = size_mod} (omega (arith, next, fits.total))
        ∙ omega arith in
      rw e (ground (arith, slot-mod (first + 1) slots k (omega arith) fits.block, next))

  -- The bytes from the front, taken round the end, are the slots taken round.
  pub mod_size-slots :
      used ≤ slots
      → mod_size (add_size (first * k) (used * k)) (slots * k) ≡ ok ((first + used) % slots * k)
  unfolding mod_size
  mod_size-slots u =
      let small : first * k < slots * k = mul-lt-mul_of_pos_right inside fits.block in
      let le : used * k ≤ slots * k = mul-le-mul_right k u in
      let e : add_size (first * k) (used * k) ≡ (first + used) * k =
        mod-eq_of_lt {n = first * k + used * k} {m = size_mod}
          (omega (arith, small, le, fits.total))
        ∙ omega arith in
      rw e (ground (arith, slot-mod (first + used) slots k (omega arith) fits.block, small))

slots_pos : (f s : ℕ) → f < s → 1 ≤ s
slots_pos f s h = omega arith

the_pred : (n : ℕ) → 0 < n → n ≡ (n - 1) + 1
the_pred n h = omega arith

module _ (k slots : ℕ) (fits : Fits k slots) (first used : ℕ) (inside : first < slots)
    (cells : List ℕ) (whole : length cells ≡ slots * k) where
  -- A block goes to the slot behind the used ones, if there is one, and else nothing happens.
  pub enqueue-room :
      (src : List ℕ) (off : ℕ)
      → used < slots
      → off + k ≤ length src
      → mem_ring_enqueue (slot_ring k slots first used cells) (into src off) k
        ≡ ok (
          true,
          slot_ring k slots first
              (used + 1)
              (write_at ((first + used) % slots * k) (slice off k src) cells),
        )
  unfolding mem_ring_enqueue
  enqueue-room src off room h =
      let back : ℕ = (first + used) % slots in
      let grown : used * k + k ≤ slots * k = next_block used slots k room in
      let behind : back * k + k ≤ slots * k = next_block back slots k (omega arith) in
      let len : length (slice off k src) ≡ k = length-slice off k src h in
      let sum : add_size (used * k) k ≡ (used + 1) * k =
        mod-eq_of_lt {n = used * k + k} {m = size_mod} (omega (arith, grown, fits.total))
        ∙ omega arith in
      let test : ltb (slots * k) (add_size (used * k) k) ≡ false =
        rw sum (le→ltb _ _ (omega (arith, grown))) in
      rw (
        test,
        mod_size-slots k slots fits first used inside (omega arith),
        mem_block_slice_lem cells (slots * k) (slots * k) (back * k) k behind
            (omega (arith, fits.total)),
        load_lem src off k h,
        store_lem cells (slice off k src) (back * k) (omega (arith, len, whole, behind)),
        sum,
      )

  pub enqueue-no_room :
      (p : Ptr)
      → used ≡ slots
      → mem_ring_enqueue (slot_ring k slots first used cells) p k
        ≡ ok (false, slot_ring k slots first used cells)
  unfolding mem_ring_enqueue
  enqueue-no_room p e =
      let le : used * k ≡ slots * k = ap (λ (t : ℕ). t * k) e in
      let sum : add_size (used * k) k ≡ used * k + k = mod-eq_of_lt (
        omega
          (arith, le, fits.total, fits.block, mul-le-mul_right k (slots_pos first slots inside))) in
      rw (sum, lt→ltb (slots * k) (used * k + k) (omega (arith, le, fits.block)))

  -- The first block is copied out, and its slot is free again.
  pub dequeue-some :
      (out : List ℕ)
      → 0 < used
      → used ≤ slots
      → k ≤ length out
      → mem_ring_dequeue (slot_ring k slots first used cells) (into out 0) k
        ≡ ok (
          true,
          slot_ring k slots ((first + 1) % slots) (used - 1) cells,
          into (write_at 0 (slice (first * k) k cells) out) 0,
        )
  unfolding mem_ring_dequeue
  dequeue-some out some_used u h =
      let le : first * k + k ≤ slots * k = next_block first slots k inside in
      let held : 1 * k ≤ used * k = mul-le-mul_right k some_used in
      let len : length (slice (first * k) k cells) ≡ k =
        length-slice (first * k) k cells (omega (arith, whole)) in
      let less : used * k - k ≡ (used - 1) * k =
        omega (arith, ap (λ (t : ℕ). t * k) (the_pred used some_used)) in
      rw (
        le→ltb (used * k) k (omega arith),
        mem_block_slice_lem cells (slots * k) (slots * k) (first * k) k le
            (omega (arith, fits.total)),
        mod_size-next k slots fits first used inside,
        load_lem cells (first * k) k (omega (arith, whole)),
        store_lem out (slice (first * k) k cells) 0 (omega (arith, len)),
        less,
      )

  pub dequeue-none :
      (p : Ptr)
      → used ≡ 0
      → mem_ring_dequeue (slot_ring k slots first used cells) p k
        ≡ ok (false, slot_ring k slots first used cells, p)
  unfolding mem_ring_dequeue
  dequeue-none p e = rw (lt→ltb (used * k) k (omega (arith, ap (λ (t : ℕ). t * k) e, fits.block)))

  -- The slot of the first block is free again.
  pub drop-some :
      0 < used
      → mem_ring_drop (slot_ring k slots first used cells) k
        ≡ ok (true, slot_ring k slots ((first + 1) % slots) (used - 1) cells)
  unfolding mem_ring_drop
  drop-some some_used =
      let held : 1 * k ≤ used * k = mul-le-mul_right k some_used in
      let less : used * k - k ≡ (used - 1) * k =
        omega (arith, ap (λ (t : ℕ). t * k) (the_pred used some_used)) in
      rw (le→ltb (used * k) k (omega arith), mod_size-next k slots fits first used inside, less)
