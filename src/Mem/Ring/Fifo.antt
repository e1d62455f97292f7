-- ===== src/Mem/Ring/Fifo.antt =====
-- A ring of whole blocks is a queue of them, oldest first.
use native.Mathlib.Nat.{zero-mul}
use native.Mathlib.Numerals.{add-one}
use mathlib.Core.List.{tail}
use atolla.Prelude.{
  ℕ, suc, ◌+◌, ◌*◌, ◌%◌, ◌≤◌, ◌<◌, ◌≡◌, ◌≢◌, refl, sym, ap, some, ◌↔◌, le→ltb, lt→ltb, ◌∙◌, true,
  false, List, [], ◌∷◌, ◌++◌, length, slice, write_at, arith, ok, length-slice, length-append,
  length-write_at,
}
use atolla.Machine.{Machine, HasMemory}
use atolla.Mem.Block.{Ptr, into, load}
use atolla.Mem.Block.Access.{mem_block_alloc_lem, mem_block_slice_lem, load_lem}
use atolla.Mem.Ring.{
  MemRing, mem_ring_alloc, mem_ring_enqueue, mem_ring_dequeue, mem_ring_drop, mem_ring_peek,
  mem_ring_is_empty,
}
use atolla.Mem.Ring.Slots.{
  slot_ring, Fits, next_block, enqueue-room, enqueue-no_room, dequeue-some, dequeue-none, drop-some,
}
use atolla.Mem.Ring.Blocks.{blocks, blocks-write_at}

-- The ring holds exactly the blocks of the queue.
pub record Holds (k slots : ℕ) (ring : MemRing) (queue : List (List ℕ)) : Type 0 where
  pub fits : Fits k slots
  pub first : ℕ
  pub cells : List ℕ
  pub shape : ring ≡ slot_ring k slots first (length queue) cells
  pub whole : length cells ≡ slots * k
  pub inside : first < slots
  pub bounded : length queue ≤ slots
  pub content : blocks k slots cells first (length queue) ≡ queue

abbrev head_or : List ℕ → List (List ℕ) → List ℕ
head_or d [] = d
head_or d (x ∷ xs) = x

module _ (k slots : ℕ) {ring : MemRing} where
  -- Where a ring holds a queue of fewer than `slots` blocks of k bytes, mem_ring_enqueue of k bytes
  -- that lie in their object answers `true`, and the new ring holds the queue with these bytes
  -- appended.
  pub enqueue-Holds :
      (queue : List (List ℕ)) (src : List ℕ) (off : ℕ)
      → Holds k slots ring queue
      → length queue < slots
      → off + k ≤ length src
      → (ring' : MemRing) × (mem_ring_enqueue ring (into src off) k ≡ ok (true, ring'))
        × Holds k slots ring' (queue ++ (slice off k src ∷ []))
  enqueue-Holds queue src off h room inside =
      let block : List ℕ = slice off k src in
      let back : ℕ = (h.first + length queue) % slots in
      let cells : List ℕ = write_at (back * k) block h.cells in
      let len : length (queue ++ (block ∷ [])) ≡ length queue + 1 =
        length-append queue (block ∷ []) in
      (
        slot_ring k slots h.first (length queue + 1) cells,
        rw h.shape (
            enqueue-room k slots h.fits h.first (length queue) h.inside h.cells h.whole src off room
              inside),
        record {
          fits = h.fits;
          first = h.first;
          cells = cells;
          shape = rw len;
          whole = length-write_at (back * k) block h.cells ∙ h.whole;
          inside = h.inside;
          bounded = omega (arith, len);
          content =
              ap (blocks k slots cells h.first) (len ∙ add-one (length queue))
              ∙ blocks-write_at k slots h.cells block (length queue) h.first back h.whole
                  (length-slice off k src inside) h.inside room refl
              ∙ ap (λ q. q ++ (block ∷ [])) h.content;
        },
      )

  -- Where a ring holds as many blocks as it has slots, mem_ring_enqueue of a block answers `false`,
  -- from whatever address, and the ring stays as it is.
  pub enqueue-full :
      (queue : List (List ℕ)) (p : Ptr)
      → Holds k slots ring queue
      → length queue ≡ slots
      → mem_ring_enqueue ring p k ≡ ok (false, ring)
  enqueue-full queue p h full =
      rw h.shape
        (enqueue-no_room k slots h.fits h.first (length queue) h.inside h.cells h.whole p full)

  -- The ring with the slot of its first block free.
  without_first :
      (x : List ℕ) (queue : List (List ℕ)) (h : Holds k slots ring (x ∷ queue))
      → Holds k slots (slot_ring k slots ((h.first + 1) % slots) (length queue) h.cells) queue
  without_first x queue h = record {
    fits = h.fits;
    first = (h.first + 1) % slots;
    cells = h.cells;
    shape = refl;
    whole = h.whole;
    inside = omega (arith, h.inside);
    bounded = omega (arith, h.bounded);
    content = ap tail h.content;
  }

  -- Where a ring holds a queue with the block x first, mem_ring_dequeue of k bytes into an object of
  -- at least k cells answers `true` and writes x to its first cells, and the new ring holds the rest
  -- of the queue.
  pub dequeue-Holds :
      (x : List ℕ) (queue : List (List ℕ)) (out : List ℕ)
      → Holds k slots ring (x ∷ queue)
      → k ≤ length out
      → (ring' : MemRing) × (mem_ring_dequeue ring (into out 0) k
          ≡ ok (true, ring', into (write_at 0 x out) 0))
        × Holds k slots ring' queue
  dequeue-Holds x queue out h room =
      let head : slice (h.first * k) k h.cells ≡ x = ap (head_or x) h.content in
      (
        slot_ring k slots ((h.first + 1) % slots) (length queue) h.cells,
        rw (h.shape, ← head)
            (dequeue-some k slots h.fits h.first (suc (length queue)) h.inside h.cells h.whole out
                (omega arith) h.bounded room
              ∙ ap
                  (λ n. ok (
                    true,
                    slot_ring k slots ((h.first + 1) % slots) n h.cells,
                    into (write_at 0 (slice (h.first * k) k h.cells) out) 0,
                  ))
                  (omega arith)),
        without_first x queue h,
      )

  -- Where a ring holds a queue with the block x first, mem_ring_drop of k bytes answers `true`, and
  -- the new ring holds the rest of the queue.
  pub drop-Holds :
      (x : List ℕ) (queue : List (List ℕ))
      → Holds k slots ring (x ∷ queue)
      → (ring' : MemRing) × (mem_ring_drop ring k ≡ ok (true, ring')) × Holds k slots ring' queue
  drop-Holds x queue h = (
    slot_ring k slots ((h.first + 1) % slots) (length queue) h.cells,
    rw h.shape (
        drop-some k slots h.fits h.first (suc (length queue)) h.inside h.cells h.whole (omega arith)
        ∙ ap (λ n. ok (true, slot_ring k slots ((h.first + 1) % slots) n h.cells)) (omega arith)),
    without_first x queue h,
  )

  -- An empty ring gives nothing, and nothing changes.
  pub dequeue-empty :
      (p : Ptr) → Holds k slots ring [] → mem_ring_dequeue ring p k ≡ ok (false, ring, p)
  dequeue-empty p h =
      rw h.shape (dequeue-none k slots h.fits h.first 0 h.inside h.cells h.whole p refl)

  -- Where a ring holds a queue with the block x first, mem_ring_peek of k bytes gives an address, at
  -- which the k bytes are x.
  pub peek-Holds :
      (x : List ℕ) (queue : List (List ℕ))
      → Holds k slots ring (x ∷ queue)
      → (p : Ptr) × (mem_ring_peek ring k ≡ ok (some p)) × (load p k ≡ ok x)
  unfolding mem_ring_peek
  peek-Holds x queue h =
      let start : ℕ = h.first * k in
      let le : start + k ≤ slots * k = next_block h.first slots k h.inside in
      let held : k ≤ suc (length queue) * k = grind arith in
      (
        into h.cells start,
        rw (
          h.shape,
          le→ltb (suc (length queue) * k) k held,
          mem_block_slice_lem h.cells (slots * k) (slots * k) start k le
              (omega (arith, h.fits.total)),
        ),
        load_lem h.cells start k (omega (arith, le, h.whole)) ∙ ap ok (ap (head_or x) h.content),
      )

  -- Where a ring holds a queue of blocks, mem_ring_is_empty answers `true` exactly if the queue is not
  -- empty.
  pub mem_ring_is_empty-Holds :
      (queue : List (List ℕ))
      → Holds k slots ring queue
      → (mem_ring_is_empty ring ≡ true) ↔ (queue ≢ [])
  unfolding mem_ring_is_empty
  mem_ring_is_empty-Holds [] h = rw h.shape (grind arith)
  mem_ring_is_empty-Holds (x ∷ queue) h =
      let some_bytes : 0 < suc (length queue) * k = grind (arith, h.fits.block) in
      (λ _ e. cc, λ _. rw h.shape (lt→ltb 0 _ some_bytes))

-- Where no `malloc` fails, mem_ring_alloc for at least one block of at least one byte, with twice the
-- size below the range of size_t, gives a ring that holds the empty queue.
pub mem_ring_alloc-Holds :
    (m : Machine) (k slots : ℕ)
    → HasMemory m
    → Fits k slots
    → 0 < slots
    → (ring : MemRing) × (mem_ring_alloc m (slots * k) ≡ ok ring) × Holds k slots ring []
unfolding mem_ring_alloc
mem_ring_alloc-Holds m k slots mem fits some_slots =
    let n : ℕ = slots * k in
    let (cells, e) = mem n in
    (
      slot_ring k slots 0 0 cells,
      rw (mem_block_alloc_lem m n cells e (grind (arith, fits.block)), zero-mul k),
      record {
        fits = fits;
        first = 0;
        cells = cells;
        shape = refl;
        whole = m.malloc_len n cells e;
        inside = some_slots;
        bounded = omega arith;
        content = refl;
      },
    )

-- What is queued are blocks.
pub length-head :
    (k slots : ℕ) (ring : MemRing) (x : List ℕ) (queue : List (List ℕ))
    → Holds k slots ring (x ∷ queue)
    → length x ≡ k
length-head k slots ring x queue h =
    let start : ℕ = h.first * k in
    let head : slice start k h.cells ≡ x = ap (head_or x) h.content in
    ap length (sym head)
    ∙ length-slice start k h.cells (omega (arith, h.whole, next_block h.first slots k h.inside))
