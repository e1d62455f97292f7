-- ===== src/Msg/Builder/Encode.antt =====
-- The builder assembles the protocol's messages.
use atolla.Prelude.{
  ℕ, ◌+◌, ◌≤◌, ◌<◌, ◌≡◌, refl, ap, ◌∙◌, List, [], ◌∷◌, length, take, write_at, u8, u16, arith,
  Result, ok, fault, assert_failed, le→leb, gt→leb, lt→ltb, suc, write_at_nil, length-write_at,
  take-overwrite_self,
}
use atolla.Machine.{Machine, HasMemory}
use atolla.Mem.Block.{into, load, MemBlock, Owns}
use atolla.Mem.Block.Access.{store_lem, load_lem, mem_block_resize-Owns, mem_block_alloc-Owns}
use atolla.Mem.Uint16.{uint16_byte_low, uint16_byte_high}
use atolla.Msg.Kind.{MsgType, type_byte}
use atolla.Msg.Packet.{packet, borrow_packet, lent_packet, enqueue_packet, fail_packet}
use atolla.Msg.Builder.{
  MsgBuilder, set_uint8, set_uint16, set_data, build, msg_builder_init, msg_builder_borrow,
  msg_builder_lent, msg_builder_enqueue, msg_builder_fail,
}

-- The builder owns its buffer.
abbrev pub IsReady : MsgBuilder → Type 0
IsReady b = (cells : List ℕ) × Owns b.msg_buf cells

-- The bytes of the block that an assembly returns.
abbrev pub message : MsgBuilder → Result (List ℕ)
message b = load b.msg_buf.bytes b.msg_buf.size

-- What the three writes of `build` make of a buffer.
abbrev written : ℕ → ℕ → List ℕ → List ℕ → List ℕ
written type id payload cells = write_at 5 payload (
    write_at 3 (uint16_byte_low (length payload) ∷ uint16_byte_high (length payload) ∷ [])
      (write_at 1 (uint16_byte_low id ∷ uint16_byte_high id ∷ []) (write_at 0 (type ∷ []) cells)))

written-packet :
    (type id : ℕ) (payload cells : List ℕ)
    → 5 + length payload ≤ length cells
    → take (length (packet type id payload)) (written type id payload cells)
      ≡ packet type id payload
written-packet type id payload (a ∷ b ∷ c ∷ d ∷ e ∷ cells) h =
    rw (take-overwrite_self payload cells (omega arith))
written-packet type id payload _ h = absurd (omega arith)

-- The block with that object and size.
abbrev block_of : List ℕ → ℕ → ℕ → MemBlock
block_of cells size capacity = record { bytes = into cells 0; size = size; capacity = capacity }

module _ (size capacity : ℕ) (cells : List ℕ) (whole : size ≤ length cells) where
  set_uint8-type :
      (value : ℕ)
      → 1 ≤ size
      → set_uint8 (block_of cells size capacity) 0 value
        ≡ ok (block_of (write_at 0 (u8 value ∷ []) cells) size capacity)
  unfolding set_uint8
  set_uint8-type value h = rw (le→leb 1 size h, store_lem cells (u8 value ∷ []) 0 (omega arith))

  set_uint16-id :
      (value : ℕ)
      → 3 ≤ size
      → set_uint16 (block_of cells size capacity) 1 value
        ≡ ok (
            block_of
              (write_at 1 (uint16_byte_low value ∷ uint16_byte_high value ∷ []) cells)
              size
              capacity)
  unfolding set_uint16
  set_uint16-id value h = rw (
    le→leb 3 size h,
    store_lem cells (uint16_byte_low value ∷ uint16_byte_high value ∷ []) 1 (omega arith),
  )

  set_data-payload :
      (payload : List ℕ)
      → size ≡ 5 + length payload
      → set_data (block_of cells size capacity) 3 payload
        ≡ ok (
            block_of
              (write_at 5 payload (
                write_at 3
                  (uint16_byte_low (length payload) ∷ uint16_byte_high (length payload) ∷ [])
                  cells))
              size
              capacity)
  unfolding set_data
  set_data-payload [] e =
      let len : ℕ = length {A = ℕ} [] in
      let lens : List ℕ = uint16_byte_low len ∷ uint16_byte_high len ∷ [] in
      rw (
        le→leb (5 + len) size (omega arith),
        store_lem cells lens 3 (omega arith),
        write_at_nil 5 (write_at 3 lens cells),
      )
  set_data-payload (x ∷ payload) e =
      let len : ℕ = suc (length payload) in
      let lens : List ℕ = uint16_byte_low len ∷ uint16_byte_high len ∷ [] in
      rw (
        le→leb (5 + len) size (omega arith),
        store_lem cells lens 3 (omega arith),
        lt→ltb 0 len (omega arith),
        store_lem (write_at 3 lens cells) (x ∷ payload) 5
            (omega (arith, length-write_at 3 lens cells)),
      )

length-written :
    (payload cells : List ℕ)
    → length (
        write_at 5 payload (
          write_at 3
            (uint16_byte_low (length payload) ∷ uint16_byte_high (length payload) ∷ [])
            cells))
      ≡ length cells
length-written payload cells =
    let lens : List ℕ = uint16_byte_low (length payload) ∷ uint16_byte_high (length payload) ∷ [] in
    length-write_at 5 payload (write_at 3 lens cells) ∙ length-write_at 3 lens cells

u8-type_byte : (type : MsgType) → u8 (type_byte type) ≡ type_byte type
u8-type_byte MsgType.borrow = refl
u8-type_byte MsgType.lent = refl
u8-type_byte MsgType.enqueue = refl
u8-type_byte MsgType.fail = refl

-- With memory and a payload that its length field can hold, `build` gives a block of exactly the
-- message: the type, the next ID, the length and the payload. The next ID counts on modulo 2^16.
pub build_lem :
    (m : Machine) (b : MsgBuilder) (type : MsgType) (payload : List ℕ)
    → HasMemory m
    → IsReady b
    → length payload ≤ 65535
    → (b' : MsgBuilder) × (build m b type payload ≡ ok b')
      × IsReady b'
      × (message b' ≡ ok (packet (type_byte type) b.next_msg_id payload))
      × (b'.next_msg_id ≡ u16 (b.next_msg_id + 1))
unfolding build
build_lem m b type payload mem (old, own) h =
    let (block, cells, e, own', size, _) =
      mem_block_resize-Owns m b.msg_buf old (5 + length payload) mem own in
    let n : ℕ = 5 + length payload in
    let cap : ℕ = block.capacity in
    let shape : block ≡ block_of cells n cap =
      λ i. record { bytes = own'.0 i; size = size i; capacity = cap } in
    let room : n ≤ length cells = omega (arith, own'.1, own'.2, size) in
    let ty : ℕ = type_byte type in
    let id : ℕ = b.next_msg_id in
    let c1 : List ℕ = write_at 0 (ty ∷ []) cells in
    let c2 : List ℕ = write_at 1 (uint16_byte_low id ∷ uint16_byte_high id ∷ []) c1 in
    let l1 : length c1 ≡ length cells = length-write_at 0 (ty ∷ []) cells in
    let l2 : length c2 ≡ length c1 =
      length-write_at 1 (uint16_byte_low id ∷ uint16_byte_high id ∷ []) c1 in
    let final : List ℕ = written ty id payload cells in
    let l3 : length final ≡ length c2 = length-written payload c2 in
    (
      record { msg_buf = block_of final n cap; next_msg_id = u16 (id + 1) },
      rw (
        le→leb (length payload) 65535 h,
        e,
        shape,
        set_uint8-type n cap cells room ty (omega arith),
        u8-type_byte type,
        set_uint16-id n cap c1 (omega (arith, l1)) id (omega arith),
        set_data-payload n cap c2 (omega (arith, l1, l2)) payload refl,
      ),
      (final, (refl, l3 ∙ l2 ∙ l1 ∙ own'.1, omega (arith, own'.2, size))),
      load_lem final 0 n (omega (arith, l1, l2, l3))
          ∙ ap (λ t. ok (take t final)) {y = length (packet ty id payload)} (omega arith)
          ∙ ap ok (written-packet ty id payload cells room),
      refl,
    )

-- A new builder is ready, and its first message gets the ID 0.
pub msg_builder_init_lem :
    (m : Machine)
    → HasMemory m
    → (b : MsgBuilder) × (msg_builder_init m ≡ ok b) × IsReady b × (b.next_msg_id ≡ 0)
unfolding msg_builder_init
msg_builder_init_lem m mem =
    let (block, cells, e, own, _, _) = mem_block_alloc-Owns m 32 mem (omega arith) in
    (record { msg_buf = block; next_msg_id = 0 }, rw e, (cells, own), refl)

-- What a call that assembles `bytes` does: it succeeds, the block returned holds the bytes, the builder
-- stays ready, and its ID counts on.
abbrev pub Assembles : MsgBuilder → Result MsgBuilder → List ℕ → Type 0
Assembles b r bytes =
    (b' : MsgBuilder) × (r ≡ ok b')
    × IsReady b'
    × (message b' ≡ ok bytes)
    × (b'.next_msg_id ≡ u16 (b.next_msg_id + 1))

module _ (m : Machine) (b : MsgBuilder) (mem : HasMemory m) (ready : IsReady b) where
  -- Where no `malloc` fails and the builder owns its buffer, msg_builder_borrow succeeds: the block
  -- holds exactly the protocol's BORROW message, with its two arguments modulo 256, the builder still
  -- owns its buffer, and its next ID counts on modulo 2^16.
  pub borrow-Assembles :
      (frame_length buffer_length : ℕ)
      → Assembles b
          (msg_builder_borrow m b frame_length buffer_length)
          (borrow_packet b.next_msg_id frame_length buffer_length)
  unfolding msg_builder_borrow
  borrow-Assembles frame_length buffer_length =
      build_lem m b MsgType.borrow _ mem ready (omega arith)

  -- Where no `malloc` fails and the builder owns its buffer, msg_builder_lent succeeds: the block
  -- holds exactly the protocol's LENT message, the builder still owns its buffer, and its next ID
  -- counts on modulo 2^16.
  pub lent-Assembles : Assembles b (msg_builder_lent m b) (lent_packet b.next_msg_id)
  unfolding msg_builder_lent
  lent-Assembles = build_lem m b MsgType.lent _ mem ready (omega arith)

  -- Where no `malloc` fails and the builder owns its buffer, msg_builder_enqueue of a frame of at most
  -- 65532 bytes succeeds: the block holds exactly the protocol's ENQUEUE message with the builder's
  -- next ID, the builder still owns its buffer, and its next ID counts on modulo 2^16.
  pub enqueue-Assembles :
      (frame_idx : ℕ) (frame : List ℕ)
      → length frame ≤ 65532
      → Assembles b
          (msg_builder_enqueue m b frame_idx frame)
          (enqueue_packet b.next_msg_id frame_idx frame)
  unfolding msg_builder_enqueue
  enqueue-Assembles frame_idx frame h = build_lem m b MsgType.enqueue _ mem ready (omega arith)

  -- Where no `malloc` fails and the builder owns its buffer, msg_builder_fail succeeds: the block
  -- holds exactly the protocol's FAIL message, with its arguments modulo 2^16 and 256, the builder
  -- still owns its buffer, and its next ID counts on modulo 2^16.
  pub fail-Assembles :
      (causing error_code : ℕ)
      → Assembles b
          (msg_builder_fail m b causing error_code)
          (fail_packet b.next_msg_id causing error_code)
  unfolding msg_builder_fail
  fail-Assembles causing error_code = build_lem m b MsgType.fail _ mem ready (omega arith)

-- msg_builder_enqueue of a frame of more than 65532 bytes fails an assertion.
pub enqueue-too_long :
    (m : Machine) (b : MsgBuilder) (frame_idx : ℕ) (frame : List ℕ)
    → 65532 < length frame
    → msg_builder_enqueue m b frame_idx frame ≡ fault assert_failed
unfolding msg_builder_enqueue build
enqueue-too_long m b frame_idx frame h =
    rw (gt→leb (suc (suc (suc (length frame)))) 65535 (omega arith))
