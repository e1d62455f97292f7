-- ===== src/Msg/Builder.antt =====
-- src/msg/builder.h and src/msg/builder.c. The functions that assemble a message return the builder;
-- the block that they point to is its `msg_buf`.
pub mod Encode
use atolla.Prelude.{
  ℕ, ◌+◌, List, [], ◌∷◌, length, leb, ltb, if◌then◌else◌, u8, u16, Result, ok, assert, ◌>>=◌, ◌>>◌,
}
use atolla.Machine.{Machine}
use atolla.Mem.Uint16.{uint16_byte_low, uint16_byte_high}
use atolla.Mem.Block.{
  advance, store, refreshed, MemBlock, mem_block_alloc, mem_block_resize, mem_block_free,
}
use atolla.Msg.Kind.{MsgType, type_byte}

-- struct MsgBuilder
pub record MsgBuilder : Type 0 where
  pub msg_buf : MemBlock
  pub next_msg_id : ℕ

abbrev pub header_len : ℕ
header_len = 5

abbrev pub max_payload_len : ℕ
max_payload_len = 65535

abbrev pub initial_block_capacity : ℕ
initial_block_capacity = 32

unfoldable pub msg_builder_init : Machine → Result MsgBuilder
msg_builder_init m = do
  b ← mem_block_alloc m initial_block_capacity
  ok (record { msg_buf = b; next_msg_id = 0 })

unfoldable pub msg_builder_free : MsgBuilder → MsgBuilder
msg_builder_free builder = record builder { msg_buf = mem_block_free builder.msg_buf }

-- `*at = value` for `at` the byte at that offset
unfoldable pub set_uint8 : MemBlock → ℕ → ℕ → Result MemBlock
unfolding refreshed
set_uint8 block byte_offset value = do
  assert (leb (byte_offset + 1) block.size)
  p ← store (advance block.bytes byte_offset) (u8 value ∷ [])
  ok (record block { bytes = refreshed block.bytes p })

unfoldable pub set_uint16 : MemBlock → ℕ → ℕ → Result MemBlock
unfolding refreshed
set_uint16 block byte_offset value = do
  assert (leb (byte_offset + 2) block.size)
  p ← store (advance block.bytes byte_offset) (uint16_byte_low value ∷ uint16_byte_high value ∷ [])
  ok (record block { bytes = refreshed block.bytes p })

-- The bytes at `data` are given as a list, as long as `data_len`.
unfoldable pub set_data : MemBlock → ℕ → List ℕ → Result MemBlock
unfolding refreshed
set_data block byte_offset bytes = do
  let data_len = length bytes
  assert (leb (byte_offset + 2 + data_len) block.size)
  p ←
      store (advance block.bytes byte_offset)
        (uint16_byte_low data_len ∷ uint16_byte_high data_len ∷ [])
  let header = refreshed block.bytes p
  q ← (if ltb 0 data_len then store (advance header (byte_offset + 2)) bytes else ok header)
  ok (record block { bytes = refreshed header q })

unfoldable pub build : Machine → MsgBuilder → MsgType → List ℕ → Result MsgBuilder
build m builder type payload = do
  let payload_len = length payload
  assert (leb payload_len max_payload_len)
  let msg_len = header_len + payload_len
  block ← mem_block_resize m builder.msg_buf msg_len
  b1 ← set_uint8 block 0 (type_byte type)
  b2 ← set_uint16 b1 1 builder.next_msg_id
  b3 ← set_data b2 3 payload
  ok (record { msg_buf = b3; next_msg_id = u16 (builder.next_msg_id + 1) })

-- A parameter of type uint8_t or uint16_t takes its argument modulo the width.
unfoldable pub msg_builder_borrow : Machine → MsgBuilder → ℕ → ℕ → Result MsgBuilder
msg_builder_borrow m builder frame_length buffer_length =
    build m builder MsgType.borrow (u8 frame_length ∷ u8 buffer_length ∷ [])

unfoldable pub msg_builder_lent : Machine → MsgBuilder → Result MsgBuilder
msg_builder_lent m builder = build m builder MsgType.lent []

-- The frame is given as its bytes.
unfoldable pub msg_builder_enqueue : Machine → MsgBuilder → ℕ → List ℕ → Result MsgBuilder
msg_builder_enqueue m builder frame_idx frame =
    let frame_len = length frame in
    build m builder MsgType.enqueue
      (u8 frame_idx ∷ uint16_byte_low frame_len ∷ uint16_byte_high frame_len ∷ frame)

unfoldable pub msg_builder_fail : Machine → MsgBuilder → ℕ → ℕ → Result MsgBuilder
msg_builder_fail m builder causing_message_id error_code = build m builder MsgType.fail (
    uint16_byte_low (u16 causing_message_id)
    ∷ uint16_byte_high (u16 causing_message_id)
    ∷ u8 error_code
    ∷ [])
