-- ===== src/Msg/Iter.antt =====
-- src/msg/iter.h and src/msg/iter.c. The two pointers of an iterator are offsets into one buffer.
pub mod Decode
pub mod Fields
pub mod Parts
use atolla.Prelude.{
  ℕ, ◌+◌, ◌*◌, ◌-◌, ◌%◌, Bool, true, false, ◌||◌, List, [], ◌∷◌, leb, ltb, ◌==◌, if◌then◌else◌,
  sub_size, Result, ok, fault, bad_access, assert, ◌>>=◌, ◌>>◌,
}
use atolla.Machine.{Machine}
use atolla.Mem.Uint16.{native_uint16, uint16le_from}
use atolla.Mem.Block.{Ptr, into, advance, load, MemBlock, mem_block_make, mem_block_slice}
use atolla.Msg.Kind.{MsgType}

-- struct MsgIter
pub record MsgIter : Type 0 where
  pub msg_buf : List ℕ
  pub msg_buf_start : ℕ
  pub msg_buf_end : ℕ

abbrev pub first_byte : List ℕ → Result ℕ
first_byte [] = fault bad_access
first_byte (b ∷ bs) = ok b

-- The byte that `p[i]` reads.
unfoldable pub load_byte : Ptr → ℕ → Result ℕ
load_byte p i = do bytes ← load (advance p i) 1; first_byte bytes

unfoldable pub msg_iter_make : List ℕ → ℕ → MsgIter
msg_iter_make msg_buffer msg_buffer_size = record {
  msg_buf = msg_buffer;
  msg_buf_start = 0;
  msg_buf_end = 0 + msg_buffer_size;
}

abbrev pub start : MsgIter → Ptr
start iter = into iter.msg_buf iter.msg_buf_start

unfoldable pub msg_iter_has_msg : MsgIter → Bool
msg_iter_has_msg iter = ltb iter.msg_buf_start iter.msg_buf_end

-- (MsgType) of a byte that the assertion lets through
unfoldable pub msg_type_of : ℕ → Result MsgType
msg_type_of b =
    if b == 0
    then ok MsgType.borrow
    else if b == 1
    then ok MsgType.lent
    else if b == 2
    then ok MsgType.enqueue
    else if b == 255
    then ok MsgType.fail
    else (assert false >> ok MsgType.fail)

unfoldable pub msg_iter_type : MsgIter → Result MsgType
unfolding msg_iter_has_msg
msg_iter_type iter = do
  assert (msg_iter_has_msg iter)
  msg_type_byte ← load_byte (start iter) 0
  msg_type_of msg_type_byte

-- The number that two bytes of a message stand for: `memcpy` to a `uint16_t`, and mem_uint16le_from.
unfoldable pub load_uint16le : Machine → Ptr → Result ℕ
load_uint16le m p = do
  b0 ← load_byte p 0
  b1 ← load_byte p 1
  ok (uint16le_from m.is_big_endian (native_uint16 m.is_big_endian b0 b1))

unfoldable pub msg_iter_msg_id : Machine → MsgIter → Result ℕ
unfolding msg_iter_has_msg
msg_iter_msg_id m iter = do assert (msg_iter_has_msg iter); load_uint16le m (advance (start iter) 1)

unfoldable pub msg_iter_payload_length : Machine → MsgIter → Result ℕ
unfolding msg_iter_has_msg
msg_iter_payload_length m iter = do
  assert (msg_iter_has_msg iter)
  load_uint16le m (advance (start iter) 3)

unfoldable pub msg_iter_next : Machine → MsgIter → Result MsgIter
unfolding msg_iter_has_msg
msg_iter_next m iter = do
  assert (msg_iter_has_msg iter)
  payload_length ← msg_iter_payload_length m iter
  let msg_len = 5 + payload_length
  ok (record iter { msg_buf_start = iter.msg_buf_start + msg_len })

unfoldable pub msg_iter_payload : Machine → MsgIter → Result MemBlock
unfolding msg_iter_has_msg
msg_iter_payload m iter = do
  assert (msg_iter_has_msg iter)
  payload_len ← load_uint16le m (advance (start iter) 3)
  ok (mem_block_make (advance (start iter) 5) payload_len)

-- assert(msg_iter_type(iter) == type)
unfoldable pub is_type : MsgType → MsgType → Bool
is_type MsgType.borrow MsgType.borrow = true
is_type MsgType.lent MsgType.lent = true
is_type MsgType.enqueue MsgType.enqueue = true
is_type MsgType.fail MsgType.fail = true
is_type _ _ = false

-- The payload of a message that has to be of that type.
unfoldable pub payload_of : Machine → MsgIter → MsgType → Result MemBlock
unfolding is_type
payload_of m iter type = do t ← msg_iter_type iter; assert (is_type t type); msg_iter_payload m iter

unfoldable pub msg_iter_borrow_frame_length : Machine → MsgIter → Result ℕ
msg_iter_borrow_frame_length m iter = do
  payload ← payload_of m iter MsgType.borrow
  load_byte payload.bytes 0

unfoldable pub msg_iter_borrow_buffer_length : Machine → MsgIter → Result ℕ
msg_iter_borrow_buffer_length m iter = do
  payload ← payload_of m iter MsgType.borrow
  load_byte payload.bytes 1

unfoldable pub msg_iter_enqueue_frame_idx : Machine → MsgIter → Result ℕ
msg_iter_enqueue_frame_idx m iter = do
  payload ← payload_of m iter MsgType.enqueue
  load_byte payload.bytes 0

-- `payload.size - 3` wraps for a payload of less than three bytes.
unfoldable pub msg_iter_enqueue_frame : Machine → MsgIter → Result MemBlock
msg_iter_enqueue_frame m iter = do
  payload ← payload_of m iter MsgType.enqueue
  mem_block_slice payload 3 (sub_size payload.size 3)

unfoldable pub msg_iter_fail_offending_msg_id : Machine → MsgIter → Result ℕ
msg_iter_fail_offending_msg_id m iter = do
  payload ← payload_of m iter MsgType.fail
  load_uint16le m payload.bytes

unfoldable pub msg_iter_fail_error_code : Machine → MsgIter → Result ℕ
msg_iter_fail_error_code m iter = do
  payload ← payload_of m iter MsgType.fail
  load_byte payload.bytes 2
