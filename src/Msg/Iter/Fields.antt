-- ===== src/Msg/Iter/Fields.antt =====
-- The fields of each kind of message, as the iterator reads them.
use atolla.Prelude.{
  ℕ, ◌+◌, ◌≤◌, ◌<◌, ◌≡◌, refl, ap, ◌∙◌, List, [], ◌∷◌, length, u8, u16, arith, ok, size_mod,
  sub_size, take_all, leb, le→leb, true, ◌%◌,
}
use atolla.Machine.{Machine}
use atolla.Mem.Uint16.{uint16_byte_low, uint16_byte_high}
use atolla.Mem.Block.{into, load}
use atolla.Mem.Block.{mem_block_slice}
use atolla.Msg.Kind.{MsgType}
use atolla.Msg.Packet.{borrow_packet, enqueue_packet, fail_packet}
use atolla.Msg.Iter.{
  msg_type_of, msg_iter_type, msg_iter_borrow_frame_length, msg_iter_borrow_buffer_length,
  msg_iter_enqueue_frame_idx, msg_iter_enqueue_frame, msg_iter_fail_offending_msg_id,
  msg_iter_fail_error_code,
}
use atolla.Msg.Iter.Decode.{
  Shows, load-Shows, byte-Shows, uint16-Shows, iter_at, type_lem, payload_of_lem,
}

the_offset : (off : ℕ) → off + 5 + 3 ≡ off + 8
the_offset off = omega arith

module _ (m : Machine) (buf : List ℕ) (off stop id : ℕ) (live : off < stop) where
  -- An iterator that stands before its end at the protocol's BORROW message reads the type, the frame
  -- length and the buffer length, these modulo 256.
  pub borrow_fields :
      (frame_length buffer_length : ℕ)
      → Shows buf off (borrow_packet id frame_length buffer_length)
      → (msg_iter_type (iter_at buf off stop) ≡ ok MsgType.borrow)
        × (msg_iter_borrow_frame_length m (iter_at buf off stop) ≡ ok (u8 frame_length))
        × (msg_iter_borrow_buffer_length m (iter_at buf off stop) ≡ ok (u8 buffer_length))
  unfolding msg_iter_borrow_frame_length msg_iter_borrow_buffer_length msg_type_of
  borrow_fields frame_length buffer_length shown =
      let payload : List ℕ = u8 frame_length ∷ u8 buffer_length ∷ [] in
      let found =
        payload_of_lem m buf off stop 0 id payload shown live (omega arith) MsgType.borrow refl in
      (
        type_lem m buf off stop 0 id payload shown live (omega arith),
        rw (
          found,
          byte-Shows (off + 5) 0 5 (u8 frame_length) shown (omega arith) (omega arith) refl,
        ),
        rw (
          found,
          byte-Shows (off + 5) 1 6 (u8 buffer_length) shown (omega arith) (omega arith) refl,
        ),
      )

  -- An iterator that stands before its end at the protocol's FAIL message reads the type, the ID of
  -- the offending message modulo 2^16 and the error code modulo 256.
  pub fail_fields :
      (causing error_code : ℕ)
      → Shows buf off (fail_packet id causing error_code)
      → (msg_iter_type (iter_at buf off stop) ≡ ok MsgType.fail)
        × (msg_iter_fail_offending_msg_id m (iter_at buf off stop) ≡ ok (u16 causing))
        × (msg_iter_fail_error_code m (iter_at buf off stop) ≡ ok (u8 error_code))
  unfolding msg_iter_fail_offending_msg_id msg_iter_fail_error_code msg_type_of
  fail_fields causing error_code shown =
      let cause : ℕ = u16 causing in
      let payload : List ℕ = uint16_byte_low cause ∷ uint16_byte_high cause ∷ u8 error_code ∷ [] in
      let found =
        payload_of_lem m buf off stop 255 id payload shown live (omega arith) MsgType.fail refl in
      (
        type_lem m buf off stop 255 id payload shown live (omega arith),
        rw (found, uint16-Shows m (off + 5) 5 cause shown refl (omega arith) refl refl)
            (ap ok (omega arith)),
        rw (found, byte-Shows (off + 5) 2 7 (u8 error_code) shown (omega arith) (omega arith) refl),
      )

  -- An iterator that stands before its end at the protocol's ENQUEUE message for a frame of at most
  -- 65532 bytes reads the type, the frame's index modulo 256, and as the frame a block that points
  -- into the buffer, where the frame's bytes are.
  pub enqueue_fields :
      (frame_idx : ℕ) (frame : List ℕ)
      → length frame ≤ 65532
      → Shows buf off (enqueue_packet id frame_idx frame)
      → (msg_iter_type (iter_at buf off stop) ≡ ok MsgType.enqueue)
        × (msg_iter_enqueue_frame_idx m (iter_at buf off stop) ≡ ok (u8 frame_idx))
        × (msg_iter_enqueue_frame m (iter_at buf off stop)
            ≡ ok (record {
              bytes = into buf (off + 5 + 3);
              size = length frame;
              capacity = length frame;
            }))
        × (load (into buf (off + 5 + 3)) (length frame) ≡ ok frame)
  unfolding msg_iter_enqueue_frame_idx msg_iter_enqueue_frame msg_type_of mem_block_slice
  enqueue_fields frame_idx frame h shown =
      let payload : List ℕ =
        u8 frame_idx ∷ uint16_byte_low (length frame) ∷ uint16_byte_high (length frame) ∷ frame in
      let found =
        payload_of_lem m buf off stop 2 id payload shown live (omega arith) MsgType.enqueue refl in
      let size : sub_size (length payload) 3 ≡ length frame = omega arith in
      let test : leb ((3 + length frame) % size_mod) (length payload) ≡ true =
        le→leb _ _ (omega arith) in
      (
        type_lem m buf off stop 2 id payload shown live (omega arith),
        rw (found, byte-Shows (off + 5) 0 5 (u8 frame_idx) shown (omega arith) (omega arith) refl),
        rw (found, size, test),
        rw (the_offset off)
            (load-Shows 8 (length frame) shown (omega arith) ∙ ap ok (take_all frame)),
      )
