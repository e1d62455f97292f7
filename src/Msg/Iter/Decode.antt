-- ===== src/Msg/Iter/Decode.antt =====
-- The iterator reads back what the messages of the protocol say.
use atolla.Prelude.{
  ℕ, suc, ◌+◌, ◌≤◌, ◌<◌, ◌≡◌, true, refl, sym, ap, ◌∙◌, List, [], ◌∷◌, length, slice, u16, arith,
  ok, lt→ltb, slice-slice,
}
use atolla.Machine.{Machine}
use atolla.Mem.Uint16.{
  uint16_byte_low, uint16_byte_high, uint16_byte_low-lt, uint16_byte_high-lt, uint16_bytes,
  uint16le_from-native_uint16,
}
use atolla.Mem.Block.{into, load, mem_block_make}
use atolla.Mem.Block.Access.{load_lem}
use atolla.Msg.Kind.{MsgType, type_byte}
use atolla.Msg.Packet.{packet}
use atolla.Msg.Iter.{
  MsgIter, load_byte, msg_iter_has_msg, msg_type_of, msg_iter_type, load_uint16le, msg_iter_msg_id,
  msg_iter_payload_length, msg_iter_next, msg_iter_payload, payload_of,
}

-- The buffer holds those bytes from that offset on.
pub record Shows (buf : List ℕ) (off : ℕ) (bytes : List ℕ) : Type 0 where
  pub inside : off + length bytes ≤ length buf
  pub same : slice off (length bytes) buf ≡ bytes

-- A part of what a buffer shows.
pub load-Shows :
    {buf : List ℕ} {off : ℕ} {bytes : List ℕ} (i n : ℕ)
    → Shows buf off bytes
    → i + n ≤ length bytes
    → load (into buf (off + i)) n ≡ ok (slice i n bytes)
load-Shows {buf} {off} {bytes} i n s h =
    load_lem buf (off + i) n (omega (arith, s.inside))
    ∙ ap ok (sym (slice-slice i n off (length bytes) buf h) ∙ ap (slice i n) s.same)

-- The byte at an index, of what a buffer shows.
pub byte-Shows :
    {buf : List ℕ} {off : ℕ} {bytes : List ℕ} (p i k b : ℕ)
    → Shows buf off bytes
    → p + i ≡ off + k
    → k + 1 ≤ length bytes
    → slice k 1 bytes ≡ b ∷ []
    → load_byte (into buf p) i ≡ ok b
unfolding load_byte
byte-Shows p i k b s at h e = rw (at, load-Shows k 1 s h, e)

-- Two bytes of a number, wherever they stand.
pub uint16-Shows :
    {buf : List ℕ} {off : ℕ} {bytes : List ℕ} (m : Machine) (p k x : ℕ)
    → Shows buf off bytes
    → p ≡ off + k
    → k + 2 ≤ length bytes
    → slice k 1 bytes ≡ uint16_byte_low x ∷ []
    → slice (suc k) 1 bytes ≡ uint16_byte_high x ∷ []
    → load_uint16le m (into buf p) ≡ ok (u16 x)
unfolding load_uint16le
uint16-Shows m p k x s at h low high = rw (
  byte-Shows p 0 k (uint16_byte_low x) s (omega arith) (omega arith) low,
  byte-Shows p 1 (suc k) (uint16_byte_high x) s (omega arith) (omega arith) high,
  uint16le_from-native_uint16 m.is_big_endian _ _ (uint16_byte_low-lt x) (uint16_byte_high-lt x),
  uint16_bytes x,
)

abbrev pub iter_at : List ℕ → ℕ → ℕ → MsgIter
iter_at buf off stop = record { msg_buf = buf; msg_buf_start = off; msg_buf_end = stop }

-- An iterator that stands at a message of the buffer.
module _ (m : Machine) (buf : List ℕ) (off stop type id : ℕ) (payload : List ℕ)
    (shown : Shows buf off (packet type id payload)) (live : off < stop)
    (fits : length payload < 65536) where
  pub has_msg_lem : msg_iter_has_msg (iter_at buf off stop) ≡ true
  unfolding msg_iter_has_msg
  has_msg_lem = lt→ltb off stop live

  pub type_lem : msg_iter_type (iter_at buf off stop) ≡ msg_type_of type
  unfolding msg_iter_type
  type_lem =
      rw (lt→ltb off stop live, byte-Shows off 0 0 type shown (omega arith) (omega arith) refl)

  pub msg_id_lem : msg_iter_msg_id m (iter_at buf off stop) ≡ ok (u16 id)
  unfolding msg_iter_msg_id
  msg_id_lem =
      rw (lt→ltb off stop live, uint16-Shows m (off + 1) 1 id shown refl (omega arith) refl refl)

  length_field : load_uint16le m (into buf (off + 3)) ≡ ok (length payload)
  length_field =
      uint16-Shows m (off + 3) 3 (length payload) shown refl (omega arith) refl refl
      ∙ ap ok (omega arith)

  -- From a message with a payload of less than 2^16 bytes at which it stands, before its end,
  -- msg_iter_next moves an iterator on by the five bytes of the header and the payload's length, and
  -- changes nothing else.
  pub next_lem :
      msg_iter_next m (iter_at buf off stop) ≡ ok (iter_at buf (off + (5 + length payload)) stop)
  unfolding msg_iter_next msg_iter_payload_length
  next_lem = rw (lt→ltb off stop live, length_field)

  pub payload_lem :
      msg_iter_payload m (iter_at buf off stop)
      ≡ ok (record { bytes = into buf (off + 5); size = length payload; capacity = length payload })
  unfolding msg_iter_payload mem_block_make
  payload_lem = rw (lt→ltb off stop live, length_field)

  pub payload_of_lem :
      (t : MsgType)
      → type ≡ type_byte t
      → payload_of m (iter_at buf off stop) t
        ≡ ok (record {
          bytes = into buf (off + 5);
          size = length payload;
          capacity = length payload;
        })
  unfolding payload_of msg_type_of
  payload_of_lem MsgType.borrow e = rw (type_lem, e, payload_lem)
  payload_of_lem MsgType.lent e = rw (type_lem, e, payload_lem)
  payload_of_lem MsgType.enqueue e = rw (type_lem, e, payload_lem)
  payload_of_lem MsgType.fail e = rw (type_lem, e, payload_lem)
