-- ===== src/Msg/Packet.antt =====
-- The messages of doc/Atolla Protocol.md, as bytes: type, ID and payload, all little endian.
use atolla.Prelude.{ℕ, List, [], ◌∷◌, length, u8, u16}
use atolla.Mem.Uint16.{uint16_byte_low, uint16_byte_high}

-- A message with that type byte, ID and payload.
abbrev pub packet : ℕ → ℕ → List ℕ → List ℕ
packet type id payload =
    type
    ∷ uint16_byte_low id
    ∷ uint16_byte_high id
    ∷ uint16_byte_low (length payload)
    ∷ uint16_byte_high (length payload)
    ∷ payload

abbrev pub borrow_packet : ℕ → ℕ → ℕ → List ℕ
borrow_packet id frame_length buffer_length = packet 0 id (u8 frame_length ∷ u8 buffer_length ∷ [])

abbrev pub lent_packet : ℕ → List ℕ
lent_packet id = packet 1 id []

abbrev pub enqueue_packet : ℕ → ℕ → List ℕ → List ℕ
enqueue_packet id frame_idx frame =
    packet 2 id
      (u8 frame_idx ∷ uint16_byte_low (length frame) ∷ uint16_byte_high (length frame) ∷ frame)

abbrev pub fail_packet : ℕ → ℕ → ℕ → List ℕ
fail_packet id causing error_code =
    packet 255 id
      (uint16_byte_low (u16 causing) ∷ uint16_byte_high (u16 causing) ∷ u8 error_code ∷ [])
