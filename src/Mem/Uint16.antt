-- ===== src/Mem/Uint16.antt =====
-- src/mem/uint16_byte.h and src/mem/uint16le.h: the bytes of a `uint16_t`.
use atolla.Prelude.{
  ℕ, ◌+◌, ◌*◌, ◌/◌, ◌%◌, ◌<◌, ◌≡◌, Bool, true, false, u8, u16, arith, if◌then◌else◌,
}

-- mem_uint16_byte_low
unfoldable pub uint16_byte_low : ℕ → ℕ
uint16_byte_low x = u8 (u16 x % 256)

-- mem_uint16_byte_high
unfoldable pub uint16_byte_high : ℕ → ℕ
uint16_byte_high x = u8 (u16 x / 256)

-- What `memcpy` of two bytes into a `uint16_t` makes of them.
unfoldable pub native_uint16 : Bool → ℕ → ℕ → ℕ
native_uint16 is_big_endian b0 b1 = if is_big_endian then b0 * 256 + b1 else b0 + b1 * 256

-- mem_uint16le_from of a `uint16_t`: the two halves change places on a big-endian machine. They do not
-- overlap, so `|` is `+`.
unfoldable pub uint16le_from : Bool → ℕ → ℕ
uint16le_from is_big_endian x = if is_big_endian then u16 (x * 256 + x % 65536 / 256) else x

-- Two bytes copied into a uint16_t and given to mem_uint16le_from are the number of which they are the
-- low and the high byte, on a machine of either byte order.
pub uint16le_from-native_uint16 :
    (e : Bool) (b0 b1 : ℕ)
    → b0 < 256
    → b1 < 256
    → uint16le_from e (native_uint16 e b0 b1) ≡ b0 + b1 * 256
unfolding uint16le_from native_uint16
uint16le_from-native_uint16 true b0 b1 h k = omega arith
uint16le_from-native_uint16 false b0 b1 h k = omega arith

-- The bytes of a number that fits make it up again.
pub uint16_bytes : (x : ℕ) → uint16_byte_low x + uint16_byte_high x * 256 ≡ u16 x
unfolding uint16_byte_low uint16_byte_high
uint16_bytes x = omega arith

pub uint16_byte_low-lt : (x : ℕ) → uint16_byte_low x < 256
unfolding uint16_byte_low
uint16_byte_low-lt x = omega arith

pub uint16_byte_high-lt : (x : ℕ) → uint16_byte_high x < 256
unfolding uint16_byte_high
uint16_byte_high-lt x = omega arith
