-- ===== src/Prelude/Bytes.antt =====
-- The widths of the C integers: conversions to them wrap.
use Prim.Native.Nat.{ℕ, ◌+◌, ◌-◌, ◌%◌, ◌^◌}

-- (uint8_t) x
abbrev pub u8 : ℕ → ℕ
u8 x = x % 256

-- (uint16_t) x
abbrev pub u16 : ℕ → ℕ
u16 x = x % 65536

-- (unsigned int) x
abbrev pub u32 : ℕ → ℕ
u32 x = x % 2 ^ 32

-- `size_t` is 64 bits wide.
abbrev pub size_mod : ℕ
size_mod = 2 ^ 64

abbrev pub add_size : ℕ → ℕ → ℕ
add_size a b = (a + b) % size_mod

-- a - b for b below the modulus
abbrev pub sub_size : ℕ → ℕ → ℕ
sub_size a b = (a + size_mod - b) % size_mod

-- a - b on `unsigned int`, for b below the modulus
abbrev pub sub_u32 : ℕ → ℕ → ℕ
sub_u32 a b = (a + 2 ^ 32 - b) % 2 ^ 32
