-- ===== src/Colors.antt =====
-- The conversion of colours in examples/04-complementary.cpp.
pub mod Bounds
use atolla.Prelude.{ℕ, ◌+◌, ◌-◌, ◌*◌, ◌/◌, Bool, ◌==◌, if◌then◌else◌, u8}

-- struct RgbColor
pub record RgbColor : Type 0 where
  pub r : ℕ
  pub g : ℕ
  pub b : ℕ

-- struct HsvColor
pub record HsvColor : Type 0 where
  pub h : ℕ
  pub s : ℕ
  pub v : ℕ

-- The cases of the switch.
unfoldable pub by_region : ℕ → ℕ → ℕ → ℕ → ℕ → RgbColor
by_region region v p q t =
    if region == 0
    then record { r = v; g = t; b = p }
    else if region == 1
    then record { r = q; g = v; b = p }
    else if region == 2
    then record { r = p; g = v; b = t }
    else if region == 3
    then record { r = p; g = q; b = v }
    else if region == 4
    then record { r = t; g = p; b = v }
    else record { r = v; g = p; b = q }

-- The products are of type `int`; each result is kept as an `unsigned char`.
unfoldable pub hsv_to_rgb : HsvColor → RgbColor
unfolding by_region
hsv_to_rgb hsv =
    if hsv.s == 0
    then record { r = hsv.v; g = hsv.v; b = hsv.v }
    else let region = u8 (hsv.h / 43) in
      let remainder = u8 ((hsv.h - region * 43) * 6) in
      let p = u8 (hsv.v * (255 - hsv.s) / 256) in
      let q = u8 (hsv.v * (255 - hsv.s * remainder / 256) / 256) in
      let t = u8 (hsv.v * (255 - hsv.s * (255 - remainder) / 256) / 256) in
      by_region region hsv.v p q t
