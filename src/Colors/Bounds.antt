-- ===== src/Colors/Bounds.antt =====
-- No channel is brighter than the value of the colour, and one is as bright.
use native.Mathlib.Nat.{mul-le-mul_left}
use atolla.Prelude.{ℕ, ◌*◌, ◌/◌, ◌≤◌, ◌<◌, ◌≡◌, refl, ◌⊎◌, inl, inr, Bool-cases, ◌==◌, u8, arith}
use atolla.Colors.{RgbColor, HsvColor, by_region, hsv_to_rgb}

-- Each field is a byte.
abbrev pub IsHsv : HsvColor → Type 0
IsHsv c = (c.h < 256) × (c.s < 256) × (c.v < 256)

abbrev pub IsWithin : ℕ → RgbColor → Type 0
IsWithin v c = (c.r ≤ v) × (c.g ≤ v) × (c.b ≤ v) × ((c.r ≡ v) ⊎ ((c.g ≡ v) ⊎ (c.b ≡ v)))

scaled_le : (v x : ℕ) → x ≤ 255 → v < 256 → u8 (v * x / 256) ≤ v
scaled_le v x h k = omega (arith, mul-le-mul_left {m = x} {n = 255} v h)

by_region-IsWithin :
    (region v p q t : ℕ) → p ≤ v → q ≤ v → t ≤ v → IsWithin v (by_region region v p q t)
unfolding by_region
by_region-IsWithin region v p q t hp hq ht = elim (Bool-cases (region == 0)) [
  | inl yes0 ↦ rw yes0 (omega arith, ht, hp, inl refl)
  | inr no0 ↦ elim (Bool-cases (region == 1)) [
    | inl yes1 ↦ rw (no0, yes1) (hq, omega arith, hp, inr (inl refl))
    | inr no1 ↦ elim (Bool-cases (region == 2)) [
      | inl yes2 ↦ rw (no0, no1, yes2) (hp, omega arith, ht, inr (inl refl))
      | inr no2 ↦ elim (Bool-cases (region == 3)) [
        | inl yes3 ↦ rw (no0, no1, no2, yes3) (hp, hq, omega arith, inr (inr refl))
        | inr no3 ↦ elim (Bool-cases (region == 4)) [
          | inl yes4 ↦ rw (no0, no1, no2, no3, yes4) (ht, hp, omega arith, inr (inr refl))
          | inr no4 ↦ rw (no0, no1, no2, no3, no4) (omega arith, hp, hq, inl refl)
        ]
      ]
    ]
  ]
]

-- For a colour of three bytes, no channel of what HsvToRgb gives is above the colour's value, and one
-- of them is equal to it.
pub hsv_to_rgb-IsWithin : (hsv : HsvColor) → IsHsv hsv → IsWithin hsv.v (hsv_to_rgb hsv)
unfolding hsv_to_rgb
hsv_to_rgb-IsWithin hsv (h, s, v) = elim (Bool-cases (hsv.s == 0)) [
  | inl grey ↦ rw grey (omega arith, omega arith, omega arith, inl refl)
  | inr tinted ↦ rw tinted (
      by_region-IsWithin (u8 (hsv.h / 43)) hsv.v _ _ _ (scaled_le hsv.v _ (omega arith) v)
        (scaled_le hsv.v _ (omega arith) v) (scaled_le hsv.v _ (omega arith) v))
]
