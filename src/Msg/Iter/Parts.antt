-- ===== src/Msg/Iter/Parts.antt =====
-- Messages that lie one behind another in a buffer.
use atolla.Prelude.{
  ℕ, ◌+◌, ◌≤◌, ◌≡◌, refl, sym, ap, ◌∙◌, List, [], ◌∷◌, ◌++◌, length, slice, arith, slice-slice,
  take_all,
}
use atolla.Msg.Iter.Decode.{Shows}

pub slice-left : (xs ys : List ℕ) → slice 0 (length xs) (xs ++ ys) ≡ xs
slice-left [] ys = refl
slice-left (x ∷ xs) ys = ap (λ r. x ∷ r) (slice-left xs ys)

pub slice-right : (xs ys : List ℕ) → slice (length xs) (length ys) (xs ++ ys) ≡ ys
slice-right [] ys = take_all ys
slice-right (x ∷ xs) ys = slice-right xs ys

pub Shows-part :
    {buf : List ℕ} {off : ℕ} {bytes : List ℕ} (at i : ℕ) (part : List ℕ)
    → Shows buf off bytes
    → at ≡ off + i
    → i + length part ≤ length bytes
    → slice i (length part) bytes ≡ part
    → Shows buf at part
Shows-part {buf} {off} {bytes} at i part s here h e = record {
  inside = omega (arith, s.inside);
  same =
      ap (λ j. slice j (length part) buf) here
      ∙ sym (slice-slice i (length part) off (length bytes) buf h)
      ∙ ap (slice i (length part)) s.same
      ∙ e;
}
