-- ===== src/Mem/Ring/Blocks.antt =====
-- The blocks that lie in the used slots of a ring's buffer.
use native.Mathlib.Nat.{mod-eq_of_lt, mod-eq-sub-mod, mod-add-mod, add-zero}
use native.Mathlib.Decide.{dec_lt}
use atolla.Prelude.{
  ℕ, zero, suc, ◌+◌, ◌-◌, ◌*◌, ◌%◌, ◌≤◌, ◌<◌, ◌≡◌, ◌≢◌, refl, sym, ap, ap₂, ◌∙◌, List, [], ◌∷◌,
  ◌++◌, length, slice, write_at, arith, slice-write_at_self, slice-write_at_before,
  slice-write_at_after,
}
use atolla.Mem.Ring.Slots.{next_block}

module _ (k slots : ℕ) where
  -- The blocks in `used` slots from `first` on, going round.
  abbrev pub blocks : List ℕ → ℕ → ℕ → List (List ℕ)
  blocks cells first zero = []
  blocks cells first (suc used) =
      slice (first * k) k cells ∷ blocks cells ((first + 1) % slots) used

  pub length-blocks : (cells : List ℕ) (first used : ℕ) → length (blocks cells first used) ≡ used
  length-blocks cells first zero = refl
  length-blocks cells first (suc used) = ap suc (length-blocks cells ((first + 1) % slots) used)

  -- A slot keeps its block when another is written.
  slice-other_slot :
      (cells ys : List ℕ) (a b : ℕ)
      → a ≢ b
      → length ys ≡ k
      → slice (a * k) k (write_at (b * k) ys cells) ≡ slice (a * k) k cells
  slice-other_slot cells ys a b ne len = elim (dec_lt a b) [
    | yes lt ↦ slice-write_at_before (a * k) k (b * k) ys cells (next_block a b k lt)
    | no ge ↦
        slice-write_at_after (a * k) k (b * k) ys cells
          (omega (arith, len, next_block b a k (omega arith)))
  ]

  round-ne : (a n : ℕ) → a < slots → suc n < slots → a ≢ (a + suc n) % slots
  round-ne a n h l = elim (dec_lt (a + suc n) slots) [
    | yes lt ↦ omega (arith, mod-eq_of_lt lt)
    | no ge ↦ omega (
      arith,
      mod-eq-sub-mod {n = a + suc n} {m = slots} (omega arith),
      mod-eq_of_lt {n = a + suc n - slots} {m = slots} (omega arith),
    )
  ]

  -- Writing the slot behind the used ones appends a block.
  pub blocks-write_at :
      (cells ys : List ℕ) (used first back : ℕ)
      → length cells ≡ slots * k
      → length ys ≡ k
      → first < slots
      → used < slots
      → back ≡ (first + used) % slots
      → blocks (write_at (back * k) ys cells) first (suc used)
        ≡ blocks cells first used ++ (ys ∷ [])
  blocks-write_at cells ys zero first back whole len f u e =
      let same : back ≡ first = e ∙ ap (λ t. t % slots) (add-zero first) ∙ mod-eq_of_lt f in
      let inside : first * k + length ys ≤ length cells =
        omega (arith, len, whole, next_block first slots k f) in
      ap (λ r. r ∷ []) (rw same (rw len at (slice-write_at_self (first * k) ys cells inside)))
  blocks-write_at cells ys (suc used) first back whole len f u e =
      ap₂ ◌∷◌ (slice-other_slot cells ys first back (rw e (round-ne first used f u)) len) (
        blocks-write_at cells ys used ((first + 1) % slots) back whole len (omega arith)
          (omega arith)
          (e ∙ sym (mod-add-mod (first + 1) slots used ∙ ap (λ t. t % slots) (omega arith))))
