-- ===== src/Prelude/Lists.antt =====
-- Lists measured and indexed by native numbers, under the library's names, and the two accesses of
-- memory that C code makes: `slice` reads a range of cells and `write_at` overwrites one.
use Prim.Native.Nat.{ℕ, zero, suc, ◌+◌, ◌-◌, ◌≤◌, min}
use mathlib.Core.Path.{◌≡◌, refl, ap, ◌∙◌}
use mathlib.Core.List.{List, [], ◌∷◌, ◌++◌}
use mathlib.Core.Option.{Option, none, some}
use native.Mathlib.Omega.{arith}

module _ {ℓ} {A : Type ℓ} where
  abbrev pub length : List A → ℕ
  length [] = 0
  length (x ∷ xs) = suc (length xs)

  abbrev pub get_elem? : List A → ℕ → Option A
  get_elem? [] i = none
  get_elem? (x ∷ xs) zero = some x
  get_elem? (x ∷ xs) (suc i) = get_elem? xs i

  abbrev pub take : ℕ → List A → List A
  take zero xs = []
  take (suc n) [] = []
  take (suc n) (x ∷ xs) = x ∷ take n xs

  abbrev pub drop : ℕ → List A → List A
  drop zero xs = xs
  drop (suc n) [] = []
  drop (suc n) (x ∷ xs) = drop n xs

  abbrev pub replicate : ℕ → A → List A
  replicate zero a = []
  replicate (suc n) a = a ∷ replicate n a

  -- The `n` cells from index `i` on.
  abbrev pub slice : ℕ → ℕ → List A → List A
  slice i n xs = take n (drop i xs)

  -- The cells with the first ones overwritten by `ys`.
  abbrev pub overwrite : List A → List A → List A
  overwrite [] xs = xs
  overwrite (y ∷ ys) [] = []
  overwrite (y ∷ ys) (x ∷ xs) = y ∷ overwrite ys xs

  -- The cells with those from index `i` on overwritten by `ys`.
  abbrev pub write_at : ℕ → List A → List A → List A
  write_at zero ys xs = overwrite ys xs
  write_at (suc i) ys [] = []
  write_at (suc i) ys (x ∷ xs) = x ∷ write_at i ys xs

  pub length-append : (xs ys : List A) → length (xs ++ ys) ≡ length xs + length ys
  length-append [] ys = omega arith
  length-append (x ∷ xs) ys = omega (arith, length-append xs ys)

  pub length-take : (n : ℕ) (xs : List A) → length (take n xs) ≡ min n (length xs)
  length-take zero xs = omega arith
  length-take (suc n) [] = omega arith
  length-take (suc n) (x ∷ xs) = omega (arith, length-take n xs)

  pub length-drop : (n : ℕ) (xs : List A) → length (drop n xs) ≡ length xs - n
  length-drop zero xs = omega arith
  length-drop (suc n) [] = omega arith
  length-drop (suc n) (x ∷ xs) = omega (arith, length-drop n xs)

  pub length-replicate : (n : ℕ) (a : A) → length (replicate n a) ≡ n
  length-replicate zero a = refl
  length-replicate (suc n) a = ap suc (length-replicate n a)

  pub take_enough : (n : ℕ) (xs : List A) → length xs ≤ n → take n xs ≡ xs
  take_enough zero [] h = refl
  take_enough zero (x ∷ xs) h = absurd (omega arith)
  take_enough (suc n) [] h = refl
  take_enough (suc n) (x ∷ xs) h = ap (λ r. x ∷ r) (take_enough n xs (omega arith))

  pub take_all : (xs : List A) → take (length xs) xs ≡ xs
  take_all [] = refl
  take_all (x ∷ xs) = ap (λ r. x ∷ r) (take_all xs)

module _ {ℓ} {A : Type ℓ} where
  pub length-slice : (i n : ℕ) (xs : List A) → i + n ≤ length xs → length (slice i n xs) ≡ n
  length-slice i n xs h = omega (arith, length-take n (drop i xs), length-drop i xs)

  pub length-overwrite : (ys xs : List A) → length (overwrite ys xs) ≡ length xs
  length-overwrite [] xs = refl
  length-overwrite (y ∷ ys) [] = refl
  length-overwrite (y ∷ ys) (x ∷ xs) = ap suc (length-overwrite ys xs)

  pub length-write_at : (i : ℕ) (ys xs : List A) → length (write_at i ys xs) ≡ length xs
  length-write_at zero ys xs = length-overwrite ys xs
  length-write_at (suc i) ys [] = refl
  length-write_at (suc i) ys (x ∷ xs) = ap suc (length-write_at i ys xs)

  pub take-overwrite_self :
      (ys xs : List A) → length ys ≤ length xs → take (length ys) (overwrite ys xs) ≡ ys
  take-overwrite_self [] xs h = refl
  take-overwrite_self (y ∷ ys) [] h = absurd (omega arith)
  take-overwrite_self (y ∷ ys) (x ∷ xs) h =
      ap (λ r. y ∷ r) (take-overwrite_self ys xs (omega arith))

  drop-overwrite : (i : ℕ) (ys xs : List A) → length ys ≤ i → drop i (overwrite ys xs) ≡ drop i xs
  drop-overwrite i [] xs h = refl
  drop-overwrite zero (y ∷ ys) xs h = absurd (omega arith)
  drop-overwrite (suc i) (y ∷ ys) [] h = refl
  drop-overwrite (suc i) (y ∷ ys) (x ∷ xs) h = drop-overwrite i ys xs (omega arith)

  -- What was written is read back.
  pub slice-write_at_self :
      (i : ℕ) (ys xs : List A)
      → i + length ys ≤ length xs
      → slice i (length ys) (write_at i ys xs) ≡ ys
  slice-write_at_self zero ys xs h = take-overwrite_self ys xs (omega arith)
  slice-write_at_self (suc i) ys [] h = absurd (omega arith)
  slice-write_at_self (suc i) ys (x ∷ xs) h = slice-write_at_self i ys xs (omega arith)

  -- A range that ends before the written one keeps its cells.
  pub slice-write_at_before :
      (i n j : ℕ) (ys xs : List A) → i + n ≤ j → slice i n (write_at j ys xs) ≡ slice i n xs
  slice-write_at_before zero zero j ys xs h = refl
  slice-write_at_before zero (suc n) zero ys xs h = absurd (omega arith)
  slice-write_at_before zero (suc n) (suc j) ys [] h = refl
  slice-write_at_before zero (suc n) (suc j) ys (x ∷ xs) h =
      ap (λ r. x ∷ r) (slice-write_at_before zero n j ys xs (omega arith))
  slice-write_at_before (suc i) n zero ys xs h = absurd (omega arith)
  slice-write_at_before (suc i) n (suc j) ys [] h = refl
  slice-write_at_before (suc i) n (suc j) ys (x ∷ xs) h =
      slice-write_at_before i n j ys xs (omega arith)

  -- So does a range that starts behind it.
  pub slice-write_at_after :
      (i n j : ℕ) (ys xs : List A) → j + length ys ≤ i → slice i n (write_at j ys xs) ≡ slice i n xs
  slice-write_at_after i n zero ys xs h = ap (take n) (drop-overwrite i ys xs (omega arith))
  slice-write_at_after zero n (suc j) ys xs h = absurd (omega arith)
  slice-write_at_after (suc i) n (suc j) ys [] h = refl
  slice-write_at_after (suc i) n (suc j) ys (x ∷ xs) h =
      slice-write_at_after i n j ys xs (omega arith)

  pub write_at_nil : (i : ℕ) (xs : List A) → write_at i [] xs ≡ xs
  write_at_nil zero xs = refl
  write_at_nil (suc i) [] = refl
  write_at_nil (suc i) (x ∷ xs) = ap (λ r. x ∷ r) (write_at_nil i xs)

  take-take : (n m : ℕ) (xs : List A) → n ≤ m → take n (take m xs) ≡ take n xs
  take-take zero m xs h = refl
  take-take (suc n) zero xs h = absurd (omega arith)
  take-take (suc n) (suc m) [] h = refl
  take-take (suc n) (suc m) (x ∷ xs) h = ap (λ r. x ∷ r) (take-take n m xs (omega arith))

  slice-take : (i n m : ℕ) (xs : List A) → i + n ≤ m → slice i n (take m xs) ≡ slice i n xs
  slice-take zero n m xs h = take-take n m xs (omega arith)
  slice-take (suc i) n zero xs h = absurd (omega arith)
  slice-take (suc i) n (suc m) [] h = refl
  slice-take (suc i) n (suc m) (x ∷ xs) h = slice-take i n m xs (omega arith)

  drop-drop : (i j : ℕ) (xs : List A) → drop i (drop j xs) ≡ drop (j + i) xs
  drop-drop i zero xs = ap (λ t. drop t xs) {x = i} {y = 0 + i} (omega arith)
  drop-drop zero (suc j) [] = ap (λ t. drop t []) {x = suc j} {y = suc j + 0} (omega arith)
  drop-drop (suc i) (suc j) [] =
      ap (λ t. drop t []) {x = suc (j + suc i)} {y = suc j + suc i} (omega arith)
  drop-drop i (suc j) (x ∷ xs) =
      drop-drop i j xs ∙ ap (λ t. drop t (x ∷ xs)) {x = suc (j + i)} {y = suc j + i} (omega arith)

  -- A range of a range.
  pub slice-slice :
      (i n j m : ℕ) (xs : List A) → i + n ≤ m → slice i n (slice j m xs) ≡ slice (j + i) n xs
  slice-slice i n j m xs h = slice-take i n m (drop j xs) h ∙ ap (take n) (drop-drop i j xs)

  -- Writing all the cells leaves what was written.
  pub overwrite_all : (ys xs : List A) → length ys ≡ length xs → overwrite ys xs ≡ ys
  overwrite_all [] [] h = refl
  overwrite_all [] (x ∷ xs) h = absurd (omega arith)
  overwrite_all (y ∷ ys) [] h = absurd (omega arith)
  overwrite_all (y ∷ ys) (x ∷ xs) h = ap (λ r. y ∷ r) (overwrite_all ys xs (omega arith))
