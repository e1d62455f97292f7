-- ===== src/Sink/Pattern/Cyclic.antt =====
-- fill_with_pattern repeats the pattern: byte i of the target is byte i % length of the pattern.
use native.Mathlib.Nat.{mod-eq_of_lt, add-mod_right, zero-add, add-zero}
use native.Mathlib.Numerals.{add-one}
use atolla.Prelude.{
  ℕ, zero, suc, ◌+◌, ◌-◌, ◌%◌, ◌≤◌, ◌<◌, ◌≡◌, refl, sym, ap, ap₂, ◌∙◌, List, [], ◌∷◌, ◌++◌, length,
  take, slice, overwrite, write_at, arith, ok, length-write_at, write_at_nil, slice-slice, false,
  take_all, inl, inr, Bool-cases, leb, ◌==◌,
}
use atolla.Mem.Block.{into, load}
use atolla.Mem.Block.Access.{load_lem, store_lem}
use atolla.Sink.Pattern.{fill_from, fill_with_pattern}

-- Byte `i` of an endless repetition of the pattern.
abbrev pub byte_or_zero : List ℕ → ℕ → ℕ
byte_or_zero [] i = 0
byte_or_zero (x ∷ xs) zero = x
byte_or_zero (x ∷ xs) (suc i) = byte_or_zero xs i

-- The `n` bytes of the repetition from index `i` on.
abbrev pub cyclic_from : List ℕ → ℕ → ℕ → List ℕ
cyclic_from p i zero = []
cyclic_from p i (suc n) = byte_or_zero p (i % length p) ∷ cyclic_from p (i + 1) n

abbrev pub cyclic : List ℕ → ℕ → List ℕ
cyclic p n = cyclic_from p 0 n

pub length-cyclic_from : (p : List ℕ) (i n : ℕ) → length (cyclic_from p i n) ≡ n
length-cyclic_from p i zero = refl
length-cyclic_from p i (suc n) = ap suc (length-cyclic_from p (i + 1) n)

cyclic_from-shift : (p : List ℕ) (i n : ℕ) → cyclic_from p (i + length p) n ≡ cyclic_from p i n
cyclic_from-shift p i zero = refl
cyclic_from-shift p i (suc n) = ap₂ ◌∷◌ (ap (byte_or_zero p) (add-mod_right i (length p))) (
    ap (λ t. cyclic_from p t n) {x = i + length p + 1} {y = i + 1 + length p} (omega arith)
    ∙ cyclic_from-shift p (i + 1) n)

cyclic_from-append :
    (p : List ℕ) (i n m : ℕ)
    → cyclic_from p i (n + m) ≡ cyclic_from p i n ++ cyclic_from p (i + n) m
cyclic_from-append p i zero m = rw (zero-add m, add-zero i)
cyclic_from-append p i (suc n) m =
    let e : suc n + m ≡ suc (n + m) = omega arith in
    let e' : i + 1 + n ≡ i + suc n = omega arith in
    rw (e, ← e') (ap (λ r. byte_or_zero p (i % length p) ∷ r) (cyclic_from-append p (i + 1) n m))

byte-drop :
    (p : List ℕ) (i n : ℕ) → i < length p → slice i (suc n) p ≡ byte_or_zero p i ∷ slice (suc i) n p
byte-drop [] i n h = absurd (omega arith)
byte-drop (x ∷ p) zero n h = refl
byte-drop (x ∷ p) (suc i) n h = byte-drop p i n (omega arith)

pub cyclic_from-slice : (p : List ℕ) (i n : ℕ) → i + n ≤ length p → cyclic_from p i n ≡ slice i n p
cyclic_from-slice p i zero h = refl
cyclic_from-slice p i (suc n) h =
    let lt : i < length p = omega arith in
    rw (mod-eq_of_lt lt, cyclic_from-slice p (i + 1) n (omega arith), byte-drop p i n lt, add-one i)

-- A whole round of the repetition is the pattern.
cyclic-round : (p : List ℕ) (n : ℕ) → length p ≤ n → cyclic p n ≡ p ++ cyclic p (n - length p)
cyclic-round p n h =
    let e : n ≡ length p + (n - length p) = omega arith in
    ap (cyclic p) e
    ∙ cyclic_from-append p 0 (length p) (n - length p)
    ∙ ap₂ ◌++◌ (cyclic_from-slice p 0 (length p) (omega arith) ∙ take_all p)
        (cyclic_from-shift p 0 (n - length p))

-- A pattern in an object, read in part.
load-part :
    (cells : List ℕ) (i n : ℕ) (p : List ℕ)
    → i + length p ≤ length cells
    → slice i (length p) cells ≡ p
    → n ≤ length p
    → load (into cells i) n ≡ ok (take n p)
load-part cells i n p h e le =
    load_lem cells i n (omega arith)
    ∙ ap ok (
        rw (add-zero i) at (sym (slice-slice 0 n i (length p) cells (omega arith))) ∙ ap (take n) e)

overwrite-append :
    (ys zs xs : List ℕ) → write_at (length ys) zs (overwrite ys xs) ≡ overwrite (ys ++ zs) xs
overwrite-append [] zs xs = refl
overwrite-append (y ∷ ys) zs [] = refl
overwrite-append (y ∷ ys) zs (x ∷ xs) = ap (λ r. y ∷ r) (overwrite-append ys zs xs)

write_at-append :
    (i : ℕ) (ys zs xs : List ℕ)
    → write_at (i + length ys) zs (write_at i ys xs) ≡ write_at i (ys ++ zs) xs
write_at-append zero ys zs xs = rw (zero-add (length ys)) (overwrite-append ys zs xs)
write_at-append (suc i) ys zs [] =
    let e : suc i + length ys ≡ suc (i + length ys) = omega arith in rw e
write_at-append (suc i) ys zs (x ∷ xs) =
    let e : suc i + length ys ≡ suc (i + length ys) = omega arith in
    rw e (ap (λ r. x ∷ r) (write_at-append i ys zs xs))

ne→== : (n : ℕ) → 0 < n → (n == 0) ≡ false
ne→== n h = ground arith

module _ (cells : List ℕ) (at : ℕ) (p : List ℕ) (some_bytes : 0 < length p)
    (inside : at + length p ≤ length cells) (shown : slice at (length p) cells ≡ p) where
  fill_from_lem :
      (fuel : ℕ) (target : List ℕ) (off n : ℕ)
      → n ≤ fuel
      → off + n ≤ length target
      → fill_from fuel (into target 0) off n (into cells at) (length p)
        ≡ ok (into (write_at off (cyclic p n) target) 0)
  unfolding fill_from
  fill_from_lem zero target off zero f h = rw (write_at_nil off target)
  fill_from_lem zero target off (suc n) f h = absurd (omega arith)
  fill_from_lem (suc fuel) target off zero f h = rw (write_at_nil off target)
  fill_from_lem (suc fuel) target off (suc n) f h = elim (Bool-cases (leb (suc n) (length p))) [
    | inl last ↦
        let le : suc n ≤ length p = ground arith in
        let all : take (suc n) p ≡ cyclic p (suc n) =
          sym (cyclic_from-slice p 0 (suc n) (omega arith)) in
        let len : length (cyclic p (suc n)) ≡ suc n = length-cyclic_from p 0 (suc n) in
        let target' : List ℕ = write_at off (cyclic p (suc n)) target in
        let len' : length target' ≡ length target = length-write_at off (cyclic p (suc n)) target in
        rw (
          ne→== (suc n) (omega arith),
          last,
          load-part cells at (suc n) p inside shown le,
          all,
          zero-add off,
          store_lem target (cyclic p (suc n)) off (omega (arith, len)),
          fill_from_lem fuel target' off 0 (omega arith) (omega (arith, len')),
          write_at_nil off target',
        )
    | inr more ↦
        let lt : length p < suc n = ground arith in
        let target' : List ℕ = write_at off p target in
        let len' : length target' ≡ length target = length-write_at off p target in
        rw (
          ne→== (suc n) (omega arith),
          more,
          load-part cells at (length p) p inside shown (omega arith),
          take_all p,
          zero-add off,
          store_lem target p off (omega arith),
          fill_from_lem fuel target' (off + length p) (suc n - length p) (omega arith)
              (omega (arith, len')),
          write_at-append off p (cyclic p (suc n - length p)) target,
          cyclic-round p (suc n) (omega arith),
        )
  ]

  -- For a pattern of at least one byte that lies in its object, and a target of at least n cells,
  -- fill_with_pattern of n bytes makes byte i of the target byte i modulo the pattern's length of the
  -- pattern, for each i below n, and leaves the rest.
  pub fill_with_pattern_lem :
      (target : List ℕ) (n : ℕ)
      → n ≤ length target
      → fill_with_pattern (into target 0) n (into cells at) (length p)
        ≡ ok (into (write_at 0 (cyclic p n) target) 0)
  unfolding fill_with_pattern
  fill_with_pattern_lem target zero h = refl
  fill_with_pattern_lem target (suc n) h =
      rw (ne→== (suc n) (omega arith), ne→== (length p) some_bytes)
        (fill_from_lem (suc n) target 0 (suc n) (omega arith) (omega arith))
