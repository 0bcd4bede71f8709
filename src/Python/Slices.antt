-- ===== src/Python/Slices.antt =====
-- `xs[i * size : min((i + 1) * size, len(xs))]` for the indices of the batches.
use Prim.Native.Nat.{min}
use mathlib.Core.List.{flatten}
use taboot.Prelude.{
  ℕ, zero, suc, ◌+◌, ◌-◌, ◌*◌, ◌/◌, ◌≤◌, ◌<◌, ◌≡◌, refl, sym, ◌∙◌, List, [], ◌∷◌, length, take,
  drop, take_add, take_beyond, drop-drop, length-take, length-drop, leb, inl, inr, Bool-cases, All,
  arith,
}

abbrev pub batch_start : ℕ → ℕ → ℕ
batch_start size index = index * size

abbrev pub batch_stop : ℕ → ℕ → ℕ → ℕ
batch_stop size index total = min (index * size + size) total

-- `ceil(total / size)` batches
abbrev pub num_batches : ℕ → ℕ → ℕ
num_batches size total = (total + size - 1) / size

pub num_batches-enough : (size total : ℕ) → 0 < size → total ≤ num_batches size total * size
num_batches-enough size total h = grind arith

module _ {A : Type 0} where
  abbrev pub slice : ℕ → ℕ → List A → List A
  slice start stop xs = take (stop - start) (drop start xs)

  -- `count` batches from an index on.
  unfoldable pub slices : ℕ → ℕ → ℕ → List A → List (List A)
  slices zero index size xs = []
  slices (suc count) index size xs =
      slice (batch_start size index) (batch_stop size index (length xs)) xs
      ∷ slices count (index + 1) size xs

  slice-take :
      (size start : ℕ) (xs : List A)
      → slice start (min (start + size) (length xs)) xs ≡ take size (drop start xs)
  slice-take size start xs = elim (Bool-cases (leb (start + size) (length xs))) [
    | inl within ↦ let e : min (start + size) (length xs) - start ≡ size = ground arith in rw e
    | inr beyond ↦
        let e : min (start + size) (length xs) - start ≡ length xs - start = ground arith in
        rw e (
          take_beyond _ _ (omega (arith, length-drop start xs))
          ∙ sym (take_beyond _ _ (ground (arith, length-drop start xs))))
  ]

  flatten-slices :
      (count index size : ℕ) (xs : List A)
      → flatten (slices count index size xs) ≡ take (count * size) (drop (index * size) xs)
  unfolding slices flatten
  flatten-slices zero index size xs = let e : 0 * size ≡ 0 = omega arith in rw e refl
  flatten-slices (suc count) index size xs =
      let next : (index + 1) * size ≡ index * size + size = grind arith in
      let more : suc count * size ≡ size + count * size = grind arith in
      rw
        (
          slice-take size (index * size) xs,
          flatten-slices count (index + 1) size xs,
          drop-drop (index * size) size ((index + 1) * size) xs next,
        )
        (sym (take_add size (count * size) (suc count * size) (drop (index * size) xs) more))

  pub flatten-slices_all :
      (size : ℕ) (xs : List A)
      → 0 < size
      → flatten (slices (num_batches size (length xs)) 0 size xs) ≡ xs
  flatten-slices_all size xs h =
      flatten-slices (num_batches size (length xs)) 0 size xs
      ∙ (let e : 0 * size ≡ 0 = omega arith in
          rw e (take_beyond _ xs (num_batches-enough size (length xs) h)))

  -- No batch is longer than `size`.
  pub slices-sizes :
      (count index size : ℕ) (xs : List A) → All (λ b. length b ≤ size) (slices count index size xs)
  unfolding slices
  slices-sizes zero index size xs = tt
  slices-sizes (suc count) index size xs = (
    omega (
      arith,
      length-take (batch_stop size index (length xs) - batch_start size index)
          (drop (batch_start size index) xs),
    ),
    slices-sizes count (index + 1) size xs,
  )
