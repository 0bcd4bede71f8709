-- ===== src/Python/Batches.antt =====
-- `for i in range(0, len(xs), size): batch = xs[i : i + size]`, used wherever the program sends a
-- list in batches.
use mathlib.Core.List.{flatten}
use taboot.Prelude.{
  ℕ, zero, suc, ◌+◌, ◌≤◌, ◌<◌, ◌≡◌, refl, sym, ap, ◌∙◌, inl, inr, List, [], ◌∷◌, ◌++◌, length, take,
  drop, drop-drop, length-take, length-drop, take-append-drop, All, ltb, Bool-cases, if◌then◌else◌,
  arith,
}
use taboot.Python.{Outcome, ok, raised, Exec, resume, ◌>>=◌}
use taboot.Python.Loops.{for_each}

module _ {A : Type 0} where
  unfoldable pub batches_from : ℕ → ℕ → ℕ → List A → List (List A)
  batches_from zero i size xs = []
  batches_from (suc fuel) i size xs =
      let rest = batches_from fuel (i + size) size xs in
      if ltb i (length xs) then take size (drop i xs) ∷ rest else []

  -- A round for each element is enough, where `size` is not zero.
  unfoldable pub batches : ℕ → List A → List (List A)
  unfolding batches_from
  batches size xs = batches_from (length xs) 0 size xs

  drop_beyond : (n : ℕ) (xs : List A) → length xs ≤ n → drop n xs ≡ []
  drop_beyond zero [] h = refl
  drop_beyond zero (x ∷ xs) h = absurd (omega arith)
  drop_beyond (suc n) [] h = refl
  drop_beyond (suc n) (x ∷ xs) h = drop_beyond n xs (omega arith)

  flatten-batches_from :
      (fuel i size : ℕ) (xs : List A)
      → 0 < size
      → length xs ≤ i + fuel
      → flatten (batches_from fuel i size xs) ≡ drop i xs
  unfolding batches_from flatten
  flatten-batches_from zero i size xs h enough = sym (drop_beyond i xs (omega arith))
  flatten-batches_from (suc fuel) i size xs h enough = elim (Bool-cases (ltb i (length xs))) [
    | inl more ↦ rw more (
        ap (λ t. take size (drop i xs) ++ t)
          (flatten-batches_from fuel (i + size) size xs h (omega arith)
            ∙ drop-drop i size (i + size) xs refl)
        ∙ take-append-drop size (drop i xs))
    | inr done ↦ rw done (sym (drop_beyond i xs (ground arith)))
  ]

  -- The batches are the list, cut into pieces.
  pub flatten-batches : (size : ℕ) (xs : List A) → 0 < size → flatten (batches size xs) ≡ xs
  unfolding batches
  flatten-batches size xs h = flatten-batches_from (length xs) 0 size xs h (omega arith)

  -- No batch is empty or longer than `size`.
  batches_from-sizes :
      (fuel i size : ℕ) (xs : List A)
      → 0 < size
      → All (λ b. (0 < length b) × (length b ≤ size)) (batches_from fuel i size xs)
  unfolding batches_from
  batches_from-sizes zero i size xs h = tt
  batches_from-sizes (suc fuel) i size xs h = elim (Bool-cases (ltb i (length xs))) [
    | inl more ↦ rw more (sizes (ground arith), batches_from-sizes fuel (i + size) size xs h)
    | inr done ↦ rw done tt
  ]
    where
      sizes :
          i < length xs
          → (0 < length (take size (drop i xs))) × (length (take size (drop i xs)) ≤ size)
      sizes lt = omega (arith, length-take size (drop i xs), length-drop i xs)

  pub batches-sizes :
      (size : ℕ) (xs : List A)
      → 0 < size
      → All (λ b. (0 < length b) × (length b ≤ size)) (batches size xs)
  unfolding batches
  batches-sizes size xs h = batches_from-sizes (length xs) 0 size xs h

pub resume_assoc :
    {S A B C : Type 0} (r : Outcome A × S) (f : A → Exec S B) (g : B → Exec S C)
    → resume (resume r f) g ≡ resume r (λ a s. resume (f a s) g)
resume_assoc (ok a, s) f g = refl
resume_assoc (raised e, s) f g = refl

pub resume_pure : {S A : Type 0} (r : Outcome A × S) → resume r (λ a s. (ok a, s)) ≡ r
resume_pure (ok a, s) = refl
resume_pure (raised e, s) = refl

resume_cong :
    {S A B : Type 0} (r : Outcome A × S) (f g : A → Exec S B)
    → ((a : A) (s : S) → f a s ≡ g a s)
    → resume r f ≡ resume r g
resume_cong (ok a, s) f g h = h a s
resume_cong (raised e, s) f g h = refl

module _ {S A B : Type 0} (f : A → Exec S B) where
  for_each-append :
      (xs ys : List A) (s : S)
      → for_each f (xs ++ ys) s
        ≡ resume (for_each f xs s) (λ zs t. resume (for_each f ys t) (λ ws u. (ok (zs ++ ws), u)))
  unfolding for_each ◌>>=◌
  for_each-append [] ys s = sym (resume_pure (for_each f ys s))
  for_each-append (x ∷ xs) ys s =
      resume_cong (f x s) _ _ (λ y t.
        ap (λ r. resume r (λ zs u. (ok (y ∷ zs), u))) (for_each-append xs ys t)
        ∙ resume_assoc (for_each f xs t) _ _
        ∙ resume_cong (for_each f xs t) _ _ (λ zs u. resume_assoc (for_each f ys u) _ _)
        ∙ sym (resume_assoc (for_each f xs t) _ _))
      ∙ sym (resume_assoc (f x s) _ _)

  -- A loop over batches of a loop over each is one loop over all.
  pub for_each-flatten :
      (bs : List (List A)) (s : S)
      → resume (for_each (for_each f) bs s) (λ rs t. (ok (flatten rs), t))
        ≡ for_each f (flatten bs) s
  unfolding for_each ◌>>=◌ flatten
  for_each-flatten [] s = refl
  for_each-flatten (b ∷ bs) s =
      resume_assoc (for_each f b s) _ _
      ∙ resume_cong (for_each f b s) _ _ (λ zs t.
        resume_assoc (for_each (for_each f) bs t) _ _
        ∙ sym (resume_assoc (for_each (for_each f) bs t) _ _)
        ∙ ap (λ r. resume r (λ ws u. (ok (zs ++ ws), u))) (for_each-flatten bs t))
      ∙ sym (for_each-append b (flatten bs) s)
