-- ===== src/Ingest/Embedder/Dimensions.antt =====
-- The number and the dimension of the vectors.
use mathlib.Core.List.{flatten}
use taboot.Prelude.{
  ℕ, suc, ◌+◌, ◌<◌, ◌≡◌, refl, subst, Text, false, inl, inr, List, [], ◌∷◌, ◌++◌, length,
  length-append, All, All-append, Bool-cases, ◌==◌, ==_sound, arith,
}
use taboot.Python.{Outcome, ok, raised, Exec, lift, try_else, ◌>>=◌}
use taboot.Python.Triples.{Post, Post-resume, Post-settle, Post-any}
use taboot.Python.Batches.{batches, flatten-batches}
use taboot.Ingest.Embedder.{
  Item, Answer, check_items, check_answer, embed_batch, embed_batches, embed_texts, add_checked,
}

module _ {S F : Type 0} (post : List Text → Exec S (Answer F)) (batch_size expected_dim : ℕ) where
  -- So many vectors, each of the expected dimension.
  abbrev pub Embeds : ℕ → List (List F) → Type 0
  Embeds n vs = (length vs ≡ n) × All (λ v. length v ≡ expected_dim) vs

  abbrev Checked : ℕ → Outcome (List (List F)) → Type 0
  Checked n (ok vs) = Embeds n vs
  Checked n (raised e) = Unit

  add_checked-Checked :
      (n : ℕ) (v : List F) (r : Outcome (List (List F)))
      → length v ≡ expected_dim
      → Checked n r
      → Checked (suc n) (add_checked post batch_size expected_dim v r)
  add_checked-Checked n v (ok vs) e h = (omega (arith, h.0), (e, h.1))
  add_checked-Checked n v (raised x) e h = tt

  check_items-Checked :
      (xs : List (Item F)) → Checked (length xs) (check_items post batch_size expected_dim xs)
  unfolding check_items
  check_items-Checked [] = (refl, tt)
  check_items-Checked (Item.no_vector ∷ rest) = tt
  check_items-Checked (Item.vector v ∷ rest) = elim (Bool-cases (length v == expected_dim)) [
    | inl fits ↦ rw fits (
        add_checked-Checked (length rest) v _ (==_sound (length v) expected_dim fits)
          (check_items-Checked rest))
    | inr other ↦ rw other tt
  ]

  check_answer-Checked :
      (n : ℕ) (a : Answer F) → Checked n (check_answer post batch_size expected_dim n a)
  unfolding check_answer
  check_answer-Checked n Answer.no_list = tt
  check_answer-Checked n (Answer.items xs) = elim (Bool-cases (length xs == n)) [
    | inl fits ↦ rw fits (rw (← ==_sound (length xs) n fits) (check_items-Checked xs))
    | inr other ↦ rw other tt
  ]

  abbrev Any : S → Type 0
  Any _ = Unit

  lift-Post :
      (n : ℕ) (r : Outcome (List (List F))) (s : S)
      → Checked n r
      → Post (λ vs _. Embeds n vs) Any (lift r s)
  lift-Post n (ok vs) s h = h
  lift-Post n (raised e) s h = tt

  embed_batch-Embeds :
      (batch : List Text) (s : S)
      → Post
          (λ vs _. Embeds (length batch) vs)
          Any
          (embed_batch post batch_size expected_dim batch s)
  unfolding embed_batch try_else ◌>>=◌
  embed_batch-Embeds batch s =
      Post-settle _ _ (λ vs _. Embeds (length batch) vs) Any _ _ _
        (Post-resume _ _ (λ _ _. Unit {0}) (post batch s) _ (Post-any _)
          (λ a t _. lift-Post (length batch) _ t (check_answer-Checked (length batch) a)))
        (λ vs t h. h) (λ e t _. tt)

  embed_batches-Embeds :
      (bs : List (List Text)) (done : List (List F)) (n : ℕ) (s : S)
      → Embeds n done
      → Post
          (λ vs _. Embeds (n + length (flatten bs)) vs)
          Any
          (embed_batches post batch_size expected_dim bs done s)
  unfolding embed_batches ◌>>=◌ flatten
  embed_batches-Embeds [] done n s h = (omega (arith, h.0), h.1)
  embed_batches-Embeds (b ∷ bs) done n s h =
      Post-resume _ _ (λ vs _. Embeds (length b) vs) (embed_batch post batch_size expected_dim b s)
        _ (embed_batch-Embeds b s)
        (λ vs t k.
          let sum : n + length (b ++ flatten bs) ≡ n + length b + length (flatten bs) =
            omega (arith, length-append b (flatten bs)) in
          rw sum (
            embed_batches-Embeds bs (done ++ vs) (n + length b) t
              (omega (arith, length-append done vs, h.0, k.0), All-append _ done vs h.1 k.1)))

  embed_all-Embeds :
      (bs : List (List Text)) (texts : List Text) (s : S)
      → flatten bs ≡ texts
      → Post
          (λ vs _. Embeds (length texts) vs)
          Any
          (embed_batches post batch_size expected_dim bs [] s)
  embed_all-Embeds bs texts s same =
      let counted : 0 + length (flatten bs) ≡ length texts = rw same (omega arith) in
      subst
        (λ n. Post (λ vs _. Embeds n vs) Any (embed_batches post batch_size expected_dim bs [] s))
        counted (embed_batches-Embeds bs [] 0 s (refl, tt))

-- Where the batch size is not zero, a call of `embed_texts` that returns has one vector for each
-- text, and each has the expected dimension, whatever the service answers.
pub embed_texts-Embeds :
    {S F : Type 0} (post : List Text → Exec S (Answer F)) (batch_size expected_dim : ℕ)
    → 0 < batch_size
    → (texts : List Text) (s : S)
    → Post
        (λ vs _. Embeds post batch_size expected_dim (length texts) vs)
        (λ _. Unit {0})
        (embed_texts post batch_size expected_dim texts s)
unfolding embed_texts
embed_texts-Embeds post batch_size expected_dim h [] s = (refl, tt)
embed_texts-Embeds post batch_size expected_dim h (t ∷ ts) s = rw (nonzero batch_size h) (
    embed_all-Embeds post batch_size expected_dim (batches batch_size (t ∷ ts)) (t ∷ ts) s
      (flatten-batches batch_size (t ∷ ts) h))
  where
    nonzero : (n : ℕ) → 0 < n → (n == 0) ≡ false
    nonzero n h = ground arith
