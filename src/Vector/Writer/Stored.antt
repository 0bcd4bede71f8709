-- ===== src/Vector/Writer/Stored.antt =====
-- What a write leaves in the collection.
use mathlib.Core.List.{flatten}
use taboot.Prelude.{
  ℕ, ◌<◌, ◌≡◌, refl, sym, subst, ◌∙◌, true, inl, inr, List, [], ◌∷◌, ◌++◌, length, append-nil,
  append_assoc, Bool-cases, ◌==◌, ==_sound,
}
use taboot.Python.{Exec, pure, raise, try_else, ◌>>=◌}
use taboot.Python.Triples.{Post, Post-resume, Post-settle, Post-weaken}
use taboot.Python.Loops.{for_each}
use taboot.Schemas.{Chunk}
use taboot.Vector.Writer.{PointStruct, all_sized, upsert_points, upsert_batch, write_error}
use taboot.Vector.Writer.Upserted.{length-points_of, upsert_each, upsert_batch-each}

module _ {S F : Type 0} (stored : S → List (PointStruct F)) where
  -- More points than before.
  abbrev pub More : S → S → Type 0
  More s v = (ps : List (PointStruct F)) × (stored v ≡ stored s ++ ps)

  -- So many points more than before.
  abbrev pub Added : ℕ → S → S → Type 0
  Added n s v = (ps : List (PointStruct F)) × (stored v ≡ stored s ++ ps) × (length ps ≡ n)

module _ {S F : Type 0} (stored : S → List (PointStruct F))
    (upsert : List (PointStruct F) → Exec S (Unit {0})) (batch_size : ℕ)
    (upserts : (ps : List (PointStruct F)) (s : S)
      → Post (λ _ v. stored v ≡ stored s ++ ps) (λ v. stored v ≡ stored s) (upsert ps s)) where
  upsert_points-stores :
      (ps : List (PointStruct F)) (s : S)
      → Post
          (λ _ v. stored v ≡ stored s ++ ps)
          (λ v. stored v ≡ stored s)
          (upsert_points upsert batch_size ps s)
  unfolding upsert_points try_else
  upsert_points-stores ps s =
      Post-settle _ _ (λ _ v. stored v ≡ stored s ++ ps) (λ v. stored v ≡ stored s) (upsert ps s)
        pure (λ e. raise write_error) (upserts ps s) (λ a v h. h) (λ e v h. h)

  More-nil : (s v : S) → stored v ≡ stored s → More stored s v
  More-nil s v h = ([], h ∙ sym (append-nil (stored s)))

  More-append :
      (s v u : S) (ps : List (PointStruct F))
      → stored v ≡ stored s ++ ps
      → More stored v u
      → More stored s u
  More-append s v u ps h (qs, k) = (ps ++ qs, k ∙ rw h (append_assoc (stored s) ps qs))

  for_each-stores :
      (bs : List (List (PointStruct F))) (s : S)
      → Post
          (λ _ v. stored v ≡ stored s ++ flatten bs)
          (More stored s)
          (for_each (upsert_points upsert batch_size) bs s)
  unfolding for_each flatten ◌>>=◌
  for_each-stores [] s = sym (append-nil (stored s))
  for_each-stores (b ∷ bs) s =
      Post-resume _ _ (λ _ v. stored v ≡ stored s ++ b) (upsert_points upsert batch_size b s) _
        (Post-weaken _ _ _ _ (upsert_points upsert batch_size b s) (upsert_points-stores b s)
          (λ a v h. h) (λ v h. More-nil s v h))
        (λ a v h.
          Post-resume _ _ (λ _ u. stored u ≡ stored v ++ flatten bs)
            (for_each (upsert_points upsert batch_size) bs v) _
            (Post-weaken _ _ _ _ (for_each (upsert_points upsert batch_size) bs v)
              (for_each-stores bs v) (λ a u k. k) (λ u m. More-append s v u b h m))
            (λ done u k. k ∙ rw h (append_assoc (stored s) b (flatten bs))))

  upsert_each-stores :
      (bs : List (List (PointStruct F))) (s : S)
      → Post
          (λ _ v. stored v ≡ stored s ++ flatten bs)
          (More stored s)
          (upsert_each upsert batch_size bs s)
  upsert_each-stores bs s =
      Post-resume _ _ (λ _ v. stored v ≡ stored s ++ flatten bs)
        (for_each (upsert_points upsert batch_size) bs s) _ (for_each-stores bs s) (λ a v h. h)

  -- A write that returns has stored a point for each chunk; one that raises has stored some points, or
  -- none. Nothing that was stored before is lost.
  pub upsert_batch-stores :
      0 < batch_size
      → (chunks : List Chunk) (embeddings : List (List F)) (s : S)
      → Post
          (λ _ v. Added stored (length chunks) s v)
          (More stored s)
          (upsert_batch upsert batch_size chunks embeddings s)
  unfolding upsert_batch
  upsert_batch-stores pos [] vs s = ([], sym (append-nil (stored s)), refl)
  upsert_batch-stores pos (c ∷ cs) vs s = elim (Bool-cases (length (c ∷ cs) == length vs)) [
    | inr other ↦ rw other (More-nil s s refl)
    | inl same ↦ elim (Bool-cases (all_sized vs)) [
      | inr wrong ↦ rw (same, wrong) (More-nil s s refl)
      | inl sized ↦ written same sized
    ]
  ]
    where
      written :
          (length (c ∷ cs) == length vs) ≡ true
          → all_sized vs ≡ true
          → Post
              (λ _ v. Added stored (length (c ∷ cs)) s v)
              (More stored s)
              (upsert_batch upsert batch_size (c ∷ cs) vs s)
      written same sized =
          let equal : length (c ∷ cs) ≡ length vs = ==_sound (length (c ∷ cs)) (length vs) same in
          let (bs, all, sizes, sends) =
            upsert_batch-each upsert batch_size pos (c ∷ cs) vs equal sized s in
          subst (λ r. Post (λ _ v. Added stored (length (c ∷ cs)) s v) (More stored s) r)
            (sym sends)
            (Post-weaken _ _ _ _ (upsert_each upsert batch_size bs s) (upsert_each-stores bs s)
              (λ a v h. (flatten bs, h, rw all (length-points_of (c ∷ cs) vs equal))) (λ v m. m))
