-- ===== src/Vector/Writer/Upserted.antt =====
-- Which points a write sends.
use mathlib.Core.List.{flatten}
use taboot.Prelude.{
  ℕ, zero, suc, ◌+◌, ◌-◌, ◌<◌, ◌≤◌, ◌≡◌, refl, sym, ap, ◌∙◌, true, List, [], ◌∷◌, length, take,
  drop, length-take, length-drop, All, ◌==◌, arith,
}
use taboot.Python.{Outcome, ok, raised, Exec, pure, resume, ◌>>=◌, ◌>>◌}
use taboot.Python.Loops.{for_each}
use taboot.Python.Batches.{resume_assoc}
use taboot.Python.Slices.{
  slice, slices, batch_start, batch_stop, num_batches, flatten-slices_all, slices-sizes,
}
use taboot.Schemas.{Chunk}
use taboot.Vector.Writer.{
  PointStruct, build_points, all_sized, upsert_points, upsert_batch_internal, upsert_from,
  upsert_batch,
}

module _ {F : Type 0} where
  -- Each chunk with the vector at its place.
  abbrev pub points_of : List Chunk → List (List F) → List (PointStruct F)
  points_of [] vs = []
  points_of (c ∷ cs) [] = []
  points_of (c ∷ cs) (v ∷ vs) = record { chunk = c; vector = v } ∷ points_of cs vs

  build_points_lem :
      (cs : List Chunk) (vs : List (List F))
      → length cs ≡ length vs
      → build_points cs vs ≡ ok (points_of cs vs)
  unfolding build_points
  build_points_lem [] [] h = refl
  build_points_lem [] (v ∷ vs) h = absurd (omega arith)
  build_points_lem (c ∷ cs) [] h = absurd (omega arith)
  build_points_lem (c ∷ cs) (v ∷ vs) h = rw (build_points_lem cs vs (omega arith)) refl

  take-points_of :
      (n : ℕ) (cs : List Chunk) (vs : List (List F))
      → take n (points_of cs vs) ≡ points_of (take n cs) (take n vs)
  take-points_of zero cs vs = refl
  take-points_of (suc n) [] vs = refl
  take-points_of (suc n) (c ∷ cs) [] = refl
  take-points_of (suc n) (c ∷ cs) (v ∷ vs) =
      ap (λ t. record { chunk = c; vector = v } ∷ t) (take-points_of n cs vs)

  points_of-nil : (cs : List Chunk) → points_of cs [] ≡ []
  points_of-nil [] = refl
  points_of-nil (c ∷ cs) = refl

  drop-points_of :
      (n : ℕ) (cs : List Chunk) (vs : List (List F))
      → drop n (points_of cs vs) ≡ points_of (drop n cs) (drop n vs)
  drop-points_of zero cs vs = refl
  drop-points_of (suc n) [] vs = refl
  drop-points_of (suc n) (c ∷ cs) [] = sym (points_of-nil (drop n cs))
  drop-points_of (suc n) (c ∷ cs) (v ∷ vs) = drop-points_of n cs vs

  pub length-points_of :
      (cs : List Chunk) (vs : List (List F))
      → length cs ≡ length vs
      → length (points_of cs vs) ≡ length cs
  length-points_of [] vs h = refl
  length-points_of (c ∷ cs) [] h = absurd (omega arith)
  length-points_of (c ∷ cs) (v ∷ vs) h = ap suc (length-points_of cs vs (omega arith))

  slice-points_of :
      (start stop : ℕ) (cs : List Chunk) (vs : List (List F))
      → slice start stop (points_of cs vs) ≡ points_of (slice start stop cs) (slice start stop vs)
  slice-points_of start stop cs vs =
      rw (drop-points_of start cs vs)
        (take-points_of (stop - start) (drop start cs) (drop start vs))

  length-slice :
      (start stop : ℕ) (cs : List Chunk) (vs : List (List F))
      → length cs ≡ length vs
      → length (slice start stop cs) ≡ length (slice start stop vs)
  length-slice start stop cs vs h = omega (
    arith,
    length-take (stop - start) (drop start cs),
    length-take (stop - start) (drop start vs),
    length-drop start cs,
    length-drop start vs,
  )

module _ {S F : Type 0} (upsert : List (PointStruct F) → Exec S (Unit {0})) (batch_size : ℕ) where
  -- One call of the client for each list of points, up to the first that fails.
  abbrev pub upsert_each : List (List (PointStruct F)) → S → Outcome (Unit {0}) × S
  upsert_each bs s = resume (for_each (upsert_points upsert batch_size) bs s) (λ _ v. (ok tt, v))

  upsert_from-each :
      (rest batch_idx : ℕ) (cs : List Chunk) (vs : List (List F)) (s : S)
      → length cs ≡ length vs
      → upsert_from upsert batch_size rest batch_idx cs vs s
        ≡ upsert_each (slices rest batch_idx batch_size (points_of cs vs)) s
  unfolding upsert_from slices for_each upsert_batch_internal ◌>>◌ ◌>>=◌
  upsert_from-each zero i cs vs s h = refl
  upsert_from-each (suc rest) i cs vs s h =
      let start = batch_start batch_size i in
      let stop = batch_stop batch_size i (length cs) in
      rw
        (
          length-points_of cs vs h,
          slice-points_of start stop cs vs,
          build_points_lem (slice start stop cs) (slice start stop vs)
              (length-slice start stop cs vs h),
        )
        (go
          (upsert_points upsert batch_size (points_of (slice start stop cs) (slice start stop vs))
            s)
          (λ t. upsert_from-each rest (i + 1) cs vs t h))
    where
      go :
          (r : Outcome (Unit {0}) × S)
          → ((t : S)
              → upsert_from upsert batch_size rest (i + 1) cs vs t
                ≡ upsert_each (slices rest (i + 1) batch_size (points_of cs vs)) t)
          → resume r (λ _. upsert_from upsert batch_size rest (i + 1) cs vs)
            ≡ resume
                (resume r (λ y t.
                  resume
                    (for_each
                      (upsert_points upsert batch_size)
                      (slices rest (i + 1) batch_size (points_of cs vs))
                      t)
                    (λ ys. pure (y ∷ ys))))
                (λ _ v. (ok tt, v))
      go (raised e, t) ih = refl
      go (ok a, t) ih =
          ih t
          ∙ sym (
              resume_assoc
                (for_each (upsert_points upsert batch_size)
                  (slices rest (i + 1) batch_size (points_of cs vs)) t)
                _ _)

-- Where the batch size is not zero and there is one vector of 1024 numbers for each chunk, a write
-- calls the client once for each of a list of batches, until a call fails: the batches are the
-- chunks with their vectors, in order, and none is longer than the batch size.
pub upsert_batch-each :
    {S F : Type 0} (upsert : List (PointStruct F) → Exec S (Unit {0})) (batch_size : ℕ)
    → 0 < batch_size
    → (chunks : List Chunk) (embeddings : List (List F)) → length chunks ≡ length embeddings
    → all_sized embeddings ≡ true
    → (s : S)
    → (bs : List (List (PointStruct F))) × (flatten bs ≡ points_of chunks embeddings)
      × All (λ b. length b ≤ batch_size) bs
      × (upsert_batch upsert batch_size chunks embeddings s ≡ upsert_each upsert batch_size bs s)
unfolding upsert_batch for_each flatten ◌>>=◌
upsert_batch-each upsert batch_size pos [] vs same sized s = ([], refl, tt, refl)
upsert_batch-each upsert batch_size pos (c ∷ cs) vs same sized s =
    let count = num_batches batch_size (length (c ∷ cs)) in
    let points = points_of (c ∷ cs) vs in
    let full : flatten (slices (num_batches batch_size (length points)) 0 batch_size points)
        ≡ points =
      flatten-slices_all batch_size points pos in
    let equal : (length (c ∷ cs) == length vs) ≡ true = ground arith in
    (
      slices count 0 batch_size points,
      rw (length-points_of (c ∷ cs) vs same) at full,
      slices-sizes count 0 batch_size points,
      rw (equal, sized) (upsert_from-each upsert batch_size count 0 (c ∷ cs) vs s same),
    )
