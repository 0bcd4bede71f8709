-- ===== src/Graph/SwagWriter/Runs.antt =====
-- The loop over batches, without a fault.
use mathlib.Core.List.{flatten}
use taboot.Prelude.{
  ℕ, suc, ◌+◌, ◌≡◌, refl, sym, ◌∙◌, Bool, true, false, Option, none, List, [], ◌∷◌, ◌++◌, length,
  length-append, arith,
}
use taboot.Python.{Outcome, ok, Exn, ◌>>◌}
use taboot.Graph.BatchedWriter.{Statistics}
use taboot.Graph.SwagWriter.{Neo4j, unwind, count_rows, session_run, run_batches}

unwind-append :
    {Row : Type 0} (query : Row → Neo4j → Neo4j) (xs ys : List Row) (g : Neo4j)
    → unwind query (xs ++ ys) g ≡ unwind query ys (unwind query xs g)
unfolding unwind
unwind-append query [] ys g = refl
unwind-append query (x ∷ xs) ys g = unwind-append query xs ys (query x g)

-- A query that does not read how many calls there were.
abbrev pub IsBlind : {Row : Type 0} → (Row → Neo4j → Neo4j) → Type 0
IsBlind {Row = Row} query =
    (row : Row) (g : Neo4j) (n : ℕ)
    → query row (record g { calls = n }) ≡ record (query row g) { calls = n }

unwind-blind :
    {Row : Type 0} (query : Row → Neo4j → Neo4j)
    → IsBlind query
    → (rows : List Row) (g : Neo4j) (n : ℕ)
    → unwind query rows (record g { calls = n }) ≡ record (unwind query rows g) { calls = n }
unfolding unwind
unwind-blind query blind [] g n = refl
unwind-blind query blind (row ∷ rows) g n =
    rw (blind row g n) (unwind-blind query blind rows (query row g) n)

abbrev pub rows_written : Bool → ℕ → ℕ → ℕ
rows_written true before n = before + n
rows_written false before n = before

rows_written-nil : (counted : Bool) (before : ℕ) → rows_written counted before 0 ≡ before
rows_written-nil true before = omega arith
rows_written-nil false before = refl

rows_written-count :
    {Row : Type 0} (counted : Bool) (b rest : List Row) (stats : Statistics)
    → rows_written counted (count_rows counted (length b) stats).total_written (length rest)
      ≡ rows_written counted stats.total_written (length (b ++ rest))
rows_written-count true b rest stats = omega (arith, length-append b rest)
rows_written-count false b rest stats = refl

batches-count :
    (counted : Bool) (n m : ℕ) (stats : Statistics)
    → (count_rows counted n stats).batches_executed + m ≡ stats.batches_executed + suc m
batches-count true n m stats = omega arith
batches-count false n m stats = omega arith

module _ (fault : ℕ → Option Exn) (batch_size : ℕ) (up : (n : ℕ) → fault n ≡ none) where
  -- The end of a loop over these batches, without a fault.
  abbrev pub finished :
      {Row : Type 0}
      → (Row → Neo4j → Neo4j)
      → Bool
      → List (List Row)
      → Statistics
      → Neo4j
      → Outcome Statistics × Neo4j
  finished query counted bs stats g = (
    ok (record {
      total_written = rows_written counted stats.total_written (length (flatten bs));
      batches_executed = stats.batches_executed + length bs;
    }),
    record (unwind query (flatten bs) g) { calls = g.calls + length bs },
  )

  finished-cons :
      {Row : Type 0} (query : Row → Neo4j → Neo4j)
      → IsBlind query
      → (counted : Bool) (b : List Row) (bs : List (List Row)) (stats : Statistics) (g : Neo4j)
      → finished query counted bs
          (count_rows counted (length b) stats)
          (record (unwind query b g) { calls = g.calls + 1 })
        ≡ finished query counted (b ∷ bs) stats g
  unfolding flatten
  finished-cons query blind counted b bs stats g =
      let calls : g.calls + 1 + length bs ≡ g.calls + suc (length bs) = omega arith in
      rw (
        rows_written-count counted b (flatten bs) stats,
        batches-count counted (length b) (length bs) stats,
        unwind-blind query blind (flatten bs) (unwind query b g) (g.calls + 1),
        sym (unwind-append query b (flatten bs) g),
        calls,
      )

  -- Without a fault, the batches are one list of rows.
  pub run_batches-finished :
      {Row : Type 0} (query : Row → Neo4j → Neo4j)
      → IsBlind query
      → (counted : Bool) (bs : List (List Row)) (stats : Statistics) (g : Neo4j)
      → run_batches fault batch_size query counted bs stats g ≡ finished query counted bs stats g
  unfolding run_batches session_run unwind flatten ◌>>◌
  run_batches-finished query blind counted [] stats g =
      let b : stats.batches_executed + 0 ≡ stats.batches_executed = omega arith in
      let c : g.calls + 0 ≡ g.calls = omega arith in
      rw (rows_written-nil counted stats.total_written, b, c)
  run_batches-finished query blind counted (b ∷ bs) stats g = rw (up g.calls) (
      run_batches-finished query blind counted bs (count_rows counted (length b) stats)
        (record (unwind query b g) { calls = g.calls + 1 })
      ∙ finished-cons query blind counted b bs stats g)
