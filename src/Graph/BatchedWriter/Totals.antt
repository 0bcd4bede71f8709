-- ===== src/Graph/BatchedWriter/Totals.antt =====
-- What a write sends, and what it reports.
use mathlib.Core.List.{flatten}
use taboot.Prelude.{
  ℕ, suc, ◌+◌, ◌≤◌, ◌<◌, ◌≡◌, refl, sym, ◌∙◌, Text, List, [], ◌∷◌, ◌++◌, length, length-append, All,
  arith,
}
use taboot.Python.{Outcome, ok, raised, Exec, resume, pure, ◌>>◌, ◌>>=◌}
use taboot.Python.Loops.{for_each}
use taboot.Python.Batches.{batches, flatten-batches, batches-sizes, resume_assoc}
use taboot.Graph.BatchedWriter.{
  Statistics, nothing_written, count_batch, write_batches, nodes_query, relationships_query,
  batch_write_nodes, batch_write_relationships,
}

module _ {S Row : Type 0} (execute_query : Text → List Row → Exec S (Unit {0}))
    (batch_size : ℕ) where
  -- The report of a write of these batches.
  abbrev pub report : List (List Row) → Statistics → Statistics
  report bs stats = record {
    total_written = stats.total_written + length (flatten bs);
    batches_executed = stats.batches_executed + length bs;
  }

  -- The batches, one query for each, and then a result.
  abbrev pub send : {A : Type 0} → Text → List (List Row) → A → S → Outcome A × S
  send query bs a s = resume (for_each (execute_query query) bs s) (λ _ v. (ok a, v))

  report_nil : (stats : Statistics) → report [] stats ≡ stats
  unfolding flatten
  report_nil stats =
      let t : stats.total_written + 0 ≡ stats.total_written = omega arith in
      let b : stats.batches_executed + 0 ≡ stats.batches_executed = omega arith in rw (t, b) refl

  report_cons :
      (b : List Row) (bs : List (List Row)) (stats : Statistics)
      → report bs (count_batch execute_query batch_size b stats) ≡ report (b ∷ bs) stats
  unfolding flatten
  report_cons b bs stats =
      let t : stats.total_written + length b + length (flatten bs)
          ≡ stats.total_written + length (b ++ flatten bs) =
        omega (arith, length-append b (flatten bs)) in
      let c : stats.batches_executed + 1 + length bs ≡ stats.batches_executed + suc (length bs) =
        omega arith in
      rw (t, c) refl

  write_batches-send :
      (query : Text) (bs : List (List Row)) (stats : Statistics) (s : S)
      → write_batches execute_query batch_size query bs stats s ≡ send query bs (report bs stats) s
  unfolding write_batches for_each ◌>>◌ ◌>>=◌
  write_batches-send query [] stats s = rw (report_nil stats)
  write_batches-send query (b ∷ bs) stats s =
      go (execute_query query b s)
        (write_batches-send query bs (count_batch execute_query batch_size b stats))
    where
      go :
          (r : Outcome (Unit {0}) × S)
          → ((t : S)
              → write_batches execute_query batch_size query bs
                  (count_batch execute_query batch_size b stats)
                  t
                ≡ send query bs (report bs (count_batch execute_query batch_size b stats)) t)
          → resume r (λ _.
            write_batches execute_query batch_size query bs
              (count_batch execute_query batch_size b stats))
            ≡ resume
                (resume r
                  (λ y. λ t. resume (for_each (execute_query query) bs t) (λ ys. pure (y ∷ ys))))
                (λ _ v. (ok (report (b ∷ bs) stats), v))
      go (raised e, t) ih = refl
      go (ok a, t) ih =
          ih t
          ∙ rw (report_cons b bs stats)
              (sym (resume_assoc (for_each (execute_query query) bs t) _ _))

  report_all :
      (bs : List (List Row)) (rows : List Row)
      → flatten bs ≡ rows
      → report bs nothing_written
        ≡ record { total_written = length rows; batches_executed = length bs }
  report_all bs rows same =
      let t : 0 + length rows ≡ length rows = omega arith in
      let b : 0 + length bs ≡ length bs = omega arith in rw same (rw (t, b) refl)

-- A write of nodes or of relationships sends one query for each of a list of batches, and the first
-- exception ends it: the batches are the rows in order, none is empty or longer than the batch
-- size, where that is not zero, and a write that ends reports all rows and the number of batches.
pub batch_write_sends :
    {S Row : Type 0} (execute_query : Text → List Row → Exec S (Unit {0})) (batch_size : ℕ)
    → 0 < batch_size
    → (label unique_key source_key target_label target_key rel_type : Text) (rows : List Row)
      (s : S)
    → (bs : List (List Row)) × (flatten bs ≡ rows)
      × All (λ b. (0 < length b) × (length b ≤ batch_size)) bs
      × (let done : Statistics = record {
        total_written = length rows;
        batches_executed = length bs;
      } in
          (batch_write_nodes execute_query batch_size label rows unique_key s
            ≡ send execute_query batch_size (nodes_query label unique_key) bs done s)
          × (batch_write_relationships execute_query batch_size label source_key target_label
                target_key rel_type rows s
              ≡ send execute_query batch_size
                  (relationships_query label source_key target_label target_key rel_type)
                  bs
                  done
                  s))
unfolding batch_write_nodes batch_write_relationships
batch_write_sends execute_query batch_size h label unique_key source_key target_label target_key
      rel_type rows s =
    let bs = batches batch_size rows in
    let same = flatten-batches batch_size rows h in
    (
      bs,
      same,
      batches-sizes batch_size rows h,
      (
        write_batches-send execute_query batch_size (nodes_query label unique_key) bs
              nothing_written s
            ∙ rw (report_all execute_query batch_size bs rows same) refl,
        write_batches-send execute_query batch_size
              (relationships_query label source_key target_label target_key rel_type) bs
              nothing_written s
            ∙ rw (report_all execute_query batch_size bs rows same) refl,
      ),
    )
