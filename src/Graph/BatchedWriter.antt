-- ===== src/Graph/BatchedWriter.antt =====
-- packages/graph/writers/batched.py: `BatchedGraphWriter`. The client is a parameter: what a query
-- does with its rows, and whether it raises.
pub mod Totals
use taboot.Prelude.{ℕ, ◌+◌, Text, codes, List, [], ◌∷◌, ◌++◌, length}
use taboot.Python.{Exec, pure, ◌>>◌}
use taboot.Python.Batches.{batches}

pub record Statistics : Type 0 where
  pub total_written : ℕ
  pub batches_executed : ℕ

abbrev pub nothing_written : Statistics
nothing_written = record { total_written = 0; batches_executed = 0 }

-- UNWIND $nodes AS node MERGE ... SET n += node RETURN count(n)
abbrev pub nodes_query : Text → Text → Text
nodes_query label unique_key =
    codes "UNWIND $nodes AS node MERGE (n:"
    ++ label
    ++ codes " {"
    ++ unique_key
    ++ codes ": node."
    ++ unique_key
    ++ codes "}) SET n += node RETURN count(n) AS created_count"

-- UNWIND $rels AS rel MATCH ... MATCH ... MERGE ... SET r += rel.rel_properties
abbrev pub relationships_query : Text → Text → Text → Text → Text → Text
relationships_query source_label source_key target_label target_key rel_type =
    codes "UNWIND $rels AS rel MATCH (source:"
    ++ source_label
    ++ codes " {"
    ++ source_key
    ++ codes ": rel.source_value}) MATCH (target:"
    ++ target_label
    ++ codes " {"
    ++ target_key
    ++ codes ": rel.target_value}) MERGE (source)-[r:"
    ++ rel_type
    ++ codes "]->(target) SET r += rel.rel_properties RETURN count(r) AS created_count"

module _ {S Row : Type 0} (execute_query : Text → List Row → Exec S (Unit {0}))
    (batch_size : ℕ) where
  abbrev pub count_batch : List Row → Statistics → Statistics
  count_batch batch stats = record {
    total_written = stats.total_written + length batch;
    batches_executed = stats.batches_executed + 1;
  }

  -- The loop that both methods have.
  pub write_batches : Text → List (List Row) → Statistics → Exec S Statistics
  write_batches query [] stats = pure stats
  write_batches query (batch ∷ rest) stats =
      execute_query query batch >> write_batches query rest (count_batch batch stats)

  pub batch_write_nodes : Text → List Row → Text → Exec S Statistics
  batch_write_nodes label nodes unique_key =
      write_batches (nodes_query label unique_key) (batches batch_size nodes) nothing_written

  pub batch_write_relationships : Text → Text → Text → Text → Text → List Row → Exec S Statistics
  batch_write_relationships source_label source_key target_label target_key rel_type relationships =
      write_batches (relationships_query source_label source_key target_label target_key rel_type)
        (batches batch_size relationships) nothing_written
