-- ===== src/Common/DbSchema/Fresh.antt =====
-- What `create_schema` does to a database that has no table of versions.
use taboot.Prelude.{ℕ, Text, ◌≡◌, refl, none, some}
use taboot.Python.{Outcome, ok, raised, try_else, ◌>>=◌, ◌>>◌}
use taboot.Common.DbSchema.{
  Database, extract_schema_version, get_current_version, record_success, record_failure,
  apply_schema, is_applied, upgrade, fail_upgrade, run_upgrade, create_schema, creation_failed,
}
use taboot.Common.Postgres.{statement, on_connection}

-- On a database without a table of versions, `create_schema` always fails and leaves the database
-- as it was, whatever the script would do: the failed query of the version shuts the transaction
-- in which the script is to run.
pub create_schema-fresh :
    {D : Type 0} (now : ℕ → ℕ) (elapsed : ℕ) (script : Text → Database D → Outcome (Database D))
    (sha256 : Text → Text) (sql_content file_version : Text) (rest : D) (n : ℕ)
    → extract_schema_version sql_content ≡ some file_version
    → let database : Database D = record { versions = none; rest = rest } in
      let (r, t) =
        create_schema now elapsed script sha256
          (ok sql_content)
          (ok tt)
          (record { database = database; transaction = n }) in
      (r ≡ raised creation_failed) × (t.database ≡ database)
unfolding create_schema on_connection run_upgrade upgrade get_current_version statement is_applied
    apply_schema record_success fail_upgrade record_failure try_else ◌>>=◌ ◌>>◌
create_schema-fresh now elapsed script sha256 sql_content file_version rest n h = rw h (refl, refl)
