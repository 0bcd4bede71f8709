-- ===== src/Tests/Schema.antt =====
-- packages/common/db_schema.py on a fresh database and on one with a version.
use taboot.Prelude.{
  ℕ, ◌+◌, Text, codes, ◌≡◌, refl, ◌⊎◌, Option, none, some, List, [], ◌∷◌, ◌++◌, text_eq, arith,
}
use taboot.Python.{Outcome, ok, raised}
use taboot.Python.Texts.{after_prefix, search, span}
use taboot.Python.Triples.{Post}
use taboot.Common.DbSchema.{
  Status, VersionRow, Database, after_word, extract_schema_version, latest, creation_failed,
  create_schema,
}
use taboot.Common.Postgres.{Server}
use taboot.Common.DbSchema.Fresh.{create_schema-fresh}
use taboot.Common.DbSchema.Atomic.{create_schema-Upgraded}
use taboot.Common.DbSchema.Applied.{create_schema-again}

-- The first lines of the schema's file.
abbrev sql : Text
sql = codes "-- PostgreSQL Schema" ++ 10 ∷ codes "-- THIS VERSION: 2.0.0 (2025-10-25)"

sql_version : extract_schema_version sql ≡ some (codes "2.0.0")
unfolding extract_schema_version search after_prefix after_word span
sql_version = refl

-- A script that counts how often it ran, and creates the table where there is none.
abbrev table_of : Option (List VersionRow) → List VersionRow
table_of none = []
table_of (some rows) = rows

abbrev script : Text → Database ℕ → Outcome (Database ℕ)
script t db = ok (record { versions = some (table_of db.versions); rest = db.rest + 1 })

abbrev old_version : VersionRow
old_version = record {
  version = codes "1.0.0";
  description = [];
  checksum = codes "old";
  execution_time_ms = none;
  status = Status.success;
  applied_at = 3;
}

abbrev server : Server (Database ℕ)
server = record {
  database = record { versions = some (old_version ∷ []); rest = 1 };
  transaction = 0;
}

create_schema-fresh_example :
    let database : Database ℕ = record { versions = none; rest = 0 } in
    let (r, t) =
      create_schema
        (λ n. 10 + n)
        5
        script
        (λ t. t)
        (ok sql)
        (ok tt)
        (record { database = database; transaction = 0 }) in
    (r ≡ raised creation_failed) × (t.database ≡ database)
create_schema-fresh_example =
    create_schema-fresh (λ n. 10 + n) 5 script (λ t. t) sql (codes "2.0.0") 0 0 sql_version

create_schema-Upgraded_example :
    Post
      (λ _ t.
        (t.database ≡ server.database)
        ⊎ ((db : Database ℕ) × (script sql server.database ≡ ok db) × (t.database.rest ≡ db.rest)))
      (λ t. t.database.rest ≡ server.database.rest)
      (create_schema (λ n. 10 + n) 5 script (λ t. t) (ok sql) (ok tt) server)
create_schema-Upgraded_example =
    create_schema-Upgraded (λ n. 10 + n) 5 script (λ t. t) sql (ok tt) server

create_schema-again_example :
    (t : Server (Database ℕ)) × (create_schema
        (λ n. 10 + n)
        5
        script
        (λ t. t)
        (ok sql)
        (ok tt)
        server
      ≡ (ok tt, t))
    × (t.database.rest ≡ 2)
    × ((create_schema (λ n. 10 + n) 5 script (λ t. t) (ok sql) (ok tt) t).0 ≡ ok tt)
    × ((create_schema (λ n. 10 + n) 5 script (λ t. t) (ok sql) (ok tt) t).1.database ≡ t.database)
unfolding latest text_eq
create_schema-again_example =
    create_schema-again (λ n. 10 + n) 5 script (λ t. t) sql (codes "2.0.0") (old_version ∷ [])
      (old_version ∷ []) 1 2 0 sql_version refl refl (omega arith, tt)
