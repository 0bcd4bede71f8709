-- ===== src/Common/DbSchema/Applied.antt =====
-- What `create_schema` does on a database that has a table of versions.
use taboot.Prelude.{
  ℕ, ◌+◌, ◌<◌, Text, ◌≡◌, refl, ap, Bool, true, false, ◌&&◌, inl, inr, some, List, All,
  text_eq_refl, text_eq_sound, Bool-cases, arith,
}
use taboot.Python.{Outcome, ok, try_else, ◌>>=◌, ◌>>◌}
use taboot.Common.DbSchema.{
  VersionRow, Database, latest, version_of, checksum_of, upsert_version, is_version, success_row,
  succeed, extract_schema_version, get_current_version, record_success, apply_schema, is_applied,
  upgrade, run_upgrade, create_schema,
}
use taboot.Common.Postgres.{Server, statement, on_connection}
use taboot.Common.DbSchema.Again.{upsert-latest, checksum_of-upsert}

module _ {D : Type 0} (now : ℕ → ℕ) (elapsed : ℕ)
    (script : Text → Database D → Outcome (Database D)) (sha256 : Text → Text)
    (sql_content version : Text) (there : extract_schema_version sql_content ≡ some version) where
  abbrev Create : Server (Database D) → Outcome (Unit {0}) × Server (Database D)
  Create = create_schema now elapsed script sha256 (ok sql_content) (ok tt)

  -- The version applied last is the file's, with the file's checksum.
  abbrev pub is_current : List VersionRow → Bool
  is_current rows =
      is_version (version_of (latest rows)) version
      && is_version (checksum_of version rows) (sha256 sql_content)

  abbrev with_rows : List VersionRow → D → ℕ → Server (Database D)
  with_rows rows d n = record {
    database = record { versions = some rows; rest = d };
    transaction = n;
  }

  abbrev written : List VersionRow → ℕ → List VersionRow
  written rows n =
      upsert_version (success_row now elapsed script sha256 version (sha256 sql_content) (now n))
        (succeed now elapsed script sha256 (sha256 sql_content) (now n)) rows

  create_schema-skips :
      (rows : List VersionRow) (d : D) (n : ℕ)
      → is_current rows ≡ true
      → Create (with_rows rows d n) ≡ (ok tt, with_rows rows d (n + 1))
  unfolding create_schema on_connection run_upgrade upgrade get_current_version statement is_applied
      try_else ◌>>=◌ ◌>>◌
  create_schema-skips rows d n current =
      let v : is_version (version_of (latest rows)) version ≡ true = ground arith in
      let c : is_version (checksum_of version rows) (sha256 sql_content) ≡ true = ground arith in
      rw there (rw v (rw c))

  create_schema-applies :
      (rows rows' : List VersionRow) (d d' : D) (n : ℕ)
      → is_current rows ≡ false
      → script sql_content (record { versions = some rows; rest = d })
        ≡ ok (record { versions = some rows'; rest = d' })
      → Create (with_rows rows d n) ≡ (ok tt, with_rows (written rows' n) d' (n + 1 + 1))
  unfolding create_schema on_connection run_upgrade upgrade get_current_version statement is_applied
      apply_schema record_success try_else ◌>>=◌ ◌>>◌
  create_schema-applies rows rows' d d' n stale runs =
      elim (Bool-cases (is_version (version_of (latest rows)) version)) [
        | inl same ↦
            let c : is_version (checksum_of version rows) (sha256 sql_content) ≡ false =
              rw same at stale in
            rw there (rw same (rw c (rw runs)))
        | inr other ↦ rw there (rw other (rw runs))
      ]

  written-is_current :
      (rows : List VersionRow) (n : ℕ)
      → All (λ r. r.applied_at < now n) rows
      → is_current (written rows n) ≡ true
  written-is_current rows n old =
      let (q, last, (named, _, _)) =
        upsert-latest version (now n)
          (success_row now elapsed script sha256 version (sha256 sql_content) (now n))
          (succeed now elapsed script sha256 (sha256 sql_content) (now n)) rows refl
          (refl, refl, refl) (λ r same. (text_eq_sound r.version version same, refl, refl)) old in
      let stored =
        checksum_of-upsert
          (success_row now elapsed script sha256 version (sha256 sql_content) (now n))
          (succeed now elapsed script sha256 (sha256 sql_content) (now n)) rows
          (λ r. (refl, refl)) in
      rw (last, stored) (rw (named, text_eq_refl (sha256 sql_content)) (rw (text_eq_refl version)))

-- Where the database has a table of versions that the file's version is not the latest of, or not
-- with its checksum, the script runs and keeps the table, and the clock is past what the table says:
-- `create_schema` leaves what the script makes, and a second run returns and changes nothing.
pub create_schema-again :
    {D : Type 0} (now : ℕ → ℕ) (elapsed : ℕ) (script : Text → Database D → Outcome (Database D))
    (sha256 : Text → Text) (sql_content version : Text) (rows rows' : List VersionRow) (d d' : D)
    (n : ℕ)
    → extract_schema_version sql_content ≡ some version
    → (is_version (version_of (latest rows)) version
        && is_version (checksum_of version rows) (sha256 sql_content))
      ≡ false
    → script sql_content (record { versions = some rows; rest = d })
      ≡ ok (record { versions = some rows'; rest = d' })
    → All (λ r. r.applied_at < now n) rows'
    → (t : Server (Database D)) × (create_schema now elapsed script sha256
          (ok sql_content)
          (ok tt)
          (record { database = record { versions = some rows; rest = d }; transaction = n })
        ≡ (ok tt, t))
      × (t.database.rest ≡ d')
      × ((create_schema now elapsed script sha256 (ok sql_content) (ok tt) t).0 ≡ ok tt)
      × ((create_schema now elapsed script sha256 (ok sql_content) (ok tt) t).1.database
          ≡ t.database)
create_schema-again now elapsed script sha256 sql_content version rows rows' d d' n there stale runs
      old =
    let skips =
      create_schema-skips now elapsed script sha256 sql_content version there _ d' (n + 1 + 1)
        (written-is_current now elapsed script sha256 sql_content version there rows' n old) in
    (
      _,
      create_schema-applies now elapsed script sha256 sql_content version there rows rows' d d' n
          stale runs,
      refl,
      ap (λ p. p.0) skips,
      ap (λ p. p.1.database) skips,
    )
