-- ===== src/Common/DbSchema.antt =====
-- packages/common/db_schema.py: `create_schema` with its record of versions, as transactions of
-- PostgreSQL. The effect of the schema's script, SHA-256, the file and the connection are parameters.
-- `D` is what the database holds besides the table of versions.
pub mod Statements
pub mod Fresh
pub mod Atomic
pub mod Again
pub mod Applied
use taboot.Prelude.{
  ℕ, ◌+◌, Text, codes, Bool, true, false, not, ◌&&◌, ◌||◌, Option, none, some, List, [], ◌∷◌, ◌++◌,
  is_empty, take, leb, ◌==◌, text_eq, if◌then◌else◌,
}
use taboot.Python.{
  Kind, Exn, Outcome, ok, raised, Exec, pure, raise, lift, modify, try_else, try_except, ◌>>=◌,
  ◌>>◌,
}
use taboot.Python.Texts.{after_prefix, search, span}
use taboot.Common.Postgres.{
  Session, Server, programming_error, rollback, commit, statement, on_connection,
}
use taboot.Extraction.Sentences.{is_space, lstrip}

pub data Status : Type 0 where
  success failed : Status

abbrev pub is_success : Status → Bool
is_success Status.success = true
is_success Status.failed = false

-- A row of schema_versions, whose key is the version.
pub record VersionRow : Type 0 where
  pub version : Text
  pub description : Text
  pub checksum : Text
  pub execution_time_ms : Option ℕ
  pub status : Status
  pub applied_at : ℕ

-- There is no table before the first script.
pub record Database (D : Type 0) : Type 0 where
  pub versions : Option (List VersionRow)
  pub rest : D

abbrev pub undefined_table : Exn
undefined_table = programming_error (codes "relation \"schema_versions\" does not exist")

abbrev pub missing_version : Exn
missing_version = record {
  kind = Kind.value_error;
  message = codes "Schema file missing THIS VERSION comment.";
}

abbrev pub creation_failed : Exn
creation_failed = record { kind = Kind.runtime_error; message = codes "Schema creation failed" }

-- A letter in either case, and what else `re.IGNORECASE` takes for it.
abbrev same_letter : ℕ → ℕ → Bool
same_letter letter c =
    c == letter
    || c + 32 == letter
    || (letter == b's' && c == 0x17f)
    || (letter == b'i' && (c == 0x130 || c == 0x131))

unfoldable pub after_word : Text → Text → Option Text
after_word [] t = some t
after_word (letter ∷ w) [] = none
after_word (letter ∷ w) (c ∷ t) = if same_letter letter c then after_word w t else none

abbrev some_text : Text × Text → Option Text
some_text ([], back) = none
some_text (c ∷ front, back) = some (c ∷ front)

-- `VERSION:\s*(\S+)` behind the spaces of `THIS\s+`
abbrev version_behind : Text × Text → Option Text
version_behind ([], t) = none
version_behind (c ∷ spaces, t) = elim (after_word (codes "version") t) [
  | none ↦ none
  | some t ↦ elim (after_prefix (codes ":") t) [
    | none ↦ none
    | some t ↦ some_text (span (λ c. not (is_space c)) (lstrip t))
  ]
]

abbrev version_at : Text → Option Text
version_at t = elim (after_prefix (codes "--") t) [
  | none ↦ none
  | some t ↦ elim (after_word (codes "this") (lstrip t)) [
    | none ↦ none
    | some t ↦ version_behind (span is_space t)
  ]
]

-- `re.search(r"--\s*THIS\s+VERSION:\s*(\S+)", sql_content, re.IGNORECASE)`
unfoldable pub extract_schema_version : Text → Option Text
extract_schema_version sql_content = search version_at sql_content

-- The row that was applied last of those that succeeded.
abbrev pub newer : VersionRow → Option VersionRow → Option VersionRow
newer r none = some r
newer r (some q) = if leb q.applied_at r.applied_at then some r else some q

unfoldable pub latest : List VersionRow → Option VersionRow
latest [] = none
latest (r ∷ rows) = let rest = latest rows in if is_success r.status then newer r rest else rest

unfoldable pub checksum_of : Text → List VersionRow → Option Text
checksum_of version [] = none
checksum_of version (r ∷ rows) =
    if text_eq r.version version then some r.checksum else checksum_of version rows

unfoldable pub has_version : Text → List VersionRow → Bool
has_version version [] = false
has_version version (r ∷ rows) = text_eq r.version version || has_version version rows

unfoldable pub update_version : Text → (VersionRow → VersionRow) → List VersionRow → List VersionRow
update_version version change [] = []
update_version version change (r ∷ rows) =
    (if text_eq r.version version then change r else r) ∷ update_version version change rows

-- INSERT INTO schema_versions ... ON CONFLICT (version) DO UPDATE SET ...
unfoldable pub upsert_version :
    VersionRow → (VersionRow → VersionRow) → List VersionRow → List VersionRow
upsert_version row change rows =
    if has_version row.version rows
    then update_version row.version change rows
    else rows ++ row ∷ []

abbrev pub version_of : Option VersionRow → Option Text
version_of none = none
version_of (some r) = some r.version

module _ {D : Type 0} where
  -- A statement on the table of versions.
  abbrev pub on_versions :
      {A : Type 0}
      → (List VersionRow → A × List VersionRow)
      → Option (List VersionRow)
      → D
      → Outcome (A × Database D)
  on_versions run none d = raised undefined_table
  on_versions run (some rows) d =
      let (a, rows') = run rows in ok (a, record { versions = some rows'; rest = d })

  abbrev pub with_versions :
      {A : Type 0} → (List VersionRow → A × List VersionRow) → Exec (Session (Database D)) A
  with_versions run = statement (λ db. on_versions run db.versions db.rest)

  unfoldable pub get_current_version : Exec (Session (Database D)) (Option Text)
  get_current_version =
      try_except (with_versions (λ rows. (version_of (latest rows), rows))) (λ e. pure none)

abbrev pub is_version : Option Text → Text → Bool
is_version none version = false
is_version (some current) version = text_eq current version

abbrev pub check_version : Option Text → Outcome Text
check_version none = raised missing_version
check_version (some file_version) = ok file_version

module _ {D : Type 0} (now : ℕ → ℕ) (elapsed : ℕ)
    (script : Text → Database D → Outcome (Database D)) (sha256 : Text → Text) where
  abbrev pub success_row : Text → Text → ℕ → VersionRow
  success_row file_version checksum at = record {
    version = file_version;
    description = codes "Applied schema version " ++ file_version;
    checksum = checksum;
    execution_time_ms = some elapsed;
    status = Status.success;
    applied_at = at;
  }

  abbrev pub succeed : Text → ℕ → VersionRow → VersionRow
  succeed checksum at r = record r {
    applied_at = at;
    checksum = checksum;
    execution_time_ms = some elapsed;
    status = Status.success;
  }

  pub record_success : Text → Text → Exec (Session (Database D)) (Unit {0})
  record_success file_version checksum s =
      let at = now s.transaction in
      with_versions
        (λ rows.
          (tt, upsert_version (success_row file_version checksum at) (succeed checksum at) rows))
        s

  pub record_failure : Text → Text → Exn → Exec (Session (Database D)) (Unit {0})
  record_failure file_version checksum e s =
      let at = now s.transaction in
      let row : VersionRow = record {
        version = file_version;
        description =
            codes "Failed to apply version " ++ file_version ++ codes ": " ++ take 200 e.message;
        checksum = checksum;
        execution_time_ms = none;
        status = Status.failed;
        applied_at = at;
      } in
      with_versions
        (λ rows.
          (tt, upsert_version row (λ r. record r { status = Status.failed; applied_at = at }) rows))
        s

  abbrev pub ran : Outcome (Database D) → Outcome (Unit {0} × Database D)
  ran (ok db) = ok (tt, db)
  ran (raised e) = raised e

  pub apply_schema : Text → Text → Text → Exec (Session (Database D)) (Unit {0})
  apply_schema sql_content file_version checksum =
      statement (λ db. ran (script sql_content db))
      >> record_success file_version checksum
      >> commit

  -- Whether the database is at this version with this checksum.
  pub is_applied : Text → Text → Option Text → Exec (Session (Database D)) Bool
  is_applied file_version checksum current_version =
      if is_version current_version file_version
      then with_versions (λ rows. (is_version (checksum_of file_version rows) checksum, rows))
      else pure false

  -- The body of the `try`.
  pub upgrade : Text → Text → Text → Exec (Session (Database D)) (Unit {0})
  upgrade sql_content file_version checksum = do
    current_version ← get_current_version
    applied ← is_applied file_version checksum current_version
    if applied then pure tt else apply_schema sql_content file_version checksum

  pub fail_upgrade : Text → Text → Exn → Exec (Session (Database D)) (Unit {0})
  fail_upgrade file_version checksum e =
      rollback
      >> try_except (record_failure file_version checksum e >> commit) (λ x. pure tt)
      >> raise creation_failed

  pub run_upgrade : Text → Text → Exec (Session (Database D)) (Unit {0})
  run_upgrade sql_content file_version =
      let checksum = sha256 sql_content in
      try_else (upgrade sql_content file_version checksum) pure (fail_upgrade file_version checksum)

  -- The file is read, and then the connection opened.
  unfoldable pub create_schema :
      Outcome Text → Outcome (Unit {0}) → Exec (Server (Database D)) (Unit {0})
  create_schema schema_file connect = do
    sql_content ← lift schema_file
    file_version ← lift (check_version (extract_schema_version sql_content))
    lift connect
    on_connection (run_upgrade sql_content file_version)
