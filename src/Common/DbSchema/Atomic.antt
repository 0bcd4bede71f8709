-- ===== src/Common/DbSchema/Atomic.antt =====
-- What `create_schema` does to the database, by how it ends.
use taboot.Prelude.{
  ℕ, Text, ◌≡◌, refl, ap, ◌∙◌, Bool, true, false, ◌⊎◌, inl, inr, Option, List, Bool-cases,
  Option-cases, if◌then◌else◌,
}
use taboot.Python.{Exn, Outcome, ok, raised, pure, lift, try_else, ◌>>=◌, ◌>>◌}
use taboot.Python.Triples.{Post, Post-resume, Post-settle}
use taboot.Common.DbSchema.Statements.{
  Holds, Holds-weaken, statement-Post, on_versions-read, on_versions-rest,
}
use taboot.Common.DbSchema.{
  ran, VersionRow, Database, extract_schema_version, latest, version_of, checksum_of, is_version,
  on_versions, with_versions, get_current_version, record_success, record_failure, apply_schema,
  is_applied, upgrade, fail_upgrade, run_upgrade, create_schema,
}
use taboot.Common.Postgres.{
  open_session, close_session, Server, Session, rolled_back, commit, statement, on_connection,
}

module _ {D : Type 0} (now : ℕ → ℕ) (elapsed : ℕ)
    (script : Text → Database D → Outcome (Database D)) (sha256 : Text → Text) (sql_content : Text)
    (before : Database D) where
  -- Nothing is done yet, and nothing was committed.
  abbrev Untouched : Session (Database D) → Type 0
  Untouched v = (v.committed ≡ before) × (v.current ≡ before)

  abbrev Uncommitted : Session (Database D) → Type 0
  Uncommitted v = v.committed ≡ before

  -- The script has run, or more: the row of its version stands.
  abbrev Scripted : Session (Database D) → Type 0
  Scripted v =
      (v.committed ≡ before)
      × (db : Database D) × (script sql_content before ≡ ok db)
      × (v.current.rest ≡ db.rest)

  -- The database is as it was, or as the script left it but for the versions.
  abbrev pub Upgraded : Database D → Type 0
  Upgraded after =
      (after ≡ before)
      ⊎ ((db : Database D) × (script sql_content before ≡ ok db) × (after.rest ≡ db.rest))

  abbrev pub Kept : Database D → Type 0
  Kept after = after.rest ≡ before.rest

  read-Untouched :
      {A : Type 0} (read : List VersionRow → A) (v : Session (Database D))
      → Untouched v
      → Post (λ _ u. Untouched u) Uncommitted (with_versions (λ rows. (read rows, rows)) v)
  read-Untouched read v (at, now_at) =
      statement-Post (λ _ u. Untouched u) Uncommitted
        (λ db. on_versions (λ rows. (read rows, rows)) db.versions db.rest) v
        (Holds-weaken _ _
          (on_versions (λ rows. (read rows, rows)) v.current.versions v.current.rest)
          (on_versions-read read v.current.versions v.current.rest)
          (λ a d same. (at, same ∙ now_at)))
        at at

  get_current_version-Untouched :
      (v : Session (Database D))
      → Untouched v
      → Post (λ _ u. Untouched u) Uncommitted (get_current_version v)
  unfolding get_current_version try_else
  get_current_version-Untouched v (at, now_at) =
      Post-settle (λ _ u. Untouched u) Uncommitted (λ _ u. Untouched u) Untouched
        (with_versions (λ rows. (version_of (latest rows), rows)) v) pure _
        (statement-Post (λ _ u. Untouched u) Untouched
          (λ db. on_versions (λ rows. (version_of (latest rows), rows)) db.versions db.rest) v
          (Holds-weaken _ _
            (on_versions (λ rows. (version_of (latest rows), rows)) v.current.versions
              v.current.rest)
            (on_versions-read (λ rows. version_of (latest rows)) v.current.versions v.current.rest)
            (λ a d same. (at, same ∙ now_at)))
          (at, now_at) (at, now_at))
        (λ a u h. h) (λ e u h. h)

  script-Scripted :
      (v : Session (Database D))
      → Untouched v
      → Post
          (λ _ u. Scripted u)
          Uncommitted
          (statement (λ db. ran now elapsed script sha256 (script sql_content db)) v)
  script-Scripted v (at, now_at) =
      statement-Post (λ _ u. Scripted u) Uncommitted _ v
        (rw now_at (go (script sql_content before) refl)) at at
    where
      go :
          (o : Outcome (Database D))
          → script sql_content before ≡ o
          → Holds
              (λ _ d.
                (v.committed ≡ before)
                × (db : Database D) × (script sql_content before ≡ ok db)
                × (d.rest ≡ db.rest))
              (ran now elapsed script sha256 o)
      go (ok db) e = (at, db, e, refl)
      go (raised x) e = tt

  record_success-Scripted :
      (version checksum : Text) (v : Session (Database D))
      → Scripted v
      → Post
          (λ _ u. Scripted u)
          Uncommitted
          (record_success now elapsed script sha256 version checksum v)
  unfolding record_success
  record_success-Scripted version checksum v (at, db, e, same) =
      statement-Post (λ _ u. Scripted u) Uncommitted _ v
        (Holds-weaken _ _ (on_versions _ v.current.versions v.current.rest)
          (on_versions-rest _ v.current.versions v.current.rest)
          (λ a d kept. (at, db, e, kept ∙ same)))
        at at

  apply_schema-Upgraded :
      (version checksum : Text) (v : Session (Database D))
      → Untouched v
      → Post
          (λ _ u. Upgraded u.committed)
          Uncommitted
          (apply_schema now elapsed script sha256 sql_content version checksum v)
  unfolding apply_schema ◌>>◌
  apply_schema-Upgraded version checksum v h =
      Post-resume (λ _ u. Upgraded u.committed) Uncommitted (λ _ u. Scripted u) _ (λ _. commit)
        (Post-resume (λ _ u. Scripted u) Uncommitted (λ _ u. Scripted u)
          (statement (λ db. ran now elapsed script sha256 (script sql_content db)) v) _
          (script-Scripted v h) (λ _ u k. record_success-Scripted version checksum u k))
        (λ _ u k. committed u k)
    where
      committed : (u : Session (Database D)) → Scripted u → Upgraded ((commit u).1.committed)
      committed u (at, db, e, same) = elim (Bool-cases u.aborted) [
        | inl shut ↦ rw shut (inl at)
        | inr working ↦ rw working (inr (db, e, same))
      ]

  upgrade-Upgraded :
      (version checksum : Text) (v : Session (Database D))
      → Untouched v
      → Post
          (λ _ u. Upgraded u.committed)
          Uncommitted
          (upgrade now elapsed script sha256 sql_content version checksum v)
  unfolding upgrade is_applied ◌>>=◌
  upgrade-Upgraded version checksum v h =
      Post-resume (λ _ u. Upgraded u.committed) Uncommitted (λ _ u. Untouched u)
        (get_current_version v) _ (get_current_version-Untouched v h)
        (λ current u k.
          Post-resume (λ _ u. Upgraded u.committed) Uncommitted (λ _ u. Untouched u)
            (is_applied now elapsed script sha256 version checksum current u) _
            (checked current u k) (λ applied w l. chosen applied w l))
    where
      checked :
          (current : Option Text) (u : Session (Database D))
          → Untouched u
          → Post
              (λ _ w. Untouched w)
              Uncommitted
              (is_applied now elapsed script sha256 version checksum current u)
      checked current u k = elim (Bool-cases (is_version current version)) [
        | inl same ↦
            rw same (read-Untouched (λ rows. is_version (checksum_of version rows) checksum) u k)
        | inr other ↦ rw other k
      ]

      chosen :
          (applied : Bool) (w : Session (Database D))
          → Untouched w
          → Post
              (λ _ u. Upgraded u.committed)
              Uncommitted
              ((if applied
                  then pure tt
                  else apply_schema now elapsed script sha256 sql_content version checksum)
                w)
      chosen true w (at, now_at) = inl at
      chosen false w l = apply_schema-Upgraded version checksum w l

  -- A failed row is all that a failure leaves.
  record_failure-Kept :
      (version checksum : Text) (e : Exn) (v : Session (Database D))
      → Untouched v
      → Post
          (λ _ u. Kept u.committed × Kept u.current)
          (λ u. Kept u.committed)
          (record_failure now elapsed script sha256 version checksum e v)
  unfolding record_failure
  record_failure-Kept version checksum e v (at, now_at) =
      statement-Post (λ _ u. Kept u.committed × Kept u.current) (λ u. Kept u.committed) _ v
        (Holds-weaken _ _ (on_versions _ v.current.versions v.current.rest)
          (on_versions-rest _ v.current.versions v.current.rest)
          (λ a d kept. (ap (λ db. db.rest) at, kept ∙ ap (λ db. db.rest) now_at)))
        (ap (λ db. db.rest) at) (ap (λ db. db.rest) at)

  fail_upgrade-Kept :
      (version checksum : Text) (e : Exn) (v : Session (Database D))
      → Uncommitted v
      → Post
          (λ _ _. ⊥)
          (λ u. Kept u.committed)
          (fail_upgrade now elapsed script sha256 version checksum e v)
  unfolding fail_upgrade try_else ◌>>◌
  fail_upgrade-Kept version checksum e v at =
      Post-resume {A = Unit} (λ _ _. ⊥) (λ u. Kept u.committed) (λ _ u. Kept u.committed) _ _
        (Post-settle {A = Unit} {B = Unit} (λ _ u. Kept u.committed) (λ u. Kept u.committed)
          (λ _ u. Kept u.committed) (λ u. Kept u.committed) _ pure (λ x. pure tt)
          (Post-resume {A = Unit} {B = Unit} (λ _ u. Kept u.committed) (λ u. Kept u.committed)
            (λ _ u. Kept u.committed × Kept u.current)
            (record_failure now elapsed script sha256 version checksum e (rolled_back v))
            (λ _. commit) (record_failure-Kept version checksum e (rolled_back v) (at, at))
            (λ _ u k. committed u k))
          (λ _ u k. k) (λ x u k. k))
        (λ _ u k. k)
    where
      committed :
          (u : Session (Database D))
          → Kept u.committed × Kept u.current
          → Kept ((commit u).1.committed)
      committed u (at, now_at) = elim (Bool-cases u.aborted) [
        | inl shut ↦ rw shut at
        | inr working ↦ rw working now_at
      ]

  run_upgrade-Upgraded :
      (version : Text) (v : Session (Database D))
      → Untouched v
      → Post
          (λ _ u. Upgraded u.committed)
          (λ u. Kept u.committed)
          (run_upgrade now elapsed script sha256 sql_content version v)
  unfolding run_upgrade try_else
  run_upgrade-Upgraded version v h =
      Post-settle (λ _ u. Upgraded u.committed) (λ u. Kept u.committed)
        (λ _ u. Upgraded u.committed) Uncommitted
        (upgrade now elapsed script sha256 sql_content version (sha256 sql_content) v) pure
        (fail_upgrade now elapsed script sha256 version (sha256 sql_content))
        (upgrade-Upgraded version (sha256 sql_content) v h) (λ _ u k. k)
        (λ e u k. refuse version e u k)
    where
      refuse :
          (version : Text) (e : Exn) (u : Session (Database D))
          → Uncommitted u
          → Post
              (λ _ u. Upgraded u.committed)
              (λ u. Kept u.committed)
              (fail_upgrade now elapsed script sha256 version (sha256 sql_content) e u)
      refuse version e u k = never _ (fail_upgrade-Kept version (sha256 sql_content) e u k)
        where
          never :
              (r : Outcome (Unit {0}) × Session (Database D))
              → Post (λ _ _. ⊥) (λ u. Kept u.committed) r
              → Post (λ _ u. Upgraded u.committed) (λ u. Kept u.committed) r
          never (ok a, w) k = absurd k
          never (raised e, w) k = k

  closed-Upgraded :
      (r : Outcome (Unit {0}) × Session (Database D))
      → Post (λ _ u. Upgraded u.committed) (λ u. Kept u.committed) r
      → Post (λ _ t. Upgraded t.database) (λ t. Kept t.database) (close_session r)
  closed-Upgraded (ok a, u) h = h
  closed-Upgraded (raised e, u) h = h

  connected-Upgraded :
      (version : Text) (connect : Outcome (Unit {0})) (n : ℕ)
      → Post
          (λ _ t. Upgraded t.database)
          (λ t. Kept t.database)
          ((lift connect >>= λ _.
              on_connection (run_upgrade now elapsed script sha256 sql_content version))
            (record { database = before; transaction = n }))
  unfolding on_connection ◌>>=◌
  connected-Upgraded version (ok a) n = closed-Upgraded _ (
      run_upgrade-Upgraded version (open_session (record { database = before; transaction = n }))
        (refl, refl))
  connected-Upgraded version (raised e) n = refl

-- However it ends, `create_schema` is all or nothing but for the table of versions: if it returns,
-- the database is as before or as the whole script left it; if it raises, it is as before.
pub create_schema-Upgraded :
    {D : Type 0} (now : ℕ → ℕ) (elapsed : ℕ) (script : Text → Database D → Outcome (Database D))
    (sha256 : Text → Text) (sql_content : Text) (connect : Outcome (Unit {0}))
    (s : Server (Database D))
    → Post
        (λ _ t.
          (t.database ≡ s.database)
          ⊎ ((db : Database D) × (script sql_content s.database ≡ ok db)
              × (t.database.rest ≡ db.rest)))
        (λ t. t.database.rest ≡ s.database.rest)
        (create_schema now elapsed script sha256 (ok sql_content) connect s)
unfolding create_schema ◌>>=◌ ◌>>◌
create_schema-Upgraded now elapsed script sha256 sql_content connect s =
    elim (Option-cases (extract_schema_version sql_content)) [
      | inl missing ↦ rw missing refl
      | inr (version, there) ↦ rw there (
          connected-Upgraded now elapsed script sha256 sql_content s.database version connect
            s.transaction)
    ]
