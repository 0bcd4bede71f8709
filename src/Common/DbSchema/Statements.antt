-- ===== src/Common/DbSchema/Statements.antt =====
-- What a statement leaves of a session.
use taboot.Prelude.{Bool, true, false, Option, none, some, List, ◌≡◌, refl}
use taboot.Python.{Outcome, ok, raised}
use taboot.Python.Triples.{Post}
use taboot.Common.DbSchema.{VersionRow, Database, on_versions}
use taboot.Common.Postgres.{Session, settle_statement, run_unless, statement}

-- `P` of what a statement returns and of the database behind it, if it does not fail.
abbrev pub Holds : {A D : Type 0} → (A → D → Type 0) → Outcome (A × D) → Type 0
Holds P (ok (a, d)) = P a d
Holds P (raised e) = Unit {0}

module _ {D A : Type 0} where
  pub statement-Post :
      (Q : A → Session (Database D) → Type 0) (E : Session (Database D) → Type 0)
      (run : Database D → Outcome (A × Database D)) (v : Session (Database D))
      → Holds (λ a d. Q a (record v { current = d })) (run v.current)
      → E v
      → E (record v { aborted = true })
      → Post Q E (statement run v)
  unfolding statement
  statement-Post Q E run v h shut fails = go v.aborted
    where
      settled :
          (o : Outcome (A × Database D))
          → Holds (λ a d. Q a (record v { current = d })) o
          → Post Q E (settle_statement o v)
      settled (ok (a, d)) k = k
      settled (raised e) k = fails

      go : (b : Bool) → Post Q E (run_unless b run v)
      go true = shut
      go false = settled (run v.current) h

  -- A query changes nothing.
  pub on_versions-read :
      (read : List VersionRow → A) (o : Option (List VersionRow)) (d : D)
      → Holds
          (λ _ db. db ≡ record { versions = o; rest = d })
          (on_versions (λ rows. (read rows, rows)) o d)
  on_versions-read read none d = tt
  on_versions-read read (some rows) d = refl

  -- Nothing outside the table of versions changes.
  pub on_versions-rest :
      (run : List VersionRow → A × List VersionRow) (o : Option (List VersionRow)) (d : D)
      → Holds (λ _ db. db.rest ≡ d) (on_versions run o d)
  on_versions-rest run none d = tt
  on_versions-rest run (some rows) d = refl

  pub Holds-weaken :
      (P Q : A → D → Type 0) (o : Outcome (A × D))
      → Holds P o
      → ((a : A) (d : D) → P a d → Q a d)
      → Holds Q o
  Holds-weaken P Q (ok (a, d)) h k = k a d h
  Holds-weaken P Q (raised e) h k = tt
