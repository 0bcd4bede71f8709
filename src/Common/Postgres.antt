-- ===== src/Common/Postgres.antt =====
-- Transactions of PostgreSQL, as the driver opens them: a statement that fails is undone and shuts its
-- transaction, in which every further statement is refused until it is rolled back. Transactions are
-- numbered, since `NOW()` is when one began. `D` is what the database holds.
use taboot.Prelude.{ℕ, ◌+◌, Text, codes, Bool, true, false, if◌then◌else◌}
use taboot.Python.{Kind, Exn, Outcome, ok, raised, Exec, modify}

-- What a connection sees: its transaction works on `current`.
pub record Session (D : Type 0) : Type 0 where
  pub committed : D
  pub current : D
  pub aborted : Bool
  pub transaction : ℕ

pub record Server (D : Type 0) : Type 0 where
  pub database : D
  pub transaction : ℕ

abbrev pub programming_error : Text → Exn
programming_error message = record { kind = Kind.programming_error; message = message }

abbrev pub in_failed_transaction : Exn
in_failed_transaction = programming_error (codes "current transaction is aborted")

module _ {D : Type 0} where
  abbrev pub rolled_back : Session D → Session D
  rolled_back s = record s {
    current = s.committed;
    aborted = false;
    transaction = s.transaction + 1;
  }

  abbrev pub rollback : Exec (Session D) (Unit {0})
  rollback = modify rolled_back

  -- Of a transaction that was shut, nothing is kept.
  abbrev pub commit : Exec (Session D) (Unit {0})
  commit = modify (λ s.
      if s.aborted
      then rolled_back s
      else record s { committed = s.current; transaction = s.transaction + 1 })

  abbrev pub settle_statement : {A : Type 0} → Outcome (A × D) → Session D → Outcome A × Session D
  settle_statement (ok (a, d)) s = (ok a, record s { current = d })
  settle_statement (raised e) s = (raised e, record s { aborted = true })

  abbrev pub run_unless : {A : Type 0} → Bool → (D → Outcome (A × D)) → Exec (Session D) A
  run_unless true run s = (raised in_failed_transaction, s)
  run_unless false run s = settle_statement (run s.current) s

  -- `cursor.execute(...)`
  unfoldable pub statement : {A : Type 0} → (D → Outcome (A × D)) → Exec (Session D) A
  statement run s = run_unless s.aborted run s

  abbrev pub open_session : Server D → Session D
  open_session s = record {
    committed = s.database;
    current = s.database;
    aborted = false;
    transaction = s.transaction;
  }

  abbrev pub close_session : {A : Type 0} → Outcome A × Session D → Outcome A × Server D
  close_session (r, s) = (r, record { database = s.committed; transaction = s.transaction + 1 })

  -- What runs on a connection that is closed at the end, without what was not committed.
  unfoldable pub on_connection : {A : Type 0} → Exec (Session D) A → Exec (Server D) A
  on_connection m s = close_session (m (open_session s))
