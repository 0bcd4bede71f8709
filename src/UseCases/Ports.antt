-- ===== src/UseCases/Ports.antt =====
-- The protocol `DocumentStore` of the use cases, and PostgreSQL's store behind it.
use taboot.Prelude.{ℕ, Text, Option, List}
use taboot.Python.{Exec, ◌>>=◌}
use taboot.Schemas.{Document}
use taboot.DocumentStore
use taboot.World.{World, Env, now_utc, database}

pub record DocumentPort (S : Type 0) : Type 0 where
  pub query_pending : Option ℕ → Exec S (List Document)
  pub get_content : ℕ → Exec S Text
  pub update_document : Document → Exec S (Unit {0})

module _ (env : Env) where
  -- `update_document` reads the clock for `updated_at`.
  unfoldable pub write_document : Document → Exec World (Unit {0})
  write_document d = do now ← now_utc env; database env (DocumentStore.update_document now d)

  abbrev pub postgres : DocumentPort World
  postgres = record {
    query_pending = λ limit. database env (DocumentStore.query_pending limit);
    get_content = λ i. database env (DocumentStore.get_content i);
    update_document = write_document;
  }
