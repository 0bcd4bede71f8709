-- ===== src/UseCases/Reprocess.antt =====
-- packages/core/use_cases/reprocess.py: `ReprocessUseCase.execute`.
pub mod Queued
use taboot.Prelude.{ℕ, codes, Bool, List, length, ltb, if◌then◌else◌}
use taboot.Python.{Exn, Kind, Exec, pure, raise, ◌>>=◌, ◌>>◌}
use taboot.Python.Loops.{for_each}
use taboot.Schemas.{Document, ExtractionState}
use taboot.DocumentStore
use taboot.World.{World, Env, now_utc, database}
use taboot.UseCases.Ports.{write_document}

-- The module's own protocol of a store.
pub record DatePort (S : Type 0) : Type 0 where
  pub query_by_date : ℕ → Exec S (List Document)
  pub update_document : Document → Exec S (Unit {0})

abbrev pub in_future : Exn
in_future = record { kind = Kind.value_error; message = codes "since_date cannot be in the future" }

module _ (env : Env) where
  abbrev pub postgres : DatePort World
  postgres = record {
    query_by_date = λ since. database env (DocumentStore.query_by_date since);
    update_document = write_document env;
  }

  module _ (store : DatePort World) where
    pub requeue : Document → Exec World (Unit {0})
    requeue doc = do
      now ← now_utc env
      store.update_document
          (record doc { extraction_state = ExtractionState.pending; updated_at = now })

    -- The `documents_queued` of the result.
    pub requeue_since : ℕ → Exec World ℕ
    requeue_since since_date = do
      documents ← store.query_by_date since_date
      for_each requeue documents
      pure (length documents)

    pub execute : ℕ → Exec World ℕ
    execute since_date = do
      now ← now_utc env
      if ltb now since_date then raise in_future else requeue_since since_date
