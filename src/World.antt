-- ===== src/World.antt =====
-- The services that the pipeline talks to, as one state, and what it takes from outside: the
-- clock, fresh UUIDs, and which calls fail. Each reading of the clock, each UUID and each call of a
-- service advances `ticks`, and the environment answers by the tick.
pub mod Kept
use taboot.Prelude.{ℕ, ◌+◌, Text, Option, none, some, List, [], ◌∷◌}
use taboot.Python.{Outcome, ok, raised, Exn, Exec, ◌>>=◌, ◌>>◌}
use taboot.Schemas.{ExtractionJob}
use taboot.DocumentStore.{Store}

pub record World : Type 0 where
  pub store : Store
  -- What was SET in Redis under `extraction_job:<id>` and under the cache's digests, the latest
  -- first: a GET finds the latest. The two kinds of keys never meet.
  pub jobs : List (ℕ × ExtractionJob)
  pub cache : List (Text × Text)
  pub ticks : ℕ

pub record Env : Type 0 where
  pub now : ℕ → ℕ
  pub uuid4 : ℕ → ℕ
  pub fault : ℕ → Option Exn

abbrev pub tick : World → World
tick w = record w { ticks = w.ticks + 1 }

module _ (env : Env) where
  -- `datetime.now(UTC)` and `uuid4()`
  unfoldable pub now_utc : Exec World ℕ
  now_utc w = (ok (env.now w.ticks), tick w)

  unfoldable pub fresh_uuid : Exec World ℕ
  fresh_uuid w = (ok (env.uuid4 w.ticks), tick w)

  abbrev answer : Option Exn → Exec World (Unit {0})
  answer none w = (ok tt, tick w)
  answer (some e) w = (raised e, tick w)

  -- A call of a service reaches it, or raises.
  unfoldable pub service : Exec World (Unit {0})
  service w = answer (env.fault w.ticks) w

  -- A statement sent to PostgreSQL; the method also reads the clock.
  abbrev pub on_store : {A : Type 0} → Outcome A × Store → World → Outcome A × World
  on_store (r, s) w = (r, record w { store = s })

  unfoldable pub database : {A : Type 0} → Exec Store A → Exec World A
  unfolding service ◌>>◌
  database m = service >> λ w. on_store (m w.store) w

  abbrev set_job : ℕ → ExtractionJob → Exec World (Unit {0})
  set_job i job w = (ok tt, record w { jobs = (i, job) ∷ w.jobs })

  -- SET extraction_job:<id>
  unfoldable pub save_job : ℕ → ExtractionJob → Exec World (Unit {0})
  unfolding service ◌>>◌
  save_job i job = service >> set_job i job
