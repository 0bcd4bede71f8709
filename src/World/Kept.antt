-- ===== src/World/Kept.antt =====
-- What the calls of the services leave alone.
use taboot.Prelude.{ℕ, ◌∷◌, inl, inr, Option-cases}
use taboot.Python.{Exec}
use taboot.Python.Triples.{Preserves}
use taboot.Schemas.{ExtractionJob}
use taboot.DocumentStore.{Store}
use taboot.World.{World, Env, tick, now_utc, fresh_uuid, service, database, save_job}

module _ (env : Env) (P : World → Type 0) (P-tick : (w : World) → P w → P (tick w)) where
  pub Preserves-now_utc : Preserves P (now_utc env)
  unfolding now_utc
  Preserves-now_utc = record { at = P-tick }

  pub Preserves-fresh_uuid : Preserves P (fresh_uuid env)
  unfolding fresh_uuid
  Preserves-fresh_uuid = record { at = P-tick }

  pub Preserves-service : Preserves P (service env)
  unfolding service
  Preserves-service = record {
    at = λ w h. elim (Option-cases (env.fault w.ticks)) [
      | inl up ↦ rw up (P-tick w h)
      | inr (e, down) ↦ rw down (P-tick w h)
    ];
  }

  -- A statement keeps what its effect on the tables keeps.
  pub Preserves-database :
      {A : Type 0} (m : Exec Store A)
      → ((w : World) → P w → P (record w { store = (m w.store).1 }))
      → Preserves P (database env m)
  unfolding database
  Preserves-database m k = record {
    at = λ w h. elim (Option-cases (env.fault w.ticks)) [
      | inl up ↦ rw up (k (tick w) (P-tick w h))
      | inr (e, down) ↦ rw down (P-tick w h)
    ];
  }

  pub Preserves-save_job :
      (i : ℕ) (job : ExtractionJob)
      → ((w : World) → P w → P (record w { jobs = (i, job) ∷ w.jobs }))
      → Preserves P (save_job env i job)
  unfolding save_job
  Preserves-save_job i job k = record {
    at = λ w h. elim (Option-cases (env.fault w.ticks)) [
      | inl up ↦ rw up (k (tick w) (P-tick w h))
      | inr (e, down) ↦ rw down (P-tick w h)
    ];
  }
