-- ===== src/UseCases/IngestWeb/Timed.antt =====
-- When a job starts and ends, by the readings of the clock.
use taboot.Prelude.{
  ℕ, suc, ◌+◌, ◌≤◌, ◌<◌, ◌≡◌, refl, ◌∙◌, Text, Option, some, inl, inr, List, [], ◌∷◌, ◌++◌, map,
  length, leb, is_empty, true, Option-cases, arith, if◌then◌else◌,
}
use taboot.Python.{Outcome, Exn, ok, raised, Exec, pure, try_else, ◌>>=◌, ◌>>◌}
use taboot.Python.Triples.{
  Post, Post-resume, Post-settle, Post-preserved, Preserves, Preserves-pure, Preserves-if,
  Preserves-bind, Preserves-then,
}
use taboot.Schemas.{has_length, Chunk, Document, IngestionJob}
use taboot.DocumentStore.{Store}
use taboot.World.{Env, now_utc, fresh_uuid, service, database}
use taboot.Ingest.Chunker.{Page}
use taboot.Vector.Writer.{PointStruct}
use taboot.Vector.Writer.Kept.{upsert_batch-Preserves}
use taboot.UseCases.IngestWeb.{
  Site, Tools, Frame, on_world, on_site, change_job, create_job, transition_to_running,
  transition_to_completed, transition_to_failed, write_chunks, flush_chunks, flush_full,
  process_page, process_pages, ingest_pages, ingest, fail_job, unframe, run_ingestion, execute,
}
use taboot.UseCases.IngestWeb.Kept.{IsInert, page-Preserves, vectors-Preserves}

-- The clock was read so often at least.
abbrev pub After : {F : Type 0} → ℕ → Site F → Type 0
After k s = k ≤ s.world.ticks

-- No tool takes readings of the clock back.
pub record IsPatient {F : Type 0} (tools : Tools F) : Type 0 where
  pub loads :
      (k : ℕ) (url : Text) (limit : Option ℕ) → Preserves (After k) (tools.load_data url limit)
  pub posts : (k : ℕ) (texts : List Text) → Preserves (After k) (tools.post texts)
  pub calls :
      (k : ℕ) (callback : Document → ℕ → Exec (Site F) (Unit {0}))
      → tools.document_ingested_callback ≡ some callback
      → (d : Document) (n : ℕ) → Preserves (After k) (callback d n)
  pub upserts : (k : ℕ) (ps : List (PointStruct F)) → Preserves (After k) (tools.upsert ps)

module _ {F : Type 0} (env : Env) (tools : Tools F) (patient : IsPatient tools) where
  database-After :
      (k : ℕ) (m : Exec Store (Unit {0})) → Preserves (After {F = F} k) (on_world (database env m))
  unfolding on_world database service ◌>>◌
  database-After k m = record {
    at = λ s h. elim (Option-cases (env.fault s.world.ticks)) [
      | inl up ↦ rw up (omega arith)
      | inr (e, down) ↦ rw down (omega arith)
    ];
  }

  after-IsInert : (k : ℕ) → IsInert env tools (After k)
  unfolding on_world now_utc fresh_uuid
  after-IsInert k = record {
    clock = record { at = λ s h. omega arith };
    uuids = record { at = λ s h. omega arith };
    stores = database-After k;
    posts = patient.posts k;
    calls = patient.calls k;
  }

  write_chunks-After :
      (chunks : List Chunk) (k : ℕ) → Preserves (After k) (write_chunks env tools chunks)
  unfolding write_chunks
  write_chunks-After chunks k =
      Preserves-bind _ _
        (vectors-Preserves env tools (after-IsInert k) (map (λ c. c.content) chunks))
        (λ embeddings.
          upsert_batch-Preserves tools.upsert tools.write_batch_size (After k) (patient.upserts k)
            chunks embeddings)

-- The job `i` was started since the reading `base`, and then ended.
abbrev pub Ended : Env → ℕ → ℕ → IngestionJob → Type 0
Ended env i base job =
    (k l : ℕ) × (base ≤ k)
    × (k ≤ l)
    × (job.started_at ≡ some (env.now k))
    × (job.completed_at ≡ some (env.now l))
    × (job.job_id ≡ i)

module _ {F : Type 0} (env : Env) (i base : ℕ) where
  -- The job `i` was started since the reading `base`.
  abbrev pub Begun : Frame F → Type 0
  Begun f =
      (k : ℕ) × (base ≤ k)
      × (k < f.site.world.ticks)
      × (f.job.started_at ≡ some (env.now k))
      × (f.job.job_id ≡ i)

  on_site-Begun :
      {A : Type 0} (m : Exec (Site F) A)
      → ((k : ℕ) → Preserves (After k) m)
      → Preserves Begun (on_site m)
  unfolding on_site
  on_site-Begun m later = record {
    at = λ f (k, from, at, started, own). (
      k,
      from,
      (let h : suc k ≤ (m f.site).1.world.ticks = (later (suc k)).at f.site (omega arith) in
          omega arith),
      started,
      own,
    );
  }

  change_job-Begun :
      (g : IngestionJob → IngestionJob)
      → ((job : IngestionJob) → (g job).started_at ≡ job.started_at)
      → ((job : IngestionJob) → (g job).job_id ≡ job.job_id)
      → Preserves Begun (change_job g)
  change_job-Begun g same own = record {
    at = λ f (k, from, at, started, id). (k, from, at, same f.job ∙ started, own f.job ∙ id);
  }

module _ {F : Type 0} (env : Env) (tools : Tools F) (patient : IsPatient tools) (i base : ℕ) where
  flush_chunks-Begun :
      (chunks : List Chunk) → Preserves (Begun env i base) (flush_chunks env tools chunks)
  unfolding flush_chunks
  flush_chunks-Begun chunks =
      Preserves-then _ _
        (on_site-Begun env i base (write_chunks env tools chunks)
          (write_chunks-After env tools patient chunks))
        (change_job-Begun env i base _ (λ job. refl) (λ job. refl))

  flush_full-Begun :
      (chunks : List Chunk) → Preserves (Begun env i base) (flush_full env tools chunks)
  unfolding flush_full
  flush_full-Begun chunks =
      Preserves-if (leb tools.flush_threshold (length chunks)) _ _
        (Preserves-then _ _ (flush_chunks-Begun chunks) (Preserves-pure [])) (Preserves-pure chunks)

  process_pages-Begun :
      (url : Text) (docs : List Page) (chunks : List Chunk)
      → Preserves (Begun env i base) (process_pages env tools url docs chunks)
  unfolding process_pages
  process_pages-Begun url [] chunks = Preserves-pure chunks
  process_pages-Begun url (doc ∷ docs) chunks =
      Preserves-bind _ _
        (on_site-Begun env i base (process_page env tools url doc)
          (λ k. page-Preserves env tools (after-IsInert env tools patient k) url doc))
        (λ more. Preserves-then _ _ (change_job-Begun env i base _ (λ job. refl) (λ job. refl)) (
          Preserves-bind _ _ (flush_full-Begun (chunks ++ more))
            (λ pending. process_pages-Begun url docs pending)))

  -- How the body of the `try` ends.
  abbrev Ends : Outcome IngestionJob × Frame F → Type 0
  Ends = Post (λ job f. Ended env i base job) (Begun env i base)

  complete-Ended : (f : Frame F) → Begun env i base f → Ends (transition_to_completed env tools f)
  unfolding transition_to_completed on_site on_world now_utc ◌>>=◌ ◌>>◌
  complete-Ended f (k, from, at, started, own) =
      (k, f.site.world.ticks, from, omega arith, started, refl, own)

  ingest_pages-Ended :
      (url : Text) (docs : List Page) (f : Frame F)
      → Begun env i base f
      → Ends (ingest_pages env tools url docs f)
  unfolding ingest_pages ◌>>=◌ ◌>>◌
  ingest_pages-Ended url docs f h =
      Post-resume (λ job f. Ended env i base job) (Begun env i base) (λ _ g. Begun env i base g)
        (process_pages env tools url docs [] f) _
        (Post-preserved (Begun env i base) _ f (process_pages-Begun url docs []) h)
        (λ chunks g k.
          Post-resume {A = Unit} (λ job f. Ended env i base job) (Begun env i base)
            (λ _ g. Begun env i base g)
            ((if is_empty chunks then pure tt else flush_chunks env tools chunks) g) _
            (Post-preserved (Begun env i base) _ g
              (Preserves-if (is_empty chunks) _ _ (Preserves-pure tt) (flush_chunks-Begun chunks))
              k)
            (λ _ g' k'. complete-Ended g' k'))

  loaded-Ended :
      (url : Text) (docs : List Page) (f : Frame F)
      → Begun env i base f
      → Ends (
          (if is_empty docs
              then transition_to_completed env tools
              else ingest_pages env tools url docs)
            f)
  loaded-Ended url [] f h = complete-Ended f h
  loaded-Ended url (doc ∷ docs) f h = ingest_pages-Ended url (doc ∷ docs) f h

  ingest-Ended :
      (url : Text) (limit : Option ℕ) (f : Frame F)
      → base ≤ f.site.world.ticks
      → f.job.job_id ≡ i
      → Ends (ingest env tools url limit f)
  unfolding ingest transition_to_running on_site on_world now_utc ◌>>=◌ ◌>>◌
  ingest-Ended url limit f from own =
      let g : Frame F = (transition_to_running env tools f).1 in
      Post-resume (λ job f. Ended env i base job) (Begun env i base) (λ _ g. Begun env i base g)
        (on_site (tools.load_data url limit) g) _
        (Post-preserved (Begun env i base) _ g
          (on_site-Begun env i base (tools.load_data url limit) (λ k. patient.loads k url limit))
          (f.site.world.ticks, from, omega arith, refl, own))
        (λ docs g' h. loaded-Ended url docs g' h)

  fail_job-Ended :
      (e : Exn) (f : Frame F)
      → Begun env i base f
      → Post (λ job f. Ended env i base job) (λ _. ⊥) (fail_job env tools e f)
  unfolding fail_job transition_to_failed on_site on_world now_utc ◌>>=◌ ◌>>◌
  fail_job-Ended e f (k, from, at, started, own) =
      (k, f.site.world.ticks + 1, from, omega arith, started, refl, own)

  run_ingestion-Ended :
      (url : Text) (limit : Option ℕ) (job : IngestionJob) (s : Site F)
      → base ≤ s.world.ticks
      → job.job_id ≡ i
      → Post (λ job s. Ended env i base job) (λ _. ⊥) (run_ingestion env tools url limit job s)
  unfolding run_ingestion try_else
  run_ingestion-Ended url limit job s from own = out _ (
      Post-settle (λ job f. Ended env i base job) (λ _. ⊥) (λ job f. Ended env i base job)
        (Begun env i base) (ingest env tools url limit (record { site = s; job = job })) pure
        (fail_job env tools) (ingest-Ended url limit (record { site = s; job = job }) from own)
        (λ job g h. h) fail_job-Ended)
    where
      out :
          (r : Outcome IngestionJob × Frame F)
          → Post (λ job f. Ended env i base job) (λ _. ⊥) r
          → Post (λ job s. Ended env i base job) (λ _. ⊥) (unframe env tools r)
      out (ok job, g) h = h
      out (raised x, g) h = h

  pub execute-Ended :
      (url : Text) (limit : Option ℕ) (s : Site F)
      → has_length 2048 url ≡ true
      → base ≤ s.world.ticks
      → Post (λ job s. Ended env i base job) (λ _. ⊥) (execute env tools url limit (some i) s)
  unfolding execute create_job on_world now_utc ◌>>=◌
  execute-Ended url limit s valid from =
      rw valid (run_ingestion-Ended url limit _ _ (omega arith) refl)
