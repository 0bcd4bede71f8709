-- ===== src/UseCases/IngestWeb/Accounting.antt =====
-- How an ingestion ends, and the points that it leaves.
use taboot.Prelude.{
  ℕ, Text, ◌≡◌, refl, sym, ◌∙◌, true, inl, inr, Option, none, some, List, [], ◌∷◌, ◌++◌, is_empty,
  append-nil, if◌then◌else◌,
}
use taboot.Python.{Outcome, ok, raised, Exn, pure, try_else, ◌>>=◌, ◌>>◌}
use taboot.Python.Triples.{Post, Post-resume, Post-settle}
use taboot.Schemas.{has_length, Chunk, IngestionJob, JobError, JobState}
use taboot.World.{Env, now_utc, fresh_uuid}
use taboot.Ingest.Chunker.{Page}
use taboot.Vector.Writer.{PointStruct}
use taboot.UseCases.IngestWeb.{
  Site, Tools, Frame, on_world, on_site, create_job, transition_to_running, transition_to_completed,
  transition_to_failed, flush_chunks, process_pages, ingest_pages, ingest, fail_job, unframe,
  run_ingestion, execute, error_prefix,
}
use taboot.UseCases.IngestWeb.Kept.{IsFaithful}
use taboot.UseCases.IngestWeb.Counting.{
  Counted, Behind, Accounted, quiet, process_pages-Counted, flush_chunks-Counted,
}

module _ {F : Type 0} (env : Env) (tools : Tools F) (faithful : IsFaithful tools)
    (base : List (PointStruct F)) where
  -- The job that is returned is the current one.
  abbrev Completed : IngestionJob → Frame F → Type 0
  Completed job g = (job ≡ g.job) × (g.job.state ≡ JobState.completed) × Counted base g

  complete-Completed :
      (f : Frame F)
      → Counted base f
      → Post Completed (Behind base) (transition_to_completed env tools f)
  unfolding transition_to_completed on_site on_world now_utc ◌>>=◌ ◌>>◌
  complete-Completed f c = (refl, refl, c)

  ingest_pages-Completed :
      (url : Text) (docs : List Page) (f : Frame F)
      → Counted base f
      → Post Completed (Behind base) (ingest_pages env tools url docs f)
  unfolding ingest_pages ◌>>=◌ ◌>>◌
  ingest_pages-Completed url docs f c =
      Post-resume _ _ (λ _ g. Counted base g) (process_pages env tools url docs [] f) _
        (process_pages-Counted env tools faithful base url docs [] f c)
        (λ chunks g h.
          Post-resume {A = Unit} Completed (Behind base) (λ _ g. Counted base g)
            ((if is_empty chunks then pure tt else flush_chunks env tools chunks) g)
            (λ _. transition_to_completed env tools) (last chunks g h)
            (λ _ g' h'. complete-Completed g' h'))
    where
      last :
          (chunks : List Chunk) (g : Frame F)
          → Counted base g
          → Post
              (λ _ g. Counted base g)
              (Behind base)
              ((if is_empty chunks then pure tt else flush_chunks env tools chunks) g)
      last [] g h = h
      last (x ∷ xs) g h = flush_chunks-Counted env tools faithful base (x ∷ xs) g h

  ingest-Completed :
      (url : Text) (limit : Option ℕ) (f : Frame F)
      → Counted base f
      → Post Completed (Behind base) (ingest env tools url limit f)
  unfolding ingest transition_to_running on_site on_world now_utc ◌>>=◌ ◌>>◌
  ingest-Completed url limit f c =
      Post-resume {A = Unit} Completed (Behind base) (λ _ g. Counted base g)
        (transition_to_running env tools f) _ (started f c)
        (λ _ g h.
          Post-resume Completed (Behind base) (λ _ g'. Counted base g')
            (on_site (tools.load_data url limit) g) _
            (quiet env tools faithful base (tools.load_data url limit) g
              (record { at = λ s k. faithful.loads url limit s ∙ k }) h)
            (λ docs g' h'. loaded docs g' h'))
    where
      started :
          (f : Frame F)
          → Counted base f
          → Post (λ _ g. Counted base g) (Behind base) (transition_to_running env tools f)
      started f c = c

      loaded :
          (docs : List Page) (g : Frame F)
          → Counted base g
          → Post Completed (Behind base) (
              (if is_empty docs
                  then transition_to_completed env tools
                  else ingest_pages env tools url docs)
                g)
      loaded [] g h = complete-Completed g h
      loaded (doc ∷ docs) g h = ingest_pages-Completed url (doc ∷ docs) g h

  abbrev Never : Site F → Type 0
  Never _ = ⊥

  fail_job-Accounted :
      (e : Exn) (f : Frame F)
      → Behind base f
      → Post (λ job g. Accounted base job g.site) (λ _. ⊥) (fail_job env tools e f)
  unfolding fail_job transition_to_failed on_site on_world now_utc ◌>>=◌ ◌>>◌
  fail_job-Accounted e f (ps, at, n, none_yet) =
      let entry : JobError = record {
        error = error_prefix e.kind ++ e.message;
        timestamp = env.now f.site.world.ticks;
      } in
      (ps, at, inr (refl, n, entry, rw none_yet refl))

  run_ingestion-Accounted :
      (url : Text) (limit : Option ℕ) (job : IngestionJob) (s : Site F)
      → s.points ≡ base
      → job.chunks_created ≡ 0
      → job.errors ≡ none
      → Post (Accounted base) Never (run_ingestion env tools url limit job s)
  unfolding run_ingestion try_else
  run_ingestion-Accounted url limit job s at n e = out _ (
      Post-settle (λ job g. Accounted base job g.site) (λ _. ⊥) Completed (Behind base)
        (ingest env tools url limit (record { site = s; job = job })) pure (fail_job env tools)
        (ingest-Completed url limit (record { site = s; job = job })
          ([], at ∙ sym (append-nil base), n, e))
        (λ job g (same, done, (ps, k, m, x)). (ps, k, inl (rw same done, rw same m, rw same x)))
        fail_job-Accounted)
    where
      out :
          (r : Outcome IngestionJob × Frame F)
          → Post (λ job g. Accounted base job g.site) (λ _. ⊥) r
          → Post (Accounted base) Never (unframe env tools r)
      out (ok job, g) h = h
      out (raised x, g) h = h

-- Where the client's `upsert` appends the points that it is given or fails, nothing else touches the
-- collection, and the URL is not empty and has at most 2048 characters: `execute` always returns a
-- job, whatever the tools raise. Since the start the collection has only grown. A COMPLETED job
-- counts as many chunks as there are new points, and has no error; a FAILED one counts at most as
-- many, and has one error.
pub ingest_web-Accounted :
    {F : Type 0} (env : Env) (tools : Tools F)
    → IsFaithful tools
    → (url : Text) (limit job_id : Option ℕ) (s : Site F) → has_length 2048 url ≡ true
    → Post (Accounted s.points) (λ _. ⊥) (execute env tools url limit job_id s)
unfolding execute create_job on_world now_utc fresh_uuid ◌>>=◌
ingest_web-Accounted env tools faithful url limit none s valid =
    rw valid (run_ingestion-Accounted env tools faithful s.points url limit _ _ refl refl refl)
ingest_web-Accounted env tools faithful url limit (some i) s valid =
    rw valid (run_ingestion-Accounted env tools faithful s.points url limit _ _ refl refl refl)
