-- ===== src/UseCases/IngestWeb/Counting.antt =====
-- What the points and the counts of a job are while its pages are processed.
use taboot.Prelude.{
  ℕ, ◌+◌, ◌≤◌, Text, ◌≡◌, refl, sym, ◌∙◌, ◌⊎◌, inl, inr, none, some, List, [], ◌∷◌, ◌++◌, map,
  length, length-append, leb, append-nil, append_assoc, Bool-cases, arith,
}
use taboot.Python.{Outcome, ok, raised, Exec, ◌>>=◌, ◌>>◌}
use taboot.Python.Triples.{Post, Post-resume, Post-weaken, Post-preserved, Preserves}
use taboot.Schemas.{Chunk, IngestionJob, JobError, JobState}
use taboot.World.{Env}
use taboot.Ingest.Chunker.{Page}
use taboot.Ingest.Embedder.{embed_texts}
use taboot.Vector.Writer.{PointStruct, upsert_batch}
use taboot.Vector.Writer.Stored.{More, Added, upsert_batch-stores}
use taboot.UseCases.IngestWeb.{
  Site, Tools, Frame, on_site, process_page, write_chunks, flush_chunks, flush_full, process_pages,
}
use taboot.UseCases.IngestWeb.Kept.{IsFaithful, process_page-Preserves, embed-Preserves}

module _ {F : Type 0} (base : List (PointStruct F)) where
  -- The points since `base` are the chunks that the job counts.
  abbrev pub Counted : Frame F → Type 0
  Counted f =
      (ps : List (PointStruct F)) × (f.site.points ≡ base ++ ps)
      × (f.job.chunks_created ≡ length ps)
      × (f.job.errors ≡ none)

  -- There may be more points than the job counts.
  abbrev pub Behind : Frame F → Type 0
  Behind f =
      (ps : List (PointStruct F)) × (f.site.points ≡ base ++ ps)
      × (f.job.chunks_created ≤ length ps)
      × (f.job.errors ≡ none)

  abbrev pub Accounted : IngestionJob → Site F → Type 0
  Accounted job s =
      (ps : List (PointStruct F)) × (s.points ≡ base ++ ps)
      × (((job.state ≡ JobState.completed) × (job.chunks_created ≡ length ps) × (job.errors ≡ none))
          ⊎ ((job.state ≡ JobState.failed)
              × (job.chunks_created ≤ length ps)
              × (e : JobError) × (job.errors ≡ some (e ∷ []))))

  Counted-Behind : (f : Frame F) → Counted f → Behind f
  Counted-Behind f (ps, at, n, e) = (ps, at, omega arith, e)

  Counted-same :
      (f g : Frame F) → g.site.points ≡ f.site.points → g.job ≡ f.job → Counted f → Counted g
  Counted-same f g same job (ps, at, n, e) = (ps, same ∙ at, rw job n, rw job e)

  Counted-Added :
      (f g : Frame F) (k : ℕ)
      → Added (λ (s : Site F). s.points) k f.site g.site
      → g.job ≡ f.job
      → Counted f
      → Counted (record g { job = record g.job { chunks_created = g.job.chunks_created + k } })
  Counted-Added f g k (qs, more, m) job (ps, at, n, e) = (
    ps ++ qs,
    more ∙ rw at (append_assoc base ps qs),
    (let same : g.job.chunks_created ≡ length ps = rw job n in
        omega (arith, same, m, length-append ps qs)),
    rw job e,
  )

  Behind-More :
      (f g : Frame F)
      → More (λ (s : Site F). s.points) f.site g.site
      → g.job ≡ f.job
      → Counted f
      → Behind g
  Behind-More f g (qs, more) job (ps, at, n, e) = (
    ps ++ qs,
    more ∙ rw at (append_assoc base ps qs),
    (let same : g.job.chunks_created ≡ length ps = rw job n in
        omega (arith, same, length-append ps qs)),
    rw job e,
  )

-- An action on the site leaves the job alone.
on_site-Post :
    {F A : Type 0} (Q : A → Site F → Type 0) (E : Site F → Type 0) (m : Exec (Site F) A)
    (f : Frame F)
    → Post Q E (m f.site)
    → Post (λ a g. Q a g.site × (g.job ≡ f.job)) (λ g. E g.site × (g.job ≡ f.job)) (on_site m f)
unfolding on_site
on_site-Post {F = F} {A = A} Q E m f h = go (m f.site) h
  where
    go :
        (p : Outcome A × Site F)
        → Post Q E p
        → Post
            (λ a g. Q a g.site × (g.job ≡ f.job))
            (λ g. E g.site × (g.job ≡ f.job))
            (p.0, record f { site = p.1 })
    go (ok a, s) q = (q, refl)
    go (raised e, s) q = (q, refl)

module _ {F : Type 0} (env : Env) (tools : Tools F) (faithful : IsFaithful tools)
    (base : List (PointStruct F)) where
  -- An action that leaves the collection and the job alone.
  pub quiet :
      {A : Type 0} (m : Exec (Site F) A) (f : Frame F)
      → Preserves (λ s. s.points ≡ f.site.points) m
      → Counted base f
      → Post (λ _ g. Counted base g) (Behind base) (on_site m f)
  quiet m f k c =
      Post-weaken _ _ _ _ (on_site m f)
        (on_site-Post (λ _ s. s.points ≡ f.site.points) (λ s. s.points ≡ f.site.points) m f
          (Post-preserved (λ s. s.points ≡ f.site.points) m f.site k refl))
        (λ a g (same, job). Counted-same base f g same job c)
        (λ g (same, job). Counted-Behind base g (Counted-same base f g same job c))

  write_chunks-Added :
      (chunks : List Chunk) (s : Site F)
      → Post
          (λ _ v. Added (λ (s : Site F). s.points) (length chunks) s v)
          (More (λ (s : Site F). s.points) s)
          (write_chunks env tools chunks s)
  unfolding write_chunks ◌>>=◌
  write_chunks-Added chunks s =
      Post-resume _ _ (λ _ v. v.points ≡ s.points)
        (embed_texts tools.post tools.embed_batch_size tools.expected_dim
          (map (λ c. c.content) chunks) s)
        _
        (Post-weaken _ _ _ _
          (embed_texts tools.post tools.embed_batch_size tools.expected_dim
            (map (λ c. c.content) chunks) s)
          (Post-preserved (λ v. v.points ≡ s.points) _ s
            (embed-Preserves env tools faithful s.points (map (λ c. c.content) chunks)) refl)
          (λ a v h. h) (λ v h. ([], h ∙ sym (append-nil s.points))))
        (λ vs v h.
          Post-weaken _ _ _ _ (upsert_batch tools.upsert tools.write_batch_size chunks vs v)
            (upsert_batch-stores (λ (s : Site F). s.points) tools.upsert tools.write_batch_size
              faithful.upserts faithful.batched chunks vs v)
            (λ a u (ps, k, n). (ps, k ∙ rw h refl, n)) (λ u (ps, k). (ps, k ∙ rw h refl)))

  pub flush_chunks-Counted :
      (chunks : List Chunk) (f : Frame F)
      → Counted base f
      → Post (λ _ g. Counted base g) (Behind base) (flush_chunks env tools chunks f)
  unfolding flush_chunks ◌>>◌
  flush_chunks-Counted chunks f c =
      Post-resume _ _
        (λ _ g. Added (λ (s : Site F). s.points) (length chunks) f.site g.site × (g.job ≡ f.job))
        (on_site (write_chunks env tools chunks) f) _
        (Post-weaken _ _ _ _ (on_site (write_chunks env tools chunks) f)
          (on_site-Post (λ _ v. Added (λ (s : Site F). s.points) (length chunks) f.site v)
            (More (λ (s : Site F). s.points) f.site) (write_chunks env tools chunks) f
            (write_chunks-Added chunks f.site))
          (λ a g h. h) (λ g (more, job). Behind-More base f g more job c))
        (λ _ g (added, job). Counted-Added base f g (length chunks) added job c)

  flush_full-Counted :
      (chunks : List Chunk) (f : Frame F)
      → Counted base f
      → Post (λ _ g. Counted base g) (Behind base) (flush_full env tools chunks f)
  unfolding flush_full ◌>>◌
  flush_full-Counted chunks f c = elim (Bool-cases (leb tools.flush_threshold (length chunks))) [
    | inl full ↦ rw full (
        Post-resume _ _ (λ _ g. Counted base g) (flush_chunks env tools chunks f) _
          (flush_chunks-Counted chunks f c) (λ _ g h. h))
    | inr room ↦ rw room c
  ]

  pub process_pages-Counted :
      (url : Text) (docs : List Page) (chunks : List Chunk) (f : Frame F)
      → Counted base f
      → Post (λ _ g. Counted base g) (Behind base) (process_pages env tools url docs chunks f)
  unfolding process_pages ◌>>=◌ ◌>>◌
  process_pages-Counted url [] chunks f c = c
  process_pages-Counted url (doc ∷ docs) chunks f c =
      Post-resume _ _ (λ _ g. Counted base g) (on_site (process_page env tools url doc) f) _
        (quiet (process_page env tools url doc) f
          (process_page-Preserves env tools faithful f.site.points url doc) c)
        (λ more g h.
          let counted : Frame F = record g {
            job = record g.job { pages_processed = g.job.pages_processed + 1 };
          } in
          Post-resume _ _ (λ _ g. Counted base g) (flush_full env tools (chunks ++ more) counted) _
            (flush_full-Counted (chunks ++ more) counted h)
            (λ pending g' h'. process_pages-Counted url docs pending g' h'))
