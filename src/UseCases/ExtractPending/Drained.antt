-- ===== src/UseCases/ExtractPending/Drained.antt =====
-- What becomes of a pending document while the services answer.
use mathlib.Core.Option
use taboot.Prelude.{
  ℕ, ◌+◌, Text, ◌≡◌, ◌∙◌, Bool, true, false, ◌||◌, Option, none, some, inl, inr, List, [], ◌∷◌,
  filter, is_empty, ◌==◌, ==_sound, Bool-cases, if◌then◌else◌, arith,
}
use taboot.Python.{Outcome, ok, raised, Exec, pure, try_else, ◌>>=◌, ◌>>◌}
use taboot.Python.Triples.{Post, Post-resume, Post-settle, Post-weaken}
use taboot.Schemas.{Document, ExtractionState, ExtractionJob}
use taboot.DocumentStore.{
  Store, has_id, content_of, order_by, oldest_first, in_state, set_columns, query_pending,
  get_content, found_or_key_error, update_document,
}
use taboot.DocumentStore.Updates.{find_document, find_document-update}
use taboot.World.{World, Env, now_utc, service, database, on_store, tick}
use taboot.UseCases.Ports.{postgres, write_document}
use taboot.UseCases.Reprocess.Queued.{InState, has_id-order_by, has_id-filter}
use taboot.UseCases.ExtractPending.{
  Summary, nothing_done, extract_document, count_job, count_error, extract_documents, execute,
}

abbrev pub IsDone : ExtractionState → Type 0
IsDone state = state ≡ ExtractionState.pending → ⊥

abbrev AnyState : ExtractionState → Type 0
AnyState state = Unit {0}

-- PostgreSQL answers, and an extraction returns a job that is no longer pending, without touching
-- the documents.
pub record IsUp (env : Env) (process_document : ℕ → Text → Exec World ExtractionJob) : Type 0 where
  pub up : (t : ℕ) → env.fault t ≡ none
  pub settles :
      (i : ℕ) (content : Text) (w : World)
      → Post
          (λ job v. IsDone job.state × (v.store ≡ w.store))
          (λ _. ⊥)
          (process_document i content w)

module _ (env : Env) (process_document : ℕ → Text → Exec World ExtractionJob)
    (working : IsUp env process_document) (i : ℕ) (t : Text) where
  -- The row is there, in such a state, and so is its content.
  abbrev Row : (ExtractionState → Type 0) → World → Type 0
  Row P w = InState P (find_document i w.store.documents) × (content_of i w.store.contents ≡ some t)

  set_state :
      (P : ExtractionState → Type 0) (now : ℕ) (d : Document)
      → P d.extraction_state
      → (o : Option Document) (b : Bool) → InState P o
      → InState P (if b then Option.map (set_columns now d) o else o)
  set_state P now d p none b h = absurd h
  set_state P now d p (some row) true h = p
  set_state P now d p (some row) false h = h

  set-IsDone :
      (now : ℕ) (d : Document)
      → IsDone d.extraction_state
      → (o : Option Document) → InState AnyState o
      → InState IsDone (Option.map (set_columns now d) o)
  set-IsDone now d p none h = absurd h
  set-IsDone now d p (some row) h = p

  on_store-Row :
      (P : ExtractionState → Type 0) (r : Outcome (Unit {0}) × Store) (w : World)
      → InState P (find_document i r.1.documents) × (content_of i r.1.contents ≡ some t)
      → Post (λ _ v. Row P v) (Row P) (on_store env r w)
  on_store-Row P (ok a, s) w h = h
  on_store-Row P (raised e, s) w h = h

  -- An update to a state of `P` keeps what holds of the row.
  write-Row :
      (P : ExtractionState → Type 0) (d : Document)
      → P d.extraction_state
      → (w : World) → Row P w
      → Post (λ _ v. Row P v) (Row P) (write_document env d w)
  unfolding write_document now_utc database service ◌>>=◌ ◌>>◌
  write-Row P d p w (row, content) =
      let now = env.now w.ticks in
      let (_, found, contents) = find_document-update now d w.store i in
      rw (working.up (w.ticks + 1)) (
        on_store-Row P (update_document now d w.store) (tick (tick w)) (
          rw found (set_state P now d p (find_document i w.store.documents) (i == d.doc_id) row),
          contents' contents content,
        ))
    where
      contents' :
          {cs ds : List (ℕ × Text)} → cs ≡ ds → content_of i ds ≡ some t → content_of i cs ≡ some t
      contents' e h = rw e h

  write-Done :
      (d : Document)
      → IsDone d.extraction_state
      → (i == d.doc_id) ≡ true
      → (w : World) → Row AnyState w
      → Post (λ _ v. Row IsDone v) (Row IsDone) (write_document env d w)
  unfolding write_document now_utc database service ◌>>=◌ ◌>>◌
  write-Done d p same w (row, content) =
      let now = env.now w.ticks in
      let (_, found, contents) = find_document-update now d w.store i in
      let there : content_of i (update_document now d w.store).1.contents ≡ some t =
        rw contents content in
      rw (working.up (w.ticks + 1)) (
        on_store-Row IsDone (update_document now d w.store) (tick (tick w))
          (rw (found, same) (set-IsDone now d p (find_document i w.store.documents) row), there))

  content-Row :
      (P : ExtractionState → Type 0) (j : ℕ) (w : World)
      → Row P w
      → Post (λ _ v. Row P v) (Row P) (database env (get_content j) w)
  unfolding get_content database service ◌>>◌
  content-Row P j w h = rw (working.up w.ticks) (read (content_of j w.store.contents))
    where
      read :
          (o : Option Text)
          → Post (λ _ v. Row P v) (Row P) (on_store env (found_or_key_error o w.store) (tick w))
      read none = h
      read (some c) = h

  extracted-Row :
      (P : ExtractionState → Type 0) (j : ℕ) (content : Text) (w : World)
      → Row P w
      → Post (λ job v. IsDone job.state × Row P v) (Row P) (process_document j content w)
  extracted-Row P j content w (row, stored) =
      Post-weaken _ _ _ _ (process_document j content w) (working.settles j content w)
        (λ job v (done, same). (done, (rw same row, rw same stored))) (λ v h. absurd h)

  extract-Row :
      (P : ExtractionState → Type 0)
      → ((state : ExtractionState) → IsDone state → P state)
      → (doc : Document) (w : World) → Row P w
      → Post (λ _ v. Row P v) (Row P) (extract_document (postgres env) process_document doc w)
  unfolding extract_document ◌>>=◌ ◌>>◌
  extract-Row P done doc w h =
      Post-resume (λ _ v. Row P v) (Row P) (λ _ v. Row P v)
        (database env (get_content doc.doc_id) w) _ (content-Row P doc.doc_id w h)
        (λ content v k.
          Post-resume (λ _ v. Row P v) (Row P) (λ job v. IsDone job.state × Row P v)
            (process_document doc.doc_id content v) _ (extracted-Row P doc.doc_id content v k)
            (λ job u (over, l).
              Post-resume (λ _ v. Row P v) (Row P) (λ _ v. Row P v)
                (write_document env (record doc { extraction_state = job.state }) u) _
                (write-Row P (record doc { extraction_state = job.state }) (done job.state over) u
                  l)
                (λ _ x m. m)))

  content-Found :
      (j : ℕ)
      → j ≡ i
      → (w : World) → Row AnyState w
      → Post (λ _ v. Row AnyState v) (Row IsDone) (database env (get_content j) w)
  unfolding get_content database service ◌>>◌
  content-Found j e w (row, stored) =
      let there : content_of j w.store.contents ≡ some t = rw e stored in
      rw (working.up w.ticks) (rw there (row, stored))

  extract-Done :
      (doc : Document) (w : World)
      → (doc.doc_id == i) ≡ true
      → Row AnyState w
      → Post
          (λ _ v. Row IsDone v)
          (Row IsDone)
          (extract_document (postgres env) process_document doc w)
  unfolding extract_document ◌>>=◌ ◌>>◌
  extract-Done doc w same h =
      Post-resume (λ _ v. Row IsDone v) (Row IsDone) (λ _ v. Row AnyState v)
        (database env (get_content doc.doc_id) w) _
        (content-Found doc.doc_id (==_sound doc.doc_id i same) w h)
        (λ content v k.
          Post-resume (λ _ v. Row IsDone v) (Row IsDone)
            (λ job v. IsDone job.state × Row AnyState v) (process_document doc.doc_id content v) _
            (Post-weaken _ _ _ _ (process_document doc.doc_id content v)
              (working.settles doc.doc_id content v)
              (λ job u (done, l). (done, (rw l k.0, rw l k.1))) (λ u l. absurd l))
            (λ job u (over, l).
              Post-resume (λ _ v. Row IsDone v) (Row IsDone) (λ _ v. Row IsDone v)
                (write_document env (record doc { extraction_state = job.state }) u) _
                (write-Done (record doc { extraction_state = job.state }) over (ground arith) u l)
                (λ _ x m. m)))

  -- The loop never raises.
  one-Row :
      (Q : ExtractionState → Type 0) (doc : Document) (s : Summary) (w : World)
      → Post (λ _ v. Row Q v) (Row Q) (extract_document (postgres env) process_document doc w)
      → Post
          (λ _ v. Row Q v)
          (λ _. ⊥)
          (try_else
            (extract_document (postgres env) process_document doc)
            (count_job (postgres env) process_document s)
            (count_error (postgres env) process_document s)
            w)
  unfolding try_else
  one-Row Q doc s w h =
      Post-settle (λ _ v. Row Q v) (λ _. ⊥) (λ _ v. Row Q v) (Row Q)
        (extract_document (postgres env) process_document doc w) _ _ h (λ job v k. k) (λ e v k. k)

  loop-Row :
      (P : ExtractionState → Type 0)
      → ((state : ExtractionState) → IsDone state → P state)
      → (docs : List Document) (s : Summary) (w : World) → Row P w
      → Post (λ _ v. Row P v) (λ _. ⊥) (extract_documents (postgres env) process_document docs s w)
  unfolding extract_documents ◌>>=◌
  loop-Row P done [] s w h = h
  loop-Row P done (doc ∷ docs) s w h =
      Post-resume (λ _ v. Row P v) (λ _. ⊥) (λ _ v. Row P v) _ _
        (one-Row P doc s w (extract-Row P done doc w h)) (λ s' v k. loop-Row P done docs s' v k)

  loop-Done :
      (docs : List Document) (s : Summary) (w : World)
      → has_id i docs ≡ true
      → Row AnyState w
      → Post
          (λ _ v. Row IsDone v)
          (λ _. ⊥)
          (extract_documents (postgres env) process_document docs s w)
  unfolding extract_documents has_id ◌>>=◌
  loop-Done [] s w listed h = absurd (ground arith)
  loop-Done (doc ∷ docs) s w listed h = elim (Bool-cases (doc.doc_id == i)) [
    | inl same ↦
        Post-resume (λ _ v. Row IsDone v) (λ _. ⊥) (λ _ v. Row IsDone v) _ _
          (one-Row IsDone doc s w (extract-Done doc w same h))
          (λ s' v k. loop-Row IsDone (λ state d. d) docs s' v k)
    | inr other ↦
        let later : has_id i docs ≡ true = rw other at listed in
        Post-resume (λ _ v. Row IsDone v) (λ _. ⊥) (λ _ v. Row AnyState v) _ _
          (one-Row AnyState doc s w (extract-Row AnyState (λ state d. tt) doc w h))
          (λ s' v k. loop-Done docs s' v later k)
  ]

  -- A list that has the document is not empty.
  batch-Done :
      (docs : List Document) (w : World)
      → has_id i docs ≡ true
      → Row AnyState w
      → Post
          (λ _ v. Row IsDone v)
          (λ _. ⊥)
          ((if is_empty docs
              then pure nothing_done
              else extract_documents (postgres env) process_document docs nothing_done)
            w)
  unfolding has_id
  batch-Done [] w listed h = absurd (ground arith)
  batch-Done (doc ∷ docs) w listed h = loop-Done (doc ∷ docs) nothing_done w (unlist listed) h
    where
      unlist : (doc.doc_id == i || has_id i docs) ≡ true → has_id i (doc ∷ docs) ≡ true
      unlist e = e

  -- One batch without a limit.
  drained :
      (w : World) (d : Document)
      → find_document i w.store.documents ≡ some d
      → in_state ExtractionState.pending d ≡ true
      → content_of i w.store.contents ≡ some t
      → Post (λ _ v. Row IsDone v) (λ _. ⊥) (execute (postgres env) process_document none w)
  unfolding execute query_pending database service ◌>>=◌ ◌>>◌
  drained w d there waiting stored = rw (working.up w.ticks) (
      batch-Done
        (order_by oldest_first (filter (in_state ExtractionState.pending) w.store.documents))
        (tick w)
        (has_id-order_by oldest_first i _
          ∙ has_id-filter (in_state ExtractionState.pending) i w.store.documents d there waiting)
        (rw there tt, stored))

-- While PostgreSQL answers, and every extraction returns a job that is not PENDING and leaves the
-- documents alone: a batch without a limit returns a summary, and no document that was PENDING and
-- whose content is stored is PENDING any more.
pub execute-IsDone :
    (env : Env) (process_document : ℕ → Text → Exec World ExtractionJob)
    → IsUp env process_document
    → (w : World) (i : ℕ) (d : Document) (t : Text) → find_document i w.store.documents ≡ some d
    → in_state ExtractionState.pending d ≡ true
    → content_of i w.store.contents ≡ some t
    → Post
        (λ _ v. InState IsDone (find_document i v.store.documents))
        (λ _. ⊥)
        (execute (postgres env) process_document none w)
execute-IsDone env process_document working w i d t there waiting stored =
    Post-weaken _ _ _ _ (execute (postgres env) process_document none w)
      (drained env process_document working i t w d there waiting stored) (λ s v h. h.0) (λ v h. h)
