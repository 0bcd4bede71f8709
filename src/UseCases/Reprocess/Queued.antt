-- ===== src/UseCases/Reprocess/Queued.antt =====
-- Which documents a reprocessing queues.
use mathlib.Core.Option
use taboot.Prelude.{
  ℕ, ◌+◌, ◌≡◌, refl, ◌∙◌, Bool, true, false, ◌||◌, Option, none, some, inl, inr, List, [], ◌∷◌,
  filter, leb, ltb, ◌==◌, Bool-cases, Option-cases, if◌then◌else◌, arith,
}
use taboot.Python.{Outcome, ok, raised, ◌>>=◌, ◌>>◌}
use taboot.Python.Loops.{for_each}
use taboot.Python.Triples.{
  Post, Post-resume, Post-state, Preserves, Preserves-bind, Preserves-pure, Preserves-for_each,
}
use taboot.Schemas.{Document, ExtractionState}
use taboot.DocumentStore.{
  Store, has_id, insert_by, order_by, latest_update_first, query_by_date, set_columns,
  update_document,
}
use taboot.DocumentStore.Updates.{find_document, find_document-update}
use taboot.World.{World, Env, now_utc, service, database, on_store, tick}
use taboot.World.Kept.{Preserves-now_utc, Preserves-database}
use taboot.UseCases.Ports.{write_document}
use taboot.UseCases.Reprocess.{postgres, requeue, requeue_since, execute}

has_id-insert_by :
    (before : Document → Document → Bool) (i : ℕ) (d : Document) (ds : List Document)
    → has_id i (insert_by before d ds) ≡ (d.doc_id == i || has_id i ds)
unfolding has_id insert_by
has_id-insert_by before i d [] = ground arith
has_id-insert_by before i d (e ∷ es) = ground (arith, has_id-insert_by before i d es)

pub has_id-order_by :
    (before : Document → Document → Bool) (i : ℕ) (ds : List Document)
    → has_id i (order_by before ds) ≡ has_id i ds
unfolding has_id order_by
has_id-order_by before i [] = refl
has_id-order_by before i (d ∷ ds) =
    has_id-insert_by before i d (order_by before ds) ∙ rw (has_id-order_by before i ds) refl

pub has_id-filter :
    (p : Document → Bool) (i : ℕ) (ds : List Document) (d : Document)
    → find_document i ds ≡ some d
    → p d ≡ true
    → has_id i (filter p ds) ≡ true
unfolding has_id find_document
has_id-filter p i [] d e h = ground arith
has_id-filter p i (c ∷ ds) d e h = elim (Bool-cases (c.doc_id == i)) [
  | inl same ↦ here same (rw same at e)
  | inr other ↦ elim (Bool-cases (p c)) [
    | inl kept ↦ rw (kept, other) (has_id-filter p i ds d (rw other at e) h)
    | inr dropped ↦ rw dropped (has_id-filter p i ds d (rw other at e) h)
  ]
]
  where
    here :
        (c.doc_id == i) ≡ true
        → ◌≡◌ {A = Option Document} (some c) (some d)
        → has_id i (filter p (c ∷ ds)) ≡ true
    here same found = let e : c ≡ d = cc in let kept : p c ≡ true = rw e h in rw (kept, same) refl

-- The state of a row that is there.
abbrev pub InState : (ExtractionState → Type 0) → Option Document → Type 0
InState P none = ⊥
InState P (some d) = P d.extraction_state

abbrev pub IsPending : ExtractionState → Type 0
IsPending state = state ≡ ExtractionState.pending

abbrev AnyState : ExtractionState → Type 0
AnyState state = Unit {0}

module _ (env : Env) (i : ℕ) where
  abbrev pub Row : (ExtractionState → Type 0) → World → Type 0
  Row P w = InState P (find_document i w.store.documents)

  -- An update that writes PENDING, to this row or another, keeps what holds of PENDING.
  kept :
      (P : ExtractionState → Type 0)
      → P ExtractionState.pending
      → (now : ℕ) (d : Document) → d.extraction_state ≡ ExtractionState.pending
      → (o : Option Document) (b : Bool) → InState P o
      → InState P (if b then Option.map (set_columns now d) o else o)
  kept P p now d e none b h = absurd h
  kept P p now d e (some row) true h = rw e p
  kept P p now d e (some row) false h = h

  requeue-Preserves :
      (P : ExtractionState → Type 0)
      → P ExtractionState.pending
      → (doc : Document) → Preserves (Row P) (requeue env (postgres env) doc)
  unfolding requeue write_document
  requeue-Preserves P p doc =
      Preserves-bind _ _ (Preserves-now_utc env (Row P) (λ w h. h)) (λ updated.
        Preserves-bind _ _ (Preserves-now_utc env (Row P) (λ w h. h)) (λ now.
          Preserves-database env (Row P) (λ w h. h) _
            (λ w h.
              let d : Document = record doc {
                extraction_state = ExtractionState.pending;
                updated_at = updated;
              } in
              rw (find_document-update now d w.store i).1
                (kept P p now d refl (find_document i w.store.documents) (i == d.doc_id) h))))

  settled :
      (now : ℕ) (d : Document)
      → d.extraction_state ≡ ExtractionState.pending
      → (o : Option Document) → InState AnyState o
      → InState IsPending (Option.map (set_columns now d) o)
  settled now d e none h = absurd h
  settled now d e (some row) h = e

  on_store-Post :
      (r : Outcome (Unit {0}) × Store) (w : World)
      → InState IsPending (find_document i r.1.documents)
      → Post (λ _ v. Row IsPending v) (λ _. Unit {0}) (on_store env r w)
  on_store-Post (ok a, s) w h = h
  on_store-Post (raised e, s) w h = tt

  update-sets :
      (now : ℕ) (d : Document)
      → d.extraction_state ≡ ExtractionState.pending
      → (i == d.doc_id) ≡ true
      → (w : World) → Row AnyState w
      → Post (λ _ v. Row IsPending v) (λ _. Unit {0}) (database env (update_document now d) w)
  unfolding database service ◌>>◌
  update-sets now d e same w h = elim (Option-cases (env.fault w.ticks)) [
    | inr (x, down) ↦ rw down tt
    | inl up ↦ rw up (
        on_store-Post (update_document now d w.store) (tick w) (
          rw ((find_document-update now d w.store i).1, same)
            (settled now d e (find_document i w.store.documents) h)))
  ]

  requeue-sets :
      (doc : Document)
      → (i == doc.doc_id) ≡ true
      → (w : World) → Row AnyState w
      → Post (λ _ v. Row IsPending v) (λ _. Unit {0}) (requeue env (postgres env) doc w)
  unfolding requeue write_document now_utc ◌>>=◌
  requeue-sets doc same w h =
      update-sets (env.now (w.ticks + 1))
        (record doc { extraction_state = ExtractionState.pending; updated_at = env.now w.ticks })
        refl same (tick (tick w)) h

  requeue_all :
      (docs : List Document)
      → has_id i docs ≡ true
      → (w : World) → Row AnyState w
      → Post (λ _ v. Row IsPending v) (λ _. Unit {0}) (for_each (requeue env (postgres env)) docs w)
  unfolding for_each has_id ◌>>=◌
  requeue_all [] h w r = absurd cc
  requeue_all (doc ∷ docs) h w r = elim (Bool-cases (doc.doc_id == i)) [
    | inl same ↦
        Post-resume _ _ _ (requeue env (postgres env) doc w) _ (requeue-sets doc (ground arith) w r)
          (λ a v q. Post-state (Row IsPending) _ (
            (Preserves-bind _ _
                (Preserves-for_each (requeue env (postgres env)) (requeue-Preserves IsPending refl)
                  docs)
                (λ ys. Preserves-pure (a ∷ ys))).at
              v q))
    | inr other ↦
        Post-resume _ _ (λ _ v. Row AnyState v) (requeue env (postgres env) doc w) _
          (Post-state (Row AnyState) _ ((requeue-Preserves AnyState tt doc).at w r))
          (λ a v q.
            Post-resume _ _ (λ _ v. Row IsPending v) (for_each (requeue env (postgres env)) docs v)
              _ (requeue_all docs (rw other at h) v q) (λ ys u done. done))
  ]

  requeue_since-sets :
      (since : ℕ) (d : Document) (w : World)
      → find_document i w.store.documents ≡ some d
      → leb since d.updated_at ≡ true
      → Post (λ _ v. Row IsPending v) (λ _. Unit {0}) (requeue_since env (postgres env) since w)
  unfolding requeue_since query_by_date database service ◌>>=◌ ◌>>◌
  requeue_since-sets since d w there late = elim (Option-cases (env.fault w.ticks)) [
    | inr (x, down) ↦ rw down tt
    | inl up ↦
        let rows =
          order_by latest_update_first (filter (λ d. leb since d.updated_at) w.store.documents) in
        let listed =
          has_id-order_by latest_update_first i _
          ∙ has_id-filter (λ d. leb since d.updated_at) i w.store.documents d there late in
        rw up (
          Post-resume _ _ _ (for_each (requeue env (postgres env)) rows (tick w)) _
            (requeue_all rows listed (tick w) (rw there tt)) (λ a v q. q))
  ]

-- When a reprocessing since a date ends without an exception, every document whose row was last
-- updated at the date or later is PENDING again.
pub reprocess-IsPending :
    (env : Env) (since : ℕ) (w : World) (i : ℕ) (d : Document)
    → find_document i w.store.documents ≡ some d
    → leb since d.updated_at ≡ true
    → Post (λ _ v. Row env i IsPending v) (λ _. Unit {0}) (execute env (postgres env) since w)
unfolding execute now_utc ◌>>=◌
reprocess-IsPending env since w i d there late = elim (Bool-cases (ltb (env.now w.ticks) since)) [
  | inl future ↦ rw future tt
  | inr past ↦ rw past (requeue_since-sets env i since d (tick w) there late)
]
