-- ===== src/UseCases/IngestWeb/Reingested.antt =====
-- What the ingestion of a page does whose content is stored already.
use taboot.Prelude.{
  ℕ, suc, ◌+◌, ◌≡◌, refl, ap, ◌∙◌, Text, true, false, Option, none, some, List, [], ◌∷◌, length,
  All, filter,
}
use taboot.Python.{Outcome, ok, raised, Exec, pure, settle, try_else, ◌>>=◌, ◌>>◌}
use taboot.Python.Loops.{for_each}
use taboot.Python.Triples.{Post, Post-resume}
use taboot.Schemas.{has_length, Chunk, Document}
use taboot.DocumentStore.{Store, has_id, has_hash}
use taboot.DocumentStore
use taboot.DocumentStore.Updates.{find_document, find_document-absent}
use taboot.World.{Env, now_utc, fresh_uuid, service, database}
use taboot.Ingest.Chunker.{Page, ChunkDoc, chunk_document}
use taboot.UseCases.IngestWeb.{
  Site, Tools, on_world, keep_entry, make_chunk, notify, store_document, process_page,
}

-- No call of PostgreSQL fails, and what runs after a page is stored leaves the tables alone.
pub record IsQuiet {F : Type 0} (env : Env) (tools : Tools F) : Type 0 where
  pub up : (t : ℕ) → env.fault t ≡ none
  pub calls :
      (callback : Document → ℕ → Exec (Site F) (Unit {0}))
      → tools.document_ingested_callback ≡ some callback
      → (d : Document) (n : ℕ) (s : Site F) → (callback d n s).1.world.store ≡ s.world.store

module _ {F : Type 0} (env : Env) (tools : Tools F) (quiet : IsQuiet env tools)
    (store : Store) where
  abbrev Same : Site F → Type 0
  Same s = s.world.store ≡ store

  abbrev Never : Site F → Type 0
  Never _ = ⊥

  -- As many chunks as there are nodes, all of the document.
  abbrev Numbered : ℕ → List ChunkDoc → List Chunk → Site F → Type 0
  Numbered i nodes cs s = Same s × (length cs ≡ length nodes) × All (λ c. c.doc_id ≡ i) cs

  make_chunk-Same :
      (url : Text) (i at : ℕ) (node : ChunkDoc) (s : Site F)
      → has_length 4096 node.text ≡ true
      → Same s
      → Post (λ c v. Same v × (c.doc_id ≡ i)) Never (make_chunk env tools url i at node s)
  unfolding make_chunk on_world fresh_uuid ◌>>=◌
  make_chunk-Same url i at node s valid h = rw valid (h, refl)

  for_each-Numbered :
      (url : Text) (i at : ℕ) (nodes : List ChunkDoc) (s : Site F)
      → All (λ node. has_length 4096 node.text ≡ true) nodes
      → Same s
      → Post (Numbered i nodes) Never (for_each (make_chunk env tools url i at) nodes s)
  unfolding for_each ◌>>=◌
  for_each-Numbered url i at [] s valid h = (h, refl, tt)
  for_each-Numbered url i at (node ∷ nodes) s (valid, rest) h =
      Post-resume (Numbered i (node ∷ nodes)) Never (λ c v. Same v × (c.doc_id ≡ i))
        (make_chunk env tools url i at node s) _ (make_chunk-Same url i at node s valid h)
        (λ c v (k, own).
          Post-resume (Numbered i (node ∷ nodes)) Never (Numbered i nodes)
            (for_each (make_chunk env tools url i at) nodes v) _
            (for_each-Numbered url i at nodes v rest k)
            (λ cs u (l, n, all). (l, ap suc n, (own, all))))

  notify-Same :
      (o : Option (Document → ℕ → Exec (Site F) (Unit {0})))
      → tools.document_ingested_callback ≡ o
      → (d : Document) (n : ℕ) (s : Site F) → Same s
      → Post (λ _ v. Same v) Never (notify env tools o d n s)
  unfolding try_else
  notify-Same none e d n s h = h
  notify-Same (some callback) e d n s h = go (callback d n s) (quiet.calls callback e d n s ∙ h)
    where
      go :
          (r : Outcome (Unit {0}) × Site F)
          → Same r.1
          → Post (λ _ v. Same v) Never (settle r pure (λ x. pure tt))
      go (ok a, v) k = k
      go (raised x, v) k = k

  store_document-Same :
      (url : Text) (i : ℕ) (markdown : Text) (n : ℕ) (s : Site F)
      → has_hash (tools.sha256 markdown) store.documents ≡ true
      → Same s
      → Post (λ _ v. Same v) Never (store_document env tools url i markdown n s)
  unfolding store_document on_world now_utc database service DocumentStore.create ◌>>=◌ ◌>>◌
  store_document-Same url i markdown n s known h =
      let k : has_hash (tools.sha256 markdown) s.world.store.documents ≡ true = rw h known in
      rw (quiet.up (s.world.ticks + 1 + 1))
        (rw k (notify-Same tools.document_ingested_callback refl _ n _ h))

  -- Every chunk is of a document that has no row.
  abbrev pub Orphaned : List ChunkDoc → List Chunk → Site F → Type 0
  Orphaned nodes cs s =
      Same s
      × (length cs ≡ length nodes)
      × All (λ c. find_document c.doc_id s.world.store.documents ≡ none) cs

  orphans :
      (i : ℕ) (cs : List Chunk) (s : Site F)
      → has_id i store.documents ≡ false
      → Same s
      → All (λ c. c.doc_id ≡ i) cs
      → All (λ c. find_document c.doc_id s.world.store.documents ≡ none) cs
  orphans i [] s new h own = tt
  orphans i (c ∷ cs) s new h (e, rest) =
      (rw e (rw h (find_document-absent i store.documents new)), orphans i cs s new h rest)

  chunks-Orphaned :
      (url : Text) (i at : ℕ) (markdown : Text) (nodes : List ChunkDoc) (s : Site F)
      → has_hash (tools.sha256 markdown) store.documents ≡ true
      → has_id i store.documents ≡ false
      → All (λ node. has_length 4096 node.text ≡ true) nodes
      → Same s
      → Post (Orphaned nodes) Never (
          (for_each (make_chunk env tools url i at) nodes >>= λ chunks.
          store_document env tools url i markdown (length chunks) >> pure chunks)
            s)
  unfolding ◌>>=◌ ◌>>◌
  chunks-Orphaned url i at markdown nodes s known new valid h =
      Post-resume (Orphaned nodes) Never (Numbered i nodes)
        (for_each (make_chunk env tools url i at) nodes s) _
        (for_each-Numbered url i at nodes s valid h)
        (λ cs v (k, n, own).
          Post-resume (Orphaned nodes) Never (λ _ u. Same u)
            (store_document env tools url i markdown (length cs) v) _
            (store_document-Same url i markdown (length cs) v known k)
            (λ _ u l. (l, n, orphans i cs u new l own)))

-- A page whose content is stored already, under another id than the fresh one, while PostgreSQL
-- answers and the nodes have from 1 to 4096 characters: `process_page` returns a chunk for each
-- node, the tables stay as they were, and no chunk's document has a row.
pub process_page-Orphaned :
    {F : Type 0} (env : Env) (tools : Tools F)
    → IsQuiet env tools
    → (url : Text) (doc : Page) (markdown : Text) (nodes : List ChunkDoc) (s : Site F)
    → tools.normalize doc.text ≡ ok markdown
    → chunk_document tools.split_nodes
        (record { text = markdown; metadata = filter keep_entry doc.metadata })
      ≡ ok nodes
    → All (λ node. has_length 4096 node.text ≡ true) nodes
    → has_hash (tools.sha256 markdown) s.world.store.documents ≡ true
    → has_id (env.uuid4 s.world.ticks) s.world.store.documents ≡ false
    → Post
        (λ chunks v.
          (v.world.store ≡ s.world.store)
          × (length chunks ≡ length nodes)
          × All (λ c. find_document c.doc_id v.world.store.documents ≡ none) chunks)
        (λ _. ⊥)
        (process_page env tools url doc s)
unfolding process_page on_world now_utc fresh_uuid ◌>>=◌ ◌>>◌
process_page-Orphaned env tools quiet url doc markdown nodes s normal split valid known new =
    rw normal (
      rw split (
        chunks-Orphaned env tools quiet s.world.store url _ _ markdown nodes _ known new valid
          refl))
