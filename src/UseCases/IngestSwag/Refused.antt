-- ===== src/UseCases/IngestSwag/Refused.antt =====
-- How an ingestion of a configuration ends, and what it leaves in the graph.
use taboot.Prelude.{
  ℕ, ◌<◌, Text, ◌≡◌, refl, ap, Bool, true, false, subst, ◌⊎◌, Option, some, inl, inr, List, [], ◌∷◌,
  is_empty, Bool-cases,
}
use taboot.Python.{Kind, Exn, Outcome, ok, raised, settle, pure, is_value_error, try_else, ◌>>=◌}
use taboot.Python.Triples.{Post}
use taboot.Schemas.{Proxy}
use taboot.World.{World, Env}
use taboot.Graph.SwagWriter.{Neo4j}
use taboot.Ingest.Swag.{ParsedConfig, parse_config}
use taboot.Ingest.Swag.Proxies.{OneProxy, parse_config-OneProxy}
use taboot.Graph.SwagWriter.Proxied.{IsRefused, write_proxies-IsRefused}
use taboot.UseCases.IngestSwag.{
  Files, Stack, IngestSummary, on_clock, on_graph, read_config, parse_file, write_config,
  ingest_config, ingest_failure, execute, is_reader_error,
}

-- A file that is there and is read.
abbrev pub IsFile : Files → Text → Text → Type 0
IsFile files path content =
    (is_empty path ≡ false)
    × (files.exists path ≡ true)
    × (files.is_file path ≡ true)
    × (files.read_text path ≡ ok content)

with_state : {S A : Type 0} (r : Outcome A × S) (a : A) → r.0 ≡ ok a → r ≡ (ok a, r.1)
with_state r a h = ap (λ o. (o, r.1)) h

module _ (is_word : ℕ → Bool) (env : Env) (name : Text) (files : Files) where
  parse_file-config :
      (path content : Text) (w : World) (parsed : ParsedConfig)
      → IsFile files path content
      → (parse_config is_word env name content w).0 ≡ ok parsed
      → parse_file is_word env name files path w
        ≡ (ok parsed, (parse_config is_word env name content w).1)
  unfolding parse_file read_config try_else ◌>>=◌
  parse_file-config path content w parsed (full, there, file, text) h =
      rw (full, there, file, text)
        (rw (with_state (parse_config is_word env name content w) parsed h))

Post-ok :
    {S A : Type 0} (Q : A → S → Type 0) (E : S → Type 0) (r : Outcome A × S) (a : A)
    → Post Q E r
    → r.0 ≡ ok a
    → Q a r.1
Post-ok Q E r a h e = subst (Post Q E) (with_state r a e) h

module _ (is_word : ℕ → Bool) (env : Env) (name : Text) (files : Files)
    (fault : ℕ → Option Exn) where
  write_config-IsRefused :
      (refusal : Exn) (batch_size : ℕ)
      → 0 < batch_size
      → (parsed : ParsedConfig) (p : Proxy) (ps : List Proxy) (s : Stack) → parsed.proxies ≡ p ∷ ps
      → let (r, after) =
          write_config is_word env name files fault (some refusal) batch_size parsed s in
        IsRefused s.graph (r, after.graph)
  unfolding write_config on_graph ◌>>=◌
  write_config-IsRefused refusal batch_size pos parsed p ps s proxies =
      let (e, raises, proxies_same, services, routes) =
        write_proxies-IsRefused fault refusal batch_size pos p ps s.graph in
      rw proxies (rw raises (e, refl, proxies_same, services, routes))

  -- Whatever was raised is raised again, as it is or as another error.
  settled-IsRefused :
      (map_fault : Option Exn) (batch_size : ℕ) (g : Neo4j) (p : Outcome IngestSummary × Stack)
      → IsRefused g (p.0, p.1.graph)
      → let (r, after) =
          settle p pure (ingest_failure is_word env name files fault map_fault batch_size) in
        IsRefused g (r, after.graph)
  settled-IsRefused map_fault batch_size g (ok a, v) (e, h, proxies, services, routes) = absurd cc
  settled-IsRefused map_fault batch_size g (raised x, v) (e, h, proxies, services, routes) =
      elim (Bool-cases (is_value_error x.kind)) [
        | inl value ↦ rw value (x, refl, proxies, services, routes)
        | inr other ↦ rw other (elim (Bool-cases (is_reader_error x.kind)) [
          | inl reader ↦ rw reader (_, refl, proxies, services, routes)
          | inr rest ↦ rw rest (_, refl, proxies, services, routes)
        ])
      ]

-- While Neo4j refuses a property whose value is a map, and for a batch size that is not zero, the
-- ingestion of every file that is read and
-- parsed raises, whatever else Neo4j answers, and the proxies, the services and the routes of the
-- graph stay as they were: the node of the proxy is always written with its metadata as a map.
pub ingest_swag-IsRefused :
    (is_word : ℕ → Bool) (env : Env) (name : Text) (files : Files) (fault : ℕ → Option Exn)
    (refusal : Exn) (batch_size : ℕ)
    → 0 < batch_size
    → (path content : Text) (parsed : ParsedConfig) (s : Stack) → IsFile files path content
    → (parse_config is_word env name content s.world).0 ≡ ok parsed
    → let (r, after) = execute is_word env name files fault (some refusal) batch_size path s in
      IsRefused s.graph (r, after.graph)
unfolding execute ingest_config on_clock write_config on_graph try_else ◌>>=◌
ingest_swag-IsRefused is_word env name files fault refusal batch_size pos path content parsed s file
      h =
    let one : OneProxy name parsed =
      Post-ok (λ c _. OneProxy name c) (λ _. Unit {0})
        (parse_config is_word env name content s.world) parsed
        (parse_config-OneProxy is_word env name content s.world) h in
    let (_, there, _, _) = file in
    let (p, single, _, _) = one in
    let w = (parse_config is_word env name content s.world).1 in
    let not_empty : is_empty parsed.proxies ≡ false = ap is_empty single in
    rw there (
      rw (parse_file-config is_word env name files path content s.world parsed file h) (
        rw not_empty (
          settled-IsRefused is_word env name files fault (some refusal) batch_size s.graph _ (
            write_config-IsRefused is_word env name files fault refusal batch_size pos parsed p []
              (record s { world = w }) single))))

-- What an ingestion may raise.
abbrev pub IsReported : {A : Type 0} → Outcome A → Type 0
IsReported (ok a) = Unit
IsReported (raised e) = (is_value_error e.kind ≡ true) ⊎ (e.kind ≡ Kind.ingest_swag_error)

-- Whatever the file system, the reader and Neo4j raise, an ingestion raises nothing but a
-- `ValueError` or an `IngestSwagError`.
pub ingest_swag-IsReported :
    (is_word : ℕ → Bool) (env : Env) (name : Text) (files : Files) (fault : ℕ → Option Exn)
    (map_fault : Option Exn) (batch_size : ℕ) (path : Text) (s : Stack)
    → IsReported (execute is_word env name files fault map_fault batch_size path s).0
unfolding execute try_else
ingest_swag-IsReported is_word env name files fault map_fault batch_size path s =
    go (ingest_config is_word env name files fault map_fault batch_size path s)
  where
    go :
        (r : Outcome IngestSummary × Stack)
        → IsReported
            (settle r pure (ingest_failure is_word env name files fault map_fault batch_size)).0
    go (ok a, v) = tt
    go (raised e, v) = elim (Bool-cases (is_value_error e.kind)) [
      | inl value ↦ rw value (inl value)
      | inr other ↦ rw other (elim (Bool-cases (is_reader_error e.kind)) [
        | inl reader ↦ rw reader (inr refl)
        | inr rest ↦ rw rest (inr refl)
      ])
    ]
