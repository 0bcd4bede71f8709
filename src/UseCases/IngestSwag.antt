-- ===== src/UseCases/IngestSwag.antt =====
-- packages/core/use_cases/ingest_swag.py: `IngestSwagUseCase.execute`, and `SwagReader.parse_file`
-- of packages/ingest/readers/swag.py. The file system is a parameter.
pub mod Refused
use taboot.Prelude.{
  ℕ, Text, codes, Bool, true, false, not, ◌&&◌, ◌||◌, Option, none, some, List, [], ◌∷◌, ◌++◌,
  length, is_empty, if◌then◌else◌,
}
use taboot.Python.{
  Kind, Exn, Outcome, ok, raised, Exec, pure, raise, lift, is_value_error, try_except, ◌>>=◌,
}
use taboot.Schemas.{Proxy}
use taboot.World.{World, Env}
use taboot.Ingest.Swag.{RouteInfo, ParsedConfig, swag_error, parse_config}
use taboot.Graph.BatchedWriter.{Statistics}
use taboot.Graph.SwagWriter.{Neo4j, write_proxies, write_routes}

-- `Path(p).exists()`, `Path(p).is_file()` and `Path(p).read_text(encoding="utf-8")`
pub record Files : Type 0 where
  pub exists : Text → Bool
  pub is_file : Text → Bool
  pub read_text : Text → Outcome Text

-- The clock's services and the graph.
pub record Stack : Type 0 where
  pub world : World
  pub graph : Neo4j

-- `proxies_written`, `routes_written`, `parse_stats` and `write_stats` of the summary.
pub record IngestSummary : Type 0 where
  pub proxies_written : ℕ
  pub routes_written : ℕ
  pub proxy_count : ℕ
  pub route_count : ℕ
  pub proxy_batches : ℕ
  pub route_batches : ℕ

abbrev pub nothing_ingested : IngestSummary
nothing_ingested = record {
  proxies_written = 0;
  routes_written = 0;
  proxy_count = 0;
  route_count = 0;
  proxy_batches = 0;
  route_batches = 0;
}

abbrev pub is_reader_error : Kind → Bool
is_reader_error Kind.swag_reader_error = true
is_reader_error _ = false

abbrev value_error : Text → Exn
value_error message = record { kind = Kind.value_error; message = message }

abbrev pub ingest_error : Text → Exn
ingest_error message = record { kind = Kind.ingest_swag_error; message = message }

abbrev pub proxy_name_of : List Proxy → Text
proxy_name_of [] = codes "swag"
proxy_name_of (p ∷ ps) = p.name

module _ (is_word : ℕ → Bool) (env : Env) (proxy_name : Text) (files : Files) where
  abbrev pub reader_failure : Text → Exn → Exec World ParsedConfig
  reader_failure config_path e =
      if is_reader_error e.kind || is_value_error e.kind
      then raise e
      else raise (
          swag_error
            (codes "Failed to read config file " ++ config_path ++ codes ": " ++ e.message))

  pub read_config : Text → Exec World ParsedConfig
  read_config config_path =
      if not (files.exists config_path)
      then raise (swag_error (codes "Config file not found: " ++ config_path))
      else if not (files.is_file config_path)
      then raise (swag_error (codes "Path is not a file: " ++ config_path))
      else lift (files.read_text config_path) >>= parse_config is_word env proxy_name

  pub parse_file : Text → Exec World ParsedConfig
  parse_file config_path =
      if is_empty config_path
      then raise (value_error (codes "config_path cannot be empty"))
      else try_except (read_config config_path) (reader_failure config_path)

module _ (is_word : ℕ → Bool) (env : Env) (proxy_name : Text) (files : Files)
    (fault : ℕ → Option Exn) (map_fault : Option Exn) (batch_size : ℕ) where
  pub on_clock : {A : Type 0} → Exec World A → Exec Stack A
  on_clock m s = let (r, w) = m s.world in (r, record s { world = w })

  pub on_graph : {A : Type 0} → Exec Neo4j A → Exec Stack A
  on_graph m s = let (r, g) = m s.graph in (r, record s { graph = g })

  pub write_config : ParsedConfig → Exec Stack IngestSummary
  write_config parsed = do
    proxy_stats ← on_graph (write_proxies fault map_fault batch_size parsed.proxies)
    route_stats ←
        on_graph (write_routes fault batch_size (proxy_name_of parsed.proxies) parsed.routes)
    pure (record {
      proxies_written = proxy_stats.total_written;
      routes_written = route_stats.total_written;
      proxy_count = length parsed.proxies;
      route_count = length parsed.routes;
      proxy_batches = proxy_stats.batches_executed;
      route_batches = route_stats.batches_executed;
    })

  -- The body of the `try`.
  pub ingest_config : Text → Exec Stack IngestSummary
  ingest_config config_path =
      if not (files.exists config_path)
      then raise (value_error (codes "Config file not found: " ++ config_path))
      else on_clock (parse_file is_word env proxy_name files config_path) >>= λ parsed.
          if is_empty parsed.proxies && is_empty parsed.routes
          then pure nothing_ingested
          else write_config parsed

  abbrev pub ingest_failure : Exn → Exec Stack IngestSummary
  ingest_failure e =
      if is_value_error e.kind
      then raise e
      else if is_reader_error e.kind
      then raise (ingest_error (codes "Failed to parse SWAG config: " ++ e.message))
      else raise (ingest_error (codes "SWAG ingestion failed: " ++ e.message))

  pub execute : Text → Exec Stack IngestSummary
  execute config_path = try_except (ingest_config config_path) ingest_failure
