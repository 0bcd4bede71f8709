-- ===== src/Graph/SwagWriter.antt =====
-- packages/graph/writers/swag_writer.py: `SwagGraphWriter`. A query is what its Cypher does with
-- each row of a batch, in order, to the nodes and relationships that this writer merges. A call of
-- `session.run` is one transaction: it is applied, or raises and leaves the graph as it was. Every row
-- of a proxy sets `p.metadata` to a dict, `{}` where there is none; what Neo4j answers to a property
-- whose value is a map, is a parameter.
pub mod Merged
pub mod Runs
pub mod Services
pub mod Written
pub mod Proxied
use taboot.Prelude.{
  ℕ, ◌+◌, Text, codes, Bool, true, false, ◌&&◌, ◌||◌, Option, none, some, List, [], ◌∷◌, ◌++◌, map,
  length, is_empty, text_eq, if◌then◌else◌,
}
use taboot.Python.{Kind, Exn, ok, raised, Exec, pure, raise, ◌>>=◌, ◌>>◌}
use taboot.Python.Batches.{batches}
use taboot.Python.Texts.{or_else}
use taboot.Schemas.{Proxy}
use taboot.Graph.BatchedWriter.{Statistics, nothing_written}
use taboot.Ingest.Swag.{RouteInfo}

-- (:Proxy {name: proxy})-[:ROUTES_TO {host, path, tls}]->(:Service {name: service})
pub record RoutesTo : Type 0 where
  pub proxy : Text
  pub route : RouteInfo

pub record Neo4j : Type 0 where
  pub proxies : List Proxy
  pub services : List Text
  pub routes : List RoutesTo
  pub calls : ℕ

-- MERGE (p:Proxy {name: row.name}) SET ...
unfoldable pub merge_proxy : Proxy → List Proxy → List Proxy
merge_proxy row [] = row ∷ []
merge_proxy row (p ∷ ps) =
    let rest = merge_proxy row ps in if text_eq p.name row.name then row ∷ ps else p ∷ rest

unfoldable pub has_text : Text → List Text → Bool
has_text t [] = false
has_text t (u ∷ us) = text_eq u t || has_text t us

unfoldable pub has_proxy : Text → List Proxy → Bool
has_proxy t [] = false
has_proxy t (p ∷ ps) = text_eq p.name t || has_proxy t ps

-- MERGE (s:Service {name: row.name}), which is also how a dict takes a key.
unfoldable pub add_key : Text → List Text → List Text
add_key t ts = if has_text t ts then ts else ts ++ t ∷ []

abbrev pub joins : Text → Text → RoutesTo → Bool
joins proxy_name service r = text_eq r.proxy proxy_name && text_eq r.route.target_service service

unfoldable pub set_routes : Text → RouteInfo → List RoutesTo → List RoutesTo
set_routes proxy_name row [] = []
set_routes proxy_name row (r ∷ rs) =
    (if joins proxy_name row.target_service r
      then record { proxy = proxy_name; route = row }
      else r)
    ∷ set_routes proxy_name row rs

unfoldable pub has_route : Text → Text → List RoutesTo → Bool
has_route proxy_name service [] = false
has_route proxy_name service (r ∷ rs) =
    joins proxy_name service r || has_route proxy_name service rs

-- MERGE (p)-[r:ROUTES_TO]->(s) SET r.host = ..., r.path = ..., r.tls = ...
unfoldable pub merge_route : Text → RouteInfo → List RoutesTo → List RoutesTo
merge_route proxy_name row rs =
    if has_route proxy_name row.target_service rs
    then set_routes proxy_name row rs
    else rs ++ record { proxy = proxy_name; route = row } ∷ []

-- The three queries on one row.
abbrev pub proxy_row : Proxy → Neo4j → Neo4j
proxy_row row g = record g { proxies = merge_proxy row g.proxies }

abbrev pub service_row : Text → Neo4j → Neo4j
service_row name g = record g { services = add_key name g.services }

unfoldable pub route_row : Text → RouteInfo → Neo4j → Neo4j
route_row proxy_name row g =
    if has_proxy proxy_name g.proxies && has_text row.target_service g.services
    then record g { routes = merge_route proxy_name row g.routes }
    else g

-- UNWIND $rows AS row
unfoldable pub unwind : {Row : Type 0} → (Row → Neo4j → Neo4j) → List Row → Neo4j → Neo4j
unwind query [] g = g
unwind query (row ∷ rows) g = unwind query rows (query row g)

-- `list({s["name"]: s for s in service_rows}.values())`
unfoldable pub add_keys : List Text → List Text → List Text
add_keys [] seen = seen
add_keys (t ∷ ts) seen = add_keys ts (add_key t seen)

abbrev pub unique_services : List RouteInfo → List Text
unique_services routes = add_keys (map (λ r. r.target_service) routes) []

abbrev pub empty_name : Exn
empty_name = record { kind = Kind.value_error; message = codes "proxy_name cannot be empty" }

-- `total_written += len(batch)` where the loop counts rows.
abbrev pub count_rows : Bool → ℕ → Statistics → Statistics
count_rows true n stats = record {
  total_written = stats.total_written + n;
  batches_executed = stats.batches_executed + 1;
}
count_rows false n stats = record stats { batches_executed = stats.batches_executed + 1 }

module _ (fault : ℕ → Option Exn) (batch_size : ℕ) where
  abbrev pub answer : Option Exn → (Neo4j → Neo4j) → Exec Neo4j (Unit {0})
  answer none effect g = (ok tt, record (effect g) { calls = g.calls + 1 })
  answer (some e) effect g = (raised e, record g { calls = g.calls + 1 })

  -- `session.run(query, {"rows": batch}).consume()`
  unfoldable pub session_run :
      {Row : Type 0} → (Row → Neo4j → Neo4j) → List Row → Exec Neo4j (Unit {0})
  session_run query batch g = answer (fault g.calls) (unwind query batch) g

  unfoldable pub run_batches :
      {Row : Type 0}
      → (Row → Neo4j → Neo4j)
      → Bool
      → List (List Row)
      → Statistics
      → Exec Neo4j Statistics
  run_batches query counted [] stats = pure stats
  run_batches query counted (batch ∷ rest) stats =
      session_run query batch
      >> run_batches query counted rest (count_rows counted (length batch) stats)

  unfoldable pub write_routes : Text → List RouteInfo → Exec Neo4j Statistics
  write_routes proxy_name routes =
      if is_empty proxy_name
      then raise empty_name
      else if is_empty routes
      then pure nothing_written
      else run_batches service_row false (batches batch_size (unique_services routes))
          nothing_written
        >>= run_batches (route_row proxy_name) true (batches batch_size routes)

module _ (fault : ℕ → Option Exn) (map_fault : Option Exn) (batch_size : ℕ) where
  -- How the call `n` fails where it sets a property to a map.
  abbrev pub proxy_fault : ℕ → Option Exn
  proxy_fault n = or_else (fault n) map_fault

  unfoldable pub write_proxies : List Proxy → Exec Neo4j Statistics
  write_proxies proxies =
      if is_empty proxies
      then pure nothing_written
      else run_batches proxy_fault batch_size proxy_row true (batches batch_size proxies)
          nothing_written
