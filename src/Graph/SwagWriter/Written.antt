-- ===== src/Graph/SwagWriter/Written.antt =====
-- What the writer leaves in the graph.
use taboot.Prelude.{
  ℕ, ◌+◌, ◌<◌, Text, ◌≡◌, refl, ◌∙◌, true, false, ◌&&◌, Option, none, inl, inr, List, [], ◌∷◌, map,
  length, is_empty, Bool-cases, arith,
}
use taboot.Python.{ok, Exn, ◌>>=◌}
use taboot.Python.Batches.{batches, flatten-batches}
use taboot.Python.Texts.{or_else}
use taboot.Ingest.Swag.{RouteInfo}
use taboot.Graph.BatchedWriter.{Statistics, nothing_written}
use taboot.Graph.SwagWriter.{
  Neo4j, has_text, has_proxy, add_keys, unique_services, route_row, service_row, unwind,
  run_batches, write_routes,
}
use taboot.Graph.SwagWriter.Merged.{route_to, last_row, Ready, unwind-last_row}
use taboot.Graph.SwagWriter.Runs.{IsBlind, run_batches-finished}
use taboot.Graph.SwagWriter.Services.{has_text-all, unwind-service_row, All-map_has}

route_row-IsBlind : (p : Text) → IsBlind (route_row p)
unfolding route_row
route_row-IsBlind p row g n =
    elim (Bool-cases (has_proxy p g.proxies && has_text row.target_service g.services)) [
      | inl ready ↦ rw ready
      | inr lost ↦ rw lost
    ]

module _ (fault : ℕ → Option Exn) (batch_size : ℕ) (up : (n : ℕ) → fault n ≡ none)
    (pos : 0 < batch_size) where
  -- The graph between the two loops and behind them.
  abbrev with_services : List RouteInfo → Neo4j → Neo4j
  with_services rows g = record g {
    services = add_keys (unique_services rows) g.services;
    calls = g.calls + length (batches batch_size (unique_services rows));
  }

  with_services-Ready :
      (p : Text) (rows : List RouteInfo) (g : Neo4j)
      → has_proxy p g.proxies ≡ true
      → Ready p rows (with_services rows g)
  with_services-Ready p rows g h = (
    h,
    All-map_has rows (add_keys (unique_services rows) g.services) (λ t k.
        has_text-all t (unique_services rows) g.services
          (has_text-all t (map (λ r. r.target_service) rows) [] k)),
  )

  services_written :
      (rows : List RouteInfo) (g : Neo4j)
      → run_batches fault batch_size service_row false
          (batches batch_size (unique_services rows))
          nothing_written
          g
        ≡ (
          ok (record {
            total_written = 0;
            batches_executed = 0 + length (batches batch_size (unique_services rows));
          }),
          with_services rows g,
        )
  services_written rows g =
      run_batches-finished fault batch_size up service_row (λ row g n. refl) false
        (batches batch_size (unique_services rows)) nothing_written g
      ∙ rw (flatten-batches batch_size (unique_services rows) pos)
          (rw (unwind-service_row (unique_services rows) g))

  routes_written :
      (p : Text) (rows : List RouteInfo) (n : ℕ) (g : Neo4j)
      → run_batches fault batch_size
          (route_row p)
          true
          (batches batch_size rows)
          (record { total_written = 0; batches_executed = n })
          g
        ≡ (
          ok (record {
            total_written = 0 + length rows;
            batches_executed = n + length (batches batch_size rows);
          }),
          record (unwind (route_row p) rows g) {
            calls = g.calls + length (batches batch_size rows);
          },
        )
  routes_written p rows n g =
      run_batches-finished fault batch_size up (route_row p) (route_row-IsBlind p) true
        (batches batch_size rows) (record { total_written = 0; batches_executed = n }) g
      ∙ rw (flatten-batches batch_size rows pos)

  write_routes-unwind :
      (p : Text) (row : RouteInfo) (rows : List RouteInfo) (g : Neo4j)
      → is_empty p ≡ false
      → write_routes fault batch_size p (row ∷ rows) g ≡ (
        ok (record {
          total_written = 0 + length (row ∷ rows);
          batches_executed =
              0
              + length (batches batch_size (unique_services (row ∷ rows)))
              + length (batches batch_size (row ∷ rows));
        }),
        record (unwind (route_row p) (row ∷ rows) (with_services (row ∷ rows) g)) {
          calls =
              g.calls
              + length (batches batch_size (unique_services (row ∷ rows)))
              + length (batches batch_size (row ∷ rows));
        },
      )
  unfolding write_routes ◌>>=◌
  write_routes-unwind p row rows g named =
      rw (named, services_written (row ∷ rows) g)
        (routes_written p (row ∷ rows)
          (0 + length (batches batch_size (unique_services (row ∷ rows))))
          (with_services (row ∷ rows) g))

-- While Neo4j answers, the batch size is not zero, and the graph has the proxy, whose name is not
-- empty: a write of routes reports all of them, and leaves for each service the last of the routes
-- to it, or the route that was there before where there is none. So of two routes to one service
-- only the later is kept, whatever their hosts and paths.
pub write_routes-last_row :
    (fault : ℕ → Option Exn) (batch_size : ℕ)
    → ((n : ℕ) → fault n ≡ none)
    → 0 < batch_size
    → (p : Text) (rows : List RouteInfo) (g : Neo4j) → is_empty p ≡ false
    → has_proxy p g.proxies ≡ true
    → (stats : Statistics) × (g' : Neo4j) × (write_routes fault batch_size p rows g
        ≡ (ok stats, g'))
      × (stats.total_written ≡ length rows)
      × ((t : Text) → route_to p t g'.routes ≡ or_else (last_row t rows) (route_to p t g.routes))
unfolding write_routes last_row
write_routes-last_row fault batch_size up pos p [] g named there =
    (nothing_written, g, rw named, refl, λ t. refl)
write_routes-last_row fault batch_size up pos p (row ∷ rows) g named there = (
  _,
  _,
  write_routes-unwind fault batch_size up pos p row rows g named,
  omega arith,
  λ t.
      unwind-last_row p t (row ∷ rows) (with_services fault batch_size up pos (row ∷ rows) g)
        (with_services-Ready fault batch_size up pos p (row ∷ rows) g there),
)
