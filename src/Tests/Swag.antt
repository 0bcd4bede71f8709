-- ===== src/Tests/Swag.antt =====
-- packages/ingest/readers/swag.py, packages/graph/writers/swag_writer.py and
-- packages/core/use_cases/ingest_swag.py on one configuration with two routes to one service.
use mathlib.Core.List.{flatten}
use taboot.Prelude.{
  ℕ, Text, codes, ◌≡◌, refl, Bool, true, ◌&&◌, none, some, List, [], ◌∷◌, All, leb, text_eq, arith,
}
use taboot.Python.{Kind, Exn, ok, raised, try_else, ◌>>=◌}
use taboot.Python.Texts.{
  or_else, search, after_prefix, split_on, count, span, split_on, join_lines, is_line,
}
use taboot.Extraction.Sentences.{split}
use taboot.Schemas.{Proxy}
use taboot.World.{now_utc}
use taboot.Ingest.Swag.{
  RouteInfo, ParsedConfig, unclosed, is_server_start, opens, closes, scan_lines,
  extract_server_blocks, ssl_follows, detect_tls, routes_of, parse_server_block,
  parse_server_blocks, make_proxy, parse_blocks, parse_config,
}
use taboot.Ingest.Swag.Directives.{
  directive, extract_server_name, extract_proxy_pass, extract_service_name,
}
use taboot.Ingest.Swag.Locations.{location_path, location_lines, extract_location_blocks}
use taboot.Ingest.Swag.Blocks.{
  Part, IsPart, config_lines, block_texts, extract_server_blocks-parts, open_block_lost,
}
use taboot.Graph.BatchedWriter.{Statistics}
use taboot.Graph.SwagWriter.{Neo4j, has_proxy, write_routes}
use taboot.Graph.SwagWriter.Merged.{route_to, last_row}
use taboot.Graph.SwagWriter.Written.{write_routes-last_row}
use taboot.UseCases.IngestSwag.{Files, Stack, execute}
use taboot.UseCases.IngestSwag.Refused.{ingest_swag-IsRefused}
use taboot.Graph.SwagWriter.Proxied.{IsRefused}
use taboot.Tests.Pipeline.{env, world}

abbrev is_word : ℕ → Bool
is_word c = leb b'a' c && leb c b'z'

abbrev body : List Text
body =
    codes "  listen 443 ssl;"
    ∷ codes "  server_name a.example;"
    ∷ codes "  location / {"
    ∷ codes "    proxy_pass http://web:80;"
    ∷ codes "  }"
    ∷ codes "  location /b {"
    ∷ codes "    proxy_pass http://web:81;"
    ∷ codes "  }"
    ∷ codes "}"
    ∷ []

abbrev parts : List Part
parts = Part.outside (codes "# edge") ∷ Part.server (codes "server {") body ∷ []

parts_good : All IsPart parts
unfolding is_server_start opens closes search after_prefix count
parts_good = (
  refl,
  (
    (
      refl,
      ((
        refl,
        omega arith,
        (
          refl,
          omega arith,
          (
            refl,
            omega arith,
            (
              refl,
              omega arith,
              (
                refl,
                omega arith,
                (refl, omega arith, (refl, omega arith, (refl, omega arith, (refl, refl)))),
              ),
            ),
          ),
        ),
      )),
    ),
    tt,
  ),
)

parts_lines : All (λ l. is_line l ≡ true) (config_lines parts)
unfolding is_line flatten
parts_lines =
    (refl, (refl, (refl, (refl, (refl, (refl, (refl, (refl, (refl, (refl, (refl, tt)))))))))))

extract_server_blocks-parts_example :
    extract_server_blocks (join_lines (config_lines parts)) ≡ ok (block_texts parts)
extract_server_blocks-parts_example = extract_server_blocks-parts parts parts_good parts_lines

-- A block is open where a location has the word in its path.
open_block_lost_example :
    extract_server_blocks (
      join_lines (
        codes "server {"
        ∷ codes "server_name a;"
        ∷ codes "location /server {"
        ∷ codes "}"
        ∷ codes "}"
        ∷ []))
    ≡ extract_server_blocks (join_lines (codes "location /server {" ∷ codes "}" ∷ codes "}" ∷ []))
unfolding is_server_start opens closes search after_prefix count is_line
open_block_lost_example =
    open_block_lost (codes "server {") (codes "server_name a;" ∷ []) (codes "location /server {")
      (codes "}" ∷ codes "}" ∷ []) refl (refl, omega arith, tt) refl
      (refl, (refl, (refl, (refl, (refl, tt)))))

-- A block in one line is never closed.
one_line_refused : extract_server_blocks (codes "server { listen 80; }") ≡ raised unclosed
unfolding extract_server_blocks scan_lines split_on is_server_start search after_prefix
one_line_refused = refl

abbrev config : Text
config = join_lines (config_lines parts)

abbrev first_route : RouteInfo
first_route = record {
  host = codes "a.example";
  path = codes "/";
  target_service = codes "web";
  tls = true;
}

abbrev second_route : RouteInfo
second_route = record {
  host = codes "a.example";
  path = codes "/b";
  target_service = codes "web";
  tls = true;
}

abbrev swag : Proxy
swag = record { name = codes "swag"; created_at = 100; updated_at = 100; server_blocks = some 1 }

abbrev parsed : ParsedConfig
parsed = record { proxies = swag ∷ []; routes = first_route ∷ second_route ∷ [] }

config_parsed : (parse_config is_word env (codes "swag") config world).0 ≡ ok parsed
unfolding parse_config parse_blocks make_proxy parse_server_blocks parse_server_block routes_of
    detect_tls ssl_follows extract_server_blocks scan_lines is_server_start opens closes search
    after_prefix count span split_on join_lines directive extract_server_name extract_proxy_pass
    extract_service_name location_path location_lines extract_location_blocks split now_utc flatten
    try_else ◌>>=◌ text_eq
config_parsed = refl

abbrev graph : Neo4j
graph = record { proxies = swag ∷ []; services = []; routes = []; calls = 0 }

write_routes-last_row_example :
    (stats : Statistics) × (g' : Neo4j) × (write_routes
        (λ n. none)
        2
        (codes "swag")
        (first_route ∷ second_route ∷ [])
        graph
      ≡ (ok stats, g'))
    × (stats.total_written ≡ 2)
    × ((t : Text)
        → route_to (codes "swag") t g'.routes
          ≡ or_else (last_row t (first_route ∷ second_route ∷ [])) none)
unfolding has_proxy route_to text_eq
write_routes-last_row_example =
    write_routes-last_row (λ n. none) 2 (λ n. refl) (omega arith) (codes "swag")
      (first_route ∷ second_route ∷ []) graph refl refl

-- The later of two routes to a service.
last_row_later : last_row (codes "web") (first_route ∷ second_route ∷ []) ≡ some second_route
unfolding last_row text_eq
last_row_later = refl

abbrev files : Files
files = record { exists = λ p. true; is_file = λ p. true; read_text = λ p. ok config }

abbrev stack : Stack
stack = record {
  world = world;
  graph = record { proxies = []; services = []; routes = []; calls = 0 };
}

abbrev no_maps : Exn
no_maps = record {
  kind = Kind.other_error;
  message = codes "Property values can only be of primitive types or arrays thereof";
}

ingest_swag-IsRefused_example :
    let (r, after) =
      execute is_word env
        (codes "swag")
        files
        (λ n. none)
        (some no_maps)
        2000
        (codes "swag.conf")
        stack in
    IsRefused stack.graph (r, after.graph)
ingest_swag-IsRefused_example =
    ingest_swag-IsRefused is_word env (codes "swag") files (λ n. none) no_maps 2000 (omega arith)
      (codes "swag.conf") config parsed stack (refl, refl, refl, refl) config_parsed
