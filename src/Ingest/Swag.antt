-- ===== src/Ingest/Swag.antt =====
-- packages/ingest/readers/swag.py: `SwagReader.parse_config`. The table of the characters that
-- `\b` takes for a word's is a parameter.
pub mod Locations
pub mod Directives
pub mod Blocks
pub mod Proxies
use taboot.Prelude.{
  ℕ, zero, suc, ◌+◌, ◌-◌, Text, codes, Bool, true, false, not, ◌&&◌, ◌||◌, Option, none, some, List,
  [], ◌∷◌, ◌++◌, length, is_empty, ltb, leb, ◌==◌, text_eq, if◌then◌else◌,
}
use taboot.Python.{
  Kind, Exn, Outcome, ok, raised, Exec, pure, raise, lift, and_then, try_except, ◌>>=◌,
}
use taboot.Python.Texts.{after_prefix, search, contains, count, span, split_lines, join_lines}
use taboot.Extraction.Sentences.{is_space, strip, split}
use taboot.Schemas.{Proxy, invalid, has_length}
use taboot.World.{World, Env, now_utc}
use taboot.Ingest.Swag.Locations.{extract_location_blocks}
use taboot.Ingest.Swag.Directives.{extract_server_name, extract_proxy_pass, extract_service_name}

abbrev pub swag_error : Text → Exn
swag_error message = record { kind = Kind.swag_reader_error; message = message }

abbrev pub mismatched : Exn
mismatched = swag_error (codes "Invalid nginx syntax: mismatched closing braces")

abbrev pub unclosed : Exn
unclosed = swag_error (codes "Invalid nginx syntax: unclosed server block")

-- The variables of the loop of `_extract_server_blocks`.
pub record ServerScan : Type 0 where
  pub server_blocks : List Text
  pub depth : ℕ
  pub current_block : List Text
  pub in_server : Bool

abbrev pub no_server : ServerScan
no_server = record { server_blocks = []; depth = 0; current_block = []; in_server = false }

-- `"server" in stripped and "{" in stripped`
unfoldable pub is_server_start : Text → Bool
is_server_start line =
    let stripped = strip line in contains (codes "server") stripped && contains (codes "{") stripped

unfoldable pub opens : Text → ℕ
opens line = count b'{' (strip line)

unfoldable pub closes : Text → ℕ
closes line = count b'}' (strip line)

-- A line inside a block. The depth below zero is an error, so it is never kept.
abbrev pub track_depth : ServerScan → Text → Outcome ServerScan
track_depth s line =
    let opened = s.depth + opens line in
    let block = s.current_block ++ line ∷ [] in
    if ltb opened (closes line)
    then raised mismatched
    else if opened == closes line
    then ok (record {
      server_blocks = s.server_blocks ++ join_lines block ∷ [];
      depth = 0;
      current_block = [];
      in_server = false;
    })
    else ok (record s { depth = opened - closes line; current_block = block })

abbrev pub scan_line : ServerScan → Text → Outcome ServerScan
scan_line s line =
    if is_server_start line
    then ok (record s { in_server = true; depth = 1; current_block = line ∷ [] })
    else if s.in_server
    then track_depth s line
    else ok s

unfoldable pub scan_lines : ServerScan → List Text → Outcome ServerScan
scan_lines s [] = ok s
scan_lines s (line ∷ lines) = and_then (scan_line s line) (λ s'. scan_lines s' lines)

abbrev pub check_closed : ServerScan → Outcome (List Text)
check_closed s = if s.in_server || not (s.depth == 0) then raised unclosed else ok s.server_blocks

unfoldable pub extract_server_blocks : Text → Outcome (List Text)
extract_server_blocks config = and_then (scan_lines no_server (split_lines config)) check_closed

pub record RouteInfo : Type 0 where
  pub host : Text
  pub path : Text
  pub target_service : Text
  pub tls : Bool

pub record ParsedConfig : Type 0 where
  pub proxies : List Proxy
  pub routes : List RouteInfo

module _ (env : Env) (proxy_name : Text) where
  unfoldable pub make_proxy : Option ℕ → Exec World Proxy
  make_proxy server_blocks = do
    now ← now_utc env
    if has_length 256 proxy_name
        then pure (record {
          name = proxy_name;
          created_at = now;
          updated_at = now;
          server_blocks = server_blocks;
        })
        else raise invalid

  -- A proxy without a route
  pub default_config : Exec World ParsedConfig
  default_config = do proxy ← make_proxy none; pure (record { proxies = proxy ∷ []; routes = [] })

module _ (is_word : ℕ → Bool) where
  -- `[^;]*\bssl\b` behind a character that is a word's or not.
  unfoldable pub ssl_follows : Bool → Text → Bool
  ssl_follows in_word [] = false
  ssl_follows in_word (c ∷ t) =
      let later = ssl_follows (is_word c) t in
      not (c == b';')
      && ((not in_word && elim (after_prefix (codes "ssl") (c ∷ t)) [
        | none ↦ false
        | some [] ↦ true
        | some (d ∷ rest) ↦ not (is_word d)
      ])
          || later)

  abbrev pub tls_at : Text → Option (Unit {0})
  tls_at t = elim (after_prefix (codes "listen") t) [
    | none ↦ none
    | some [] ↦ none
    | some (c ∷ rest) ↦ if is_space c && ssl_follows (is_word c) rest then some tt else none
  ]

  -- `re.search(r"listen\s+[^;]*\bssl\b", server_block)`
  unfoldable pub detect_tls : Text → Bool
  detect_tls server_block = elim (search tls_at server_block) [ none ↦ false | some _ ↦ true ]

  abbrev pub add_route :
      Text → Text → Bool → Text → Outcome (List RouteInfo) → Outcome (List RouteInfo)
  add_route host path tls proxy_pass rest =
      and_then (extract_service_name proxy_pass) (λ target_service. and_then rest (λ routes.
        ok (
          record { host = host; path = path; target_service = target_service; tls = tls }
          ∷ routes)))

  -- The loop over the location blocks.
  unfoldable pub routes_of : Text → Bool → List (Text × Text) → Outcome (List RouteInfo)
  routes_of server_name tls [] = ok []
  routes_of server_name tls ((location_path, location_content) ∷ blocks) =
      let rest = routes_of server_name tls blocks in
      elim (extract_proxy_pass location_content) [
        | none ↦ rest
        | some [] ↦ rest
        | some (c ∷ url) ↦ add_route server_name location_path tls (c ∷ url) rest
      ]

  unfoldable pub parse_server_block : Text → Outcome (List RouteInfo)
  parse_server_block server_block = elim (extract_server_name server_block) [
    | none ↦ ok []
    | some server_name ↦
        routes_of server_name (detect_tls server_block) (extract_location_blocks server_block)
  ]

  unfoldable pub parse_server_blocks : List Text → Outcome (List RouteInfo)
  parse_server_blocks [] = ok []
  parse_server_blocks (block ∷ blocks) =
      and_then (parse_server_block block)
        (λ routes. and_then (parse_server_blocks blocks) (λ others. ok (routes ++ others)))

module _ (is_word : ℕ → Bool) (env : Env) (proxy_name : Text) where
  unfoldable pub parse_blocks : List Text → Exec World ParsedConfig
  parse_blocks [] = default_config env proxy_name
  parse_blocks (block ∷ blocks) = do
    routes ← lift (parse_server_blocks is_word (block ∷ blocks))
    proxy ← make_proxy env proxy_name (some (length (block ∷ blocks)))
    pure (record { proxies = proxy ∷ []; routes = routes })

  unfoldable pub parse_config : Text → Exec World ParsedConfig
  parse_config config =
      if is_empty config || is_empty (strip config)
      then default_config env proxy_name
      else try_except (lift (extract_server_blocks config) >>= parse_blocks)
          (λ e. raise (swag_error (codes "Failed to parse nginx config: " ++ e.message)))
