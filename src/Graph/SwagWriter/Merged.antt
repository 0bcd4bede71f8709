-- ===== src/Graph/SwagWriter/Merged.antt =====
-- Which relationship a service has after the rows of a configuration are merged.
use taboot.Prelude.{
  Text, ◌≡◌, refl, sym, ◌∙◌, true, false, Option, none, some, inl, inr, List, [], ◌∷◌, ◌++◌, All,
  text_eq, text_eq_refl, text_eq_sound, Bool-cases, arith, if◌then◌else◌,
}
use taboot.Python.Texts.{or_else}
use taboot.Ingest.Swag.{RouteInfo}
use taboot.Graph.SwagWriter.{
  RoutesTo, Neo4j, has_text, has_proxy, joins, set_routes, has_route, merge_route, route_row,
  unwind,
}

-- What the graph says of the routes of a proxy to a service: of the first such relationship.
unfoldable pub route_to : Text → Text → List RoutesTo → Option RouteInfo
route_to proxy_name service [] = none
route_to proxy_name service (r ∷ rs) =
    if joins proxy_name service r then some r.route else route_to proxy_name service rs

-- The last of the rows for a service.
unfoldable pub last_row : Text → List RouteInfo → Option RouteInfo
last_row service [] = none
last_row service (row ∷ rows) =
    or_else (last_row service rows) (if text_eq row.target_service service then some row else none)

route_to-set :
    (p : Text) (row : RouteInfo) (rs : List RoutesTo)
    → has_route p row.target_service rs ≡ true
    → route_to p row.target_service (set_routes p row rs) ≡ some row
unfolding route_to set_routes has_route
route_to-set p row [] h = ground arith
route_to-set p row (r ∷ rs) h = elim (Bool-cases (joins p row.target_service r)) [
  | inl joined ↦ rw joined (ground (arith, text_eq_refl p, text_eq_refl row.target_service))
  | inr apart ↦
      let later : has_route p row.target_service rs ≡ true = rw apart at h in
      rw apart (rw apart (route_to-set p row rs later))
]

joined_service : (p t : Text) (r : RoutesTo) → joins p t r ≡ true → r.route.target_service ≡ t
joined_service p t r h = text_eq_sound r.route.target_service t (ground arith)

joins-other :
    (p q t u : Text) (r : RoutesTo) → joins p t r ≡ true → text_eq t u ≡ false → joins q u r ≡ false
joins-other p q t u r h other =
    let apart : text_eq r.route.target_service u ≡ false = rw (joined_service p t r h) other in
    ground arith

route_to-set_other :
    (p t : Text) (row : RouteInfo) (rs : List RoutesTo)
    → text_eq row.target_service t ≡ false
    → route_to p t (set_routes p row rs) ≡ route_to p t rs
unfolding route_to set_routes
route_to-set_other p t row [] other = refl
route_to-set_other p t row (r ∷ rs) other = elim (Bool-cases (joins p row.target_service r)) [
  | inl joined ↦
      let new : joins p t (record { proxy = p; route = row }) ≡ false = ground arith in
      rw (joined, new, joins-other p p row.target_service t r joined other)
        (route_to-set_other p t row rs other)
  | inr apart ↦ rw (apart, route_to-set_other p t row rs other)
]

route_to-append :
    (p t : Text) (r : RoutesTo) (rs : List RoutesTo)
    → route_to p t (rs ++ r ∷ [])
      ≡ or_else (route_to p t rs) (if joins p t r then some r.route else none)
unfolding route_to
route_to-append p t r [] = refl
route_to-append p t r (s ∷ rs) = elim (Bool-cases (joins p t s)) [
  | inl joined ↦ rw joined
  | inr apart ↦ rw apart (route_to-append p t r rs)
]

route_to-none :
    (p t : Text) (rs : List RoutesTo) → has_route p t rs ≡ false → route_to p t rs ≡ none
unfolding route_to has_route
route_to-none p t [] h = refl
route_to-none p t (r ∷ rs) h = ground (arith, route_to-none p t rs)

-- A merged row is what the graph says of its service, and nothing else changes.
merge_route-same :
    (p : Text) (row : RouteInfo) (rs : List RoutesTo)
    → route_to p row.target_service (merge_route p row rs) ≡ some row
unfolding merge_route
merge_route-same p row rs = elim (Bool-cases (has_route p row.target_service rs)) [
  | inl old ↦ rw old (route_to-set p row rs old)
  | inr new ↦ rw new (
      route_to-append p row.target_service (record { proxy = p; route = row }) rs
      ∙ rw (route_to-none p row.target_service rs new)
          (rw (text_eq_refl p, text_eq_refl row.target_service) refl))
]

or_else-none {ℓ} : {A : Type ℓ} (o : Option A) → or_else o none ≡ o
or_else-none none = refl
or_else-none (some a) = refl

merge_route-other :
    (p t : Text) (row : RouteInfo) (rs : List RoutesTo)
    → text_eq row.target_service t ≡ false
    → route_to p t (merge_route p row rs) ≡ route_to p t rs
unfolding merge_route
merge_route-other p t row rs other = elim (Bool-cases (has_route p row.target_service rs)) [
  | inl old ↦ rw old (route_to-set_other p t row rs other)
  | inr new ↦
      let apart : joins p t (record { proxy = p; route = row }) ≡ false = ground arith in
      rw new (
        route_to-append p t (record { proxy = p; route = row }) rs
        ∙ rw apart (or_else-none (route_to p t rs)))
]

-- The rows of a proxy that has a node, to services that have one.
abbrev pub Ready : Text → List RouteInfo → Neo4j → Type 0
Ready p rows g =
    (has_proxy p g.proxies ≡ true) × All (λ row. has_text row.target_service g.services ≡ true) rows

merge_route-last :
    (p t : Text) (row : RouteInfo) (rest : Option RouteInfo) (rs : List RoutesTo)
    → or_else rest (route_to p t (merge_route p row rs))
      ≡ or_else
          (or_else rest (if text_eq row.target_service t then some row else none))
          (route_to p t rs)
merge_route-last p t row (some x) rs = refl
merge_route-last p t row none rs = elim (Bool-cases (text_eq row.target_service t)) [
  | inl same ↦
      let e : row.target_service ≡ t = text_eq_sound row.target_service t same in
      rw same (rw (sym e) (merge_route-same p row rs))
  | inr other ↦ rw other (merge_route-other p t row rs other)
]

route_row-ready :
    (p : Text) (row : RouteInfo) (g : Neo4j)
    → has_proxy p g.proxies ≡ true
    → has_text row.target_service g.services ≡ true
    → route_row p row g ≡ record g { routes = merge_route p row g.routes }
unfolding route_row
route_row-ready p row g proxy service = rw (proxy, service)

-- Merging rows in order leaves, for each service, the last row, or what was there.
pub unwind-last_row :
    (p t : Text) (rows : List RouteInfo) (g : Neo4j)
    → Ready p rows g
    → route_to p t (unwind (route_row p) rows g).routes
      ≡ or_else (last_row t rows) (route_to p t g.routes)
unfolding unwind last_row
unwind-last_row p t [] g h = refl
unwind-last_row p t (row ∷ rows) g (proxy, (service, rest)) =
    rw (unwind, route_row-ready p row g proxy service)
      (unwind-last_row p t rows (record g { routes = merge_route p row g.routes }) (proxy, rest)
        ∙ merge_route-last p t row (last_row t rows) g.routes)
