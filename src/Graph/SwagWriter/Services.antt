-- ===== src/Graph/SwagWriter/Services.antt =====
-- Which services have a node after the first loop of `write_routes`.
use taboot.Prelude.{
  Text, ◌≡◌, refl, true, ◌||◌, inl, inr, List, [], ◌∷◌, ◌++◌, map, All, text_eq, text_eq_refl,
  text_eq_sound, Bool-cases, arith,
}
use taboot.Ingest.Swag.{RouteInfo}
use taboot.Graph.SwagWriter.{Neo4j, has_text, add_key, add_keys, service_row, unwind}

has_text-append :
    (t : Text) (ts us : List Text) → has_text t (ts ++ us) ≡ (has_text t ts || has_text t us)
unfolding has_text
has_text-append t [] us = refl
has_text-append t (u ∷ ts) us = ground (arith, has_text-append t ts us)

has_text-add_key :
    (t u : Text) (ts : List Text) → has_text t ts ≡ true → has_text t (add_key u ts) ≡ true
unfolding add_key
has_text-add_key t u ts h = elim (Bool-cases (has_text u ts)) [
  | inl old ↦ rw old h
  | inr new ↦ rw new (rw (has_text-append t ts (u ∷ [])) (rw h))
]

has_text-one : (t : Text) → has_text t (t ∷ []) ≡ true
unfolding has_text
has_text-one t = rw (text_eq_refl t)

has_text-added : (t : Text) (ts : List Text) → has_text t (add_key t ts) ≡ true
unfolding add_key
has_text-added t ts = elim (Bool-cases (has_text t ts)) [
  | inl old ↦ rw old old
  | inr new ↦ rw new (rw (has_text-append t ts (t ∷ []), new) (has_text-one t))
]

has_text-add_keys :
    (t : Text) (ts seen : List Text) → has_text t seen ≡ true → has_text t (add_keys ts seen) ≡ true
unfolding add_keys
has_text-add_keys t [] seen h = h
has_text-add_keys t (u ∷ ts) seen h =
    has_text-add_keys t ts (add_key u seen) (has_text-add_key t u seen h)

-- Every key that is added is there at the end.
pub has_text-all :
    (t : Text) (ts seen : List Text) → has_text t ts ≡ true → has_text t (add_keys ts seen) ≡ true
unfolding has_text add_keys
has_text-all t [] seen h = ground arith
has_text-all t (u ∷ ts) seen h = elim (Bool-cases (text_eq u t)) [
  | inl same ↦
      let e : u ≡ t = text_eq_sound u t same in
      has_text-add_keys t ts (add_key u seen) (rw e (has_text-added t seen))
  | inr other ↦
      let later : has_text t ts ≡ true = rw other at h in has_text-all t ts (add_key u seen) later
]

pub unwind-service_row :
    (ts : List Text) (g : Neo4j)
    → unwind service_row ts g ≡ record g { services = add_keys ts g.services }
unfolding unwind add_keys
unwind-service_row [] g = refl
unwind-service_row (t ∷ ts) g = unwind-service_row ts (service_row t g)

pub All-map_has :
    (rows : List RouteInfo) (names : List Text)
    → ((t : Text) → has_text t (map (λ r. r.target_service) rows) ≡ true → has_text t names ≡ true)
    → All (λ row. has_text row.target_service names ≡ true) rows
unfolding has_text
All-map_has [] names h = tt
All-map_has (row ∷ rows) names h = (
  h row.target_service (rw (text_eq_refl row.target_service)),
  All-map_has rows names (λ t k. h t (ground arith)),
)
