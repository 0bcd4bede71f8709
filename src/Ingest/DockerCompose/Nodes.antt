-- ===== src/Ingest/DockerCompose/Nodes.antt =====
-- The services and the relationships that the reader returns for a document.
use taboot.Prelude.{
  ◌≤◌, ◌≡◌, refl, Text, Bool, true, false, ◌||◌, Option, none, some, List, [], ◌∷◌, map, is_empty,
  codes, All, All-append, Bool-cases, inl, inr, arith, text_eq, text_eq_refl,
}
use taboot.Python.{ok}
use taboot.Python.Outcomes.{Returns, Outcome-cases, Returns-and_then, Returns-if, Returns-weaken}
use taboot.Ingest.DockerCompose.{
  Node, ServiceConfig, ComposeData, ServiceNode, Relationship, ComposeFile, FileSystem,
  is_yaml_error, read_service, add_service, read_services, read_services_field, read_compose,
  load_data, get_field,
}
use taboot.Ingest.DockerCompose.Ports.{Of, Added, read_service-Added}

unfoldable pub has_service : Text → List ServiceNode → Bool
has_service name [] = false
has_service name (s ∷ rest) = text_eq s.name name || has_service name rest

-- The relationship starts at one of the services.
abbrev pub Anchored : List ServiceNode → Relationship → Type 0
Anchored services (Relationship.depends_on source target) = has_service source services ≡ true
Anchored services (Relationship.binds source port protocol) =
    (has_service source services ≡ true) × (1 ≤ port) × (port ≤ 65535)

-- Every relationship of the file.
abbrev pub IsAnchored : ComposeFile → Type 0
IsAnchored file = All (Anchored file.services) file.relationships

-- What is anchored stays so among more services.
Anchored-cons :
    (s : ServiceNode) (services : List ServiceNode) (rels : List Relationship)
    → All (Anchored services) rels
    → All (Anchored (s ∷ services)) rels
unfolding has_service
Anchored-cons s services [] h = tt
Anchored-cons s services (Relationship.depends_on source target ∷ rels) (here, rest) =
    (ground arith, Anchored-cons s services rels rest)
Anchored-cons s services (Relationship.binds source port protocol ∷ rels) (here, rest) =
    ((ground arith, here.1, here.2), Anchored-cons s services rels rest)

Of-Anchored :
    (s : ServiceNode) (name : Text) (services : List ServiceNode) (rels : List Relationship)
    → s.name ≡ name
    → All (Of name) rels
    → All (Anchored (s ∷ services)) rels
unfolding has_service
Of-Anchored s name services [] e h = tt
Of-Anchored s name services (Relationship.depends_on source target ∷ rels) e (here, rest) =
    (rw (here, e) (rw (text_eq_refl name) refl), Of-Anchored s name services rels e rest)
Of-Anchored s name services (Relationship.binds source port protocol ∷ rels) e (here, rest) = (
  (rw (here.0, e) (rw (text_eq_refl name) refl), here.1, here.2),
  Of-Anchored s name services rels e rest,
)

-- The names of the services whose configuration is a dict, in order.
unfoldable pub configured : List (Text × ServiceConfig) → List Text
configured [] = []
configured ((name, Node.mapping _) ∷ rest) = name ∷ configured rest
configured ((name, Node.scalar _) ∷ rest) = configured rest
configured ((name, Node.sequence _) ∷ rest) = configured rest

-- The file has those services, and its relationships are anchored.
abbrev pub Holds : List (Text × ServiceConfig) → ComposeFile → Type 0
Holds services_data file =
    (map (λ s. s.name) file.services ≡ configured services_data) × IsAnchored file

module _ (fs : FileSystem) where
  read_services-Holds :
      (services_data : List (Text × ServiceConfig))
      → Returns (Holds services_data) (read_services fs services_data)
  unfolding read_services configured
  read_services-Holds [] = (refl, tt)
  read_services-Holds ((name, Node.scalar _) ∷ rest) = read_services-Holds rest
  read_services-Holds ((name, Node.sequence _) ∷ rest) = read_services-Holds rest
  read_services-Holds ((name, Node.mapping config) ∷ rest) =
      Returns-and_then (Added fs name) (Holds ((name, Node.mapping config) ∷ rest))
        (read_service fs name config) _ (read_service-Added fs name config)
        (λ (s, rels) (own, of).
          Returns-and_then (Holds rest) (Holds ((name, Node.mapping config) ∷ rest))
            (read_services fs rest) (λ file. ok (add_service fs (s, rels) file))
            (read_services-Holds rest)
            (λ file (named, anchored). (
              rw (own, named) refl,
              All-append (Anchored (s ∷ file.services)) rels file.relationships
                  (Of-Anchored s name file.services rels own of)
                  (Anchored-cons s file.services file.relationships anchored),
            )))

abbrev pub services_field : Option (Node ServiceConfig) → List (Text × ServiceConfig)
services_field (some (Node.mapping services_data)) = services_data
services_field _ = []

-- The services of a document, none where it has no such key.
abbrev pub services_of : ComposeData → List (Text × ServiceConfig)
services_of (Node.mapping compose_data) = services_field (get_field (codes "services") compose_data)
services_of _ = []

module _ (fs : FileSystem) where
  read_services_field-Holds :
      (o : Option (Node ServiceConfig))
      → Returns (Holds (services_field o)) (read_services_field fs o)
  read_services_field-Holds none = read_services-Holds fs []
  read_services_field-Holds (some (Node.mapping services_data)) =
      read_services-Holds fs services_data
  read_services_field-Holds (some (Node.scalar _)) = tt
  read_services_field-Holds (some (Node.sequence _)) = tt

  read_compose-Holds :
      (document : ComposeData) → Returns (Holds (services_of document)) (read_compose fs document)
  unfolding read_compose
  read_compose-Holds (Node.scalar _) = tt
  read_compose-Holds (Node.sequence _) = tt
  read_compose-Holds (Node.mapping compose_data) =
      Returns-if (Holds (services_field (get_field (codes "services") compose_data)))
        (is_empty compose_data) _ _ tt
        (read_services_field-Holds (get_field (codes "services") compose_data))

-- What `load_data` returns for a file, whatever the file holds, comes from the document that the YAML
-- parser returned: its services are those whose configuration is a dict, in their order, every
-- relationship starts at one of these services, and every bound port lies from 1 to 65535.
pub load_data-Holds :
    (fs : FileSystem) (file_path : Text)
    → Returns
        (λ file.
          (document : ComposeData) × (fs.safe_load file_path ≡ ok document)
          × Holds (services_of document) file)
        (load_data fs file_path)
unfolding load_data
load_data-Holds fs file_path = elim (Bool-cases (is_empty file_path)) [
  | inl none_there ↦ rw none_there tt
  | inr there ↦ rw there (elim (Bool-cases (fs.exists file_path)) [
    | inr missing ↦ rw missing tt
    | inl found ↦ rw found (elim (Outcome-cases (fs.safe_load file_path)) [
      | inr (e, broken) ↦ rw broken (elim (Bool-cases (is_yaml_error e.kind)) [
        | inl yaml ↦ rw yaml tt
        | inr other ↦ rw other tt
      ])
      | inl (document, parsed) ↦ rw parsed (
          Returns-weaken (Holds (services_of document)) _ (read_compose fs document)
            (read_compose-Holds fs document) (λ file h. (document, refl, h)))
    ])
  ])
]
