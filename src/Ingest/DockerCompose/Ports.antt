-- ===== src/Ingest/DockerCompose/Ports.antt =====
-- The ports and the sources of a service's relationships.
use taboot.Prelude.{
  ℤ, ◌==◌, ◌&&◌, not, ◌≤◌, ◌≡◌, refl, Text, Bool, true, ◌||◌, Option, none, some, List, [], ◌∷◌,
  ◌++◌, map, codes, ltb, All, All-append, Bool-cases, inl, inr, arith,
}
use taboot.Python.{Outcome, ok, raised, Exn}
use taboot.Python.Outcomes.{Returns, Returns-and_then, Returns-any, Returns-if}
use taboot.Ingest.DockerCompose.{
  Scalar, Node, Element, Field, ServiceNode, Relationship, FileSystem, PortInfo, image_of, added,
  colon, check_port, check_host_port, parse_parts, parse_port_mapping, port_bindings, int_of_bool,
  add_binding, read_service, is_value_kind, extract_version_from_image, depends_targets, get_field,
}
use taboot.Python.Texts.{split_on}
use taboot.Extraction.Sentences.{strip}

-- The relationship starts at the service, and its port, if it has one, is a port.
abbrev pub Of : Text → Relationship → Type 0
Of name (Relationship.depends_on source target) = source ≡ name
Of name (Relationship.binds source port protocol) = (source ≡ name) × (1 ≤ port) × (port ≤ 65535)

abbrev Port : Option PortInfo → Type 0
Port none = Unit
Port (some info) = (1 ≤ info.port) × (info.port ≤ 65535)

check_port-Port : (n : ℤ) (protocol : Text) → Returns Port (check_port n protocol)
check_port-Port (ℤ.negsuc n) protocol = tt
check_port-Port (ℤ.pos n) protocol = elim (Bool-cases (ltb n 1 || ltb 65535 n)) [
  | inl out ↦ rw out tt
  | inr within ↦ rw within (ground arith, ground arith)
]

module _ (fs : FileSystem) where
  parse_parts-Port : (parts : List Text) → Returns Port (parse_parts fs parts)
  parse_parts-Port [] = tt
  parse_parts-Port (p ∷ []) = tt
  parse_parts-Port (host_port ∷ container_part ∷ rest) = host (fs.int _) _
    where
      host : (r : Outcome ℤ) (protocol : Text) → Returns Port (check_host_port fs r protocol)
      host (ok n) protocol = check_port-Port n protocol
      host (raised e) protocol = Returns-if Port (is_value_kind e.kind) _ _ tt tt

  parse_port_mapping-Port : (m : Element) → Returns Port (parse_port_mapping fs m)
  unfolding parse_port_mapping
  parse_port_mapping-Port (Node.scalar (Scalar.text t)) = parse_parts-Port (split_on 58 t)
  parse_port_mapping-Port (Node.scalar (Scalar.integer n)) = check_port-Port n _
  parse_port_mapping-Port (Node.scalar (Scalar.boolean b)) = check_port-Port (int_of_bool b) _
  parse_port_mapping-Port (Node.scalar Scalar.null) = tt
  parse_port_mapping-Port (Node.scalar (Scalar.other b)) = tt
  parse_port_mapping-Port (Node.sequence es) = tt
  parse_port_mapping-Port (Node.mapping es) = tt

  add_binding-Of :
      (name : Text) (o : Option PortInfo) (rest : List Relationship)
      → Port o
      → All (Of name) rest
      → All (Of name) (add_binding name o rest)
  add_binding-Of name none rest h k = k
  add_binding-Of name (some info) rest h k = ((refl, h.0, h.1), k)

  port_bindings-Of :
      (name : Text) (ms : List Element) → Returns (All (Of name)) (port_bindings fs name ms)
  unfolding port_bindings
  port_bindings-Of name [] = tt
  port_bindings-Of name (m ∷ ms) =
      Returns-and_then Port (All (Of name)) (parse_port_mapping fs m) _ (parse_port_mapping-Port m)
        (λ o h.
          Returns-and_then (All (Of name)) (All (Of name)) (port_bindings fs name ms) _
            (port_bindings-Of name ms) (λ rest k. add_binding-Of name o rest h k))

  depends_on-Of :
      (name : Text) (targets : List Element)
      → All (Of name) (map (λ target. Relationship.depends_on name target) targets)
  depends_on-Of name [] = tt
  depends_on-Of name (t ∷ ts) = (refl, depends_on-Of name ts)

  abbrev pub Added : Text → ServiceNode × List Relationship → Type 0
  Added name (service, relationships) = (service.name ≡ name) × All (Of name) relationships

  pub read_service-Added :
      (name : Text) (config : List (Text × Field))
      → Returns (Added name) (read_service fs name config)
  unfolding read_service
  read_service-Added name config =
      Returns-and_then (λ _. Unit {0}) (Added name) (extract_version_from_image (image_of config)) _
        (Returns-any _)
        (λ version _.
          Returns-and_then (All (Of name)) (Added name) (port_bindings fs name _)
            (λ bindings. ok (added name config version bindings)) (port_bindings-Of name _)
            (λ bindings h. (
              refl,
              All-append (Of name) _ bindings
                  (depends_on-Of name (depends_targets (get_field (codes "depends_on") config))) h,
            )))

-- No colon inside.
unfoldable pub is_part : Text → Bool
is_part [] = true
is_part (c ∷ t) = not (c == colon) && is_part t

split_on-part : (t : Text) → is_part t ≡ true → split_on colon t ≡ t ∷ []
unfolding split_on is_part
split_on-part [] h = refl
split_on-part (c ∷ t) h = elim (Bool-cases (c == colon)) [
  | inl e ↦ absurd (ground arith)
  | inr e ↦ rw (e, split_on-part t (ground arith))
]

split_on-break :
    (t rest : Text)
    → is_part t ≡ true
    → split_on colon (t ++ colon ∷ rest) ≡ t ∷ split_on colon rest
unfolding split_on is_part
split_on-break [] rest h = refl
split_on-break (c ∷ t) rest h = elim (Bool-cases (c == colon)) [
  | inl e ↦ absurd (ground arith)
  | inr e ↦ rw (e, split_on-break t rest (ground arith))
]

-- A mapping of three parts, as `127.0.0.1:8080:80`, is read as if its first part were the host's port
-- and the second the container's, whatever the third is: it means what the mapping without its third
-- part does, and where `int` refuses the first part with a `ValueError` no port is bound.
pub parse_port_mapping-three_parts :
    (fs : FileSystem) (host_ip host_port container_port : Text)
    → is_part host_ip ≡ true
    → is_part host_port ≡ true
    → let mapping : Element =
        Node.scalar (Scalar.text (host_ip ++ colon ∷ (host_port ++ colon ∷ container_port))) in
      (parse_port_mapping fs mapping
        ≡ parse_port_mapping fs (Node.scalar (Scalar.text (host_ip ++ colon ∷ host_port))))
      × ((e : Exn)
          → fs.int (strip host_ip) ≡ raised e
          → is_value_kind e.kind ≡ true
          → parse_port_mapping fs mapping ≡ ok none)
unfolding parse_port_mapping
parse_port_mapping-three_parts fs host_ip host_port container_port ip host =
    let whole : split_on colon (host_ip ++ colon ∷ (host_port ++ colon ∷ container_port))
        ≡ host_ip ∷ host_port ∷ split_on colon container_port =
      rw (split_on-break host_ip (host_port ++ colon ∷ container_port) ip)
        (rw (split_on-break host_port container_port host) refl) in
    let two : split_on colon (host_ip ++ colon ∷ host_port) ≡ host_ip ∷ host_port ∷ [] =
      rw (split_on-break host_ip host_port ip) (rw (split_on-part host_port host) refl) in
    (rw (whole, two) refl, λ e refused value. rw whole (rw refused (rw value refl)))
