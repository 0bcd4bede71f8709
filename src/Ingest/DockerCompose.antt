-- ===== src/Ingest/DockerCompose.antt =====
-- packages/ingest/readers/docker_compose.py: `DockerComposeReader.load_data`. The file system, the YAML
-- parser, `int` and `str.lower` are parameters. A document is read four levels deep: the services, their
-- fields, and the elements of these; what lies deeper is not looked at. Keys are texts.
pub mod Ports
pub mod Nodes
use taboot.Prelude.{
  ℕ, zero, suc, ℤ, Text, codes, Bool, true, false, not, ◌||◌, Option, none, some, List, [], ◌∷◌,
  ◌++◌, map, is_empty, ltb, leb, ◌==◌, text_eq, if◌then◌else◌,
}
use taboot.Python.{Kind, Exn, Outcome, ok, raised, and_then}
use taboot.Python.Texts.{span, split_on}
use taboot.Extraction.Sentences.{strip}

pub data Scalar : Type 0 where
  text : Text → Scalar
  integer : ℤ → Scalar
  boolean : Bool → Scalar
  null : Scalar
  -- A float or a date, by its truth.
  other : Bool → Scalar

-- A node of a document over nodes `A` below.
pub data Node (A : Type 0) : Type 0 where
  scalar : Scalar → Node A
  sequence : List A → Node A
  mapping : List (Text × A) → Node A

-- An element, a field of a service, a service, the services, and a document.
abbrev pub Element : Type 0
Element = Node (Unit {0})

abbrev pub Field : Type 0
Field = Node Element

abbrev pub ServiceConfig : Type 0
ServiceConfig = Node Field

abbrev pub ComposeData : Type 0
ComposeData = Node (Node ServiceConfig)

pub record ServiceNode : Type 0 where
  pub name : Text
  pub image : Field
  pub version : Text

pub data Relationship : Type 0 where
  depends_on : Text → Element → Relationship
  binds : Text → ℕ → Text → Relationship

pub record ComposeFile : Type 0 where
  pub services : List ServiceNode
  pub relationships : List Relationship

abbrev pub error_of : Kind → Text → Exn
error_of k message = record { kind = k; message = message }

abbrev pub invalid_yaml : Exn
invalid_yaml = error_of Kind.invalid_yaml_error (codes "Invalid compose file")

abbrev pub invalid_port : Exn
invalid_port = error_of Kind.invalid_port_error (codes "Port must be between 1 and 65535")

abbrev pub not_iterable : Exn
not_iterable = error_of Kind.type_error (codes "argument is not iterable")

abbrev pub no_split : Exn
no_split = error_of Kind.attribute_error (codes "object has no attribute 'split'")

-- `d.get(key)`
unfoldable pub get_field {ℓ} : {A : Type ℓ} → Text → List (Text × A) → Option A
get_field key [] = none
get_field key ((k, v) ∷ rest) = if text_eq k key then some v else get_field key rest

-- `d.get(key, default)`
abbrev pub get_or {ℓ} : {A : Type ℓ} → A → Option A → A
get_or default none = default
get_or default (some v) = v

abbrev pub last_part : List Text → Text
last_part [] = []
last_part (p ∷ []) = p
last_part (p ∷ q ∷ ps) = last_part (q ∷ ps)

abbrev pub colon : ℕ
colon = 58

-- `image.split(":")[-1] if ":" in image else ""`
abbrev pub tag_of : List Text → Text
tag_of (p ∷ q ∷ ps) = last_part (q ∷ ps)
tag_of _ = []

abbrev pub is_colon : Element → Bool
is_colon (Node.scalar (Scalar.text t)) = text_eq t (codes ":")
is_colon _ = false

abbrev pub any_colon : List Element → Bool
any_colon [] = false
any_colon (e ∷ es) = is_colon e || any_colon es

abbrev pub keys {ℓ} : {A : Type ℓ} → List (Text × A) → List Text
keys [] = []
keys ((k, v) ∷ rest) = k ∷ keys rest

abbrev pub any_colon_key : List Text → Bool
any_colon_key [] = false
any_colon_key (k ∷ ks) = text_eq k (codes ":") || any_colon_key ks

abbrev pub if_false : Bool → Outcome Text
if_false false = ok []
if_false true = raised not_iterable

abbrev pub is_zero : ℤ → Bool
is_zero (ℤ.pos zero) = true
is_zero _ = false

-- `_extract_version_from_image`, of whatever the field holds
abbrev pub extract_version_from_image : Field → Outcome Text
extract_version_from_image (Node.scalar (Scalar.text t)) = ok (tag_of (split_on colon t))
extract_version_from_image (Node.scalar (Scalar.integer n)) = if_false (not (is_zero n))
extract_version_from_image (Node.scalar (Scalar.boolean b)) = if_false b
extract_version_from_image (Node.scalar Scalar.null) = ok []
extract_version_from_image (Node.scalar (Scalar.other b)) = if_false b
extract_version_from_image (Node.sequence es) = if any_colon es then raised no_split else ok []
extract_version_from_image (Node.mapping fields) =
    if any_colon_key (keys fields) then raised no_split else ok []

pub record PortInfo : Type 0 where
  pub port : ℕ
  pub protocol : Text

-- `port < 1 or port > 65535`
abbrev pub check_port : ℤ → Text → Outcome (Option PortInfo)
check_port (ℤ.negsuc n) protocol = raised invalid_port
check_port (ℤ.pos n) protocol =
    if ltb n 1 || ltb 65535 n
    then raised invalid_port
    else ok (some (record { port = n; protocol = protocol }))

abbrev pub int_of_bool : Bool → ℤ
int_of_bool true = ℤ.pos 1
int_of_bool false = ℤ.pos 0

abbrev pub slash : ℕ
slash = 47

-- `except ValueError: return None`
abbrev pub is_value_kind : Kind → Bool
is_value_kind Kind.value_error = true
is_value_kind _ = false

pub record FileSystem : Type 0 where
  pub exists : Text → Bool
  -- `yaml.safe_load` of the open file
  pub safe_load : Text → Outcome ComposeData
  pub int : Text → Outcome ℤ
  pub lower : Text → Text

abbrev pub is_yaml_error : Kind → Bool
is_yaml_error Kind.yaml_error = true
is_yaml_error _ = false

-- The targets of `depends_on`: a list's elements or a dict's keys.
abbrev pub depends_targets : Option Field → List Element
depends_targets (some (Node.sequence es)) = es
depends_targets (some (Node.mapping fields)) = map (λ k. Node.scalar (Scalar.text k)) (keys fields)
depends_targets _ = []

abbrev pub port_mappings : Option Field → List Element
port_mappings (some (Node.sequence es)) = es
port_mappings _ = []

abbrev pub add_binding : Text → Option PortInfo → List Relationship → List Relationship
add_binding name none rest = rest
add_binding name (some info) rest = Relationship.binds name info.port info.protocol ∷ rest

-- `service_config.get("image", "")`
abbrev pub image_of : List (Text × Field) → Field
image_of service_config =
    get_or (Node.scalar (Scalar.text [])) (get_field (codes "image") service_config)

-- What one service adds.
abbrev pub added :
    Text → List (Text × Field) → Text → List Relationship → ServiceNode × List Relationship
added service_name service_config version bindings = (
  record { name = service_name; image = image_of service_config; version = version },
  map (λ target. Relationship.depends_on service_name target)
        (depends_targets (get_field (codes "depends_on") service_config))
      ++ bindings,
)

module _ (fs : FileSystem) where
  -- What stands behind the first slash, in lower case.
  abbrev protocol_of : Text × Text → Text
  protocol_of (front, []) = codes "tcp"
  protocol_of (front, c ∷ protocol) = fs.lower protocol

  abbrev check_host_port : Outcome ℤ → Text → Outcome (Option PortInfo)
  check_host_port (ok port) protocol = check_port port protocol
  check_host_port (raised e) protocol = if is_value_kind e.kind then ok none else raised e

  abbrev pub parse_parts : List Text → Outcome (Option PortInfo)
  parse_parts (host_port ∷ container_part ∷ rest) =
      check_host_port (fs.int (strip host_port))
        (protocol_of (span (λ c. not (c == slash)) (strip container_part)))
  parse_parts _ = ok none

  unfoldable pub parse_port_mapping : Element → Outcome (Option PortInfo)
  parse_port_mapping (Node.scalar (Scalar.integer n)) = check_port n (codes "tcp")
  parse_port_mapping (Node.scalar (Scalar.boolean b)) = check_port (int_of_bool b) (codes "tcp")
  parse_port_mapping (Node.scalar (Scalar.text t)) = parse_parts (split_on colon t)
  parse_port_mapping _ = ok none

  unfoldable pub port_bindings : Text → List Element → Outcome (List Relationship)
  port_bindings name [] = ok []
  port_bindings name (port_mapping ∷ rest) = and_then (parse_port_mapping port_mapping) λ port_info.
      and_then (port_bindings name rest) λ bindings. ok (add_binding name port_info bindings)

  unfoldable pub read_service :
      Text → List (Text × Field) → Outcome (ServiceNode × List Relationship)
  read_service service_name service_config =
      and_then (extract_version_from_image (image_of service_config)) λ version.
        and_then
          (port_bindings service_name (port_mappings (get_field (codes "ports") service_config)))
          λ bindings. ok (added service_name service_config version bindings)

  abbrev pub add_service : ServiceNode × List Relationship → ComposeFile → ComposeFile
  add_service (service, relationships) rest = record {
    services = service ∷ rest.services;
    relationships = relationships ++ rest.relationships;
  }

  -- `for service_name, service_config in services_data.items()`
  unfoldable pub read_services : List (Text × ServiceConfig) → Outcome ComposeFile
  read_services [] = ok (record { services = []; relationships = [] })
  read_services ((service_name, Node.mapping service_config) ∷ rest) =
      and_then (read_service service_name service_config)
        λ service. and_then (read_services rest) λ services. ok (add_service service services)
  read_services ((service_name, Node.scalar _) ∷ rest) = read_services rest
  read_services ((service_name, Node.sequence _) ∷ rest) = read_services rest

  abbrev pub read_services_field : Option (Node ServiceConfig) → Outcome ComposeFile
  read_services_field none = read_services []
  read_services_field (some (Node.mapping services_data)) = read_services services_data
  read_services_field (some _) = raised invalid_yaml

  unfoldable pub read_compose : ComposeData → Outcome ComposeFile
  read_compose (Node.mapping compose_data) =
      if is_empty compose_data
      then raised invalid_yaml
      else read_services_field (get_field (codes "services") compose_data)
  read_compose _ = raised invalid_yaml

  abbrev wrap_yaml_error : Outcome ComposeData → Outcome ComposeData
  wrap_yaml_error (ok compose_data) = ok compose_data
  wrap_yaml_error (raised e) = if is_yaml_error e.kind then raised invalid_yaml else raised e

  unfoldable pub load_data : Text → Outcome ComposeFile
  load_data file_path =
      if is_empty file_path
      then raised (error_of Kind.value_error (codes "file_path cannot be empty"))
      else if fs.exists file_path
      then and_then (wrap_yaml_error (fs.safe_load file_path)) read_compose
      else raised (error_of Kind.docker_compose_error (codes "File not found"))
