-- ===== src/Tests/Readers.antt =====
-- packages/ingest/readers/docker_compose.py on one file and packages/ingest/readers/unifi.py and
-- tailscale.py on a few devices.
use taboot.Prelude.{
  leb, ltb, some, ◌&&◌, ℤ, codes, Text, ◌≡◌, refl, true, false, [], ◌∷◌, ◌++◌, text_eq,
  if◌then◌else◌,
}
use taboot.Python.{Kind, ok, raised}
use taboot.Python.Outcomes.{Returns}
use taboot.Python.Texts.{split_on, span}
use taboot.Ingest.DockerCompose.{
  Scalar, Node, Element, ServiceConfig, ComposeData, Relationship, FileSystem, error_of,
  parse_port_mapping, port_bindings, read_service, read_services, read_compose, load_data,
  get_field,
}
use taboot.Ingest.DockerCompose.Nodes.{Holds, services_of, load_data-Holds}
use taboot.Python.Values.{Value, Dict, get}
use taboot.Ingest.Unifi.{Connection, Controller, is_mac, matches_pairs, extract, read_topology}
use taboot.Ingest.Unifi
use taboot.Ingest.Tailscale
use taboot.Ingest.Tailscale.{Devices, api_error, fetch_devices}
use taboot.Ingest.Tailscale.Linked.{IsLinked, load_data-IsLinked}
use taboot.Ingest.Unifi.Closed.{load_data-closes}
use taboot.Ingest.Unifi.Topologies.{Entry, complete, Describes, extract-Describes}

abbrev word : Text → Element
word t = Node.scalar (Scalar.text t)

abbrev web_config : ServiceConfig
web_config = Node.mapping (
    (codes "image", Node.scalar (Scalar.text (codes "registry:5000/app")))
    ∷ (codes "ports", Node.sequence (word (codes "8080:80") ∷ word (codes "127.0.0.1:81:80") ∷ []))
    ∷ (codes "depends_on", Node.sequence (word (codes "db") ∷ []))
    ∷ [])

abbrev document : ComposeData
document = Node.mapping ((codes "services", Node.mapping ((codes "web", web_config) ∷ [])) ∷ [])

-- Reads the one number of the file.
abbrev fs : FileSystem
fs = record {
  exists = λ path. true;
  safe_load = λ path. ok document;
  int = λ t.
      if text_eq t (codes "8080")
      then ok (ℤ.pos 8080)
      else raised (error_of Kind.value_error (codes "invalid literal"));
  lower = λ t. t;
}

load_data-Holds_example :
    Returns
      (λ file.
        (d : ComposeData) × (fs.safe_load (codes "compose.yaml") ≡ ok d)
        × Holds (services_of d) file)
      (load_data fs (codes "compose.yaml"))
load_data-Holds_example = load_data-Holds fs (codes "compose.yaml")

-- The tag of an image on a registry with a port, and a port that is bound to one address.
file_read :
    load_data fs (codes "compose.yaml")
    ≡ ok (record {
      services =
          record {
            name = codes "web";
            image = Node.scalar (Scalar.text (codes "registry:5000/app"));
            version = codes "5000/app";
          }
          ∷ [];
      relationships =
          Relationship.depends_on (codes "web") (word (codes "db"))
          ∷ Relationship.binds (codes "web") 8080 (codes "tcp")
          ∷ [];
    })
unfolding load_data read_compose read_services read_service port_bindings parse_port_mapping
    get_field split_on span text_eq
file_read = refl

abbrev device : Text → Dict
device mac =
    (codes "mac", Value.text mac)
    ∷ (codes "ip", Value.text (codes "10.0.0.1"))
    ∷ (codes "name", Value.text (codes "switch"))
    ∷ []

abbrev mac_address : Text
mac_address = codes "00:11:22:aa:BB:cc"

abbrev controller : Controller
controller = record {
  controller_url = codes "https://unifi";
  site = codes "default";
  post = λ url. ok (record {
    status_code = 200;
    json = ok (record { rc_ok = true; entries = device mac_address ∷ [] });
  });
  is_ipv4 = λ ip. ok true;
}

abbrev fresh : Connection
fresh = record { session = false; open_sessions = 0; requests = [] }

-- The controller is gone when the reader logs out.
abbrev unplugged : Controller
unplugged = record controller {
  post = λ url.
      if text_eq url (codes "https://unifi/api/logout")
      then raised (error_of Kind.request_error (codes "gone"))
      else controller.post url;
}

load_data-closes_example :
    let (outcome, after) = Unifi.load_data unplugged fresh in
    (after.session ≡ false)
    × (after.open_sessions ≡ 0)
    × (outcome ≡ (read_topology unplugged fresh).0)
load_data-closes_example = load_data-closes unplugged fresh refl

extract-Describes_example :
    Returns
      (Describes controller (complete (device mac_address ∷ []) (device mac_address ∷ [] ∷ [])))
      (extract controller (device mac_address ∷ []) (device mac_address ∷ [] ∷ []))
extract-Describes_example =
    extract-Describes controller (device mac_address ∷ []) (device mac_address ∷ [] ∷ [])

-- The device and the client are extracted, and the entry without addresses is not.
two_complete :
    complete (device mac_address ∷ []) (device mac_address ∷ [] ∷ [])
    ≡ Entry.device (device mac_address) ∷ Entry.client (device mac_address) ∷ []
unfolding get text_eq
two_complete = refl

-- An address with a line break behind it passes, and one with a hyphen does not.
line_break_passes : is_mac (mac_address ++ 10 ∷ []) ≡ true
unfolding matches_pairs
line_break_passes = refl

hyphen_refused : is_mac (codes "00-11-22-aa-BB-cc") ≡ false
unfolding matches_pairs
hyphen_refused = refl

abbrev tailnet_device : Text → Tailscale.Device
tailnet_device name = record { hostname = some name; addresses = some (codes "100.64.1.10" ∷ []) }

abbrev refused_answer : Tailscale.DevicesResponse
refused_answer = record {
  status_code = 401;
  json =
      ok (
        Devices.listed
          (some (tailnet_device (codes "a")) ∷ some (tailnet_device (codes "b")) ∷ []));
}

abbrev served : Tailscale.DevicesResponse
served = record refused_answer { status_code = 200 }

abbrev tailnet_api : Tailscale.Api
tailnet_api = record {
  request = ok served;
  raises_for = λ s. leb 400 s && ltb s 600;
  is_true = λ s. ltb s 400;
  is_ipv4 = λ addr. ok true;
}

abbrev refusing : Tailscale.Api
refusing = record tailnet_api { request = ok refused_answer }

load_data-IsLinked_example : Returns IsLinked (Tailscale.load_data tailnet_api)
load_data-IsLinked_example = load_data-IsLinked tailnet_api
