-- ===== src/Ingest/Unifi.antt =====
-- packages/ingest/readers/unifi.py: `UnifiReader`, from the login to the nodes and the logout. The HTTP
-- requests are a parameter: a request answers by its URL, or raises, and so does reading the answer's
-- JSON, whose shape is that of the API. `ipaddress.ip_address` is a parameter that says whether an address
-- is of IPv4. The constructor's checks of its arguments are in `init`.
pub mod Addresses
pub mod Closed
pub mod Topologies
use taboot.Prelude.{
  ℕ, zero, suc, ◌+◌, ◌-◌, Text, codes, Bool, true, false, not, ◌&&◌, ◌||◌, Option, none, some, List,
  [], ◌∷◌, ◌++◌, is_empty, leb, ◌==◌, if◌then◌else◌,
}
use taboot.Python.{
  Kind, Exn, Outcome, ok, raised, Exec, pure, raise, modify, lift, finally, finally_do, handled,
  try_except, and_then, ◌>>=◌, ◌>>◌,
}
use taboot.Python.Requests.{is_ssl_error, is_requests_connection_error, is_request_exception}
use taboot.Python.Values.{Value, Dict, get, or_default, truthy, as_text}

pub record Reply : Type 0 where
  -- Whether the entry `rc` of `meta` is "ok".
  pub rc_ok : Bool
  pub entries : List Dict

pub record Response : Type 0 where
  pub status_code : ℕ
  pub json : Outcome Reply

-- The reader's session, how many sessions are open, and the URLs that were posted to.
pub record Connection : Type 0 where
  pub session : Bool
  pub open_sessions : ℕ
  pub requests : List Text

pub record Controller : Type 0 where
  pub controller_url : Text
  pub site : Text
  pub post : Text → Outcome Response
  pub is_ipv4 : Value → Outcome Bool

pub record Host : Type 0 where
  pub hostname : Value
  pub mac : Text
  pub metadata : Dict

pub record IpNode : Type 0 where
  pub addr : Value
  pub ip_type : Text
  pub allocation : Text

-- A relationship LOCATED_AT.
pub record LocatedAt : Type 0 where
  pub source : Value
  pub target : Value

pub record Topology : Type 0 where
  pub hosts : List Host
  pub ips : List IpNode
  pub relationships : List LocatedAt

abbrev pub error_of : Kind → Text → Exn
error_of k message = record { kind = k; message = message }

abbrev pub auth_error : Exn
auth_error = error_of Kind.unifi_auth_error (codes "Authentication failed")

abbrev pub fetch_error : Exn
fetch_error = error_of Kind.unifi_error (codes "Failed to fetch")

abbrev pub not_authenticated : Exn
not_authenticated = error_of Kind.unifi_error (codes "Not authenticated")

abbrev pub invalid_mac : Exn
invalid_mac = error_of Kind.invalid_mac_error (codes "Invalid MAC address format")

abbrev pub invalid_ip : Exn
invalid_ip = error_of Kind.invalid_ip_error (codes "Invalid IP address")

abbrev pub not_a_string : Exn
not_a_string = error_of Kind.type_error (codes "expected string or bytes-like object")

abbrev pub is_value_kind : Kind → Bool
is_value_kind Kind.value_error = true
is_value_kind _ = false

abbrev pub is_hex : ℕ → Bool
is_hex c = (leb 48 c && leb c 57) || (leb 97 c && leb c 102) || (leb 65 c && leb c 70)

-- `$` also matches before a newline at the end.
abbrev pub at_end : Text → Bool
at_end [] = true
at_end (c ∷ []) = c == 10
at_end (c ∷ d ∷ t) = false

-- `([0-9a-fA-F]{2}:){n}[0-9a-fA-F]{2}$`
unfoldable pub matches_pairs : ℕ → Text → Bool
matches_pairs zero (a ∷ b ∷ t) = is_hex a && is_hex b && at_end t
matches_pairs (suc n) (a ∷ b ∷ c ∷ t) = is_hex a && is_hex b && c == 58 && matches_pairs n t
matches_pairs _ _ = false

-- The pattern of `_validate_mac_address`.
abbrev pub is_mac : Text → Bool
is_mac t = matches_pairs 5 t

abbrev check_mac : Option Text → Outcome Text
check_mac none = raised not_a_string
check_mac (some t) = if is_mac t then ok t else raised invalid_mac

abbrev pub validate_mac_address : Value → Outcome Text
validate_mac_address mac = check_mac (as_text mac)

-- `d.get(key, "")`
abbrev pub text_field : Text → Dict → Value
text_field key entry = or_default (Value.text []) (get key entry)

abbrev pub add_nodes : Value → Text → Dict → Value → Text → Text → Topology → Topology
add_nodes hostname mac metadata ip ip_type allocation t = record {
  hosts = t.hosts ++ record { hostname = hostname; mac = mac; metadata = metadata } ∷ [];
  ips = t.ips ++ record { addr = ip; ip_type = ip_type; allocation = allocation } ∷ [];
  relationships = t.relationships ++ record { source = hostname; target = ip } ∷ [];
}

abbrev pub device_metadata : Dict → Dict
device_metadata device =
    (codes "type", text_field (codes "type") device)
    ∷ (codes "model", text_field (codes "model") device)
    ∷ (codes "adopted", or_default (Value.boolean false) (get (codes "adopted") device))
    ∷ (codes "state", or_default (Value.number 0) (get (codes "state") device))
    ∷ []

abbrev pub client_metadata : Dict → Dict
client_metadata client =
    (codes "network", text_field (codes "network") client)
    ∷ (codes "is_wired", or_default (Value.boolean false) (get (codes "is_wired") client))
    ∷ []

-- `None` or the arguments that `__init__` refuses.
abbrev pub init : Text → Text → Text → Outcome Connection
init controller_url username password =
    if is_empty controller_url
    then raised (error_of Kind.value_error (codes "controller_url cannot be empty"))
    else if is_empty username
    then raised (error_of Kind.value_error (codes "username cannot be empty"))
    else if is_empty password
    then raised (error_of Kind.value_error (codes "password cannot be empty"))
    else ok (record { session = false; open_sessions = 0; requests = [] })

-- `for entry in entries`
unfoldable pub fold_entries :
    (Dict → Topology → Outcome Topology) → List Dict → Topology → Outcome Topology
fold_entries add [] t = ok t
fold_entries add (entry ∷ rest) t = and_then (add entry t) λ u. fold_entries add rest u

abbrev pub login_reply : Response → Outcome (Unit {0})
login_reply response =
    if response.status_code == 200
    then and_then response.json (λ reply. if reply.rc_ok then ok tt else raised auth_error)
    else raised auth_error

abbrev pub handle_login : Outcome (Unit {0}) → Outcome (Unit {0})
handle_login (ok _) = ok tt
handle_login (raised e) =
    if is_ssl_error e.kind
    then raised (error_of Kind.unifi_ssl_error e.message)
    else if is_requests_connection_error e.kind
    then raised (error_of Kind.unifi_connection_error e.message)
    else raised e

abbrev pub start_session : Connection → Connection
start_session r =
    if r.session then r else record r { session = true; open_sessions = r.open_sessions + 1 }

-- `self.session.close()` and `self.session = None`
abbrev pub close_session : Connection → Connection
close_session r =
    if r.session then record r { session = false; open_sessions = r.open_sessions - 1 } else r

abbrev fetch_reply : Response → Outcome (List Dict)
fetch_reply response =
    if response.status_code == 200
    then and_then response.json
        (λ reply. if reply.rc_ok then ok reply.entries else raised fetch_error)
    else raised fetch_error

abbrev handle_fetch : Outcome (List Dict) → Outcome (List Dict)
handle_fetch (ok entries) = ok entries
handle_fetch (raised e) = if is_request_exception e.kind then raised fetch_error else raised e

module _ (c : Controller) where
  -- `self.session.post(url)`
  abbrev pub session_post : Text → Exec Connection Response
  session_post url r = (c.post url, record r { requests = r.requests ++ url ∷ [] })

  abbrev pub logout_url : Text
  logout_url = c.controller_url ++ codes "/api/logout"

  -- Whatever the request raises is only logged; the session is closed however it ends.
  pub logout : Exec Connection (Unit {0})
  logout r =
      (if r.session
          then finally (try_except (session_post logout_url >> pure tt) (λ e. pure tt))
              close_session
          else pure tt)
        r

  abbrev ip_type_of : Outcome Bool → Outcome Text
  ip_type_of (ok true) = ok (codes "v4")
  ip_type_of (ok false) = ok (codes "v6")
  ip_type_of (raised e) = if is_value_kind e.kind then raised invalid_ip else raised e

  abbrev pub validate_ip_address : Value → Outcome Text
  validate_ip_address ip = ip_type_of (c.is_ipv4 ip)

  unfoldable pub add_device : Dict → Topology → Outcome Topology
  add_device device t =
      let mac = text_field (codes "mac") device in
      let ip = text_field (codes "ip") device in
      let name = text_field (codes "name") device in
      if not (truthy mac) || not (truthy ip) || not (truthy name)
      then ok t
      else and_then (validate_mac_address mac) λ valid_mac.
        and_then (validate_ip_address ip) λ ip_type.
          ok (add_nodes name valid_mac (device_metadata device) ip ip_type (codes "static") t)

  unfoldable pub add_client : Dict → Topology → Outcome Topology
  add_client client t =
      let mac = text_field (codes "mac") client in
      let ip = text_field (codes "ip") client in
      let hostname = text_field (codes "hostname") client in
      if not (truthy mac) || not (truthy ip)
      then ok t
      else and_then (validate_mac_address mac) λ valid_mac.
        and_then (validate_ip_address ip) λ ip_type. ok (
          add_nodes (if truthy hostname then hostname else mac) valid_mac (client_metadata client)
            ip ip_type (codes "dhcp") t)

  unfoldable pub extract : List Dict → List Dict → Outcome Topology
  extract devices clients =
      and_then
        (fold_entries add_device devices (record { hosts = []; ips = []; relationships = [] }))
        λ t. fold_entries add_client clients t

  unfoldable pub login : Exec Connection (Unit {0})
  login =
      modify start_session
      >> handled handle_login (
          session_post (c.controller_url ++ codes "/api/login") >>= λ response.
          lift (login_reply response))

  -- `_fetch_devices` and `_fetch_clients`, which differ in the URL
  unfoldable pub fetch : Text → Exec Connection (List Dict)
  fetch path r =
      (if r.session
          then handled handle_fetch (
              session_post (c.controller_url ++ codes "/api/s/" ++ c.site ++ path) >>= λ response.
              lift (fetch_reply response))
          else raise not_authenticated)
        r

  unfoldable pub read_topology : Exec Connection Topology
  read_topology = do
    login
    devices ← fetch (codes "/stat/device")
    clients ← fetch (codes "/stat/sta")
    lift (extract devices clients)

  unfoldable pub load_data : Exec Connection Topology
  load_data = finally_do read_topology logout
