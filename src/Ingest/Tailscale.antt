-- ===== src/Ingest/Tailscale.antt =====
-- packages/ingest/readers/tailscale.py: `TailscaleReader`. The request is a parameter, and so are the two
-- readings of a status by `requests`: when `raise_for_status` raises, and when a response counts as true.
-- Reading the JSON may raise; names and addresses are texts, as the API documents them.
-- `ipaddress.ip_address` is a parameter that says whether an address is of IPv4.
pub mod Linked
pub mod Statuses
use taboot.Prelude.{
  ℕ, Text, codes, Bool, true, false, ◌||◌, Option, none, some, List, [], ◌∷◌, ◌++◌, is_empty, ◌==◌,
  text_eq, if◌then◌else◌,
}
use taboot.Python.{Kind, Exn, Outcome, ok, raised, is_value_error, and_then}
use taboot.Python.Requests.{is_requests_timeout, is_request_exception}

pub record Device : Type 0 where
  pub hostname : Option Text
  pub addresses : Option (List Text)

-- The entry `devices` of the answer: a list, whose elements need not be dicts, or anything else.
pub data Devices : Type 0 where
  listed : List (Option Device) → Devices
  no_list : Devices

pub record DevicesResponse : Type 0 where
  pub status_code : ℕ
  pub json : Outcome Devices

pub record Api : Type 0 where
  pub request : Outcome DevicesResponse
  pub raises_for : ℕ → Bool
  pub is_true : ℕ → Bool
  pub is_ipv4 : Text → Outcome Bool

pub record AddressNode : Type 0 where
  pub addr : Text
  pub ip_type : Text

-- A relationship LOCATED_AT.
pub record Location : Type 0 where
  pub source : Text
  pub target : Text

pub record Tailnet : Type 0 where
  pub hosts : List Text
  pub ips : List AddressNode
  pub relationships : List Location
  pub seen_ips : List Text

abbrev pub api_error : Text → Exn
api_error message = record { kind = Kind.tailscale_api_error; message = message }

abbrev pub invalid_address : Exn
invalid_address = record { kind = Kind.invalid_ip_error; message = codes "Invalid IP address" }

unfoldable pub is_seen : Text → List Text → Bool
is_seen t [] = false
is_seen t (s ∷ rest) = text_eq s t || is_seen t rest

-- `[device for device in devices_raw if isinstance(device, dict)]`
unfoldable pub only_dicts : List (Option Device) → List Device
only_dicts [] = []
only_dicts (none ∷ rest) = only_dicts rest
only_dicts (some d ∷ rest) = d ∷ only_dicts rest

-- What the handler makes of the status that it sees.
abbrev pub status_error : Option ℕ → Exn
status_error none = api_error (codes "HTTP error fetching devices")
status_error (some status_code) =
    if status_code == 401
    then api_error (codes "Authentication failed - invalid API key")
    else if status_code == 429
    then api_error (codes "Rate limit exceeded")
    else api_error (codes "HTTP error fetching devices")

-- The handlers behind that of `HTTPError`.
abbrev pub request_error_of : Exn → Exn
request_error_of e =
    if is_requests_timeout e.kind
    then api_error (codes "Request timeout")
    else if is_request_exception e.kind
    then api_error (codes "Network error fetching devices")
    else api_error (codes "Failed to fetch devices from Tailscale API")

abbrev pub devices_of : Devices → Outcome (List Device)
devices_of (Devices.listed devices_raw) = ok (only_dicts devices_raw)
devices_of Devices.no_list = raised (request_error_of (api_error (codes "Expected a list")))

abbrev devices_of_json : Outcome Devices → Outcome (List Device)
devices_of_json (ok devices) = devices_of devices
devices_of_json (raised e) = raised (request_error_of e)

-- `api_key` and `tailnet`
abbrev pub init : Text → Text → Outcome (Unit {0})
init api_key tailnet =
    if is_empty api_key || is_empty tailnet
    then raised (record { kind = Kind.value_error; message = codes "cannot be empty" })
    else ok tt

abbrev pub add_location : Text → Text → Text → Tailnet → Tailnet
add_location hostname addr ip_type t = record t {
  ips =
      if is_seen addr t.seen_ips
      then t.ips
      else t.ips ++ record { addr = addr; ip_type = ip_type } ∷ [];
  seen_ips = if is_seen addr t.seen_ips then t.seen_ips else t.seen_ips ++ addr ∷ [];
  relationships = t.relationships ++ record { source = hostname; target = addr } ∷ [];
}

abbrev pub address_list : Option (List Text) → List Text
address_list none = []
address_list (some addresses) = addresses

module _ (api : Api) where
  -- `e.response.status_code if e.response else None`
  abbrev pub seen_status : ℕ → Option ℕ
  seen_status status_code = if api.is_true status_code then some status_code else none

  abbrev pub read_answer : Outcome DevicesResponse → Outcome (List Device)
  read_answer (raised e) = raised (request_error_of e)
  read_answer (ok response) =
      if api.raises_for response.status_code
      then raised (status_error (seen_status response.status_code))
      else devices_of_json response.json

  unfoldable pub fetch_devices : Outcome (List Device)
  fetch_devices = read_answer api.request

  abbrev classify : Outcome Bool → Outcome Text
  classify (ok true) = ok (codes "v4")
  classify (ok false) = ok (codes "v6")
  classify (raised e) = if is_value_error e.kind then raised invalid_address else raised e

  abbrev pub parse_ip_address : Text → Outcome Text
  parse_ip_address addr = classify (api.is_ipv4 addr)

  unfoldable pub add_addresses : Text → List Text → Tailnet → Outcome Tailnet
  add_addresses hostname [] t = ok t
  add_addresses hostname (addr ∷ rest) t =
      and_then (parse_ip_address addr)
        λ ip_type. add_addresses hostname rest (add_location hostname addr ip_type t)

  abbrev pub add_host : Text → List Text → Tailnet → Outcome Tailnet
  add_host hostname addresses t =
      if is_empty hostname
      then ok t
      else add_addresses hostname addresses (record t { hosts = t.hosts ++ hostname ∷ [] })

  abbrev pub add_named : Option Text → List Text → Tailnet → Outcome Tailnet
  add_named none addresses t = ok t
  add_named (some hostname) addresses t = add_host hostname addresses t

  abbrev pub add_device : Device → Tailnet → Outcome Tailnet
  add_device device t = add_named device.hostname (address_list device.addresses) t

  unfoldable pub add_devices : List Device → Tailnet → Outcome Tailnet
  add_devices [] t = ok t
  add_devices (device ∷ rest) t = and_then (add_device device t) λ u. add_devices rest u

  unfoldable pub load_data : Outcome Tailnet
  load_data = and_then fetch_devices λ devices.
      add_devices devices (record { hosts = []; ips = []; relationships = []; seen_ips = [] })
