-- ===== src/Ingest/Unifi/Topologies.antt =====
-- The nodes and the relationships that a load returns.
use taboot.Prelude.{
  ◌≡◌, refl, ap, ◌∙◌, sym, ◌⊎◌, inl, inr, Text, codes, Bool, true, false, ◌&&◌, Option, none, some,
  List, [], ◌∷◌, ◌++◌, map, filter, append-nil, append_assoc, Bool-cases, if◌then◌else◌,
}
use taboot.Python.{Outcome, ok, raised, and_then}
use taboot.Python.Outcomes.{Returns, Returns-and_then}
use taboot.Python.Values.{Value, Dict, get, or_default, truthy}
use taboot.Ingest.Unifi.{
  Controller, Host, IpNode, LocatedAt, Topology, is_mac, is_value_kind, text_field,
  validate_mac_address, validate_ip_address, add_nodes, add_device, add_client, fold_entries,
  extract,
}
use taboot.Ingest.Unifi.Addresses.{IsMac, is_mac-IsMac}

-- An entry of the controller's answer about a device, or about a client.
pub data Entry : Type 0 where
  device : Dict → Entry
  client : Dict → Entry

abbrev pub dict_of : Entry → Dict
dict_of (Entry.device d) = d
dict_of (Entry.client d) = d

-- A device by its name, a client by its host name, or by its MAC address where that is missing or empty.
abbrev pub IsNamed : Entry → Value → Type 0
IsNamed (Entry.device d) v = get (codes "name") d ≡ some v
IsNamed (Entry.client d) v =
    ((get (codes "hostname") d ≡ some v) × (truthy v ≡ true))
    ⊎ ((truthy (text_field (codes "hostname") d) ≡ false) × (get (codes "mac") d ≡ some v))

abbrev pub allocation_of : Entry → Text
allocation_of (Entry.device d) = codes "static"
allocation_of (Entry.client d) = codes "dhcp"

abbrev pub has_device_fields : Dict → Bool
has_device_fields d =
    truthy (text_field (codes "mac") d)
    && truthy (text_field (codes "ip") d)
    && truthy (text_field (codes "name") d)

abbrev pub has_client_fields : Dict → Bool
has_client_fields d = truthy (text_field (codes "mac") d) && truthy (text_field (codes "ip") d)

-- The entries with the fields that a node needs.
abbrev pub complete : List Dict → List Dict → List Entry
complete devices clients =
    map Entry.device (filter has_device_fields devices)
    ++ map Entry.client (filter has_client_fields clients)

module _ (c : Controller) where
  -- The host, the address and the relationship are those of the entry.
  pub record IsOf (e : Entry) (h : Host) (i : IpNode) (r : LocatedAt) : Type 0 where
    pub named : IsNamed e h.hostname
    pub mac : get (codes "mac") (dict_of e) ≡ some (Value.text h.mac)
    pub valid : IsMac h.mac
    pub addr : get (codes "ip") (dict_of e) ≡ some i.addr
    pub ip_type :
        ((c.is_ipv4 i.addr ≡ ok true) × (i.ip_type ≡ codes "v4"))
        ⊎ ((c.is_ipv4 i.addr ≡ ok false) × (i.ip_type ≡ codes "v6"))
    pub allocation : i.allocation ≡ allocation_of e
    pub source : r.source ≡ h.hostname
    pub target : r.target ≡ i.addr

  -- One host, one address and one relationship for each entry, in order.
  abbrev pub Each : List Entry → List Host → List IpNode → List LocatedAt → Type 0
  Each [] [] [] [] = Unit
  Each (e ∷ es) (h ∷ hs) (i ∷ is) (r ∷ rs) = IsOf e h i r × Each es hs is rs
  Each _ _ _ _ = ⊥

  abbrev pub Describes : List Entry → Topology → Type 0
  Describes es t = Each es t.hosts t.ips t.relationships

  Each-snoc :
      (es : List Entry) (hs : List Host) (is : List IpNode) (rs : List LocatedAt) (e : Entry)
      (h : Host) (i : IpNode) (r : LocatedAt)
      → Each es hs is rs
      → IsOf e h i r
      → Each (es ++ e ∷ []) (hs ++ h ∷ []) (is ++ i ∷ []) (rs ++ r ∷ [])
  Each-snoc [] [] [] [] e h i r each last = (last, tt)
  Each-snoc (e' ∷ es) (h' ∷ hs) (i' ∷ is) (r' ∷ rs) e h i r (first, each) last =
      (first, Each-snoc es hs is rs e h i r each last)
  Each-snoc [] (h' ∷ hs) is rs e h i r each last = absurd each
  Each-snoc [] [] (i' ∷ is) rs e h i r each last = absurd each
  Each-snoc [] [] [] (r' ∷ rs) e h i r each last = absurd each
  Each-snoc (e' ∷ es) [] is rs e h i r each last = absurd each
  Each-snoc (e' ∷ es) (h' ∷ hs) [] rs e h i r each last = absurd each
  Each-snoc (e' ∷ es) (h' ∷ hs) (i' ∷ is) [] e h i r each last = absurd each

  validate_mac-valid :
      (v : Value) → Returns (λ mac. (v ≡ Value.text mac) × IsMac mac) (validate_mac_address v)
  validate_mac-valid (Value.text t) = elim (Bool-cases (is_mac t)) [
    | inl valid ↦ rw valid (refl, is_mac-IsMac t valid)
    | inr bad ↦ rw bad tt
  ]
  validate_mac-valid (Value.boolean b) = tt
  validate_mac-valid (Value.number n) = tt
  validate_mac-valid Value.null = tt
  validate_mac-valid (Value.compound b) = tt

  abbrev IsTyped : Outcome Bool → Text → Type 0
  IsTyped o kind = ((o ≡ ok true) × (kind ≡ codes "v4")) ⊎ ((o ≡ ok false) × (kind ≡ codes "v6"))

  validate_ip-IsTyped : (v : Value) → Returns (IsTyped (c.is_ipv4 v)) (validate_ip_address c v)
  validate_ip-IsTyped v = typed (c.is_ipv4 v) refl
    where
      typed :
          (o : Outcome Bool)
          → c.is_ipv4 v ≡ o
          → Returns (IsTyped (c.is_ipv4 v)) (validate_ip_address c v)
      typed (ok true) h = rw h (inl (refl, refl))
      typed (ok false) h = rw h (inr (refl, refl))
      typed (raised e) h = rw h (elim (Bool-cases (is_value_kind e.kind)) [
        | inl value ↦ rw value tt
        | inr other ↦ rw other tt
      ])

  -- A field that is there and is not empty.
  field-there :
      (key : Text) (d : Dict)
      → truthy (text_field key d) ≡ true
      → get key d ≡ some (text_field key d)
  field-there key d h = there (get key d) h
    where
      there :
          (o : Option Value)
          → truthy (or_default (Value.text []) o) ≡ true
          → o ≡ some (or_default (Value.text []) o)
      there none k = absurd cc
      there (some v) k = refl

  -- The nodes of an entry whose addresses are valid.
  added-Describes :
      (e : Entry) (hostname : Value) (metadata : Dict) (es : List Entry) (t : Topology)
      → IsNamed e hostname
      → truthy (text_field (codes "mac") (dict_of e)) ≡ true
      → truthy (text_field (codes "ip") (dict_of e)) ≡ true
      → Describes es t
      → Returns (Describes (es ++ e ∷ [])) (
          and_then (validate_mac_address (text_field (codes "mac") (dict_of e))) λ valid_mac.
            and_then (validate_ip_address c (text_field (codes "ip") (dict_of e))) λ ip_type. ok (
              add_nodes hostname valid_mac metadata
                (text_field (codes "ip") (dict_of e))
                ip_type
                (allocation_of e)
                t))
  added-Describes e hostname metadata es t named mac_there ip_there h =
      let mac = text_field (codes "mac") (dict_of e) in
      let ip = text_field (codes "ip") (dict_of e) in
      Returns-and_then (λ m. (mac ≡ Value.text m) × IsMac m) (Describes (es ++ e ∷ []))
        (validate_mac_address mac) _ (validate_mac-valid mac)
        (λ valid_mac (same, valid).
          Returns-and_then (IsTyped (c.is_ipv4 ip)) (Describes (es ++ e ∷ []))
            (validate_ip_address c ip) _ (validate_ip-IsTyped ip)
            (λ ip_type typed. Each-snoc es t.hosts t.ips t.relationships e _ _ _ h (record {
              named = named;
              mac = field-there (codes "mac") (dict_of e) mac_there ∙ ap some same;
              valid = valid;
              addr = field-there (codes "ip") (dict_of e) ip_there;
              ip_type = typed;
              allocation = refl;
              source = refl;
              target = refl;
            })))

  -- An entry adds its nodes if it has the fields.
  abbrev Adds : (Dict → Entry) → (Dict → Bool) → (Dict → Topology → Outcome Topology) → Type 0
  Adds tag has add =
      (d : Dict) (es : List Entry) (t : Topology)
      → Describes es t
      → Returns (Describes (if has d then es ++ tag d ∷ [] else es)) (add d t)

  add_device-Adds : Adds Entry.device has_device_fields (add_device c)
  unfolding add_device
  add_device-Adds d es t h = elim (Bool-cases (truthy (text_field (codes "mac") d))) [
    | inr absent ↦ rw absent h
    | inl mac ↦ elim (Bool-cases (truthy (text_field (codes "ip") d))) [
      | inr absent ↦ rw (mac, absent) h
      | inl ip ↦ elim (Bool-cases (truthy (text_field (codes "name") d))) [
        | inr absent ↦ rw (mac, ip, absent) h
        | inl name ↦
            rw (mac, ip, name)
              (added-Describes (Entry.device d) _ _ es t (field-there (codes "name") d name) mac ip
                h)
      ]
    ]
  ]

  client_name :
      (d : Dict)
      → truthy (text_field (codes "mac") d) ≡ true
      → IsNamed (Entry.client d) (
          if truthy (text_field (codes "hostname") d)
          then text_field (codes "hostname") d
          else text_field (codes "mac") d)
  client_name d mac = elim (Bool-cases (truthy (text_field (codes "hostname") d))) [
    | inl there ↦ rw there (inl (field-there (codes "hostname") d there, there))
    | inr absent ↦ rw absent (inr (refl, field-there (codes "mac") d mac))
  ]

  add_client-Adds : Adds Entry.client has_client_fields (add_client c)
  unfolding add_client
  add_client-Adds d es t h = elim (Bool-cases (truthy (text_field (codes "mac") d))) [
    | inr absent ↦ rw absent h
    | inl mac ↦ elim (Bool-cases (truthy (text_field (codes "ip") d))) [
      | inr absent ↦ rw (mac, absent) h
      | inl ip ↦
          rw (mac, ip) (added-Describes (Entry.client d) _ _ es t (client_name d mac) mac ip h)
    ]
  ]

  Returns-same :
      (es fs : List Entry)
      → es ≡ fs
      → (r : Outcome Topology) → Returns (Describes es) r
      → Returns (Describes fs) r
  Returns-same es fs e r h = rw (sym e) h

  fold_entries-Adds :
      (tag : Dict → Entry) (has : Dict → Bool) (add : Dict → Topology → Outcome Topology)
      → Adds tag has add
      → (entries : List Dict) (es : List Entry) (t : Topology) → Describes es t
      → Returns (Describes (es ++ map tag (filter has entries))) (fold_entries add entries t)
  unfolding fold_entries
  fold_entries-Adds tag has add adds [] es t h = rw (append-nil es) h
  fold_entries-Adds tag has add adds (d ∷ ds) es t h =
      let k : Returns (Describes (if has d then es ++ tag d ∷ [] else es)) (add d t) =
        adds d es t h in
      elim (Bool-cases (has d)) [
        | inl there ↦ rw there (
            Returns-same ((es ++ tag d ∷ []) ++ map tag (filter has ds)) _
              (append_assoc es (tag d ∷ []) (map tag (filter has ds)))
              (and_then (add d t) λ u. fold_entries add ds u)
              (Returns-and_then (Describes (es ++ tag d ∷ [])) (Describes _) (add d t) _
                (rw there at k)
                (λ u l. fold_entries-Adds tag has add adds ds (es ++ tag d ∷ []) u l)))
        | inr absent ↦ rw absent (
            Returns-and_then (Describes es) (Describes _) (add d t) _ (rw absent at k)
              (λ u l. fold_entries-Adds tag has add adds ds es u l))
      ]

-- What is extracted from the entries, unless one of their addresses is refused: in order, for each device
-- with a MAC address, an IP address and a name and for each client with both addresses, one host, one IP
-- node and one relationship, and nothing else. The host has the entry's name, for a client without a host
-- name its MAC address, and the entry's MAC address, which is six pairs of hexadecimal digits joined by
-- colons, with a line break behind them at most; the IP node has the entry's IP address, `v4` or `v6` as
-- that is of IPv4 or not, and is `static` for a device and `dhcp` for a client; and the relationship leads
-- from this host to this address.
pub extract-Describes :
    (c : Controller) (devices clients : List Dict)
    → Returns (Describes c (complete devices clients)) (extract c devices clients)
unfolding extract
extract-Describes c devices clients =
    Returns-and_then (Describes c (map Entry.device (filter has_device_fields devices)))
      (Describes c _)
      (fold_entries (add_device c) devices (record { hosts = []; ips = []; relationships = [] })) _
      (fold_entries-Adds c Entry.device has_device_fields (add_device c) (add_device-Adds c) devices
        [] _ tt)
      (λ t h.
        fold_entries-Adds c Entry.client has_client_fields (add_client c) (add_client-Adds c)
          clients _ t h)
