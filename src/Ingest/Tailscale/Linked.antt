-- ===== src/Ingest/Tailscale/Linked.antt =====
-- What the lists of a load have to do with each other.
use taboot.Prelude.{
  ◌≡◌, refl, subst, ap, ◌∙◌, Text, true, false, Option, none, some, List, [], ◌∷◌, ◌++◌, map,
  is_empty, All, All-append, Bool-cases, inl, inr, arith, text_eq, text_eq_refl, text_eq_sym,
  append-nil,
}
use taboot.Python.Outcomes.{Returns, Returns-and_then, Returns-any, Returns-if}
use taboot.Ingest.Tailscale.{
  Device, AddressNode, Location, Tailnet, Api, is_seen, add_location, address_list, fetch_devices,
  parse_ip_address, add_addresses, add_host, add_named, add_device, add_devices, load_data,
}

-- No text stands twice.
abbrev pub IsDistinct : List Text → Type 0
IsDistinct [] = Unit
IsDistinct (t ∷ ts) = (is_seen t ts ≡ false) × IsDistinct ts

abbrev pub Joins : List Text → List Text → Location → Type 0
Joins hosts addresses r = (is_seen r.source hosts ≡ true) × (is_seen r.target addresses ≡ true)

-- The IP nodes are those of the addresses seen, each once, and every relationship leads from one of the
-- hosts to one of them.
abbrev pub IsLinked : Tailnet → Type 0
IsLinked t =
    IsDistinct t.seen_ips
    × (map (λ (ip : AddressNode). ip.addr) t.ips ≡ t.seen_ips)
    × All (Joins t.hosts t.seen_ips) t.relationships

is_seen-append : (t : Text) (xs ys : List Text) → is_seen t xs ≡ true → is_seen t (xs ++ ys) ≡ true
unfolding is_seen
is_seen-append t [] ys h = cc
is_seen-append t (x ∷ xs) ys h = ground (arith, is_seen-append t xs ys)

is_seen-append_self : (t : Text) (xs : List Text) → is_seen t (xs ++ t ∷ []) ≡ true
unfolding is_seen
is_seen-append_self t [] = rw (text_eq_refl t) refl
is_seen-append_self t (x ∷ xs) = ground (arith, is_seen-append_self t xs)

is_seen-append_other :
    (t a : Text) (xs : List Text)
    → is_seen t xs ≡ false
    → text_eq a t ≡ false
    → is_seen t (xs ++ a ∷ []) ≡ false
unfolding is_seen
is_seen-append_other t a [] h e = ground arith
is_seen-append_other t a (x ∷ xs) h e = ground (arith, is_seen-append_other t a xs)

IsDistinct-append :
    (a : Text) (xs : List Text) → IsDistinct xs → is_seen a xs ≡ false → IsDistinct (xs ++ a ∷ [])
unfolding is_seen
IsDistinct-append a [] d h = (refl, tt)
IsDistinct-append a (x ∷ xs) d h = (
  is_seen-append_other x a xs d.0 (ground (arith, text_eq_sym a x)),
  IsDistinct-append a xs d.1 (ground arith),
)

map-append_one :
    (ips : List AddressNode) (ip : AddressNode)
    → map (λ (ip : AddressNode). ip.addr) (ips ++ ip ∷ [])
      ≡ map (λ (ip : AddressNode). ip.addr) ips ++ ip.addr ∷ []
map-append_one [] ip = refl
map-append_one (i ∷ ips) ip = ap (λ t. i.addr ∷ t) (map-append_one ips ip)

-- More hosts and more addresses join as much.
Joins-append :
    (hosts seen more_hosts more_seen : List Text) (rels : List Location)
    → All (Joins hosts seen) rels
    → All (Joins (hosts ++ more_hosts) (seen ++ more_seen)) rels
Joins-append hosts seen more_hosts more_seen [] h = tt
Joins-append hosts seen more_hosts more_seen (r ∷ rels) (here, rest) = (
  (is_seen-append r.source hosts more_hosts here.0, is_seen-append r.target seen more_seen here.1),
  Joins-append hosts seen more_hosts more_seen rels rest,
)

add_location-IsLinked :
    (hostname addr ip_type : Text) (t : Tailnet)
    → is_seen hostname t.hosts ≡ true
    → IsLinked t
    → IsLinked (add_location hostname addr ip_type t)
add_location-IsLinked hostname addr ip_type t there (distinct, nodes, joins) =
    elim (Bool-cases (is_seen addr t.seen_ips)) [
      | inl seen ↦ rw seen (
        distinct,
        nodes,
        All-append (Joins t.hosts t.seen_ips) t.relationships _ joins ((there, seen), tt),
      )
      | inr new ↦ rw new (
        IsDistinct-append addr t.seen_ips distinct new,
        map-append_one t.ips _ ∙ ap (λ xs. xs ++ addr ∷ []) nodes,
        All-append (Joins t.hosts (t.seen_ips ++ addr ∷ [])) t.relationships _
            (subst (λ hs. All (Joins hs (t.seen_ips ++ addr ∷ [])) t.relationships)
              (append-nil t.hosts)
              (Joins-append t.hosts t.seen_ips [] (addr ∷ []) t.relationships joins))
            ((there, is_seen-append_self addr t.seen_ips), tt),
      )
    ]

module _ (api : Api) where
  add_addresses-IsLinked :
      (hostname : Text) (addresses : List Text) (t : Tailnet)
      → is_seen hostname t.hosts ≡ true
      → IsLinked t
      → Returns IsLinked (add_addresses api hostname addresses t)
  unfolding add_addresses
  add_addresses-IsLinked hostname [] t there h = h
  add_addresses-IsLinked hostname (addr ∷ rest) t there h =
      Returns-and_then (λ _. Unit {0}) IsLinked (parse_ip_address api addr) _ (Returns-any _)
        (λ ip_type _.
          add_addresses-IsLinked hostname rest (add_location hostname addr ip_type t) there
            (add_location-IsLinked hostname addr ip_type t there h))

  add_host-IsLinked :
      (hostname : Text) (addresses : List Text) (t : Tailnet)
      → IsLinked t
      → Returns IsLinked (add_host api hostname addresses t)
  add_host-IsLinked hostname addresses t (distinct, nodes, joins) =
      Returns-if IsLinked (is_empty hostname) _ _ (distinct, nodes, joins)
        (add_addresses-IsLinked hostname addresses (record t { hosts = t.hosts ++ hostname ∷ [] })
          (is_seen-append_self hostname t.hosts)
          (
            distinct,
            nodes,
            subst (λ seen. All (Joins (t.hosts ++ hostname ∷ []) seen) t.relationships)
                (append-nil t.seen_ips)
                (Joins-append t.hosts t.seen_ips (hostname ∷ []) [] t.relationships joins),
          ))

  add_named-IsLinked :
      (o : Option Text) (addresses : List Text) (t : Tailnet)
      → IsLinked t
      → Returns IsLinked (add_named api o addresses t)
  add_named-IsLinked none addresses t h = h
  add_named-IsLinked (some hostname) addresses t h = add_host-IsLinked hostname addresses t h

  add_devices-IsLinked :
      (devices : List Device) (t : Tailnet)
      → IsLinked t
      → Returns IsLinked (add_devices api devices t)
  unfolding add_devices
  add_devices-IsLinked [] t h = h
  add_devices-IsLinked (device ∷ rest) t h =
      Returns-and_then IsLinked IsLinked (add_device api device t) _
        (add_named-IsLinked device.hostname (address_list device.addresses) t h)
        (λ u k. add_devices-IsLinked rest u k)

-- Whatever a load returns, each address that it saw has one IP node, however many devices share it, and
-- every relationship leads from one of the hosts to one of these addresses.
pub load_data-IsLinked : (api : Api) → Returns IsLinked (load_data api)
unfolding load_data
load_data-IsLinked api =
    Returns-and_then (λ _. Unit {0}) IsLinked (fetch_devices api) _ (Returns-any _)
      (λ devices _. add_devices-IsLinked api devices _ (tt, refl, tt))
