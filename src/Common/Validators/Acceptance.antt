-- ===== src/Common/Validators/Acceptance.antt =====
-- What `validate_url` lets through.
use taboot.Prelude.{
  Text, Bool, true, false, not, ◌≡◌, refl, ◌∙◌, ◌||◌, Option, none, some, inl, inr, List, [], ◌∷◌,
  is_empty, Bool-cases,
}
use taboot.Python.{Exn, Outcome, ok, raised, is_value_error}
use taboot.Extraction.Sentences.{strip}
use taboot.Common.Validators.{
  UrlParts, Address, is_internal, is_web_scheme, is_internal_name, check_address,
  check_resolved_all, check_hostname, check_literal, check_parts, check_answers, check_resolved,
  skip_value_error, validate_url,
}

-- The name that an URL is fetched by: its scheme is of the web, and its host is not a name for
-- this machine.
pub record HasHost (urlparse : Text → Outcome UrlParts) (lower : Text → Text) (url host : Text)
    : Type 0 where
  pub parsed : UrlParts
  pub parses : urlparse url ≡ ok parsed
  pub web : is_web_scheme parsed.scheme ≡ true
  pub hosted : parsed.hostname ≡ some host
  pub named : is_empty host ≡ false
  pub outside : is_internal_name (lower host) ≡ false

-- A name, or an address outside.
abbrev pub is_outside : Outcome Address → Bool
is_outside (ok ip) = not (is_internal ip)
is_outside (raised e) = true

module _ (urlparse : Text → Outcome UrlParts) (lower : Text → Text)
    (ip_address : Text → Outcome Address) (getaddrinfo : Text → Outcome (List Text)) where
  refused : {e : Exn} → ◌≡◌ {A = Outcome (Unit {0})} (raised e) (ok tt) → ⊥
  refused h = cc

  check_address_ok : (ip : Address) → check_address ip ≡ ok tt → is_internal ip ≡ false
  check_address_ok ip h = elim (Bool-cases (is_internal ip)) [
    | inl inside ↦ absurd (refused (rw inside at h))
    | inr outside ↦ outside
  ]

  -- An address or not, the literal that passes is not an internal one.
  check_literal_ok :
      (host : Text) (r : Outcome Address)
      → check_literal urlparse lower ip_address getaddrinfo host r ≡ ok tt
      → is_outside r ≡ true
  check_literal_ok host (ok ip) h = rw (check_address_ok ip h) refl
  check_literal_ok host (raised x) h = refl

  check_hostname_ok :
      (o : Option Text)
      → check_hostname urlparse lower ip_address getaddrinfo o ≡ ok tt
      → (host : Text) × (o ≡ some host)
        × (is_empty host ≡ false)
        × (is_internal_name (lower host) ≡ false)
        × (is_outside (ip_address host) ≡ true)
  check_hostname_ok none h = absurd (refused h)
  check_hostname_ok (some host) h = elim (Bool-cases (is_empty host)) [
    | inl empty ↦ absurd (refused (rw empty at h))
    | inr named ↦ elim (Bool-cases (is_internal_name (lower host))) [
      | inl inside ↦ absurd (refused (rw (named, inside) at h))
      | inr outside ↦ (
        host,
        refl,
        named,
        outside,
        check_literal_ok host (ip_address host) (rw (named, outside) at h),
      )
    ]
  ]

  check_parts_ok :
      (url : Text) (r : Outcome UrlParts)
      → urlparse url ≡ r
      → check_parts urlparse lower ip_address getaddrinfo r ≡ ok tt
      → (host : Text) × HasHost urlparse lower url host × (is_outside (ip_address host) ≡ true)
  check_parts_ok url (raised e) p h = absurd (refused h)
  check_parts_ok url (ok parsed) p h = elim (Bool-cases (is_web_scheme parsed.scheme)) [
    | inr other ↦ absurd (refused (rw other at h))
    | inl web ↦
        let (host, hosted, named, outside, away) =
          check_hostname_ok parsed.hostname (rw web at h) in
        (
          host,
          record {
            parsed = parsed;
            parses = p;
            web = web;
            hosted = hosted;
            named = named;
            outside = outside;
          },
          away,
        )
  ]

-- An URL that passes has a web scheme and a host that is neither empty nor a name for this
-- machine nor the literal of a private, loopback, link-local or reserved address.
pub validate_url_accepts :
    (urlparse : Text → Outcome UrlParts) (lower : Text → Text) (ip_address : Text → Outcome Address)
    (getaddrinfo : Text → Outcome (List Text)) (url : Text)
    → validate_url urlparse lower ip_address getaddrinfo url ≡ ok tt
    → (host : Text) × HasHost urlparse lower url host × (is_outside (ip_address host) ≡ true)
unfolding validate_url
validate_url_accepts urlparse lower ip_address getaddrinfo url h =
    elim (Bool-cases (is_empty url || is_empty (strip url))) [
      | inl blank ↦ absurd (refused urlparse lower ip_address getaddrinfo (rw blank at h))
      | inr text ↦
          check_parts_ok urlparse lower ip_address getaddrinfo url (urlparse url) refl
            (rw text at h)
    ]

module _ (urlparse : Text → Outcome UrlParts) (lower : Text → Text)
    (ip_address : Text → Outcome Address) (getaddrinfo : Text → Outcome (List Text))
    (ip_address_raises : (t : Text) (e : Exn)
      → ip_address t ≡ raised e
      → is_value_error e.kind ≡ true) where
  skips :
      (r : Outcome Address) (k : (e : Exn) → r ≡ raised e → is_value_error e.kind ≡ true)
      (rest : Outcome (Unit {0}))
      → skip_value_error urlparse lower ip_address getaddrinfo
          (check_resolved urlparse lower ip_address getaddrinfo r)
          rest
        ≡ rest
  skips (raised e) k rest = rw (k e refl) refl
  skips (ok ip) k rest = elim (Bool-cases (is_internal ip)) [
    | inl inside ↦ rw inside refl
    | inr outside ↦ rw outside refl
  ]

  passes :
      (addresses : List Text)
      → check_resolved_all urlparse lower ip_address getaddrinfo addresses ≡ ok tt
  unfolding check_resolved_all
  passes [] = refl
  passes (ip_str ∷ rest) = skips (ip_address ip_str) (ip_address_raises ip_str) _ ∙ passes rest

  answered :
      (addresses : List Text)
      → check_answers urlparse lower ip_address getaddrinfo (ok addresses) ≡ ok tt
  answered addresses = rw (passes addresses) refl

  literal :
      (host : Text) (e : Exn) (addresses : List Text)
      → ip_address host ≡ raised e
      → getaddrinfo host ≡ ok addresses
      → check_literal urlparse lower ip_address getaddrinfo host (ip_address host) ≡ ok tt
  literal host e addresses h g = rw (h, ip_address_raises host e h, g) (answered addresses)

  parts :
      (url host : Text) (e : Exn) (addresses : List Text)
      → HasHost urlparse lower url host
      → ip_address host ≡ raised e
      → getaddrinfo host ≡ ok addresses
      → check_parts urlparse lower ip_address getaddrinfo (urlparse url) ≡ ok tt
  parts url host e addresses h name answers =
      rw (h.parses, h.web, h.hosted, h.named, h.outside) (literal host e addresses name answers)

-- Where `ip_address` raises nothing but `ValueError`s, an URL of a web scheme whose host is a name,
-- other than the two that are blocked, passes whatever addresses the name resolves to, private and
-- loopback ones included: the handler that skips unreadable addresses also skips the refusal.
pub validate_url_resolved :
    (urlparse : Text → Outcome UrlParts) (lower : Text → Text) (ip_address : Text → Outcome Address)
    (getaddrinfo : Text → Outcome (List Text))
    → ((t : Text) (e : Exn) → ip_address t ≡ raised e → is_value_error e.kind ≡ true)
    → (url host : Text) (e : Exn) (addresses : List Text)
    → (is_empty url || is_empty (strip url)) ≡ false
    → HasHost urlparse lower url host
    → ip_address host ≡ raised e
    → getaddrinfo host ≡ ok addresses
    → validate_url urlparse lower ip_address getaddrinfo url ≡ ok tt
unfolding validate_url
validate_url_resolved urlparse lower ip_address getaddrinfo raises url host e addresses text h name
      answers =
    rw text (parts urlparse lower ip_address getaddrinfo raises url host e addresses h name answers)
