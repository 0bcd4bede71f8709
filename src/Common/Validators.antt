-- ===== src/Common/Validators.antt =====
-- packages/common/validators.py: `validate_url`, which guards fetches against addresses inside.
-- `urlparse`, `str.lower`, `ipaddress.ip_address` and `socket.getaddrinfo` are parameters; what a
-- resolver returns is the list of the addresses in its answers.
pub mod Acceptance
use taboot.Prelude.{
  Text, codes, Bool, true, false, ◌||◌, Option, none, some, List, [], ◌∷◌, is_empty, text_eq,
  if◌then◌else◌,
}
use taboot.Python.{Kind, Exn, Outcome, ok, raised, is_value_error}
use taboot.Extraction.Sentences.{strip}

pub record UrlParts : Type 0 where
  pub scheme : Text
  pub hostname : Option Text

pub record Address : Type 0 where
  pub is_private : Bool
  pub is_loopback : Bool
  pub is_link_local : Bool
  pub is_reserved : Bool

abbrev pub is_internal : Address → Bool
is_internal ip = ip.is_private || ip.is_loopback || ip.is_link_local || ip.is_reserved

-- `except socket.gaierror`
abbrev pub is_gai_error : Kind → Bool
is_gai_error Kind.gai_error = true
is_gai_error _ = false

abbrev pub invalid : Exn
invalid = record { kind = Kind.url_validation_error; message = codes "URL validation failed" }

abbrev pub is_web_scheme : Text → Bool
is_web_scheme scheme = text_eq scheme (codes "http") || text_eq scheme (codes "https")

abbrev pub is_internal_name : Text → Bool
is_internal_name name = text_eq name (codes "localhost") || text_eq name (codes "0.0.0.0")

abbrev pub check_address : Address → Outcome (Unit {0})
check_address ip = if is_internal ip then raised invalid else ok tt

module _ (urlparse : Text → Outcome UrlParts) (lower : Text → Text)
    (ip_address : Text → Outcome Address) (getaddrinfo : Text → Outcome (List Text)) where
  -- The body of the inner `try`.
  abbrev pub check_resolved : Outcome Address → Outcome (Unit {0})
  check_resolved (ok ip) = check_address ip
  check_resolved (raised e) = raised e

  -- `except ValueError: continue`
  abbrev pub skip_value_error : Outcome (Unit {0}) → Outcome (Unit {0}) → Outcome (Unit {0})
  skip_value_error (ok _) rest = rest
  skip_value_error (raised e) rest = if is_value_error e.kind then rest else raised e

  unfoldable pub check_resolved_all : List Text → Outcome (Unit {0})
  check_resolved_all [] = ok tt
  check_resolved_all (ip_str ∷ rest) =
      skip_value_error (check_resolved (ip_address ip_str)) (check_resolved_all rest)

  abbrev pass_gai_error : Outcome (Unit {0}) → Outcome (Unit {0})
  pass_gai_error (ok _) = ok tt
  pass_gai_error (raised e) = if is_gai_error e.kind then ok tt else raised e

  abbrev pub check_answers : Outcome (List Text) → Outcome (Unit {0})
  check_answers (ok addresses) = pass_gai_error (check_resolved_all addresses)
  check_answers (raised e) = pass_gai_error (raised e)

  abbrev pub check_literal : Text → Outcome Address → Outcome (Unit {0})
  check_literal host (ok ip) = check_address ip
  check_literal host (raised e) =
      if is_value_error e.kind then check_answers (getaddrinfo host) else raised e

  abbrev pub check_hostname : Option Text → Outcome (Unit {0})
  check_hostname none = raised invalid
  check_hostname (some host) =
      if is_empty host
      then raised invalid
      else if is_internal_name (lower host)
      then raised invalid
      else check_literal host (ip_address host)

  abbrev pub check_parts : Outcome UrlParts → Outcome (Unit {0})
  check_parts (raised e) = raised invalid
  check_parts (ok parsed) =
      if is_web_scheme parsed.scheme then check_hostname parsed.hostname else raised invalid

  -- `not url or not url.strip()`, of which the first follows from the second
  unfoldable pub validate_url : Text → Outcome (Unit {0})
  validate_url url =
      if is_empty url || is_empty (strip url) then raised invalid else check_parts (urlparse url)
