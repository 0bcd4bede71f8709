-- ===== src/Tests/Guards.antt =====
-- packages/common, packages/graph/writers and packages/ingest at concrete inputs.
use taboot.Prelude.{
  ℕ, ◌+◌, Text, codes, text_eq, Bool, true, false, ◌≡◌, refl, some, List, [], ◌∷◌, map, length,
}
use taboot.Python.{Kind, Exn, Outcome, ok, raised, Exec, is_value_error}
use taboot.Common.Validators.{UrlParts, Address, validate_url}
use taboot.Common.Validators.Acceptance.{HasHost, validate_url_resolved}
use taboot.Ingest.Embedder.{Item, Answer}
use taboot.Common.Dlq.{DeadLetterQueue}
use taboot.Common.Dlq.Retries.{Event}

abbrev host : Text
host = codes "db"

abbrev url : Text
url = codes "http://db"

abbrev parsed : UrlParts
parsed = record { scheme = codes "http"; hostname = some host }

abbrev urlparse : Text → Outcome UrlParts
urlparse t = ok parsed

abbrev lower : Text → Text
lower t = t

abbrev no_address : Exn
no_address = record { kind = Kind.value_error; message = codes "not an address" }

abbrev private_address : Address
private_address = record {
  is_private = true;
  is_loopback = false;
  is_link_local = false;
  is_reserved = false;
}

-- The one address that is one.
abbrev address_if : Bool → Outcome Address
address_if true = ok private_address
address_if false = raised no_address

abbrev ip_address : Text → Outcome Address
ip_address t = address_if (text_eq t (codes "10.0.0.1"))

abbrev getaddrinfo : Text → Outcome (List Text)
getaddrinfo t = ok (codes "10.0.0.1" ∷ [])

address_if_raises : (b : Bool) (e : Exn) → address_if b ≡ raised e → is_value_error e.kind ≡ true
address_if_raises true e h = cc
address_if_raises false e h = let same : no_address ≡ e = cc in rw (← same) refl

db_HasHost : HasHost urlparse lower url host
unfolding text_eq
db_HasHost = record {
  parsed = parsed;
  parses = refl;
  web = refl;
  hosted = refl;
  named = refl;
  outside = refl;
}

validate_url_resolved_example : validate_url urlparse lower ip_address getaddrinfo url ≡ ok tt
unfolding text_eq
validate_url_resolved_example =
    validate_url_resolved urlparse lower ip_address getaddrinfo
      (λ t e h. address_if_raises (text_eq t (codes "10.0.0.1")) e h) url host no_address
      (codes "10.0.0.1" ∷ []) refl db_HasHost refl refl

abbrev dlq : DeadLetterQueue
dlq = record { max_retries = 3; base_delay_seconds = 2 }

abbrev events : List Event
events = Event.failed 1 ∷ Event.failed 2 ∷ Event.failed 1 ∷ Event.succeeded 2 ∷ []

-- A client that counts the rows it was sent.
abbrev count_rows : Text → List ℕ → Exec ℕ (Unit {0})
count_rows query rows n = (ok tt, n + length rows)

abbrev rows : List ℕ
rows = 5 ∷ 6 ∷ 7 ∷ []

-- A service that answers each text with the vector of its length.
abbrev post : List Text → Exec ℕ (Answer ℕ)
post texts n = (ok (Answer.items (map (λ t. Item.vector (length t ∷ [])) texts)), n + 1)

abbrev texts : List Text
texts = codes "a" ∷ codes "bc" ∷ codes "d" ∷ []
