-- ===== src/Ingest/Swag/Directives.antt =====
-- packages/ingest/readers/swag.py: the directives that `SwagReader` looks for in a block.
use taboot.Prelude.{
  Text, codes, not, ◌||◌, Option, none, some, List, [], ◌∷◌, ◌++◌, is_empty, ◌==◌, text_eq,
  if◌then◌else◌,
}
use taboot.Python.{Kind, Exn, Outcome, ok, raised}
use taboot.Python.Texts.{after_prefix, search, span}
use taboot.Extraction.Sentences.{is_space, strip, split}

-- `\s+([^;]+);` behind a keyword: the characters up to the semicolon, of which the last space is
-- one where there is nothing else.
abbrev pub up_to_semicolon : Text × Text → Option Text
up_to_semicolon (value, []) = none
up_to_semicolon (value, c ∷ after) = some value

abbrev pub last_space : Text → Option Text
last_space [] = none
last_space (c ∷ []) = none
last_space (c ∷ d ∷ t) = some (d ∷ [])

abbrev pub or_last_space : Text → Option Text → Option Text
or_last_space spaces none = none
or_last_space spaces (some []) = last_space spaces
or_last_space spaces (some (c ∷ t)) = some (c ∷ t)

abbrev pub value_behind : Text × Text → Option Text
value_behind ([], body) = none
value_behind (c ∷ spaces, body) =
    or_last_space (c ∷ spaces) (up_to_semicolon (span (λ c. not (c == b';')) body))

abbrev pub directive_at : Text → Text → Option Text
directive_at keyword t = elim (after_prefix keyword t) [
  | none ↦ none
  | some rest ↦ value_behind (span is_space rest)
]

-- `re.search(r"<keyword>\s+([^;]+);", t)`
unfoldable pub directive : Text → Text → Option Text
directive keyword t = search (directive_at keyword) t

abbrev pub first_name : List Text → Option Text
first_name [] = none
first_name (hostname ∷ others) =
    if is_empty hostname || text_eq hostname (codes "_") then none else some hostname

unfoldable pub extract_server_name : Text → Option Text
extract_server_name server_block = elim (directive (codes "server_name") server_block) [
  | none ↦ none
  | some names ↦ first_name (split (strip names))
]

unfoldable pub extract_proxy_pass : Text → Option Text
extract_proxy_pass location_content = elim (directive (codes "proxy_pass") location_content) [
  | none ↦ none
  | some url ↦ some (strip url)
]

abbrev pub no_service : Text → Exn
no_service message = record { kind = Kind.value_error; message = message }

-- `re.sub(r"^https?://", "", proxy_pass)`
abbrev pub without_protocol : Text → Text
without_protocol url = elim (after_prefix (codes "https://") url) [
  | some rest ↦ rest
  | none ↦ elim (after_prefix (codes "http://") url) [ some rest ↦ rest | none ↦ url ]
]

unfoldable pub extract_service_name : Text → Outcome Text
extract_service_name proxy_pass =
    let url = without_protocol proxy_pass in
    let (host, _) = span (λ c. not (c == b':' || c == b'/')) url in
    let hostname = strip host in
    if is_empty url
    then raised (no_service (codes "Invalid proxy_pass URL: " ++ proxy_pass))
    else if is_empty hostname
    then raised
        (no_service (codes "Could not extract service name from proxy_pass: " ++ proxy_pass))
    else ok hostname
