-- ===== src/Ingest/Swag/Locations.antt =====
-- packages/ingest/readers/swag.py: `SwagReader._extract_location_blocks`.
use taboot.Prelude.{
  ℕ, ◌+◌, Text, codes, not, Option, none, some, List, [], ◌∷◌, ◌++◌, ◌==◌, if◌then◌else◌,
}
use taboot.Python.Texts.{after_prefix, starts_with, count, span, split_lines, join_lines}
use taboot.Extraction.Sentences.{is_space, strip}

-- The last of at least two spaces, which `\s+` gives back to `[^{]+`.
abbrev pub given_back : Text → Option Text
given_back [] = none
given_back (c ∷ []) = none
given_back (c ∷ d ∷ t) = some (d ∷ [])

-- `(~\s+)?([^{]+)` on what stands before the first brace, behind the spaces of `location\s+`.
abbrev pub behind_tilde : Text → Text × Text → Option Text
behind_tilde whole ([], rest) = some whole
behind_tilde whole (c ∷ [], []) = some whole
behind_tilde whole (c ∷ d ∷ spaces, []) = some (d ∷ [])
behind_tilde whole (c ∷ spaces, d ∷ rest) = some (d ∷ rest)

abbrev pub path_group : Text → Text → Option Text
path_group spaces [] = given_back spaces
path_group spaces (c ∷ t) =
    if c == b'~' then behind_tilde (c ∷ t) (span is_space t) else some (c ∷ t)

-- No match without a brace.
abbrev pub before_brace : Text → Text × Text → Option Text
before_brace spaces (name, []) = none
before_brace spaces (name, c ∷ after) = path_group spaces name

abbrev pub path_behind : Text × Text → Option Text
path_behind ([], body) = none
path_behind (c ∷ spaces, body) = before_brace (c ∷ spaces) (span (λ c. not (c == b'{')) body)

-- `re.match(r"location\s+(~\s+)?([^{]+)\s*{", stripped)`, its second group stripped
unfoldable pub location_path : Text → Option Text
location_path stripped = elim (after_prefix (codes "location") stripped) [
  | none ↦ none
  | some rest ↦ elim (path_behind (span is_space rest)) [
    | none ↦ none
    | some group ↦ some (strip group)
  ]
]

-- The variables of the loop. The depth, which may go below zero, is 1 and the braces opened less
-- those closed.
pub record LocationScan : Type 0 where
  pub location_blocks : List (Text × Text)
  pub current_location : Option (Text × List Text)
  pub opened : ℕ
  pub closed : ℕ

abbrev pub add_line : LocationScan → Text → Text → Option (Text × List Text) → LocationScan
add_line s line stripped none = s
add_line s line stripped (some (path, content_lines)) =
    let opened = s.opened + count b'{' stripped in
    let closed = s.closed + count b'}' stripped in
    let content = content_lines ++ line ∷ [] in
    if 1 + opened == closed
    then record {
      location_blocks = s.location_blocks ++ (path, join_lines content) ∷ [];
      current_location = none;
      opened = opened;
      closed = closed;
    }
    else record s { current_location = some (path, content); opened = opened; closed = closed }

abbrev pub start_location : LocationScan → Text → Text → Option Text → LocationScan
start_location s line stripped none = add_line s line stripped s.current_location
start_location s line stripped (some path) = record s {
  current_location = some (path, line ∷ []);
  opened = 0;
  closed = 0;
}

abbrev pub location_line : LocationScan → Text → LocationScan
location_line s line =
    let stripped = strip line in
    start_location s line stripped
      (if starts_with (codes "location") stripped then location_path stripped else none)

unfoldable pub location_lines : LocationScan → List Text → LocationScan
location_lines s [] = s
location_lines s (line ∷ lines) = location_lines (location_line s line) lines

unfoldable pub extract_location_blocks : Text → List (Text × Text)
extract_location_blocks server_block =
    (location_lines
      (record { location_blocks = []; current_location = none; opened = 0; closed = 0 })
      (split_lines server_block)).location_blocks
