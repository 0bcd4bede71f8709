-- ===== src/Ingest/Swag/Blocks.antt =====
-- Which lines of a configuration `extract_server_blocks` returns.
use mathlib.Core.List.{flatten}
use taboot.Prelude.{
  ℕ, ◌+◌, ◌-◌, ◌<◌, Text, ◌≡◌, refl, sym, ◌∙◌, true, false, List, [], ◌∷◌, ◌++◌, map, All,
  append-nil, append_assoc, ltb, ◌==◌, arith,
}
use taboot.Python.{ok, and_then}
use taboot.Python.Texts.{split_on, search, after_prefix, is_line, join_lines, split_lines-join}
use taboot.Ingest.Swag.{
  ServerScan, no_server, is_server_start, opens, closes, track_depth, scan_lines, check_closed,
  extract_server_blocks,
}

-- The lines behind the first of a block, at this depth: none starts a block, and the last is the
-- first to close what is open.
abbrev pub Closes : ℕ → List Text → Type 0
Closes depth [] = ⊥
Closes depth (l ∷ []) = (is_server_start l ≡ false) × (depth + opens l ≡ closes l)
Closes depth (l ∷ m ∷ ls) =
    (is_server_start l ≡ false)
    × (closes l < depth + opens l)
    × Closes (depth + opens l - closes l) (m ∷ ls)

-- Lines behind the first of a block that leave it open.
abbrev pub StaysOpen : ℕ → List Text → Type 0
StaysOpen depth [] = Unit
StaysOpen depth (l ∷ ls) =
    (is_server_start l ≡ false)
    × (closes l < depth + opens l)
    × StaysOpen (depth + opens l - closes l) ls

-- A part of a configuration: the lines of a server block, or a line that is in none.
pub data Part : Type 0 where
  server : Text → List Text → Part
  outside : Text → Part

abbrev pub part_lines : Part → List Text
part_lines (Part.server opening body) = opening ∷ body
part_lines (Part.outside line) = line ∷ []

abbrev pub block_texts : List Part → List Text
block_texts [] = []
block_texts (Part.server opening body ∷ parts) = join_lines (opening ∷ body) ∷ block_texts parts
block_texts (Part.outside line ∷ parts) = block_texts parts

abbrev pub IsPart : Part → Type 0
IsPart (Part.server opening body) = (is_server_start opening ≡ true) × Closes 1 body
IsPart (Part.outside line) = is_server_start line ≡ false

abbrev pub config_lines : List Part → List Text
config_lines parts = flatten (map part_lines parts)

-- The scan outside every block, and inside one.
abbrev between : List Text → ServerScan
between blocks = record { server_blocks = blocks; depth = 0; current_block = []; in_server = false }

abbrev inside : List Text → ℕ → List Text → ServerScan
inside blocks depth current = record {
  server_blocks = blocks;
  depth = depth;
  current_block = current;
  in_server = true;
}

track_depth-close :
    (blocks : List Text) (depth : ℕ) (current : List Text) (l : Text)
    → depth + opens l ≡ closes l
    → track_depth (inside blocks depth current) l
      ≡ ok (between (blocks ++ join_lines (current ++ l ∷ []) ∷ []))
track_depth-close blocks depth current l h =
    let not_below : ltb (depth + opens l) (closes l) ≡ false = ground arith in
    let at : (depth + opens l == closes l) ≡ true = ground arith in rw (not_below, at)

track_depth-open :
    (blocks : List Text) (depth : ℕ) (current : List Text) (l : Text)
    → closes l < depth + opens l
    → track_depth (inside blocks depth current) l
      ≡ ok (inside blocks (depth + opens l - closes l) (current ++ l ∷ []))
track_depth-open blocks depth current l h =
    let not_below : ltb (depth + opens l) (closes l) ≡ false = ground arith in
    let above : (depth + opens l == closes l) ≡ false = ground arith in rw (not_below, above)

scan_lines-Closes :
    (blocks : List Text) (depth : ℕ) (current body rest : List Text)
    → Closes depth body
    → scan_lines (inside blocks depth current) (body ++ rest)
      ≡ scan_lines (between (blocks ++ join_lines (current ++ body) ∷ [])) rest
unfolding scan_lines
scan_lines-Closes blocks depth current [] rest h = absurd h
scan_lines-Closes blocks depth current (l ∷ []) rest (plain, h) =
    rw (plain, track_depth-close blocks depth current l h)
scan_lines-Closes blocks depth current (l ∷ m ∷ ls) rest (plain, h, more) =
    rw (plain, track_depth-open blocks depth current l h)
      (scan_lines-Closes blocks (depth + opens l - closes l) (current ++ l ∷ []) (m ∷ ls) rest more
        ∙ rw (append_assoc current (l ∷ []) (m ∷ ls)))

scan_lines-parts :
    (blocks : List Text) (parts : List Part)
    → All IsPart parts
    → scan_lines (between blocks) (config_lines parts) ≡ ok (between (blocks ++ block_texts parts))
unfolding scan_lines flatten
scan_lines-parts blocks [] h = rw (append-nil blocks)
scan_lines-parts blocks (Part.server opening body ∷ parts) ((start, close), rest) = rw start (
    scan_lines-Closes blocks 1 (opening ∷ []) body (config_lines parts) close
    ∙ scan_lines-parts (blocks ++ join_lines (opening ∷ body) ∷ []) parts rest
    ∙ rw (append_assoc blocks (join_lines (opening ∷ body) ∷ []) (block_texts parts)))
scan_lines-parts blocks (Part.outside line ∷ parts) (plain, rest) =
    rw plain (scan_lines-parts blocks parts rest)

-- Without a line, the configuration is one empty line.
extract-lines :
    (lines : List Text)
    → All (λ l. is_line l ≡ true) lines
    → extract_server_blocks (join_lines lines) ≡ and_then (scan_lines no_server lines) check_closed
unfolding extract_server_blocks scan_lines join_lines split_on is_server_start search after_prefix
extract-lines [] h = refl
extract-lines (l ∷ ls) h = rw (split_lines-join l ls h)

-- A configuration, of lines without line breaks, is cut into lines outside and into blocks of two lines
-- at least, where the first line
-- of a block, and no other line of it and no line outside, has the word `server` and a brace, and where,
-- counted from one behind the first line, the last line of the block is the first that closes as many
-- braces as are open. Then exactly these blocks are extracted, each with all its lines, in order.
pub extract_server_blocks-parts :
    (parts : List Part)
    → All IsPart parts
    → All (λ l. is_line l ≡ true) (config_lines parts)
    → extract_server_blocks (join_lines (config_lines parts)) ≡ ok (block_texts parts)
extract_server_blocks-parts parts good lines =
    extract-lines (config_lines parts) lines ∙ rw (scan_lines-parts [] parts good)

scan_lines-StaysOpen :
    (depth : ℕ) (current body : List Text) (line : Text) (back : List Text)
    → StaysOpen depth body
    → is_server_start line ≡ true
    → scan_lines (inside [] depth current) (body ++ line ∷ back)
      ≡ scan_lines (inside [] 1 (line ∷ [])) back
unfolding scan_lines
scan_lines-StaysOpen depth current [] line back h start = rw start
scan_lines-StaysOpen depth current (l ∷ ls) line back (plain, h, more) start =
    rw (plain, track_depth-open [] depth current l h)
      (scan_lines-StaysOpen (depth + opens l - closes l) (current ++ l ∷ []) ls line back more
        start)

abbrev AllLines : List Text → Type 0
AllLines lines = All (λ l. is_line l ≡ true) lines

lines_behind : (front back : List Text) → AllLines (front ++ back) → AllLines back
lines_behind [] back h = h
lines_behind (l ∷ front) back (_, h) = lines_behind front back h

-- The lines of a block before a line that has both the word `server` and a brace, and that stands
-- inside the block, are lost: what is extracted is the same without them.
pub open_block_lost :
    (opening : Text) (body : List Text) (line : Text) (back : List Text)
    → is_server_start opening ≡ true
    → StaysOpen 1 body
    → is_server_start line ≡ true
    → All (λ l. is_line l ≡ true) (opening ∷ body ++ line ∷ back)
    → extract_server_blocks (join_lines (opening ∷ body ++ line ∷ back))
      ≡ extract_server_blocks (join_lines (line ∷ back))
unfolding scan_lines
open_block_lost opening body line back first stays start lines =
    extract-lines (opening ∷ body ++ line ∷ back) lines
    ∙ rw first (
        rw (scan_lines-StaysOpen 1 (opening ∷ []) body line back stays start)
          (sym (last ∙ rw start)))
  where
    last :
        extract_server_blocks (join_lines (line ∷ back))
        ≡ and_then (scan_lines no_server (line ∷ back)) check_closed
    last = extract-lines (line ∷ back) (lines_behind (opening ∷ body) (line ∷ back) lines)
