-- ===== src/Ingest/Chunker.antt =====
-- packages/ingest/chunker.py: `Chunker.chunk_document` over the contents of the nodes that
-- LlamaIndex's SentenceSplitter makes of a text with its metadata.
use taboot.Prelude.{ℕ, ◌+◌, Text, ◌||◌, List, [], ◌∷◌, length, is_empty, if◌then◌else◌}
use taboot.Python.{Outcome, ok, raised}
use taboot.Extraction.Sentences.{strip}

-- A value of a document's metadata: a `str`, `int`, `float` or `bool`, or anything else.
pub data MetaValue : Type 0 where
  scalar : Text → MetaValue
  compound : MetaValue

abbrev pub Metadata : Type 0
Metadata = List (Text × MetaValue)

-- A LlamaIndex document, as a reader loads it.
pub record Page : Type 0 where
  pub text : Text
  pub metadata : Metadata

-- A chunk with the entries that are added to its metadata.
pub record ChunkDoc : Type 0 where
  pub text : Text
  pub metadata : Metadata
  pub chunk_index : ℕ
  pub chunk_count : ℕ

-- `enumerate(nodes)`, from an index on.
unfoldable pub number_chunks : Metadata → ℕ → ℕ → List Text → List ChunkDoc
number_chunks metadata i n [] = []
number_chunks metadata i n (node ∷ nodes) =
    record { text = node; metadata = metadata; chunk_index = i; chunk_count = n }
    ∷ number_chunks metadata (i + 1) n nodes

module _ (split_nodes : Text → Metadata → Outcome (List Text)) where
  abbrev pub number_nodes : Metadata → Outcome (List Text) → Outcome (List ChunkDoc)
  number_nodes metadata (ok nodes) = ok (number_chunks metadata 0 (length nodes) nodes)
  number_nodes metadata (raised e) = raised e

  unfoldable pub chunk_document : Page → Outcome (List ChunkDoc)
  chunk_document doc =
      if is_empty doc.text || is_empty (strip doc.text)
      then ok []
      else number_nodes doc.metadata (split_nodes doc.text doc.metadata)
