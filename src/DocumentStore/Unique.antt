-- ===== src/DocumentStore/Unique.antt =====
-- The keys of the schema, and that `create` and `update_document` keep them.
use taboot.Prelude.{
  ℕ, Text, ◌≡◌, refl, true, false, none, some, inl, inr, List, [], ◌∷◌, ◌++◌, All, All-append,
  Bool-cases, Option-cases, arith, ◌==◌, text_eq, text_eq_sym, ==_sound,
}
use taboot.Schemas.{Document}
use taboot.DocumentStore.{
  Store, has_id, has_hash, content_of, insert_content, create, update_rows, update_document,
}

-- No key stands twice.
abbrev pub IsUnique : List Document → Type 0
IsUnique [] = Unit
IsUnique (d ∷ ds) =
    (has_id d.doc_id ds ≡ false) × (has_hash d.content_hash ds ≡ false) × IsUnique ds

-- The document's content is stored.
abbrev pub HasContent : List (ℕ × Text) → Document → Type 0
HasContent rows d = (t : Text) × (content_of d.doc_id rows ≡ some t)

pub record IsValid (s : Store) : Type 0 where
  pub unique : IsUnique s.documents
  pub stored : All (HasContent s.contents) s.documents
  -- The foreign key of rag.document_content.
  pub owned : All (λ row. has_id row.0 s.documents ≡ true) s.contents

has_id-append :
    (i : ℕ) (ds : List Document) (d : Document)
    → has_id i ds ≡ false
    → (d.doc_id == i) ≡ false
    → has_id i (ds ++ d ∷ []) ≡ false
unfolding has_id
has_id-append i [] d h e = ground arith
has_id-append i (c ∷ ds) d h e = ground (arith, has_id-append i ds d)

has_hash-append :
    (x : Text) (ds : List Document) (d : Document)
    → has_hash x ds ≡ false
    → text_eq d.content_hash x ≡ false
    → has_hash x (ds ++ d ∷ []) ≡ false
unfolding has_hash
has_hash-append x [] d h e = ground arith
has_hash-append x (c ∷ ds) d h e = ground (arith, has_hash-append x ds d)

IsUnique-append :
    (ds : List Document) (d : Document)
    → IsUnique ds
    → has_id d.doc_id ds ≡ false
    → has_hash d.content_hash ds ≡ false
    → IsUnique (ds ++ d ∷ [])
unfolding has_id has_hash
IsUnique-append [] d u i h = (refl, refl, tt)
IsUnique-append (c ∷ ds) d u i h = (
  has_id-append c.doc_id ds d u.0 (ground arith),
  has_hash-append c.content_hash ds d u.1
      (ground (arith, text_eq_sym c.content_hash d.content_hash)),
  IsUnique-append ds d u.2 (ground arith) (ground arith),
)

content_of-append :
    (i j : ℕ) (t : Text) (rows : List (ℕ × Text)) {u : Text}
    → content_of i rows ≡ some u
    → content_of i (rows ++ (j, t) ∷ []) ≡ some u
unfolding content_of
content_of-append i j t [] h = cc
content_of-append i j t (r ∷ rows) {u} h = ground (arith, content_of-append i j t rows {u = u})

pub content_of-append_new :
    (i : ℕ) (t : Text) (rows : List (ℕ × Text))
    → content_of i rows ≡ none
    → content_of i (rows ++ (i, t) ∷ []) ≡ some t
unfolding content_of
content_of-append_new i t [] h = ground arith
content_of-append_new i t (r ∷ rows) h = ground (arith, content_of-append_new i t rows)

-- What was stored stays stored, and the content of the new row is there.
content_of-insert :
    (i j : ℕ) (t : Text) (rows : List (ℕ × Text)) {u : Text}
    → content_of i rows ≡ some u
    → content_of i (insert_content j t rows) ≡ some u
content_of-insert i j t rows h = elim (Option-cases (content_of j rows)) [
  | inl new ↦ rw new (content_of-append i j t rows h)
  | inr (v, old) ↦ rw old h
]

insert_content-stores :
    (i : ℕ) (t : Text) (rows : List (ℕ × Text))
    → (u : Text) × (content_of i (insert_content i t rows) ≡ some u)
insert_content-stores i t rows = elim (Option-cases (content_of i rows)) [
  | inl new ↦ (t, rw new (content_of-append_new i t rows new))
  | inr (v, old) ↦ (v, rw old old)
]

HasContent-insert :
    (j : ℕ) (t : Text) (rows : List (ℕ × Text)) (ds : List Document)
    → All (HasContent rows) ds
    → All (HasContent (insert_content j t rows)) ds
HasContent-insert j t rows [] h = tt
HasContent-insert j t rows (d ∷ ds) h =
    ((h.0.0, content_of-insert d.doc_id j t rows h.0.1), HasContent-insert j t rows ds h.1)

has_id-append_true :
    (i : ℕ) (ds : List Document) (d : Document)
    → has_id i ds ≡ true
    → has_id i (ds ++ d ∷ []) ≡ true
unfolding has_id
has_id-append_true i [] d h = cc
has_id-append_true i (c ∷ ds) d h = ground (arith, has_id-append_true i ds d)

has_id-append_self : (ds : List Document) (d : Document) → has_id d.doc_id (ds ++ d ∷ []) ≡ true
unfolding has_id
has_id-append_self [] d = ground arith
has_id-append_self (c ∷ ds) d = ground (arith, has_id-append_self ds d)

owned-append :
    (ds : List Document) (d : Document) (rows : List (ℕ × Text))
    → All (λ row. has_id row.0 ds ≡ true) rows
    → All (λ row. has_id row.0 (ds ++ d ∷ []) ≡ true) rows
owned-append ds d [] h = tt
owned-append ds d (r ∷ rows) h = (has_id-append_true r.0 ds d h.0, owned-append ds d rows h.1)

owned-insert :
    (ds : List Document) (i : ℕ) (t : Text) (rows : List (ℕ × Text))
    → has_id i ds ≡ true
    → All (λ row. has_id row.0 ds ≡ true) rows
    → All (λ row. has_id row.0 ds ≡ true) (insert_content i t rows)
owned-insert ds i t rows h own = elim (Option-cases (content_of i rows)) [
  | inl new ↦ rw new (All-append (λ row. has_id row.0 ds ≡ true) rows _ own (h, tt))
  | inr (v, old) ↦ rw old own
]

-- A new row has no content yet.
pub content_of-new :
    (i : ℕ) (ds : List Document) (rows : List (ℕ × Text))
    → has_id i ds ≡ false
    → All (λ row. has_id row.0 ds ≡ true) rows
    → content_of i rows ≡ none
unfolding content_of
content_of-new i ds [] h own = refl
content_of-new i ds ((j, t) ∷ rows) h own = elim (Bool-cases (j == i)) [
  | inl same ↦
      let e : j ≡ i = ==_sound j i same in let o : has_id i ds ≡ true = rw e at (own.0) in cc
  | inr other ↦ rw other (content_of-new i ds rows h own.1)
]

-- Whether a document is created, is there already or is refused, `create` keeps a store valid: its
-- keys are unique, every document has content, and all content belongs to a document.
pub create-IsValid :
    (d : Document) (content : Text) (s : Store) → IsValid s → IsValid (create d content s).1
unfolding create
create-IsValid d content s v = elim (Bool-cases (has_hash d.content_hash s.documents)) [
  | inl known ↦ rw known v
  | inr new_hash ↦ rw new_hash (elim (Bool-cases (has_id d.doc_id s.documents)) [
    | inl taken ↦ rw taken v
    | inr new_id ↦ rw new_id (record {
      unique = IsUnique-append s.documents d v.unique new_id new_hash;
      stored =
          All-append (HasContent (insert_content d.doc_id content s.contents)) s.documents _
            (HasContent-insert d.doc_id content s.contents s.documents v.stored)
            (insert_content-stores d.doc_id content s.contents, tt);
      owned =
          owned-insert _ d.doc_id content s.contents (has_id-append_self s.documents d)
            (owned-append s.documents d s.contents v.owned);
    })
  ])
]

has_id-update_rows :
    (now : ℕ) (d : Document) (i : ℕ) (ds : List Document)
    → has_id i (update_rows now d ds) ≡ has_id i ds
unfolding has_id update_rows
has_id-update_rows now d i [] = refl
has_id-update_rows now d i (c ∷ ds) = ground (arith, has_id-update_rows now d i ds)

has_hash-update_rows :
    (now : ℕ) (d : Document) (h : Text) (ds : List Document)
    → has_hash h (update_rows now d ds) ≡ has_hash h ds
unfolding has_hash update_rows
has_hash-update_rows now d h [] = refl
has_hash-update_rows now d h (c ∷ ds) = ground (arith, has_hash-update_rows now d h ds)

update_rows-IsUnique :
    (now : ℕ) (d : Document) (ds : List Document) → IsUnique ds → IsUnique (update_rows now d ds)
unfolding update_rows
update_rows-IsUnique now d [] u = tt
update_rows-IsUnique now d (c ∷ ds) u = (
  ground (arith, has_id-update_rows now d c.doc_id ds),
  ground (arith, has_hash-update_rows now d c.content_hash ds),
  update_rows-IsUnique now d ds u.2,
)

update_rows-stored :
    (now : ℕ) (d : Document) (rows : List (ℕ × Text)) (ds : List Document)
    → All (HasContent rows) ds
    → All (HasContent rows) (update_rows now d ds)
unfolding update_rows
update_rows-stored now d rows [] h = tt
update_rows-stored now d rows (c ∷ ds) h = elim (Bool-cases (c.doc_id == d.doc_id)) [
  | inl hit ↦ rw hit (h.0, update_rows-stored now d rows ds h.1)
  | inr miss ↦ rw miss (h.0, update_rows-stored now d rows ds h.1)
]

-- An update keeps a store valid, whether it finds its row or not.
pub update_document-IsValid :
    (now : ℕ) (d : Document) (s : Store) → IsValid s → IsValid (update_document now d s).1
unfolding update_document
update_document-IsValid now d s v = elim (Bool-cases (has_id d.doc_id s.documents)) [
  | inl there ↦ rw there (record {
    unique = update_rows-IsUnique now d s.documents v.unique;
    stored = update_rows-stored now d s.contents s.documents v.stored;
    owned = simp has_id-update_rows v.owned;
  })
  | inr missing ↦ rw missing v
]
