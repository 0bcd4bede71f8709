-- ===== src/DocumentStore/Updates.antt =====
-- What `create` and `update_document` leave behind.
use taboot.Prelude.{
  ℕ, Text, ◌≡◌, refl, true, false, Option, none, some, inl, inr, List, [], ◌∷◌, ◌++◌, Bool-cases,
  arith, ◌==◌, text_eq_refl, ==_sound, if◌then◌else◌,
}
use mathlib.Core.Option
use taboot.Python.{Exn, Outcome, ok, raised}
use taboot.Schemas.{Document}
use taboot.DocumentStore.{
  Store, has_id, has_hash, create, update_rows, set_columns, update_document, not_updated,
  get_content,
}
use taboot.DocumentStore.Unique.{IsValid, content_of-new, content_of-append_new}

-- The row with this key.
unfoldable pub find_document : ℕ → List Document → Option Document
find_document i [] = none
find_document i (d ∷ ds) = if d.doc_id == i then some d else find_document i ds

find_document-append :
    (ds : List Document) (d : Document)
    → has_id d.doc_id ds ≡ false
    → find_document d.doc_id (ds ++ d ∷ []) ≡ some d
unfolding find_document has_id
find_document-append [] d h = ground arith
find_document-append (c ∷ ds) d h = ground (arith, find_document-append ds d)

-- In a valid store, a document with a new hash and a new key is stored, and its content is read
-- back.
pub get_content-create :
    (d : Document) (content : Text) (s : Store)
    → IsValid s
    → has_hash d.content_hash s.documents ≡ false
    → has_id d.doc_id s.documents ≡ false
    → let (r, t) = create d content s in
      (r ≡ ok tt)
      × (find_document d.doc_id t.documents ≡ some d)
      × (get_content d.doc_id t ≡ (ok content, t))
unfolding create get_content
get_content-create d content s v h i =
    let fresh = content_of-new d.doc_id s.documents s.contents i v.owned in
    rw (h, i, fresh)
      (
        refl,
        find_document-append s.documents d i,
        rw (content_of-append_new d.doc_id content s.contents fresh),
      )

has_hash-append_self :
    (x : Text) (ds : List Document) (d : Document)
    → d.content_hash ≡ x
    → has_hash x (ds ++ d ∷ []) ≡ true
unfolding has_hash
has_hash-append_self x [] d e = rw e (rw text_eq_refl)
has_hash-append_self x (c ∷ ds) d e = ground (arith, has_hash-append_self x ds d)

refused : {x : Exn} → ◌≡◌ {A = Outcome (Unit {0})} (raised x) (ok tt) → ⊥
refused h = cc

-- Once a document is created, or was there, creating one with the same hash changes nothing,
-- whatever its key and content.
pub create_again :
    (d e : Document) (first second : Text) (s : Store)
    → (create d first s).0 ≡ ok tt
    → d.content_hash ≡ e.content_hash
    → create e second (create d first s).1 ≡ (ok tt, (create d first s).1)
unfolding create
create_again d e first second s done same =
    elim (Bool-cases (has_hash d.content_hash s.documents)) [
      | inl known ↦
          let k : has_hash e.content_hash s.documents ≡ true = rw same at known in rw known (rw k)
      | inr new ↦ elim (Bool-cases (has_id d.doc_id s.documents)) [
        | inl taken ↦ absurd (refused (rw (new, taken) at done))
        | inr free ↦ rw (new, free) (rw (has_hash-append_self e.content_hash s.documents d same))
      ]
    ]

find_document-update_rows :
    (now : ℕ) (d : Document) (i : ℕ) (ds : List Document)
    → find_document i (update_rows now d ds) ≡ (
        if i == d.doc_id
        then Option.map (set_columns now d) (find_document i ds)
        else find_document i ds)
unfolding find_document update_rows
find_document-update_rows now d i [] = ground arith
find_document-update_rows now d i (c ∷ ds) = ground (arith, find_document-update_rows now d i ds)

pub find_document-absent :
    (i : ℕ) (ds : List Document) → has_id i ds ≡ false → find_document i ds ≡ none
unfolding find_document has_id
find_document-absent i [] h = refl
find_document-absent i (c ∷ ds) h = ground (arith, find_document-absent i ds)

same_rows :
    (now : ℕ) (d : Document) (i : ℕ) (ds : List Document)
    → has_id d.doc_id ds ≡ false
    → find_document i ds ≡ (
        if i == d.doc_id
        then Option.map (set_columns now d) (find_document i ds)
        else find_document i ds)
same_rows now d i ds h = elim (Bool-cases (i == d.doc_id)) [
  | inl same ↦
      let e : i ≡ d.doc_id = ==_sound i d.doc_id same in
      let gone : find_document i ds ≡ none = rw e (find_document-absent d.doc_id ds h) in
      rw (same, gone)
  | inr other ↦ rw other
]

-- An update of a document that is there gives its row the new columns and leaves every other row
-- and all content as it was; an update of one that is not there raises a `KeyError` and leaves
-- every row and all content as it was.
pub find_document-update :
    (now : ℕ) (d : Document) (s : Store) (i : ℕ)
    → let (r, t) = update_document now d s in
      (r ≡ (if has_id d.doc_id s.documents then ok tt else raised not_updated))
      × (find_document i t.documents ≡ (
          if i == d.doc_id
          then Option.map (set_columns now d) (find_document i s.documents)
          else find_document i s.documents))
      × (t.contents ≡ s.contents)
unfolding update_document
find_document-update now d s i = elim (Bool-cases (has_id d.doc_id s.documents)) [
  | inl there ↦ rw there (refl, find_document-update_rows now d i s.documents, refl)
  | inr missing ↦ rw missing (refl, same_rows now d i s.documents missing, refl)
]
