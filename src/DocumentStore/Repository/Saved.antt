-- ===== src/DocumentStore/Repository/Saved.antt =====
-- What `save` leaves behind.
use taboot.Prelude.{
  ℕ, Text, ◌≡◌, refl, inl, inr, false, List, [], ◌∷◌, All, Bool-cases, arith, ◌==◌, ==_sound,
  text_eq, text_eq_sym,
}
use taboot.Schemas.{Document}
use taboot.DocumentStore.{Store, has_id, has_hash}
use taboot.DocumentStore.Unique.{IsUnique, HasContent, IsValid}
use taboot.DocumentStore.Repository.{save_rows, hash_taken, save}

has_id-save_rows :
    (now : ℕ) (d : Document) (i : ℕ) (ds : List Document)
    → has_id i (save_rows now d ds) ≡ has_id i ds
unfolding has_id save_rows
has_id-save_rows now d i [] = refl
has_id-save_rows now d i (c ∷ ds) = ground (arith, has_id-save_rows now d i ds)

save_rows-absent :
    (now : ℕ) (d : Document) (ds : List Document)
    → has_id d.doc_id ds ≡ false
    → save_rows now d ds ≡ ds
unfolding save_rows has_id
save_rows-absent now d [] h = refl
save_rows-absent now d (c ∷ ds) h = ground (arith, save_rows-absent now d ds)

-- A hash that no row has but that of `d`.
has_hash-untaken :
    (d : Document) (ds : List Document)
    → has_id d.doc_id ds ≡ false
    → hash_taken d ds ≡ false
    → has_hash d.content_hash ds ≡ false
unfolding has_hash has_id hash_taken
has_hash-untaken d [] i h = refl
has_hash-untaken d (c ∷ ds) i h = ground (arith, has_hash-untaken d ds)

has_hash-save_rows :
    (now : ℕ) (d : Document) (x : Text) (ds : List Document)
    → has_hash x ds ≡ false
    → text_eq d.content_hash x ≡ false
    → has_hash x (save_rows now d ds) ≡ false
unfolding has_hash save_rows
has_hash-save_rows now d x [] h e = refl
has_hash-save_rows now d x (c ∷ ds) h e = ground (arith, has_hash-save_rows now d x ds)

save_rows-IsUnique :
    (now : ℕ) (d : Document) (ds : List Document)
    → IsUnique ds
    → hash_taken d ds ≡ false
    → IsUnique (save_rows now d ds)
unfolding save_rows hash_taken
save_rows-IsUnique now d [] u h = tt
save_rows-IsUnique now d (c ∷ ds) u h = elim (Bool-cases (c.doc_id == d.doc_id)) [
  | inl hit ↦
      let e : c.doc_id ≡ d.doc_id = ==_sound c.doc_id d.doc_id hit in
      let gone : has_id d.doc_id ds ≡ false = rw e at (u.0) in
      let free : hash_taken d ds ≡ false = rw hit at h in
      rw hit (rw (save_rows-absent now d ds gone) (gone, has_hash-untaken d ds gone free, u.2))
  | inr miss ↦
      let free : (text_eq c.content_hash d.content_hash ≡ false) × (hash_taken d ds ≡ false) =
        (ground arith, ground arith) in
      rw miss (
        rw (has_id-save_rows now d c.doc_id ds) (u.0),
        has_hash-save_rows now d c.content_hash ds u.1
            (rw (text_eq_sym d.content_hash c.content_hash) (free.0)),
        save_rows-IsUnique now d ds u.2 free.1,
      )
]

save_rows-stored :
    (now : ℕ) (d : Document) (rows : List (ℕ × Text)) (ds : List Document)
    → All (HasContent rows) ds
    → All (HasContent rows) (save_rows now d ds)
unfolding save_rows
save_rows-stored now d rows [] h = tt
save_rows-stored now d rows (c ∷ ds) h = elim (Bool-cases (c.doc_id == d.doc_id)) [
  | inl hit ↦
      let e : c.doc_id ≡ d.doc_id = ==_sound c.doc_id d.doc_id hit in
      rw hit ((h.0.0, (rw e at (h.0.1))), save_rows-stored now d rows ds h.1)
  | inr miss ↦ rw miss (h.0, save_rows-stored now d rows ds h.1)
]

-- Saving keeps a store valid, whether it finds its row, finds none or meets the hash of another
-- document: keys stay unique, although the hash is among what is saved.
pub save-IsValid : (now : ℕ) (d : Document) (s : Store) → IsValid s → IsValid (save now d s).1
unfolding save
save-IsValid now d s v = elim (Bool-cases (has_id d.doc_id s.documents)) [
  | inr missing ↦ rw missing v
  | inl there ↦ rw there (elim (Bool-cases (hash_taken d s.documents)) [
    | inl taken ↦ rw taken v
    | inr free ↦ rw free (record {
      unique = save_rows-IsUnique now d s.documents v.unique free;
      stored = save_rows-stored now d s.contents s.documents v.stored;
      owned = simp has_id-save_rows v.owned;
    })
  ])
]
