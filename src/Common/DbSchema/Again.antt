-- ===== src/Common/DbSchema/Again.antt =====
-- What `create_schema` records, and what it does the next time.
use taboot.Prelude.{
  ℕ, ◌<◌, Text, ◌≡◌, refl, sym, ap, subst, ◌∙◌, true, false, ◌⊎◌, inl, inr, none, some, List, [],
  ◌∷◌, ◌++◌, All, leb, text_eq, text_eq_refl, Bool-cases, arith,
}
use taboot.Common.DbSchema.{
  VersionRow, is_success, latest, checksum_of, has_version, update_version, upsert_version,
}

module _ (version : Text) (at : ℕ) where
  abbrev IsNew : VersionRow → Type 0
  IsNew r = (r.version ≡ version) × (is_success r.status ≡ true) × (r.applied_at ≡ at)

  abbrev IsDated : VersionRow → Type 0
  IsDated r = IsNew r ⊎ (r.applied_at < at)

  abbrev HasNew : List VersionRow → Type 0
  HasNew [] = ⊥
  HasNew (r ∷ rows) = IsNew r ⊎ HasNew rows

  dated_before : (r : VersionRow) → IsDated r → (leb r.applied_at at) ≡ true
  dated_before r (inl (_, _, e)) = ground arith
  dated_before r (inr h) = ground arith

  latest-IsDated :
      (rows : List VersionRow)
      → All IsDated rows
      → (latest rows ≡ none) ⊎ ((q : VersionRow) × (latest rows ≡ some q) × IsDated q)
  unfolding latest
  latest-IsDated [] h = inl refl
  latest-IsDated (r ∷ rows) (dated, rest) = elim (Bool-cases (is_success r.status)) [
    | inl good ↦ elim (latest-IsDated rows rest) [
      | inl e ↦ rw (good, e) (inr (r, refl, dated))
      | inr (q, e, old) ↦ elim (Bool-cases (leb q.applied_at r.applied_at)) [
        | inl after ↦ rw (good, e) (rw after (inr (r, refl, dated)))
        | inr first ↦ rw (good, e) (rw first (inr (q, refl, old)))
      ]
    ]
    | inr bad ↦ rw bad (latest-IsDated rows rest)
  ]

  beyond :
      (r q : VersionRow) → leb q.applied_at r.applied_at ≡ true → r.applied_at < at → IsNew q → ⊥
  beyond r q after old (_, _, e) = ground arith

  latest-IsNew :
      (rows : List VersionRow)
      → All IsDated rows
      → HasNew rows
      → (q : VersionRow) × (latest rows ≡ some q) × IsNew q
  unfolding latest
  latest-IsNew [] h new = absurd new
  latest-IsNew (r ∷ rows) (dated, rest) (inl (v, s, e)) = elim (latest-IsDated rows rest) [
    | inl none_there ↦ rw (s, none_there) (r, refl, (v, s, e))
    | inr (q, there, old) ↦
        let after : leb q.applied_at r.applied_at ≡ true = rw e (dated_before q old) in
        rw (s, there) (rw after (r, refl, (v, s, e)))
  ]
  latest-IsNew (r ∷ rows) (dated, rest) (inr later) =
      let (q, there, new) = latest-IsNew rows rest later in
      elim (Bool-cases (is_success r.status)) [
        | inr bad ↦ rw (bad, there) (q, refl, new)
        | inl good ↦ elim (Bool-cases (leb q.applied_at r.applied_at)) [
          | inr first ↦ rw (good, there) (rw first (q, refl, new))
          | inl after ↦ elim dated [
            | inl same ↦ rw (good, there) (rw after (r, refl, same))
            | inr old ↦ absurd (beyond r q after old new)
          ]
        ]
      ]

  -- The row that was written, and those that it is written among.
  abbrev Older : List VersionRow → Type 0
  Older rows = All (λ r. r.applied_at < at) rows

  update-IsDated :
      (change : VersionRow → VersionRow)
      → ((r : VersionRow) → text_eq r.version version ≡ true → IsNew (change r))
      → (rows : List VersionRow) → Older rows
      → All IsDated (update_version version change rows)
  unfolding update_version
  update-IsDated change new [] h = tt
  update-IsDated change new (r ∷ rows) (old, rest) = elim (Bool-cases (text_eq r.version version)) [
    | inl same ↦ rw same (inl (new r same), update-IsDated change new rows rest)
    | inr other ↦ rw other (inr old, update-IsDated change new rows rest)
  ]

  update-HasNew :
      (change : VersionRow → VersionRow)
      → ((r : VersionRow) → text_eq r.version version ≡ true → IsNew (change r))
      → (rows : List VersionRow) → has_version version rows ≡ true
      → HasNew (update_version version change rows)
  unfolding update_version has_version
  update-HasNew change new [] h = absurd (ground arith)
  update-HasNew change new (r ∷ rows) h = elim (Bool-cases (text_eq r.version version)) [
    | inl same ↦ rw same (inl (new r same))
    | inr other ↦
        let later : has_version version rows ≡ true = rw other at h in
        rw other (inr (update-HasNew change new rows later))
  ]

  append-IsDated :
      (row : VersionRow)
      → IsNew row
      → (rows : List VersionRow) → Older rows
      → All IsDated (rows ++ row ∷ []) × HasNew (rows ++ row ∷ [])
  append-IsDated row new [] h = ((inl new, tt), inl new)
  append-IsDated row new (r ∷ rows) (old, rest) =
      let (dated, has) = append-IsDated row new rows rest in ((inr old, dated), inr has)

  -- A written version is the latest.
  pub upsert-latest :
      (row : VersionRow) (change : VersionRow → VersionRow) (rows : List VersionRow)
      → row.version ≡ version
      → IsNew row
      → ((r : VersionRow) → text_eq r.version version ≡ true → IsNew (change r))
      → Older rows
      → (q : VersionRow) × (latest (upsert_version row change rows) ≡ some q) × IsNew q
  unfolding upsert_version
  upsert-latest row change rows own new changed old = elim (Bool-cases (has_version version rows)) [
    | inl there ↦
        let k : has_version row.version rows ≡ true = ap (λ v. has_version v rows) own ∙ there in
        rw k (
          subst (λ v. (q : VersionRow) × (latest (update_version v change rows) ≡ some q) × IsNew q)
            (sym own)
            (latest-IsNew (update_version version change rows)
              (update-IsDated change changed rows old) (update-HasNew change changed rows there)))
    | inr absent ↦
        let k : has_version row.version rows ≡ false = ap (λ v. has_version v rows) own ∙ absent in
        let (dated, has) = append-IsDated row new rows old in
        rw k (latest-IsNew (rows ++ row ∷ []) dated has)
  ]

checksum_of-update :
    (version checksum : Text) (change : VersionRow → VersionRow) (rows : List VersionRow)
    → ((r : VersionRow) → ((change r).version ≡ r.version) × ((change r).checksum ≡ checksum))
    → has_version version rows ≡ true
    → checksum_of version (update_version version change rows) ≡ some checksum
unfolding checksum_of update_version has_version
checksum_of-update version checksum change [] k h = absurd (ground arith)
checksum_of-update version checksum change (r ∷ rows) k h =
    elim (Bool-cases (text_eq r.version version)) [
      | inl same ↦
          let (v, c) = k r in
          let own : text_eq (change r).version version ≡ true =
            ap (λ t. text_eq t version) v ∙ same in
          rw same (rw own (ap some c))
      | inr other ↦
          let later : has_version version rows ≡ true = rw other at h in
          rw other (rw other (checksum_of-update version checksum change rows k later))
    ]

checksum_of-append :
    (row : VersionRow) (rows : List VersionRow)
    → has_version row.version rows ≡ false
    → checksum_of row.version (rows ++ row ∷ []) ≡ some row.checksum
unfolding checksum_of has_version
checksum_of-append row [] h = rw (text_eq_refl row.version)
checksum_of-append row (r ∷ rows) h = ground (arith, checksum_of-append row rows)

pub checksum_of-upsert :
    (row : VersionRow) (change : VersionRow → VersionRow) (rows : List VersionRow)
    → ((r : VersionRow) → ((change r).version ≡ r.version) × ((change r).checksum ≡ row.checksum))
    → checksum_of row.version (upsert_version row change rows) ≡ some row.checksum
unfolding upsert_version
checksum_of-upsert row change rows k = elim (Bool-cases (has_version row.version rows)) [
  | inl there ↦ rw there (checksum_of-update row.version row.checksum change rows k there)
  | inr absent ↦ rw absent (checksum_of-append row rows absent)
]
