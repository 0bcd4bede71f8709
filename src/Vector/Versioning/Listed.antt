-- ===== src/Vector/Versioning/Listed.antt =====
-- The versions that are listed.
use taboot.Prelude.{
  ℕ, ◌≡◌, refl, ap, Text, Bool, true, false, not, ◌&&◌, Option, none, some, inl, inr, List, [], ◌∷◌,
  ◌++◌, Bool-cases, arith, ◌==◌, ==_refl, text_eq, text_eq_refl, text_eq_sound, if◌then◌else◌,
}
use taboot.Python.{Exec, ok, raised, ◌>>=◌, ◌>>◌}
use taboot.Python.Triples.{
  Post, Post-resume, Post-weaken, Post-preserved, Preserves, Preserves-pure, Preserves-lift,
  Preserves-then, Preserves-try,
}
use taboot.Python.Texts.{after_prefix}
use taboot.DocumentStore.{insert_by, order_by}
use taboot.Vector.Versioning.{
  Client, drop_alias, make_alias, update_alias, no_create_alias, create_collection_with_version,
  list_versions, dot, underscore, replace, prefix_of, versioned_name, any_named, text_leb,
  version_of_name, add_version, versions_in,
}

-- No underscore inside.
unfoldable pub is_dotted : Text → Bool
is_dotted [] = true
is_dotted (c ∷ t) = not (c == underscore) && is_dotted t

replace-replace :
    (t : Text) → is_dotted t ≡ true → replace underscore dot (replace dot underscore t) ≡ t
unfolding replace is_dotted
replace-replace [] h = refl
replace-replace (c ∷ t) h = rw (replace-replace t (ground arith)) (rw (back c (ground arith)) refl)
  where
    back :
        (c : ℕ)
        → (c == underscore) ≡ false
        → (if (if c == dot then underscore else c) == underscore
            then dot
            else (if c == dot then underscore else c))
          ≡ c
    back c h = ground arith

after_prefix-append : (p t : Text) → after_prefix p (p ++ t) ≡ some t
unfolding after_prefix
after_prefix-append [] t = refl
after_prefix-append (c ∷ p) t = rw (==_refl c) (after_prefix-append p t)

version_of-versioned :
    (name version : Text)
    → is_dotted version ≡ true
    → version_of_name name (versioned_name name version) ≡ some version
version_of-versioned name version h =
    rw (after_prefix-append (prefix_of name) (replace dot underscore version))
      (ap (λ t. some t) (replace-replace version h))

any_named-add :
    (v : Text) (o : Option Text) (vs : List Text)
    → any_named v vs ≡ true
    → any_named v (add_version o vs) ≡ true
unfolding any_named
any_named-add v none vs h = h
any_named-add v (some w) vs h = ground arith

versions_in-named :
    (name v : Text) (cs : List Text)
    → is_dotted v ≡ true
    → any_named (versioned_name name v) cs ≡ true
    → any_named v (versions_in name cs) ≡ true
unfolding any_named versions_in
versions_in-named name v [] h k = cc
versions_in-named name v (c ∷ cs) h k = elim (Bool-cases (text_eq c (versioned_name name v))) [
  | inl same ↦
      rw (text_eq_sound c (versioned_name name v) same)
        (rw (version_of-versioned name v h) (rw (text_eq_refl v) refl))
  | inr other ↦
      any_named-add v (version_of_name name c) (versions_in name cs)
        (versions_in-named name v cs h (rw other at k))
]

any_named-insert_by :
    (v w : Text) (vs : List Text) → any_named v (insert_by text_leb w vs) ≡ any_named v (w ∷ vs)
unfolding any_named insert_by
any_named-insert_by v w [] = refl
any_named-insert_by v w (x ∷ vs) = elim (Bool-cases (text_leb w x)) [
  | inl first ↦ rw first refl
  | inr later ↦ rw later (ground (arith, any_named-insert_by v w vs))
]

any_named-order_by :
    (v : Text) (vs : List Text) → any_named v (order_by text_leb vs) ≡ any_named v vs
unfolding any_named order_by
any_named-order_by v [] = refl
any_named-order_by v (w ∷ vs) =
    rw (any_named-insert_by v w (order_by text_leb vs)) (ground (arith, any_named-order_by v vs))

-- What the client does with the names of the collections: it lists them, creating one adds it or fails, and
-- what is done with aliases leaves them alone.
pub record IsFaithful {S : Type 0} (client : Client S) (names : S → List Text) : Type 0 where
  pub lists : (s : S) → client.get_collections s ≡ (ok (names s), s)
  pub creates :
      (name : Text) (size : ℕ) (s : S)
      → Post
          (λ _ t. any_named name (names t) ≡ true)
          (λ _. Unit {0})
          (client.create_collection name size s)
  pub deletes :
      (f : Text → Exec S (Unit {0}))
      → client.delete_alias ≡ some f
      → (a : Text) (s : S) → names (f a s).1 ≡ names s
  pub points :
      (g : Text → Text → Exec S (Unit {0}))
      → client.create_alias ≡ some g
      → (c a : Text) (s : S) → names (g c a s).1 ≡ names s

module _ {S : Type 0} (client : Client S) (names : S → List Text)
    (faithful : IsFaithful client names) (c : Text) where
  abbrev Has : S → Type 0
  Has s = any_named c (names s) ≡ true

  drop_alias-Preserves :
      (o : Option (Text → Exec S (Unit {0})))
      → client.delete_alias ≡ o
      → (a : Text) → Preserves Has (drop_alias client o a)
  drop_alias-Preserves none e a = Preserves-pure tt
  drop_alias-Preserves (some f) e a =
      Preserves-try _ _ _ (record { at = λ s h. rw (faithful.deletes f e a s) h })
        (λ x. Preserves-pure x) (λ x. Preserves-pure tt)

  make_alias-Preserves :
      (o : Option (Text → Text → Exec S (Unit {0})))
      → client.create_alias ≡ o
      → (a n : Text) → Preserves Has (make_alias client o a n)
  make_alias-Preserves none e a n = Preserves-lift (raised no_create_alias)
  make_alias-Preserves (some g) e a n = record { at = λ s h. rw (faithful.points g e n a s) h }

  pub update_alias-Preserves : (a n : Text) → Preserves Has (update_alias client a n)
  unfolding update_alias
  update_alias-Preserves a n =
      Preserves-then _ _ (drop_alias-Preserves client.delete_alias refl a)
        (make_alias-Preserves client.create_alias refl a n)

-- A version without an underscore, on a client that keeps what it creates: once
-- `create_collection_with_version` has returned the name of the collection, `list_versions` returns a
-- list in which the version stands.
pub list_versions-create :
    {S : Type 0} (client : Client S) (names : S → List Text)
    → IsFaithful client names
    → (name version : Text) (size : ℕ) (s : S) → is_dotted version ≡ true
    → Post
        (λ created t.
          (created ≡ versioned_name name version)
          × (vs : List Text) × ((list_versions client name t).0 ≡ ok vs)
          × (any_named version vs ≡ true))
        (λ _. Unit {0})
        (create_collection_with_version client name size version s)
unfolding create_collection_with_version list_versions ◌>>=◌ ◌>>◌
list_versions-create client names faithful name version size s dotted =
    Post-resume _ (λ _. Unit {0}) (λ _ t. any_named (versioned_name name version) (names t) ≡ true)
      (client.create_collection (versioned_name name version) size s) _
      (faithful.creates (versioned_name name version) size s)
      (λ _ t h.
        Post-resume _ (λ _. Unit {0})
          (λ _ u. any_named (versioned_name name version) (names u) ≡ true)
          (update_alias client name (versioned_name name version) t) _
          (Post-weaken _ _ _ _ (update_alias client name (versioned_name name version) t)
            (Post-preserved _ _ t
              (update_alias-Preserves client names faithful (versioned_name name version) name
                (versioned_name name version))
              h)
            (λ _ u k. k) (λ u k. tt))
          (λ _ u k. (
            refl,
            order_by text_leb (versions_in name (names u)),
            rw (faithful.lists u) refl,
            rw (any_named-order_by version (versions_in name (names u)))
                (versions_in-named name version (names u) dotted k),
          )))
