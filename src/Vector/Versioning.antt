-- ===== src/Vector/Versioning.antt =====
-- packages/vector/migrations/versioning.py: `QdrantMigration`. The client of Qdrant is a parameter, which may
-- lack the two methods on aliases; `S` is its state.
pub mod Listed
pub mod Aliases
use taboot.Prelude.{
  ℕ, Text, codes, Bool, true, false, ◌||◌, Option, none, some, List, [], ◌∷◌, ◌++◌, ltb, ◌==◌,
  text_eq, if◌then◌else◌,
}
use taboot.Python.{Kind, Exn, Exec, pure, raise, try_except, ◌>>=◌, ◌>>◌}
use taboot.Python.Texts.{after_prefix}
use taboot.DocumentStore.{order_by}

pub record Client (S : Type 0) : Type 0 where
  pub create_collection : Text → ℕ → Exec S (Unit {0})
  -- The names of the collections.
  pub get_collections : Exec S (List Text)
  -- The attribute `name` of what is behind a collection or an alias, where it has one.
  pub get_collection : Text → Exec S (Option Text)
  pub delete_alias : Option (Text → Exec S (Unit {0}))
  -- By the name of the collection and that of the alias.
  pub create_alias : Option (Text → Text → Exec S (Unit {0}))

abbrev pub dot : ℕ
dot = 46

abbrev pub underscore : ℕ
underscore = 95

-- `t.replace(old, new)`, for single characters
unfoldable pub replace : ℕ → ℕ → Text → Text
replace old new [] = []
replace old new (c ∷ t) = (if c == old then new else c) ∷ replace old new t

abbrev pub prefix_of : Text → Text
prefix_of collection_name = collection_name ++ codes "_v"

abbrev pub versioned_name : Text → Text → Text
versioned_name collection_name version = prefix_of collection_name ++ replace dot underscore version

abbrev pub no_such_target : Exn
no_such_target = record { kind = Kind.value_error; message = codes "does not exist" }

abbrev pub no_create_alias : Exn
no_create_alias = record {
  kind = Kind.attribute_error;
  message = codes "Qdrant client does not support create_alias operation";
}

unfoldable pub any_named : Text → List Text → Bool
any_named name [] = false
any_named name (c ∷ cs) = text_eq c name || any_named name cs

-- `s <= t` on texts, by their code points
unfoldable pub text_leb : Text → Text → Bool
text_leb [] t = true
text_leb (c ∷ s) [] = false
text_leb (c ∷ s) (d ∷ t) =
    let rest = text_leb s t in if ltb c d then true else if ltb d c then false else rest

-- The version of a name behind the prefix.
abbrev pub version_of_name : Text → Text → Option Text
version_of_name collection_name name = dotted (after_prefix (prefix_of collection_name) name)
  where
    dotted : Option Text → Option Text
    dotted none = none
    dotted (some version_part) = some (replace underscore dot version_part)

abbrev pub add_version : Option Text → List Text → List Text
add_version none versions = versions
add_version (some version) versions = version ∷ versions

-- `for collection in collections`
unfoldable pub versions_in : Text → List Text → List Text
versions_in collection_name [] = []
versions_in collection_name (c ∷ cs) =
    add_version (version_of_name collection_name c) (versions_in collection_name cs)

module _ {S : Type 0} (client : Client S) where
  -- `with suppress(Exception)`
  abbrev pub drop_alias : Option (Text → Exec S (Unit {0})) → Text → Exec S (Unit {0})
  drop_alias none alias_name = pure tt
  drop_alias (some delete_alias) alias_name = try_except (delete_alias alias_name) (λ e. pure tt)

  abbrev pub make_alias : Option (Text → Text → Exec S (Unit {0})) → Text → Text → Exec S (Unit {0})
  make_alias none alias_name collection_name = raise no_create_alias
  make_alias (some create_alias) alias_name collection_name =
      create_alias collection_name alias_name

  unfoldable pub update_alias : Text → Text → Exec S (Unit {0})
  update_alias alias_name collection_name =
      drop_alias client.delete_alias alias_name
      >> make_alias client.create_alias alias_name collection_name

  unfoldable pub create_collection_with_version : Text → ℕ → Text → Exec S Text
  create_collection_with_version collection_name vector_size version = do
    client.create_collection (versioned_name collection_name version) vector_size
    update_alias collection_name (versioned_name collection_name version)
    pure (versioned_name collection_name version)

  unfoldable pub switch_alias : Text → Text → Exec S (Unit {0})
  switch_alias collection_name target_version = do
    collections ← client.get_collections
    if any_named (versioned_name collection_name target_version) collections
        then update_alias collection_name (versioned_name collection_name target_version)
        else raise no_such_target

  unfoldable pub list_versions : Text → Exec S (List Text)
  list_versions collection_name = do
    collections ← client.get_collections
    pure (order_by text_leb (versions_in collection_name collections))

  abbrev pub version_of_info : Text → Option Text → Option Text
  version_of_info collection_name none = none
  version_of_info collection_name (some name) = version_of_name collection_name name

  unfoldable pub get_current_version : Text → Exec S (Option Text)
  get_current_version collection_name =
      try_except
        (client.get_collection collection_name >>= λ info.
          pure (version_of_info collection_name info))
        (λ e. pure none)
