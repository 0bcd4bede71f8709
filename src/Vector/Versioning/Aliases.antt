-- ===== src/Vector/Versioning/Aliases.antt =====
-- What becomes of an alias when its switch fails.
use taboot.Prelude.{◌≡◌, refl, true, some, Text, List}
use taboot.Python.{Exn, Outcome, ok, raised, Exec, settle, pure, resume, try_else, ◌>>=◌, ◌>>◌}
use taboot.Vector.Versioning.{Client, versioned_name, any_named, update_alias, switch_alias}

-- A switch to a collection that exists, on a client that deletes the alias and then raises on creating
-- it: the switch raises, and the alias stays deleted. `Gone` says of a state that the alias is not there.
pub switch_alias-Gone :
    {S : Type 0} (client : Client S) (Gone : S → Type 0) (name version : Text) (cs : List Text)
    (e : Exn) (f : Text → Exec S (Unit {0})) (g : Text → Text → Exec S (Unit {0})) (s : S)
    → client.get_collections s ≡ (ok cs, s)
    → any_named (versioned_name name version) cs ≡ true
    → client.delete_alias ≡ some f
    → client.create_alias ≡ some g
    → ((t : S) → Gone (f name t).1)
    → ((c a : Text) (t : S) → g c a t ≡ (raised e, t))
    → ((switch_alias client name version s).0 ≡ raised e)
      × Gone (switch_alias client name version s).1
unfolding switch_alias update_alias try_else ◌>>=◌ ◌>>◌
switch_alias-Gone {S = S} client Gone name version cs e f g s listed there deletes creates gone
      fails =
    rw listed (rw there (rw (deletes, creates) (go (f name s) (gone s))))
  where
    go :
        (p : Outcome (Unit {0}) × S)
        → Gone p.1
        → let r =
            resume (settle p pure (λ x. pure tt)) (λ _. g (versioned_name name version) name) in
          (r.0 ≡ raised e) × Gone r.1
    go (ok _, t) h = rw (fails (versioned_name name version) name t) (refl, h)
    go (raised x, t) h = rw (fails (versioned_name name version) name t) (refl, h)
