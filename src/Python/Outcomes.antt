-- ===== src/Python/Outcomes.antt =====
-- What holds of the value of a call that may raise.
use taboot.Prelude.{◌≡◌, refl, ◌⊎◌, inl, inr, Bool, true, false, if◌then◌else◌}
use taboot.Python.{Exn, Outcome, ok, raised, and_then}

-- It returns what `Q` holds of, or raises.
abbrev pub Returns : {A : Type 0} → (A → Type 0) → Outcome A → Type 0
Returns Q (ok a) = Q a
Returns Q (raised e) = Unit

-- It raises.
abbrev pub Fails : {A : Type 0} → Outcome A → Type 0
Fails (ok a) = ⊥
Fails (raised e) = Unit

pub Outcome-cases :
    {A : Type 0} (r : Outcome A) → ((a : A) × (r ≡ ok a)) ⊎ ((e : Exn) × (r ≡ raised e))
Outcome-cases (ok a) = inl (a, refl)
Outcome-cases (raised e) = inr (e, refl)

module _ {A : Type 0} where
  pub Fails-if : (b : Bool) (r s : Outcome A) → Fails r → Fails s → Fails (if b then r else s)
  Fails-if true r s h k = h
  Fails-if false r s h k = k

  pub Fails-Returns : (Q : A → Type 0) (r : Outcome A) → Fails r → Returns Q r
  Fails-Returns Q (ok a) h = absurd h
  Fails-Returns Q (raised e) h = tt

  pub Returns-if :
      (Q : A → Type 0) (b : Bool) (r s : Outcome A)
      → Returns Q r
      → Returns Q s
      → Returns Q (if b then r else s)
  Returns-if Q true r s h k = h
  Returns-if Q false r s h k = k

  pub Returns-weaken :
      (Q R : A → Type 0) (r : Outcome A) → Returns Q r → ((a : A) → Q a → R a) → Returns R r
  Returns-weaken Q R (ok a) h k = k a h
  Returns-weaken Q R (raised e) h k = tt

  pub Returns-any : (r : Outcome A) → Returns (λ _. Unit {0}) r
  Returns-any (ok a) = tt
  Returns-any (raised e) = tt

pub Returns-and_then :
    {A B : Type 0} (Q : A → Type 0) (R : B → Type 0) (r : Outcome A) (f : A → Outcome B)
    → Returns Q r
    → ((a : A) → Q a → Returns R (f a))
    → Returns R (and_then r f)
Returns-and_then Q R (ok a) f h k = k a h
Returns-and_then Q R (raised e) f h k = tt
