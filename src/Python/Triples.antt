-- ===== src/Python/Triples.antt =====
-- What holds of an action's result and of the state that it leaves, by how it ended.
use taboot.Prelude.{Bool, true, false, List, [], ◌∷◌, if◌then◌else◌}
use taboot.Python.{
  Outcome, ok, raised, Exn, Exec, pure, gets, lift, resume, settle, finally, ◌>>=◌, ◌>>◌, try_else,
}
use taboot.Python.Loops.{for_each}

-- `Q` of a value and the state, `E` of the state behind an exception.
abbrev pub Post : {S A : Type 0} → (A → S → Type 0) → (S → Type 0) → Outcome A × S → Type 0
Post Q E (ok a, s) = Q a s
Post Q E (raised e, s) = E s

module _ {S A B : Type 0} (R : B → S → Type 0) (E : S → Type 0) where
  pub Post-resume :
      (Q : A → S → Type 0) (r : Outcome A × S) (f : A → Exec S B)
      → Post Q E r
      → ((a : A) (s : S) → Q a s → Post R E (f a s))
      → Post R E (resume r f)
  Post-resume Q (ok a, s) f h k = k a s h
  Post-resume Q (raised e, s) f h k = h

  -- A handler starts from what holds behind the exception.
  pub Post-settle :
      (Q : A → S → Type 0) (F : S → Type 0) (r : Outcome A × S) (f : A → Exec S B)
      (handler : Exn → Exec S B)
      → Post Q F r
      → ((a : A) (s : S) → Q a s → Post R E (f a s))
      → ((e : Exn) (s : S) → F s → Post R E (handler e s))
      → Post R E (settle r f handler)
  Post-settle Q F (ok a, s) f handler h k l = k a s h
  Post-settle Q F (raised e, s) f handler h k l = l e s h

-- `P` survives the action, however it ends.
pub record Preserves {S A : Type 0} (P : S → Type 0) (m : Exec S A) : Type 0 where
  pub at : (s : S) → P s → P (m s).1

module _ {S A : Type 0} {P : S → Type 0} where
  pub Preserves-pure : (a : A) → Preserves P (pure a)
  Preserves-pure a = record { at = λ s h. h }

  pub Preserves-gets : (f : S → A) → Preserves P (gets f)
  Preserves-gets f = record { at = λ s h. h }

  pub Preserves-lift : (r : Outcome A) → Preserves P (lift r)
  Preserves-lift (ok a) = record { at = λ s h. h }
  Preserves-lift (raised e) = record { at = λ s h. h }

  pub Preserves-if :
      (b : Bool) (m n : Exec S A) → Preserves P m → Preserves P n → Preserves P (if b then m else n)
  Preserves-if true m n km kn = km
  Preserves-if false m n km kn = kn

module _ {S A B : Type 0} {P : S → Type 0} where
  keeps_resume :
      (r : Outcome A × S) (f : A → Exec S B)
      → P r.1
      → ((a : A) → Preserves P (f a))
      → P (resume r f).1
  keeps_resume (ok a, s) f h k = (k a).at s h
  keeps_resume (raised e, s) f h k = h

  pub Preserves-bind :
      (m : Exec S A) (f : A → Exec S B)
      → Preserves P m
      → ((a : A) → Preserves P (f a))
      → Preserves P (m >>= f)
  unfolding ◌>>=◌
  Preserves-bind m f km kf = record { at = λ s h. keeps_resume (m s) f (km.at s h) kf }

  pub Preserves-then :
      (m : Exec S A) (n : Exec S B) → Preserves P m → Preserves P n → Preserves P (m >> n)
  unfolding ◌>>◌
  Preserves-then m n km kn = record {
    at = λ s h. keeps_resume (m s) (λ _. n) (km.at s h) (λ _. kn);
  }

  keeps_settle :
      (r : Outcome A × S) (f : A → Exec S B) (handler : Exn → Exec S B)
      → P r.1
      → ((a : A) → Preserves P (f a))
      → ((e : Exn) → Preserves P (handler e))
      → P (settle r f handler).1
  keeps_settle (ok a, s) f handler h k l = (k a).at s h
  keeps_settle (raised e, s) f handler h k l = (l e).at s h

  pub Preserves-try :
      (m : Exec S A) (f : A → Exec S B) (handler : Exn → Exec S B)
      → Preserves P m
      → ((a : A) → Preserves P (f a))
      → ((e : Exn) → Preserves P (handler e))
      → Preserves P (try_else m f handler)
  unfolding try_else
  Preserves-try m f handler km kf kh = record {
    at = λ s h. keeps_settle (m s) f handler (km.at s h) kf kh;
  }

pub ruleset preserving = (
  Preserves-pure, Preserves-gets, Preserves-lift, Preserves-if, Preserves-bind, Preserves-then,
  Preserves-try,
)

module _ {S A B : Type 0} {P : S → Type 0} where
  pub Preserves-for_each :
      (f : A → Exec S B)
      → ((a : A) → Preserves P (f a))
      → (xs : List A) → Preserves P (for_each f xs)
  unfolding for_each
  Preserves-for_each f k [] = Preserves-pure []
  Preserves-for_each f k (x ∷ xs) = Preserves-bind (f x) _ (k x) λ y.
      Preserves-bind (for_each f xs) _ (Preserves-for_each f k xs) λ ys. Preserves-pure (y ∷ ys)

pub Post-any : {S A : Type 0} (r : Outcome A × S) → Post (λ _ _. Unit {0}) (λ _. Unit {0}) r
Post-any (ok a, s) = tt
Post-any (raised e, s) = tt

pub Preserves-finally :
    {S A : Type 0} {P : S → Type 0} (m : Exec S A) (f : S → S)
    → Preserves P m
    → ((s : S) → P s → P (f s))
    → Preserves P (finally m f)
Preserves-finally m f km kf = record { at = λ s h. kf (m s).1 (km.at s h) }

pub Post-state :
    {S A : Type 0} (P : S → Type 0) (r : Outcome A × S)
    → P r.1
    → Post (λ _ s. P s) (λ _. Unit {0}) r
Post-state P (ok a, s) h = h
Post-state P (raised e, s) h = tt

pub Post-weaken :
    {S A : Type 0} (Q R : A → S → Type 0) (E F : S → Type 0) (r : Outcome A × S)
    → Post Q E r
    → ((a : A) (s : S) → Q a s → R a s)
    → ((s : S) → E s → F s)
    → Post R F r
Post-weaken Q R E F (ok a, s) h onto past = onto a s h
Post-weaken Q R E F (raised e, s) h onto past = past s h

-- What an action preserves holds however it ends.
pub Post-preserved :
    {S A : Type 0} (P : S → Type 0) (m : Exec S A) (s : S)
    → Preserves P m
    → P s
    → Post (λ _ v. P v) P (m s)
Post-preserved {S = S} {A = A} P m s k h = go (m s) (k.at s h)
  where
    go : (r : Outcome A × S) → P r.1 → Post (λ _ v. P v) P r
    go (ok a, v) p = p
    go (raised e, v) p = p

pub Post-both :
    {S A : Type 0} (Q R : A → S → Type 0) (E F : S → Type 0) (r : Outcome A × S)
    → Post Q E r
    → Post R F r
    → Post (λ a s. Q a s × R a s) (λ s. E s × F s) r
Post-both Q R E F (ok a, s) h k = (h, k)
Post-both Q R E F (raised e, s) h k = (h, k)
