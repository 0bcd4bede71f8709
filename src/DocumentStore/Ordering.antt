-- ===== src/DocumentStore/Ordering.antt =====
-- ORDER BY: `order_by` returns the rows that it is given, in order.
use mathlib.Core.List.{Perm}
use mathlib.Core.List.Perm
use taboot.Prelude.{◌≡◌, Bool, true, false, inl, inr, List, [], ◌∷◌, All, Bool-cases, arith}
use taboot.Schemas.{Document}
use taboot.DocumentStore.{insert_by, order_by, oldest_first, newest_first, latest_update_first}

module _ {A : Type 0} (before : A → A → Bool) where
  insert_by-perm : (d : A) (es : List A) → Perm (insert_by before d es) (d ∷ es)
  unfolding insert_by
  insert_by-perm d [] = Perm.refl (d ∷ [])
  insert_by-perm d (e ∷ es) = elim (Bool-cases (before d e)) [
    | inl first ↦ rw first (Perm.refl (d ∷ e ∷ es))
    | inr later ↦ rw later (Perm.trans (Perm.cons e (insert_by-perm d es)) (Perm.swap d e es))
  ]

  pub order_by-perm : (ds : List A) → Perm (order_by before ds) ds
  unfolding order_by
  order_by-perm [] = Perm.refl []
  order_by-perm (d ∷ ds) =
      Perm.trans (insert_by-perm d (order_by before ds)) (Perm.cons d (order_by-perm ds))

  module _ (P : A → Type 0) where
    All-insert : (d : A) (es : List A) → P d → All P es → All P (insert_by before d es)
    unfolding insert_by
    All-insert d [] h k = (h, tt)
    All-insert d (e ∷ es) h (here, rest) = elim (Bool-cases (before d e)) [
      | inl first ↦ rw first (h, (here, rest))
      | inr later ↦ rw later (here, All-insert d es h rest)
    ]

    pub All-order_by : (ds : List A) → All P ds → All P (order_by before ds)
    unfolding order_by
    All-order_by [] h = tt
    All-order_by (d ∷ ds) (here, rest) =
        All-insert d (order_by before ds) here (All-order_by ds rest)

  -- Each row may stand before all that follow.
  abbrev pub IsOrdered : List A → Type 0
  IsOrdered [] = Unit
  IsOrdered (d ∷ ds) = All (λ e. before d e ≡ true) ds × IsOrdered ds

  module _ (total : (d e : A) → before d e ≡ false → before e d ≡ true)
      (chain : (d e f : A) → before d e ≡ true → before e f ≡ true → before d f ≡ true) where
    All-before :
        (d e : A) (es : List A)
        → before d e ≡ true
        → All (λ f. before e f ≡ true) es
        → All (λ f. before d f ≡ true) es
    All-before d e [] h a = tt
    All-before d e (f ∷ es) h a = (chain d e f h a.0, All-before d e es h a.1)

    All-insert_by :
        (c d : A) (es : List A)
        → before c d ≡ true
        → All (λ f. before c f ≡ true) es
        → All (λ f. before c f ≡ true) (insert_by before d es)
    unfolding insert_by
    All-insert_by c d [] h a = (h, tt)
    All-insert_by c d (e ∷ es) h a = elim (Bool-cases (before d e)) [
      | inl first ↦ rw first (h, a)
      | inr later ↦ rw later (a.0, All-insert_by c d es h a.1)
    ]

    insert_by-IsOrdered : (d : A) (es : List A) → IsOrdered es → IsOrdered (insert_by before d es)
    unfolding insert_by
    insert_by-IsOrdered d [] h = (tt, tt)
    insert_by-IsOrdered d (e ∷ es) h = elim (Bool-cases (before d e)) [
      | inl first ↦ rw first ((first, All-before d e es first h.0), h)
      | inr later ↦
          rw later (All-insert_by e d es (total d e later) h.0, insert_by-IsOrdered d es h.1)
    ]

    pub order_by-IsOrdered : (ds : List A) → IsOrdered (order_by before ds)
    unfolding order_by
    order_by-IsOrdered [] = tt
    order_by-IsOrdered (d ∷ ds) = insert_by-IsOrdered d (order_by before ds) (order_by-IsOrdered ds)

pub order_by-oldest_first : (ds : List Document) → IsOrdered oldest_first (order_by oldest_first ds)
order_by-oldest_first =
    order_by-IsOrdered oldest_first (λ d e h. ground arith) (λ d e f h k. ground arith)

pub order_by-newest_first : (ds : List Document) → IsOrdered newest_first (order_by newest_first ds)
order_by-newest_first =
    order_by-IsOrdered newest_first (λ d e h. ground arith) (λ d e f h k. ground arith)

pub order_by-latest_update_first :
    (ds : List Document) → IsOrdered latest_update_first (order_by latest_update_first ds)
order_by-latest_update_first =
    order_by-IsOrdered latest_update_first (λ d e h. ground arith) (λ d e f h k. ground arith)
