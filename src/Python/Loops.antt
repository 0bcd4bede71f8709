-- ===== src/Python/Loops.antt =====
-- `for x in xs: body(x)` over actions.
use taboot.Prelude.{List, [], ◌∷◌}
use taboot.Python.{Exec, pure, ◌>>=◌}

-- `[await f(x) for x in xs]`, in order; the first exception ends the loop.
unfoldable pub for_each : {S A B : Type 0} → (A → Exec S B) → List A → Exec S (List B)
for_each f [] = pure []
for_each f (x ∷ xs) = f x >>= λ y. for_each f xs >>= λ ys. pure (y ∷ ys)
