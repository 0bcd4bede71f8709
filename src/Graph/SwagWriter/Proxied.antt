-- ===== src/Graph/SwagWriter/Proxied.antt =====
-- What a write of proxies comes to where Neo4j refuses maps.
use mathlib.Core.List.{flatten}
use taboot.Prelude.{ℕ, ◌<◌, ◌≡◌, refl, inl, inr, true, Option, some, List, [], ◌∷◌, Option-cases}
use taboot.Python.{Exn, Outcome, raised, ◌>>◌}
use taboot.Python.Batches.{batches, flatten-batches}
use taboot.Schemas.{Proxy}
use taboot.Graph.BatchedWriter.{nothing_written}
use taboot.Graph.SwagWriter.{Neo4j, proxy_row, session_run, run_batches, proxy_fault, write_proxies}

-- It raised, and no node and no relationship changed.
abbrev pub IsRefused : {A : Type 0} → Neo4j → Outcome A × Neo4j → Type 0
IsRefused g (r, after) =
    (e : Exn) × (r ≡ raised e)
    × (after.proxies ≡ g.proxies)
    × (after.services ≡ g.services)
    × (after.routes ≡ g.routes)

module _ (fault : ℕ → Option Exn) (refusal : Exn) (batch_size : ℕ) (pos : 0 < batch_size) where
  run-IsRefused :
      (bs : List (List Proxy)) (p : Proxy) (ps : List Proxy) (g : Neo4j)
      → flatten bs ≡ p ∷ ps
      → IsRefused g (
          run_batches
            (proxy_fault fault (some refusal) batch_size)
            batch_size
            proxy_row
            true
            bs
            nothing_written
            g)
  unfolding run_batches session_run flatten ◌>>◌
  run-IsRefused [] p ps g h = absurd cc
  run-IsRefused (b ∷ bs) p ps g h = elim (Option-cases (fault g.calls)) [
    | inl up ↦ rw up (refusal, refl, refl, refl, refl)
    | inr (e, down) ↦ rw down (e, refl, refl, refl, refl)
  ]

  -- The first batch with a proxy is refused.
  pub write_proxies-IsRefused :
      (p : Proxy) (ps : List Proxy) (g : Neo4j)
      → IsRefused g (write_proxies fault (some refusal) batch_size (p ∷ ps) g)
  unfolding write_proxies
  write_proxies-IsRefused p ps g =
      run-IsRefused (batches batch_size (p ∷ ps)) p ps g (flatten-batches batch_size (p ∷ ps) pos)
