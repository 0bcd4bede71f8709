-- ===== src/Extraction/LlmClient/Kept.antt =====
-- What the client leaves alone in the services.
use mathlib.Core.List.{flatten}
use taboot.Prelude.{Text, Option, none, some, List, [], ◌∷◌, ◌==◌}
use taboot.Python.{Outcome, ok, raised, Exec}
use taboot.Python.Loops.{for_each}
use taboot.Python.Batches.{batches}
use taboot.Python.Triples.{
  Preserves, preserving, Preserves-if, Preserves-bind, Preserves-then, Preserves-pure,
  Preserves-for_each,
}
use taboot.World.{World, Env, tick, service}
use taboot.World.Kept.{Preserves-service}
use taboot.Extraction.{ExtractionResult}
use taboot.Extraction.LlmClient.{
  Backend, cached_at, loaded, from_cache, check_cache, save_to_cache, parsed, call_ollama, or_ask,
  extract_from_window, batch_extract, prompt, is_parse_failure,
}

module _ (env : Env) (b : Backend) (P : World → Type 0) (P-tick : (w : World) → P w → P (tick w))
    (P-cache : (w : World) (cache : List (Text × Text)) → P w → P (record w { cache = cache }))
    (P-resilient : (m : Exec World ExtractionResult)
      → Preserves P m
      → Preserves P (b.resilient m)) where
  from_cache-Preserves : (o : Option Text) (w : World) → P w → P (from_cache env b o w).1
  from_cache-Preserves none w h = h
  from_cache-Preserves (some []) w h = h
  from_cache-Preserves (some (c ∷ t)) w h = go (b.load (c ∷ t))
    where
      go : (r : Outcome ExtractionResult) → P (loaded r w).1
      go (ok r) = h
      go (raised e) = h

  check_cache-Preserves : (key : Text) → Preserves P (check_cache env b key)
  unfolding check_cache
  check_cache-Preserves key =
      Preserves-if b.has_redis _ _
        (Preserves-then (service env) _ (Preserves-service env P P-tick) lookup)
        (Preserves-pure none)
    where
      lookup :
          Preserves {A = Option ExtractionResult} P
            (λ w. from_cache env b (cached_at key w.cache) w)
      lookup = record { at = λ w h. from_cache-Preserves (cached_at key w.cache) w h }

  save_to_cache-Preserves :
      (key : Text) (r : ExtractionResult) → Preserves P (save_to_cache env b key r)
  unfolding save_to_cache
  save_to_cache-Preserves key r =
      Preserves-if b.has_redis _ _
        (Preserves-then (service env) _ (Preserves-service env P P-tick) written)
        (Preserves-pure tt)
    where
      written :
          Preserves {A = Unit {0}} P
            (λ w. (ok (tt {0}), record w { cache = (key, b.dump r) ∷ w.cache }))
      written = record { at = λ w h. P-cache w _ h }

  parsed-Preserves : (r : Outcome ExtractionResult) → Preserves P (parsed env b r)
  parsed-Preserves (ok r) = Preserves-pure r
  parsed-Preserves (raised e) =
      Preserves-if (is_parse_failure e.kind) _ _ (Preserves-pure _) (record { at = λ w h. h })

  call_ollama-Preserves : (window : Text) → Preserves P (call_ollama env b window)
  unfolding call_ollama
  call_ollama-Preserves window =
      Preserves-if b.has_ollama _ _
        (Preserves-bind _ _ asked (λ content. parsed-Preserves (b.load content))) (Preserves-pure _)
    where
      asked : Preserves {A = Text} P (λ w. (b.chat w.ticks (prompt window), tick w))
      asked = record { at = P-tick }

  or_ask-Preserves :
      (window : Text) (o : Option ExtractionResult) → Preserves P (or_ask env b window o)
  or_ask-Preserves window (some r) = Preserves-pure r
  or_ask-Preserves window none =
      search (preserving, P-resilient, call_ollama-Preserves, save_to_cache-Preserves) depth 10

  extract-Preserves : (window : Text) → Preserves P (extract_from_window env b window)
  unfolding extract_from_window
  extract-Preserves window = search (preserving, check_cache-Preserves, or_ask-Preserves) depth 10

  -- Whatever survives a tick, a write of the cache and a retry, `batch_extract` keeps.
  pub batch_extract-Preserves : (windows : List Text) → Preserves P (batch_extract env b windows)
  unfolding batch_extract
  batch_extract-Preserves windows =
      Preserves-if (b.batch_size == 0) _ _ (record { at = λ w h. h })
        (Preserves-bind
          (for_each (for_each (extract_from_window env b)) (batches b.batch_size windows)) _
          (Preserves-for_each _ (Preserves-for_each _ extract-Preserves)
            (batches b.batch_size windows))
          λ rs. Preserves-pure (flatten rs))
