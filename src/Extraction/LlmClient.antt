-- ===== src/Extraction/LlmClient.antt =====
-- packages/extraction/tier_c/llm_client.py: `TierCLLMClient`, its cache in Redis and its batches.
-- Ollama, SHA-256, pydantic's JSON and tenacity's retries are given as a `Backend`.
pub mod Caching
pub mod Batching
pub mod Kept
use mathlib.Core.List.{flatten}
use taboot.Prelude.{
  ℕ, ◌≡◌, ◌≢◌, Text, codes, Bool, true, false, ◌||◌, Option, none, some, List, [], ◌∷◌, ◌++◌, ◌==◌,
  text_eq, if◌then◌else◌,
}
use taboot.Python.{Outcome, ok, raised, Exn, Kind, Exec, pure, raise, ◌>>=◌, ◌>>◌}
use taboot.Python.Loops.{for_each}
use taboot.Python.Batches.{batches}
use taboot.World.{World, Env, tick, service}
use taboot.Extraction.{ExtractionResult}

pub record Backend : Type 0 where
  -- Whether the package `ollama` and a Redis client are there.
  pub has_ollama : Bool
  pub has_redis : Bool
  pub batch_size : ℕ
  pub sha256 : Text → Text
  -- The answer of the model to a prompt, at a tick.
  pub chat : ℕ → Text → Outcome Text
  -- `ExtractionResult(**json.loads(text))` and `model_dump_json`
  pub load : Text → Outcome ExtractionResult
  pub dump : ExtractionResult → Text
  -- `resilient_async_call(max_attempts=3, min_wait=2, max_wait=15)`
  pub resilient : Exec World ExtractionResult → Exec World ExtractionResult

-- What the cache relies on: a result that is dumped is loaded again, and is no empty text.
pub record IsFaithful (b : Backend) (r : ExtractionResult) : Type 0 where
  pub load-dump : b.load (b.dump r) ≡ ok r
  pub dump-ne_nil : b.dump r ≢ []

abbrev loaded : Outcome ExtractionResult → Exec World (Option ExtractionResult)
loaded (ok r) = pure (some r)
loaded (raised e) = raise e

-- What GET finds: the latest value that was SET.
unfoldable pub cached_at : Text → List (Text × Text) → Option Text
cached_at key [] = none
cached_at key ((k, v) ∷ rest) = if text_eq k key then some v else cached_at key rest

abbrev pub no_triples : ExtractionResult
no_triples = record { triples = [] }

abbrev pub prompt_head : Text
prompt_head =
    codes
      "Extract knowledge triples from the following text.\nReturn ONLY a JSON object with this exact format:\n{\"triples\": [{\"subject\": \"entity1\", \"predicate\": \"RELATIONSHIP\", \"object\": \"entity2\", \"confidence\": 0.9}]}\n\nText: "

abbrev pub prompt_tail : Text
prompt_tail = codes "\n\nJSON:"

abbrev pub prompt : Text → Text
prompt window = prompt_head ++ window ++ prompt_tail

-- `except (json.JSONDecodeError, KeyError)`
abbrev pub is_parse_failure : Kind → Bool
is_parse_failure Kind.json_decode_error = true
is_parse_failure Kind.key_error = true
is_parse_failure _ = false

abbrev pub zero_step : Exn
zero_step = record { kind = Kind.value_error; message = codes "range() arg 3 must not be zero" }

module _ (env : Env) (b : Backend) where
  abbrev from_cache : Option Text → Exec World (Option ExtractionResult)
  from_cache none = pure none
  from_cache (some []) = pure none
  from_cache (some (c ∷ t)) = loaded (b.load (c ∷ t))

  unfoldable pub check_cache : Text → Exec World (Option ExtractionResult)
  check_cache key =
      if b.has_redis then service env >> (λ w. from_cache (cached_at key w.cache) w) else pure none

  unfoldable pub save_to_cache : Text → ExtractionResult → Exec World (Unit {0})
  save_to_cache key r =
      if b.has_redis
      then service env >> (λ w. (ok tt, record w { cache = (key, b.dump r) ∷ w.cache }))
      else pure tt

  abbrev parsed : Outcome ExtractionResult → Exec World ExtractionResult
  parsed (ok r) = pure r
  parsed (raised e) = if is_parse_failure e.kind then pure no_triples else raise e

  -- One attempt to ask the model.
  unfoldable pub call_ollama : Text → Exec World ExtractionResult
  call_ollama window =
      if b.has_ollama
      then (do content ← (λ w. (b.chat w.ticks (prompt window), tick w)); parsed (b.load content))
      else pure no_triples

  abbrev or_ask : Text → Option ExtractionResult → Exec World ExtractionResult
  or_ask window (some r) = pure r
  or_ask window none = do
    result ← b.resilient (call_ollama window)
    save_to_cache (b.sha256 window) result
    pure result

  unfoldable pub extract_from_window : Text → Exec World ExtractionResult
  extract_from_window window = check_cache (b.sha256 window) >>= or_ask window

  pub batch_extract : List Text → Exec World (List ExtractionResult)
  batch_extract windows = if b.batch_size == 0 then raise zero_step else do
    results ← for_each (for_each extract_from_window) (batches b.batch_size windows)
    pure (flatten results)
