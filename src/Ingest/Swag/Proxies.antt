-- ===== src/Ingest/Swag/Proxies.antt =====
-- The proxy that `parse_config` returns.
use taboot.Prelude.{
  ℕ, Text, ◌≡◌, refl, Bool, false, Option, none, some, inl, inr, List, [], ◌∷◌, length, is_empty,
  Bool-cases, arith, ◌||◌,
}
use taboot.Python.{pure, lift, try_else, ◌>>=◌}
use taboot.Python.Triples.{Post, Post-resume, Post-settle, Post-any}
use taboot.Schemas.{Proxy, has_length}
use taboot.World.{World, Env, now_utc}
use taboot.Extraction.Sentences.{strip}
use taboot.Ingest.Swag.{
  ParsedConfig, make_proxy, default_config, parse_server_blocks, parse_blocks, parse_config,
  extract_server_blocks,
}

-- One proxy, of the reader's name, which is not empty.
abbrev pub OneProxy : Text → ParsedConfig → Type 0
OneProxy name parsed =
    (p : Proxy) × (parsed.proxies ≡ p ∷ []) × (p.name ≡ name) × (is_empty name ≡ false)

abbrev Anything : World → Type 0
Anything _ = Unit {0}

module _ (is_word : ℕ → Bool) (env : Env) (name : Text) where
  make_proxy-named :
      (n : Option ℕ) (w : World)
      → Post (λ p _. (p.name ≡ name) × (is_empty name ≡ false)) Anything (make_proxy env name n w)
  unfolding make_proxy now_utc ◌>>=◌
  make_proxy-named n w = elim (Bool-cases (has_length 256 name)) [
    | inl valid ↦ rw valid (refl, ground arith)
    | inr bad ↦ rw bad tt
  ]

  default_config-OneProxy :
      (w : World) → Post (λ c _. OneProxy name c) Anything (default_config env name w)
  unfolding default_config ◌>>=◌
  default_config-OneProxy w =
      Post-resume (λ c _. OneProxy name c) Anything
        (λ p _. (p.name ≡ name) × (is_empty name ≡ false)) (make_proxy env name none w) _
        (make_proxy-named none w) (λ p v (same, full). (p, refl, same, full))

  parse_blocks-OneProxy :
      (blocks : List Text) (w : World)
      → Post (λ c _. OneProxy name c) Anything (parse_blocks is_word env name blocks w)
  unfolding parse_blocks ◌>>=◌
  parse_blocks-OneProxy [] w = default_config-OneProxy w
  parse_blocks-OneProxy (b ∷ bs) w =
      Post-resume (λ c _. OneProxy name c) Anything (λ _ _. Unit {0})
        (lift (parse_server_blocks is_word (b ∷ bs)) w) _ (Post-any _)
        (λ routes v _.
          Post-resume (λ c _. OneProxy name c) Anything
            (λ p _. (p.name ≡ name) × (is_empty name ≡ false))
            (make_proxy env name (some (length (b ∷ bs))) v) _ (make_proxy-named _ v)
            (λ p u (same, full). (p, refl, same, full)))

  pub parse_config-OneProxy :
      (config : Text) (w : World)
      → Post (λ c _. OneProxy name c) Anything (parse_config is_word env name config w)
  unfolding parse_config try_else ◌>>=◌
  parse_config-OneProxy config w = elim (Bool-cases (is_empty config || is_empty (strip config))) [
    | inl blank ↦ rw blank (default_config-OneProxy w)
    | inr full ↦ rw full (
        Post-settle (λ c _. OneProxy name c) Anything (λ c _. OneProxy name c) Anything
          ((lift (extract_server_blocks config) >>= parse_blocks is_word env name) w) pure _
          (Post-resume (λ c _. OneProxy name c) Anything (λ _ _. Unit {0})
            (lift (extract_server_blocks config) w) _ (Post-any _)
            (λ blocks v _. parse_blocks-OneProxy blocks v))
          (λ c v h. h) (λ e v h. tt))
  ]
