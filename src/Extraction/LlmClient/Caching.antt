-- ===== src/Extraction/LlmClient/Caching.antt =====
-- The cache: a window is not sent to the model twice.
use taboot.Prelude.{
  ℕ, Text, ◌≡◌, ◌≢◌, refl, true, inl, inr, Option, none, some, [], ◌∷◌, Option-cases, text_eq_refl,
}
use taboot.Python.{Outcome, ok, raised, ◌>>=◌, ◌>>◌}
use taboot.Python.Triples.{Post, Post-resume, Post-any}
use taboot.World.{World, Env, tick, service}
use taboot.Extraction.{ExtractionResult}
use taboot.Extraction.LlmClient.{
  Backend, IsFaithful, cached_at, loaded, from_cache, check_cache, save_to_cache, call_ollama,
  or_ask, extract_from_window,
}

module _ (env : Env) (b : Backend) (redis : b.has_redis ≡ true) where
  -- The cache holds the result under this key.
  abbrev Held : Text → ExtractionResult → World → Type 0
  Held key r v =
      (c : ℕ) × (t : Text) × (cached_at key v.cache ≡ some (c ∷ t)) × (b.load (c ∷ t) ≡ ok r)

  abbrev Hit : Text → Option ExtractionResult → World → Type 0
  Hit key none v = Unit
  Hit key (some r) v = Held key r v

  abbrev Any : World → Type 0
  Any _ = Unit

  loaded-Post :
      (key : Text) (w : World) (c : ℕ) (t : Text) (r : Outcome ExtractionResult)
      → cached_at key w.cache ≡ some (c ∷ t)
      → b.load (c ∷ t) ≡ r
      → Post (Hit key) Any (loaded r w)
  loaded-Post key w c t (ok r) e l = (c, t, e, l)
  loaded-Post key w c t (raised x) e l = tt

  from_cache-Post :
      (key : Text) (w : World) (o : Option Text)
      → cached_at key w.cache ≡ o
      → Post (Hit key) Any (from_cache env b o w)
  from_cache-Post key w none e = tt
  from_cache-Post key w (some []) e = tt
  from_cache-Post key w (some (c ∷ t)) e = loaded-Post key w c t (b.load (c ∷ t)) e refl

  check_cache-Post : (key : Text) (w : World) → Post (Hit key) Any (check_cache env b key w)
  unfolding check_cache service ◌>>◌
  check_cache-Post key w = elim (Option-cases (env.fault w.ticks)) [
    | inl up ↦ rw (redis, up) (from_cache-Post key (tick w) (cached_at key w.cache) refl)
    | inr (e, down) ↦ rw (redis, down) tt
  ]

  dumped :
      (r : ExtractionResult)
      → b.dump r ≢ []
      → (t : Text) → b.dump r ≡ t
      → (c : ℕ) × (u : Text) × (t ≡ c ∷ u)
  dumped r written [] e = absurd (written e)
  dumped r written (c ∷ u) e = (c, u, refl)

  -- It does, if the result comes back from what is written.
  abbrev Kept : Text → ExtractionResult → World → Type 0
  Kept key r v = b.dump r ≢ [] → b.load (b.dump r) ≡ ok r → Held key r v

  save_to_cache-Post :
      (key : Text) (r : ExtractionResult) (w : World)
      → Post (λ _ v. Kept key r v) Any (save_to_cache env b key r w)
  unfolding save_to_cache service ◌>>◌ cached_at
  save_to_cache-Post key r w = elim (Option-cases (env.fault w.ticks)) [
    | inl up ↦
        rw (redis, up)
          (λ written loads.
            let (c, u, e) = dumped r written (b.dump r) refl in
            (c, u, rw (text_eq_refl key, e), rw (← e) loads))
    | inr (x, down) ↦ rw (redis, down) tt
  ]

  or_ask-Post :
      (window : Text) (o : Option ExtractionResult) (w : World)
      → Hit (b.sha256 window) o w
      → Post (Kept (b.sha256 window)) Any (or_ask env b window o w)
  unfolding ◌>>=◌ ◌>>◌
  or_ask-Post window (some r) w h = λ _ _. h
  or_ask-Post window none w h =
      Post-resume (Kept (b.sha256 window)) Any (λ _ _. Unit {0})
        (b.resilient (call_ollama env b window) w) _ (Post-any _)
        λ r v _.
          Post-resume (Kept (b.sha256 window)) Any (λ _ u. Kept (b.sha256 window) r u)
            (save_to_cache env b (b.sha256 window) r v) _ (save_to_cache-Post (b.sha256 window) r v)
            λ _ u held. held

  extract-Post :
      (window : Text) (w : World)
      → Post (Kept (b.sha256 window)) Any (extract_from_window env b window w)
  unfolding extract_from_window ◌>>=◌
  extract-Post window w =
      Post-resume (Kept (b.sha256 window)) Any (Hit (b.sha256 window))
        (check_cache env b (b.sha256 window) w) _ (check_cache-Post (b.sha256 window) w)
        (or_ask-Post window)

  -- Where the client has Redis and a result loads from its own dump, extracting the result's window
  -- again returns the same result after one question to Redis, without the model and without a
  -- change, as long as Redis answers that question.
  pub extract_again :
      (window : Text) (w v : World) (r : ExtractionResult)
      → IsFaithful b r
      → extract_from_window env b window w ≡ (ok r, v)
      → env.fault v.ticks ≡ none
      → extract_from_window env b window v ≡ (ok r, tick v)
  unfolding extract_from_window check_cache service ◌>>=◌ ◌>>◌
  extract_again window w v r faithful first up =
      let (c, t, e, l) : Held (b.sha256 window) r v =
        (rw first at (extract-Post window w)) faithful.dump-ne_nil faithful.load-dump in
      rw (redis, up, e, l)
