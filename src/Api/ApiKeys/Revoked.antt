-- ===== src/Api/ApiKeys/Revoked.antt =====
-- What storing a key does to the requests that carry one.
use taboot.Prelude.{
  Text, codes, ◌≡◌, refl, inl, inr, Bool, true, false, some, is_empty, text_eq, Bool-cases, ◌∷◌,
  ◌++◌, if◌then◌else◌,
}
use taboot.Python.{Outcome, ok, raised, resume, lift, and_then, ◌>>=◌, ◌>>◌}
use taboot.Python.Values.{Value, Dict, get}
use taboot.Api.ApiKeys.{
  ApiKey, Redis, Codec, admit, check_active, present, entry_key, lookup, store, validate,
  invalid_api_key, verify_api_key,
}

-- Redis is reached, and a key's JSON is not empty and reads as a dict with the key's `is_active`.
pub record IsFaithful (codec : Codec) : Type 0 where
  pub reached : codec.reach ≡ ok tt
  pub filled : (k : ApiKey) → is_empty (codec.model_dump_json k) ≡ false
  pub loads :
      (k : ApiKey)
      → (fields : Dict) × (codec.json_loads (codec.model_dump_json k) ≡ ok fields)
        × (get (codes "is_active") fields ≡ some (Value.boolean k.is_active))

module _ (codec : Codec) (faithful : IsFaithful codec) where
  store-cons :
      (k : ApiKey) (s : Redis)
      → store codec k s ≡ (ok tt, (codes "api_key:" ++ k.key_hash, codec.model_dump_json k) ∷ s)
  unfolding store ◌>>◌
  store-cons k s = rw faithful.reached refl

  decide :
      (r : Outcome Bool) (s : Redis)
      → (resume {S = Redis} (lift r s) (λ is_valid. lift (admit is_valid))).0 ≡ and_then r admit
  decide (ok true) s = refl
  decide (ok false) s = refl
  decide (raised e) s = refl

  verify_api_key_lem :
      (x : Text) (s : Redis)
      → is_empty x ≡ false
      → (verify_api_key codec (some x) s).0
        ≡ and_then (check_active codec (present (lookup (entry_key (codec.sha256 x)) s))) admit
  unfolding verify_api_key validate ◌>>=◌ ◌>>◌
  verify_api_key_lem x s there = rw there (
      simp faithful.reached
        (decide (check_active codec (present (lookup (entry_key (codec.sha256 x)) s))) s))

  -- Storing a key, under a codec that keeps what it dumps, decides every request with a key of the same
  -- hash: it is admitted if the stored key is active and answered 401 if not, whatever was stored under
  -- the hash before; a request with a key of another hash is answered as before.
  pub verify_api_key-store :
      (k : ApiKey) (x_api_key : Text) (s : Redis)
      → is_empty x_api_key ≡ false
      → (verify_api_key codec (some x_api_key) (store codec k s).1).0 ≡ (
          if text_eq k.key_hash (codec.sha256 x_api_key)
          then (if k.is_active then ok true else raised invalid_api_key)
          else (verify_api_key codec (some x_api_key) s).0)
  unfolding lookup text_eq
  verify_api_key-store k x s there = rw (store-cons k s) (
      rw (verify_api_key_lem x _ there) (
        rw (verify_api_key_lem x s there) (elim (Bool-cases (text_eq k.key_hash (codec.sha256 x))) [
          | inr other ↦ rw other refl
          | inl same ↦ rw same (
              rw (faithful.filled k) (
                let (fields, loaded, active) = faithful.loads k in
                rw loaded (rw active (decided k.is_active))))
        ])))
    where
      decided : (b : Bool) → admit b ≡ (if b then ok true else raised invalid_api_key)
      decided true = refl
      decided false = refl
