-- ===== src/Api/ApiKeys.antt =====
-- packages/common/api_key_store.py: `ApiKeyStore`, and apps/api/deps/auth.py: `verify_api_key`, which
-- asks it. Redis is what was SET, the latest first; each call of it may raise. SHA-256 and the JSON of
-- a key are parameters.
pub mod Revoked
use taboot.Prelude.{
  ℕ, Text, codes, Bool, true, false, Option, none, some, List, ◌∷◌, [], ◌++◌, is_empty, text_eq,
  if◌then◌else◌,
}
use taboot.Python.{Exn, Outcome, ok, raised, Exec, pure, raise, lift, and_then, ◌>>=◌, ◌>>◌}
use taboot.Python.Values.{Value, Dict, get, or_default, truthy}
use taboot.Api.{http_error}

pub record ApiKey : Type 0 where
  pub key_id : Text
  pub key_hash : Text
  pub name : Text
  pub created_at : ℕ
  pub last_used_at : Option ℕ
  pub rate_limit_rpm : ℕ
  pub is_active : Bool

abbrev pub Redis : Type 0
Redis = List (Text × Text)

pub record Codec : Type 0 where
  pub sha256 : Text → Text
  pub model_dump_json : ApiKey → Text
  pub model_validate_json : Text → Outcome ApiKey
  pub json_loads : Text → Outcome Dict
  -- Whether a call reaches Redis.
  pub reach : Outcome (Unit {0})

unfoldable pub lookup : Text → Redis → Option Text
lookup key [] = none
lookup key ((k, v) ∷ rest) = if text_eq k key then some v else lookup key rest

abbrev pub entry_key : Text → Text
entry_key key_hash = codes "api_key:" ++ key_hash

-- `if not value`
abbrev pub present : Option Text → Option Text
present none = none
present (some v) = if is_empty v then none else some v

abbrev pub invalid_api_key : Exn
invalid_api_key = http_error 401 (codes "Invalid API key")

abbrev pub admit : Bool → Outcome Bool
admit true = ok true
admit false = raised invalid_api_key

module _ (codec : Codec) where
  abbrev pub redis_get : Text → Exec Redis (Option Text)
  redis_get key s = (lift codec.reach >> λ r. (ok (lookup key r), r)) s

  unfoldable pub store : ApiKey → Exec Redis (Unit {0})
  store api_key = lift codec.reach >> λ r.
      (ok tt, (entry_key api_key.key_hash, codec.model_dump_json api_key) ∷ r)

  abbrev pub is_active_entry : Dict → Bool
  is_active_entry fields =
      truthy (or_default (Value.boolean false) (get (codes "is_active") fields))

  abbrev pub check_active : Option Text → Outcome Bool
  check_active none = ok false
  check_active (some value) =
      and_then (codec.json_loads value) λ api_key_data. ok (is_active_entry api_key_data)

  unfoldable pub validate : Text → Exec Redis Bool
  unfolding ◌>>◌
  validate raw_key =
      redis_get (entry_key (codec.sha256 raw_key)) >>= λ value. lift (check_active (present value))

  abbrev parse_entry : Option Text → Exec Redis (Option ApiKey)
  parse_entry none = pure none
  parse_entry (some value) = lift (codec.model_validate_json value) >>= λ k. pure (some k)

  unfoldable pub get_by_hash : Text → Exec Redis (Option ApiKey)
  unfolding ◌>>◌
  get_by_hash key_hash = redis_get (entry_key key_hash) >>= λ value. parse_entry (present value)

  -- The header `X-API-Key`.
  unfoldable pub verify_api_key : Option Text → Exec Redis Bool
  verify_api_key none = raise invalid_api_key
  verify_api_key (some x_api_key) =
      if is_empty x_api_key
      then raise invalid_api_key
      else validate x_api_key >>= λ is_valid. lift (admit is_valid)
