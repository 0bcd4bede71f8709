-- ===== src/Tests/Access.antt =====
-- apps/api/middleware/jwt_auth.py and apps/api/deps/auth.py on one token and one key.
use taboot.Prelude.{
  Bool, codes, Text, ◌≡◌, refl, true, false, Option, none, some, [], ◌∷◌, text_eq, if◌then◌else◌,
  is_empty,
}
use taboot.Python.{Kind, Exn, ok, raised}
use taboot.Python.Triples.{Post}
use taboot.Python.Values.{Value, Dict, get}
use taboot.Api.Auth.{Jwt, RequestState, get_auth_secret, num_distinct, has_char, authenticate}
use taboot.Api.Auth.Guarded.{Authentic, authenticate-Authentic, with_session, authenticate_accepts}
use taboot.Api.ApiKeys.{ApiKey, Codec, store, verify_api_key, invalid_api_key}
use taboot.Api.ApiKeys.Revoked.{IsFaithful, verify_api_key-store}

abbrev secret : Text
secret = codes "0123456789abcdef0123456789abcdef"

abbrev claims : Dict
claims =
    (codes "sub", Value.text (codes ""))
    ∷ (codes "userId", Value.text (codes "u1"))
    ∷ (codes "sessionId", Value.text (codes "s1"))
    ∷ []

abbrev jwt : Jwt
jwt = record {
  getenv = λ name. if text_eq name (codes "AUTH_SECRET") then some secret else none;
  decode = λ r. ok claims;
  get_unverified_header = λ t. ok [];
  decode_unverified = λ t. ok claims;
}

abbrev expired : Exn
expired = record { kind = Kind.expired_signature_error; message = codes "expired" }

abbrev late : Jwt
late = record jwt { decode = λ r. raised expired }

abbrev nobody : RequestState
nobody = record { user_id = none; session_id = none }

secret_passes : get_auth_secret jwt ≡ ok secret
unfolding get_auth_secret text_eq num_distinct has_char
secret_passes = refl

verifier_passes : get_auth_secret late ≡ ok secret
unfolding get_auth_secret text_eq num_distinct has_char
verifier_passes = refl

authenticate-Authentic_example :
    Post (Authentic jwt (some (codes "t"))) (λ _. Unit) (authenticate jwt (some (codes "t")) nobody)
authenticate-Authentic_example = authenticate-Authentic jwt (some (codes "t")) nobody

authenticate_accepts_example : authenticate jwt (some (codes "t")) nobody ≡ (
  ok (codes "u1"),
  with_session (some (codes "s1")) (record nobody { user_id = some (codes "u1") }),
)
unfolding get text_eq
authenticate_accepts_example =
    authenticate_accepts jwt (codes "t") secret claims (codes "u1") nobody secret_passes refl refl
      refl

-- A codec that hashes a key to itself and writes whether it is active.
abbrev revoked_key : ApiKey
revoked_key = record {
  key_id = codes "k";
  key_hash = codes "raw";
  name = codes "n";
  created_at = 1;
  last_used_at = none;
  rate_limit_rpm = 1;
  is_active = false;
}

abbrev only_active : Text → Dict
only_active t = (codes "is_active", Value.boolean (text_eq t (codes "active"))) ∷ []

abbrev codec : Codec
codec = record {
  sha256 = λ t. t;
  model_dump_json = λ k. if k.is_active then codes "active" else codes "inactive";
  model_validate_json = λ t. ok (record revoked_key { is_active = text_eq t (codes "active") });
  json_loads = λ t. ok (only_active t);
  reach = ok tt;
}

filled : (b : Bool) → is_empty (if b then codes "active" else codes "inactive") ≡ false
filled true = refl
filled false = refl

reads_back :
    (b : Bool)
    → ◌≡◌ {A = Option Value}
        (some (
          Value.boolean
            (text_eq (if b then codes "active" else codes "inactive") (codes "active"))))
        (some (Value.boolean b))
unfolding text_eq
reads_back true = refl
reads_back false = refl

codec-IsFaithful : IsFaithful codec
unfolding get text_eq
codec-IsFaithful = record {
  reached = refl;
  filled = λ k. filled k.is_active;
  loads = λ k. (
    only_active (if k.is_active then codes "active" else codes "inactive"),
    refl,
    reads_back k.is_active,
  );
}

verify_api_key-store_example :
    (verify_api_key codec (some (codes "raw")) (store codec revoked_key []).1).0 ≡ (
      if text_eq (codes "raw") (codes "raw")
      then raised invalid_api_key
      else (verify_api_key codec (some (codes "raw")) []).0)
verify_api_key-store_example =
    verify_api_key-store codec codec-IsFaithful revoked_key (codes "raw") [] refl
