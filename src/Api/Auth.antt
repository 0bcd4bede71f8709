-- ===== src/Api/Auth.antt =====
-- apps/api/middleware/jwt_auth.py: the secret of the tokens, their decoding, and the user whom a token
-- names. PyJWT and the process's environment are parameters; the environment is read the same each
-- time, as the caches of the secret and of the context have it. What is only logged is left out,
-- but for the calls that may raise on the way.
pub mod Guarded
use taboot.Prelude.{
  ℕ, ◌+◌, ◌/◌, Text, codes, Bool, true, false, ◌||◌, Option, none, some, List, [], ◌∷◌, length,
  is_empty, ltb, ◌==◌, if◌then◌else◌,
}
use taboot.Python.{
  Kind, Exn, Outcome, ok, raised, Exec, pure, raise, modify, lift, and_then, ◌>>=◌, ◌>>◌,
}
use taboot.Python.Values.{Value, Dict, get, or_default, or_value, as_text}
use taboot.Api.{http_error}

abbrev pub min_secret_length : ℕ
min_secret_length = 32

abbrev pub missing_secret : Exn
missing_secret = record { kind = Kind.auth_secret_error; message = codes "missing" }

abbrev pub weak_secret : Exn
weak_secret = record { kind = Kind.auth_secret_error; message = codes "weak" }

abbrev pub low_entropy_secret : Exn
low_entropy_secret = record { kind = Kind.auth_secret_error; message = codes "low entropy" }

abbrev pub unauthorized : Text → Exn
unauthorized detail = http_error 401 detail

unfoldable pub has_char : ℕ → Text → Bool
has_char c [] = false
has_char c (d ∷ t) = c == d || has_char c t

-- `len(set(t))`
unfoldable pub num_distinct : Text → ℕ
num_distinct [] = 0
num_distinct (c ∷ t) = let rest = num_distinct t in if has_char c t then rest else rest + 1

-- `os.getenv(a) or b`
abbrev pub or_text : Option Text → Option Text → Option Text
or_text none other = other
or_text (some t) other = if is_empty t then other else some t

abbrev pub check_secret : Option Text → Outcome Text
check_secret none = raised missing_secret
check_secret (some t) =
    if is_empty t
    then raised missing_secret
    else if ltb (length t) min_secret_length
    then raised weak_secret
    else if ltb (num_distinct t) (min_secret_length / 2)
    then raised low_entropy_secret
    else ok t

-- What `jwt.decode` is asked for.
pub record DecodeRequest : Type 0 where
  pub token : Text
  pub key : Text
  pub algorithms : List Text
  pub verify_exp : Bool
  pub verify_signature : Bool
  pub require : List Text
  pub issuer : Option Text
  pub audience : Option Text

pub record Jwt : Type 0 where
  pub getenv : Text → Option Text
  pub decode : DecodeRequest → Outcome Dict
  pub get_unverified_header : Text → Outcome Dict
  pub decode_unverified : Text → Outcome Dict

-- PyJWT's errors are subclasses of `InvalidTokenError`.
abbrev pub is_expired : Kind → Bool
is_expired Kind.expired_signature_error = true
is_expired _ = false

abbrev pub is_invalid_issuer : Kind → Bool
is_invalid_issuer Kind.invalid_issuer_error = true
is_invalid_issuer _ = false

abbrev pub is_invalid_audience : Kind → Bool
is_invalid_audience Kind.invalid_audience_error = true
is_invalid_audience _ = false

abbrev pub is_invalid_token : Kind → Bool
is_invalid_token Kind.expired_signature_error = true
is_invalid_token Kind.invalid_issuer_error = true
is_invalid_token Kind.invalid_audience_error = true
is_invalid_token Kind.invalid_token_error = true
is_invalid_token _ = false

abbrev pub is_http_exception : Kind → Bool
is_http_exception (Kind.http_exception status) = true
is_http_exception _ = false

-- `except jwt.InvalidTokenError`
abbrev pub catch_invalid_token : {A : Type 0} → A → Outcome A → Outcome A
catch_invalid_token a (ok b) = ok b
catch_invalid_token a (raised e) = if is_invalid_token e.kind then ok a else raised e

-- `request.state`
pub record RequestState : Type 0 where
  pub user_id : Option Text
  pub session_id : Option Text

-- `payload.get("sub") or payload.get("userId")`
abbrev pub user_claim : Dict → Value
user_claim payload =
    or_value (or_default Value.null (get (codes "sub") payload))
      (or_default Value.null (get (codes "userId") payload))

abbrev pub session_claim : Dict → Option Text
session_claim payload = as_text (or_default Value.null (get (codes "sessionId") payload))

abbrev store_session : Option Text → Exec RequestState (Unit {0})
store_session none = pure tt
store_session (some session_id) = modify (λ s. record s { session_id = some session_id })

abbrev store_user : Option Text → Option Text → Exec RequestState (Option Text)
store_user none session s = (ok none, s)
store_user (some user_id) session s =
    (store_session session >> pure (some user_id)) (record s { user_id = some user_id })

module _ (jwt : Jwt) where
  unfoldable pub get_auth_secret : Outcome Text
  get_auth_secret =
      check_secret
        (or_text (jwt.getenv (codes "AUTH_SECRET")) (jwt.getenv (codes "BETTER_AUTH_SECRET")))

  abbrev pub expected_issuer : Option Text
  expected_issuer =
      or_text (or_text (jwt.getenv (codes "AUTH_ISSUER")) (jwt.getenv (codes "BETTER_AUTH_URL")))
        none

  abbrev pub expected_audience : Option Text
  expected_audience = or_text (jwt.getenv (codes "AUTH_AUDIENCE")) none

  abbrev pub decode_request : Text → Text → DecodeRequest
  decode_request token key = record {
    token = token;
    key = key;
    algorithms = codes "HS256" ∷ [];
    verify_exp = true;
    verify_signature = true;
    require = codes "exp" ∷ [];
    issuer = expected_issuer;
    audience = expected_audience;
  }

  -- The calls of `_token_log_metadata`.
  abbrev pub token_log_metadata : Text → Outcome Dict
  token_log_metadata token =
      and_then (catch_invalid_token [] (jwt.get_unverified_header token))
        λ header. catch_invalid_token [] (jwt.decode_unverified token)

  -- A handler logs the token's metadata and raises.
  abbrev log_and_raise : Text → Text → Outcome Dict
  log_and_raise token detail =
      and_then (token_log_metadata token) λ metadata. raised (unauthorized detail)

  abbrev pub handle_decode : Text → Outcome Dict → Outcome Dict
  handle_decode token (ok payload) = ok payload
  handle_decode token (raised e) =
      if is_expired e.kind
      then log_and_raise token (codes "Token has expired")
      else if is_invalid_issuer e.kind
      then log_and_raise token (codes "Invalid token issuer")
      else if is_invalid_audience e.kind
      then log_and_raise token (codes "Invalid token audience")
      else if is_invalid_token e.kind
      then log_and_raise token (codes "Invalid authentication token")
      else raised e

  unfoldable pub decode_jwt : Text → Outcome Dict
  decode_jwt token =
      handle_decode token (and_then get_auth_secret λ key. jwt.decode (decode_request token key))

  -- `except HTTPException: return None`
  abbrev pub read_user : Outcome Dict → Exec RequestState (Option Text)
  read_user (ok payload) = store_user (as_text (user_claim payload)) (session_claim payload)
  read_user (raised e) = if is_http_exception e.kind then pure none else raise e

  unfoldable pub get_current_user_optional : Option Text → Exec RequestState (Option Text)
  get_current_user_optional none = pure none
  get_current_user_optional (some token) = read_user (decode_jwt token)

  abbrev pub require_auth : Option Text → Exec RequestState Text
  require_auth none = raise (unauthorized (codes "Authentication required"))
  require_auth (some user_id) =
      if is_empty user_id
      then raise (unauthorized (codes "Authentication required"))
      else pure user_id

  -- A route's `Depends(require_auth)`.
  unfoldable pub authenticate : Option Text → Exec RequestState Text
  authenticate credentials = get_current_user_optional credentials >>= require_auth
