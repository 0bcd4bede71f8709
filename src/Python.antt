-- ===== src/Python.antt =====
-- Python's exceptions and the code that may raise them: a method is an action on the state that
-- it mutates, and what was written before a raise stays written.
pub mod Loops
pub mod Triples
pub mod Batches
pub mod Slices
pub mod Texts
pub mod Values
pub mod Outcomes
pub mod Requests
use taboot.Prelude.{ℕ, Text, Bool, true, false, List, [], ◌∷◌, if◌then◌else◌}

-- The exception classes that the sources raise or name in a handler.
pub data Kind : Type 0 where
  connection_error timeout_error gai_error os_error : Kind
  key_error index_error file_not_found_error programming_error : Kind
  value_error json_decode_error validation_error url_validation_error : Kind
  type_error attribute_error runtime_error integrity_error embedder_error qdrant_write_error
        swag_reader_error ingest_swag_error other_error :
      Kind
  expired_signature_error invalid_issuer_error invalid_audience_error invalid_token_error : Kind
  auth_secret_error yaml_error docker_compose_error invalid_yaml_error invalid_port_error : Kind
  unifi_error unifi_auth_error unifi_connection_error unifi_ssl_error invalid_mac_error : Kind
  invalid_ip_error ssl_error requests_connection_error request_error : Kind
  requests_timeout_error tailscale_api_error : Kind
  -- No exception of Python: a loop of the model ran out of fuel.
  out_of_fuel : Kind
  -- `HTTPException(status_code=...)`
  http_exception : ℕ → Kind

pub record Exn : Type 0 where
  pub kind : Kind
  pub message : Text

-- `isinstance(e, ValueError)`: pydantic's and json's errors, and the program's
-- `URLValidationError`, are subclasses of it.
abbrev pub is_value_error : Kind → Bool
is_value_error Kind.value_error = true
is_value_error Kind.json_decode_error = true
is_value_error Kind.validation_error = true
is_value_error Kind.url_validation_error = true
is_value_error _ = false

abbrev pub is_connection_error : Kind → Bool
is_connection_error Kind.connection_error = true
is_connection_error _ = false

abbrev pub is_timeout_error : Kind → Bool
is_timeout_error Kind.timeout_error = true
is_timeout_error _ = false

abbrev pub is_key_error : Kind → Bool
is_key_error Kind.key_error = true
is_key_error _ = false

pub data Outcome (A : Type 0) : Type 0 where
  ok : A → Outcome A
  raised : Exn → Outcome A

abbrev pub Exec : Type 0 → Type 0 → Type 0
Exec S A = S → Outcome A × S

module _ {S A : Type 0} where
  abbrev pub pure : A → Exec S A
  pure a s = (ok a, s)

  abbrev pub raise : Exn → Exec S A
  raise e s = (raised e, s)

  abbrev pub gets : (S → A) → Exec S A
  gets f s = (ok (f s), s)

abbrev pub modify : {S : Type 0} → (S → S) → Exec S (Unit {0})
modify f s = (ok tt, f s)

module _ {S A B : Type 0} where
  abbrev pub resume : Outcome A × S → (A → Exec S B) → Outcome B × S
  resume (ok a, s) f = f a s
  resume (raised e, s) f = (raised e, s)

  infixl 5 ◌>>=◌ ◌>>◌
  -- Shut where a rule for it is enough.
  unfoldable pub ◌>>=◌ : Exec S A → (A → Exec S B) → Exec S B
  ◌>>=◌ m f s = resume (m s) f

  unfoldable pub ◌>>◌ : Exec S A → Exec S B → Exec S B
  ◌>>◌ m n s = resume (m s) (λ _. n)

  -- `try: a = m` / `except Exception as e: handler` / `else: rest`
  abbrev pub settle : Outcome A × S → (A → Exec S B) → (Exn → Exec S B) → Outcome B × S
  settle (ok a, s) f h = f a s
  settle (raised e, s) f h = h e s

  unfoldable pub try_else : Exec S A → (A → Exec S B) → (Exn → Exec S B) → Exec S B
  try_else m f h s = settle (m s) f h

abbrev pub try_except : {S A : Type 0} → Exec S A → (Exn → Exec S A) → Exec S A
try_except m h = try_else m pure h

-- `try: m` / `finally: f`, where `f` does not raise
abbrev pub finally : {S A : Type 0} → Exec S A → (S → S) → Exec S A
finally m f s = let (r, s') = m s in (r, f s')

-- `try: m` / `finally: f`, where an exception of `f` takes the place of how `m` ended
abbrev pub finally_do : {S A : Type 0} → Exec S A → Exec S (Unit {0}) → Exec S A
finally_do m f s = let (r, s') = m s in settle (f s') (λ _ u. (r, u)) (λ e u. (raised e, u))

-- A handler around an action, which leaves the state to it.
abbrev pub handled : {S A B : Type 0} → (Outcome A → Outcome B) → Exec S A → Exec S B
handled h m s = let (r, s') = m s in (h r, s')

abbrev pub when : {S : Type 0} → Bool → Exec S (Unit {0}) → Exec S (Unit {0})
when true m = m
when false m = pure tt

abbrev pub and_then : {A B : Type 0} → Outcome A → (A → Outcome B) → Outcome B
and_then (ok a) f = f a
and_then (raised e) f = raised e

-- A call whose result is returned to a caller that raises it again, or not at all.
abbrev pub lift : {S A : Type 0} → Outcome A → Exec S A
lift (ok a) = pure a
lift (raised e) = raise e
