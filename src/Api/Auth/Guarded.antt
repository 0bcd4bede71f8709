-- ===== src/Api/Auth/Guarded.antt =====
-- Whom `authenticate` lets in.
use taboot.Prelude.{
  ◌≤◌, ◌≡◌, refl, ap, ◌⊎◌, [], ◌∷◌, inl, inr, Text, codes, true, false, Option, none, some, length,
  is_empty, ltb, Bool-cases, Option-cases, arith,
}
use taboot.Python.{Exn, Outcome, ok, raised, resume, ◌>>=◌, ◌>>◌}
use taboot.Python.Triples.{Post, Post-resume}
use taboot.Python.Outcomes.{Returns, Fails, Outcome-cases, Fails-if, Fails-Returns}
use taboot.Python.Values.{Value, Dict, get, or_default, truthy, as_text}
use taboot.Api.Auth.{
  Jwt, DecodeRequest, RequestState, check_secret, num_distinct, or_text, get_auth_secret,
  decode_request, token_log_metadata, handle_decode, decode_jwt, log_and_raise, user_claim,
  session_claim, store_user, is_http_exception, is_expired, is_invalid_issuer, is_invalid_audience,
  is_invalid_token, read_user, get_current_user_optional, require_auth, authenticate, unauthorized,
}

-- A secret of 32 characters, of which 16 are distinct.
abbrev pub IsStrong : Text → Type 0
IsStrong key = (32 ≤ length key) × (16 ≤ num_distinct key)

check_secret-IsStrong : (o : Option Text) → Returns IsStrong (check_secret o)
check_secret-IsStrong none = tt
check_secret-IsStrong (some t) = elim (Bool-cases (is_empty t)) [
  | inl none_there ↦ rw none_there tt
  | inr there ↦ rw there (elim (Bool-cases (ltb (length t) 32)) [
    | inl short ↦ rw short tt
    | inr long ↦ rw long (elim (Bool-cases (ltb (num_distinct t) 16)) [
      | inl few ↦ rw few tt
      | inr many ↦ rw many (ground arith, ground arith)
    ])
  ])
]

-- The claim names the user: `sub` does, or `sub` is missing or false and `userId` does.
abbrev pub Names : Dict → Text → Type 0
Names payload user_id =
    (get (codes "sub") payload ≡ some (Value.text user_id))
    ⊎ ((truthy (or_default Value.null (get (codes "sub") payload)) ≡ false)
        × (get (codes "userId") payload ≡ some (Value.text user_id)))

as_text-text : (v : Value) (t : Text) → as_text v ≡ some t → v ≡ Value.text t
as_text-text (Value.text u) t h = cc
as_text-text (Value.boolean b) t h = absurd cc
as_text-text (Value.number n) t h = absurd cc
as_text-text Value.null t h = absurd cc
as_text-text (Value.compound b) t h = absurd cc

or_default-text :
    (o : Option Value) (t : Text) → or_default Value.null o ≡ Value.text t → o ≡ some (Value.text t)
or_default-text none t h = absurd cc
or_default-text (some v) t h = ap some h

user_claim-Names :
    (payload : Dict) (user_id : Text)
    → as_text (user_claim payload) ≡ some user_id
    → Names payload user_id
user_claim-Names payload user_id h =
    let named : user_claim payload ≡ Value.text user_id = as_text-text _ user_id h in
    elim (Bool-cases (truthy (or_default Value.null (get (codes "sub") payload)))) [
      | inl there ↦ inl (or_default-text _ user_id (rw there at named))
      | inr false_there ↦ inr (false_there, or_default-text _ user_id (rw false_there at named))
    ]

check_secret-source : (o : Option Text) (key : Text) → check_secret o ≡ ok key → o ≡ some key
check_secret-source none key h = absurd cc
check_secret-source (some t) key h = elim (Bool-cases (is_empty t)) [
  | inl none_there ↦ absurd (ground arith)
  | inr there ↦ elim (Bool-cases (ltb (length t) 32)) [
    | inl short ↦ absurd (ground arith)
    | inr long ↦ elim (Bool-cases (ltb (num_distinct t) 16)) [
      | inl few ↦ absurd (ground arith)
      | inr many ↦
          let same : ◌≡◌ {A = Outcome Text} (ok t) (ok key) = rw (there, long, many) at h in cc
    ]
  ]
]

or_text-source :
    (o other : Option Text) (key : Text)
    → or_text o other ≡ some key
    → (o ≡ some key) ⊎ (other ≡ some key)
or_text-source none other key h = inr h
or_text-source (some t) other key h = elim (Bool-cases (is_empty t)) [
  | inl none_there ↦ inr (rw none_there at h)
  | inr there ↦ inl (rw there at h)
]

module _ (jwt : Jwt) where
  -- The token was verified under a strong secret of the environment, for HS256, with its signature
  -- and its expiry checked, for the issuer and the audience of the environment where these are set,
  -- and carries the claims.
  abbrev pub Verified : Text → Dict → Type 0
  Verified token payload =
      (key : Text) × (request : DecodeRequest) × (jwt.decode request ≡ ok payload)
      × (request.token ≡ token)
      × (request.key ≡ key)
      × IsStrong key
      × ((jwt.getenv (codes "AUTH_SECRET") ≡ some key)
          ⊎ (jwt.getenv (codes "BETTER_AUTH_SECRET") ≡ some key))
      × (request.algorithms ≡ codes "HS256" ∷ [])
      × (request.verify_signature ≡ true)
      × (request.verify_exp ≡ true)
      × (request.require ≡ codes "exp" ∷ [])
      × ((t : Text)
          → jwt.getenv (codes "AUTH_ISSUER") ≡ some t
          → is_empty t ≡ false
          → request.issuer ≡ some t)
      × ((t : Text)
          → jwt.getenv (codes "AUTH_ISSUER") ≡ none
          → jwt.getenv (codes "BETTER_AUTH_URL") ≡ some t
          → is_empty t ≡ false
          → request.issuer ≡ some t)
      × ((t : Text)
          → jwt.getenv (codes "AUTH_AUDIENCE") ≡ some t
          → is_empty t ≡ false
          → request.audience ≡ some t)

  secret-source :
      (key : Text)
      → get_auth_secret jwt ≡ ok key
      → (jwt.getenv (codes "AUTH_SECRET") ≡ some key)
        ⊎ (jwt.getenv (codes "BETTER_AUTH_SECRET") ≡ some key)
  unfolding get_auth_secret
  secret-source key h =
      or_text-source (jwt.getenv (codes "AUTH_SECRET")) (jwt.getenv (codes "BETTER_AUTH_SECRET"))
        key (check_secret-source _ key h)

  Verified-decoded :
      (token key : Text) (payload : Dict)
      → get_auth_secret jwt ≡ ok key
      → IsStrong key
      → jwt.decode (decode_request jwt token key) ≡ ok payload
      → Verified token payload
  Verified-decoded token key payload secret strong decoded = (
    key,
    decode_request jwt token key,
    decoded,
    refl,
    refl,
    strong,
    secret-source key secret,
    refl,
    refl,
    refl,
    refl,
    λ t set full. rw set (rw full (rw full refl)),
    λ t unset set full. rw (unset, set) (rw full refl),
    λ t set full. rw set (rw full refl),
  )

  log_and_raise-Fails : (token detail : Text) → Fails (log_and_raise jwt token detail)
  log_and_raise-Fails token detail = elim (Outcome-cases (token_log_metadata jwt token)) [
    | inl (metadata, h) ↦ rw h tt
    | inr (e, h) ↦ rw h tt
  ]

  handle_decode-Fails : (token : Text) (e : Exn) → Fails (handle_decode jwt token (raised e))
  handle_decode-Fails token e = Fails-if (is_expired e.kind) _ _ (log_and_raise-Fails token _) (
      Fails-if (is_invalid_issuer e.kind) _ _ (log_and_raise-Fails token _) (
        Fails-if (is_invalid_audience e.kind) _ _ (log_and_raise-Fails token _)
          (Fails-if (is_invalid_token e.kind) _ _ (log_and_raise-Fails token _) tt)))

  secret-IsStrong : (key : Text) → get_auth_secret jwt ≡ ok key → IsStrong key
  unfolding get_auth_secret
  secret-IsStrong key h =
      let strong : Returns IsStrong (get_auth_secret jwt) =
        check_secret-IsStrong
          (or_text (jwt.getenv (codes "AUTH_SECRET")) (jwt.getenv (codes "BETTER_AUTH_SECRET"))) in
      rw h at strong

  decode_jwt-Verified : (token : Text) → Returns (Verified token) (decode_jwt jwt token)
  unfolding decode_jwt
  decode_jwt-Verified token = elim (Outcome-cases (get_auth_secret jwt)) [
    | inr (e, h) ↦ rw h (Fails-Returns (Verified token) _ (handle_decode-Fails token e))
    | inl (key, h) ↦ rw h (elim (Outcome-cases (jwt.decode (decode_request jwt token key))) [
      | inr (e, k) ↦ rw k (Fails-Returns (Verified token) _ (handle_decode-Fails token e))
      | inl (payload, k) ↦ rw k (Verified-decoded token key payload h (secret-IsStrong key h) k)
    ])
  ]

  -- The user is who a verified token names, and is kept in the request's state.
  abbrev pub Authentic : Option Text → Text → RequestState → Type 0
  Authentic credentials user_id s =
      (token : Text) × (payload : Dict) × (credentials ≡ some token)
      × Verified token payload
      × Names payload user_id
      × (is_empty user_id ≡ false)
      × (s.user_id ≡ some user_id)

  abbrev Named : Option Text → Option Text → RequestState → Type 0
  Named credentials none s = Unit
  Named credentials (some user_id) s =
      (token : Text) × (payload : Dict) × (credentials ≡ some token)
      × Verified token payload
      × (as_text (user_claim payload) ≡ some user_id)
      × (s.user_id ≡ some user_id)

  abbrev Anything : RequestState → Type 0
  Anything _ = Unit

  read_user-Named :
      (token : Text) (r : Outcome Dict) (s : RequestState)
      → Returns (Verified token) r
      → Post (Named (some token)) Anything (read_user jwt r s)
  unfolding ◌>>◌
  read_user-Named token (raised e) s h = elim (Bool-cases (is_http_exception e.kind)) [
    | inl http ↦ rw http tt
    | inr other ↦ rw other tt
  ]
  read_user-Named token (ok payload) s h = elim (Option-cases (as_text (user_claim payload))) [
    | inl missing ↦ rw missing tt
    | inr (user_id, named) ↦ rw named (session user_id named (session_claim payload))
  ]
    where
      session :
          (user_id : Text)
          → as_text (user_claim payload) ≡ some user_id
          → (o : Option Text) → Post (Named (some token)) Anything (store_user (some user_id) o s)
      session user_id named none = (token, payload, refl, h, named, refl)
      session user_id named (some i) = (token, payload, refl, h, named, refl)

-- Whatever PyJWT answers: when `authenticate` returns a user, the request carried a token that PyJWT
-- decoded with the algorithm HS256 alone, checking the signature and the expiry and requiring `exp`,
-- under the value of AUTH_SECRET or BETTER_AUTH_SECRET, of at least 32 characters of which 16 are
-- distinct, for the issuer AUTH_ISSUER, or BETTER_AUTH_URL where that is missing, and the audience AUTH_AUDIENCE where these are set; the
-- user is not empty and is the text of the claim `sub`, or of `userId` where `sub` is missing or
-- false, and stands in the request's state.
pub authenticate-Authentic :
    (jwt : Jwt) (credentials : Option Text) (s : RequestState)
    → Post (Authentic jwt credentials) (λ _. Unit) (authenticate jwt credentials s)
unfolding authenticate get_current_user_optional ◌>>=◌
authenticate-Authentic jwt none s = tt
authenticate-Authentic jwt (some token) s =
    Post-resume (Authentic jwt (some token)) (λ _. Unit) (Named jwt (some token))
      (read_user jwt (decode_jwt jwt token) s) (require_auth jwt)
      (read_user-Named jwt token (decode_jwt jwt token) s (decode_jwt-Verified jwt token)) required
  where
    required :
        (o : Option Text) (v : RequestState)
        → Named jwt (some token) o v
        → Post (Authentic jwt (some token)) (λ _. Unit) (require_auth jwt o v)
    required none v h = tt
    required (some user_id) v (t, payload, same, verified, named, kept) =
        elim (Bool-cases (is_empty user_id)) [
          | inl none_there ↦ rw none_there tt
          | inr there ↦
              rw there
                (t, payload, same, verified, user_claim-Names payload user_id named, there, kept)
        ]

-- The request's state with the session of the claims, where they name one.
abbrev pub with_session : Option Text → RequestState → RequestState
with_session none s = s
with_session (some i) s = record s { session_id = some i }

-- A token that PyJWT verifies under the environment's secret, with a claim that names a user who is
-- not empty: `authenticate` returns this user and keeps the user and the session, where one is
-- named, in the request's state.
pub authenticate_accepts :
    (jwt : Jwt) (token key : Text) (payload : Dict) (user_id : Text) (s : RequestState)
    → get_auth_secret jwt ≡ ok key
    → jwt.decode (decode_request jwt token key) ≡ ok payload
    → as_text (user_claim payload) ≡ some user_id
    → is_empty user_id ≡ false
    → authenticate jwt (some token) s
      ≡ (ok user_id, with_session (session_claim payload) (record s { user_id = some user_id }))
unfolding authenticate get_current_user_optional decode_jwt ◌>>=◌ ◌>>◌
authenticate_accepts jwt token key payload user_id s secret decoded named there =
    rw secret (rw decoded (rw named (session (session_claim payload))))
  where
    session :
        (o : Option Text)
        → resume (store_user (some user_id) o s) (require_auth jwt)
          ≡ (ok user_id, with_session o (record s { user_id = some user_id }))
    session none = rw there refl
    session (some i) = rw there refl

-- A token that PyJWT refuses under the environment's secret, by any of its errors, while the two
-- unverified readings of the token for the log raise nothing else: `authenticate` answers 401 and
-- leaves the request's state as it was.
pub authenticate_refuses :
    (jwt : Jwt) (token key : Text) (e : Exn) (s : RequestState)
    → get_auth_secret jwt ≡ ok key
    → jwt.decode (decode_request jwt token key) ≡ raised e
    → is_invalid_token e.kind ≡ true
    → (metadata : Dict) → token_log_metadata jwt token ≡ ok metadata
    → authenticate jwt (some token) s ≡ (raised (unauthorized (codes "Authentication required")), s)
unfolding authenticate get_current_user_optional decode_jwt ◌>>=◌ ◌>>◌
authenticate_refuses jwt token key e s secret decoded invalid metadata logged = rw secret (
    rw decoded (elim (Bool-cases (is_expired e.kind)) [
      | inl a ↦ rw (a, logged) refl
      | inr a ↦ rw a (elim (Bool-cases (is_invalid_issuer e.kind)) [
        | inl b ↦ rw (b, logged) refl
        | inr b ↦ rw b (elim (Bool-cases (is_invalid_audience e.kind)) [
          | inl c ↦ rw (c, logged) refl
          | inr c ↦ rw (c, invalid, logged) refl
        ])
      ])
    ]))
