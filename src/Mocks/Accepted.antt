-- ===== src/Mocks/Accepted.antt =====
-- A JWT of services/mock-keycloak at services/mock-internal-gw.
use api_portal.Prelude.{
  Bool-cases, List, Option, Text, codes, contains, false, if_both, inl, inr, is_empty, is_some, ltb,
  lt→ltb, none, not, refl, some, text_eq, true, ℕ, ◌++◌, ◌+◌, ◌-◌, ◌<◌, ◌||◌, ◌≡◌, ◌⊎◌,
}
use api_portal.Mocks.Keycloak.{
  MockUser, MockSettings, JwtClaims, TokenForm, TokenReply, token, invalid_request, token_endpoint,
  base_claims, granted_token, exchange_claims, issued, exchange_for, exchange, with_basic, by_basic,
  pair_of, basic_of, is_text, client_credentials_grant, token_exchange_grant, scopes_of, find_user,
}
use api_portal.Mocks.InternalGw.{
  Verifier, JwksCache, allowed, expected_audience, get_jwks, checked, verify_jwt,
  jwt_auth_middleware,
}

checked-allowed :
    (V : Verifier) (issuer t : Text) (now : ℕ) (p : Option V.Jwks × JwksCache V) (keys : V.Jwks)
    (claims : JwtClaims)
    → p.0 ≡ some keys
    → V.decode t keys expected_audience issuer now ≡ some claims
    → (checked V issuer t now p).0 ≡ allowed claims
checked-allowed V issuer t now (none, cache) keys claims h e = absurd (cc h)
checked-allowed V issuer t now (some k, cache) keys claims h e =
    let same : k ≡ keys = cc h in rw same (rw e refl)

-- The cache has no keys, the published ones, or keys that are too old to be used.
abbrev pub HasKeys : (V : Verifier) → V.Jwks → ℕ → JwksCache V → Type 0
HasKeys V published now cache =
    (cache.keys ≡ none) ⊎ ((cache.keys ≡ some published) ⊎ (300 < now - cache.fetched_at))

-- A download that answers with the published keys, or a cache that has them.
get_jwks_lem :
    (V : Verifier) (published : V.Jwks) (now : ℕ) (cache : JwksCache V)
    → HasKeys V published now cache
    → (get_jwks V now (some published) cache).0 ≡ some published
unfolding get_jwks
get_jwks_lem V published now cache (inl e) = rw e refl
get_jwks_lem V published now cache (inr (inl e)) =
    elim (Bool-cases (ltb 300 (now - cache.fetched_at))) [
      | inl old ↦ rw (e, old) refl
      | inr new ↦ rw (e, new) refl
    ]
get_jwks_lem V published now cache (inr (inr old)) = elim (Bool-cases (is_some cache.keys)) [
  | inl e ↦ rw (e, lt→ltb 300 (now - cache.fetched_at) old) refl
  | inr e ↦ rw e refl
]

module _ (S : MockSettings) (users : List (Text × MockUser)) (b64decode : Text → Option Text)
    (sign : JwtClaims → Text) where
  -- Claims that the issuer makes at a time.
  pub record IsMade (now : ℕ) (claims : JwtClaims) : Type 0 where
    pub issuer : claims.iss ≡ S.issuer
    pub audience : contains claims.aud expected_audience ≡ true
    pub expiry : claims.exp ≡ now + S.token_ttl

  abbrev pub IsIssued : ℕ → TokenReply → Type 0
  IsIssued now (token t ttl) = (claims : JwtClaims) × (t ≡ sign claims) × IsMade now claims
  IsIssued now _ = Unit {0}

  exchange_for-IsIssued :
      (now : ℕ) (jti sub : Text) (requested : List Text) (user : Option MockUser)
      → IsIssued now (exchange_for S users b64decode sign now jti sub requested user)
  unfolding exchange_claims contains text_eq
  exchange_for-IsIssued now jti sub requested none = tt
  exchange_for-IsIssued now jti sub requested (some user) =
      if_both (IsIssued now) user.enabled
        (issued S users b64decode sign
          (exchange_claims S users b64decode sign now jti sub user requested))
        invalid_request (_, refl, record { issuer = refl; audience = refl; expiry = refl }) tt

  exchange-IsIssued :
      (now : ℕ) (jti : Text) (requested : List Text) (sub : Option Text)
      → IsIssued now (exchange S users b64decode sign now jti requested sub)
  exchange-IsIssued now jti requested none = tt
  exchange-IsIssued now jti requested (some sub) =
      if_both (IsIssued now) (is_empty sub) invalid_request _ tt
        (exchange_for-IsIssued now jti sub requested (find_user sub users))

  granted_token-IsIssued :
      (now : ℕ) (jti : Text) (form : TokenForm) (client_id secret : Option Text)
      → IsIssued now (granted_token S users b64decode sign now jti form client_id secret)
  unfolding granted_token base_claims contains text_eq
  granted_token-IsIssued now jti form client_id secret =
      let denied = not (is_text client_id S.client_id) || not (is_text secret S.client_secret) in
      let requested = scopes_of form.scope in
      elim (Bool-cases denied) [
        | inl a ↦ rw a tt
        | inr a ↦ elim (Bool-cases (text_eq form.grant_type client_credentials_grant)) [
          | inl b ↦ rw (a, b) (_, refl, record { issuer = refl; audience = refl; expiry = refl })
          | inr b ↦ elim (Bool-cases (text_eq form.grant_type token_exchange_grant)) [
            | inr c ↦ rw (a, b, c) tt
            | inl c ↦ rw (a, b, c) (exchange-IsIssued now jti requested form.requested_subject)
          ]
        ]
      ]

  with_basic-IsIssued :
      (now : ℕ) (jti : Text) (form : TokenForm) (p : Option (Text × Text))
      → IsIssued now (with_basic S users b64decode sign now jti form p)
  with_basic-IsIssued now jti form none = tt
  with_basic-IsIssued now jti form (some (c, s)) =
      granted_token-IsIssued now jti form (some c) (some s)

  by_basic-IsIssued :
      (now : ℕ) (jti : Text) (form : TokenForm) (o : Option Text)
      → IsIssued now (by_basic S users b64decode sign now jti form o)
  by_basic-IsIssued now jti form none =
      granted_token-IsIssued now jti form form.client_id form.client_secret
  by_basic-IsIssued now jti form (some encoded) =
      with_basic-IsIssued now jti form (pair_of (b64decode encoded))

  token_endpoint-IsIssued :
      (now : ℕ) (jti : Text) (authorization : Option Text) (form : TokenForm)
      → IsIssued now (token_endpoint S users b64decode sign now jti authorization form)
  unfolding token_endpoint
  token_endpoint-IsIssued now jti authorization form =
      by_basic-IsIssued now jti form (basic_of authorization)

  -- A JWT that mock-keycloak issues passes the middleware of mock-internal-gw on every path until it
  -- expires, where the two have the same issuer, the download answers with the keys that
  -- mock-keycloak publishes, the cache has none, has those, or has others for more than 300 seconds,
  -- and `decode` under the published keys takes what `sign` made for its audience and issuer until
  -- its expiry.
  pub token_endpoint-allowed :
      (V : Verifier) (published : V.Jwks) (now later ttl : ℕ) (jti t path : Text)
      (authorization : Option Text) (form : TokenForm) (cache : JwksCache V)
      → ((claims : JwtClaims) (time : ℕ)
          → contains claims.aud expected_audience ≡ true
          → claims.iss ≡ S.issuer
          → time < claims.exp
          → V.decode (sign claims) published expected_audience S.issuer time ≡ some claims)
      → token_endpoint S users b64decode sign now jti authorization form ≡ token t ttl
      → later < now + S.token_ttl
      → (text_eq path (codes "/health") || text_eq path (codes "/internal/api/v1/health")) ≡ false
      → HasKeys V published later cache
      → (claims : JwtClaims) × ((jwt_auth_middleware V S.issuer later
            (some published)
            path
            (some (codes "Bearer " ++ t))
            cache).0
          ≡ allowed claims)
        × IsMade now claims
  unfolding jwt_auth_middleware verify_jwt
  token_endpoint-allowed V published now later ttl jti t path authorization form cache decodes reply
        fresh guarded keys =
      let (claims, same, made) = rw reply at (token_endpoint-IsIssued now jti authorization form) in
      let taken : V.decode t published expected_audience S.issuer later ≡ some claims =
        rw same (decodes claims later made.audience made.issuer (rw made.expiry fresh)) in
      (
        claims,
        rw guarded (
            checked-allowed V S.issuer t later (get_jwks V later (some published) cache) published
              claims (get_jwks_lem V published later cache keys) taken),
        made,
      )
