-- ===== src/Mocks/InternalGw.antt =====
-- services/mock-internal-gw/main.py: `get_jwks`, `verify_jwt`, the middleware, `get_vendor` and
-- `get_order`. The download of the keys and the verification of a JWT are parameters.
use api_portal.Prelude.{
  Bool, List, Option, Text, codes, find, if◌then◌else◌, is_some, ltb, none, not, some, text_eq, ℕ,
  ◌-◌, ◌||◌,
}
use api_portal.Apisix.Admin.{behind}
use api_portal.Mocks.Keycloak.{JwtClaims}

-- The keys that an answer has, and `jose_jwt.decode` for an audience, an issuer and a time.
pub record Verifier : Type 1 where
  pub Jwks : Type 0
  pub decode : Text → Jwks → Text → Text → ℕ → Option JwtClaims

abbrev pub expected_audience : Text
expected_audience = codes "internal-api-gateway"

-- The requests that go on, with the claims if they were read; 403; and an exception of the download.
pub data Passage : Type 0 where
  exempt refused raised : Passage
  allowed : JwtClaims → Passage

module _ (V : Verifier) where
  pub record JwksCache : Type 0 where
    pub keys : Option V.Jwks
    pub fetched_at : ℕ

  abbrev is_stale : ℕ → JwksCache → Bool
  is_stale now cache = not (is_some cache.keys) || ltb 300 (now - cache.fetched_at)

  abbrev fetched : ℕ → JwksCache → Option V.Jwks → Option V.Jwks × JwksCache
  fetched now cache none = (none, cache)
  fetched now cache (some keys) = (some keys, record { keys = some keys; fetched_at = now })

  -- The answer of the download is an input, `none` where it raises.
  unfoldable pub get_jwks : ℕ → Option V.Jwks → JwksCache → Option V.Jwks × JwksCache
  get_jwks now answer cache =
      if is_stale now cache then fetched now cache answer else (cache.keys, cache)

  abbrev passage_of : Option JwtClaims → Passage
  passage_of none = refused
  passage_of (some claims) = allowed claims

  abbrev pub checked : Text → Text → ℕ → Option V.Jwks × JwksCache → Passage × JwksCache
  checked issuer token now (none, cache) = (raised, cache)
  checked issuer token now (some keys, cache) =
      (passage_of (V.decode token keys expected_audience issuer now), cache)

  -- `verify_jwt`
  unfoldable pub verify_jwt : Text → ℕ → Option V.Jwks → Text → JwksCache → Passage × JwksCache
  unfolding get_jwks
  verify_jwt issuer now answer token cache = checked issuer token now (get_jwks now answer cache)

  abbrev bearer_of : Option Text → Option Text
  bearer_of none = none
  bearer_of (some s) = behind (codes "Bearer ") s

  abbrev with_bearer : Text → ℕ → Option V.Jwks → Option Text → JwksCache → Passage × JwksCache
  with_bearer issuer now answer none cache = (refused, cache)
  with_bearer issuer now answer (some token) cache = verify_jwt issuer now answer token cache

  unfoldable pub jwt_auth_middleware :
      Text → ℕ → Option V.Jwks → Text → Option Text → JwksCache → Passage × JwksCache
  unfolding verify_jwt behind
  jwt_auth_middleware issuer now answer path authorization cache =
      let checked_bearer = with_bearer issuer now answer (bearer_of authorization) cache in
      if text_eq path (codes "/health") || text_eq path (codes "/internal/api/v1/health")
      then (exempt, cache)
      else checked_bearer

-- `get_vendor` and `get_order`: the first item with an id, or 404.
unfoldable pub get_item {ℓ} : {A : Type ℓ} → (A → Text) → Text → List A → Option A
get_item id_of id items = find (λ x. text_eq (id_of x) id) items
