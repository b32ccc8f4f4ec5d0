-- ===== src/Mocks/Keycloak.antt =====
-- services/mock-keycloak/main.py: `_base_claims`, `_verify_basic_auth`, `token_endpoint` and
-- `get_user`. Base64 and the signature of a JWT are parameters; the registry of users, the time, and
-- a new identifier are inputs.
use api_portal.Prelude.{
  Bool, List, Option, Text, [], codes, contains, false, if◌then◌else◌, is_empty, is_space, keep,
  lookup, none, not, set_update, some, split, starts_with, text_eq, ℕ, ◌&&◌, ◌++◌, ◌+◌, ◌||◌, ◌∷◌,
}
use api_portal.Apisix.Admin.{behind}
use api_portal.TokenExchange.Keycloak.{join_words}

pub record MockUser : Type 0 where
  pub username : Text
  pub enabled : Bool
  pub roles : List Text
  pub hr_claims : List (Text × Text)

pub record MockSettings : Type 0 where
  pub issuer : Text
  pub client_id : Text
  pub client_secret : Text
  pub token_ttl : ℕ

pub record JwtClaims : Type 0 where
  pub iss : Text
  pub sub : Text
  pub aud : List Text
  pub azp : Text
  pub exp : ℕ
  pub iat : ℕ
  pub jti : Text
  pub scope : Text
  pub roles : List Text
  pub cdp_channel : Text
  pub extra : List (Text × Text)

unfoldable pub base_claims :
    MockSettings → ℕ → Text → Text → List Text → List Text → List (Text × Text) → JwtClaims
unfolding join_words
base_claims S now jti sub roles scopes extra = record {
  iss = S.issuer;
  sub = sub;
  aud = codes "internal-api-gateway" ∷ [];
  azp = S.client_id;
  exp = now + S.token_ttl;
  iat = now;
  jti = jti;
  scope = join_words scopes;
  roles = roles;
  cdp_channel = codes "citizen";
  extra = extra;
}

pub record TokenForm : Type 0 where
  pub grant_type : Text
  pub client_id : Option Text
  pub client_secret : Option Text
  pub scope : Option Text
  pub requested_subject : Option Text

-- The token and its lifetime, an error of OAuth with its status, or `HTTPException`.
pub data TokenReply : Type 0 where
  token : Text → ℕ → TokenReply
  invalid_client invalid_request unsupported_grant_type bad_basic_auth : TokenReply

abbrev pub client_credentials_grant : Text
client_credentials_grant = codes "client_credentials"

abbrev pub token_exchange_grant : Text
token_exchange_grant = codes "urn:ietf:params:oauth:grant-type:token-exchange"

-- `client_id, client_secret = decoded.split(":", 1)`
abbrev two_parts : List Text → Option (Text × Text)
two_parts (p ∷ q ∷ []) = some (p, q)
two_parts _ = none

abbrev pub pair_of : Option Text → Option (Text × Text)
pair_of none = none
pair_of (some decoded) = two_parts (split b':' 1 decoded)

-- The part behind `Basic `, if there is one.
abbrev pub basic_of : Option Text → Option Text
basic_of none = none
basic_of (some a) = behind (codes "Basic ") a

abbrev pub is_text : Option Text → Text → Bool
is_text none t = false
is_text (some s) t = text_eq s t

-- `scope.split()`
abbrev add_char : ℕ → List Text → List Text
add_char c [] = (c ∷ []) ∷ []
add_char c (w ∷ ws) = (c ∷ w) ∷ ws

unfoldable pub blank_parts : Text → List Text
blank_parts [] = [] ∷ []
blank_parts (c ∷ s) = let rest = blank_parts s in if is_space c then [] ∷ rest else add_char c rest

abbrev pub scopes_of : Option Text → List Text
scopes_of none = []
scopes_of (some s) = keep (λ w. not (is_empty w)) (blank_parts s)

-- `capi.{role.split('-')[1]}.read`, for a role with a dash.
abbrev second_part : List Text → List Text
second_part (p ∷ q ∷ ps) = (codes "capi." ++ (q ++ codes ".read")) ∷ []
second_part _ = []

unfoldable pub user_scopes : List Text → List Text
user_scopes [] = codes "openid" ∷ codes "profile" ∷ []
user_scopes (role ∷ roles) = second_part (split b'-' 2 role) ++ user_scopes roles

-- The downscoping; a `set` has no order, and is taken in ascending order.
unfoldable pub final_scopes : List Text → List Text → List Text
unfolding user_scopes
final_scopes requested roles =
    let allowed = user_scopes roles in
    if is_empty requested
    then set_update allowed []
    else keep (λ s. contains allowed s || starts_with s (codes "capi.")) requested

unfoldable pub find_user : Text → List (Text × MockUser) → Option MockUser
find_user sub users = lookup sub users

module _ (S : MockSettings) (users : List (Text × MockUser)) (b64decode : Text → Option Text)
    (sign : JwtClaims → Text) where
  -- `_verify_basic_auth`
  abbrev is_client : Text → Text → Option (Text × Text) → Bool
  is_client client secret none = false
  is_client client secret (some (c, s)) = text_eq c client && text_eq s secret

  abbrev decoded_of : Option Text → Option Text
  decoded_of none = none
  decoded_of (some encoded) = b64decode encoded

  unfoldable pub verify_basic_auth : Option Text → Text → Text → Bool
  verify_basic_auth authorization client secret =
      is_client client secret (pair_of (decoded_of (basic_of authorization)))

  -- The claims of an exchange.
  unfoldable pub exchange_claims : ℕ → Text → Text → MockUser → List Text → JwtClaims
  unfolding base_claims final_scopes
  exchange_claims now jti sub user requested =
      base_claims S now jti sub user.roles (final_scopes requested user.roles)
        ((codes "preferred_username", user.username) ∷ user.hr_claims)

  abbrev pub issued : JwtClaims → TokenReply
  issued claims = token (sign claims) S.token_ttl

  abbrev pub exchange_for : ℕ → Text → Text → List Text → Option MockUser → TokenReply
  exchange_for now jti sub requested none = invalid_request
  exchange_for now jti sub requested (some user) =
      if user.enabled then issued (exchange_claims now jti sub user requested) else invalid_request

  abbrev pub exchange : ℕ → Text → List Text → Option Text → TokenReply
  exchange now jti requested none = invalid_request
  exchange now jti requested (some sub) =
      if is_empty sub
      then invalid_request
      else exchange_for now jti sub requested (find_user sub users)

  -- What follows the credentials of the client.
  unfoldable pub granted_token : ℕ → Text → TokenForm → Option Text → Option Text → TokenReply
  unfolding exchange_claims find_user blank_parts base_claims
  granted_token now jti form client_id client_secret =
      let requested = scopes_of form.scope in
      if not (is_text client_id S.client_id) || not (is_text client_secret S.client_secret)
      then invalid_client
      else if text_eq form.grant_type client_credentials_grant
      then issued (
          base_claims S now jti (codes "service-account-" ++ S.client_id)
            (codes "service-account" ∷ [])
            (if is_empty requested then codes "openid" ∷ [] else requested) [])
      else if text_eq form.grant_type token_exchange_grant
      then exchange now jti requested form.requested_subject
      else unsupported_grant_type

  abbrev pub with_basic : ℕ → Text → TokenForm → Option (Text × Text) → TokenReply
  with_basic now jti form none = bad_basic_auth
  with_basic now jti form (some (client_id, secret)) =
      granted_token now jti form (some client_id) (some secret)

  abbrev pub by_basic : ℕ → Text → TokenForm → Option Text → TokenReply
  by_basic now jti form none = granted_token now jti form form.client_id form.client_secret
  by_basic now jti form (some encoded) = with_basic now jti form (pair_of (b64decode encoded))

  unfoldable pub token_endpoint : ℕ → Text → Option Text → TokenForm → TokenReply
  unfolding granted_token behind
  token_endpoint now jti authorization form = by_basic now jti form (basic_of authorization)
