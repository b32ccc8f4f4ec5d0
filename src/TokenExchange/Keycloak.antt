-- ===== src/TokenExchange/Keycloak.antt =====
-- services/token-exchange-service/keycloak_client.py. The server behind the two requests is a
-- parameter, as are the clock and the claims that a token carries. Times are seconds.
use api_portal.Prelude.{
  List, Option, Text, [], codes, if◌then◌else◌, is_empty, ltb, none, some, ℕ, ◌++◌, ◌+◌, ◌-◌, ◌∷◌,
}
use api_portal.Internal.UserEvent.{lower}

-- `access_token` and `expires_in` of an answer.
pub record Grant : Type 0 where
  pub access_token : Text
  pub expires_in : Option ℕ

-- Either request answers with a grant or raises: a failed connection, a timeout, an error status.
-- The form fields that are constants or settings are not written out.
pub record Keycloak : Type 1 where
  pub Server : Type 0
  pub time : Server → ℕ
  pub client_credentials : Server → Option Grant × Server
  pub token_exchange : Text → Text → Text → Server → Option Grant × Server
  -- `get_unverified_claims(token).get("jti")`, `none` where it raises or has none.
  pub jti : Text → Option Text

-- `_svc_token_cache`
pub record SvcToken : Type 0 where
  pub token : Option Text
  pub expires_at : ℕ

-- `if s`: what there is and is not empty.
abbrev pub present : Option Text → Option Text
present none = none
present (some s) = if is_empty s then none else some s

abbrev or_seconds : Option ℕ → ℕ → ℕ
or_seconds none n = n
or_seconds (some k) n = k

-- What `exchange_token` returns.
pub record Exchanged : Type 0 where
  pub access_token : Text
  pub expires_in : ℕ
  pub jti : Text

-- `" ".join(xs)`
unfoldable pub join_words : List Text → Text
join_words [] = []
join_words (x ∷ []) = x
join_words (x ∷ y ∷ xs) = x ++ b' ' ∷ join_words (y ∷ xs)

module _ (K : Keycloak) where
  open K use {Server, time, client_credentials}

  -- `_extract_jti`
  abbrev or_unknown : Option Text → Text
  or_unknown none = codes "unknown"
  or_unknown (some s) = s

  unfoldable pub extract_jti : Text → Text
  extract_jti token = or_unknown (K.jti token)

  abbrev pub usable : SvcToken → ℕ → Option Text
  usable c now = if ltb now c.expires_at then present c.token else none

  abbrev pub Session : Type 0
  Session = SvcToken × Server

  abbrev renewed : ℕ → SvcToken → Option Grant × Server → Option Text × Session
  renewed now c (none, k) = (none, (c, k))
  renewed now c (some g, k) =
      let expires_at = now + or_seconds g.expires_in 300 - 50 in
      (some g.access_token, (record { token = some g.access_token; expires_at = expires_at }, k))

  abbrev pub token_or : Option Text → Session → Option Text × Session → Option Text × Session
  token_or none old new = new
  token_or (some t) old new = (some t, old)

  unfoldable pub get_exchanger_token : Session → Option Text × Session
  get_exchanger_token (c, k) =
      let now = time k in token_or (usable c now) (c, k) (renewed now c (client_credentials k))

  abbrev pub exchanged : ℕ → SvcToken → Option Grant × Server → Option Exchanged × Session
  exchanged jwt_ttl c (none, k) = (none, (c, k))
  exchanged jwt_ttl c (some g, k) =
      let token = g.access_token in
      (
        some (record {
          access_token = token;
          expires_in = or_seconds g.expires_in jwt_ttl;
          jti = or_unknown (K.jti token);
        }),
        (c, k),
      )

  abbrev with_token : ℕ → Text → List Text → Option Text × Session → Option Exchanged × Session
  with_token jwt_ttl user_sub scopes (none, session) = (none, session)
  with_token jwt_ttl user_sub scopes (some token, (c, k)) =
      exchanged jwt_ttl c (K.token_exchange token (lower user_sub) (join_words scopes) k)

  unfoldable pub exchange_token : ℕ → Text → List Text → Session → Option Exchanged × Session
  unfolding get_exchanger_token lower join_words
  exchange_token jwt_ttl user_sub scopes session =
      with_token jwt_ttl user_sub scopes (get_exchanger_token session)
