-- ===== src/TokenExchange/Cache.antt =====
-- services/token-exchange-service/cache.py. What other requests and processes do to the store while
-- a request waits, for Keycloak or in a sleep, is a parameter; the cached token of the service changes
-- by the calls of the request only. `random()` is a fraction.
pub mod Index
pub mod Outcome
use api_portal.Prelude.{
  Bool, List, Option, Text, [], codes, false, if◌then◌else◌, ltb, none, some, suc, take, text_eq,
  text_lt, true, zero, ℕ, ◌&&◌, ◌*◌, ◌++◌, ◌-◌, ◌∷◌,
}
use api_portal.Redis.{Redis}
use api_portal.Redis.Client.{idx_key}
use api_portal.TokenExchange.CircuitBreaker.{BreakerSettings}
use api_portal.TokenExchange.Shared.{Shared}
use api_portal.TokenExchange.CallerAuth.{CallerSettings}
use api_portal.TokenExchange.Keycloak.{
  Keycloak, Exchanged, Session, present, join_words, exchange_token,
}

pub record TxsSettings : Type 0 where
  pub jwt_cache_ttl : ℕ
  pub jwt_ttl : ℕ
  pub node_id : Text
  pub breaker : BreakerSettings
  pub caller : CallerSettings

-- `sorted(scopes)`
unfoldable pub insert_text : Text → List Text → List Text
insert_text t [] = t ∷ []
insert_text t (u ∷ us) = let rest = insert_text t us in if text_lt u t then u ∷ rest else t ∷ u ∷ us

unfoldable pub sort_texts : List Text → List Text
unfolding insert_text
sort_texts [] = []
sort_texts (t ∷ ts) = insert_text t (sort_texts ts)

-- `_scope_hash`, `_cache_key` and `_lock_key`.
unfoldable pub scope_hash : (Text → Text) → List Text → Text
unfolding sort_texts join_words
scope_hash sha256_hex scopes = take 16 (sha256_hex (join_words (sort_texts scopes)))

abbrev pub cache_key : Text → Text → Text
cache_key token_id sh = codes "cdp:jwt:" ++ (token_id ++ b':' ∷ sh)

abbrev pub lock_key : Text → Text → Text
lock_key token_id sh = codes "cdp:lock:jwt:" ++ (token_id ++ b':' ∷ sh)

-- The token and whether it was cached, or `TimeoutError`, or another exception.
pub data JwtReply : Type 0 where
  jwt : Text → Bool → JwtReply
  timeout failed : JwtReply

-- `ttl < 0.2 * c` and `random() < (0.2 * c - ttl) / (0.2 * c)`, without rounding.
abbrev pub early : ℕ → ℕ × ℕ → Option ℕ → Bool
early c (num, den) none = false
early c (num, den) (some ttl) = ltb 0 ttl && ltb (5 * ttl) c && ltb (num * c) (den * (c - 5 * ttl))

module _ (R : Redis) (X : Shared R) (K : Keycloak) (S : TxsSettings) (sha256_hex : Text → Text)
    (others : R.Store → R.Store) where
  open R use {Store}

  -- SETEX, SADD and EXPIRE behind an exchange.
  unfoldable pub store_jwt : Text → Text → Text → Store → Store
  store_jwt token_id sh token s = R.expire (idx_key token_id) S.jwt_ttl (
      X.sadd (idx_key token_id) (cache_key token_id sh)
        (X.setex (cache_key token_id sh) S.jwt_cache_ttl token s))

  abbrev is_mine : Option Text → Bool
  is_mine none = false
  is_mine (some holder) = text_eq holder S.node_id

  -- UNLOCK_SCRIPT
  unfoldable pub unlock : Text → Store → Store
  unlock lkey s = if is_mine (X.get s lkey) then R.delete lkey s else s

  -- What follows the exchange, the `finally` included.
  unfoldable pub finish : Text → Text → Option Exchanged → Store → JwtReply × Store
  unfolding store_jwt unlock
  finish token_id sh none s = (failed, unlock (lock_key token_id sh) s)
  finish token_id sh (some result) s = (
    jwt result.access_token false,
    unlock (lock_key token_id sh) (store_jwt token_id sh result.access_token s),
  )

  abbrev pub found : Option Text → Store → JwtReply × Store → JwtReply × Store
  found none s rest = rest
  found (some token) s rest = (jwt token true, s)

  -- The rounds that are left to wait for the holder of the lock.
  unfoldable pub poll : ℕ → Text → Store → JwtReply × Store
  poll zero ckey s = (timeout, s)
  poll (suc n) ckey s =
      let s' = others s in let rest = poll n ckey s' in found (present (X.get s' ckey)) s' rest

  abbrev pub State : Type 0
  State = Store × Session K

  -- The holder of the lock.
  unfoldable pub lead : Text → Text → List Text → State → JwtReply × State
  unfolding finish exchange_token
  lead token_id user_sub scopes (s, session) =
      let sh = scope_hash sha256_hex scopes in
      let (result, session') = exchange_token K S.jwt_ttl user_sub scopes session in
      let (reply, s') = finish token_id sh result (others s) in (reply, (s', session'))

  abbrev follow : Text → State → JwtReply × State
  follow ckey (s, session) = let (reply, s') = poll 6 ckey s in (reply, (s', session))

  abbrev pub led : Bool × Store → Text → Text → List Text → Session K → JwtReply × State
  led (true, s) token_id user_sub scopes session = lead token_id user_sub scopes (s, session)
  led (false, s) token_id user_sub scopes session =
      follow (cache_key token_id (scope_hash sha256_hex scopes)) (s, session)

  -- The reply, the state behind it, and whether `create_task` started the background refresh.
  abbrev pub Served : Type 0
  Served = JwtReply × Store × Session K × Bool

  abbrev pub without_task : JwtReply × State → Served
  without_task p = (p.0, p.1.0, p.1.1, false)

  abbrev pub hit : Option Text → Bool → State → Served → Served
  hit none near_expiry st missed = missed
  hit (some token) near_expiry (s, session) missed = (jwt token true, s, session, near_expiry)

  -- The task that a hit starts is `refresh_jwt`; it runs when the request is done or waits.
  unfoldable pub get_or_exchange_jwt : ℕ × ℕ → Text → Text → List Text → State → Served
  unfolding scope_hash lead poll
  get_or_exchange_jwt random token_id user_sub scopes (s, session) =
      let sh = scope_hash sha256_hex scopes in
      let ckey = cache_key token_id sh in
      let locked = X.set_nx_px (lock_key token_id sh) S.node_id 5000 s in
      hit (present (X.get s ckey)) (early S.jwt_cache_ttl random (X.ttl s ckey)) (s, session)
        (without_task (led locked token_id user_sub scopes session))

  abbrev refreshed : Bool × Store → Text → Text → List Text → Session K → State
  refreshed (true, s) token_id user_sub scopes session =
      (lead token_id user_sub scopes (s, session)).1
  refreshed (false, s) token_id user_sub scopes session = (s, session)

  -- `_refresh_jwt`; every exception ends it.
  unfoldable pub refresh_jwt : Text → Text → List Text → State → State
  unfolding scope_hash lead
  refresh_jwt token_id user_sub scopes (s, session) =
      let lkey = lock_key token_id (scope_hash sha256_hex scopes) in
      refreshed (X.set_nx_px lkey S.node_id 5000 s) token_id user_sub scopes session
