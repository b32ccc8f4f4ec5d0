-- ===== src/TokenExchange/Service.antt =====
-- `token_exchange` of services/token-exchange-service/main.py. Metrics and logs are left out.
pub mod Revocable
pub mod Guarded
use api_portal.Prelude.{Bool, List, Option, Text, false, if◌then◌else◌, none, some, true, ℕ}
use api_portal.Redis.{Redis}
use api_portal.TokenExchange.CircuitBreaker.{is_circuit_open, record_success, record_failure}
use api_portal.TokenExchange.Shared.{Shared, breaker_of}
use api_portal.TokenExchange.CallerAuth.{
  Addresses, Caller, CallerReply, passed, refused, raised, check_caller,
}
use api_portal.TokenExchange.Keycloak.{Keycloak, Session, present, extract_jti}
use api_portal.TokenExchange.Cache.{
  TxsSettings, JwtReply, jwt, timeout, failed, State, Served, cache_key, scope_hash,
  get_or_exchange_jwt, refresh_jwt,
}

pub record ExchangeRequest : Type 0 where
  pub token_id : Text
  pub user_sub : Text
  pub scopes : List Text

pub record ExchangeResponse : Type 0 where
  pub access_token : Text
  pub expires_in : ℕ
  pub jti : Text
  pub cached : Bool

-- CDP-1005 with 403, CDP-2001 with 503, and the 500 of an exception that is not caught.
pub data ExchangeReply : Type 0 where
  granted : ExchangeResponse → ExchangeReply
  denied unavailable crashed : ExchangeReply

module _ (R : Redis) (X : Shared R) (K : Keycloak) (I : Addresses) (S : TxsSettings)
    (sha256_hex : Text → Text) (others : R.Store → R.Store) where
  abbrev pub response : Text → Bool → ExchangeReply
  response token cached = granted (record {
    access_token = token;
    expires_in = if cached then S.jwt_cache_ttl else S.jwt_ttl;
    jti = extract_jti K token;
    cached = cached;
  })

  abbrev pub from_cache : Option Text → ExchangeReply
  from_cache none = unavailable
  from_cache (some token) = response token true

  -- The reply, the state behind it, and whether the background refresh was started.
  abbrev pub Answer : Type 0
  Answer = ExchangeReply × R.Store × Session K × Bool

  abbrev pub answered : Served R X K S sha256_hex others → Answer
  answered (jwt token cached, s, session, started) =
      (response token cached, record_success (breaker_of R X) S.breaker s, session, started)
  answered (timeout, s, session, started) =
      (unavailable, record_failure (breaker_of R X) S.breaker s, session, started)
  answered (failed, s, session, started) =
      (unavailable, record_failure (breaker_of R X) S.breaker s, session, started)

  -- The `TypeError` of `check_caller` is not caught.
  abbrev pub by_caller : CallerReply → R.Store → Session K → Answer → Answer
  by_caller passed s session rest = rest
  by_caller refused s session rest = (denied, s, session, false)
  by_caller raised s session rest = (crashed, s, session, false)

  unfoldable pub token_exchange :
      ℕ × ℕ → ExchangeRequest → Caller → State R X K S sha256_hex others → Answer
  unfolding check_caller is_circuit_open scope_hash get_or_exchange_jwt record_success
      record_failure extract_jti
  token_exchange random req caller (s, session) =
      let ckey = cache_key req.token_id (scope_hash sha256_hex req.scopes) in
      let served = answered (
        get_or_exchange_jwt R X K S sha256_hex others random req.token_id req.user_sub req.scopes
          (s, session)) in
      by_caller (check_caller I S.caller caller) s session (
        if is_circuit_open (breaker_of R X) S.breaker s
        then (from_cache (present (X.get s ckey)), s, session, false)
        else served)

  -- The task of a request, once the request is answered.
  abbrev pub run_task :
      ExchangeRequest → Bool → State R X K S sha256_hex others → State R X K S sha256_hex others
  run_task req false st = st
  run_task req true (s, session) =
      refresh_jwt R X K S sha256_hex others req.token_id req.user_sub req.scopes (others s, session)

  -- A request together with the task that it starts.
  unfoldable pub exchange_and_refresh :
      ℕ × ℕ
      → ExchangeRequest
      → Caller
      → State R X K S sha256_hex others
      → ExchangeReply × State R X K S sha256_hex others
  unfolding token_exchange refresh_jwt
  exchange_and_refresh random req caller st =
      let r = token_exchange random req caller st in (r.0, run_task req r.3 (r.1, r.2))
