-- ===== src/TokenExchange/Service/Guarded.antt =====
-- When `token_exchange` of services/token-exchange-service/main.py calls Keycloak.
use api_portal.Prelude.{
  Bool, Bool-cases, List, Option, Option-cases, Text, ap, arith, false, inl, inr, is_some, ltb,
  none, not, refl, some, true, ℕ, ◌&&◌, ◌*◌, ◌-◌, ◌||◌, ◌∙◌, ◌≡◌, ◌⊎◌,
}
use api_portal.Redis.{Redis}
use api_portal.TokenExchange.CircuitBreaker.{is_circuit_open}
use api_portal.TokenExchange.Shared.{Shared, breaker_of}
use api_portal.TokenExchange.CallerAuth.{
  Addresses, Caller, CallerReply, passed, refused, raised, check_caller,
}
use api_portal.TokenExchange.Keycloak.{Keycloak, Session, present}
use api_portal.TokenExchange.Cache.{
  TxsSettings, jwt, timeout, failed, Served, early, cache_key, lock_key, scope_hash,
  get_or_exchange_jwt,
}
use api_portal.TokenExchange.Service.{
  ExchangeRequest, Answer, answered, token_exchange, run_task, exchange_and_refresh,
}

module _ (R : Redis) (X : Shared R) (K : Keycloak) (I : Addresses) (S : TxsSettings)
    (sha256_hex : Text → Text) (others : R.Store → R.Store) where
  abbrev passes : CallerReply → Bool
  passes passed = true
  passes refused = false
  passes raised = false

  -- The caller passes, the circuit is closed, the cache has no JWT and nobody has the lock.
  abbrev pub goes_out : ExchangeRequest → Caller → R.Store → Bool
  goes_out req caller s =
      let sh = scope_hash sha256_hex req.scopes in
      passes (check_caller I S.caller caller)
      && not (is_circuit_open (breaker_of R X) S.breaker s)
      && not (is_some (present (X.get s (cache_key req.token_id sh))))
      && not (is_some (X.get s (lock_key req.token_id sh)))

  -- A time to live under a fifth of that of the cache, of `c`, and a random fraction under the share
  -- of that fifth that is over.
  abbrev pub near_expiry : ℕ × ℕ → ℕ → Option ℕ → Bool
  near_expiry random c none = false
  near_expiry random c (some ttl) =
      (ltb 0 ttl && ltb (5 * ttl) c) && ltb (random.0 * c) (random.1 * (c - 5 * ttl))

  -- The caller passes, the circuit is closed, and the cache has a JWT that is near its expiry.
  abbrev pub refreshes : ℕ × ℕ → ExchangeRequest → Caller → R.Store → Bool
  refreshes random req caller s =
      let ckey = cache_key req.token_id (scope_hash sha256_hex req.scopes) in
      passes (check_caller I S.caller caller)
      && not (is_circuit_open (breaker_of R X) S.breaker s)
      && is_some (present (X.get s ckey))
      && near_expiry random S.jwt_cache_ttl (X.ttl s ckey)

  early_lem : (random : ℕ × ℕ) (c : ℕ) (t : Option ℕ) → early c random t ≡ near_expiry random c t
  early_lem (n, d) c none = refl
  early_lem (n, d) c (some ttl) = ground arith

  answered-session :
      (p : Served R X K S sha256_hex others) → (answered R X K I S sha256_hex others p).2 ≡ p.2
  answered-session (jwt token cached, s, session, started) = refl
  answered-session (timeout, s, session, started) = refl
  answered-session (failed, s, session, started) = refl

  answered-task :
      (p : Served R X K S sha256_hex others) → (answered R X K I S sha256_hex others p).3 ≡ p.3
  answered-task (jwt token cached, s, session, started) = refl
  answered-task (timeout, s, session, started) = refl
  answered-task (failed, s, session, started) = refl

  get_or_exchange-session :
      (random : ℕ × ℕ) (t user_sub : Text) (scopes : List Text) (s : R.Store) (session : Session K)
      → (is_some (present (X.get s (cache_key t (scope_hash sha256_hex scopes))))
          || is_some (X.get s (lock_key t (scope_hash sha256_hex scopes))))
        ≡ true
      → (get_or_exchange_jwt R X K S sha256_hex others random t user_sub scopes (s, session)).2
        ≡ session
  unfolding get_or_exchange_jwt
  get_or_exchange-session random t user_sub scopes s session h =
      let sh = scope_hash sha256_hex scopes in
      let lkey = lock_key t sh in
      elim (Option-cases (present (X.get s (cache_key t sh)))) [
        | inr (token, e) ↦ rw e refl
        | inl e ↦
            let taken : is_some (X.get s lkey) ≡ true = rw e at h in
            let busy : (X.set_nx_px lkey S.node_id 5000 s).0 ≡ false =
              X.set_nx_px-free lkey S.node_id 5000 s ∙ ap not taken in
            rw e (rw busy refl)
      ]

  get_or_exchange-task :
      (random : ℕ × ℕ) (t user_sub : Text) (scopes : List Text) (s : R.Store) (session : Session K)
      → let ckey = cache_key t (scope_hash sha256_hex scopes) in
        (get_or_exchange_jwt R X K S sha256_hex others random t user_sub scopes (s, session)).3
        ≡ (is_some (present (X.get s ckey)) && near_expiry random S.jwt_cache_ttl (X.ttl s ckey))
  unfolding get_or_exchange_jwt
  get_or_exchange-task random t user_sub scopes s session =
      let ckey = cache_key t (scope_hash sha256_hex scopes) in
      elim (Option-cases (present (X.get s ckey))) [
        | inr (token, e) ↦ rw e (early_lem random S.jwt_cache_ttl (X.ttl s ckey))
        | inl e ↦ rw e refl
      ]

  reply_cases : (c : CallerReply) → (c ≡ passed) ⊎ ((c ≡ refused) ⊎ (c ≡ raised))
  reply_cases passed = inl refl
  reply_cases refused = inr (inl refl)
  reply_cases raised = inr (inr refl)

  -- The service token as it was, and the task as it must be.
  abbrev Kept : Session K → Bool → Answer R X K I S sha256_hex others → Type 0
  Kept session near answer = (answer.2 ≡ session) × (answer.3 ≡ near)

  answer-Kept :
      (random : ℕ × ℕ) (req : ExchangeRequest) (caller : Caller) (s : R.Store) (session : Session K)
      → goes_out req caller s ≡ false
      → Kept session
          (refreshes random req caller s)
          (token_exchange R X K I S sha256_hex others random req caller (s, session))
  unfolding token_exchange
  answer-Kept random req caller s session h =
      let served =
        get_or_exchange_jwt R X K S sha256_hex others random req.token_id req.user_sub req.scopes
          (s, session) in
      elim (reply_cases (check_caller I S.caller caller)) [
        | inl a ↦ rw a (elim (Bool-cases (is_circuit_open (breaker_of R X) S.breaker s)) [
          | inl b ↦ rw b (refl, refl)
          | inr b ↦ rw b (
            answered-session served
                ∙ get_or_exchange-session random req.token_id req.user_sub req.scopes s session
                    (ground (arith, h, a, b)),
            answered-task served
                ∙ get_or_exchange-task random req.token_id req.user_sub req.scopes s session,
          )
        ])
        | inr (inl a) ↦ rw a (refl, refl)
        | inr (inr a) ↦ rw a (refl, refl)
      ]

  run_task-session :
      (req : ExchangeRequest) (started : Bool) (s : R.Store) (session : Session K)
      → started ≡ false
      → (run_task R X K I S sha256_hex others req started (s, session)).1 ≡ session
  run_task-session req false s session h = refl
  run_task-session req true s session h = absurd (cc h)

  -- Where the caller does not pass, the circuit is open, a JWT is in the cache, or another request
  -- has the lock, the request calls Keycloak not at all and keeps the token for the calls to it. It
  -- then starts the background refresh exactly where the caller passes, the circuit is closed and
  -- the JWT in the cache is near its expiry; where it starts none, nothing that follows from the
  -- request calls Keycloak.
  pub token_exchange-guarded :
      (random : ℕ × ℕ) (req : ExchangeRequest) (caller : Caller) (s : R.Store) (session : Session K)
      → goes_out req caller s ≡ false
      → ((token_exchange R X K I S sha256_hex others random req caller (s, session)).2 ≡ session)
        × ((token_exchange R X K I S sha256_hex others random req caller (s, session)).3
            ≡ refreshes random req caller s)
        × ((refreshes random req caller s ≡ true)
            ⊎ ((exchange_and_refresh R X K I S sha256_hex others random req caller (s, session)).1.1
                ≡ session))
  unfolding exchange_and_refresh
  token_exchange-guarded random req caller s session h =
      let (kept, started) = answer-Kept random req caller s session h in
      (
        kept,
        started,
        elim (Bool-cases (refreshes random req caller s)) [
          | inl e ↦ inl e
          | inr e ↦ inr (run_task-session req _ _ _ (started ∙ e) ∙ kept)
        ],
      )
