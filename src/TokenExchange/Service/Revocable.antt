-- ===== src/TokenExchange/Service/Revocable.antt =====
-- What a revocation by the portal finds behind services/token-exchange-service.
use api_portal.Prelude.{
  Bool, Bool-cases, List, Option, Option-cases, Text, [], ap, arith, codes, contains, false, has,
  if_both, inl, inr, is_some, none, not, refl, some, text_eq, true, ℕ, ◌-◌, ◌<◌, ◌||◌, ◌∙◌, ◌∷◌,
  ◌≡◌,
}
use api_portal.Redis.{Redis}
use api_portal.Redis.Client.{pat_key, neg_key, idx_key, delete_all, invalidate_pat}
use api_portal.TokenExchange.CircuitBreaker.{
  cb_key, cb_window_key, evaluate_window, pushed, record_success, record_failure, is_circuit_open,
}
use api_portal.TokenExchange.Shared.{Shared, breaker_of}
use api_portal.TokenExchange.CallerAuth.{
  Addresses, Caller, CallerReply, passed, refused, raised, check_caller,
}
use api_portal.TokenExchange.Keycloak.{Keycloak, Session, present, exchange_token}
use api_portal.TokenExchange.Cache.{
  TxsSettings, jwt, timeout, failed, State, Served, cache_key, lock_key, scope_hash,
  get_or_exchange_jwt, lead, led,
}
use api_portal.TokenExchange.Cache.Index.{
  is_indexed, Keeps, Keeps-is_indexed, delete-Keeps, set_nx_px-Keeps, finish-is_indexed,
  poll-is_indexed,
}
use api_portal.TokenExchange.Service.{
  ExchangeRequest, Answer, denied, crashed, answered, by_caller, token_exchange,
}

module _ (R : Redis) (X : Shared R) where
  open R use {Store, smembers}

  get-delete_kept : (key k : Text) (s : Store) → X.get s k ≡ none → X.get (R.delete key s) k ≡ none
  get-delete_kept key k s h =
      X.get-delete key k s
      ∙ if_both (λ (o : Option Text). o ≡ none) (text_eq key k) none (X.get s k) refl h

  get-delete_all_kept :
      (ks : List Text) (k : Text) (s : Store)
      → X.get s k ≡ none
      → X.get (delete_all R ks s) k ≡ none
  unfolding delete_all
  get-delete_all_kept [] k s h = h
  get-delete_all_kept (j ∷ ks) k s h =
      get-delete_all_kept ks k (R.delete j s) (get-delete_kept j k s h)

  get-delete_all :
      (ks : List Text) (k : Text) (s : Store)
      → contains ks k ≡ true
      → X.get (delete_all R ks s) k ≡ none
  unfolding delete_all contains
  get-delete_all [] k s h = absurd (cc h)
  get-delete_all (j ∷ ks) k s h = elim (Bool-cases (text_eq j k)) [
    | inl e ↦ get-delete_all_kept ks k (R.delete j s) (X.get-delete j k s ∙ rw e refl)
    | inr e ↦ get-delete_all ks k (R.delete j s) (rw e at h)
  ]

  -- A deletion of the index behind that of its members leaves no entry.
  invalidate_pat-forgets :
      (t sh : Text) (s : Store)
      → is_indexed R X t sh s ≡ true
      → X.get (invalidate_pat R t s) (cache_key t sh) ≡ none
  unfolding invalidate_pat text_eq
  invalidate_pat-forgets t sh s h =
      let k = cache_key t sh in
      let s1 = R.delete (neg_key t) (R.delete (pat_key t) s) in
      let kept : X.get s1 k ≡ X.get s k =
        X.get-delete (neg_key t) k _ ∙ X.get-delete (pat_key t) k s in
      X.get-delete (idx_key t) k _ ∙ elim (Bool-cases (contains (smembers s (idx_key t)) k)) [
        | inl e ↦ get-delete_all (smembers s (idx_key t)) k s1 e
        | inr e ↦
            get-delete_all_kept (smembers s (idx_key t)) k s1
              (kept ∙ no_value (X.get s k) (rw e at h))
      ]
    where
      no_value : (o : Option Text) → (not (is_some o) || false) ≡ true → o ≡ none
      no_value none h = refl
      no_value (some v) h = absurd (cc h)

  Keeps-trans :
      (t sh : Text) (s u v : Store) → Keeps R X t sh s u → Keeps R X t sh u v → Keeps R X t sh s v
  Keeps-trans t sh s u v a b = record {
    value = elim b.value [
      | inl e ↦ inl e
      | inr e ↦ elim a.value [ inl f ↦ inl (ap is_some e ∙ f) | inr f ↦ inr (e ∙ f) ]
    ];
    index = b.index ∙ a.index;
  }

  module _ (K : Keycloak) (I : Addresses) (S : TxsSettings) (sha256_hex : Text → Text)
      (others : Store → Store) where
    pushed-Keeps :
        (t sh result : Text) (s : Store)
        → Keeps R X t sh s (pushed (breaker_of R X) S.breaker result s)
    pushed-Keeps t sh result s = record {
      value = inr (
          X.get-expire cb_window_key (cache_key t sh) 300 _ (omega arith)
          ∙ X.get-ltrim cb_window_key (cache_key t sh) (S.breaker.cb_window_size - 1) _
          ∙ X.get-lpush cb_window_key result (cache_key t sh) s);
      index =
          X.smembers-expire cb_window_key (idx_key t) 300 _ (omega arith)
          ∙ X.smembers-ltrim cb_window_key (idx_key t) (S.breaker.cb_window_size - 1) _
          ∙ X.smembers-lpush cb_window_key result (idx_key t) s;
    }

    evaluate_window-is_indexed :
        (t sh : Text) (s : Store)
        → 0 < S.breaker.cb_open_duration
        → is_indexed R X t sh s ≡ true
        → is_indexed R X t sh (evaluate_window (breaker_of R X) S.breaker s) ≡ true
    unfolding evaluate_window text_eq
    evaluate_window-is_indexed t sh s h before =
        let P = λ (s' : Store). is_indexed R X t sh s' ≡ true in
        let open_now = X.setex cb_key S.breaker.cb_open_duration (codes "OPEN") s in
        if_both P _ s _ before (
          if_both P _ open_now (R.delete cb_key s)
            (Keeps-is_indexed R X t sh s open_now
              (record {
                value = inr (
                    X.get-setex cb_key (codes "OPEN") (cache_key t sh) S.breaker.cb_open_duration s
                      h);
                index =
                    X.smembers-setex cb_key (codes "OPEN") (idx_key t) S.breaker.cb_open_duration s
                      refl;
              })
              before)
            (Keeps-is_indexed R X t sh s (R.delete cb_key s)
              (delete-Keeps R X t sh cb_key s (refl, refl)) before))

    record-is_indexed :
        (t sh result : Text) (s : Store)
        → 0 < S.breaker.cb_open_duration
        → is_indexed R X t sh s ≡ true
        → is_indexed R X t sh (
            evaluate_window (breaker_of R X) S.breaker (pushed (breaker_of R X) S.breaker result s))
          ≡ true
    record-is_indexed t sh result s h before =
        evaluate_window-is_indexed t sh _ h
          (Keeps-is_indexed R X t sh s _ (pushed-Keeps t sh result s) before)

    abbrev Txs : Type 0
    Txs = State R X K S sha256_hex others

    led-is_indexed :
        (t sh t' user_sub : Text) (scopes : List Text) (locked : Bool × Store) (session : Session K)
        → 0 < S.jwt_cache_ttl
        → 0 < S.jwt_ttl
        → has b':' t ≡ false
        → has b':' t' ≡ false
        → ((s : Store) → is_indexed R X t sh s ≡ true → is_indexed R X t sh (others s) ≡ true)
        → is_indexed R X t sh locked.1 ≡ true
        → is_indexed R X t sh (led R X K S sha256_hex others locked t' user_sub scopes session).1.0
          ≡ true
    unfolding lead
    led-is_indexed t sh t' user_sub scopes (true, s) session h k a b f before =
        finish-is_indexed R X K S sha256_hex others t sh t' (scope_hash sha256_hex scopes)
          (exchange_token K S.jwt_ttl user_sub scopes session).0 (others s) h k a b (f s before)
    led-is_indexed t sh t' user_sub scopes (false, s) session h k a b f before =
        poll-is_indexed R X K S sha256_hex others t sh (cache_key t' (scope_hash sha256_hex scopes))
          6 s f before

    get_or_exchange-is_indexed :
        (random : ℕ × ℕ) (t sh t' user_sub : Text) (scopes : List Text) (s : Store)
        (session : Session K)
        → 0 < S.jwt_cache_ttl
        → 0 < S.jwt_ttl
        → has b':' t ≡ false
        → has b':' t' ≡ false
        → ((s : Store) → is_indexed R X t sh s ≡ true → is_indexed R X t sh (others s) ≡ true)
        → is_indexed R X t sh s ≡ true
        → is_indexed R X t sh
            (get_or_exchange_jwt R X K S sha256_hex others random t' user_sub scopes (s, session)).1
          ≡ true
    unfolding get_or_exchange_jwt
    get_or_exchange-is_indexed random t sh t' user_sub scopes s session h k a b f before =
        let sh' = scope_hash sha256_hex scopes in
        elim (Option-cases (present (X.get s (cache_key t' sh')))) [
          | inr (token, e) ↦ rw e before
          | inl e ↦ rw e (
              led-is_indexed t sh t' user_sub scopes
                (X.set_nx_px (lock_key t' sh') S.node_id 5000 s) session h k a b f
                (Keeps-is_indexed R X t sh s _ (set_nx_px-Keeps R X t sh t' sh' S.node_id 5000 s)
                  before))
        ]

    answered-is_indexed :
        (t sh : Text) (p : Served R X K S sha256_hex others)
        → 0 < S.breaker.cb_open_duration
        → is_indexed R X t sh p.1 ≡ true
        → is_indexed R X t sh (answered R X K I S sha256_hex others p).1 ≡ true
    unfolding record_success record_failure
    answered-is_indexed t sh (jwt token cached, s, session, started) h before =
        record-is_indexed t sh (codes "OK") s h before
    answered-is_indexed t sh (timeout, s, session, started) h before =
        record-is_indexed t sh (codes "FAIL") s h before
    answered-is_indexed t sh (failed, s, session, started) h before =
        record-is_indexed t sh (codes "FAIL") s h before

    by_caller-kept :
        (P : Answer R X K I S sha256_hex others → Type 0) (c : CallerReply) (s : Store)
        (session : Session K) (rest : Answer R X K I S sha256_hex others)
        → P (denied, s, session, false)
        → P (crashed, s, session, false)
        → P rest
        → P (by_caller R X K I S sha256_hex others c s session rest)
    by_caller-kept P passed s session rest a b h = h
    by_caller-kept P refused s session rest a b h = a
    by_caller-kept P raised s session rest a b h = b

    -- Where every cached JWT of a token is in its index, and what others do meanwhile keeps that,
    -- it is so after any exchange, for this token or another, and `invalidate_pat` of the portal
    -- then leaves no JWT of the token. Times to live are positive and identifiers have no colon.
    pub token_exchange-revocable :
        (random : ℕ × ℕ) (t sh : Text) (req : ExchangeRequest) (caller : Caller) (s : Store)
        (session : Session K)
        → 0 < S.jwt_cache_ttl
        → 0 < S.jwt_ttl
        → 0 < S.breaker.cb_open_duration
        → has b':' t ≡ false
        → has b':' req.token_id ≡ false
        → ((s : Store) → is_indexed R X t sh s ≡ true → is_indexed R X t sh (others s) ≡ true)
        → is_indexed R X t sh s ≡ true
        → (is_indexed R X t sh
              (token_exchange R X K I S sha256_hex others random req caller (s, session)).1
            ≡ true)
          × (X.get
                (invalidate_pat R t
                  (token_exchange R X K I S sha256_hex others random req caller (s, session)).1)
                (cache_key t sh)
              ≡ none)
    unfolding token_exchange
    token_exchange-revocable random t sh req caller s session h k d a b f before =
        let P = λ (p : Answer R X K I S sha256_hex others). is_indexed R X t sh p.1 ≡ true in
        let served =
          get_or_exchange_jwt R X K S sha256_hex others random req.token_id req.user_sub req.scopes
            (s, session) in
        let kept = by_caller-kept P (check_caller I S.caller caller) s session _ before before (
          if_both P (is_circuit_open (breaker_of R X) S.breaker s) _
            (answered R X K I S sha256_hex others served) before
            (answered-is_indexed t sh served d (
              get_or_exchange-is_indexed random t sh req.token_id req.user_sub req.scopes s session
                h k a b f before))) in
        (kept, invalidate_pat-forgets t sh _ kept)
