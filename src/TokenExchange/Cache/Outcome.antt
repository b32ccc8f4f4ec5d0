-- ===== src/TokenExchange/Cache/Outcome.antt =====
-- What the holder of the lock leaves behind, and what those who wait for it get, in
-- services/token-exchange-service/cache.py.
use api_portal.Prelude.{
  List, Option, Option-cases, Text, ap, arith, contains, false, inl, inr, is_some, none, not, refl,
  some, suc, text_eq, text_eq_refl, true, zero, ℕ, ◌<◌, ◌∙◌, ◌≡◌,
}
use api_portal.Redis.{Redis}
use api_portal.Redis.Client.{idx_key}
use api_portal.TokenExchange.Shared.{Shared, get-delete_self}
use api_portal.TokenExchange.Keycloak.{Keycloak, Exchanged, Session, present, exchange_token}
use api_portal.TokenExchange.Cache.{
  TxsSettings, JwtReply, jwt, timeout, failed, cache_key, lock_key, scope_hash, store_jwt, unlock,
  finish, poll, lead, get_or_exchange_jwt,
}
use api_portal.TokenExchange.Cache.Index.{get-store_jwt, index-store_jwt}

module _ (R : Redis) (X : Shared R) (K : Keycloak) (S : TxsSettings) (sha256_hex : Text → Text)
    (others : R.Store → R.Store) where
  open R use {Store, smembers}

  -- The store that the holder of the lock leaves, by its answer; the one before is that when the
  -- exchange came back.
  abbrev pub IsLeft : Text → Text → Store → JwtReply × Store → Type 0
  IsLeft t sh before (jwt token cached, s) =
      (cached ≡ false)
      × (X.get s (cache_key t sh) ≡ some token)
      × (contains (smembers s (idx_key t)) (cache_key t sh) ≡ true)
      × (X.get s (lock_key t sh) ≡ none)
  IsLeft t sh before (failed, s) =
      (X.get s (cache_key t sh) ≡ X.get before (cache_key t sh)) × (X.get s (lock_key t sh) ≡ none)
  IsLeft t sh before (timeout, s) = ⊥

  unlock-mine :
      (lkey : Text) (s : Store)
      → X.get s lkey ≡ some S.node_id
      → unlock R X K S sha256_hex others lkey s ≡ R.delete lkey s
  unfolding unlock
  unlock-mine lkey s h = rw h (rw (text_eq_refl S.node_id) refl)

  finish-IsLeft :
      (t sh : Text) (result : Option Exchanged) (s : Store)
      → 0 < S.jwt_cache_ttl
      → 0 < S.jwt_ttl
      → X.get s (lock_key t sh) ≡ some S.node_id
      → IsLeft t sh s (finish R X K S sha256_hex others t sh result s)
  unfolding finish text_eq
  finish-IsLeft t sh none s h k mine =
      let lkey = lock_key t sh in
      rw (unlock-mine lkey s mine)
        (X.get-delete lkey (cache_key t sh) s, get-delete_self R X lkey s)
  finish-IsLeft t sh (some r) s h k mine =
      let lkey = lock_key t sh in
      let ckey = cache_key t sh in
      let s' = store_jwt R X K S sha256_hex others t sh r.access_token s in
      let held : X.get s' lkey ≡ some S.node_id =
        get-store_jwt R X K S sha256_hex others lkey t sh r.access_token s h k ∙ mine in
      rw (unlock-mine lkey s' held) (
        refl,
        X.get-delete lkey ckey s'
            ∙ get-store_jwt R X K S sha256_hex others ckey t sh r.access_token s h k
            ∙ rw (text_eq_refl ckey) refl,
        ap (λ (ms : List Text). contains ms ckey) (R.smembers-delete lkey (idx_key t) s')
            ∙ index-store_jwt R X K S sha256_hex others t sh t sh r.access_token s k
            ∙ rw (text_eq_refl (idx_key t), text_eq_refl ckey) refl,
        get-delete_self R X lkey s',
      )

  -- The holder of the lock, if it still has the lock when the exchange comes back, sets the lock
  -- free whatever the outcome. It answers with a JWT that is then in the cache and in the index of
  -- the token, or with an error that leaves the cached entry; it never times out.
  pub lead-IsLeft :
      (t user_sub : Text) (scopes : List Text) (s : Store) (session : Session K)
      → 0 < S.jwt_cache_ttl
      → 0 < S.jwt_ttl
      → X.get (others s) (lock_key t (scope_hash sha256_hex scopes)) ≡ some S.node_id
      → IsLeft t (scope_hash sha256_hex scopes) (others s) (
        (lead R X K S sha256_hex others t user_sub scopes (s, session)).0,
        (lead R X K S sha256_hex others t user_sub scopes (s, session)).1.0,
      )
  unfolding lead
  lead-IsLeft t user_sub scopes s session h k mine =
      finish-IsLeft t (scope_hash sha256_hex scopes)
        (exchange_token K S.jwt_ttl user_sub scopes session).0 (others s) h k mine

  -- The store after some of the rounds.
  abbrev pub after : ℕ → Store → Store
  after zero s = s
  after (suc i) s = after i (others s)

  poll-finds :
      (n i : ℕ) (ckey token : Text) (s : Store)
      → i < n
      → present (X.get (after (suc i) s) ckey) ≡ some token
      → (jwt_str : Text) × ((poll R X K S sha256_hex others n ckey s).0 ≡ jwt jwt_str true)
  unfolding poll
  poll-finds zero i ckey token s lt h = absurd (omega (arith, lt))
  poll-finds (suc n) zero ckey token s lt h = (token, rw h refl)
  poll-finds (suc n) (suc i) ckey token s lt h =
      elim (Option-cases (present (X.get (others s) ckey))) [
        | inr (jwt_str, e) ↦ (jwt_str, rw e refl)
        | inl e ↦ rw e (poll-finds n i ckey token (others s) (omega (arith, lt)) h)
      ]

  -- A request that finds no JWT and the lock taken answers with a JWT if the cache has one in one of
  -- its six rounds.
  pub get_or_exchange_jwt-waits :
      (random : ℕ × ℕ) (i : ℕ) (t user_sub token : Text) (scopes : List Text) (s : Store)
      (session : Session K)
      → i < 6
      → present (X.get s (cache_key t (scope_hash sha256_hex scopes))) ≡ none
      → is_some (X.get s (lock_key t (scope_hash sha256_hex scopes))) ≡ true
      → present (X.get (after (suc i) s) (cache_key t (scope_hash sha256_hex scopes))) ≡ some token
      → (jwt_str : Text) × ((get_or_exchange_jwt R X K S sha256_hex others random t user_sub scopes
            (s, session)).0
          ≡ jwt jwt_str true)
  unfolding get_or_exchange_jwt
  get_or_exchange_jwt-waits random i t user_sub token scopes s session lt miss taken filled =
      let sh = scope_hash sha256_hex scopes in
      let lkey = lock_key t sh in
      let (jwt_str, e) = poll-finds 6 i (cache_key t sh) token s lt filled in
      let busy : (X.set_nx_px lkey S.node_id 5000 s).0 ≡ false =
        X.set_nx_px-free lkey S.node_id 5000 s ∙ ap not taken in
      (jwt_str, rw miss (rw (busy, X.set_nx_px_taken lkey S.node_id 5000 s taken) e))
