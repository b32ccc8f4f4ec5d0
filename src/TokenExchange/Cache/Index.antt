-- ===== src/TokenExchange/Cache/Index.antt =====
-- The set `cdp:jwtidx:…` that services/token-exchange-service/cache.py keeps for
-- `invalidate_pat` of services/portal-backend/redis_client.py.
use api_portal.Prelude.{
  Bool, Bool-cases, List, Option, Option-cases, Text, [], ap, arith, contains, false, has, if_both,
  if◌then◌else◌, inl, inr, is_some, none, not, parts→split_once, refl, some, split, suc, sym,
  text_eq, text_eq_iff, true, zero, ℕ, ◌&&◌, ◌++◌, ◌<◌, ◌||◌, ◌∙◌, ◌∷◌, ◌≡◌, ◌⊎◌,
}
use api_portal.Redis.{Redis}
use api_portal.Redis.Client.{idx_key}
use api_portal.TokenExchange.Shared.{Shared}
use api_portal.TokenExchange.Keycloak.{Keycloak, Exchanged, present}
use api_portal.TokenExchange.Cache.{
  TxsSettings, cache_key, lock_key, store_jwt, unlock, finish, poll,
}

-- Where a first part has no colon, the text before the colon is told by the whole.
tokens_eq :
    (t t' sh sh' : Text)
    → has b':' t ≡ false
    → has b':' t' ≡ false
    → cache_key t' sh' ≡ cache_key t sh
    → t' ≡ t
tokens_eq t t' sh sh' h h' e =
    let same : t' ++ b':' ∷ sh' ≡ t ++ b':' ∷ sh = cc e in
    let parts : t' ∷ sh' ∷ [] ≡ t ∷ sh ∷ [] =
      sym (parts→split_once b':' t' sh' h')
      ∙ ap (split b':' 1) same
      ∙ parts→split_once b':' t sh h in
    cc parts

and_false : (b : Bool) → (b && false) ≡ false
and_false b = ground arith

module _ (R : Redis) (X : Shared R) where
  open R use {Store, smembers}

  -- A JWT of the token that is in the cache is in the index.
  abbrev pub is_indexed : Text → Text → Store → Bool
  is_indexed t sh s =
      not (is_some (X.get s (cache_key t sh))) || contains (smembers s (idx_key t)) (cache_key t sh)

  -- What a command keeps of one entry.
  pub record Keeps (t sh : Text) (s s' : Store) : Type 0 where
    pub value :
        (is_some (X.get s' (cache_key t sh)) ≡ false)
        ⊎ (X.get s' (cache_key t sh) ≡ X.get s (cache_key t sh))
    pub index : smembers s' (idx_key t) ≡ smembers s (idx_key t)

  pub Keeps-is_indexed :
      (t sh : Text) (s s' : Store)
      → Keeps t sh s s'
      → is_indexed t sh s ≡ true
      → is_indexed t sh s' ≡ true
  Keeps-is_indexed t sh s s' k h = elim k.value [ inl e ↦ rw e refl | inr e ↦ rw (e, k.index) h ]

  -- A key that is neither the entry nor the index.
  abbrev pub IsOther : Text → Text → Text → Type 0
  IsOther t sh key = (text_eq key (cache_key t sh) ≡ false) × (text_eq key (idx_key t) ≡ false)

  pub delete-Keeps :
      (t sh key : Text) (s : Store) → IsOther t sh key → Keeps t sh s (R.delete key s)
  delete-Keeps t sh key s (a, b) = record {
    value = inr (X.get-delete key (cache_key t sh) s ∙ rw a refl);
    index = R.smembers-delete key (idx_key t) s ∙ rw b refl;
  }

  lock_key-IsOther : (t sh t' sh' : Text) → IsOther t sh (lock_key t' sh')
  unfolding text_eq
  lock_key-IsOther t sh t' sh' = (refl, refl)

  pub set_nx_px-Keeps :
      (t sh t' sh' v : Text) (n : ℕ) (s : Store)
      → Keeps t sh s (X.set_nx_px (lock_key t' sh') v n s).1
  set_nx_px-Keeps t sh t' sh' v n s =
      let (a, b) = lock_key-IsOther t sh t' sh' in
      let lkey = lock_key t' sh' in
      record {
        value = elim (Bool-cases (is_some (X.get s lkey))) [
          | inl e ↦ inr (rw (X.set_nx_px_taken lkey v n s e) refl)
          | inr e ↦ inr (X.get-set_nx_px lkey v (cache_key t sh) n s e ∙ rw a refl)
        ];
        index = X.smembers-set_nx_px lkey v (idx_key t) n s b;
      }

  module _ (K : Keycloak) (S : TxsSettings) (sha256_hex : Text → Text)
      (others : Store → Store) where
    unlock-is_indexed :
        (t sh t' sh' : Text) (s : Store)
        → is_indexed t sh s ≡ true
        → is_indexed t sh (unlock R X K S sha256_hex others (lock_key t' sh') s) ≡ true
    unfolding unlock
    unlock-is_indexed t sh t' sh' s h =
        if_both (λ (s' : Store). is_indexed t sh s' ≡ true) _ (R.delete (lock_key t' sh') s) s
          (Keeps-is_indexed t sh s (R.delete (lock_key t' sh') s)
            (delete-Keeps t sh (lock_key t' sh') s (lock_key-IsOther t sh t' sh')) h)
          h

    pub get-store_jwt :
        (j t' sh' token : Text) (s : Store)
        → 0 < S.jwt_cache_ttl
        → 0 < S.jwt_ttl
        → X.get (store_jwt R X K S sha256_hex others t' sh' token s) j
          ≡ (if text_eq (cache_key t' sh') j then some token else X.get s j)
    unfolding store_jwt
    get-store_jwt j t' sh' token s h k =
        X.get-expire (idx_key t') j S.jwt_ttl _ k
        ∙ X.get-sadd (idx_key t') (cache_key t' sh') j _
        ∙ X.get-setex (cache_key t' sh') token j S.jwt_cache_ttl s h

    pub index-store_jwt :
        (t sh t' sh' token : Text) (s : Store)
        → 0 < S.jwt_ttl
        → contains
            (smembers (store_jwt R X K S sha256_hex others t' sh' token s) (idx_key t))
            (cache_key t sh)
          ≡ ((text_eq (idx_key t') (idx_key t) && text_eq (cache_key t' sh') (cache_key t sh))
              || contains (smembers s (idx_key t)) (cache_key t sh))
    unfolding store_jwt text_eq
    index-store_jwt t sh t' sh' token s k =
        let set = X.setex (cache_key t' sh') S.jwt_cache_ttl token s in
        ap (λ (ms : List Text). contains ms (cache_key t sh))
          (X.smembers-expire (idx_key t') (idx_key t) S.jwt_ttl _ k)
        ∙ X.smembers-sadd (idx_key t') (cache_key t' sh') (idx_key t) (cache_key t sh) set
        ∙ rw (X.smembers-setex (cache_key t' sh') token (idx_key t) S.jwt_cache_ttl s refl) refl

    pub store_jwt-is_indexed :
        (t sh t' sh' token : Text) (s : Store)
        → 0 < S.jwt_cache_ttl
        → 0 < S.jwt_ttl
        → has b':' t ≡ false
        → has b':' t' ≡ false
        → is_indexed t sh s ≡ true
        → is_indexed t sh (store_jwt R X K S sha256_hex others t' sh' token s) ≡ true
    store_jwt-is_indexed t sh t' sh' token s h k a b before =
        let get = get-store_jwt (cache_key t sh) t' sh' token s h k in
        let index = index-store_jwt t sh t' sh' token s k in
        rw (get, index)
          (elim (Bool-cases (text_eq (cache_key t' sh') (cache_key t sh))) [
            | inr e ↦ rw (e, and_false (text_eq (idx_key t') (idx_key t))) before
            | inl e ↦
                let same = tokens_eq t t' sh sh' a b ((text_eq_iff _ _).0 e) in
                let idx : text_eq (idx_key t') (idx_key t) ≡ true =
                  (text_eq_iff _ _).1 (ap idx_key same) in
                rw (e, idx) refl
          ])

    pub finish-is_indexed :
        (t sh t' sh' : Text) (result : Option Exchanged) (s : Store)
        → 0 < S.jwt_cache_ttl
        → 0 < S.jwt_ttl
        → has b':' t ≡ false
        → has b':' t' ≡ false
        → is_indexed t sh s ≡ true
        → is_indexed t sh (finish R X K S sha256_hex others t' sh' result s).1 ≡ true
    unfolding finish
    finish-is_indexed t sh t' sh' none s h k a b before = unlock-is_indexed t sh t' sh' s before
    finish-is_indexed t sh t' sh' (some r) s h k a b before =
        unlock-is_indexed t sh t' sh' _
          (store_jwt-is_indexed t sh t' sh' r.access_token s h k a b before)

    pub poll-is_indexed :
        (t sh ckey : Text) (n : ℕ) (s : Store)
        → ((s : Store) → is_indexed t sh s ≡ true → is_indexed t sh (others s) ≡ true)
        → is_indexed t sh s ≡ true
        → is_indexed t sh (poll R X K S sha256_hex others n ckey s).1 ≡ true
    unfolding poll
    poll-is_indexed t sh ckey zero s f before = before
    poll-is_indexed t sh ckey (suc n) s f before =
        elim (Option-cases (present (X.get (others s) ckey))) [
          | inl e ↦ rw e (poll-is_indexed t sh ckey n (others s) f (f s before))
          | inr (token, e) ↦ rw e (f s before)
        ]
