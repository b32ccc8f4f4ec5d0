-- ===== src/Redis/Client.antt =====
-- services/portal-backend/redis_client.py. The pipelines run as one step.
pub mod Effects
use api_portal.Prelude.{
  List, Option, Text, [], codes, if◌then◌else◌, is_empty, length, lookup, ltb, none, some, ℕ, ◌++◌,
  ◌+◌, ◌∷◌,
}
use api_portal.Redis.{Redis, Host}

-- The `meta` that both callers of `cache_pat_meta` build; they give every field.
pub record PatMeta : Type 0 where
  pub hmac : Text
  pub sub : Text
  pub scopes : List Text
  pub status : Text
  pub cidr : List Text
  pub rate_limit_tps : ℕ
  pub burst : ℕ
  pub daily_quota : ℕ
  pub monthly_quota : ℕ
  pub expires_at : Text

abbrev pub pat_key : Text → Text
pat_key token_id = codes "cdp:pat:" ++ token_id

abbrev pub neg_key : Text → Text
neg_key token_id = codes "cdp:pat:neg:" ++ token_id

abbrev pub idx_key : Text → Text
idx_key token_id = codes "cdp:jwtidx:" ++ token_id

unfoldable pub meta_fields : Host → PatMeta → List (Text × Text)
meta_fields h meta =
    (codes "hash", meta.hmac)
    ∷ (codes "sub", meta.sub)
    ∷ (codes "scopes", h.dumps meta.scopes)
    ∷ (codes "status", meta.status)
    ∷ (codes "cidr", h.dumps meta.cidr)
    ∷ (codes "rate_limit_tps", h.str meta.rate_limit_tps)
    ∷ (codes "burst", h.str meta.burst)
    ∷ (codes "daily_quota", h.str meta.daily_quota)
    ∷ (codes "monthly_quota", h.str meta.monthly_quota)
    ∷ (codes "expires_at", meta.expires_at)
    ∷ []

-- `if name in quota: fields[name] = str(quota[name])`
abbrev pub field_of : Host → Text → Option ℕ → List (Text × Text)
field_of h name none = []
field_of h name (some n) = (name, h.str n) ∷ []

abbrev pub quota_field : Host → List (Text × ℕ) → Text → List (Text × Text)
quota_field h quota name = field_of h name (lookup name quota)

unfoldable pub quota_fields : Host → List (Text × ℕ) → List (Text × Text)
quota_fields h quota =
    quota_field h quota (codes "rate_limit_tps")
    ++ (quota_field h quota (codes "burst")
        ++ (quota_field h quota (codes "daily_quota")
            ++ quota_field h quota (codes "monthly_quota")))

module _ (R : Redis) where
  open R use {Store, has_key, smembers, delete, hset, expire}

  unfoldable pub cache_pat_meta : Host → Text → PatMeta → ℕ → Store → Store
  cache_pat_meta h token_id meta ttl_seconds s =
      let written = hset (pat_key token_id) (meta_fields h meta) s in
      if ltb 0 ttl_seconds then expire (pat_key token_id) ttl_seconds written else written

  -- `for jk in jwt_keys: pipe.delete(jk)`
  unfoldable pub delete_all : List Text → Store → Store
  delete_all [] s = s
  delete_all (k ∷ ks) s = delete_all ks (delete k s)

  unfoldable pub invalidate_pat : Text → Store → Store
  unfolding delete_all
  invalidate_pat token_id s =
      let jwt_keys = smembers s (idx_key token_id) in
      delete (idx_key token_id)
        (delete_all jwt_keys (delete (neg_key token_id) (delete (pat_key token_id) s)))

  -- The number of deleted entries, and the store.
  unfoldable pub invalidate_jwt_cache : List Text → Store → ℕ × Store
  unfolding delete_all
  invalidate_jwt_cache [] s = (0, s)
  invalidate_jwt_cache (token_id ∷ token_ids) s =
      let jwt_keys = smembers s (idx_key token_id) in
      let dropped = delete (idx_key token_id) (delete_all jwt_keys s) in
      let (total, s') = invalidate_jwt_cache token_ids (if is_empty jwt_keys then s else dropped) in
      (length jwt_keys + total, s')

  unfoldable pub update_pat_status_in_redis : Text → Text → Store → Store
  update_pat_status_in_redis token_id status s =
      if has_key s (pat_key token_id)
      then hset (pat_key token_id) ((codes "status", status) ∷ []) s
      else s

  unfoldable pub update_pat_quota_in_redis : Host → Text → List (Text × ℕ) → Store → Store
  unfolding quota_fields
  update_pat_quota_in_redis h token_id quota s =
      let fields = quota_fields h quota in
      if has_key s (pat_key token_id)
      then (if is_empty fields then s else hset (pat_key token_id) fields s)
      else s
