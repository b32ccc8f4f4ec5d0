-- ===== src/Internal/Meta.antt =====
-- `get_pat_meta` of services/portal-backend/routers/internal.py.
use api_portal.Prelude.{
  List, Option, Text, [], codes, if◌then◌else◌, is_empty, ltb, none, not, some, suc, text_eq, zero,
  ℕ, ◌-◌, ◌/◌, ◌∷◌,
}
use api_portal.Errors.{Reply, done, http}
use api_portal.Redis.{Redis, Host}
use api_portal.Redis.Client.{PatMeta, cache_pat_meta}
use api_portal.Database.{Pat, PatStatus, active, revoked, expired, inactive, Quota, is_active}
use api_portal.Database.Pats.{find_pat}
use api_portal.Portal.{Portal}

-- `SELECT … FROM cdp.pat p LEFT JOIN cdp.quota_policy q …`
unfoldable pub find_quota : Text → List Quota → Option Quota
find_quota t [] = none
find_quota t (q ∷ qs) = if text_eq q.token_id t then some q else find_quota t qs

-- `column or default`, which replaces 0 too.
abbrev or_default : Option ℕ → ℕ → ℕ
or_default none d = d
or_default (some zero) d = d
or_default (some (suc n)) d = suc n

abbrev column : (Quota → ℕ) → Option Quota → Option ℕ
column field none = none
column field (some q) = some (field q)

abbrev pub status_text : PatStatus → Text
status_text active = codes "ACTIVE"
status_text revoked = codes "REVOKED"
status_text expired = codes "EXPIRED"
status_text inactive = codes "INACTIVE"

module _ (R : Redis) (H : Host) where
  -- What is cached, and what the answer holds.
  abbrev pub meta_of : Pat → Option Quota → PatMeta
  meta_of pat q = record {
    hmac = pat.token_hmac;
    sub = pat.user_sub;
    scopes = pat.scopes;
    status = status_text pat.status;
    cidr = pat.allowed_cidr;
    rate_limit_tps = or_default (column (λ q. q.rate_limit_tps) q) 10;
    burst = or_default (column (λ q. q.burst) q) 20;
    daily_quota = or_default (column (λ q. q.daily_quota) q) 5000;
    monthly_quota = or_default (column (λ q. q.monthly_quota) q) 100000;
    expires_at = H.isoformat pat.expires_at;
  }

  unfoldable pub meta_found :
      Text → ℕ → Portal R → Option Quota → Option Pat → Reply PatMeta × Portal R
  meta_found token_id now st q none = (http 404, st)
  meta_found token_id now st q (some pat) =
      let ttl = (pat.expires_at - now) / 1000000 in
      let cached : Portal R = record st {
        redis = cache_pat_meta R H token_id (meta_of pat q) ttl st.redis;
      } in
      if not (is_active pat.status)
      then (http 401, st)
      else if is_empty pat.token_hmac
      then (http 401, st)
      else if ltb 0 ttl
      then (done (meta_of pat q), cached)
      else (done (meta_of pat q), st)

  unfoldable pub get_pat_meta : Text → ℕ → Portal R → Reply PatMeta × Portal R
  unfolding meta_found find_quota
  get_pat_meta token_id now st =
      meta_found token_id now st (find_quota token_id st.db.quotas) (find_pat token_id st.db.pats)
