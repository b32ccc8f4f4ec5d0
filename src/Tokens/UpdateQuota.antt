-- ===== src/Tokens/UpdateQuota.antt =====
-- `update_quota` of services/portal-backend/routers/tokens.py.
pub mod Rows
pub mod Laws
use api_portal.Prelude.{
  List, Option, Text, [], codes, if◌then◌else◌, is_empty, none, some, text_eq, ℕ, ◌++◌, ◌∷◌,
}
use api_portal.Errors.{Reply, done, cdp_error, http, cdp_4003}
use api_portal.Auth.{UserClaims, has_role}
use api_portal.Redis.{Redis, Host}
use api_portal.Redis.Client.{update_pat_quota_in_redis}
use api_portal.Database.{Db, Pat, Quota}
use api_portal.Database.Pats.{find_pat}
use api_portal.Portal.{Portal}

pub record QuotaPatchRequest : Type 0 where
  pub rate_limit_tps : Option ℕ
  pub burst : Option ℕ
  pub daily_quota : Option ℕ
  pub monthly_quota : Option ℕ
  pub concurrency : Option ℕ

abbrev given : Text → Option ℕ → List (Text × ℕ)
given name none = []
given name (some n) = (name, n) ∷ []

-- `req.model_dump(exclude_none=True)`, under the names of the request's fields.
unfoldable pub model_dump : QuotaPatchRequest → List (Text × ℕ)
model_dump req =
    given (codes "rateLimitTps") req.rate_limit_tps
    ++ (given (codes "burst") req.burst
        ++ (given (codes "dailyQuota") req.daily_quota
            ++ (given (codes "monthlyQuota") req.monthly_quota
                ++ given (codes "concurrency") req.concurrency)))

abbrev pub new_or_old : Option ℕ → ℕ → ℕ
new_or_old none old = old
new_or_old (some n) old = n

-- `UPDATE cdp.quota_policy SET …` on one row, with the columns that the request gives.
unfoldable pub set_quota : QuotaPatchRequest → Text → Quota → Quota
set_quota req sub q = record {
  token_id = q.token_id;
  rate_limit_tps = new_or_old req.rate_limit_tps q.rate_limit_tps;
  burst = new_or_old req.burst q.burst;
  daily_quota = new_or_old req.daily_quota q.daily_quota;
  monthly_quota = new_or_old req.monthly_quota q.monthly_quota;
  concurrency = new_or_old req.concurrency q.concurrency;
  updated_by = some sub;
}

unfoldable pub update_quotas : QuotaPatchRequest → Text → Text → List Quota → List Quota
unfolding set_quota
update_quotas req sub token_id [] = []
update_quotas req sub token_id (q ∷ qs) =
    (if text_eq q.token_id token_id then set_quota req sub q else q)
    ∷ update_quotas req sub token_id qs

module _ (R : Redis) (H : Host) where
  unfoldable pub update_found :
      Text
      → QuotaPatchRequest
      → UserClaims
      → Portal R
      → Option Pat
      → Reply (List (Text × ℕ)) × Portal R
  unfolding update_quotas model_dump
  update_found token_id req user st none = (http 404, st)
  update_found token_id req user st (some pat) = (
    done (model_dump req),
    record {
      db = record st.db {
        quotas =
            if is_empty (model_dump req)
            then st.db.quotas
            else update_quotas req user.sub token_id st.db.quotas;
      };
      redis = update_pat_quota_in_redis R H token_id (model_dump req) st.redis;
    },
  )

  unfoldable pub update_quota :
      Text → QuotaPatchRequest → UserClaims → Portal R → Reply (List (Text × ℕ)) × Portal R
  unfolding update_found
  update_quota token_id req user st =
      if has_role user (codes "platform-admin")
      then update_found token_id req user st (find_pat token_id st.db.pats)
      else (cdp_error cdp_4003, st)
