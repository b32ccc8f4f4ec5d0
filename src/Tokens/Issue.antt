-- ===== src/Tokens/Issue.antt =====
-- `issue_pat` of services/portal-backend/routers/tokens.py. The random bytes and the two readings of
-- the clock are arguments. A negative `validDays` is refused as 0 is.
pub mod Laws
use api_portal.Prelude.{
  Bool, List, Option, Text, any, codes, count, find, if◌then◌else◌, leb, ltb, min, none, not, some,
  text_eq, ℕ, ◌&&◌, ◌*◌, ◌++◌, ◌+◌, ◌-◌, ◌/◌, ◌∷◌,
}
use api_portal.Config.{Settings}
use api_portal.Errors.{Reply, done, cdp_error, http, cdp_4001, cdp_4003, cdp_4009}
use api_portal.Auth.{UserClaims}
use api_portal.Redis.{Redis, Host}
use api_portal.Redis.Client.{PatMeta, cache_pat_meta}
use api_portal.Database.{Db, Pat, Quota, Application, Api, active, AuditRow, is_active, is_approved}
use api_portal.Database.Pats.{find_pat}
use api_portal.PatUtils.Base62.{generate_token_id}
use api_portal.PatUtils.Secret.{generate_secret}
use api_portal.PatUtils.Format.{build_pat}
use api_portal.Portal.{Portal}

pub record TokenIssueRequest : Type 0 where
  pub app_id : Text
  pub token_name : Text
  pub valid_days : ℕ
  pub allowed_cidr : List Text

-- What `secrets` and the clock give: nine bytes, thirty-two bytes, and the times of the check and
-- of the issue.
pub record IssueInput : Type 0 where
  pub id_bytes : List ℕ
  pub secret_bytes : List ℕ
  pub checked_at : ℕ
  pub issued_at : ℕ

pub record Issued : Type 0 where
  pub token_id : Text
  pub token : Text
  pub token_name : Text
  pub scopes : List Text
  pub issued_at : ℕ
  pub expires_at : ℕ
  pub capped_by_valid_until : Bool

abbrev pub day : ℕ
day = 86400 * 1000000

-- `datetime.combine(valid_until, time.max)`
unfoldable pub end_of_day : ℕ → ℕ
end_of_day date = date * day + (day - 1)

abbrev find_api : Text → List Api → Bool
find_api api_id apis = any (λ (c : Api). text_eq c.api_id api_id) apis

-- The join of an approved application with its API.
unfoldable pub approved_application : Text → Db → Option Application
approved_application app_id db =
    find
      (λ (a : Application).
        text_eq a.app_id app_id && is_approved a.status && find_api a.api_id db.apis)
      db.applications

unfoldable pub active_per_app : Text → List Pat → ℕ
active_per_app app_id = count λ (p : Pat). text_eq p.app_id app_id && is_active p.status

unfoldable pub active_per_user : Text → List Pat → ℕ
active_per_user user_sub = count λ (p : Pat). text_eq p.user_sub user_sub && is_active p.status

-- `f'{{"app_id":"{req.appId}","token_name":"{req.tokenName}"}}'`
abbrev pub audit_detail : TokenIssueRequest → Text
audit_detail req =
    codes "{\"app_id\":\""
    ++ (req.app_id ++ (codes "\",\"token_name\":\"" ++ (req.token_name ++ codes "\"}")))

module _ (S : Settings) (R : Redis) (H : Host) where
  -- The row of `INSERT INTO cdp.pat`. The application is that of the request.
  abbrev pub new_pat : TokenIssueRequest → IssueInput → UserClaims → Application → Pat
  new_pat req input user app =
      let secret = generate_secret input.secret_bytes in
      record {
        token_id = generate_token_id input.id_bytes;
        app_id = app.app_id;
        user_sub = user.sub;
        token_name = req.token_name;
        token_hash = H.sha256_hex secret;
        token_hmac = H.hmac_sha256_hex secret S.server_key;
        scopes = app.granted_scopes;
        status = active;
        allowed_cidr = req.allowed_cidr;
        issued_at = input.issued_at;
        expires_at = min (input.issued_at + req.valid_days * day) (end_of_day app.valid_until);
        last_used_at = none;
        revoked_at = none;
        revoked_by = none;
        revoke_reason = none;
      }

  abbrev pub new_quota : Pat → Quota
  new_quota p = record {
    token_id = p.token_id;
    rate_limit_tps = S.default_rate_limit_tps;
    burst = S.default_burst;
    daily_quota = S.default_daily_quota;
    monthly_quota = S.default_monthly_quota;
    concurrency = 5;
    updated_by = none;
  }

  abbrev pub new_meta : Pat → PatMeta
  new_meta p = record {
    hmac = p.token_hmac;
    sub = p.user_sub;
    scopes = p.scopes;
    status = codes "ACTIVE";
    cidr = p.allowed_cidr;
    rate_limit_tps = S.default_rate_limit_tps;
    burst = S.default_burst;
    daily_quota = S.default_daily_quota;
    monthly_quota = S.default_monthly_quota;
    expires_at = H.isoformat p.expires_at;
  }

  abbrev pub issued_row : Pat → AuditRow
  issued_row p = record {
    event_type = codes "PAT_ISSUED";
    token_id = some p.token_id;
    user_sub = some p.user_sub;
    request_path = none;
    status_code = none;
    error_code = none;
  }

  -- The two rows of the transaction, and the entry in Redis.
  abbrev pub stored : Pat → Portal R → Portal R
  stored p st = record {
    db = record st.db { pats = p ∷ st.db.pats; quotas = new_quota p ∷ st.db.quotas };
    redis =
        cache_pat_meta R H p.token_id (new_meta p) ((p.expires_at - p.issued_at) / 1000000)
          st.redis;
  }

  -- `INSERT INTO cdp.audit_log`, outside the transaction, with a detail that PostgreSQL may refuse.
  unfoldable pub audited : Text → Pat → Portal R → Reply Unit × Portal R
  audited detail p st =
      if H.is_jsonb detail
      then (done tt, record st { db = record st.db { audit_log = issued_row p ∷ st.db.audit_log } })
      else (http 500, st)

  -- From `async with db.transaction()` on, given the row of the token id. An id that is taken
  -- violates the primary key: the transaction is rolled back and the error is not caught.
  unfoldable pub insert_pat : Text → Pat → Portal R → Option Pat → Reply Unit × Portal R
  unfolding audited
  insert_pat detail p st (some _) = (http 500, st)
  insert_pat detail p st none = audited detail p (stored p st)

  unfoldable pub store_pat : Text → Pat → Portal R → Reply Unit × Portal R
  unfolding insert_pat
  store_pat detail p st = insert_pat detail p st (find_pat p.token_id st.db.pats)

  abbrev pub answer : Reply Unit → Issued → Reply Issued
  answer (done _) i = done i
  answer (cdp_error c) i = cdp_error c
  answer (http n) i = http n

  -- The response.
  abbrev pub issued_of : TokenIssueRequest → IssueInput → UserClaims → Application → Issued
  issued_of req input user app =
      let p = new_pat req input user app in
      record {
        token_id = p.token_id;
        token = build_pat p.token_id (generate_secret input.secret_bytes);
        token_name = req.token_name;
        scopes = p.scopes;
        issued_at = p.issued_at;
        expires_at = p.expires_at;
        capped_by_valid_until = ltb p.expires_at (input.issued_at + req.valid_days * day);
      }

  -- The checks behind the loading of the application, and the issue.
  unfoldable pub issue_for :
      TokenIssueRequest
      → IssueInput
      → UserClaims
      → Portal R
      → Option Application
      → Reply Issued × Portal R
  unfolding store_pat
  issue_for req input user st none = (cdp_error cdp_4003, st)
  issue_for req input user st (some app) =
      let p = new_pat req input user app in
      let (r, st') = store_pat (audit_detail req) p st in
      if not (text_eq app.user_sub user.sub)
      then (cdp_error cdp_4003, st)
      else if leb (end_of_day app.valid_until) input.checked_at
      then (cdp_error cdp_4009, st)
      else if leb S.pat_max_per_app (active_per_app app.app_id st.db.pats)
      then (cdp_error cdp_4009, st)
      else if leb S.pat_max_per_user (active_per_user user.sub st.db.pats)
      then (cdp_error cdp_4009, st)
      else (answer r (issued_of req input user app), st')

  -- The application of an identifier; the `ValueError` of `uuid.UUID` is not caught.
  unfoldable pub issue_by_id :
      TokenIssueRequest → IssueInput → UserClaims → Portal R → Option Text → Reply Issued × Portal R
  unfolding issue_for
  issue_by_id req input user st none = (http 500, st)
  issue_by_id req input user st (some app_id) =
      issue_for req input user st (approved_application app_id st.db)

  unfoldable pub issue_pat :
      TokenIssueRequest → IssueInput → UserClaims → Portal R → Reply Issued × Portal R
  unfolding issue_by_id
  issue_pat req input user st =
      if leb 1 req.valid_days && leb req.valid_days S.pat_max_days
      then issue_by_id req input user st (H.uuid req.app_id)
      else (cdp_error cdp_4001, st)
