-- ===== src/Usage.antt =====
-- services/portal-backend/routers/usage.py, and `list_audit_logs` of routers/audit.py and `get_me` of
-- routers/me.py. Rates and means are fractions, a numerator and a denominator; their rounding is
-- left out. The counters of the gateway and the names of the day and the month are inputs.
use api_portal.Prelude.{
  Bool, List, Option, Text, [], codes, if◌then◌else◌, is_empty, keep, leb, length, ltb, map, none,
  not, some, text_eq, true, ℕ, ◌&&◌, ◌*◌, ◌++◌, ◌+◌, ◌-◌, ◌==◌, ◌||◌, ◌∷◌,
}
use api_portal.Errors.{Reply, done, cdp_error, http, cdp_4003}
use api_portal.Auth.{UserClaims, has_role, has_any_role}
use api_portal.Database.{Db, Pat, Quota, AuditRow}
use api_portal.Database.Pats.{find_pat}
use api_portal.Internal.Meta.{find_quota}
use api_portal.Queries.{Paged, page_of}

-- A row of `cdp.usage_stat_daily`; the rows are kept in the order of their dates.
pub record DailyStat : Type 0 where
  pub stat_date : ℕ
  pub token_id : Text
  pub call_count : ℕ
  pub error_count : ℕ
  pub avg_latency : ℕ
  pub p95_latency : ℕ

abbrev pub sum_of : (DailyStat → ℕ) → List DailyStat → ℕ
sum_of f [] = 0
sum_of f (r ∷ rows) = f r + sum_of f rows

-- `max(…, default=0)`
abbrev pub max_of : (DailyStat → ℕ) → List DailyStat → ℕ
max_of f [] = 0
max_of f (r ∷ rows) = let rest = max_of f rows in if ltb rest (f r) then f r else rest

-- `_error_rate`, 0 where there is no call.
unfoldable pub error_rate : ℕ → ℕ → ℕ × ℕ
error_rate calls errors = if calls + errors == 0 then (0, 1) else (errors, calls + errors)

pub record Summary : Type 0 where
  pub total_calls : ℕ
  pub total_errors : ℕ
  pub total_rate : ℕ × ℕ
  pub mean_latency : ℕ × ℕ
  pub max_p95 : ℕ

unfoldable pub summary_of : List DailyStat → Summary
unfolding error_rate
summary_of rows =
    let calls = sum_of (λ r. r.call_count) rows in
    let errors = sum_of (λ r. r.error_count) rows in
    let weighted = sum_of (λ r. r.avg_latency * r.call_count) rows in
    record {
      total_calls = calls;
      total_errors = errors;
      total_rate = error_rate calls errors;
      mean_latency = if calls == 0 then (0, 1) else (weighted, calls);
      max_p95 = max_of (λ r. r.p95_latency) rows;
    }

pub record TokenUsage : Type 0 where
  pub daily_series : List (DailyStat × (ℕ × ℕ))
  pub summary : Summary
  pub live_today : ℕ × ℕ
  pub live_month : ℕ × ℕ

abbrev limits_of : Option Quota → ℕ × ℕ
limits_of none = (5000, 100000)
limits_of (some q) = (q.daily_quota, q.monthly_quota)

-- The answer on a token that there is.
unfoldable pub usage_found :
    Text
    → ℕ
    → ℕ
    → Text
    → Text
    → (Text → ℕ)
    → List DailyStat
    → UserClaims
    → Db
    → Option Pat
    → Reply TokenUsage
unfolding summary_of error_rate find_quota
usage_found token_id days today day_name month_name live stats user db none = http 404
usage_found token_id days today day_name month_name live stats user db (some pat) =
    let rows = keep (λ r. text_eq r.token_id token_id && leb (today - days) r.stat_date) stats in
    let (daily, monthly) = limits_of (find_quota token_id db.quotas) in
    if not (text_eq pat.user_sub user.sub) && not (has_role user (codes "platform-admin"))
    then http 403
    else done (record {
      daily_series = map (λ r. (r, error_rate r.call_count r.error_count)) rows;
      summary = summary_of rows;
      live_today = (live (codes "cdp:quota:d:" ++ (token_id ++ b':' ∷ day_name)), daily);
      live_month = (live (codes "cdp:quota:m:" ++ (token_id ++ b':' ∷ month_name)), monthly);
    })

unfoldable pub get_token_usage :
    Text → ℕ → ℕ → Text → Text → (Text → ℕ) → List DailyStat → UserClaims → Db → Reply TokenUsage
unfolding usage_found find_pat
get_token_usage token_id days today day_name month_name live stats user db =
    usage_found token_id days today day_name month_name live stats user db
      (find_pat token_id db.pats)

-- A condition of `list_audit_logs`: an empty value is no condition, and NULL equals nothing.
abbrev equals_if : Option Text → Option Text → Bool
equals_if none value = true
equals_if (some given) none = is_empty given
equals_if (some given) (some value) = is_empty given || text_eq value given

unfoldable pub list_audit_logs :
    Option Text → Option Text → Option Text → ℕ → ℕ → UserClaims → Db → Reply (Paged AuditRow)
unfolding page_of
list_audit_logs token_id user_sub event_type page size user db =
    let rows =
      keep
        (λ (r : AuditRow).
          equals_if token_id r.token_id
          && equals_if user_sub r.user_sub
          && equals_if event_type (some r.event_type))
        db.audit_log in
    if not (has_any_role user (codes "platform-admin" ∷ codes "auditor" ∷ []))
    then cdp_error cdp_4003
    else done
        (record { items = page_of page size rows; total = length rows; page = page; size = size })

pub record Me : Type 0 where
  pub user : UserClaims
  pub is_admin : Bool
  pub is_api_owner : Bool
  pub is_auditor : Bool

unfoldable pub get_me : UserClaims → Me
get_me user = record {
  user = user;
  is_admin = has_role user (codes "platform-admin");
  is_api_owner = has_role user (codes "api-owner");
  is_auditor = has_role user (codes "auditor");
}
