-- ===== src/Database.antt =====
-- The tables of infra/postgres/init/01_ddl.sql that the handlers read and write, as lists of rows,
-- and the statements on `cdp.pat` that several modules send. A column length is not modelled.
-- Identifiers are texts, times are microseconds since the epoch, dates are days since the epoch.
pub mod Pats
use api_portal.Prelude.{Bool, List, Option, Text, false, true, ℕ}

pub data PatStatus : Type 0 where
  active revoked expired inactive : PatStatus

pub data AppStatus : Type 0 where
  pending approved rejected : AppStatus

pub data ApiStatus : Type 0 where
  draft published deprecated retired : ApiStatus

pub record Pat : Type 0 where
  pub token_id : Text
  pub app_id : Text
  pub user_sub : Text
  pub token_name : Text
  pub token_hash : Text
  pub token_hmac : Text
  pub scopes : List Text
  pub status : PatStatus
  pub allowed_cidr : List Text
  pub issued_at : ℕ
  pub expires_at : ℕ
  pub last_used_at : Option ℕ
  pub revoked_at : Option ℕ
  pub revoked_by : Option Text
  pub revoke_reason : Option Text

pub record Quota : Type 0 where
  pub token_id : Text
  pub rate_limit_tps : ℕ
  pub burst : ℕ
  pub daily_quota : ℕ
  pub monthly_quota : ℕ
  pub concurrency : ℕ
  pub updated_by : Option Text

pub record Application : Type 0 where
  pub app_id : Text
  pub api_id : Text
  pub user_sub : Text
  pub user_name : Text
  pub purpose : Text
  pub expected_tps : ℕ
  pub expected_daily : ℕ
  pub valid_until : ℕ
  pub status : AppStatus
  pub requested_scopes : List Text
  pub granted_scopes : List Text
  pub reviewer_sub : Option Text
  pub review_comment : Option Text

pub record Api : Type 0 where
  pub api_id : Text
  pub api_code : Text
  pub name : Text
  pub description : Option Text
  pub owner_dept : Text
  pub owner_sub : Text
  pub public_path : Text
  pub required_roles : List Text
  pub status : ApiStatus

pub record Endpoint : Type 0 where
  pub api_id : Text
  pub required_scope : Text
  pub http_method : Text
  pub path_pattern : Text
  pub upstream_url : Text

pub record AuditRow : Type 0 where
  pub event_type : Text
  pub token_id : Option Text
  pub user_sub : Option Text
  pub request_path : Option Text
  pub status_code : Option ℕ
  pub error_code : Option Text

pub record Db : Type 0 where
  pub pats : List Pat
  pub quotas : List Quota
  pub applications : List Application
  pub apis : List Api
  pub endpoints : List Endpoint
  pub audit_log : List AuditRow

-- `status='ACTIVE'`, `status='REVOKED'`
abbrev pub is_active : PatStatus → Bool
is_active active = true
is_active _ = false

abbrev pub is_revoked : PatStatus → Bool
is_revoked revoked = true
is_revoked _ = false

-- `status='APPROVED'`, `status='PENDING'`
abbrev pub is_approved : AppStatus → Bool
is_approved approved = true
is_approved _ = false

abbrev pub is_pending : AppStatus → Bool
is_pending pending = true
is_pending _ = false

-- `status='PUBLISHED'`
abbrev pub is_published : ApiStatus → Bool
is_published published = true
is_published _ = false
