-- ===== src/Config.antt =====
-- services/portal-backend/config.py: the settings that the modelled code reads. Their values come
-- from the environment, so every function that reads one takes the record.
use api_portal.Prelude.{Text, [], codes, ℕ}

pub record Settings : Type 0 where
  pub redis_host : Text
  pub redis_port : ℕ
  pub redis_password : Text
  pub server_key : Text
  pub kc_url : Text
  pub kc_realm : Text
  pub kc_client_id : Text
  pub kc_client_secret : Text
  pub txs_url : Text
  pub portal_backend_internal_url : Text
  pub internal_api_key : Text
  pub pat_max_per_app : ℕ
  pub pat_max_per_user : ℕ
  pub pat_max_days : ℕ
  pub default_rate_limit_tps : ℕ
  pub default_burst : ℕ
  pub default_daily_quota : ℕ
  pub default_monthly_quota : ℕ

-- The defaults.
abbrev pub settings : Settings
settings = record {
  redis_host = codes "redis";
  redis_port = 6379;
  redis_password = codes "changeme123";
  server_key = codes "5f3b8a2c1d9e4f7a6b0c5d2e8f1a3b4c";
  kc_url = codes "http://mock-keycloak:8180";
  kc_realm = codes "hd";
  kc_client_id = codes "citizen-gw-exchanger";
  kc_client_secret = codes "exchanger-secret-xyz";
  txs_url = codes "http://token-exchange-service:8081";
  portal_backend_internal_url = codes "http://portal-backend:8080";
  internal_api_key = [];
  pat_max_per_app = 3;
  pat_max_per_user = 10;
  pat_max_days = 90;
  default_rate_limit_tps = 10;
  default_burst = 20;
  default_daily_quota = 5000;
  default_monthly_quota = 100000;
}
