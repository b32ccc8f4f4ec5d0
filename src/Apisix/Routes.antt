-- ===== src/Apisix/Routes.antt =====
-- `endpoint_route_id`, `legacy_api_route_id`, `_common_redis` and `build_endpoint_route` of
-- services/portal-backend/apisix_client.py: the JSON of a route as a record. `md5`, `re.escape`,
-- `str` of a number and `urlparse` are parameters.
pub mod Buildable
use api_portal.Prelude.{
  List, Option, Result, Text, [], any, codes, contains, err, if◌then◌else◌, is_empty, none, not, ok,
  set_update, some, take, ℕ, ◌++◌, ◌||◌, ◌∷◌,
}
use api_portal.Config.{Settings}
use api_portal.Params.{extract_param_names}
use api_portal.Internal.UserEvent.{upper, lower}
use api_portal.Database.{Endpoint}
use api_portal.Catalog.Checks.{Url}
use api_portal.Apisix.Paths.{
  Uri, slug, version_of, normalize_public_path, path_to_apisix_uri, path_to_regex_with_groups,
  upstream_path_replacement, single, wildcard,
}

pub record Tools : Type 0 where
  pub md5_hex : Text → Text
  pub escape : Text → Text
  pub str : ℕ → Text
  pub urlparse : Text → Option Url

pub record CommonRedis : Type 0 where
  pub redis_host : Text
  pub redis_port : ℕ
  pub redis_password : Text

-- `{"uri": …}` or `{"regex_uri": [source, replacement]}`.
pub data ProxyRewrite : Type 0 where
  uri : Text → ProxyRewrite
  regex_uri : Text → Text → ProxyRewrite

-- The one entry of `required_scope_map`.
pub record ScopeRule : Type 0 where
  pub method : Text
  pub pattern : Text
  pub scope : Text

pub record PatAuth : Type 0 where
  pub redis : CommonRedis
  pub server_key : Text
  pub portal_backend_url : Text
  pub internal_api_key : Text
  pub neg_cache_ttl : ℕ
  pub required_scope_map : ScopeRule

pub record PatTokenExchange : Type 0 where
  pub redis : CommonRedis
  pub txs_url : Text
  pub internal_api_key : Text

pub record PatAudit : Type 0 where
  pub redis : CommonRedis
  pub portal_backend_url : Text
  pub internal_api_key : Text
  pub audit_batch_size : ℕ
  pub audit_flush_interval_s : ℕ

-- `cors` has no settings.
pub record Plugins : Type 0 where
  pub pat_auth : PatAuth
  pub pat_quota : CommonRedis
  pub pat_token_exchange : PatTokenExchange
  pub proxy_rewrite : ProxyRewrite
  pub pat_audit : PatAudit

-- `nodes` has one entry of weight 1; the timeouts are those of connect, send and read.
pub record Upstream : Type 0 where
  pub scheme : Text
  pub node : Text
  pub timeout : ℕ × ℕ × ℕ
  pub retries : ℕ

-- `uri` and `uris`, and the regular expression of `vars`, which only wildcard routes have.
pub record Route : Type 0 where
  pub methods : List Text
  pub status : ℕ
  pub priority : ℕ
  pub upstream : Upstream
  pub plugins : Plugins
  pub uri : Uri
  pub vars : Option Text

-- The two messages of `ValueError`, and that of `urlparse`.
pub data RouteError : Type 0 where
  relative_upstream undeclared_param bad_upstream : RouteError

-- `parsed.path or "/"`
abbrev pub path_or_root : Text → Text
path_or_root path = if is_empty path then codes "/" else path

module _ (T : Tools) where
  open T use {md5_hex, escape, str, urlparse}

  unfoldable pub endpoint_route_id : Text → Text → Text → Text
  unfolding slug version_of upper lower
  endpoint_route_id api_code method path =
      let h = take 4 (md5_hex (upper method ++ b'|' ∷ path)) in
      codes "capi-"
      ++ (slug api_code ++ (b'-' ∷ version_of path ++ (b'-' ∷ lower method ++ b'-' ∷ h)))

  unfoldable pub legacy_api_route_id : Text → Text → Text
  unfolding slug version_of
  legacy_api_route_id api_code public_path =
      codes "capi-" ++ (slug api_code ++ b'-' ∷ version_of public_path)

  module _ (S : Settings) where
    abbrev pub common_redis : CommonRedis
    common_redis = record {
      redis_host = S.redis_host;
      redis_port = S.redis_port;
      redis_password = S.redis_password;
    }

    abbrev vars_of : Uri → Text → Option Text
    vars_of (single _) source_regex = none
    vars_of (wildcard _) source_regex = some source_regex

    -- The record behind the checks.
    unfoldable pub route_of : Endpoint → Text → Url → Text × List Text → ProxyRewrite → Route
    unfolding path_to_apisix_uri upper
    route_of endpoint path url (source_regex, groups) rewrite =
        let method = upper endpoint.http_method in
        let matched = path_to_apisix_uri path in
        record {
          methods = set_update (method ∷ codes "OPTIONS" ∷ []) [];
          status = 1;
          priority = if is_empty groups then 200 else 100;
          upstream = record {
            scheme = url.scheme;
            node = url.netloc;
            timeout = (3, 30, 30);
            retries = 1;
          };
          plugins = record {
            pat_auth = record {
              redis = common_redis;
              server_key = S.server_key;
              portal_backend_url = S.portal_backend_internal_url;
              internal_api_key = S.internal_api_key;
              neg_cache_ttl = 30;
              required_scope_map = record {
                method = method;
                pattern = source_regex;
                scope = endpoint.required_scope;
              };
            };
            pat_quota = common_redis;
            pat_token_exchange = record {
              redis = common_redis;
              txs_url = S.txs_url;
              internal_api_key = S.internal_api_key;
            };
            proxy_rewrite = rewrite;
            pat_audit = record {
              redis = common_redis;
              portal_backend_url = S.portal_backend_internal_url;
              internal_api_key = S.internal_api_key;
              audit_batch_size = 100;
              audit_flush_interval_s = 5;
            };
          };
          uri = matched;
          vars = vars_of matched source_regex;
        }

    abbrev with_rewrite : (ProxyRewrite → Route) → Option ProxyRewrite → Result RouteError Route
    with_rewrite make none = err undeclared_param
    with_rewrite make (some rewrite) = ok (make rewrite)

    abbrev regex_uri_of : Text → Option Text → Option ProxyRewrite
    regex_uri_of source none = none
    regex_uri_of source (some replacement) = some (regex_uri source replacement)

    -- The checks behind `urlparse`, and the two forms of the rewrite.
    unfoldable pub build_for : Endpoint → Text → Option Url → Result RouteError Route
    unfolding path_to_regex_with_groups extract_param_names upstream_path_replacement route_of
    build_for endpoint path none = err bad_upstream
    build_for endpoint path (some url) =
        let upstream_path = path_or_root url.path in
        let regex = path_to_regex_with_groups escape path in
        let upstream_groups = extract_param_names upstream_path in
        let rewritten = upstream_path_replacement str upstream_path regex.1 in
        let make = route_of endpoint path url regex in
        if is_empty url.scheme || is_empty url.netloc
        then err relative_upstream
        else if any (λ g. not (contains regex.1 g)) upstream_groups
        then err undeclared_param
        else if is_empty upstream_groups
        then ok (make (uri upstream_path))
        else with_rewrite make (regex_uri_of regex.0 rewritten)

    unfoldable pub build_endpoint_route : Text → Endpoint → Result RouteError Route
    unfolding build_for normalize_public_path
    build_endpoint_route public_path endpoint =
        build_for endpoint (normalize_public_path public_path endpoint.path_pattern)
          (urlparse endpoint.upstream_url)
