-- ===== src/Catalog/Checks.antt =====
-- `_assert_can_modify`, `_assert_valid_public_base` and `_assert_valid_endpoints` of
-- services/portal-backend/routers/catalog.py. `urlparse` is a parameter; it raises `ValueError` on
-- some texts, and nobody catches that. A key that a request's endpoint lacks is an empty text.
pub mod Valid
pub mod Shape
use api_portal.Prelude.{
  Bool, List, Option, Result, Text, [], any, codes, contains, err, false, has, if◌then◌else◌,
  is_empty, none, not, ok, rstrip, some, starts_with, text_eq, true, ◌&&◌, ◌++◌, ◌||◌, ◌∷◌,
}
use api_portal.Errors.{Reply, done, cdp_error, http, cdp_4002, cdp_4003}
use api_portal.Auth.{UserClaims, has_role}
use api_portal.Params.{extract_param_names}
use api_portal.Database.{Api, Endpoint}
use api_portal.Catalog.Patterns.{PatternError, normalize_endpoint_pattern}

-- The parts of `urlparse`'s result that the checks read.
pub record Url : Type 0 where
  pub scheme : Text
  pub netloc : Text
  pub path : Text
  pub fragment : Text

unfoldable pub assert_can_modify : Api → UserClaims → Reply Unit
assert_can_modify row user =
    if has_role user (codes "platform-admin")
    then done tt
    else if not (has_role user (codes "api-owner"))
    then cdp_error cdp_4003
    else if not (text_eq row.owner_sub user.sub)
    then cdp_error cdp_4003
    else done tt

unfoldable pub assert_valid_public_base : Text → Reply Unit
assert_valid_public_base public_path =
    if is_empty public_path || not (starts_with public_path (codes "/"))
    then cdp_error cdp_4002
    else if has b'{' public_path
        || has b'}' public_path
        || has b':' public_path
        || has b'*' public_path
    then cdp_error cdp_4002
    else done tt

abbrev pub is_ok {ℓ κ} : {E : Type κ} {A : Type ℓ} → Result E A → Bool
is_ok (ok _) = true
is_ok (err _) = false

-- The four required fields.
abbrev pub lacks_field : Endpoint → Bool
lacks_field e =
    is_empty e.required_scope
    || is_empty e.http_method
    || is_empty e.path_pattern
    || is_empty e.upstream_url

abbrev pub repeats_base : Text → Text → Bool
repeats_base base pattern =
    not (is_empty base) && (text_eq pattern base || starts_with pattern (base ++ codes "/"))

-- The tests on the pattern.
unfoldable pub check_pattern : Text → Text → Reply Unit
unfolding normalize_endpoint_pattern
check_pattern base pattern =
    if not (starts_with pattern (codes "/"))
    then cdp_error cdp_4002
    else if has b'?' pattern || has b'#' pattern
    then cdp_error cdp_4002
    else if has b'*' pattern
    then cdp_error cdp_4002
    else if repeats_base base pattern
    then cdp_error cdp_4002
    else if not (is_ok (normalize_endpoint_pattern pattern))
    then cdp_error cdp_4002
    else done tt

-- The tests on the URL, given its parts.
unfoldable pub check_url : Text → Option Url → Reply Unit
unfolding extract_param_names
check_url pattern none = http 500
check_url pattern (some url) =
    if is_empty url.scheme || is_empty url.netloc
    then cdp_error cdp_4002
    else if not (is_empty url.fragment)
    then cdp_error cdp_4002
    else if any (λ p. not (contains (extract_param_names pattern) p)) (extract_param_names url.path)
    then cdp_error cdp_4002
    else done tt

-- `denied = …; if denied: return denied`
abbrev pub and_then : Reply Unit → Reply Unit → Reply Unit
and_then (done _) next = next
and_then (cdp_error c) next = cdp_error c
and_then (http n) next = http n

abbrev pub check_fields : Endpoint → Reply Unit
check_fields e = if lacks_field e then cdp_error cdp_4002 else done tt

module _ (urlparse : Text → Option Url) where
  -- One round of the loop, with the base without its last slashes.
  unfoldable pub check_one : Text → Endpoint → Reply Unit
  unfolding check_pattern check_url
  check_one base e = and_then (check_fields e) (
      and_then (check_pattern base e.path_pattern)
        (check_url e.path_pattern (urlparse e.upstream_url)))

  unfoldable pub check_all : Text → List Endpoint → Reply Unit
  unfolding check_one
  check_all base [] = done tt
  check_all base (e ∷ es) = and_then (check_one base e) (check_all base es)

  unfoldable pub assert_valid_endpoints : Text → List Endpoint → Reply Unit
  unfolding check_all
  assert_valid_endpoints public_path = check_all (rstrip b'/' public_path)
