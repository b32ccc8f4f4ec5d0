-- ===== src/Catalog/Checks/Valid.antt =====
-- What the checks of the catalog establish of the endpoints that pass.
use api_portal.Prelude.{
  Bool, Bool-cases, List, Option, Result, Text, [], all, any, ap, arith, codes, contains, err,
  false, has, inl, inr, is_empty, length, none, not, ok, refl, rstrip, some, starts_with, suc, true,
  ◌||◌, ◌∙◌, ◌∷◌, ◌≡◌,
}
use api_portal.Errors.{Reply, done, cdp_error, http, cdp_4002}
use api_portal.Params.{extract_param_names}
use api_portal.Database.{Endpoint}
use api_portal.Catalog.Patterns.{
  PatternError, with_method, normalize_endpoint_pattern, endpoint_key,
}
use api_portal.Internal.UserEvent.{upper}
use api_portal.Catalog.Patterns.Duplicates.{keys, add_key}
use api_portal.Catalog.Checks.{
  Url, is_ok, repeats_base, lacks_field, check_fields, check_pattern, check_url, and_then,
  check_one, check_all, assert_valid_endpoints,
}

-- A pattern that the catalog takes, below a base.
pub record IsPattern (base pattern : Text) : Type 0 where
  pub slash : starts_with pattern (codes "/") ≡ true
  pub plain : (has b'?' pattern || has b'#' pattern) ≡ false
  pub no_wildcard : has b'*' pattern ≡ false
  pub relative : repeats_base base pattern ≡ false
  pub normalizes : is_ok (normalize_endpoint_pattern pattern) ≡ true

-- An absolute URL whose parameters are parameters of the pattern.
pub record IsUpstream (pattern : Text) (url : Url) : Type 0 where
  pub absolute : (is_empty url.scheme || is_empty url.netloc) ≡ false
  pub no_fragment : is_empty url.fragment ≡ true
  pub declared : all (contains (extract_param_names pattern)) (extract_param_names url.path) ≡ true

pub and_then-done : (r s : Reply Unit) → and_then r s ≡ done tt → (r ≡ done tt) × (s ≡ done tt)
and_then-done (done tt) s h = (refl, h)
and_then-done (cdp_error c) s h = absurd (cc h)
and_then-done (http n) s h = absurd (cc h)

not-any : (p : Text → Bool) (xs : List Text) → any (λ x. not (p x)) xs ≡ false → all p xs ≡ true
not-any p [] h = refl
not-any p (x ∷ xs) h = ground (arith, not-any p xs)

check_pattern-IsPattern :
    (base pattern : Text) → check_pattern base pattern ≡ done tt → IsPattern base pattern
unfolding check_pattern
check_pattern-IsPattern base pattern h = record {
  slash = ground arith;
  plain = ground arith;
  no_wildcard = ground arith;
  relative = ground arith;
  normalizes = ground arith;
}

check_url-IsUpstream :
    (pattern : Text) (url : Url) → check_url pattern (some url) ≡ done tt → IsUpstream pattern url
unfolding check_url
check_url-IsUpstream pattern url h = record {
  absolute = ground arith;
  no_fragment = ground arith;
  declared =
      not-any (contains (extract_param_names pattern)) (extract_param_names url.path)
        (ground arith);
}

module _ (urlparse : Text → Option Url) where
  -- An endpoint that the catalog takes, below a base.
  pub record IsEndpoint (base : Text) (e : Endpoint) : Type 0 where
    pub fields : lacks_field e ≡ false
    pub pattern : IsPattern base e.path_pattern
    pub upstream :
        (url : Url) × (urlparse e.upstream_url ≡ some url) × IsUpstream e.path_pattern url

  abbrev pub AreEndpoints : Text → List Endpoint → Type 0
  AreEndpoints base [] = Unit {0}
  AreEndpoints base (e ∷ es) = IsEndpoint base e × AreEndpoints base es

  check_fields-done : (e : Endpoint) → check_fields e ≡ done tt → lacks_field e ≡ false
  check_fields-done e h = elim (Bool-cases (lacks_field e)) [
    | inr f ↦ f
    | inl f ↦ let wrong : cdp_error cdp_4002 ≡ done tt = rw f at h in absurd (cc wrong)
  ]

  check_one-IsEndpoint :
      (base : Text) (e : Endpoint) (parsed : Option Url)
      → urlparse e.upstream_url ≡ parsed
      → and_then
          (check_fields e)
          (and_then (check_pattern base e.path_pattern) (check_url e.path_pattern parsed))
        ≡ done tt
      → IsEndpoint base e
  unfolding check_url
  check_one-IsEndpoint base e none f h =
      let (_, rest) = and_then-done (check_fields e) _ h in
      let (_, wrong) = and_then-done (check_pattern base e.path_pattern) (http 500) rest in
      absurd (cc wrong)
  check_one-IsEndpoint base e (some url) f h =
      let (a, rest) = and_then-done (check_fields e) _ h in
      let (b, c) =
        and_then-done (check_pattern base e.path_pattern) (check_url e.path_pattern (some url))
          rest in
      record {
        fields = check_fields-done e a;
        pattern = check_pattern-IsPattern base e.path_pattern b;
        upstream = (url, f, check_url-IsUpstream e.path_pattern url c);
      }

  check_all-AreEndpoints :
      (base : Text) (es : List Endpoint)
      → check_all urlparse base es ≡ done tt
      → AreEndpoints base es
  unfolding check_all check_one
  check_all-AreEndpoints base [] h = tt
  check_all-AreEndpoints base (e ∷ es) h =
      let (one, rest) = and_then-done (check_one urlparse base e) (check_all urlparse base es) h in
      (
        check_one-IsEndpoint base e (urlparse e.upstream_url) refl one,
        check_all-AreEndpoints base es rest,
      )

  key-length :
      (method : Text) (r : Result PatternError Text) (ks : List (Text × Text))
      → is_ok r ≡ true
      → length (add_key (with_method method r) ks) ≡ suc (length ks)
  key-length method (ok p) ks h = refl
  key-length method (err e) ks h = cc

  length-keys :
      (base : Text) (es : List Endpoint) → AreEndpoints base es → length (keys es) ≡ length es
  unfolding endpoint_key
  length-keys base [] h = refl
  length-keys base (e ∷ es) (one, rest) =
      key-length (upper e.http_method) (normalize_endpoint_pattern e.path_pattern) (keys es)
        one.pattern.normalizes
      ∙ ap suc (length-keys base es rest)

  -- Where the check passes, every endpoint has its fields, a relative pattern without query,
  -- fragment, wildcard or double slash that does not repeat the base, and an absolute URL whose
  -- parameters the pattern declares; and every endpoint has a key.
  pub assert_valid_endpoints_lem :
      (public_path : Text) (es : List Endpoint)
      → assert_valid_endpoints urlparse public_path es ≡ done tt
      → AreEndpoints (rstrip b'/' public_path) es × (length (keys es) ≡ length es)
  unfolding assert_valid_endpoints
  assert_valid_endpoints_lem public_path es h =
      let valid = check_all-AreEndpoints (rstrip b'/' public_path) es h in
      (valid, length-keys (rstrip b'/' public_path) es valid)
