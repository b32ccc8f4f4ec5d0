-- ===== src/Catalog/Checks/Shape.antt =====
-- What `_assert_valid_endpoints` of services/portal-backend/routers/catalog.py lets pass, said of the
-- texts themselves.
use api_portal.Prelude.{
  Bool-cases, List, Option, Text, [], all, arith, codes, contains, false, has, inl, inr, is_empty,
  length, not, refl, rstrip, some, starts_with, starts_with-append, starts_with→append, text_eq,
  text_eq_iff, true, ℕ, ◌++◌, ◌||◌, ◌∷◌, ◌≡◌, ◌≢◌, ◌⊎◌,
}
use api_portal.Errors.{done}
use api_portal.Params.{extract_param_names, pieces, collapse}
use api_portal.Database.{Endpoint}
use api_portal.Catalog.Patterns.{has_double, normalize_endpoint_pattern}
use api_portal.Catalog.Patterns.Duplicates.{keys}
use api_portal.Catalog.Checks.{Url, is_ok, repeats_base, assert_valid_endpoints}
use api_portal.Catalog.Checks.Valid.{
  IsPattern, IsEndpoint, AreEndpoints, assert_valid_endpoints_lem,
}

-- A text that stands somewhere in another one.
abbrev pub Occurs : Text → Text → Type 0
Occurs t s = (p : Text) × (q : Text) × (s ≡ p ++ (t ++ q))

-- A pattern: it begins with a slash, has no query, fragment or wildcard, has no two slashes behind
-- one another once its parameters are replaced, and is not the base or something below the base.
pub record IsRelative (base pattern : Text) : Type 0 where
  pub slash : (rest : Text) × (pattern ≡ b'/' ∷ rest)
  pub no_query : ¬ Occurs (codes "?") pattern
  pub no_fragment : ¬ Occurs (codes "#") pattern
  pub no_wildcard : ¬ Occurs (codes "*") pattern
  pub single_slashes : ¬ Occurs (codes "//") (collapse (pieces pattern))
  pub below :
      (base ≡ [])
      ⊎ ((pattern ≢ base) × (¬ ((rest : Text) × (pattern ≡ (base ++ codes "/") ++ rest))))

-- An endpoint: its texts, and the URL that its upstream is read as.
pub record IsShaped (urlparse : Text → Option Url) (base : Text) (e : Endpoint) : Type 0 where
  pub scope : e.required_scope ≢ []
  pub method : e.http_method ≢ []
  pub upstream : e.upstream_url ≢ []
  pub pattern : IsRelative base e.path_pattern
  pub url :
      (url : Url) × (urlparse e.upstream_url ≡ some url)
      × (url.scheme ≢ [])
      × (url.netloc ≢ [])
      × (url.fragment ≡ [])
      × (all (contains (extract_param_names e.path_pattern)) (extract_param_names url.path) ≡ true)

abbrev pub AreShaped : (Text → Option Url) → Text → List Endpoint → Type 0
AreShaped urlparse base [] = Unit {0}
AreShaped urlparse base (e ∷ es) = IsShaped urlparse base e × AreShaped urlparse base es

has-Occurs : (c : ℕ) (p q : Text) → has c (p ++ c ∷ q) ≡ true
unfolding has
has-Occurs c [] q = ground arith
has-Occurs c (x ∷ p) q = ground (arith, has-Occurs c p q)

has_double-Occurs : (c : ℕ) (p q : Text) → has_double c (p ++ c ∷ c ∷ q) ≡ true
unfolding has_double
has_double-Occurs c [] q = ground arith
has_double-Occurs c (x ∷ []) q = ground (arith, has_double-Occurs c [] q)
has_double-Occurs c (x ∷ y ∷ p) q = ground (arith, has_double-Occurs c (y ∷ p) q)

not_in : (c : ℕ) (s : Text) → has c s ≡ false → ¬ Occurs (c ∷ []) s
not_in c s h (p, q, e) =
    let wrong : has c (p ++ c ∷ q) ≡ false = rw e at h in cc (wrong, has-Occurs c p q)

not_empty : (s : Text) → is_empty s ≡ false → s ≢ []
not_empty [] h e = cc h
not_empty (c ∷ s) h e = cc e

empty_text : (s : Text) → is_empty s ≡ true → s ≡ []
empty_text [] h = refl
empty_text (c ∷ s) h = absurd (cc h)

normalized-has_double :
    (pattern : Text)
    → is_ok (normalize_endpoint_pattern pattern) ≡ true
    → has_double b'/' (collapse (pieces pattern)) ≡ false
unfolding normalize_endpoint_pattern
normalized-has_double pattern h =
    elim (Bool-cases (is_empty pattern || not (starts_with pattern (codes "/")))) [
      | inl e ↦ let wrong : false ≡ true = rw e at h in absurd (cc wrong)
      | inr e ↦ elim (Bool-cases (has_double b'/' (collapse (pieces pattern)))) [
        | inr f ↦ f
        | inl f ↦ let wrong : false ≡ true = rw (e, f) at h in absurd (cc wrong)
      ]
    ]

single : (s : Text) → has_double b'/' s ≡ false → ¬ Occurs (codes "//") s
single s h (p, q, e) =
    let wrong : has_double b'/' (p ++ b'/' ∷ b'/' ∷ q) ≡ false = rw e at h in
    cc (wrong, has_double-Occurs b'/' p q)

below_base :
    (base pattern : Text)
    → repeats_base base pattern ≡ false
    → (base ≡ [])
      ⊎ ((pattern ≢ base) × (¬ ((rest : Text) × (pattern ≡ (base ++ codes "/") ++ rest))))
below_base base pattern h = elim (Bool-cases (is_empty base)) [
  | inl e ↦ inl (empty_text base e)
  | inr e ↦
      let other : text_eq pattern base ≡ false = ground (arith, e, h) in
      let apart : starts_with pattern (base ++ codes "/") ≡ false = ground (arith, e, h) in
      inr (
        λ same. cc ((text_eq_iff pattern base).1 same, other),
        λ (rest, same).
            let wrong : starts_with ((base ++ codes "/") ++ rest) (base ++ codes "/") ≡ false =
              rw same at apart in
            cc (wrong, starts_with-append (base ++ codes "/") rest),
      )
]

IsPattern→IsRelative : (base pattern : Text) → IsPattern base pattern → IsRelative base pattern
IsPattern→IsRelative base pattern h = record {
  slash = starts_with→append pattern (codes "/") h.slash;
  no_query = not_in b'?' pattern (ground (arith, h.plain));
  no_fragment = not_in b'#' pattern (ground (arith, h.plain));
  no_wildcard = not_in b'*' pattern h.no_wildcard;
  single_slashes = single (collapse (pieces pattern)) (normalized-has_double pattern h.normalizes);
  below = below_base base pattern h.relative;
}

module _ (urlparse : Text → Option Url) where
  IsEndpoint→IsShaped :
      (base : Text) (e : Endpoint) → IsEndpoint urlparse base e → IsShaped urlparse base e
  IsEndpoint→IsShaped base e h =
      let (url, parsed, u) = h.upstream in
      record {
        scope = not_empty e.required_scope (ground (arith, h.fields));
        method = not_empty e.http_method (ground (arith, h.fields));
        upstream = not_empty e.upstream_url (ground (arith, h.fields));
        pattern = IsPattern→IsRelative base e.path_pattern h.pattern;
        url = (
          url,
          parsed,
          not_empty url.scheme (ground (arith, u.absolute)),
          not_empty url.netloc (ground (arith, u.absolute)),
          empty_text url.fragment u.no_fragment,
          u.declared,
        );
      }

  AreEndpoints→AreShaped :
      (base : Text) (es : List Endpoint)
      → AreEndpoints urlparse base es
      → AreShaped urlparse base es
  AreEndpoints→AreShaped base [] h = tt
  AreEndpoints→AreShaped base (e ∷ es) (one, rest) =
      (IsEndpoint→IsShaped base e one, AreEndpoints→AreShaped base es rest)

  -- Where the check passes, every endpoint has a scope, a method and an upstream; its pattern begins
  -- with a slash, has no query, fragment, wildcard or, with the parameters replaced, double slash,
  -- and does not repeat the base; its upstream is an absolute URL without a fragment whose
  -- parameters are parameters of the pattern; and every endpoint has a key.
  pub assert_valid_endpoints-AreShaped :
      (public_path : Text) (es : List Endpoint)
      → assert_valid_endpoints urlparse public_path es ≡ done tt
      → AreShaped urlparse (rstrip b'/' public_path) es × (length (keys es) ≡ length es)
  assert_valid_endpoints-AreShaped public_path es h =
      let (valid, counted) = assert_valid_endpoints_lem urlparse public_path es h in
      (AreEndpoints→AreShaped (rstrip b'/' public_path) es valid, counted)
