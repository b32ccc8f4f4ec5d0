-- ===== src/Apisix/Routes/Buildable.antt =====
-- What the checks of services/portal-backend/routers/catalog.py promise to
-- `build_endpoint_route` of apisix_client.py.
use api_portal.Prelude.{
  ==_iff, Bool, Bool-cases, List, Option, Option-cases, Result, Text, [], all, any, ap, arith,
  codes, contains, false, has, if_both, inl, inr, is_empty, lstrip, none, not, ok, refl, rstrip,
  some, suc, sym, text_eq, text_eq_iff, true, ℕ, ◌&&◌, ◌++◌, ◌==◌, ◌||◌, ◌∙◌, ◌∷◌, ◌≡◌,
}
use api_portal.Errors.{done}
use api_portal.Config.{Settings}
use api_portal.Params.{
  Piece, literal, param, pieces, pieces_at, match_param, names_of, extract_param_names,
}
use api_portal.Database.{Endpoint}
use api_portal.Catalog.Checks.{Url, is_ok, assert_valid_public_base, assert_valid_endpoints}
use api_portal.Catalog.Checks.Valid.{IsEndpoint, AreEndpoints, assert_valid_endpoints_lem}
use api_portal.Apisix.Paths.{
  normalize_public_path, path_to_regex_with_groups, index_from, put_before, replace_pieces,
  upstream_path_replacement,
}
use api_portal.Apisix.Routes.{
  Tools, Route, RouteError, path_or_root, build_for, build_endpoint_route,
}

-- A text that no parameter starts in.
abbrev pub IsLiteral : Text → Type 0
IsLiteral s = (has b'{' s ≡ false) × (has b':' s ≡ false)

names_literal :
    (c : ℕ) (s : Text)
    → (c == b'{') ≡ false
    → (c == b':') ≡ false
    → names_of (pieces (c ∷ s)) ≡ names_of (pieces s)
unfolding pieces pieces_at match_param names_of
names_literal c s h k = rw h (rw k refl)

names_behind :
    (base s : Text) → IsLiteral base → names_of (pieces (base ++ s)) ≡ names_of (pieces s)
unfolding has
names_behind [] s (h, k) = refl
names_behind (c ∷ base) s (h, k) =
    names_literal c (base ++ s) (ground arith) (ground arith)
    ∙ names_behind base s (ground arith, ground arith)

names_lstrip : (s : Text) → names_of (pieces (lstrip b'/' s)) ≡ names_of (pieces s)
unfolding lstrip
names_lstrip [] = refl
names_lstrip (c ∷ s) = elim (Bool-cases (c == b'/')) [
  | inr e ↦ rw e refl
  | inl e ↦ rw e (
      names_lstrip s
      ∙ sym (names_literal c s (ground (arith, ==_iff c b'/')) (ground (arith, ==_iff c b'/'))))
]

rstrip-IsLiteral : (s : Text) → IsLiteral s → IsLiteral (rstrip b'/' s)
unfolding has rstrip
rstrip-IsLiteral [] h = h
rstrip-IsLiteral (c ∷ s) (h, k) =
    let (a, b) = rstrip-IsLiteral s (ground arith, ground arith) in
    if_both IsLiteral (c == b'/' && is_empty (rstrip b'/' s)) [] (c ∷ rstrip b'/' s) (refl, refl)
      (ground arith, ground arith)

names_none : (s : Text) → IsLiteral s → names_of (pieces s) ≡ []
unfolding has names_of pieces
names_none [] h = refl
names_none (c ∷ s) (h, k) =
    names_literal c s (ground arith) (ground arith) ∙ names_none s (ground arith, ground arith)

-- The parameters of the final path are those of the pattern.
names-normalize :
    (base pattern : Text)
    → IsLiteral base
    → names_of (pieces (normalize_public_path base pattern)) ≡ names_of (pieces pattern)
unfolding normalize_public_path names_of pieces
names-normalize base [] h = names_none (rstrip b'/' base) (rstrip-IsLiteral base h)
names-normalize base (c ∷ pattern) h =
    let r = rstrip-IsLiteral base h in
    elim (Bool-cases (text_eq (c ∷ pattern) (codes "/"))) [
      | inl e ↦ rw e (
          names_none (rstrip b'/' base) r
          ∙ sym (
              ap (λ (t : Text). names_of (pieces t)) ((text_eq_iff (c ∷ pattern) (codes "/")).0 e)))
      | inr e ↦ rw e (
          names_behind (rstrip b'/' base) (b'/' ∷ lstrip b'/' (c ∷ pattern)) r
          ∙ names_literal b'/' (lstrip b'/' (c ∷ pattern)) refl refl
          ∙ names_lstrip (c ∷ pattern))
    ]

contains-index_from :
    (i : ℕ) (groups : List Text) (name : Text)
    → contains groups name ≡ true
    → (k : ℕ) × (index_from i groups name ≡ some k)
unfolding contains index_from
contains-index_from i [] name h = absurd (cc h)
contains-index_from i (g ∷ groups) name h = elim (Option-cases (index_from (suc i) groups name)) [
  | inr (k, e) ↦ (k, rw e refl)
  | inl e ↦ elim (Bool-cases (text_eq g name)) [
    | inl f ↦ (suc i, rw e (rw f refl))
    | inr f ↦
        let (k, g') = contains-index_from (suc i) groups name (ground arith) in absurd (cc (e, g'))
  ]
]

put_before-some :
    (s : Text) (o : Option Text)
    → ((t : Text) × (o ≡ some t))
    → (t : Text) × (put_before (some s) o ≡ some t)
put_before-some s none (t, e) = absurd (cc e)
put_before-some s (some r) h = (s ++ r, refl)

-- Where every parameter is declared, each has its group.
replace_pieces-some :
    (str : ℕ → Text) (groups : List Text) (ps : List Piece)
    → any (λ g. not (contains groups g)) (names_of ps) ≡ false
    → (t : Text) × (replace_pieces str groups ps ≡ some t)
unfolding replace_pieces names_of
replace_pieces-some str groups [] h = ([], refl)
replace_pieces-some str groups (literal c ∷ ps) h =
    put_before-some (c ∷ []) (replace_pieces str groups ps) (replace_pieces-some str groups ps h)
replace_pieces-some str groups (param name ∷ ps) h =
    let (k, e) = contains-index_from 0 groups name (ground arith) in
    let rest = replace_pieces-some str groups ps (ground arith) in
    rw e (put_before-some (b'$' ∷ str k) (replace_pieces str groups ps) rest)

any-all : (p : Text → Bool) (xs : List Text) → all p xs ≡ true → any (λ x. not (p x)) xs ≡ false
any-all p [] h = refl
any-all p (x ∷ xs) h = ground (arith, any-all p xs)

pub base-IsLiteral : (base : Text) → assert_valid_public_base base ≡ done tt → IsLiteral base
unfolding assert_valid_public_base
base-IsLiteral base h = (ground arith, ground arith)

root-declared :
    (groups : List Text) (path : Text)
    → all (contains groups) (extract_param_names path) ≡ true
    → any (λ g. not (contains groups g)) (names_of (pieces (path_or_root path))) ≡ false
unfolding extract_param_names names_of pieces
root-declared groups [] h = refl
root-declared groups (c ∷ path) h = any-all (contains groups) (extract_param_names (c ∷ path)) h

module _ (T : Tools) (S : Settings) where
  build_for-ok :
      (e : Endpoint) (path : Text) (url : Url)
      → (is_empty url.scheme || is_empty url.netloc) ≡ false
      → any
          (λ g. not (contains (names_of (pieces path)) g))
          (names_of (pieces (path_or_root url.path)))
        ≡ false
      → is_ok (build_for T S e path (some url)) ≡ true
  unfolding build_for extract_param_names path_to_regex_with_groups upstream_path_replacement
  build_for-ok e path url h k =
      let (t, f) =
        replace_pieces-some T.str (names_of (pieces path)) (pieces (path_or_root url.path)) k in
      rw h (
        rw k (
          rw f (
            if_both (λ (r : Result RouteError Route). is_ok r ≡ true)
              (is_empty (names_of (pieces (path_or_root url.path)))) (ok _) (ok _) refl refl)))

  build_endpoint_route-ok :
      (base below : Text) (e : Endpoint)
      → IsLiteral base
      → IsEndpoint T.urlparse below e
      → is_ok (build_endpoint_route T S base e) ≡ true
  unfolding build_endpoint_route extract_param_names
  build_endpoint_route-ok base below e h valid =
      let (url, parsed, upstream) = valid.upstream in
      rw parsed (
        build_for-ok e (normalize_public_path base e.path_pattern) url upstream.absolute (
          rw (names-normalize base e.path_pattern h)
            (root-declared (names_of (pieces e.path_pattern)) url.path upstream.declared)))

  pub all-ok :
      (base below : Text) (es : List Endpoint)
      → IsLiteral base
      → AreEndpoints T.urlparse below es
      → all (λ e. is_ok (build_endpoint_route T S base e)) es ≡ true
  all-ok base below [] h valid = refl
  all-ok base below (e ∷ es) h (one, rest) =
      rw (build_endpoint_route-ok base below e h one) (all-ok base below es h rest)

  -- For a Public Base and endpoints that pass the checks of the catalog, `build_endpoint_route`
  -- raises none of its errors: every endpoint has a route.
  pub build_endpoint_route_total :
      (base : Text) (es : List Endpoint)
      → assert_valid_public_base base ≡ done tt
      → assert_valid_endpoints T.urlparse base es ≡ done tt
      → all (λ e. is_ok (build_endpoint_route T S base e)) es ≡ true
  build_endpoint_route_total base es h k =
      all-ok base (rstrip b'/' base) es (base-IsLiteral base h)
        (assert_valid_endpoints_lem T.urlparse base es k).0
