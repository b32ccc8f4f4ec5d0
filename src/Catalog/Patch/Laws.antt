-- ===== src/Catalog/Patch/Laws.antt =====
-- What `patch_api` and `delete_api` promise.
use api_portal.Prelude.{
  Bool, Bool-cases, List, Option, Text, and-true, ap, false, if◌then◌else◌, inl, inr, is_empty,
  none, not, refl, rstrip, some, true, ◌&&◌, ◌≡◌, ◌⊎◌,
}
use api_portal.Errors.{Reply, done, cdp_error, http}
use api_portal.Auth.{UserClaims}
use api_portal.Redis.{Redis}
use api_portal.Redis.Client.Effects.{Shrinks, Shrinks-refl, invalidate_jwt_cache-Shrinks}
use api_portal.Database.{Db, Api, Endpoint, ApiStatus, is_published, draft}
use api_portal.Portal.{Portal}
use api_portal.Catalog.Patterns.Duplicates.{keys, are_distinct}
use api_portal.Catalog.Checks.{Url, assert_can_modify, assert_valid_endpoints}
use api_portal.Catalog.Checks.Valid.{AreEndpoints, assert_valid_endpoints_lem, and_then-done}
use api_portal.Catalog.Publish.{
  Gateway, ApiPatchRequest, Saved, Site, or_old, no_duplicates, find_api, publish, tokens_for_api,
}
use api_portal.Catalog.Publish.Laws.{refuse_cases, no_duplicates-done}
use api_portal.Catalog.Patch.{
  route_relevant_changed, rows_at, replace_rows, check_base, check_endpoints, patch_checks,
  republish, drop_old, sync_routes, flush, path_taken, apply_patch, patch_found, patch_api,
}

pair_eq : {A : Type 0} (r : Bool × A) → r.0 ≡ true → r ≡ (true, r.1)
pair_eq (b, a) h = ap (λ x. (x, a)) h

final_published :
    (served : Bool) (requested : ApiStatus)
    → is_published (if not served && is_published requested then draft else requested) ≡ true
    → (served ≡ true) × (is_published requested ≡ true)
final_published true requested h = (refl, h)
final_published false requested h = elim (Bool-cases (is_published requested)) [
  | inl e ↦ let wrong : false ≡ true = rw e at h in absurd (cc wrong)
  | inr e ↦ let wrong : is_published requested ≡ true = rw e at h in absurd (cc (wrong, e))
]

module _ (R : Redis) (G : Gateway) (urlparse : Text → Option Url) where
  open G use {Routes}

  -- The routes of the rows were registered, and the smoke test passed.
  abbrev Served : Text → Text → List Endpoint → Routes → Type 0
  Served code path es after = (g : Routes) × (publish R G urlparse code path es g ≡ (true, after))

  -- The endpoints of a request that has any passed the checks.
  abbrev pub Checked : Text → Option (List Endpoint) → Type 0
  Checked path none = Unit {0}
  Checked path (some es) =
      AreEndpoints urlparse (rstrip b'/' path) es × (are_distinct (keys es) ≡ true)

  pub record Patched (api_id : Text) (req : ApiPatchRequest) (user : UserClaims)
      (site : Site R G urlparse) (saved : Saved) (after : Site R G urlparse) (row : Api)
      : Type 0 where
    pub found : find_api api_id site.0.db.apis ≡ some row
    pub allowed : assert_can_modify row user ≡ done tt
    pub checked : Checked (or_old req.public_path row.public_path) req.endpoints
    pub rows : after.0.db.endpoints ≡ replace_rows api_id req.endpoints site.0.db.endpoints
    pub served :
        ((route_relevant_changed req row && is_published saved.status) ≡ false)
        ⊎ Served row.api_code
            (or_old req.public_path row.public_path)
            (rows_at api_id (replace_rows api_id req.endpoints site.0.db.endpoints))
            after.1
    pub pats : after.0.db.pats ≡ site.0.db.pats
    pub cache : Shrinks R site.0.redis after.0.redis

  abbrev pub Promise :
      Text
      → ApiPatchRequest
      → UserClaims
      → Site R G urlparse
      → Reply Saved × Site R G urlparse
      → Type 0
  Promise api_id req user site (done saved, after) =
      (row : Api) × Patched api_id req user site saved after row
  Promise api_id req user site (cdp_error c, after) = after ≡ site
  Promise api_id req user site (http n, after) =
      (after.0.db.apis ≡ site.0.db.apis)
      × ((after ≡ site)
          ⊎ ((path : Text) × Checked path req.endpoints
              × (after.0.db.endpoints ≡ replace_rows api_id req.endpoints site.0.db.endpoints)))

  check_endpoints-Checked :
      (path : Text) (es : Option (List Endpoint))
      → check_endpoints R G urlparse path es ≡ done tt
      → Checked path es
  check_endpoints-Checked path none h = tt
  check_endpoints-Checked path (some es) h =
      let (valid, distinct) =
        and_then-done (assert_valid_endpoints urlparse path es) (no_duplicates es) h in
      ((assert_valid_endpoints_lem urlparse path es valid).0, no_duplicates-done es distinct)

  republish-Served :
      (code path : Text) (es : List Endpoint) (r : Bool × Routes)
      → (republish R G urlparse code path es r).0 ≡ true
      → Served code path es (republish R G urlparse code path es r).1
  republish-Served code path es (false, g) h = cc
  republish-Served code path es (true, g) h = (g, pair_eq _ h)

  sync_routes-Served :
      (row : Api) (path : Text) (requested : ApiStatus) (es : List Endpoint) (g : Routes)
      → is_published requested ≡ true
      → (sync_routes R G urlparse row path requested es true g).0 ≡ true
      → Served row.api_code path es (sync_routes R G urlparse row path requested es true g).1
  unfolding sync_routes
  sync_routes-Served row path requested es g a h =
      rw a (republish-Served row.api_code path es (drop_old R G urlparse row path g) (rw a at h))

  sync_routes-Served_if :
      (row : Api) (path : Text) (requested : ApiStatus) (es : List Endpoint) (g : Routes)
      (changed : Bool)
      → changed ≡ true
      → is_published (
          if not (sync_routes R G urlparse row path requested es changed g).0
            && is_published requested
          then draft
          else requested)
        ≡ true
      → Served row.api_code path es (sync_routes R G urlparse row path requested es changed g).1
  sync_routes-Served_if row path requested es g false c h = cc
  sync_routes-Served_if row path requested es g true c h =
      let (came, asked) =
        final_published (sync_routes R G urlparse row path requested es true g).0 requested h in
      sync_routes-Served row path requested es g asked came

  sync_routes-Served_or :
      (row : Api) (path : Text) (requested : ApiStatus) (es : List Endpoint) (g : Routes)
      (changed : Bool)
      → ((changed
            && is_published (
                if not (sync_routes R G urlparse row path requested es changed g).0
                  && is_published requested
                then draft
                else requested))
          ≡ false)
        ⊎ Served row.api_code path es (sync_routes R G urlparse row path requested es changed g).1
  sync_routes-Served_or row path requested es g changed =
      let final =
        if not (sync_routes R G urlparse row path requested es changed g).0
          && is_published requested
        then draft
        else requested in
      elim (Bool-cases (changed && is_published final)) [
        | inr e ↦ inl e
        | inl e ↦
            let (a, b) = and-true changed (is_published final) e in
            inr (sync_routes-Served_if row path requested es g changed a b)
      ]

  flush-Shrinks :
      (changed : Bool) (api_id : Text) (st : Portal R)
      → Shrinks R st.redis (flush R G urlparse changed api_id st).redis
        × ((flush R G urlparse changed api_id st).db ≡ st.db)
  flush-Shrinks changed api_id st =
      elim (Bool-cases (changed && not (is_empty (tokens_for_api api_id st.db)))) [
        | inl e ↦ rw e (invalidate_jwt_cache-Shrinks R (tokens_for_api api_id st.db) st.redis, refl)
        | inr e ↦ rw e (Shrinks-refl R st.redis, refl)
      ]

  apply_patch-Promise :
      (api_id : Text) (req : ApiPatchRequest) (user : UserClaims) (row : Api)
      (site : Site R G urlparse)
      → find_api api_id site.0.db.apis ≡ some row
      → patch_checks R G urlparse req user row ≡ done tt
      → Promise api_id req user site (apply_patch R G urlparse api_id req row site)
  unfolding apply_patch
  apply_patch-Promise api_id req user row (st, g) f h =
      let path = or_old req.public_path row.public_path in
      let (allowed, rest) = and_then-done (assert_can_modify row user) _ h in
      let (_, rest') = and_then-done (check_base req.public_path) _ rest in
      let (checked, _) = and_then-done (check_endpoints R G urlparse path req.endpoints) _ rest' in
      elim (Bool-cases (path_taken api_id req.public_path st.db.apis)) [
        | inl e ↦ rw e (refl, inr (path, check_endpoints-Checked path req.endpoints checked, refl))
        | inr e ↦ rw e (
          row,
          record {
            found = f;
            allowed = allowed;
            checked = check_endpoints-Checked path req.endpoints checked;
            rows = ap (λ (d : Db). d.endpoints) (flush-Shrinks _ api_id _).1;
            served = sync_routes-Served_or row path _ _ g _;
            pats = ap (λ (d : Db). d.pats) (flush-Shrinks _ api_id _).1;
            cache = (flush-Shrinks _ api_id _).0;
          },
        )
      ]

  patch_found-Promise :
      (api_id : Text) (req : ApiPatchRequest) (user : UserClaims) (site : Site R G urlparse)
      (found : Option Api)
      → find_api api_id site.0.db.apis ≡ found
      → Promise api_id req user site (patch_found R G urlparse api_id req user found site)
  unfolding patch_found
  patch_found-Promise api_id req user site none f = (refl, inl refl)
  patch_found-Promise api_id req user site (some row) f =
      refuse_cases (Promise api_id req user site) (patch_checks R G urlparse req user row)
        (λ r. (r, site)) (apply_patch R G urlparse api_id req row site) (λ c. refl)
        (λ n. (refl, inl refl)) (apply_patch-Promise api_id req user row site f)

  -- Where `patch_api` succeeds, the caller may modify the API, the endpoints that the request has
  -- passed every check and replace the old ones, the tokens are untouched and the cache only loses
  -- entries; and where the routes were affected and the answer says PUBLISHED, the routes of the
  -- stored endpoints were registered and the smoke test passed. Where it refuses with a CDP code
  -- nothing has changed; with an HTTP error no API has, and the endpoints are as they were or were
  -- replaced by ones that passed every check.
  pub patch_api_lem :
      (api_id : Text) (req : ApiPatchRequest) (user : UserClaims) (site : Site R G urlparse)
      → Promise api_id req user site (patch_api R G urlparse api_id req user site)
  unfolding patch_api
  patch_api_lem api_id req user site =
      patch_found-Promise api_id req user site (find_api api_id site.0.db.apis) refl
