-- ===== src/Catalog/Patch.antt =====
-- `patch_api` and `delete_api` of services/portal-backend/routers/catalog.py. The texts of the four
-- statuses are the constructors; another text violates the table's CHECK and is not modelled.
pub mod Laws
pub mod Deletion
use api_portal.Prelude.{
  Bool, List, Option, Text, any, false, if◌then◌else◌, is_empty, keep, none, not, some, text_eq,
  true, ◌&&◌, ◌++◌, ◌||◌,
}
use api_portal.Errors.{Reply, done, cdp_error, http, cdp_4009}
use api_portal.Auth.{UserClaims}
use api_portal.Redis.{Redis}
use api_portal.Redis.Client.{invalidate_jwt_cache}
use api_portal.Database.{Db, Application, Api, Endpoint, ApiStatus, draft, is_published}
use api_portal.Portal.{Portal}
use api_portal.Catalog.Checks.{
  Url, and_then, assert_can_modify, assert_valid_public_base, assert_valid_endpoints,
}
use api_portal.Catalog.Publish.{
  Gateway, ApiPatchRequest, Saved, Site, or_old, given, differs_status, differs_text, refuse,
  no_duplicates, rows_for, find_api, update_api, tokens_for_api, publish,
}

-- `all(v is None for v in (…))`
abbrev pub no_fields : ApiPatchRequest → Bool
no_fields req = not (
    given req.status
    || given req.name
    || given req.description
    || given req.owner_dept
    || given req.public_path
    || given req.required_roles
    || given req.endpoints
    || req.openapi_spec)

abbrev pub check_base : Option Text → Reply Unit
check_base none = done tt
check_base (some path) = assert_valid_public_base path

-- `route_relevant_changed`
abbrev pub route_relevant_changed : ApiPatchRequest → Api → Bool
route_relevant_changed req row =
    differs_status req.status row.status
    || differs_text req.public_path row.public_path
    || given req.endpoints

-- The rows of an API, and all rows without them.
abbrev pub rows_at : Text → List Endpoint → List Endpoint
rows_at api_id = keep λ (e : Endpoint). text_eq e.api_id api_id

abbrev pub rows_off : Text → List Endpoint → List Endpoint
rows_off api_id = keep λ (e : Endpoint). not (text_eq e.api_id api_id)

-- The transaction that replaces the rows, if the request has any.
unfoldable pub replace_rows : Text → Option (List Endpoint) → List Endpoint → List Endpoint
replace_rows api_id none rows = rows
replace_rows api_id (some es) rows = rows_for api_id es ++ rows_off api_id rows

-- The UPDATE; a status that neither was asked for nor changed stays, and so it is the same value.
abbrev pub set_fields : ApiPatchRequest → ApiStatus → Api → Api
set_fields req final_status row = record row {
  status = final_status;
  name = or_old req.name row.name;
  description = elim req.description [ none ↦ row.description | some d ↦ some d ];
  owner_dept = or_old req.owner_dept row.owner_dept;
  public_path = or_old req.public_path row.public_path;
  required_roles = or_old req.required_roles row.required_roles;
}

-- Another API has the new Public Base.
abbrev pub path_taken : Text → Option Text → List Api → Bool
path_taken api_id none apis = false
path_taken api_id (some path) apis =
    any (λ (a : Api). not (text_eq a.api_id api_id) && text_eq a.public_path path) apis

module _ (R : Redis) (G : Gateway) (urlparse : Text → Option Url) where
  open G use {Routes, delete_api_routes}

  abbrev pub check_endpoints : Text → Option (List Endpoint) → Reply Unit
  check_endpoints path none = done tt
  check_endpoints path (some es) =
      and_then (assert_valid_endpoints urlparse path es) (no_duplicates es)

  -- Everything that refuses the request before anything is written.
  abbrev pub patch_checks : ApiPatchRequest → UserClaims → Api → Reply Unit
  patch_checks req user row = and_then (assert_can_modify row user) (
      and_then (check_base req.public_path) (
        and_then (check_endpoints (or_old req.public_path row.public_path) req.endpoints)
          (if no_fields req then http 400 else done tt)))

  -- The routes under the old Public Base go first; an exception there leaves the rest undone.
  abbrev pub republish : Text → Text → List Endpoint → Bool × Routes → Bool × Routes
  republish code path es (false, g) = (false, g)
  republish code path es (true, g) = publish R G urlparse code path es g

  abbrev pub drop_old : Api → Text → Routes → Bool × Routes
  drop_old row path g =
      if is_published row.status && not (text_eq path row.public_path)
      then delete_api_routes row.api_code row.public_path g
      else (true, g)

  -- The `try` block: whether no exception came, and the gateway.
  unfoldable pub sync_routes :
      Api → Text → ApiStatus → List Endpoint → Bool → Routes → Bool × Routes
  sync_routes row path requested es changed g =
      let published_now = republish row.api_code path es (drop_old row path g) in
      let withdrawn = delete_api_routes row.api_code row.public_path g in
      if not changed
      then (true, g)
      else if is_published requested
      then published_now
      else if is_published row.status
      then withdrawn
      else (true, g)

  -- The flush of the JWT cache.
  abbrev pub flush : Bool → Text → Portal R → Portal R
  flush changed api_id st =
      let ids = tokens_for_api api_id st.db in
      let flushed = (invalidate_jwt_cache R ids st.redis).1 in
      if changed && not (is_empty ids) then record st { redis = flushed } else st

  -- From the replacement of the rows on. An UPDATE that takes another API's Public Base violates
  -- the unique column; nobody catches that, and what was done before stays.
  unfoldable pub apply_patch :
      Text → ApiPatchRequest → Api → Site R G urlparse → Reply Saved × Site R G urlparse
  unfolding replace_rows sync_routes
  apply_patch api_id req row (st, g) =
      let path = or_old req.public_path row.public_path in
      let requested = or_old req.status row.status in
      let changed = route_relevant_changed req row in
      let rows = replace_rows api_id req.endpoints st.db.endpoints in
      let (served, g') = sync_routes row path requested (rows_at api_id rows) changed g in
      let final_status = if not served && is_published requested then draft else requested in
      let replaced : Portal R = record st { db = record st.db { endpoints = rows } } in
      let updated : Portal R = record st {
        db = record st.db {
          endpoints = rows;
          apis = update_api api_id (set_fields req final_status) st.db.apis;
        };
      } in
      if path_taken api_id req.public_path st.db.apis then (http 500, (replaced, g')) else (
        done (record { status = final_status; warning = not served }),
        (flush changed api_id updated, g'),
      )

  unfoldable pub patch_found :
      Text
      → ApiPatchRequest
      → UserClaims
      → Option Api
      → Site R G urlparse
      → Reply Saved × Site R G urlparse
  unfolding apply_patch
  patch_found api_id req user none site = (http 404, site)
  patch_found api_id req user (some row) site =
      refuse (patch_checks req user row) (λ r. (r, site)) (apply_patch api_id req row site)

  unfoldable pub patch_api :
      Text → ApiPatchRequest → UserClaims → Site R G urlparse → Reply Saved × Site R G urlparse
  unfolding patch_found find_api
  patch_api api_id req user site = patch_found api_id req user (find_api api_id site.0.db.apis) site

  -- The row and, by `ON DELETE CASCADE`, its endpoints. An exception of the gateway is ignored.
  abbrev pub delete_row : Text → Api → Site R G urlparse → Site R G urlparse
  delete_row api_id row (st, g) =
      let withdrawn = (delete_api_routes row.api_code row.public_path g).1 in
      (
        record st {
          db = record st.db {
            apis = keep (λ (a : Api). not (text_eq a.api_id api_id)) st.db.apis;
            endpoints = rows_off api_id st.db.endpoints;
          };
        },
        if is_published row.status then withdrawn else g,
      )

  abbrev pub in_use : Text → Db → Bool
  in_use api_id db = any (λ (a : Application). text_eq a.api_id api_id) db.applications

  unfoldable pub delete_found :
      Text → UserClaims → Option Api → Site R G urlparse → Reply Unit × Site R G urlparse
  delete_found api_id user none site = (http 404, site)
  delete_found api_id user (some row) site =
      let deleted =
        if in_use api_id site.0.db
        then (cdp_error cdp_4009, site)
        else (done tt, delete_row api_id row site) in
      refuse (assert_can_modify row user) (λ r. (r, site)) deleted

  unfoldable pub delete_api : Text → UserClaims → Site R G urlparse → Reply Unit × Site R G urlparse
  unfolding delete_found find_api
  delete_api api_id user site = delete_found api_id user (find_api api_id site.0.db.apis) site
